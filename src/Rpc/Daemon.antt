-- ===== src/Rpc/Daemon.antt =====
-- internal/downloader/aria2.go: StartDaemon and Stop, on a process that the host runs.
use imgpull.Base.{
  ℕ, zero, suc, ltb, ◌+◌, ◌*◌, ◌/◌, ◌%◌, Bool, true, false, ◌||◌, Option, none, some, List, [], ◌∷◌,
  ◌++◌, Bytes, codes, bytes_eq, is_empty, to_lower, trim_space, decimal, second, ℤ, pos, negsuc,
  Result, ok, err, ◌>>=◌, if◌then◌else◌,
}
use imgpull.Retry.{GoError, plain, wrapped}
use imgpull.Rpc.{Wire, Rpc, truncate}
use imgpull.Rpc.Call.{get_version, shutdown}
use imgpull.Rpc.Endpoint.{normalize_endpoint}

pub record DaemonOptions : Type 0 where
  pub dir : Bytes
  pub log_path : Bytes
  pub concurrent_downloads : ℤ

-- The machine: what may fail before the process runs, and in each round of the wait what the context
-- says, whether the process is gone, what it has written, and which ready case `select` picks (the
-- context where `picks_context` holds). `exits_after` says whether a process that is asked to shut
-- down in the first round is gone in the second; `proxy_order` is the order in which Go walks the map.
pub record Host : Type 0 where
  pub look_path : Bytes → Result GoError Bytes
  pub listen : Result GoError ℕ
  pub random : Result GoError (List ℕ)
  pub mkdir_failure : Bytes → Option GoError
  pub pipe_failure : Option GoError
  pub start_failure : Bytes → List Bytes → Option GoError
  pub getenv : Bytes → Bytes
  pub proxy_order : List (Bytes × Bytes)
  pub pid : ℕ
  pub started : ℕ
  pub now : ℕ → ℕ
  pub context : ℕ → Option GoError
  pub exited : ℕ → Bool
  pub picks_context : ℕ → Bool
  pub stderr : ℕ → Bytes
  pub exits_after : ℕ → ℕ → Bool

-- What has become of the process: `killed` is one that did not go when asked.
pub data Process : Type 0 where
  unstarted running gone killed : Process

pub record Daemon : Type 0 where
  pub rpc : Rpc
  pub port : ℕ
  pub secret : Bytes

abbrev pub Start : Type 0
Start = Process × Result GoError Daemon

-- `NewRPC`
unfoldable pub new_rpc : Bytes → Bytes → Rpc
unfolding normalize_endpoint
new_rpc endpoint secret = record { endpoint = normalize_endpoint endpoint; secret = secret; id = 0 }

abbrev pub hex_of : ℕ → ℕ
hex_of n = if ltb n 10 then 48 + n else 87 + n

-- `hex.EncodeToString`
unfoldable pub hex_encode : List ℕ → Bytes
hex_encode [] = []
hex_encode (b ∷ bs) = hex_of (b / 16) ∷ hex_of (b % 16) ∷ hex_encode bs

-- `randomSecret`
unfoldable pub random_secret : Host → Result GoError Bytes
unfolding hex_encode
random_secret h = h.random >>= λ bytes. ok (hex_encode bytes)

-- `proxyEnvMap`
abbrev pub proxy_env_map : List (Bytes × Bytes)
proxy_env_map =
    (codes "HTTP_PROXY", codes "--http-proxy")
    ∷ (codes "HTTPS_PROXY", codes "--https-proxy")
    ∷ (codes "ALL_PROXY", codes "--all-proxy")
    ∷ (codes "NO_PROXY", codes "--no-proxy")
    ∷ []

abbrev pub has_seen : List Bytes → Bytes → Bool
has_seen [] flag = false
has_seen (s ∷ ss) flag = bytes_eq s flag || has_seen ss flag

-- The variable, and the one in small letters where it is empty.
abbrev pub proxy_value : (Bytes → Bytes) → Bytes → Bytes
proxy_value getenv name = if is_empty (getenv name) then getenv (to_lower name) else getenv name

-- `proxyArgs`, over the entries in the order of the walk and the flags seen.
unfoldable pub proxy_args : (Bytes → Bytes) → List Bytes → List (Bytes × Bytes) → List Bytes
proxy_args getenv seen [] = []
proxy_args getenv seen ((name, flag) ∷ entries) =
    let v = proxy_value getenv name in
    elim (is_empty v || has_seen seen flag) [
      | true ↦ proxy_args getenv seen entries
      | false ↦ (flag ++ b'=' ∷ v) ∷ proxy_args getenv (flag ∷ seen) entries
    ]

abbrev pub downloads_at_once : ℤ → ℕ
downloads_at_once (pos zero) = 3
downloads_at_once (pos (suc n)) = suc n
downloads_at_once (negsuc n) = 3

abbrev pub log_args : Bytes → List Bytes
log_args path =
    if is_empty path then [] else (codes "--log=" ++ path) ∷ codes "--log-level=notice" ∷ []

-- The command line of aria2c.
unfoldable pub daemon_args : Host → DaemonOptions → ℕ → Bytes → List Bytes
unfolding proxy_args
daemon_args h o port secret =
    codes "--enable-rpc=true"
    ∷ codes "--rpc-listen-all=false"
    ∷ (codes "--rpc-listen-port=" ++ decimal port)
    ∷ (codes "--rpc-secret=" ++ secret)
    ∷ codes "--continue=true"
    ∷ codes "--allow-overwrite=false"
    ∷ codes "--auto-file-renaming=false"
    ∷ codes "--max-connection-per-server=1"
    ∷ codes "--split=1"
    ∷ (codes "--max-concurrent-downloads=" ++ decimal (downloads_at_once o.concurrent_downloads))
    ∷ codes "--max-tries=5"
    ∷ codes "--retry-wait=3"
    ∷ codes "--timeout=60"
    ∷ codes "--connect-timeout=30"
    ∷ codes "--file-allocation=none"
    ∷ codes "--quiet=true"
    ∷ codes "--summary-interval=0"
    ∷ (codes "--stop-with-process=" ++ decimal h.pid)
    ∷ (codes "--dir=" ++ o.dir)
    ∷ (log_args o.log_path ++ proxy_args h.getenv [] h.proxy_order)

-- The `select` of `Stop`, from round `n` on, for a process that was asked to go in round `asked`: it is
-- gone, or five seconds are over and it is killed. `none` is a wait that still goes on.
unfoldable pub wait_gone : Host → ℕ → ℕ → ℕ → Option Process
wait_gone h asked zero n = none
wait_gone h asked (suc fuel) n =
    let later = wait_gone h asked fuel (n + 1) in
    if h.exits_after asked n
    then some gone
    else if ltb (h.now asked + 5 * second) (h.now n)
    then some killed
    else later

abbrev pub Stopped : Type 0
Stopped = Option (Daemon × Process)

-- `Stop`, in a round of the host: the process is asked to shut down, and killed if it stays.
unfoldable pub stop : Host → Wire → ℕ → Daemon → Stopped
unfolding shutdown wait_gone
stop h w tick d = elim (wait_gone h tick 52 tick) [
  | none ↦ none
  | some process ↦ some (record d { rpc = (shutdown w tick d.rpc).0 }, process)
]

-- The `select` of a round.
pub data Selected : Type 0 where
  context_done : GoError → Selected
  process_gone nothing_ready : Selected

unfoldable pub selected : Host → ℕ → Selected
selected h n = elim (h.context n) [
  | none ↦ if h.exited n then process_gone else nothing_ready
  | some e ↦ elim (h.exited n) [
    | false ↦ context_done e
    | true ↦ if h.picks_context n then context_done e else process_gone
  ]
]

abbrev pub startup_error : Bytes → GoError
startup_error said =
    plain (codes "aria2c exited during startup: " ++ truncate (trim_space said) 400)

abbrev pub failed_with : GoError → Stopped → Option Start
failed_with e none = none
failed_with e (some (d, process)) = some (process, err e)

-- What a round with no answer ends in, or `none` for one more round. The end is `none` itself where
-- `Stop` still waits.
unfoldable pub react : Host → Wire → ℕ → Daemon → GoError → Selected → Option (Option Start)
unfolding stop
react h w n d e (context_done failure) = some (failed_with failure (stop h w n d))
react h w n d e process_gone = some (some (gone, err (startup_error (h.stderr n))))
react h w n d e nothing_ready =
    if ltb (h.started + 15 * second) (h.now n)
    then some (failed_with (wrapped e) (stop h w n d))
    else none

-- The wait for the first answer, from round `n` on.
unfoldable pub wait_ready : Host → Wire → ℕ → ℕ → Daemon → Option Start
unfolding get_version selected react
wait_ready h w zero n d = none
wait_ready h w (suc fuel) n d =
    let answer = get_version w n d.rpc in
    let d' : Daemon = record d { rpc = answer.0 } in
    elim answer.1 [
      | ok version ↦ some (running, ok d')
      | err e ↦ elim (react h w n d' e (selected h n)) [
        | some ending ↦ ending
        | none ↦ wait_ready h w fuel (n + 1) d'
      ]
    ]

-- The daemon that is about to run, its program and its arguments.
abbrev pub Prepared : Type 0
Prepared = Daemon × Bytes × List Bytes

abbrev pub failing : Option GoError → Result GoError (Unit {0})
failing none = ok tt
failing (some e) = err e

abbrev pub find_program : Host → Result GoError Bytes
find_program h = elim (h.look_path (codes "aria2c")) [ ok path ↦ ok path | err e ↦ err (wrapped e) ]

abbrev loopback : ℕ → Bytes
loopback port = codes "http://127.0.0.1:" ++ (decimal port ++ codes "/jsonrpc")

-- `StartDaemon`, up to the start of the process.
unfoldable pub prepare : Host → DaemonOptions → Result GoError Prepared
unfolding random_secret daemon_args new_rpc
prepare h o = find_program h >>= λ program. h.listen >>= λ port. random_secret h >>= λ secret.
    failing (h.mkdir_failure o.dir) >>= λ _. failing h.pipe_failure >>= λ _. ok (
      record { rpc = new_rpc (loopback port) secret; port = port; secret = secret },
      program,
      daemon_args h o port secret,
    )

-- `StartDaemon`
unfoldable pub start_daemon : Host → Wire → DaemonOptions → ℕ → Option Start
unfolding prepare wait_ready
start_daemon h w o fuel = elim (prepare h o) [
  | err e ↦ some (unstarted, err e)
  | ok (d, program, args) ↦ elim (h.start_failure program args) [
    | some e ↦ some (unstarted, err (wrapped e))
    | none ↦ wait_ready h w fuel 0 d
  ]
]

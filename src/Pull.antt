-- ===== src/Pull.antt =====
-- cmd/imgpull/main.go: parseProxy, connectAria2 and pull, which puts the parts together.
pub mod Verified
pub mod Fetching
pub mod Guarantees
use imgpull.Base.{
  ℕ, zero, suc, ◌≡◌, Bool, true, false, not, ◌||◌, Option, none, some, List, [], ◌∷◌, Bytes, codes,
  bytes_eq, is_empty, if◌then◌else◌, Result, ok, err, is_ok, ℤ, pos, negsuc,
}
use imgpull.Files.{Disk}
use imgpull.Retry.{GoError, plain, wrapped}
use imgpull.Platform.{Platform, parse_platform}
use imgpull.Reference.{Names, Ref, parse, ref_dir}
use imgpull.Manifest.{ImageManifest}
use imgpull.Manifest.Fetch.{Remote}
use imgpull.Manifest.Retrying.{Patience, resolve_manifest_opts}
use imgpull.Plan.{World, Deps, Plan, save_final}
use imgpull.Plan.Tasks.{pending_objects}
use imgpull.Plan.Build.{build, built, refused, panicked, release}
use imgpull.Registry.{Net, Repository, Session}
use imgpull.Rpc.{Wire, Rpc}
use imgpull.Rpc.Call.{get_version}
use imgpull.Rpc.Service.{client}
use imgpull.Rpc.Daemon.{Host, Daemon, Process, unstarted, new_rpc, start_daemon, stop}
use imgpull.Scheduler.{Config, Sched}
use imgpull.Scheduler.Run.{RunEnd, run}
use imgpull.Layout.{Indents, ensure_layout, write_index}

-- A parsed URL, as far as it is read.
pub record ProxyUrl : Type 0 where
  pub scheme : Bytes
  pub host : Bytes

pub data ProxyError : Type 0 where
  invalid_proxy unsupported_scheme : Bytes → ProxyError

-- `parseProxy`, over `url.Parse`; `ok none` is the nil URL.
unfoldable pub parse_proxy : (Bytes → Option ProxyUrl) → Bytes → Result ProxyError (Option ProxyUrl)
parse_proxy parse_url s = if is_empty s then ok none else (elim (parse_url s) [
  | none ↦ err (invalid_proxy s)
  | some u ↦
      if is_empty u.scheme || is_empty u.host
      then err (invalid_proxy s)
      else if bytes_eq u.scheme (codes "http")
          || (bytes_eq u.scheme (codes "https") || bytes_eq u.scheme (codes "socks5"))
      then ok (some u)
      else err (unsupported_scheme u.scheme)
])

-- `pullConfig`; the download root is the place of the disk.
pub record PullConfig : Type 0 where
  pub image : Bytes
  pub platform_flag : Bytes
  pub aria2_rpc : Bytes
  pub aria2_secret : Bytes
  pub concurrency : ℤ
  pub max_retries : ℤ
  pub export : Bytes
  pub username : Bytes
  pub password : Bytes
  pub proxy : Bytes
  pub insecure : Bool
  pub verify : Bool

-- What `pull` stands on: go-containerregistry for the reference and the manifest, the network and the
-- context, aria2 and the machine, JSON, the clock, the order in which the pending tasks get their turn,
-- and the tag and the writer of package export.
pub record Outside : Type 0 where
  pub names : Names
  pub parse_url : Bytes → Option ProxyUrl
  pub remote : Ref → PullConfig → Remote
  pub patience : Patience
  pub deps : Deps
  pub net : Ref → Net
  pub repo : Ref → Repository
  pub clock : ℕ → ℕ
  pub host : Host
  pub wire : Wire
  pub tmp_dir : Bytes
  pub counter : ℕ → ℕ
  pub works : ℕ → Disk → Disk
  pub error_text : GoError → Bytes
  pub session : Session
  pub order : List ℕ → List ℕ
  pub indents : Indents
  pub saved_at : ℕ
  pub has_tag : Plan → Bool
  pub docker_archive : Plan → Disk → Disk × Bool

-- `connectAria2`: an endpoint of the user's, or a daemon. `none` is a start that still waits.
unfoldable pub connect_aria2 : Outside → PullConfig → Option (Result GoError (Rpc × Option Daemon))
unfolding new_rpc start_daemon get_version
connect_aria2 o cfg =
    let rpc = new_rpc cfg.aria2_rpc cfg.aria2_secret in
    let pinged = get_version o.wire o.session.tick rpc in
    elim (is_empty cfg.aria2_rpc) [
      | false ↦ elim (pinged.1) [
        | err e ↦ some (err (wrapped e))
        | ok version ↦ some (ok (pinged.0, none))
      ]
      | true ↦
          elim (start_daemon o.host o.wire
            (record { dir = o.tmp_dir; log_path = []; concurrent_downloads = cfg.concurrency })
            152) [
              | none ↦ none
              | some (process, err e) ↦ some (err e)
              | some (process, ok d) ↦ some (ok (d.rpc, some d))
            ]
    ]

-- The defaults of `NewScheduler`.
abbrev pub retries_or_five : ℤ → ℕ
retries_or_five (pos zero) = 5
retries_or_five (pos (suc n)) = suc n
retries_or_five (negsuc n) = 5

-- aria2 cannot use a SOCKS proxy.
abbrev pub sched_proxy : PullConfig → Option ProxyUrl → Bytes
sched_proxy cfg none = cfg.proxy
sched_proxy cfg (some u) =
    if bytes_eq u.scheme (codes "http") || bytes_eq u.scheme (codes "https") then cfg.proxy else []

-- The scheduler of `pull`.
unfoldable pub new_config : Outside → PullConfig → Ref → Option ProxyUrl → Rpc → Config
unfolding client
new_config o cfg ref proxy rpc = record {
  deps = o.deps;
  net = record (o.net ref) { insecure = cfg.insecure };
  aria2 = client o.wire rpc o.counter o.works o.error_text;
  repo = o.repo ref;
  auth = true;
  proxy = sched_proxy cfg proxy;
  max_retries = retries_or_five cfg.max_retries;
}

-- Step 4 of `pull`: the world after it, whether it goes on, and the daemon that a deferred `Stop` is
-- about, with the number of the step that the run has come to.
pub record Fetched : Type 0 where
  pub world : World
  pub goes_on : Bool
  pub daemon : Option Daemon
  pub tick : ℕ

unfoldable pub fetch_blobs :
    Outside → PullConfig → ℕ → Ref → Option ProxyUrl → World → Option Fetched
unfolding connect_aria2 new_config run
fetch_blobs o cfg fuel ref proxy w = elim (pending_objects (w.plan.objects)) [
  | [] ↦ some (record { world = w; goes_on = true; daemon = none; tick = 0 })
  | _ ∷ _ ↦ elim (connect_aria2 o cfg) [
    | none ↦ none
    | some (err e) ↦ some (record { world = w; goes_on = false; daemon = none; tick = 0 })
    | some (ok (rpc, daemon)) ↦
        elim (run (new_config o cfg ref proxy rpc) fuel o.order
          (record { world = w; session = o.session })) [
            | none ↦ none
            | some end ↦ some (record {
              world = end.sched.world;
              goes_on = is_ok end.result;
              daemon = daemon;
              tick = end.sched.session.tick;
            })
          ]
  ]
]

-- Step 6: whether the export succeeds, where it is asked for.
unfoldable pub export_image : Outside → PullConfig → Plan → Disk → Disk × Bool
export_image o cfg p d =
    if not (bytes_eq cfg.export (codes "docker-archive"))
    then (d, true)
    else if not (o.has_tag p)
    then (d, false)
    else o.docker_archive p d

-- Steps 5 and 6, on the disk.
unfoldable pub assemble :
    Outside → PullConfig → ImageManifest → Platform → Ref → Plan → Disk → Disk × Bool
unfolding ensure_layout write_index export_image
assemble o cfg m plat ref p d =
    let ensured = ensure_layout o.indents d in
    let indexed = write_index o.indents m plat (ref_dir ref) ensured.0 in
    if not (ensured.1)
    then ensured
    else if not (indexed.1)
    then indexed
    else export_image o cfg p indexed.0

abbrev pub Exit : Type 0
Exit = ℕ × Disk

-- The end of `pull` behind `Build`: the deferred `Release`, and the exit code.
unfoldable pub finish_pull :
    Outside → PullConfig → ImageManifest → Platform → Ref → World × Bool → Exit
unfolding save_final assemble release
finish_pull o cfg m plat ref (w, fetched) =
    let saved = (save_final o.deps o.saved_at w).0 in
    let made = assemble o cfg m plat ref (saved.plan) (saved.disk) in
    if not fetched then (1, (release o.deps o.saved_at w).disk) else (
      if made.1 then 0 else 1,
      (release o.deps o.saved_at (record saved { disk = made.0 })).disk,
    )

abbrev pub platform_or_default : Bytes → Bytes
platform_or_default flag = if is_empty flag then codes "linux/amd64" else flag

-- The deferred `daemon.Stop()`, which acts on the process alone. `none` is a `Stop` that still waits.
unfoldable pub stop_daemon : Outside → Fetched → Option Process
unfolding stop
stop_daemon o fetched = elim fetched.daemon [
  | none ↦ some unstarted
  | some d ↦ elim (stop o.host o.wire fetched.tick d) [
    | none ↦ none
    | some (_, process) ↦ some process
  ]
]

-- Steps 3 to 7, with the manifest. A panic of `Build` exits with 2.
unfoldable pub pull_manifest :
    Outside → PullConfig → ℕ → Option ProxyUrl → Ref → Platform → ImageManifest → Disk → Option Exit
unfolding build fetch_blobs finish_pull stop_daemon
pull_manifest o cfg fuel proxy ref plat m d = elim (build o.deps ref m plat cfg.verify o.clock d) [
  | refused e d' ↦ some (1, d')
  | panicked digest d' ↦ some (2, d')
  | built w ↦ elim (fetch_blobs o cfg fuel ref proxy w) [
    | none ↦ none
    | some fetched ↦ elim (stop_daemon o fetched) [
      | none ↦ none
      | some _ ↦ some (finish_pull o cfg m plat ref (fetched.world, fetched.goes_on))
    ]
  ]
]

-- `pull`, with the exit code and the disk that it leaves. `none` is a poll that still goes on.
unfoldable pub pull : Outside → PullConfig → ℕ → Disk → Option Exit
unfolding parse_proxy parse parse_platform resolve_manifest_opts pull_manifest
pull o cfg fuel d = elim (parse_proxy o.parse_url cfg.proxy) [
  | err e ↦ some (2, d)
  | ok proxy ↦ elim (parse o.names cfg.image cfg.insecure) [
    | err e ↦ some (2, d)
    | ok ref ↦ elim (parse_platform (platform_or_default cfg.platform_flag)) [
      | err e ↦ some (2, d)
      | ok plat ↦ elim (resolve_manifest_opts (o.remote ref cfg) plat o.patience 0) [
        | err e ↦ some (1, d)
        | ok m ↦ pull_manifest o cfg fuel proxy ref plat m d
      ]
    ]
  ]
]

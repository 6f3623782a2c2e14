-- ===== src/Rpc/Startup.antt =====
-- internal/downloader/aria2.go: StartDaemon ends, and what it leaves behind.
use imgpull.Base.{
  is_some-ne-none, has_suffix, codes, decimal, ◌++◌, List, ap, ok-injective, append_assoc, contains,
  has_prefix, ℕ, zero, suc, ltb, ◌+◌, ◌*◌, ◌/◌, ◌≤◌, ◌<◌, ◌≡◌, ◌≢◌, inl, inr, refl, true, Option,
  none, some, Bytes, second, ok, err, is_some, Option-cases, Result-cases, Bool-cases, arith,
}
use mathlib.Core.Path.{subst}
use mathlib.Core.Option.{some-injective}
use imgpull.Retry.{GoError, wrapped}
use imgpull.Rpc.{Wire, Rpc}
use imgpull.Rpc.Call.{get_version, call}
use imgpull.Rpc.Endpoint.{rpc_path, normalize_endpoint, has_suffix-append, normalize_endpoint_full}
use imgpull.Rpc.Daemon.{
  Host, Process, running, gone, killed, Daemon, Start, Prepared, failing, find_program, failed_with,
  wait_gone, hex_encode, random_secret, new_rpc, DaemonOptions, Selected, context_done,
  process_gone, nothing_ready, selected, stop, react, wait_ready, prepare, start_daemon,
}

abbrev own_endpoint : ℕ → Bytes
own_endpoint port = codes "http://127.0.0.1:" ++ (decimal port ++ codes "/jsonrpc")

own_endpoint_full : (port : ℕ) → normalize_endpoint (own_endpoint port) ≡ own_endpoint port
unfolding contains has_prefix
own_endpoint_full port = normalize_endpoint_full (own_endpoint port) refl (
    subst (λ s. has_suffix s rpc_path ≡ true)
      (append_assoc (codes "http://127.0.0.1:") (decimal port) rpc_path)
      (has_suffix-append (codes "http://127.0.0.1:" ++ decimal port) rpc_path))

-- A daemon on the port that the host gave, with a secret of the bytes that it drew, and a client of the
-- two.
pub record IsOwn (h : Host) (d : Daemon) : Type 0 where
  pub listens : h.listen ≡ ok d.port
  pub secret : (bytes : List ℕ) × (h.random ≡ ok bytes) × (d.secret ≡ hex_encode bytes)
  pub endpoint : d.rpc.endpoint ≡ own_endpoint d.port
  pub authorized : d.rpc.secret ≡ d.secret

-- A getVersion at the daemon's own port and with its secret has been answered.
abbrev pub Answered : Wire → Daemon → Type 0
Answered w d =
    (n : ℕ) × (r : Rpc) × (version : Bytes) × (r.endpoint ≡ own_endpoint d.port)
    × (r.secret ≡ d.secret)
    × ((get_version w n r).1 ≡ ok version)

-- Started, the process runs and has answered; failed, it does not run.
abbrev pub IsTidy : Host → Wire → Start → Type 0
IsTidy h w (p, ok d) = (p ≡ running) × IsOwn h d × Answered w d
IsTidy h w (p, err e) = p ≢ running

abbrev pub IsTidyIf : Host → Wire → Option Start → Type 0
IsTidyIf h w none = Unit
IsTidyIf h w (some ending) = IsTidy h w ending

wait_gone-ne-running :
    (h : Host) (asked fuel n : ℕ) {p : Process} → wait_gone h asked fuel n ≡ some p → p ≢ running
unfolding wait_gone
wait_gone-ne-running h asked zero n e = cc
wait_gone-ne-running h asked (suc fuel) n {p} e = elim (Bool-cases (h.exits_after asked n)) [
  | inl left ↦ (let same : gone ≡ p = ground arith in λ r. cc)
  | inr stays ↦ elim (Bool-cases (ltb (h.now asked + 5 * second) (h.now n))) [
    | inl late ↦ (let same : killed ≡ p = ground arith in λ r. cc)
    | inr early ↦ wait_gone-ne-running h asked fuel (n + 1) (rw (wait_gone, stays, early) at e)
  ]
]

failed_with-IsTidyIf :
    (h : Host) (w : Wire) (n : ℕ) (d : Daemon) (e : GoError)
    → IsTidyIf h w (failed_with e (stop h w n d))
unfolding stop
failed_with-IsTidyIf h w n d e = elim (Option-cases (wait_gone h n 52 n)) [
  | inl waits ↦ rw (stop, waits) tt
  | inr (p, ends) ↦ rw (stop, ends) (wait_gone-ne-running h n 52 n ends)
]

react-IsTidyIf :
    (h : Host) (w : Wire) (n : ℕ) (d : Daemon) (e : GoError) (what : Selected)
    {ending : Option Start}
    → react h w n d e what ≡ some ending
    → IsTidyIf h w ending
unfolding react
react-IsTidyIf h w n d e (context_done failure) {ending} ends =
    subst (IsTidyIf h w) (some-injective _ _ ends) (failed_with-IsTidyIf h w n d failure)
react-IsTidyIf h w n d e process_gone {ending} ends =
    subst (IsTidyIf h w) (some-injective _ _ ends) (λ r. cc)
react-IsTidyIf h w n d e nothing_ready {ending} ends =
    elim (Bool-cases (ltb (h.started + 15 * second) (h.now n))) [
      | inl late ↦
          subst (IsTidyIf h w) (some-injective _ _ (rw (react, late) at ends))
            (failed_with-IsTidyIf h w n d (wrapped e))
      | inr early ↦ absurd (let b = rw (react, early) at ends in cc)
    ]

-- A call leaves the endpoint and the secret.
asked_again :
    (h : Host) (w : Wire) (n : ℕ) (d : Daemon)
    → IsOwn h d
    → IsOwn h (record d { rpc = (get_version w n d.rpc).0 })
unfolding get_version call
asked_again h w n d own = record {
  listens = own.listens;
  secret = own.secret;
  endpoint = own.endpoint;
  authorized = own.authorized;
}

wait_ready-IsTidyIf :
    (h : Host) (w : Wire) (fuel n : ℕ) (d : Daemon)
    → IsOwn h d
    → IsTidyIf h w (wait_ready h w fuel n d)
unfolding wait_ready
wait_ready-IsTidyIf h w zero n d own = tt
wait_ready-IsTidyIf h w (suc fuel) n d own = elim (Result-cases (get_version w n d.rpc).1) [
  | inl (version, answered) ↦
      rw (wait_ready, answered)
        (refl, asked_again h w n d own, (n, d.rpc, version, own.endpoint, own.authorized, answered))
  | inr (e, failed) ↦
      let d' : Daemon = record d { rpc = (get_version w n d.rpc).0 } in
      elim (Option-cases (react h w n d' e (selected h n))) [
        | inl more ↦
            rw (wait_ready, failed, more)
              (wait_ready-IsTidyIf h w fuel (n + 1) d' (asked_again h w n d own))
        | inr (ending, ends) ↦
            rw (wait_ready, failed, ends) (react-IsTidyIf h w n d' e (selected h n) ends)
      ]
]

prepare-IsOwn :
    (h : Host) (o : DaemonOptions) {d : Daemon} {program : Bytes} {args : List Bytes}
    → prepare h o ≡ ok (d, program, args)
    → IsOwn h d
unfolding prepare random_secret new_rpc
prepare-IsOwn h o {d} made = elim (Result-cases (find_program h)) [
  | inr (e, bad) ↦ absurd (let b = rw (prepare, bad) at made in cc)
  | inl (path, found) ↦ elim (Result-cases h.listen) [
    | inr (e, bad) ↦ absurd (let b = rw (prepare, found, bad) at made in cc)
    | inl (port, listens) ↦ elim (Result-cases h.random) [
      | inr (e, bad) ↦
          absurd (let b = rw (prepare, found, listens, random_secret, bad) at made in cc)
      | inl (bytes, drawn) ↦ elim (Result-cases (failing (h.mkdir_failure o.dir))) [
        | inr (e, bad) ↦
            absurd (let b = rw (prepare, found, listens, random_secret, drawn, bad) at made in cc)
        | inl (u, there) ↦ elim (Result-cases (failing h.pipe_failure)) [
          | inr (e, bad) ↦
              absurd (
                let b = rw (prepare, found, listens, random_secret, drawn, there, bad) at made in
                cc)
          | inl (v, piped) ↦
              let made_of : Daemon = record {
                rpc = new_rpc (own_endpoint port) (hex_encode bytes);
                port = port;
                secret = hex_encode bytes;
              } in
              let e = rw (prepare, found, listens, random_secret, drawn, there, piped) at made in
              let same : made_of ≡ d = ap (λ (p : Prepared). p.0) (ok-injective _ _ e) in
              subst (IsOwn h) same (record {
                listens = listens;
                secret = (bytes, drawn, refl);
                endpoint = own_endpoint_full port;
                authorized = refl;
              })
        ]
      ]
    ]
  ]
]

start_daemon-IsTidyIf :
    (h : Host) (w : Wire) (o : DaemonOptions) (fuel : ℕ) → IsTidyIf h w (start_daemon h w o fuel)
unfolding start_daemon
start_daemon-IsTidyIf h w o fuel = elim (Result-cases (prepare h o)) [
  | inr (e, failed) ↦ rw (start_daemon, failed) (ground arith)
  | inl ((d, program, args), ready) ↦ elim (Option-cases (h.start_failure program args)) [
    | inr (e, failed) ↦ rw (start_daemon, ready, failed) (ground arith)
    | inl started ↦
        rw (start_daemon, ready, started)
          (wait_ready-IsTidyIf h w fuel 0 d (prepare-IsOwn h o ready))
  ]
]

-- However StartDaemon ends, it leaves no process behind by mistake: when it returns a daemon, that has
-- the port that the host gave and the hex of the bytes that it drew for a secret, the client points to
-- that port on 127.0.0.1 with that secret, the process runs, and a getVersion there has been answered;
-- when it returns an error, there is no process, or the process is gone, or Stop has killed it.
pub start_daemon-IsTidy :
    (h : Host) (w : Wire) (o : DaemonOptions) (fuel : ℕ) {ending : Start}
    → start_daemon h w o fuel ≡ some ending
    → IsTidy h w ending
start_daemon-IsTidy h w o fuel {ending} ends = rw ends at (start_daemon-IsTidyIf h w o fuel)

-- The clock goes on by the pause of 100 ms between two rounds.
abbrev pub Ticks : Host → Type 0
Ticks h = (h.started ≤ h.now 0) × ((n : ℕ) → h.now n + second / 10 ≤ h.now (suc n))

rounds_take_time : (h : Host) → Ticks h → (n : ℕ) → h.started + n * (second / 10) ≤ h.now n
rounds_take_time h ticks zero = omega (arith, ticks.0)
rounds_take_time h ticks (suc n) = omega (arith, rounds_take_time h ticks n, ticks.1 n)

now_later :
    (h : Host)
    → Ticks h
    → (asked more n : ℕ) → n ≡ more + asked
    → h.now asked + more * (second / 10) ≤ h.now n
now_later h ticks asked zero n same = let here : n ≡ asked = omega arith in rw here (omega arith)
now_later h ticks asked (suc more) n same =
    let next : n ≡ suc (more + asked) = omega arith in
    rw next
      (omega (arith, now_later h ticks asked more (more + asked) refl, ticks.1 (more + asked)))

-- `Stop` waits for its five seconds at most.
wait_gone_ends :
    (h : Host) (asked fuel more n : ℕ)
    → Ticks h
    → n ≡ more + asked
    → 51 < fuel + more
    → 0 < fuel
    → is_some (wait_gone h asked fuel n) ≡ true
unfolding wait_gone
wait_gone_ends h asked zero more n ticks same enough some_left = absurd (omega arith)
wait_gone_ends h asked (suc fuel) more n ticks same enough some_left =
    elim (Bool-cases (h.exits_after asked n)) [
      | inl left ↦ rw (wait_gone, left) refl
      | inr stays ↦ elim (Bool-cases (ltb (h.now asked + 5 * second) (h.now n))) [
        | inl late ↦ rw (wait_gone, stays, late) refl
        | inr early ↦
            let few : more ≤ 50 = ground (arith, now_later h ticks asked more n same) in
            rw (wait_gone, stays, early)
              (wait_gone_ends h asked fuel (more + 1) (n + 1) ticks (omega arith) (omega arith)
                (omega arith))
      ]
    ]

pub stop_ends : (h : Host) (w : Wire) (n : ℕ) (d : Daemon) → Ticks h → is_some (stop h w n d) ≡ true
unfolding stop
stop_ends h w n d ticks = elim (Option-cases (wait_gone h n 52 n)) [
  | inl waits ↦ absurd (
      is_some-ne-none _ (wait_gone_ends h n 52 0 n ticks (omega arith) (omega arith) (omega arith))
        waits)
  | inr (p, ends) ↦ rw (stop, ends) refl
]

failed_with_ends :
    (h : Host) (w : Wire) (n : ℕ) (d : Daemon) (e : GoError)
    → Ticks h
    → is_some (failed_with e (stop h w n d)) ≡ true
failed_with_ends h w n d e ticks = elim (Option-cases (stop h w n d)) [
  | inl waits ↦ absurd (is_some-ne-none _ (stop_ends h w n d ticks) waits)
  | inr (p, ends) ↦ rw ends refl
]

-- A round that ends the wait ends it.
react_ends :
    (h : Host) (w : Wire) (n : ℕ) (d : Daemon) (e : GoError) (what : Selected)
    {ending : Option Start}
    → Ticks h
    → react h w n d e what ≡ some ending
    → is_some ending ≡ true
unfolding react
react_ends h w n d e (context_done failure) {ending} ticks ends =
    subst (λ x. is_some x ≡ true) (some-injective _ _ ends) (failed_with_ends h w n d failure ticks)
react_ends h w n d e process_gone {ending} ticks ends =
    subst (λ x. is_some x ≡ true) (some-injective _ _ ends) refl
react_ends h w n d e nothing_ready {ending} ticks ends =
    elim (Bool-cases (ltb (h.started + 15 * second) (h.now n))) [
      | inl late ↦
          subst (λ x. is_some x ≡ true) (some-injective _ _ (rw (react, late) at ends))
            (failed_with_ends h w n d (wrapped e) ticks)
      | inr early ↦ absurd (let b = rw (react, early) at ends in cc)
    ]

-- In round 151 the deadline is over.
react_late :
    (h : Host) (w : Wire) (n : ℕ) (d : Daemon) (e : GoError) (what : Selected)
    → Ticks h
    → 150 < n
    → is_some (react h w n d e what) ≡ true
unfolding react
react_late h w n d e (context_done failure) ticks late = refl
react_late h w n d e process_gone ticks late = refl
react_late h w n d e nothing_ready ticks late =
    let over : ltb (h.started + 15 * second) (h.now n) ≡ true =
      ground (arith, rounds_take_time h ticks n) in
    rw over refl

wait_ready_ends :
    (h : Host) (w : Wire) (fuel n : ℕ) (d : Daemon)
    → Ticks h
    → 151 < fuel + n
    → 0 < fuel
    → is_some (wait_ready h w fuel n d) ≡ true
unfolding wait_ready
wait_ready_ends h w zero n d ticks enough some_left = absurd (omega arith)
wait_ready_ends h w (suc fuel) n d ticks enough some_left =
    elim (Result-cases (get_version w n d.rpc).1) [
      | inl (version, answered) ↦ rw (wait_ready, answered) refl
      | inr (e, failed) ↦
          let d' : Daemon = record d { rpc = (get_version w n d.rpc).0 } in
          elim (Option-cases (react h w n d' e (selected h n))) [
            | inr (ending, ends) ↦
                rw (wait_ready, failed, ends) (react_ends h w n d' e (selected h n) ticks ends)
            | inl more ↦
                rw (wait_ready, failed, more)
                  (elim (Bool-cases (ltb n 151)) [
                    | inl early ↦
                        wait_ready_ends h w fuel (n + 1) d' ticks (omega arith) (ground arith)
                    | inr late ↦ absurd (
                        is_some-ne-none _
                          (react_late h w n d' e (selected h n) ticks (ground arith)) more)
                  ])
          ]
    ]

-- Where the clock goes on by at least the pause of 100 ms from round to round, StartDaemon ends
-- within 152 rounds, by an answer, an error or its deadline of 15 seconds, and so does the Stop that it
-- ends with, within 52.
pub start_daemon_ends :
    (h : Host) (w : Wire) (o : DaemonOptions) → Ticks h → is_some (start_daemon h w o 152) ≡ true
unfolding start_daemon
start_daemon_ends h w o ticks = elim (Result-cases (prepare h o)) [
  | inr (e, failed) ↦ rw (start_daemon, failed) refl
  | inl ((d, program, args), ready) ↦ elim (Option-cases (h.start_failure program args)) [
    | inr (e, failed) ↦ rw (start_daemon, ready, failed) refl
    | inl started ↦
        rw (start_daemon, ready, started)
          (wait_ready_ends h w 152 0 d ticks (omega arith) (omega arith))
  ]
]

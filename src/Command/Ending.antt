-- ===== src/Command/Ending.antt =====
-- cmd/imgpull/main.go: the program ends when its context does.
use imgpull.Base.{
  is_some-ne-none, ℕ, ◌≡◌, ◌≤◌, ◌<◌, List-cases, get_elem?, Option, ◌||◌, refl, inl, inr, true,
  is_some, List, [], ◌∷◌, Bytes, Option-cases, Result-cases, Bool-cases, ok, err, is_empty,
}
use imgpull.Files.{Disk}
use imgpull.Platform.{Platform, parse_platform}
use imgpull.Reference.{Ref, parse}
use imgpull.Manifest.{ImageManifest}
use imgpull.Manifest.Retrying.{resolve_manifest_opts}
use imgpull.Plan.{World}
use imgpull.Plan.Tasks.{pending_objects}
use imgpull.Plan.Build.{build}
use imgpull.Rpc.{Rpc}
use imgpull.Rpc.Call.{get_version}
use imgpull.Rpc.Daemon.{DaemonOptions, new_rpc, start_daemon, stop}
use imgpull.Rpc.Startup.{Ticks, stop_ends, start_daemon_ends}
use imgpull.Scheduler.{Config, Sched}
use imgpull.Scheduler.Download.{download_object}
use imgpull.Scheduler.Rounds.{IsOverAfter}
use imgpull.Scheduler.Ending.{download_object_ends}
use imgpull.Scheduler.Run.{run_each, pending_places, run}
use imgpull.Pull.{
  Outside, PullConfig, ProxyUrl, Fetched, stop_daemon, parse_proxy, connect_aria2, new_config,
  fetch_blobs, platform_or_default, pull_manifest, pull,
}
use imgpull.Pull.Guarantees.{build-cases}
use imgpull.Command.{FlagParser, defaults, arguments, config_of, bad_export, run_command}

module _ (c : Config) (last fuel : ℕ) (over : IsOverAfter c last) (enough : last < fuel) where
  run_each_ends : (order : List ℕ) (s : Sched) → is_some (run_each c fuel order s) ≡ true
  unfolding run_each
  run_each_ends [] s = refl
  run_each_ends (i ∷ rest) s = elim (Option-cases (c.net.ctx_err (s.session.tick))) [
    | inr (e, dead) ↦ rw (run_each, dead) refl
    | inl live ↦ elim (Option-cases (get_elem? (s.world.plan.objects) i)) [
      | inl gone ↦ rw (run_each, live, gone) (run_each_ends rest s)
      | inr (t, there) ↦ elim (Option-cases (download_object c fuel i t s)) [
        | inl never ↦ (let e = download_object_ends c last i t over fuel enough s in cc)
        | inr (out, made) ↦ elim (Option-cases (run_each c fuel rest out.0)) [
          | inl never ↦ (let e = run_each_ends rest out.0 in cc)
          | inr (sent, later) ↦ rw (run_each, live, there, made, later) refl
        ]
      ]
    ]
  ]

  run_ends : (order : List ℕ → List ℕ) (s : Sched) → is_some (run c fuel order s) ≡ true
  unfolding run
  run_ends order s = elim (List-cases (pending_places 0 (s.world.plan.objects))) [
    | inl nothing ↦ rw (run, nothing) refl
    | inr (i, is, left) ↦ elim (Option-cases (run_each c fuel (order (i ∷ is)) s)) [
      | inl never ↦ (let e = run_each_ends (order (i ∷ is)) s in cc)
      | inr (sent, ran) ↦ rw (run, left, ran) refl
    ]
  ]

-- The program's context is over after `last` steps, and the clock goes on while a daemon starts or
-- is stopped.
pub record Ends (o : Outside) (last : ℕ) : Type 0 where
  pub over : (ref : Ref) (n : ℕ) → last ≤ n → is_some ((o.net ref).ctx_err n) ≡ true
  pub ticks : Ticks o.host

module _ (o : Outside) (last fuel : ℕ) (ends : Ends o last) (enough : last < fuel) where
  new_config-IsOverAfter :
      (cfg : PullConfig) (ref : Ref) (proxy : Option ProxyUrl) (rpc : Rpc)
      → IsOverAfter (new_config o cfg ref proxy rpc) last
  unfolding new_config
  new_config-IsOverAfter cfg ref proxy rpc = ends.over ref

  abbrev daemon_for : PullConfig → DaemonOptions
  daemon_for cfg = record { dir = o.tmp_dir; log_path = []; concurrent_downloads = cfg.concurrency }

  connect_aria2_ends : (cfg : PullConfig) → is_some (connect_aria2 o cfg) ≡ true
  unfolding connect_aria2
  connect_aria2_ends cfg = elim (Bool-cases (is_empty cfg.aria2_rpc)) [
    | inr external ↦
        elim (Result-cases
          (get_version o.wire o.session.tick (new_rpc cfg.aria2_rpc cfg.aria2_secret)).1) [
            | inl (version, pinged) ↦ rw (connect_aria2, external, pinged) refl
            | inr (e, failed) ↦ rw (connect_aria2, external, failed) refl
          ]
    | inl own ↦ elim (Option-cases (start_daemon o.host o.wire (daemon_for cfg) 152)) [
      | inl never ↦ (let e = start_daemon_ends o.host o.wire (daemon_for cfg) ends.ticks in cc)
      | inr ((process, err e), started) ↦ rw (connect_aria2, own, started) refl
      | inr ((process, ok d), started) ↦ rw (connect_aria2, own, started) refl
    ]
  ]

  fetch_blobs_ends :
      (cfg : PullConfig) (ref : Ref) (proxy : Option ProxyUrl) (w : World)
      → is_some (fetch_blobs o cfg fuel ref proxy w) ≡ true
  unfolding fetch_blobs
  fetch_blobs_ends cfg ref proxy w = elim (List-cases (pending_objects (w.plan.objects))) [
    | inl nothing ↦ rw (fetch_blobs, nothing) refl
    | inr (t, ts, some_left) ↦ elim (Option-cases (connect_aria2 o cfg)) [
      | inl never ↦ (let e = connect_aria2_ends cfg in cc)
      | inr (err e, failed) ↦ rw (fetch_blobs, some_left, failed) refl
      | inr (ok (rpc, daemon), connected) ↦
          let s : Sched = record { world = w; session = o.session } in
          elim (Option-cases (run (new_config o cfg ref proxy rpc) fuel o.order s)) [
            | inl never ↦
                (let e =
                    run_ends (new_config o cfg ref proxy rpc) last fuel
                      (new_config-IsOverAfter cfg ref proxy rpc) enough o.order s in
                  cc)
            | inr (end, ran) ↦ rw (fetch_blobs, some_left, connected, ran) refl
          ]
    ]
  ]

  stop_daemon_ends : (f : Fetched) → is_some (stop_daemon o f) ≡ true
  unfolding stop_daemon
  stop_daemon_ends f = elim (Option-cases f.daemon) [
    | inl external ↦ rw (stop_daemon, external) refl
    | inr (d, own) ↦ elim (Option-cases (stop o.host o.wire f.tick d)) [
      | inl waits ↦ absurd (is_some-ne-none _ (stop_ends o.host o.wire f.tick d ends.ticks) waits)
      | inr (p, ended) ↦ rw (stop_daemon, own, ended) refl
    ]
  ]

  pull_manifest_ends :
      (cfg : PullConfig) (proxy : Option ProxyUrl) (ref : Ref) (plat : Platform) (m : ImageManifest)
      (d : Disk)
      → is_some (pull_manifest o cfg fuel proxy ref plat m d) ≡ true
  unfolding pull_manifest
  pull_manifest_ends cfg proxy ref plat m d =
      elim (build-cases (build o.deps ref m plat cfg.verify o.clock d)) [
        | inr (inl (failure, x, stopped)) ↦ rw (pull_manifest, stopped) refl
        | inr (inr (digest, x, stopped)) ↦ rw (pull_manifest, stopped) refl
        | inl (w, made) ↦ elim (Option-cases (fetch_blobs o cfg fuel ref proxy w)) [
          | inl never ↦ (let e = fetch_blobs_ends cfg ref proxy w in cc)
          | inr (fetched, got) ↦ elim (Option-cases (stop_daemon o fetched)) [
            | inl waits ↦ absurd (is_some-ne-none _ (stop_daemon_ends fetched) waits)
            | inr (process, stopped) ↦ rw (pull_manifest, made, got, stopped) refl
          ]
        ]
      ]

  pull_ends : (cfg : PullConfig) (d : Disk) → is_some (pull o cfg fuel d) ≡ true
  unfolding pull
  pull_ends cfg d = elim (Result-cases (parse_proxy o.parse_url cfg.proxy)) [
    | inr (bad, failed) ↦ rw (pull, failed) refl
    | inl (proxy, good) ↦ elim (Result-cases (parse o.names cfg.image cfg.insecure)) [
      | inr (bad, failed) ↦ rw (pull, good, failed) refl
      | inl (ref, parsed) ↦
          elim (Result-cases (parse_platform (platform_or_default cfg.platform_flag))) [
            | inr (bad, failed) ↦ rw (pull, good, parsed, failed) refl
            | inl (plat, known) ↦
                elim (Result-cases (resolve_manifest_opts (o.remote ref cfg) plat o.patience 0)) [
                  | inr (bad, failed) ↦ rw (pull, good, parsed, known, failed) refl
                  | inl (m, resolved) ↦
                      rw (pull, good, parsed, known, resolved)
                        (pull_manifest_ends cfg proxy ref plat m d)
                ]
          ]
    ]
  ]

-- The program ends, whatever its arguments, the registry, aria2 and the disk do, if its context is over
-- after a number of steps and every poll may look once more often than that, and if the clock goes on
-- by the pause of 100 ms between two rounds of the start of a daemon and of the wait in its Stop.
pub run_command_ends :
    (parse_flags : FlagParser) (o : Outside) (last fuel : ℕ) (args : List Bytes) (d : Disk)
    → Ends o last
    → last < fuel
    → is_some (run_command parse_flags o fuel args d) ≡ true
unfolding run_command
run_command_ends parse_flags o last fuel args d ends enough =
    elim (Option-cases (parse_flags defaults ((arguments args).1))) [
      | inl failed ↦ rw (run_command, failed) refl
      | inr (f, parsed) ↦ elim (Bool-cases (f.version || f.help)) [
        | inl told ↦ rw (run_command, parsed, told) refl
        | inr plain ↦ elim (List-cases ((arguments args).0)) [
          | inl nothing ↦ rw (run_command, parsed, plain, nothing) refl
          | inr (image, more, first) ↦ elim (Bool-cases (bad_export f.export)) [
            | inl bad ↦ rw (run_command, parsed, plain, first, bad) refl
            | inr good ↦
                rw (run_command, parsed, plain, first, good)
                  (pull_ends o last fuel ends enough (config_of image f) d)
          ]
        ]
      ]
    ]

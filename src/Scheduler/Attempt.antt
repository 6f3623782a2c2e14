-- ===== src/Scheduler/Attempt.antt =====
-- internal/downloader/scheduler.go: `submitAndWatch` and `attempt`.
use imgpull.Base.{
  ℕ, ltb, ◌+◌, ◌*◌, ◌==◌, Bool, false, ◌||◌, Option, none, some, List, [], Bytes, is_empty, second,
  if◌then◌else◌, ok, err,
}
use imgpull.Retry.{
  GoError, wrapped, retryable_error, non_retryable_error, chain_has, not_found_kind,
}
use imgpull.Plan.{Task, downloading}
use imgpull.Plan.Tasks.{set_task, pop_alt_url, mark_failed, mark_range_unsupported}
use imgpull.Plan.Reconcile.{on_disk}
use imgpull.Registry.Client.{ResolvedUrl, header_lines, resolve_blob_url}
use imgpull.Scheduler.{Config, Sched, Outcome, in_world, time, current}
use imgpull.Scheduler.Submit.{first_options, submit_loop, find_existing_task}
use imgpull.Scheduler.Parts.{part_complete, precheck, discard_unresumable_part, verify_and_commit}
use imgpull.Scheduler.Wait.{current_value, with_session, wait_gid, wait_file}

-- `urlExpired`: half a minute before its time a URL counts as expired.
abbrev pub url_expired : ℕ → Task → Bool
url_expired now t = elim t.url_expires_at [ none ↦ false | some e ↦ ltb e (now + 30 * second) ]

-- `expPtr`
abbrev pub exp_ptr : ℕ → Option ℕ
exp_ptr n = if n == 0 then none else some n

module _ (c : Config) (fuel i : ℕ) (t : Task) where
  -- The submission of `submitAndWatch`, and the poll behind it.
  unfoldable pub submit_new : Bytes → List Bytes → Sched → Option Outcome
  submit_new url headers s = elim (submit_loop c 4 0 url (first_options c t headers) s) [
    | none ↦ none
    | some (s', err e) ↦ some (s', err e)
    | some (s', ok gid) ↦
        wait_gid c fuel i t gid 0
          (in_world (set_task (time c s') c.deps i downloading url none gid) s')
  ]

  -- `submitAndWatch`
  unfoldable pub submit_and_watch : Bytes → List Bytes → Bytes → Sched → Option Outcome
  submit_and_watch url headers gid s =
      if is_empty gid
      then submit_new url headers (
          if (current i t s).range_unsupported || s.session.range_blind
          then in_world (on_disk (discard_unresumable_part t)) s
          else s)
      else wait_gid c fuel i t gid 0 s

  -- A blob that the registry does not have: an alternate URL is remembered and the file is polled.
  unfoldable pub on_missing : GoError → Sched → Option Outcome
  on_missing e s =
      let popped = pop_alt_url (time c s) c.deps i (s.world) in
      elim (popped.1) [
        | none ↦ some (
          in_world (mark_failed (time c s) c.deps i (c.aria2.text e)) s,
          err (non_retryable_error e),
        )
        | some u ↦ wait_file c fuel i t (
            in_world (set_task (time c s) c.deps i downloading u none [])
              (record s { world = popped.0 }))
      ]

  -- A resolved URL is stored and submitted.
  unfoldable pub on_resolved : ResolvedUrl → Bytes → Sched → Option Outcome
  on_resolved res gid s =
      let marked =
        if s.session.range_blind
        then in_world (mark_range_unsupported (time c s) c.deps i) s
        else s in
      submit_and_watch res.url res.headers gid (
        in_world (set_task (time c s) c.deps i downloading res.url (exp_ptr res.expires_at) gid)
          marked)

  -- Steps (d) and (e) of `attempt`.
  unfoldable pub fetch : Bytes → Sched → Option Outcome
  fetch gid s =
      if is_empty (current i t s).url || url_expired (time c s) (current i t s)
      then (let resolved = resolve_blob_url c.net c.repo t.digest c.auth (s.session) in
          let s' = with_session resolved.0 s in
          elim (resolved.1) [
            | ok res ↦ on_resolved res gid s'
            | err e ↦
                if chain_has not_found_kind e
                then on_missing e s'
                else some (s', err (retryable_error (wrapped e)))
          ])
      else (let headers = current_value c (s.session) in
          submit_and_watch (current i t s).url (header_lines headers.1) gid
            (with_session headers.0 s))

  -- `attempt`
  unfoldable pub attempt : Sched → Option Outcome
  attempt s =
      if part_complete t (s.world.disk)
      then some (verify_and_commit c i t s)
      else (let found = find_existing_task c t (in_world (on_disk (precheck t)) s) in
          elim (found.1) [ err e ↦ some (found.0, err e) | ok gid ↦ fetch gid found.0 ])

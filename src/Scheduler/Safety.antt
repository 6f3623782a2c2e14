-- ===== src/Scheduler/Safety.antt =====
-- The steps of `attempt` keep the invariant of a download.
use imgpull.Base.{
  ℕ, zero, suc, ltb, ◌+◌, ◌==◌, ◌≡◌, Bool, ◌&&◌, ◌||◌, Option, none, some, List, [], Bytes,
  is_empty, Bool-cases, Option-cases, Result-cases, inl, inr, Result, ok, err, length,
}
use mathlib.Core.Path.{subst}
use imgpull.Files.{Syscall}
use imgpull.Verify.{Hash}
use imgpull.Retry.{GoError, is_canceled, chain_has, not_found_kind}
use imgpull.Registry.Client.{ResolvedUrl, resolve_blob_url}
use imgpull.Plan.{Task, part_path}
use imgpull.Plan.Tasks.{pop_alt_url}
use imgpull.Plan.Reconcile.{on_disk}
use imgpull.Scheduler.{Config, Sched, Outcome, Options, pass, in_world, time, current}
use imgpull.Scheduler.Submit.{
  rejects_options, simplify, first_options, submit_loop, find_existing_task,
}
use imgpull.Scheduler.Parts.{part_complete, precheck, discard_unresumable_part}
use imgpull.Scheduler.Attempt.{
  exp_ptr, url_expired, submit_new, submit_and_watch, on_missing, on_resolved, fetch, attempt,
}
use imgpull.Scheduler.Ready.{
  discard-Ready, remove_control-Ready, set_task-Ready, mark_failed-Ready,
  mark_range_unsupported-Ready, pop_alt_url-Ready,
}
use imgpull.Scheduler.Polling.{
  IsAside, Kept, Ends, going, ended, stopped, pass-Kept, verify_and_commit-Good, wait_file-Ends,
  wait_gid-Ends,
}

module _ (c : Config) (aside : IsAside c) (size_of : Hash → ℕ) (faults : Syscall → Bool)
    (before : ℕ → Option Task) (i : ℕ) (t : Task) where
  abbrev Safe : Sched → Type 0
  Safe s = Kept c aside size_of faults before i t s

  abbrev SafeEnd : Option Outcome → Type 0
  SafeEnd r = Ends c aside size_of faults before i t r

  submitted :
      {a s' : Sched} {x r : Result GoError Bytes}
      → Safe a
      → ◌≡◌ {A = Option (Sched × Result GoError Bytes)} (some (a, x)) (some (s', r))
      → Safe s'
  submitted {a} {s'} k h = let e : a ≡ s' = cc in subst Safe e k

  submit_loop-Safe :
      (fuel n : ℕ) (url : Bytes) (o : Options) (s : Sched) {s' : Sched} {r : Result GoError Bytes}
      → Safe s
      → submit_loop c fuel n url o s ≡ some (s', r)
      → Safe s'
  unfolding submit_loop
  submit_loop-Safe zero n url o s k h = cc
  submit_loop-Safe (suc fuel) n url o s k h =
      let k' = pass-Kept c aside size_of faults before i t s k in
      elim (Result-cases (c.aria2.add_uri (s.session.tick) url o)) [
        | inl (gid, taken) ↦ submitted k' (rw (submit_loop, taken) at h)
        | inr (e, bad) ↦ elim (Bool-cases (is_canceled e)) [
          | inl over ↦ submitted k' (rw (submit_loop, bad, over) at h)
          | inr live ↦ elim (Bool-cases (rejects_options e && ltb n 3)) [
            | inl again ↦
                submit_loop-Safe fuel (n + 1) url (simplify n o) (pass c s) k'
                  (rw (submit_loop, bad, live, again) at h)
            | inr lost ↦ submitted k' (rw (submit_loop, bad, live, lost) at h)
          ]
        ]
      ]

  precheck-Safe : (s : Sched) → Safe s → Safe (in_world (on_disk (precheck t)) s)
  unfolding precheck
  precheck-Safe s k = elim (Option-cases (s.world.disk.files (part_path t))) [
    | inl gone ↦
        rw (precheck, gone) (remove_control-Ready c.deps size_of faults before i t t.part_name k)
    | inr (text, there) ↦ elim (Bool-cases (ltb t.size (length text))) [
      | inl long ↦
          rw (precheck, there, long) (discard-Ready c.deps size_of faults before i t t.part_name k)
      | inr fits ↦ rw (precheck, there, fits) k
    ]
  ]

  discard_unresumable_part-Safe :
      (s : Sched) → Safe s → Safe (in_world (on_disk (discard_unresumable_part t)) s)
  unfolding discard_unresumable_part
  discard_unresumable_part-Safe s k = elim (Option-cases (s.world.disk.files (part_path t))) [
    | inl gone ↦ rw (discard_unresumable_part, gone) k
    | inr (text, there) ↦ elim (Bool-cases (length text == 0)) [
      | inl fresh ↦ rw (discard_unresumable_part, there, fresh) k
      | inr begun ↦
          rw (discard_unresumable_part, there, begun)
            (discard-Ready c.deps size_of faults before i t t.part_name k)
    ]
  ]

  find_existing_task-Safe : (s : Sched) → Safe s → Safe (find_existing_task c t s).0
  unfolding find_existing_task
  find_existing_task-Safe s k =
      let k' = pass-Kept c aside size_of faults before i t s k in
      elim (Result-cases (c.aria2.tell_active (s.session.tick))) [
        | inr (e, bad) ↦ rw (find_existing_task, bad) k'
        | inl (running, told) ↦
            elim (Result-cases (c.aria2.tell_waiting ((pass c s).session.tick))) [
              | inr (e, bad) ↦
                  rw (find_existing_task, told, bad)
                    (pass-Kept c aside size_of faults before i t (pass c s) k')
              | inl (queued, heard) ↦
                  rw (find_existing_task, told, heard)
                    (pass-Kept c aside size_of faults before i t (pass c s) k')
            ]
      ]

  submit_new-Ends :
      (fuel : ℕ) (url : Bytes) (headers : List Bytes) (s : Sched)
      → Safe s
      → SafeEnd (submit_new c fuel i t url headers s)
  unfolding submit_new
  submit_new-Ends fuel url headers s k =
      elim (Option-cases (submit_loop c 4 0 url (first_options c t headers) s)) [
        | inl never ↦ rw (submit_new, never) (going c aside size_of faults before i t)
        | inr ((s', err e), made) ↦
            rw (submit_new, made)
              (ended c aside size_of faults before i t (
                stopped c aside size_of faults before i t s' e
                  (submit_loop-Safe 4 0 url _ s k made)))
        | inr ((s', ok gid), made) ↦
            rw (submit_new, made)
              (wait_gid-Ends c aside size_of faults before i t fuel gid 0 _ (
                set_task-Ready c.deps size_of faults before i t (time c s') url none gid
                  (submit_loop-Safe 4 0 url _ s k made)))
      ]

  submit_and_watch-Ends :
      (fuel : ℕ) (url : Bytes) (headers : List Bytes) (gid : Bytes) (s : Sched)
      → Safe s
      → SafeEnd (submit_and_watch c fuel i t url headers gid s)
  unfolding submit_and_watch
  submit_and_watch-Ends fuel url headers gid s k = elim (Bool-cases (is_empty gid)) [
    | inr running ↦
        rw (submit_and_watch, running)
          (wait_gid-Ends c aside size_of faults before i t fuel gid 0 s k)
    | inl new ↦ elim (Bool-cases ((current i t s).range_unsupported || s.session.range_blind)) [
      | inl blind ↦
          rw (submit_and_watch, new, blind)
            (submit_new-Ends fuel url headers _ (discard_unresumable_part-Safe s k))
      | inr honest ↦ rw (submit_and_watch, new, honest) (submit_new-Ends fuel url headers s k)
    ]
  ]

  on_missing-Ends :
      (fuel : ℕ) (e : GoError) (s : Sched) → Safe s → SafeEnd (on_missing c fuel i t e s)
  unfolding on_missing
  on_missing-Ends fuel e s k = elim (Option-cases ((pop_alt_url (time c s) c.deps i (s.world)).1)) [
    | inl none_left ↦
        rw (on_missing, none_left)
          (ended c aside size_of faults before i t (
            stopped c aside size_of faults before i t _ _
              (mark_failed-Ready c.deps size_of faults before i t (time c s) _ k)))
    | inr (u, popped) ↦
        rw (on_missing, popped)
          (wait_file-Ends c aside size_of faults before i t fuel _ (
            set_task-Ready c.deps size_of faults before i t (time c s) u none []
              (pop_alt_url-Ready c.deps size_of faults before i t (time c s) k)))
  ]

  on_resolved-Ends :
      (fuel : ℕ) (res : ResolvedUrl) (gid : Bytes) (s : Sched)
      → Safe s
      → SafeEnd (on_resolved c fuel i t res gid s)
  unfolding on_resolved
  on_resolved-Ends fuel res gid s k = elim (Bool-cases (s.session.range_blind)) [
    | inl blind ↦
        rw (on_resolved, blind)
          (submit_and_watch-Ends fuel res.url res.headers gid _ (
            set_task-Ready c.deps size_of faults before i t (time c s) res.url
              (exp_ptr res.expires_at) gid
              (mark_range_unsupported-Ready c.deps size_of faults before i t (time c s) k)))
    | inr honest ↦
        rw (on_resolved, honest)
          (submit_and_watch-Ends fuel res.url res.headers gid _ (
            set_task-Ready c.deps size_of faults before i t (time c s) res.url
              (exp_ptr res.expires_at) gid k))
  ]

  fetch-Ends : (fuel : ℕ) (gid : Bytes) (s : Sched) → Safe s → SafeEnd (fetch c fuel i t gid s)
  unfolding fetch
  fetch-Ends fuel gid s k =
      elim (Bool-cases (is_empty ((current i t s).url) || url_expired (time c s) (current i t s))) [
        | inr fresh ↦ rw (fetch, fresh) (submit_and_watch-Ends fuel _ _ gid _ k)
        | inl stale ↦
            elim (Result-cases ((resolve_blob_url c.net c.repo t.digest c.auth (s.session)).1)) [
              | inl (res, found) ↦ rw (fetch, stale, found) (on_resolved-Ends fuel res gid _ k)
              | inr (e, lost) ↦ elim (Bool-cases (chain_has not_found_kind e)) [
                | inl missing ↦ rw (fetch, stale, lost, missing) (on_missing-Ends fuel e _ k)
                | inr other ↦
                    rw (fetch, stale, lost, other)
                      (ended c aside size_of faults before i t
                        (stopped c aside size_of faults before i t _ _ k))
              ]
            ]
      ]

  -- One attempt keeps the invariant, and its nil error means that the task is committed.
  pub attempt-Ends : (fuel : ℕ) (s : Sched) → Safe s → SafeEnd (attempt c fuel i t s)
  unfolding attempt
  attempt-Ends fuel s k = elim (Bool-cases (part_complete t (s.world.disk))) [
    | inl whole ↦
        rw (attempt, whole)
          (ended c aside size_of faults before i t
            (verify_and_commit-Good c aside size_of faults before i t s k))
    | inr part ↦
        let checked = in_world (on_disk (precheck t)) s in
        let k' = find_existing_task-Safe checked (precheck-Safe s k) in
        elim (Result-cases ((find_existing_task c t checked).1)) [
          | inr (e, lost) ↦
              rw (attempt, part, lost)
                (ended c aside size_of faults before i t
                  (stopped c aside size_of faults before i t _ _ k'))
          | inl (gid, found) ↦ rw (attempt, part, found) (fetch-Ends fuel gid _ k')
        ]
  ]

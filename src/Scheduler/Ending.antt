-- ===== src/Scheduler/Ending.antt =====
-- `downloadObject` ends: the submission within four rounds, and each poll when its context is over.
use imgpull.Base.{
  ℕ, zero, suc, ◌≡◌, ◌<◌, refl, true, ◌||◌, Option, none, some, is_some, Bytes, List, is_empty,
  Bool-cases, Option-cases, Result-cases, inl, inr, ok, err, arith,
}
use imgpull.Retry.{GoError, chain_has, not_found_kind}
use imgpull.Plan.{Task}
use imgpull.Scheduler.{Config, Sched, Outcome, Options, in_world, time, current}
use imgpull.Plan.Tasks.{pop_alt_url}
use imgpull.Plan.Reconcile.{on_disk}
use imgpull.Registry.Client.{resolve_blob_url}
use imgpull.Scheduler.Submit.{submit_loop, first_options, find_existing_task}
use imgpull.Scheduler.Attempt.{
  url_expired, submit_new, submit_and_watch, on_missing, on_resolved, fetch, attempt,
}
use imgpull.Scheduler.Download.{before_retry, verdict, error_text, retry_loop, download_object}
use imgpull.Scheduler.Parts.{part_complete, precheck}
use imgpull.Scheduler.Wait.{wait_gid}
use imgpull.Scheduler.Rounds.{IsOverAfter, submit_loop_ends_from, wait_file_ends, wait_gid_ends}

module _ (c : Config) where
  -- The submission with fallbacks always answers within its four rounds.
  pub submit_loop_ends :
      (url : Bytes) (o : Options) (s : Sched) → is_some (submit_loop c 4 0 url o s) ≡ true
  submit_loop_ends url o s = submit_loop_ends_from c 4 0 url o s (omega arith) (omega arith)

module _ (c : Config) (last i : ℕ) (t : Task) (over : IsOverAfter c last) where
  module _ (fuel : ℕ) (enough : last < fuel) where
    poll_gid_ends : (gid : Bytes) (s : Sched) → is_some (wait_gid c fuel i t gid 0 s) ≡ true
    poll_gid_ends gid s = wait_gid_ends c last i t over fuel gid 0 s (omega arith) (omega arith)

    submit_new_ends :
        (url : Bytes) (headers : List Bytes) (s : Sched)
        → is_some (submit_new c fuel i t url headers s) ≡ true
    unfolding submit_new
    submit_new_ends url headers s =
        elim (Option-cases (submit_loop c 4 0 url (first_options c t headers) s)) [
          | inl never ↦ (let e = submit_loop_ends c url (first_options c t headers) s in cc)
          | inr ((s', err e), made) ↦ rw (submit_new, made) refl
          | inr ((s', ok gid), made) ↦ rw (submit_new, made) (poll_gid_ends gid _)
        ]

    submit_and_watch_ends :
        (url : Bytes) (headers : List Bytes) (gid : Bytes) (s : Sched)
        → is_some (submit_and_watch c fuel i t url headers gid s) ≡ true
    unfolding submit_and_watch
    submit_and_watch_ends url headers gid s = elim (Bool-cases (is_empty gid)) [
      | inr running ↦ rw (submit_and_watch, running) (poll_gid_ends gid s)
      | inl new ↦ rw (submit_and_watch, new) (submit_new_ends url headers _)
    ]

    on_missing_ends : (e : GoError) (s : Sched) → is_some (on_missing c fuel i t e s) ≡ true
    unfolding on_missing
    on_missing_ends e s = elim (Option-cases ((pop_alt_url (time c s) c.deps i (s.world)).1)) [
      | inl none_left ↦ rw (on_missing, none_left) refl
      | inr (u, popped) ↦
          rw (on_missing, popped)
            (wait_file_ends c last i t over fuel _ (omega arith) (omega arith))
    ]

    fetch_ends : (gid : Bytes) (s : Sched) → is_some (fetch c fuel i t gid s) ≡ true
    unfolding fetch on_resolved
    fetch_ends gid s =
        elim (Bool-cases
          (is_empty ((current i t s).url) || url_expired (time c s) (current i t s))) [
            | inr fresh ↦ rw (fetch, fresh) (submit_and_watch_ends _ _ gid _)
            | inl stale ↦
                elim (Result-cases
                  ((resolve_blob_url c.net c.repo t.digest c.auth (s.session)).1)) [
                    | inl (res, found) ↦
                        rw (fetch, stale, found) (submit_and_watch_ends res.url res.headers gid _)
                    | inr (e, lost) ↦ elim (Bool-cases (chain_has not_found_kind e)) [
                      | inl missing ↦ rw (fetch, stale, lost, missing) (on_missing_ends e _)
                      | inr other ↦ rw (fetch, stale, lost, other) refl
                    ]
                  ]
          ]

    attempt_ends : (s : Sched) → is_some (attempt c fuel i t s) ≡ true
    unfolding attempt
    attempt_ends s = elim (Bool-cases (part_complete t (s.world.disk))) [
      | inl whole ↦ rw (attempt, whole) refl
      | inr part ↦
          elim (Result-cases ((find_existing_task c t (in_world (on_disk (precheck t)) s)).1)) [
            | inr (e, lost) ↦ rw (attempt, part, lost) refl
            | inl (gid, found) ↦ rw (attempt, part, found) (fetch_ends gid _)
          ]
    ]

    round_ends :
        (s : Sched) (rest : Outcome → Option Outcome)
        → ((out : Outcome) → is_some (rest out) ≡ true)
        → is_some (elim (attempt c fuel i t s) [
          | none ↦ none
          | some out ↦ elim (verdict c i out) [ some done ↦ some done | none ↦ rest out ]
        ])
          ≡ true
    round_ends s rest more = elim (Option-cases (attempt c fuel i t s)) [
      | inl never ↦ (let e = attempt_ends s in cc)
      | inr (out, made) ↦ elim (Option-cases (verdict c i out)) [
        | inl again ↦ rw (made, again) (more out)
        | inr (done, settled) ↦ rw (made, settled) refl
      ]
    ]

    retry_loop_ends :
        (k : ℕ) (text : Bytes) (s : Sched) → is_some (retry_loop c k fuel i t text s) ≡ true
    unfolding retry_loop
    retry_loop_ends zero text s = refl
    retry_loop_ends (suc k) text s = elim (Option-cases ((before_retry c i text s).1)) [
      | inr (e, stop) ↦ rw (retry_loop, stop) refl
      | inl live ↦
          rw (retry_loop, live)
            (round_ends _ (λ out. retry_loop c k fuel i t (error_text c out) out.0)
              (λ out. retry_loop_ends k _ _))
    ]

    -- If the context is over after a number of steps, then `downloadObject` ends when every poll may
    -- look once more often than that.
    pub download_object_ends : (s : Sched) → is_some (download_object c fuel i t s) ≡ true
    unfolding download_object
    download_object_ends s =
        elim (c.max_retries)
            as (λ n. c.max_retries ≡ n → is_some (download_object c fuel i t s) ≡ true) [
              | zero ↦ λ n. rw (download_object, n) refl
              | suc k ↦ λ n.
                  rw (download_object, n)
                    (round_ends s (λ out. retry_loop c k fuel i t (error_text c out) out.0)
                      (λ out. retry_loop_ends k _ _))
            ]
          refl

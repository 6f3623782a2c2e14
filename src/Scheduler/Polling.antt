-- ===== src/Scheduler/Polling.antt =====
-- Verifying, committing and polling keep the invariant of a download.
use imgpull.Base.{
  ℕ, zero, suc, ltb, ◌+◌, ◌≡◌, refl, Bool, ◌||◌, Option, none, some, Bytes, codes, bytes_eq,
  Bool-cases, Option-cases, Result-cases, inl, inr, ok, err,
}
use mathlib.Core.Path.{subst}
use imgpull.Files.{Disk, Syscall, blobs_file}
use imgpull.Verify
use imgpull.Verify.{Hash}
use imgpull.Retry.{GoError}
use imgpull.Plan.{Task, World, part_path}
use imgpull.Plan.Reconcile.{CommitError, commit_file}
use imgpull.Scheduler.{
  Config, Sched, Outcome, DownloadStatus, complete, error, removed, active, waiting, paused,
  unknown_state, pass, time, current,
}
use imgpull.Scheduler.Parts.{part_complete, commit_outcome, verify_and_commit}
use imgpull.Scheduler.Wait.{
  current_value, judge_source, on_complete, on_error, pause, wait_gid, wait_file,
}
use imgpull.Registry.Client.{probe_range_blind}
use imgpull.Scheduler.Committed.{commit_file-Ready}
use imgpull.Scheduler.Ready.{
  Ready, IsDone, discard-Ready, disk-Ready, mark_range_unsupported-Ready, forget_url-Ready,
}

-- aria2 writes under tmp/: it leaves the finished blobs alone.
pub record IsAside (c : Config) : Type 0 where
  pub same_faults : (n : ℕ) (d : Disk) → (c.aria2.works n d).fault ≡ d.fault
  pub same_blobs :
      (n : ℕ) (d : Disk) (a h : Bytes)
      → (c.aria2.works n d).files (blobs_file a h) ≡ d.files (blobs_file a h)

module _ (c : Config) (aside : IsAside c) (size_of : Hash → ℕ) (faults : Syscall → Bool)
    (before : ℕ → Option Task) (i : ℕ) (t : Task) where
  abbrev pub Kept : Sched → Type 0
  Kept s = Ready c.deps size_of faults before i t (s.world)

  -- An end of a download: the invariant stands, and a nil error means that the task is committed.
  pub record Good (o : Outcome) : Type 0 where
    pub kept : Kept o.0
    pub done : o.1 ≡ ok tt → IsDone c.deps size_of faults before i t (o.0.world)

  some_inverse : {a b : Outcome} → ◌≡◌ {A = Option Outcome} (some a) (some b) → a ≡ b
  some_inverse e = cc

  -- Whatever a run of the model ends in, if it ends within its fuel, is good.
  pub record Ends (r : Option Outcome) : Type 0 where
    pub good : (o : Outcome) → r ≡ some o → Good o

  pub going : Ends none
  going = record { good = λ o e. cc }

  pub ended : {o : Outcome} → Good o → Ends (some o)
  ended g = record { good = λ o e. subst Good (some_inverse e) g }

  pub stopped : (s : Sched) (e : GoError) → Kept s → Good (s, err e)
  stopped s e k = record { kept = k; done = λ h. cc }

  pub pass-Kept : (s : Sched) → Kept s → Kept (pass c s)
  unfolding pass
  pass-Kept s k =
      disk-Ready c.deps size_of faults before i t (c.aria2.works (s.session.tick) (s.world.disk)) k
        (aside.same_faults (s.session.tick) (s.world.disk))
        (aside.same_blobs (s.session.tick) (s.world.disk))

  commit_outcome-Good :
      (s : Sched) (x : World × Option CommitError)
      → Ready c.deps size_of faults before i t x.0
      → (x.1 ≡ none → IsDone c.deps size_of faults before i t x.0)
      → Good (commit_outcome s x)
  commit_outcome-Good s (w, none) k d = record { kept = k; done = λ _. d refl }
  commit_outcome-Good s (w, some e) k d = record { kept = k; done = λ h. cc }

  pub verify_and_commit-Good : (s : Sched) → Kept s → Good (verify_and_commit c i t s)
  unfolding verify_and_commit
  verify_and_commit-Good s k =
      elim (Result-cases (Verify.blob c.deps.digests (s.world.disk) (part_path t) t.hash t.size)) [
        | inr (e, bad) ↦
            rw (verify_and_commit, bad)
              (stopped _ _ (discard-Ready c.deps size_of faults before i t t.part_name k))
        | inl (_, good) ↦
            let (kept, done) =
              commit_file-Ready c.deps size_of faults before i t (time c s) k good in
            rw (verify_and_commit, good)
              (commit_outcome-Good s (commit_file c.deps (time c s) i t (part_path t) (s.world))
                kept done)
      ]

  judge_source-Kept : (s : Sched) → Kept s → Kept (judge_source c i t s)
  unfolding judge_source
  judge_source-Kept s k =
      let known = (current i t s).range_unsupported || s.session.range_blind in
      let headers = current_value c (s.session) in
      let probed = probe_range_blind c.net (current i t s).url headers.1 headers.0 in
      elim (Bool-cases known) [
        | inl certain ↦
            rw (judge_source, certain)
              (mark_range_unsupported-Ready c.deps size_of faults before i t (time c s) k)
        | inr unsure ↦ elim (Bool-cases (probed.1)) [
          | inl blind ↦
              rw (judge_source, unsure, blind)
                (mark_range_unsupported-Ready c.deps size_of faults before i t _ k)
          | inr honest ↦
              rw (judge_source, unsure, honest)
                (forget_url-Ready c.deps size_of faults before i t _ k)
        ]
      ]

  on_complete-Good : (s : Sched) → Kept s → Good (on_complete c i t s)
  unfolding on_complete
  on_complete-Good s k = elim (Bool-cases (part_complete t (s.world.disk))) [
    | inl whole ↦ rw whole (verify_and_commit-Good s k)
    | inr part ↦ rw part (stopped s _ k)
  ]

  on_error-Good : (st : DownloadStatus) (s : Sched) → Kept s → Good (on_error c i t st s)
  unfolding on_error
  on_error-Good st s k = elim (Bool-cases (bytes_eq st.error_code (codes "8"))) [
    | inl refused ↦ rw refused (stopped _ _ (judge_source-Kept s k))
    | inr other ↦ rw other (stopped _ _ k)
  ]

  pub wait_file-Ends : (fuel : ℕ) (s : Sched) → Kept s → Ends (wait_file c fuel i t s)
  unfolding wait_file
  wait_file-Ends zero s k = going
  wait_file-Ends (suc fuel) s k = elim (Option-cases (c.net.ctx_err (s.session.tick))) [
    | inr (e, over) ↦ rw (wait_file, over) (ended (stopped s e k))
    | inl live ↦ elim (Bool-cases (part_complete t (s.world.disk))) [
      | inl whole ↦ rw (wait_file, live, whole) (ended (verify_and_commit-Good s k))
      | inr part ↦ rw (wait_file, live, part) (wait_file-Ends fuel (pass c s) (pass-Kept s k))
    ]
  ]

  pub wait_gid-Ends :
      (fuel : ℕ) (gid : Bytes) (failures : ℕ) (s : Sched)
      → Kept s
      → Ends (wait_gid c fuel i t gid failures s)
  unfolding wait_gid
  wait_gid-Ends zero gid failures s k = going
  wait_gid-Ends (suc fuel) gid failures s k =
      let k' = pass-Kept s k in
      elim (Option-cases (c.net.ctx_err (s.session.tick))) [
        | inr (e, over) ↦ rw (wait_gid, over) (ended (stopped _ e k'))
        | inl live ↦ elim (Result-cases (c.aria2.tell_status (s.session.tick) gid)) [
          | inr (e, lost) ↦ elim (Bool-cases (ltb 10 (failures + 1))) [
            | inl enough ↦ rw (wait_gid, live, lost, enough) (ended (stopped _ _ k'))
            | inr few ↦ elim (Option-cases (pause c (pass c s))) [
              | inr (a, over) ↦ rw (wait_gid, live, lost, few, over) (ended (stopped _ a k'))
              | inl on ↦
                  rw (wait_gid, live, lost, few, on)
                    (wait_gid-Ends fuel gid (failures + 1) (pass c s) k')
            ]
          ]
          | inl (st, told) ↦
              let more =
                elim (Option-cases (pause c (pass c s)))
                  as (λ _. Ends (elim (pause c (pass c s)) [
                    | some a ↦ some (pass c s, err a)
                    | none ↦ wait_gid c fuel i t gid 0 (pass c s)
                  ])) [
                    | inr (a, over) ↦ rw over (ended (stopped _ a k'))
                    | inl on ↦ rw on (wait_gid-Ends fuel gid 0 (pass c s) k')
                  ] in
              elim (st.status)
                  as (λ x. st.status ≡ x → Ends (wait_gid c (suc fuel) i t gid failures s)) [
                    | complete ↦
                        λ is. rw (wait_gid, live, told, is) (ended (on_complete-Good (pass c s) k'))
                    | error ↦
                        λ is. rw (wait_gid, live, told, is) (ended (on_error-Good st (pass c s) k'))
                    | removed ↦ λ is. rw (wait_gid, live, told, is) (ended (stopped _ _ k'))
                    | active ↦ λ is. rw (wait_gid, live, told, is) more
                    | waiting ↦ λ is. rw (wait_gid, live, told, is) more
                    | paused ↦ λ is. rw (wait_gid, live, told, is) more
                    | unknown_state word ↦ λ is. rw (wait_gid, live, told, is) more
                  ]
                refl
        ]
      ]

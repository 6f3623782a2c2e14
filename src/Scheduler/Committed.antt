-- ===== src/Scheduler/Committed.antt =====
-- `commitFile` in the middle of a download: the invariant stays, and a nil error is a commit.
use imgpull.Base.{
  ℕ, ◌≡◌, ◌≢◌, ◌∙◌, refl, sym, Bool, Option, none, some, get_elem?, Bool-cases, inl, inr, ok,
}
use mathlib.Core.Path.{subst, subst₂}
use imgpull.Files.{Syscall, mkdir_all, rename_file}
use imgpull.Verify
use imgpull.Verify.{Hash}
use imgpull.Verify.Laws.{IsIntact, blob_sound}
use imgpull.Plan.{Task, World, Deps, committed, final_path, part_path}
use imgpull.Plan.Tasks.{mark_committed_locked, committed_fields}
use imgpull.Plan.Reconcile.{CommitError, commit_file}
use imgpull.Plan.Sound.{Sound}
use imgpull.Plan.Committing.{commit_file-Sound}
use imgpull.Scheduler.Ready.{Ready, IsDone, IsSame, at-update_task, update_task-others}

module _ (deps : Deps) (size_of : Hash → ℕ) (faults : Syscall → Bool) (before : ℕ → Option Task)
    (i : ℕ) (t : Task) where
  commit_file_same :
      (now : ℕ) (u : Task) (w : World)
      → u.digest ≡ t.digest
      → commit_file deps now i u (part_path t) w ≡ commit_file deps now i t (part_path t) w
  unfolding commit_file
  commit_file_same now u w e = rw e

  -- Where a commit leaves the task.
  record Placed (w : World) (r : World × Option CommitError) : Type 0 where
    task : Task
    found : get_elem? (r.0.plan.objects) i ≡ some task
    same : IsSame t task
    done : r.1 ≡ none → task.status ≡ committed
    others : (j : ℕ) → j ≢ i → get_elem? (r.0.plan.objects) j ≡ before j

  commit_file-Placed :
      (now : ℕ) {w : World}
      → Ready deps size_of faults before i t w
      → Placed w (commit_file deps now i t (part_path t) w)
  unfolding commit_file mark_committed_locked
  commit_file-Placed now {w} r = elim (Bool-cases (w.disk.fault (mkdir_all (final_path deps t)))) [
    | inl stuck ↦
        rw stuck (record {
          task = r.now_at;
          found = r.at;
          same = r.same;
          done = λ e. cc;
          others = r.others;
        })
    | inr free ↦ elim (Bool-cases ((rename_file (part_path t) (final_path deps t) (w.disk)).1)) [
      | inr stayed ↦
          rw (free, stayed)
            (record {
              task = r.now_at;
              found = r.at;
              same = r.same;
              done = λ e. cc;
              others = r.others;
            })
      | inl moved ↦
          rw (free, moved)
            (record {
              task = committed_fields now r.now_at;
              found = at-update_task deps i now (committed_fields now) _ r.at;
              same = record {
                digest = r.same.digest;
                hash = r.same.hash;
                size = r.same.size;
                part_name = r.same.part_name;
              };
              done = λ _. refl;
              others = λ j apart.
                  update_task-others deps i now (committed_fields now) _ j apart ∙ r.others j apart;
            })
    ]
  ]

  -- A .part that was verified is committed: the invariant stays, and a nil error means that the task
  -- is committed.
  pub commit_file-Ready :
      (now : ℕ) {w : World}
      → Ready deps size_of faults before i t w
      → Verify.blob deps.digests (w.disk) (part_path t) t.hash t.size ≡ ok tt
      → Ready deps size_of faults before i t (commit_file deps now i t (part_path t) w).0
        × ((commit_file deps now i t (part_path t) w).1 ≡ none
            → IsDone deps size_of faults before i t (commit_file deps now i t (part_path t) w).0)
  commit_file-Ready now {w} r good =
      let (text, there, intact) =
        blob_sound deps.digests (w.disk) (part_path t) t.hash t.size good in
      let p = commit_file-Placed now r in
      (
        record {
          sound =
              subst (λ x. Sound deps size_of (IsIntact deps.digests) faults (x.0))
                (commit_file_same now r.now_at w r.same.digest)
                (commit_file-Sound deps size_of (IsIntact deps.digests) now i r.now_at t.part_name
                  r.sound r.at there
                  (subst₂ (IsIntact deps.digests text) (sym r.same.hash) (sym r.same.size) intact));
          now_at = p.task;
          at = p.found;
          same = p.same;
          others = p.others;
        },
        λ e. record { task = p.task; found = p.found; status = p.done e },
      )

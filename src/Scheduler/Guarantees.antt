-- ===== src/Scheduler/Guarantees.antt =====
-- What `downloadObject` promises: of the blob at a nil error, of the plan at every end, and of the
-- task's status where it gives up.
use imgpull.Base.{
  ℕ, ◌≡◌, ◌≢◌, refl, false, ◌||◌, some, Bytes, get_elem?, All-get_elem?, Result, ok, err,
}
use mathlib.Core.Path.{subst₂}
use imgpull.Verify.{Hash}
use imgpull.Verify.Laws.{IsIntact}
use imgpull.Retry.{GoError, is_canceled, is_deadline}
use imgpull.Plan.{Task, committed, failed, final_path}
use imgpull.Plan.Sound.{Sound}
use imgpull.Scheduler.{Config, Sched, Outcome}
use imgpull.Scheduler.Download.{download_object}
use imgpull.Scheduler.Polling.{IsAside}
use imgpull.Scheduler.Settling.{EndsByCancel, Settled, download_object-Settles}

module _ (c : Config) (aside : IsAside c) (law : EndsByCancel c.net) (size_of : Hash → ℕ)
    (fuel i : ℕ) (t : Task) (s : Sched)
    (sound : Sound c.deps size_of (IsIntact c.deps.digests) (s.world.disk.fault) (s.world))
    (at : get_elem? (s.world.plan.objects) i ≡ some t) where
  end_Settled :
      {o : Outcome}
      → download_object c fuel i t s ≡ some o
      → Settled c aside size_of (s.world.disk.fault) (get_elem? (s.world.plan.objects)) i t o
  end_Settled {o} made =
      (download_object-Settles c aside size_of (s.world.disk.fault)
          (get_elem? (s.world.plan.objects)) i t law fuel s
          (record {
            sound = sound;
            now_at = t;
            at = at;
            same = record { digest = refl; hash = refl; size = refl; part_name = refl };
            others = λ j apart. refl;
          })).settled
        o made

  -- When a download returns nil, its task is committed, and the file of the blob has the size of the
  -- task and hashes to its digest, if the plan was sound before, aria2 does not touch blobs/, and a
  -- context ends only by a cancellation or a deadline.
  pub download_verified :
      {s' : Sched}
      → download_object c fuel i t s ≡ some (s', ok tt)
      → (u : Task) × (get_elem? (s'.world.plan.objects) i ≡ some u)
        × (u.status ≡ committed)
        × ((text : Bytes) × (s'.world.disk.files (final_path c.deps t) ≡ some text)
            × IsIntact c.deps.digests text t.hash t.size)
  download_verified {s'} made =
      let e = end_Settled made in
      let d = e.done refl in
      let h =
        (All-get_elem? _ (s'.world.plan.objects) i e.kept.sound.tasks d.found).held d.status in
      let same : d.task ≡ e.kept.now_at = let a = d.found in let b = e.kept.at in cc in
      let digest : d.task.digest ≡ t.digest = rw same e.kept.same.digest in
      (
        d.task,
        d.found,
        d.status,
        (
          h.text,
          rw digest at h.there,
          subst₂ (IsIntact c.deps.digests h.text) (rw same e.kept.same.hash)
              (rw same e.kept.same.size) h.promised,
        ),
      )

  -- However a download ends, the plan is sound after it, so that every committed task of the plan
  -- still has an intact blob, if it was sound before, aria2 does not touch blobs/, and a context ends
  -- only by a cancellation or a deadline.
  pub download_keeps :
      {s' : Sched} {r : Result GoError (Unit {0})}
      → download_object c fuel i t s ≡ some (s', r)
      → Sound c.deps size_of (IsIntact c.deps.digests) (s.world.disk.fault) (s'.world)
  download_keeps made = (end_Settled made).kept.sound

  -- A download that returns an error other than a cancellation or a deadline leaves its task failed,
  -- if the plan was sound before, aria2 does not touch blobs/, and a context ends only by a
  -- cancellation or a deadline.
  pub download_failed :
      {s' : Sched} {e : GoError}
      → download_object c fuel i t s ≡ some (s', err e)
      → is_canceled e || is_deadline e ≡ false
      → (u : Task) × (get_elem? (s'.world.plan.objects) i ≡ some u) × (u.status ≡ failed)
  download_failed {e = e} made live =
      let f = (end_Settled made).lost e refl live in (f.task, f.found, f.status)

  -- A download changes no other task of the plan.
  pub download_others :
      {s' : Sched} {r : Result GoError (Unit {0})}
      → download_object c fuel i t s ≡ some (s', r)
      → (j : ℕ) → j ≢ i
      → get_elem? (s'.world.plan.objects) j ≡ get_elem? (s.world.plan.objects) j
  download_others made = (end_Settled made).kept.others

-- ===== src/Plan/Reconcile.antt =====
-- internal/plan/planner.go: `reconcileTask`, `commitFile` and what they call.
use imgpull.Base.{
  ℕ, ltb, ◌==◌, Bool, false, ◌&&◌, Option, none, some, Bytes, length, is_some, is_ok, modify,
  if◌then◌else◌,
}
use imgpull.Files.{FilePath, Disk, control, mkdir_all, remove_file, rename_file}
use imgpull.Verify
use imgpull.Verify.{Hash}
use imgpull.Plan.{
  Task, World, Deps, Status, pending, committed, is_committed, final_path, part_path,
}
use imgpull.Plan.Tasks.{mark_committed_locked}

-- Why `commitFile` failed, and what `reconcileTask` reports.
pub data CommitError : Type 0 where
  mkdir_failed rename_failed : CommitError

pub data Warning : Type 0 where
  corrupt_part oversized_part : Bytes → Warning
  not_committed : CommitError → Warning

abbrev pub on_disk : (Disk → Disk) → World → World
on_disk f w = record w { disk = f (w.disk) }

-- `os.Remove` of a .part and of its control file.
unfoldable pub discard : FilePath → Disk → Disk
unfolding remove_file
discard part d = remove_file (control part) (remove_file part d)

-- A status written by `Build`, which alone runs without the mutex and does not save here.
abbrev pub set_status : ℕ → Status → World → World
set_status i s w = record w {
  plan = record (w.plan) { objects = modify (w.plan.objects) i (λ t. record t { status = s }) };
}

module _ (deps : Deps) where
  -- `blobExists`, with the error left out: no caller reads it.
  unfoldable pub blob_exists : Disk → FilePath → Bytes → ℕ → Bool
  blob_exists d path digest size = elim (d.files path) [
    | none ↦ false
    | some _ ↦ elim (deps.new_hash digest) [
      | none ↦ false
      | some h ↦ is_ok (Verify.blob deps.digests d path h size)
    ]
  ]

  module _ (now i : ℕ) where
    -- `commitFile`
    unfoldable pub commit_file : Task → FilePath → World → World × Option CommitError
    commit_file t part w =
        let final = final_path deps t in
        if w.disk.fault (mkdir_all final)
        then (w, some mkdir_failed)
        else (let moved = rename_file part final (w.disk) in
            if moved.1
            then (
              mark_committed_locked now deps i
                  (record w { disk = remove_file (control part) moved.0 }),
              none,
            )
            else (record w { disk = moved.0 }, some rename_failed))

    abbrev pub warning_of : World × Option CommitError → World × Option Warning
    warning_of (w, none) = (w, none)
    warning_of (w, some e) = (w, some (not_committed e))

    -- The end of `reconcileTask`, on the .part file.
    unfoldable pub resume_part : Task → World → World × Option Warning
    unfolding discard
    resume_part t w =
        let part = part_path t in
        elim (w.disk.files part) [
          | none ↦ (on_disk (remove_file (control part)) w, none)
          | some text ↦
              if length text == t.size
              then (if is_ok (Verify.blob deps.digests (w.disk) part t.hash t.size)
                  then warning_of (commit_file t part w)
                  else (on_disk (discard part) w, some (corrupt_part t.digest)))
              else if ltb t.size (length text)
              then (on_disk (discard part) w, some (oversized_part t.digest))
              else (set_status i pending w, none)
        ]

    -- The middle of `reconcileTask`, on the file in blobs/.
    unfoldable pub reconcile_blob : Bool → Task → World → World × Option Warning
    reconcile_blob verify_existing t w =
        let final = final_path deps t in
        if blob_exists (w.disk) final t.digest t.size
        then (set_status i committed w, none)
        else resume_part t (
            if verify_existing && is_some (w.disk.files final)
            then on_disk (remove_file final) w
            else w)

    -- `reconcileTask`, on the task `t` that stands at `i`.
    unfoldable pub reconcile_task : Bool → Task → World → World × Option Warning
    reconcile_task verify_existing t w =
        if is_committed t.status && is_some (w.disk.files (final_path deps t))
        then (w, none)
        else if is_committed t.status
        then reconcile_blob verify_existing (record t { status = pending }) (set_status i pending w)
        else reconcile_blob verify_existing t w

-- ===== src/Scheduler/Parts.antt =====
-- internal/downloader/scheduler.go: `precheck`, `discardUnresumablePart` and `verifyAndCommit`.
use imgpull.Base.{ℕ, ltb, ◌==◌, Bool, false, Option, none, some, [], length, if◌then◌else◌, ok, err}
use imgpull.Files.{Disk, control, remove_file}
use imgpull.Verify
use imgpull.Retry.{plain, wrapped, retryable_error, part_cleanup_error}
use imgpull.Plan.{Task, World, part_path}
use imgpull.Plan.Reconcile.{CommitError, commit_file, discard, on_disk}
use imgpull.Scheduler.{Config, Sched, Outcome, in_world, time}

-- `os.Stat(part)` succeeds with the size of the object.
unfoldable pub part_complete : Task → Disk → Bool
part_complete t d = elim (d.files (part_path t)) [
  | none ↦ false
  | some text ↦ length text == t.size
]

-- `precheck`
unfoldable pub precheck : Task → Disk → Disk
precheck t d = elim (d.files (part_path t)) [
  | none ↦ remove_file (control (part_path t)) d
  | some text ↦ if ltb t.size (length text) then discard (part_path t) d else d
]

-- `discardUnresumablePart`; an empty .part stays.
unfoldable pub discard_unresumable_part : Task → Disk → Disk
discard_unresumable_part t d = elim (d.files (part_path t)) [
  | none ↦ d
  | some text ↦ if length text == 0 then d else discard (part_path t) d
]

abbrev pub commit_outcome : Sched → World × Option CommitError → Outcome
commit_outcome s (w, none) = (record s { world = w }, ok tt)
commit_outcome s (w, some _) = (record s { world = w }, err (retryable_error (wrapped (plain []))))

-- `verifyAndCommit`. The check and the rename are one step: nothing acts on the .part between
-- `verify.Blob` and `CommitVerified`, as aria2, which has ended the download, does not.
unfoldable pub verify_and_commit : Config → ℕ → Task → Sched → Outcome
verify_and_commit c i t s =
    elim (Verify.blob c.deps.digests (s.world.disk) (part_path t) t.hash t.size) [
      | err _ ↦ (
        in_world (on_disk (discard (part_path t))) s,
        err (part_cleanup_error (wrapped (plain []))),
      )
      | ok _ ↦ commit_outcome s (commit_file c.deps (time c s) i t (part_path t) (s.world))
    ]

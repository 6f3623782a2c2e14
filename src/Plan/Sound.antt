-- ===== src/Plan/Sound.antt =====
-- The invariant of a plan: what a committed task says of the file in blobs/.
use imgpull.Base.{ℕ, ◌≡◌, ◌∙◌, Bool, some, Bytes, modify, get_elem?, All, All-modify_at, All-map}
use imgpull.Files.{Disk, Syscall, blobs_file}
use imgpull.Verify.{Hash}
use imgpull.Manifest.{BlobDescriptor, ImageManifest}
use imgpull.Plan.{
  Task, World, Deps, committed, final_path_for, final_path, persist_locked, update_task,
}
use imgpull.Plan.Saving.{persist_locked-objects, persist_locked-files, persist_locked-fault}

pub final_path_lem :
    (deps : Deps) (t : Task)
    → deps.new_hash t.digest ≡ some t.hash
    → final_path deps t ≡ blobs_file t.hash.algorithm t.hash.hex
unfolding final_path_for
final_path_lem deps t h = rw (h, final_path_for)

-- The size that the manifest states for a blob is the one of its digest.
abbrev pub Sized : Deps → (Hash → ℕ) → BlobDescriptor → Type 0
Sized deps size_of b = (h : Hash) → deps.new_hash b.digest ≡ some h → b.size ≡ size_of h

-- Equal digests in the manifest have equal sizes.
abbrev pub AllSized : Deps → (Hash → ℕ) → ImageManifest → Type 0
AllSized deps size_of mfst = Sized deps size_of mfst.config × All (Sized deps size_of) mfst.layers

-- `P text hash size` is what is promised of a blob's bytes, and `size_of` gives every digest the
-- one size that the manifest states for it.
module _ (deps : Deps) (size_of : Hash → ℕ) (P : Bytes → Hash → ℕ → Type 0) where
  -- The file in blobs/ of a task is there, and is as promised.
  pub record Held (d : Disk) (t : Task) : Type 0 where
    pub text : Bytes
    pub there : d.files (final_path deps t) ≡ some text
    pub promised : P text t.hash t.size

  pub record TaskSound (d : Disk) (t : Task) : Type 0 where
    pub hashed : deps.new_hash t.digest ≡ some t.hash
    pub sized : t.size ≡ size_of t.hash
    pub held : t.status ≡ committed → Held d t

  pub record Sound (faults : Syscall → Bool) (w : World) : Type 0 where
    pub same_faults : w.disk.fault ≡ faults
    pub tasks : All (TaskSound (w.disk)) (w.plan.objects)

  -- What a change of the disk must keep.
  abbrev pub Keeps : Disk → Disk → Type 0
  Keeps d e =
      (t : Task)
      → deps.new_hash t.digest ≡ some t.hash
      → t.size ≡ size_of t.hash
      → Held d t
      → Held e t

  pub Keeps-of_blobs :
      (d e : Disk)
      → ((a h : Bytes) → e.files (blobs_file a h) ≡ d.files (blobs_file a h))
      → Keeps d e
  Keeps-of_blobs d e same t hashed _ held = record {
    text = held.text;
    there =
        rw (final_path_lem deps t hashed)
          (same _ _ ∙ (rw (final_path_lem deps t hashed) at held.there));
    promised = held.promised;
  }

  pub TaskSound-Keeps : (d e : Disk) → Keeps d e → (t : Task) → TaskSound d t → TaskSound e t
  TaskSound-Keeps d e keeps t s = record {
    hashed = s.hashed;
    sized = s.sized;
    held = λ c. keeps t s.hashed s.sized (s.held c);
  }

  pub Sound-disk :
      {f : Syscall → Bool} {w : World} (e : Disk)
      → Sound f w
      → e.fault ≡ w.disk.fault
      → Keeps (w.disk) e
      → Sound f (record w { disk = e })
  Sound-disk {w} e s same keeps = record {
    same_faults = same ∙ s.same_faults;
    tasks = All-map _ _ (w.plan.objects) (TaskSound-Keeps (w.disk) e keeps) s.tasks;
  }

  pub Sound-task :
      {f : Syscall → Bool} {w : World} (i : ℕ) (g : Task → Task) {t : Task}
      → Sound f w
      → get_elem? (w.plan.objects) i ≡ some t
      → TaskSound (w.disk) (g t)
      → Sound f (record w { plan = record (w.plan) { objects = modify (w.plan.objects) i g } })
  Sound-task {w} i g s at new = record {
    same_faults = s.same_faults;
    tasks = All-modify_at _ (w.plan.objects) i g at new s.tasks;
  }

  persist_locked-Keeps : (now : ℕ) (w : World) → Keeps (w.disk) ((persist_locked deps now w).0.disk)
  persist_locked-Keeps now w =
      Keeps-of_blobs _ _
        (λ a h. persist_locked-files deps now w (blobs_file a h) (λ e. cc) (λ e. cc))

  pub persist_locked-Sound :
      {f : Syscall → Bool} (now : ℕ) {w : World} → Sound f w → Sound f (persist_locked deps now w).0
  persist_locked-Sound now {w} s = record {
    same_faults = persist_locked-fault deps now w ∙ s.same_faults;
    tasks = rw (persist_locked-objects deps now w) (
        All-map _ _ (w.plan.objects) (TaskSound-Keeps (w.disk) _ (persist_locked-Keeps now w))
          s.tasks);
  }

  pub update_task-Sound :
      {f : Syscall → Bool} (now i : ℕ) (g : Task → Task) {w : World} {t : Task}
      → Sound f w
      → get_elem? (w.plan.objects) i ≡ some t
      → TaskSound (w.disk) (g t)
      → Sound f (update_task deps now i g w)
  unfolding update_task
  update_task-Sound now i g s at new = persist_locked-Sound now (Sound-task i g s at new)

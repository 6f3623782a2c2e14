-- ===== src/Files/Atomic.antt =====
-- What `WriteFileAtomic` leaves on disk, at its return and at a crash in between.
use imgpull.Base.{
  ℕ, zero, suc, ◌≡◌, refl, ◌≢◌, ◌⊎◌, inl, true, false, none, some, ◌++◌, arith, Bytes, take,
  take-nil, if◌then◌else◌,
}
use imgpull.Files.{
  FilePath, Disk, WriteStep, opening, filling, write_step, run_steps, write_file_atomic, Syscall,
  mkdir_all, create, write, sync, close, chmod, rename, remove, control, temp, blobs_file, tmp_file,
  image_file, make_dir,
}

path_ne_temp : (p : FilePath) → p ≢ temp p
path_ne_temp (image_file _) e = cc
path_ne_temp (blobs_file _ _) e = cc
path_ne_temp (tmp_file _) e = cc
path_ne_temp (control _) e = cc
path_ne_temp (temp p) e = path_ne_temp p (cc)

-- Everything but the files changes nowhere.
pub record SameMachine (d e : Disk) : Type 0 where
  pub same_fault : e.fault ≡ d.fault
  pub same_transferred : e.transferred ≡ d.transferred
  pub same_locked : e.locked ≡ d.locked

module _ (p : FilePath) (text : Bytes) where
  -- The target is as it was, or holds the whole text; other files are as they were.
  pub record Between (d e : Disk) : Type 0 where
    pub target : (e.files p ≡ d.files p) ⊎ (e.files p ≡ some text)
    pub others : (q : FilePath) → q ≢ p → q ≢ temp p → e.files q ≡ d.files q

  write_step-others :
      (s : WriteStep) (d : Disk) (q : FilePath)
      → q ≢ p
      → q ≢ temp p
      → (write_step p text s d).0.files q ≡ d.files q
  unfolding write_step
  write_step-others make_dir d q h k = refl
  write_step-others s d q h k = ground arith

  write_step-machine : (s : WriteStep) (d : Disk) → SameMachine d (write_step p text s d).0
  unfolding write_step
  write_step-machine make_dir d = ground arith
  write_step-machine s d = ground arith

  run_steps-Between : (d : Disk) → Between d (run_steps p text (opening ++ filling) d).0
  unfolding run_steps write_step
  run_steps-Between d = record {
    target = ground (arith, path_ne_temp p);
    others = λ q a b. ground arith;
  }

  steps_Between :
      (k : ℕ) (d : Disk) → Between d (run_steps p text (take k (opening ++ filling)) d).0
  unfolding run_steps write_step
  steps_Between zero d = record { target = inl refl; others = λ q _ _. refl }
  steps_Between (suc (suc (suc (suc (suc (suc (suc k))))))) d =
      rw (take-nil k) (run_steps-Between d)
  steps_Between (suc k) d = record {
    target = ground (arith, path_ne_temp p);
    others = λ q a b. ground arith;
  }

  -- A crash after any number of steps of `WriteFileAtomic` leaves the target as it was or with the
  -- whole text, and leaves every file but the target and the temporary one as it was.
  pub crash_between :
      (k : ℕ) (d : Disk) (q : FilePath)
      → q ≢ p
      → q ≢ temp p
      → let e = (run_steps p text (take k (opening ++ filling)) d).0 in
        ((e.files p ≡ d.files p) ⊎ (e.files p ≡ some text)) × (e.files q ≡ d.files q)
  crash_between k d q h l = let b = steps_Between k d in (b.target, b.others q h l)

  pub write_file_atomic-target :
      (d : Disk)
      → (write_file_atomic p text d).0.files p
        ≡ (if (write_file_atomic p text d).1 then some text else d.files p)
  unfolding write_file_atomic
  write_file_atomic-target d = ground (arith, path_ne_temp p)

  pub write_file_atomic-others :
      (d : Disk) (q : FilePath)
      → q ≢ p
      → q ≢ temp p
      → (write_file_atomic p text d).0.files q ≡ d.files q
  unfolding write_file_atomic
  write_file_atomic-others d q h k = ground arith

  -- `WriteFileAtomic` that succeeds leaves the text in the target; one that fails leaves the target
  -- as it was. Every file but the target and the temporary one stays as it was.
  pub write_file_atomic_lem :
      (d : Disk) (q : FilePath)
      → q ≢ p
      → q ≢ temp p
      → ((write_file_atomic p text d).0.files p
          ≡ (if (write_file_atomic p text d).1 then some text else d.files p))
        × ((write_file_atomic p text d).0.files q ≡ d.files q)
  write_file_atomic_lem d q h k = (write_file_atomic-target d, write_file_atomic-others d q h k)

  pub write_file_atomic-machine : (d : Disk) → SameMachine d (write_file_atomic p text d).0
  unfolding write_file_atomic
  write_file_atomic-machine d = ground arith

  -- `WriteFileAtomic` with no fault among its calls succeeds, and its temporary file is gone.
  pub write_file_atomic_total :
      (d : Disk)
      → ((c : Syscall) → d.fault c ≡ false)
      → ((write_file_atomic p text d).1 ≡ true)
        × ((write_file_atomic p text d).0.files (temp p) ≡ none)
  unfolding write_file_atomic
  write_file_atomic_total d fine = ground (
    arith,
    fine (mkdir_all p),
    fine (create (temp p)),
    fine (write (temp p)),
    fine (sync (temp p)),
    fine (close (temp p)),
    fine (chmod (temp p)),
    fine (rename (temp p) p),
    fine (remove (temp p)),
    path_ne_temp p,
  )

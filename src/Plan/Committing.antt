-- ===== src/Plan/Committing.antt =====
-- Committing a .part keeps the invariant of the plan.
use imgpull.Base.{
  ℕ, ◌≡◌, ◌≢◌, sym, ◌∙◌, Bool, true, false, some, Bytes, get_elem?, All-get_elem?, Bool-cases, inl,
  inr, arith,
}
use mathlib.Core.Path.{subst₂}
use imgpull.Files.{
  FilePath, FilePath-discrete, Disk, Syscall, control, blobs_file, tmp_file, mkdir_all, remove_file,
  rename_file,
}
use imgpull.Verify.{Hash}
use imgpull.Plan.{Task, World, Deps, final_path}
use imgpull.Plan.Tasks.{mark_committed_locked, committed_fields}
use imgpull.Plan.Reconcile.{commit_file, discard, on_disk}
use imgpull.Plan.Sound.{Sound, Keeps, final_path_lem, Keeps-of_blobs, Sound-disk, update_task-Sound}

-- Removing a file that is not in blobs/ leaves blobs/ alone.
remove_file-blobs :
    (p : FilePath) (d : Disk) (a h : Bytes)
    → p ≢ blobs_file a h
    → (remove_file p d).files (blobs_file a h) ≡ d.files (blobs_file a h)
unfolding remove_file
remove_file-blobs p d a h ne = ground arith

pub remove_file-fault : (p : FilePath) (d : Disk) → (remove_file p d).fault ≡ d.fault
unfolding remove_file
remove_file-fault p d = ground arith

pub remove_file-others : (p q : FilePath) (d : Disk) → q ≢ p → (remove_file p d).files q ≡ d.files q
unfolding remove_file
remove_file-others p q d ne = ground arith

rename_file-fault : (p q : FilePath) (d : Disk) → (rename_file p q d).0.fault ≡ d.fault
unfolding rename_file
rename_file-fault p q d = ground arith

rename_file_failed :
    (p q : FilePath) (d : Disk) → (rename_file p q d).1 ≡ false → (rename_file p q d).0 ≡ d
unfolding rename_file
rename_file_failed p q d h = ground arith

rename_file-target :
    (p q : FilePath) (d : Disk) {text : Bytes}
    → d.files p ≡ some text
    → (rename_file p q d).1 ≡ true
    → (rename_file p q d).0.files q ≡ some text
unfolding rename_file
rename_file-target p q d h k = ground arith

rename_file-others :
    (p q r : FilePath) (d : Disk) → r ≢ p → r ≢ q → (rename_file p q d).0.files r ≡ d.files r
unfolding rename_file
rename_file-others p q r d h k = ground arith

module _ (deps : Deps) (size_of : Hash → ℕ) (P : Bytes → Hash → ℕ → Type 0) where
  -- Two tasks with one file in blobs/ were promised the same.
  pub same_promise :
      (t u : Task) {text : Bytes}
      → t.size ≡ size_of t.hash
      → u.size ≡ size_of u.hash
      → blobs_file t.hash.algorithm t.hash.hex ≡ blobs_file u.hash.algorithm u.hash.hex
      → P text u.hash u.size
      → P text t.hash t.size
  same_promise t u {text} st su e held =
      let eh : u.hash ≡ t.hash = ground arith in
      let es : u.size ≡ t.size = ground arith in subst₂ (P text) eh es held

  -- Moving a file that is as promised into blobs/ keeps what other tasks were promised.
  rename_file-Keeps :
      (t : Task) (part : FilePath) (d : Disk) {text : Bytes}
      → deps.new_hash t.digest ≡ some t.hash
      → t.size ≡ size_of t.hash
      → ((a h : Bytes) → part ≢ blobs_file a h)
      → d.files part ≡ some text
      → P text t.hash t.size
      → Keeps deps size_of P d (rename_file part (final_path deps t) d).0
  rename_file-Keeps t part d {text} hashed sized outside there promised u uh us held =
      elim (FilePath-discrete (final_path deps u) (final_path deps t)) [
        | yes same ↦ elim (Bool-cases ((rename_file part (final_path deps t) d).1)) [
          | inl moved ↦ record {
            text = text;
            there = rw same (rename_file-target part (final_path deps t) d there moved);
            promised =
                same_promise u t us sized
                  (sym (final_path_lem deps u uh) ∙ same ∙ final_path_lem deps t hashed) promised;
          }
          | inr failed ↦ rw (rename_file_failed part _ d failed) held
        ]
        | no other ↦ record {
          text = held.text;
          there =
              rename_file-others part (final_path deps t) (final_path deps u) d
                (λ e. outside _ _ (sym e ∙ final_path_lem deps u uh)) other
              ∙ held.there;
          promised = held.promised;
        }
      ]

  remove_file-Keeps :
      (p : FilePath) (d : Disk)
      → ((a h : Bytes) → p ≢ blobs_file a h)
      → Keeps deps size_of P d (remove_file p d)
  remove_file-Keeps p d outside =
      Keeps-of_blobs deps size_of P _ _ (λ a h. remove_file-blobs p d a h (outside a h))

  pub remove_file-Sound :
      {f : Syscall → Bool} (p : FilePath) {w : World}
      → ((a h : Bytes) → p ≢ blobs_file a h)
      → Sound deps size_of P f w
      → Sound deps size_of P f (on_disk (remove_file p) w)
  remove_file-Sound p {w} outside s =
      Sound-disk deps size_of P (remove_file p (w.disk)) s (remove_file-fault p (w.disk))
        (remove_file-Keeps p (w.disk) outside)

  pub discard-Sound :
      {f : Syscall → Bool} (name : Bytes) {w : World}
      → Sound deps size_of P f w
      → Sound deps size_of P f (on_disk (discard (tmp_file name)) w)
  unfolding discard
  discard-Sound name s =
      remove_file-Sound (control (tmp_file name)) (λ a h e. cc)
        (remove_file-Sound (tmp_file name) (λ a h e. cc) s)

  module _ {f : Syscall → Bool} (now i : ℕ) (t : Task) (name : Bytes) {w : World} {text : Bytes}
      (s : Sound deps size_of P f w) (at : get_elem? (w.plan.objects) i ≡ some t)
      (there : w.disk.files (tmp_file name) ≡ some text) (promised : P text t.hash t.size) where
    moved_Sound :
        Sound deps size_of P f
          (record w { disk = (rename_file (tmp_file name) (final_path deps t) (w.disk)).0 })
    moved_Sound =
        let ts = All-get_elem? _ (w.plan.objects) i s.tasks at in
        Sound-disk deps size_of P _ s
          (rename_file-fault (tmp_file name) (final_path deps t) (w.disk))
          (rename_file-Keeps t (tmp_file name) (w.disk) ts.hashed ts.sized (λ a h e. cc) there
            promised)

    marked_Sound :
        (rename_file (tmp_file name) (final_path deps t) (w.disk)).1 ≡ true
        → Sound deps size_of P f (
            mark_committed_locked now deps i (record w {
              disk =
                  remove_file
                    (control (tmp_file name))
                    (rename_file (tmp_file name) (final_path deps t) (w.disk)).0;
            }))
    unfolding mark_committed_locked
    marked_Sound moved =
        let ts = All-get_elem? _ (w.plan.objects) i s.tasks at in
        update_task-Sound deps size_of P now i (committed_fields now)
          (remove_file-Sound (control (tmp_file name)) (λ a h e. cc) moved_Sound) at
          (record {
            hashed = ts.hashed;
            sized = ts.sized;
            held = λ _.
                remove_file-Keeps (control (tmp_file name)) _ (λ a h e. cc) (committed_fields now t)
                  ts.hashed ts.sized
                  (record {
                    text = text;
                    there =
                        rename_file-target (tmp_file name) (final_path deps t) (w.disk) there moved;
                    promised = promised;
                  });
          })

    -- A commit of a .part that is as promised keeps the invariant, also where a call fails.
    pub commit_file-Sound : Sound deps size_of P f (commit_file deps now i t (tmp_file name) w).0
    unfolding commit_file
    commit_file-Sound = elim (Bool-cases (w.disk.fault (mkdir_all (final_path deps t)))) [
      | inl stuck ↦ rw stuck s
      | inr free ↦
          elim (Bool-cases ((rename_file (tmp_file name) (final_path deps t) (w.disk)).1)) [
            | inl moved ↦ rw (free, moved) (marked_Sound moved)
            | inr failed ↦ rw (free, failed) moved_Sound
          ]
    ]

-- ===== src/Plan/Guarantees.antt =====
-- What `Build` promises of the plan that it returns, and of the directory lock where it fails.
use imgpull.Base.{
  ℕ, ◌≡◌, Bool, true, false, some, List, [], Bytes, codes, get_elem?, All-get_elem?, Bool-cases,
  Option-cases, Result-cases, inl, inr, arith, length,
}
use imgpull.Files.{Disk, FilePath, mkdir_all, open_file, read_file, image_file, write_file_atomic}
use imgpull.Files.Atomic.{write_file_atomic-machine}
use imgpull.Verify.{Hash}
use imgpull.Verify.Laws.{IsIntact, blob_complete}
use imgpull.Platform.{Platform}
use imgpull.Reference.{Ref}
use imgpull.Manifest.{ImageManifest}
use imgpull.Plan.{Task, World, Deps, StateObject, committed, final_path, final_path_for}
use imgpull.Plan.Reconcile.{blob_exists}
use imgpull.Plan.Build.{
  built, refused, BuildError, lock_dir_failed, lock_open_failed, locked_by_other, build,
  build_locked, build_tasks, adopted, previous, load_state, new_tasks, store_manifest_blob, created,
  lock_image_dir, finish,
}
use imgpull.Plan.Sound.{AllSized, Held, Sound}
use imgpull.Plan.Building.{build_tasks-Sound}

store_manifest_blob-fault :
    (deps : Deps) (mfst : ImageManifest) (d : Disk)
    → (store_manifest_blob deps mfst d).0.fault ≡ d.fault
unfolding store_manifest_blob
store_manifest_blob-fault deps mfst d =
    let final = final_path_for deps mfst.digest in
    let first = write_file_atomic-machine final mfst.raw d in
    let later =
      write_file_atomic-machine (image_file (codes "manifest.json")) mfst.raw
        (write_file_atomic final mfst.raw d).0 in
    ground (arith, first, later)

module _ (deps : Deps) (ref : Ref) (mfst : ImageManifest) (plat : Platform) (verify : Bool)
    (clock : ℕ → ℕ) where
  -- A built plan comes from a run of the task loop, on a disk with the same faults.
  pub record Run (d : Disk) (w : World) : Type 0 where
    pub manifest_hash : Hash
    pub objects : List StateObject
    pub start : Disk
    pub ran : build_tasks deps ref mfst plat verify clock manifest_hash objects start ≡ built w
    pub same : start.fault ≡ d.fault

  locked-Run :
      (d : Disk) {w : World} → build_locked deps ref mfst plat verify clock d ≡ built w → Run d w
  unfolding build_locked
  locked-Run d h = elim (Option-cases (deps.new_hash mfst.digest)) [
    | inl bad ↦ ground arith
    | inr (g, known) ↦ record {
      manifest_hash = g;
      objects = adopted mfst.digest (previous (load_state deps d));
      start = (store_manifest_blob deps mfst d).0;
      ran = ground arith;
      same = store_manifest_blob-fault deps mfst d;
    }
  ]

  pub Run-of_built :
      (d : Disk) {w : World} → build deps ref mfst plat verify clock d ≡ built w → Run d w
  unfolding build lock_image_dir
  Run-of_built d h =
      let r = locked-Run (record (created d) { locked = true }) (ground arith) in
      record {
        manifest_hash = r.manifest_hash;
        objects = r.objects;
        start = r.start;
        ran = r.ran;
        same = r.same;
      }

  finish_refused :
      (n : ℕ) (x : World × Bool) {e : BuildError} {d : Disk}
      → finish deps ref mfst plat verify clock n x ≡ refused e d
      → d.locked ≡ false
  finish_refused n (v, true) h = cc
  finish_refused n (v, false) h = ground arith

  tasks_refused :
      (h : Hash) (objects : List StateObject) (d : Disk) {e : BuildError} {d' : Disk}
      → build_tasks deps ref mfst plat verify clock h objects d ≡ refused e d'
      → d'.locked ≡ false
  unfolding build_tasks
  tasks_refused h objects d made = elim (Result-cases (new_tasks deps mfst)) [
    | inr (bad, e) ↦ ground arith
    | inl (ts, e) ↦ finish_refused (length ts) _ (rw (e, build_tasks) at made)
  ]

  locked_refused :
      (d : Disk) {e : BuildError} {d' : Disk}
      → build_locked deps ref mfst plat verify clock d ≡ refused e d'
      → d'.locked ≡ false
  unfolding build_locked
  locked_refused d made = elim (Option-cases (deps.new_hash mfst.digest)) [
    | inl bad ↦ ground arith
    | inr (h, known) ↦ ground (
      arith,
      tasks_refused h (adopted mfst.digest (previous (load_state deps d)))
          (store_manifest_blob deps mfst d).0,
    )
  ]

  -- `Build` that returns an error leaves the directory unlocked, if it was unlocked before.
  pub build_unlocks :
      (d : Disk) {e : BuildError} {d' : Disk}
      → d.locked ≡ false
      → build deps ref mfst plat verify clock d ≡ refused e d'
      → d'.locked ≡ false
  unfolding build lock_image_dir
  build_unlocks d {e} {d'} free made =
      ground (arith, locked_refused (record (created d) { locked = true }) {e = e} {d' = d'})

  -- While another process holds the lock, `Build` fails and changes nothing on disk.
  pub build_excluded :
      (d : Disk)
      → d.locked ≡ true
      → (e : BuildError) × (build deps ref mfst plat verify clock d ≡ refused e d)
  unfolding build lock_image_dir
  build_excluded d held = elim (Bool-cases (d.fault (mkdir_all (image_file [])))) [
    | inl a ↦ (lock_dir_failed, ground arith)
    | inr a ↦ elim (Bool-cases (d.fault (open_file (image_file (codes ".imgpull.lock"))))) [
      | inl b ↦ (lock_open_failed, ground arith)
      | inr b ↦ (locked_by_other, ground arith)
    ]
  ]

build-Sound :
    (deps : Deps) (ref : Ref) (mfst : ImageManifest) (plat : Platform) (verify : Bool)
    (clock : ℕ → ℕ) (d : Disk) (size_of : Hash → ℕ) (P : Bytes → Hash → ℕ → Type 0) {w : World}
    → ((text : Bytes) (h : Hash) (n : ℕ) → IsIntact deps.digests text h n → P text h n)
    → (verify ≡ true
        → (e : Disk) (t : Task) → e.fault ≡ d.fault
        → deps.new_hash t.digest ≡ some t.hash
        → Held deps size_of P e t
        → blob_exists deps e (final_path deps t) t.digest t.size ≡ true)
    → (verify ≡ false → (text : Bytes) (h : Hash) (n : ℕ) → P text h n)
    → AllSized deps size_of mfst
    → build deps ref mfst plat verify clock d ≡ built w
    → Sound deps size_of P d.fault w
build-Sound deps ref mfst plat verify clock d size_of P of_intact careful lenient (hc, hl) made =
    let r = Run-of_built deps ref mfst plat verify clock d made in
    build_tasks-Sound deps size_of P of_intact d.fault verify careful lenient r.objects ref mfst
      plat clock hc hl r.manifest_hash r.start r.same r.ran

intact_exists :
    (deps : Deps) (d : Disk) (t : Task) {text : Bytes}
    → ((p : FilePath) → (d.fault (open_file p) ≡ false) × (d.fault (read_file p) ≡ false))
    → deps.new_hash t.digest ≡ some t.hash
    → d.files (final_path deps t) ≡ some text
    → IsIntact deps.digests text t.hash t.size
    → blob_exists deps d (final_path deps t) t.digest t.size ≡ true
unfolding blob_exists
intact_exists deps d t {text} readable hashed there intact =
    let (opened, read) = readable (final_path deps t) in
    let passed =
      blob_complete deps.digests d (final_path deps t) t.hash t.size text there intact opened
        read in
    ground arith

pub build_verified-Sound :
    (deps : Deps) (ref : Ref) (mfst : ImageManifest) (plat : Platform) (clock : ℕ → ℕ) (d : Disk)
    (size_of : Hash → ℕ) {w : World}
    → ((p : FilePath) → (d.fault (open_file p) ≡ false) × (d.fault (read_file p) ≡ false))
    → AllSized deps size_of mfst
    → build deps ref mfst plat true clock d ≡ built w
    → Sound deps size_of (IsIntact deps.digests) d.fault w
build_verified-Sound deps ref mfst plat clock d size_of readable sized made =
    build-Sound deps ref mfst plat true clock d size_of (IsIntact deps.digests)
      (λ text h n intact. intact)
      (λ _ e u same hashed held.
        intact_exists deps e u (λ p. rw same (readable p)) hashed held.there held.promised)
      (λ off. cc) sized made

-- With `--verify`, every committed task of a built plan has a file in blobs/ that has its size and
-- hashes to its digest, if files can be read and equal digests have equal sizes in the manifest.
pub build_verified :
    (deps : Deps) (ref : Ref) (mfst : ImageManifest) (plat : Platform) (clock : ℕ → ℕ) (d : Disk)
    (size_of : Hash → ℕ) {w : World}
    → ((p : FilePath) → (d.fault (open_file p) ≡ false) × (d.fault (read_file p) ≡ false))
    → AllSized deps size_of mfst
    → build deps ref mfst plat true clock d ≡ built w
    → (i : ℕ) (t : Task) → get_elem? (w.plan.objects) i ≡ some t
    → t.status ≡ committed
    → (text : Bytes) × (w.disk.files (final_path deps t) ≡ some text)
      × IsIntact deps.digests text t.hash t.size
build_verified deps ref mfst plat clock d size_of {w} readable sized made i t at done =
    let s = build_verified-Sound deps ref mfst plat clock d size_of readable sized made in
    let held = (All-get_elem? _ (w.plan.objects) i s.tasks at).held done in
    (held.text, held.there, held.promised)

-- Without `--verify`, a committed task of a built plan has a file in blobs/, if equal
-- digests have equal sizes in the manifest.
pub build_present :
    (deps : Deps) (ref : Ref) (mfst : ImageManifest) (plat : Platform) (clock : ℕ → ℕ) (d : Disk)
    (size_of : Hash → ℕ) {w : World}
    → AllSized deps size_of mfst
    → build deps ref mfst plat false clock d ≡ built w
    → (i : ℕ) (t : Task) → get_elem? (w.plan.objects) i ≡ some t
    → t.status ≡ committed
    → (text : Bytes) × (w.disk.files (final_path deps t) ≡ some text)
build_present deps ref mfst plat clock d size_of {w} sized made i t at done =
    let s =
      build-Sound deps ref mfst plat false clock d size_of (λ _ _ _. Unit {0})
        (λ text h n intact. tt) (λ on. cc) (λ _ text h n. tt) sized made in
    let held = (All-get_elem? _ (w.plan.objects) i s.tasks at).held done in (held.text, held.there)

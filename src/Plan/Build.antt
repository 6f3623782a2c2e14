-- ===== src/Plan/Build.antt =====
-- internal/plan: `Build`, `storeManifestBlob`, the reading of state.json and the directory lock.
use imgpull.Base.{
  ℕ, zero, suc, ◌==◌, Bool, true, false, not, ◌||◌, Option, none, some, List, [], ◌∷◌, ◌++◌, Bytes,
  codes, bytes_eq, is_empty, get_elem?, length, modify, if◌then◌else◌, Result, ok, err, ◌>>=◌,
}
use imgpull.Files.{
  FilePath, Disk, put, image_file, blobs_file, tmp_file, mkdir_all, open_file, read_file, lock_file,
  write_file_atomic,
}
use imgpull.Verify.{Hash}
use imgpull.Platform.{Platform}
use imgpull.Reference.{Ref, ref_dir, short_digest}
use imgpull.Manifest.{BlobDescriptor, ImageManifest}
use imgpull.Plan.{
  Kind, config, layer, Task, Plan, World, Deps, StateObject, StateFile, pending, committed,
  is_committed, final_path_for, part_name_of, state_path, state_version, save_now, save_final,
}
use imgpull.Plan.Reconcile.{blob_exists, reconcile_task}

pub data BuildError : Type 0 where
  lock_dir_failed lock_open_failed locked_by_other : BuildError
  directory_failed manifest_digest_invalid manifest_not_stored state_not_saved : BuildError

-- What `Build` ends in. A panic ends the process.
pub data BuildOutcome : Type 0 where
  built : World → BuildOutcome
  refused : BuildError → Disk → BuildOutcome
  panicked : Bytes → Disk → BuildOutcome

pub data StateError : Type 0 where
  state_unreadable state_corrupt : StateError
  state_unsupported : ℕ → StateError

-- `exportTagFor`
unfoldable pub export_tag_for : Ref → Bytes
export_tag_for ref =
    if not (is_empty ref.tag)
    then ref.registry ++ b'/' ∷ (ref.repository ++ b':' ∷ ref.tag)
    else ref.registry
      ++ b'/' ∷ (ref.repository ++ b':' ∷ (codes "imgpull-" ++ short_digest ref.digest))

abbrev pub lock_path : FilePath
lock_path = image_file (codes ".imgpull.lock")

-- `os.OpenFile` with O_CREATE, which makes an empty file where there is none.
abbrev pub created : Disk → Disk
created d = record d {
  files = elim (d.files lock_path) [ some text ↦ d.files | none ↦ put d.files lock_path (some []) ];
}

-- `lockImageDir`: the disk, and the error if there is one. `Flock` fails while another process has the
-- lock, and that process has made the file.
unfoldable pub lock_image_dir : Disk → Disk × Option BuildError
lock_image_dir d =
    if d.fault (mkdir_all (image_file []))
    then (d, some lock_dir_failed)
    else if d.fault (open_file lock_path)
    then (d, some lock_open_failed)
    else if d.locked
    then (d, some locked_by_other)
    else if d.fault (lock_file lock_path)
    then (created d, some locked_by_other)
    else (record (created d) { locked = true }, none)

-- `(*fileLock).Release`
abbrev pub release_lock : Disk → Disk
release_lock d = record d { locked = false }

-- `loadState`; a missing file is `ok none`.
unfoldable pub load_state : Deps → Disk → Result StateError (Option StateFile)
load_state deps d = elim (d.files state_path) [
  | none ↦ ok none
  | some text ↦
      if d.fault (open_file state_path) || d.fault (read_file state_path)
      then err state_unreadable
      else (elim (deps.decode_state text) [
        | none ↦ err state_corrupt
        | some st ↦
            if st.version == state_version then ok (some st) else err (state_unsupported st.version)
      ])
]

-- The state that `Build` goes on with: an error is a warning, and the run starts from scratch.
unfoldable pub previous : Result StateError (Option StateFile) → Option StateFile
previous (ok prev) = prev
previous (err _) = none

-- The objects that `Build` adopts: those of a state file for the same manifest.
unfoldable pub adopted : Bytes → Option StateFile → List StateObject
adopted digest none = []
adopted digest (some st) = if bytes_eq st.manifest_digest digest then st.objects else []

-- `committed[digest]`: of several objects with one digest the last is in the map.
unfoldable pub recall : Bytes → List StateObject → Option StateObject
recall digest [] = none
recall digest (o ∷ os) = elim (recall digest os) [
  | some found ↦ some found
  | none ↦ if bytes_eq o.digest digest then some o else none
]

-- What a task takes over from the state file.
unfoldable pub carry_over : Bool → StateObject → Task → Task
carry_over verify_existing o t =
    if is_committed o.status
    then record t { retries = o.retries; status = if verify_existing then t.status else committed }
    else record t { range_unsupported = o.range_unsupported }

module _ (deps : Deps) where
  -- `storeManifestBlob`
  unfoldable pub store_manifest_blob : ImageManifest → Disk → Disk × Bool
  store_manifest_blob mfst d =
      let final = final_path_for deps mfst.digest in
      if blob_exists deps d final mfst.digest (length mfst.raw)
      then (d, true)
      else (let stored = write_file_atomic final mfst.raw d in
          if stored.1
          then write_file_atomic (image_file (codes "manifest.json")) mfst.raw stored.0
          else (stored.0, false))

  -- The closure `add`; `err` is its panic.
  unfoldable pub new_task : Kind → BlobDescriptor → Result Bytes Task
  new_task kind b = elim (deps.new_hash b.digest) [
    | none ↦ err b.digest
    | some h ↦ ok (record {
      kind = kind;
      digest = b.digest;
      size = b.size;
      media_type = b.media_type;
      status = pending;
      part_name = part_name_of h;
      gid = [];
      url = [];
      url_expires_at = none;
      alt_urls = b.urls;
      retries = 0;
      last_error = [];
      updated_at = 0;
      range_unsupported = false;
      hash = h;
    })
  ]

  unfoldable pub layer_tasks : List BlobDescriptor → Result Bytes (List Task)
  layer_tasks [] = ok []
  layer_tasks (l ∷ ls) = do t ← new_task layer l; ts ← layer_tasks ls; ok (t ∷ ts)

  -- The config first, then the layers.
  unfoldable pub new_tasks : ImageManifest → Result Bytes (List Task)
  unfolding layer_tasks
  new_tasks mfst = do c ← new_task config mfst.config; ls ← layer_tasks mfst.layers; ok (c ∷ ls)

  -- `committed` in the loop over the tasks, with `verifyExisting`.
  module _ (verify_existing : Bool) (objects : List StateObject) where
    unfoldable pub adopt : Task → Task
    adopt t = elim (recall t.digest objects) [ none ↦ t | some o ↦ carry_over verify_existing o t ]

    -- One round of the loop, on the task at `i`, at the time `now`.
    unfoldable pub reconcile_round : ℕ → ℕ → World → World
    reconcile_round now i w =
        let w' : World = record w {
          plan = record (w.plan) { objects = modify (w.plan.objects) i adopt };
        } in
        elim (get_elem? (w'.plan.objects) i) [
          | none ↦ w'
          | some t ↦ (reconcile_task deps now i verify_existing t w').0
        ]

    -- The loop, with the number of tasks left. `clock i` is the time of round `i`.
    unfoldable pub reconcile_loop : (ℕ → ℕ) → ℕ → ℕ → World → World
    reconcile_loop clock zero i w = w
    reconcile_loop clock (suc k) i w =
        reconcile_loop clock k (suc i) (reconcile_round (clock i) i w)

  abbrev pub new_plan : Ref → ImageManifest → Platform → Hash → List Task → Plan
  new_plan ref mfst plat h tasks = record {
    registry = ref.registry;
    repository = ref.repository;
    reference = ref_dir ref;
    image = ref.input;
    export_tag = export_tag_for ref;
    platform = plat;
    manifest_digest = mfst.digest;
    manifest_media_type = mfst.media_type;
    manifest_raw = mfst.raw;
    manifest_hash = h;
    objects = tasks;
    locked = true;
    last_save = 0;
  }

  module _ (ref : Ref) (mfst : ImageManifest) (plat : Platform) (verify_existing : Bool)
      (clock : ℕ → ℕ) where
    abbrev pub finish : ℕ → World × Bool → BuildOutcome
    finish n (w, true) = built w
    finish n (w, false) = refused state_not_saved (release_lock (w.disk))

    -- From the building of the tasks to the end. `n` tasks are reconciled at `clock 0 .. clock n`.
    unfoldable pub build_tasks : Hash → List StateObject → Disk → BuildOutcome
    build_tasks h objects d = elim (new_tasks mfst) [
      | err digest ↦ panicked digest d
      | ok tasks ↦
          let n = length tasks in
          finish n (
            save_now deps (clock n) (
              reconcile_loop verify_existing objects clock n 0
                (record { plan = new_plan ref mfst plat h tasks; disk = d })))
    ]

    -- The part that runs with the lock held.
    unfoldable pub build_locked : Disk → BuildOutcome
    unfolding build_tasks
    build_locked d =
        if d.fault (mkdir_all (image_file []))
          || (d.fault (mkdir_all (tmp_file [])) || d.fault (mkdir_all (blobs_file [] [])))
        then refused directory_failed (release_lock d)
        else (elim (deps.new_hash mfst.digest) [
          | none ↦ refused manifest_digest_invalid (release_lock d)
          | some h ↦
              let prev = previous (load_state deps d) in
              let stored = store_manifest_blob mfst d in
              if stored.1
              then build_tasks h (adopted mfst.digest prev) stored.0
              else refused manifest_not_stored (release_lock stored.0)
        ])

    -- `Build`
    unfoldable pub build : Disk → BuildOutcome
    unfolding build_locked
    build d =
        let taken = lock_image_dir d in
        elim (taken.1) [ some e ↦ refused e taken.0 | none ↦ build_locked taken.0 ]

-- `Release` on a plan that is not nil; its save's error is ignored.
unfoldable pub release : Deps → ℕ → World → World
release deps now w =
    let w' = (save_final deps now w).0 in
    if w'.plan.locked
    then record { plan = record (w'.plan) { locked = false }; disk = release_lock (w'.disk) }
    else w'

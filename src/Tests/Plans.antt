-- ===== src/Tests/Plans.antt =====
-- Plans and files: the writing of files, the check of blobs, and `Build`, at concrete inputs.
use imgpull.Base.{
  ℕ, ◌≡◌, refl, ap, ◌⊎◌, ◌+◌, ◌*◌, ◌++◌, Bool, true, false, ◌&&◌, Option, none, some, List, [], ◌∷◌,
  Bytes, codes, bytes_eq, cut, take, length, get_elem?, second, if◌then◌else◌, ok, arith,
}
use imgpull.Files.{
  FilePath, FilePath-discrete, Disk, image_file, blobs_file, tmp_file, put, opening, filling,
  run_steps, write_step, write_file_atomic, rename_file, remove_file, create,
}
use imgpull.Files.Atomic.{crash_between, write_file_atomic_lem}
use imgpull.Verify.{Hash, Digests, new_hash_func, file_digest}
use imgpull.Verify
use imgpull.Verify.Laws.{IsIntact, blob_sound}
use imgpull.Plan.{
  Task, World, StateFile, Status, pending, downloading, committed, failed, unknown_status,
  is_committed, final_path, final_path_for, save_now, save_final, save_state, persist_locked,
  state_path, state_file, update_task,
}
use imgpull.Plan.Tasks.{mark_committed_locked}
use imgpull.Plan.Reconcile.{
  blob_exists, reconcile_task, commit_file, discard, reconcile_blob, resume_part,
}
use imgpull.Plan.Build.{
  lock_path, lock_image_dir, store_manifest_blob, new_tasks, new_task, reconcile_loop,
  reconcile_round, adopt, recall, adopted, build_locked, build_tasks, layer_tasks, previous,
  BuildOutcome, BuildError, manifest_digest_invalid, built, refused, panicked, build, load_state,
}
use imgpull.Plan.Saving.{load_state-save_final}
use imgpull.Plan.Sound.{AllSized}
use imgpull.Plan.Guarantees.{build_verified, build_present, build_unlocks, build_excluded}
use imgpull.Tests.{
  deps, deps_with, plain_digests, empty_disk, linux, alpine, two_blobs, layer_hash, layer_task,
  plan_of, one_layer,
}

-- A disk on which the temporary file of state.json cannot be made.
abbrev stuck_disk : Disk
stuck_disk = record empty_disk { fault = λ c. elim c [ create _ ↦ true | _ ↦ false ] }

crash_between_example :
    let e = (run_steps state_path (codes "new") (take 3 (opening ++ filling)) empty_disk).0 in
    ((e.files state_path ≡ none) ⊎ (e.files state_path ≡ some (codes "new")))
    × (e.files (image_file (codes "manifest.json")) ≡ none)
crash_between_example =
    crash_between state_path (codes "new") 3 empty_disk (image_file (codes "manifest.json"))
      (λ e. cc) (λ e. cc)

write_file_atomic_lem_example :
    ((write_file_atomic state_path (codes "new") stuck_disk).0.files state_path ≡ (
      if (write_file_atomic state_path (codes "new") stuck_disk).1
      then some (codes "new")
      else none))
    × ((write_file_atomic state_path (codes "new") stuck_disk).0.files (tmp_file []) ≡ none)
write_file_atomic_lem_example =
    write_file_atomic_lem state_path (codes "new") stuck_disk (tmp_file []) (λ e. cc) (λ e. cc)

abbrev layer_file : FilePath
layer_file = blobs_file (codes "sha256") (codes "ll")

abbrev disk_with_layer : Disk
disk_with_layer = record empty_disk { files = put empty_disk.files layer_file (some (codes "ll")) }

layer_accepted : Verify.blob plain_digests disk_with_layer layer_file layer_hash 2 ≡ ok tt
unfolding Verify.blob file_digest new_hash_func bytes_eq FilePath-discrete
    native.Mathlib.Decide.ℕ_discrete
layer_accepted = refl

layer_IsIntact : IsIntact plain_digests (codes "ll") layer_hash 2
unfolding new_hash_func bytes_eq
layer_IsIntact = record { sum = λ text. text; known = refl; sized = refl; hashed = refl }

layer_there : disk_with_layer.files layer_file ≡ some (codes "ll")
unfolding FilePath-discrete native.Mathlib.Decide.ℕ_discrete
layer_there = refl

blob_sound_example :
    (text : Bytes) × (disk_with_layer.files layer_file ≡ some text)
    × IsIntact plain_digests text layer_hash 2
blob_sound_example = blob_sound plain_digests disk_with_layer layer_file layer_hash 2 layer_accepted

-- A run finds the .part of the config complete and nothing of the layer.
abbrev pub part_disk : Disk
part_disk = record empty_disk {
  files = put empty_disk.files (tmp_file (codes "sha256_cc.part")) (some (codes "cc"));
}

abbrev pub clock : ℕ → ℕ
clock n = 2 * second + n

abbrev pub world_of : BuildOutcome → World
world_of (built w) = w
world_of (refused e d) = record one_layer { disk = d }
world_of (panicked s d) = record one_layer { disk = d }

abbrev pub resumed : Bool → World
resumed verify = world_of (build deps alpine two_blobs linux verify clock part_disk)

abbrev pub task_of : Option Task → Task
task_of none = layer_task
task_of (some t) = t

abbrev pub first_task : World → Task
first_task w = task_of (get_elem? (w.plan.objects) 0)

abbrev pub size_of : Hash → ℕ
size_of h = length h.hex

abbrev hash_size : Option Hash → ℕ
hash_size none = 0
hash_size (some h) = size_of h

pub two_blobs-AllSized : AllSized deps size_of two_blobs
unfolding cut
two_blobs-AllSized = (λ h e. ap (λ o. hash_size o) e, (λ h e. ap (λ o. hash_size o) e, tt))

abbrev pub is_built : BuildOutcome → Bool
is_built (built w) = true
is_built _ = false

abbrev pub has_committed : Option Task → Bool
has_committed none = false
has_committed (some t) = is_committed t.status

abbrev pub starts_committed : World → Bool
starts_committed w = has_committed (get_elem? (w.plan.objects) 0)

pub built_world : (o : BuildOutcome) → is_built o ≡ true → o ≡ built (world_of o)
built_world (built w) h = refl
built_world (refused e d) h = cc
built_world (panicked m d) h = cc

is_committed_inverse : (s : Status) → is_committed s ≡ true → s ≡ committed
is_committed_inverse pending h = cc
is_committed_inverse downloading h = cc
is_committed_inverse committed h = refl
is_committed_inverse failed h = cc
is_committed_inverse (unknown_status m) h = cc

pub starts_inverse :
    (o : Option Task)
    → has_committed o ≡ true
    → (o ≡ some (task_of o)) × ((task_of o).status ≡ committed)
starts_inverse none h = cc
starts_inverse (some t) h = (refl, is_committed_inverse t.status h)

resumed_runs :
    (verify : Bool)
    → is_built (build deps alpine two_blobs linux verify clock part_disk)
        && starts_committed (resumed verify)
      ≡ true
unfolding build lock_image_dir cut store_manifest_blob blob_exists FilePath-discrete final_path_for
    write_file_atomic native.Mathlib.Decide.ℕ_discrete new_tasks new_task save_now persist_locked
    reconcile_loop reconcile_round reconcile_task adopt recall bytes_eq remove_file rename_file
    run_steps write_step adopted build_locked build_tasks layer_tasks load_state previous
    commit_file discard reconcile_blob resume_part mark_committed_locked save_state update_task
    Verify.blob file_digest new_hash_func
resumed_runs false = refl
resumed_runs true = refl

pub resumed_built :
    (verify : Bool)
    → build deps alpine two_blobs linux verify clock part_disk ≡ built (resumed verify)
resumed_built verify =
    built_world (build deps alpine two_blobs linux verify clock part_disk)
      (let h = resumed_runs verify in ground arith)

resumed_starts :
    (verify : Bool)
    → (get_elem? ((resumed verify).plan.objects) 0 ≡ some (first_task (resumed verify)))
      × ((first_task (resumed verify)).status ≡ committed)
resumed_starts verify =
    starts_inverse (get_elem? ((resumed verify).plan.objects) 0)
      (let h = resumed_runs verify in ground arith)

build_verified_example :
    (text : Bytes) × ((resumed true).disk.files (final_path deps (first_task (resumed true)))
      ≡ some text)
    × IsIntact plain_digests text (first_task (resumed true)).hash (first_task (resumed true)).size
build_verified_example =
    build_verified deps alpine two_blobs linux clock part_disk size_of (λ p. (refl, refl))
      two_blobs-AllSized (resumed_built true) 0 (first_task (resumed true)) (resumed_starts true).0
      (resumed_starts true).1

build_present_example :
    (text : Bytes) × ((resumed false).disk.files (final_path deps (first_task (resumed false)))
      ≡ some text)
build_present_example =
    build_present deps alpine two_blobs linux clock part_disk size_of two_blobs-AllSized
      (resumed_built false) 0 (first_task (resumed false)) (resumed_starts false).0
      (resumed_starts false).1

-- The lock file stays behind.
abbrev unlocked_disk : Disk
unlocked_disk = record empty_disk { files = put empty_disk.files lock_path (some []) }

unlocked_refused :
    build deps alpine (record two_blobs { digest = [] }) linux false clock empty_disk
    ≡ refused manifest_digest_invalid unlocked_disk
unfolding build lock_image_dir build_locked cut
unlocked_refused = refl

build_unlocks_example : unlocked_disk.locked ≡ false
build_unlocks_example =
    build_unlocks deps alpine (record two_blobs { digest = [] }) linux false clock empty_disk refl
      unlocked_refused

build_excluded_example :
    (e : BuildError) × (build deps alpine two_blobs linux false clock
        (record empty_disk { locked = true })
      ≡ refused e (record empty_disk { locked = true }))
build_excluded_example =
    build_excluded deps alpine two_blobs linux false clock (record empty_disk { locked = true })
      refl

abbrev saved : StateFile
saved = state_file (3 * second) (plan_of (layer_task ∷ []))

final_saved : (save_final (deps_with saved) (3 * second) one_layer).1 ≡ true
unfolding save_final save_now persist_locked save_state write_file_atomic run_steps write_step
    rename_file remove_file FilePath-discrete native.Mathlib.Decide.ℕ_discrete
final_saved = refl

load_state-save_final_example :
    load_state (deps_with saved) ((save_final (deps_with saved) (3 * second) one_layer).0.disk)
    ≡ ok (some saved)
load_state-save_final_example =
    load_state-save_final (deps_with saved) (3 * second) one_layer (omega arith) (λ text h. refl)
      refl refl final_saved

abbrev two_tasks : List Task
two_tasks = layer_task ∷ record layer_task { status = committed } ∷ []

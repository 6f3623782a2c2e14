-- ===== src/Tests/Downloads.antt =====
-- `downloadObject` at concrete behaviours of aria2.
use imgpull.Base.{
  ℕ, zero, suc, ◌≡◌, refl, ◌<◌, ◌+◌, Bool, true, false, ◌||◌, Option, none, some, is_some, List, [],
  ◌∷◌, Bytes, codes, bytes_eq, cut, get_elem?, modify, ltb, leb, if◌then◌else◌, Result, ok, err,
  arith, Option-cases, inl, inr,
}
use imgpull.Files.{FilePath-discrete, Disk, tmp_file, blobs_file, put, remove_file, rename_file}
use imgpull.Verify
use imgpull.Verify.{Hash, file_digest, new_hash_func}
use imgpull.Verify.Laws.{IsIntact}
use imgpull.Retry.{
  GoError, plain, wrapped, rpc_error, is_canceled, is_deadline, is_non_retryable, blob_not_found,
}
use imgpull.Registry.{Net}
use imgpull.Plan.{Task, committed, failed, final_path, final_path_for, update_task, persist_locked}
use imgpull.Plan.Tasks.{mark_committed_locked, set_task, pop_alt_url}
use imgpull.Plan.Reconcile.{commit_file}
use imgpull.Plan.Sound.{Sound}
use imgpull.Scheduler.{
  Options, Config, Sched, Outcome, Aria2, DownloadStatus, TaskState, complete, time, pass,
}
use imgpull.Scheduler.Submit.{
  submit_loop, find_existing_task, find_gid, rejects_options, first_options,
}
use imgpull.Scheduler.Parts.{part_complete, precheck, verify_and_commit}
use imgpull.Scheduler.Wait.{current_value, wait_gid, on_complete}
use imgpull.Scheduler.Attempt.{attempt, fetch, submit_and_watch, submit_new, on_missing}
use imgpull.Scheduler.Download.{download_object, verdict, retry_loop}
use imgpull.Scheduler.Polling.{IsAside}
use imgpull.Scheduler.Settling.{EndsByCancel}
use imgpull.Scheduler.Guarantees.{download_verified, download_keeps, download_failed}
use imgpull.Scheduler.Ending.{submit_loop_ends}
use imgpull.Scheduler.Stalling.{answering, on_missing_polls}
use imgpull.Tests.{
  deps, plain_digests, no_fault, empty_disk, layer_task, layer_hash, one_layer, plan_of,
}
use imgpull.Tests.Requests.{registry_with, repository, fresh_session}

abbrev net : Net
net = registry_with (record { status = 404; location = []; www_authenticate = []; body = [] })

-- aria2 writes the layer's .part from step 2 on, and reports that it is done.
abbrev pub written : ℕ → Disk → Disk
written (suc (suc n)) d = record d {
  files = put d.files (tmp_file (codes "sha256_ll.part")) (some (codes "ll"));
}
written _ d = d

abbrev pub done_status : TaskState → DownloadStatus
done_status state = record {
  gid = codes "1";
  status = state;
  error_code = [];
  error_message = [];
  total_length = codes "3";
  completed_length = codes "3";
  download_speed = codes "0";
  files = [];
}

abbrev pub prompt : Aria2
prompt = record {
  works = written;
  tell_active = λ _. ok [];
  tell_waiting = λ _. ok [];
  tell_status = λ _ _. ok (done_status complete);
  add_uri = λ _ _ _. ok (codes "1");
  text = λ _. [];
}

abbrev pub config_with : Net → Aria2 → ℕ → Config
config_with n a retries = record {
  deps = deps;
  net = n;
  aria2 = a;
  repo = repository;
  auth = false;
  proxy = [];
  max_retries = retries;
}

abbrev start : Sched
start = record { world = one_layer; session = fresh_session }

pub written-fault : (n : ℕ) (d : Disk) → (written n d).fault ≡ d.fault
written-fault zero d = refl
written-fault (suc zero) d = refl
written-fault (suc (suc n)) d = refl

pub written-blobs :
    (n : ℕ) (d : Disk) (a h : Bytes)
    → (written n d).files (blobs_file a h) ≡ d.files (blobs_file a h)
written-blobs zero d a h = refl
written-blobs (suc zero) d a h = refl
written-blobs (suc (suc n)) d a h = ground arith

abbrev size_of : Hash → ℕ
size_of _ = 2

one_layer-Sound : Sound deps size_of (IsIntact plain_digests) no_fault one_layer
unfolding cut
one_layer-Sound = record {
  same_faults = refl;
  tasks = (record { hashed = refl; sized = refl; held = λ e. cc }, tt);
}

ends_live : EndsByCancel net
ends_live n e h = cc

abbrev end_of : Option Outcome → Sched
end_of none = start
end_of (some (s, _)) = s

abbrev is_done : Option Outcome → Bool
is_done (some (s, ok _)) = true
is_done _ = false

abbrev error_of : Option Outcome → GoError
error_of (some (s, err e)) = e
error_of _ = plain []

abbrev is_refused : Option Outcome → Bool
is_refused (some (s, err e)) = true
is_refused _ = false

is_done_inverse : (r : Option Outcome) → is_done r ≡ true → r ≡ some (end_of r, ok tt)
is_done_inverse none h = cc
is_done_inverse (some (s, ok tt)) h = refl
is_done_inverse (some (s, err e)) h = cc

is_refused_inverse :
    (r : Option Outcome) → is_refused r ≡ true → r ≡ some (end_of r, err (error_of r))
is_refused_inverse none h = cc
is_refused_inverse (some (s, ok _)) h = cc
is_refused_inverse (some (s, err e)) h = refl

abbrev prompt_config : Config
prompt_config = config_with net prompt 1

prompt_IsAside : IsAside prompt_config
prompt_IsAside = record { same_faults = written-fault; same_blobs = written-blobs }

abbrev prompt_run : Option Outcome
prompt_run = download_object prompt_config 3 0 layer_task start

prompt_done : is_done prompt_run ≡ true
unfolding download_object attempt part_complete find_existing_task fetch pass submit_and_watch
    find_gid submit_new submit_loop wait_gid verdict on_complete current_value FilePath-discrete
    native.Mathlib.Decide.ℕ_discrete verify_and_commit Verify.blob file_digest new_hash_func
    bytes_eq cut commit_file final_path_for rename_file remove_file precheck set_task update_task
    persist_locked mark_committed_locked
prompt_done = refl

prompt_ended : download_object prompt_config 3 0 layer_task start ≡ some (end_of prompt_run, ok tt)
prompt_ended = is_done_inverse prompt_run prompt_done

download_verified_example :
    (u : Task) × (get_elem? ((end_of prompt_run).world.plan.objects) 0 ≡ some u)
    × (u.status ≡ committed)
    × ((text : Bytes) × ((end_of prompt_run).world.disk.files (final_path deps layer_task)
          ≡ some text)
        × IsIntact plain_digests text layer_hash 2)
download_verified_example =
    download_verified prompt_config prompt_IsAside ends_live size_of 3 0 layer_task start
      one_layer-Sound refl prompt_ended

download_keeps_example :
    Sound deps size_of (IsIntact plain_digests) no_fault (end_of prompt_run).world
download_keeps_example =
    download_keeps prompt_config prompt_IsAside ends_live size_of 3 0 layer_task start
      one_layer-Sound refl prompt_ended

-- A daemon that takes no download.
abbrev refusing_config : Config
refusing_config = config_with net (record prompt { add_uri = λ _ _ _. err (rpc_error 1 []) }) 1

refusing_IsAside : IsAside refusing_config
refusing_IsAside = record { same_faults = written-fault; same_blobs = written-blobs }

abbrev refusing_run : Option Outcome
refusing_run = download_object refusing_config 3 0 layer_task start

refusing_refused : is_refused refusing_run ≡ true
unfolding download_object attempt part_complete find_existing_task fetch pass submit_and_watch
    find_gid submit_new submit_loop is_canceled rejects_options imgpull.Base.contains verdict
    is_deadline is_non_retryable retry_loop
refusing_refused = refl

refusing_live : is_canceled (error_of refusing_run) || is_deadline (error_of refusing_run) ≡ false
unfolding download_object attempt part_complete find_existing_task fetch pass submit_and_watch
    find_gid submit_new submit_loop is_canceled rejects_options imgpull.Base.contains verdict
    is_deadline is_non_retryable retry_loop
refusing_live = refl

download_failed_example :
    (u : Task) × (get_elem? ((end_of refusing_run).world.plan.objects) 0 ≡ some u)
    × (u.status ≡ failed)
download_failed_example =
    download_failed refusing_config refusing_IsAside ends_live size_of 3 0 layer_task start
      one_layer-Sound refl (is_refused_inverse refusing_run refusing_refused) refusing_live

submit_loop_ends_example :
    is_some (
      submit_loop refusing_config 4 0
        (codes "http://r/ll")
        (first_options refusing_config layer_task [])
        start)
    ≡ true
submit_loop_ends_example =
    submit_loop_ends refusing_config (codes "http://r/ll")
      (first_options refusing_config layer_task []) start

-- A daemon that does nothing, and a task with an alternate URL.
abbrev idle_config : Config
idle_config = config_with net (record prompt { works = λ _ d. d }) 3

abbrev mirrored : Sched
mirrored = record start {
  world = record one_layer {
    plan = plan_of (record layer_task { alt_urls = codes "http://m/ll" ∷ [] } ∷ []);
  };
}

mirror_popped :
    (pop_alt_url (time idle_config mirrored) deps 0 (mirrored.world)).1 ≡ some (codes "http://m/ll")
unfolding pop_alt_url
mirror_popped = refl

part_missing : part_complete layer_task empty_disk ≡ false
unfolding part_complete
part_missing = refl

on_missing_polls_example :
    ((add : ℕ → Bytes → Options → Result GoError Bytes) (s : Sched)
      → on_missing (answering idle_config add) 100 0 layer_task (wrapped blob_not_found) s
        ≡ on_missing idle_config 100 0 layer_task (wrapped blob_not_found) s)
    × (on_missing idle_config 100 0 layer_task (wrapped blob_not_found) mirrored ≡ none)
on_missing_polls_example =
    on_missing_polls idle_config layer_task (λ n. refl) (λ n d part. part) 100 0
      (wrapped blob_not_found) mirrored (codes "http://m/ll") mirror_popped part_missing

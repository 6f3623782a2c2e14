-- ===== src/Tests/Pulls.antt =====
-- A whole run of the program at a concrete input.
use imgpull.Base.{
  is_some, ltb, has_suffix, ℕ, sym, ◌∙◌, ◌*◌, ◌≡◌, refl, ap, Bool, true, false, Option, none, some,
  List, [], ◌∷◌, ◌++◌, Bytes, if◌then◌else◌, codes, bytes_eq, cut, trim_space, trim_left, split,
  second, pos, ok, err, ok-injective, arith, ◌==◌, decimal, digits_before, has_prefix, contains,
}
use mathlib.Core.Path.{subst}
use imgpull.Retry.{plain, chain_has, is_canceled, is_deadline, is_non_retryable}
use imgpull.Files.{Disk}
use imgpull.Verify.{Hash}
use imgpull.Platform.{Platform}
use imgpull.Reference.{Ref}
use imgpull.Manifest.{ImageManifest}
use imgpull.Manifest.Fetch.{Remote, RemoteDescriptor}
use imgpull.Manifest.Retrying.{resolve_manifest_opts}
use imgpull.Plan.Sound.{AllSized}
use imgpull.Rpc.Service.{client}
use imgpull.Rpc.{request_id, authorize, read_limited, interpret, open_envelope}
use imgpull.Rpc.Call.{get_version, call, exchange, request_of}
use imgpull.Rpc.Endpoint.{normalize_endpoint}
use imgpull.Rpc.Daemon.{new_rpc}
use imgpull.Pull.{
  Outside, Exit, pull, parse_proxy, pull_manifest, fetch_blobs, connect_aria2, new_config,
  finish_pull, assemble, export_image,
}
use imgpull.Pull.Fetching.{Lawful}
use imgpull.Command.{Flags, FlagParser, defaults, config_of, run_command}
use imgpull.Command.Guarantees.{Served, run_command_verified}
use imgpull.Command.Ending.{Ends, run_command_ends}
use imgpull.Args.{
  expand_short_flags, expand_one, expand_cluster, split_positional, short_flag, is_flag, value_flag,
  trim_dashes,
}
use imgpull.Reference.{parse}
use imgpull.Platform.{parse_platform}
use imgpull.Manifest.Fetch.{
  resolve_manifest_once, walk, no_index, manifest_from_descriptor, from_raw, from_document,
  checked_layers, is_index_media_type, is_manifest_media_type,
}
use imgpull.Manifest.Retrying.{fetch_loop}
use imgpull.Layout.{ensure_layout, write_index, image_index}
use imgpull.Rpc.Call.{add_uri, tell_status, tell_active, tell_waiting}
use imgpull.Rpc.Endpoint.{with_scheme, trim_slashes, drop_slashes}
use imgpull.Registry.Auth.{header, refresh}
use imgpull.Plan.Build.{
  build, lock_image_dir, store_manifest_blob, new_tasks, new_task, reconcile_loop, reconcile_round,
  adopt, recall, adopted, build_locked, build_tasks, layer_tasks, load_state, previous, release,
}
use imgpull.Verify
use imgpull.Plan.Reconcile.{
  blob_exists, reconcile_task, commit_file, discard, reconcile_blob, resume_part,
}
use imgpull.Files.{
  FilePath-discrete, write_file_atomic, remove_file, rename_file, run_steps, write_step,
}
use imgpull.Plan.{
  final_path_for, save_now, save_final, persist_locked, save_state, update_task, state_file,
}
use imgpull.Plan.Tasks.{mark_committed_locked, set_task, mark_retry, pending_objects}
use imgpull.Verify.{file_digest, new_hash_func}
use imgpull.Scheduler.Download.{download_object, verdict, retry_loop, before_retry}
use imgpull.Scheduler.Attempt.{attempt, fetch, submit_and_watch, submit_new, on_resolved}
use imgpull.Scheduler.Parts.{part_complete, verify_and_commit, precheck, discard_unresumable_part}
use imgpull.Scheduler.Submit.{find_existing_task, find_gid, submit_loop, first_options}
use imgpull.Scheduler.{pass}
use imgpull.Scheduler.Wait.{wait_gid, on_complete, current_value}
use imgpull.Scheduler.Run.{run, run_each, pending_places, finish_run, reported}
use imgpull.Registry.Client.{
  after_failure, resolve_blob_url, resolve_once, resolve_with, tries, hops, head_answer,
  redirect_hop, blob_url,
}
use imgpull.Tests.{deps, alpine, blob_of}
use imgpull.Tests.Daemons.{plain_wire, machine, machine-Ticks}
use imgpull.Tests.Plans.{part_disk, clock, size_of}
use imgpull.Tests.Requests.{redirecting, fresh_session, repository}
use imgpull.Tests.Downloads.{written, written-fault, written-blobs}

abbrev single : RemoteDescriptor
single = record {
  media_type = codes "application/vnd.oci.image.manifest.v1+json";
  digest = record { algorithm = codes "sha256"; hex = codes "m" };
  size = 1;
  raw_manifest = ok (codes "m");
}

abbrev registry : Remote
registry = record {
  get_reference = λ _. ok single;
  get_digest = λ _ _ _. err (plain []);
  sha256 = λ text. text;
  hash_string = λ h. h.algorithm ++ b':' ∷ h.hex;
  decode_index = λ _. none;
  decode_manifest = λ _.
      some (record {
        config = blob_of (codes "sha256:cc");
        layers = blob_of (codes "sha256:ll") ∷ [];
      });
  probe = λ _. none;
}

abbrev outside : Outside
outside = record {
  names = record {
    parse_reference = λ _ _. some alpine.reference;
    default_registry = codes "index.docker.io";
  };
  parse_url = λ _. none;
  remote = λ _ _. registry;
  patience = record { after_try = λ _. none; after_pause = λ _. none };
  deps = deps;
  net = λ _. redirecting;
  repo = λ _. repository;
  clock = clock;
  host = machine;
  wire = plain_wire;
  tmp_dir = codes "tmp";
  counter = λ n. n;
  works = written;
  error_text = λ _. [];
  session = fresh_session;
  order = λ places. places;
  indents = record { layout_version = λ v. v; index_text = λ _. some (codes "index") };
  saved_at = 9 * second;
  has_tag = λ _. true;
  docker_archive = λ _ d. (d, true);
}

abbrev given : List Bytes
given = codes "-V" ∷ codes "r/a:1" ∷ []

-- A parser that knows one flag, with the other flags at fixed values.
abbrev flags : Flags
flags = record defaults {
  aria2_rpc = codes "h";
  aria2_secret = codes "s";
  max_retries = pos 2;
  verify = true;
}

abbrev parser : FlagParser
parser start [] = none
parser start (a ∷ args) = if bytes_eq a (codes "--verify") then some flags else none

outside-Lawful : Lawful outside
outside-Lawful = record {
  ends = λ ref n e h. cc;
  same_faults = written-fault;
  same_blobs = written-blobs;
  covers = λ j ps m. m;
  archives = λ p d q other. refl;
}

abbrev ended : Option Exit
ended = run_command parser outside 4 given part_disk

abbrev disk_of : Option Exit → Disk
disk_of none = part_disk
disk_of (some (code, d)) = d

abbrev has_code : ℕ → Option Exit → Bool
has_code n none = false
has_code n (some (code, d)) = code == n

has_code_inverse : (r : Option Exit) → has_code 0 r ≡ true → r ≡ some (0, disk_of r)
has_code_inverse none h = cc
has_code_inverse (some (code, d)) h = ground arith

ended_fine : has_code 0 ended ≡ true
unfolding run_command expand_short_flags expand_one expand_cluster short_flag is_flag value_flag
    trim_dashes split_positional pull parse_proxy parse parse_platform trim_space trim_left split
    resolve_manifest_opts fetch_loop resolve_manifest_once walk is_index_media_type bytes_eq
    no_index is_manifest_media_type from_document checked_layers from_raw manifest_from_descriptor
    pull_manifest fetch_blobs pending_objects connect_aria2 new_rpc normalize_endpoint get_version
    call exchange request_of request_id authorize read_limited interpret open_envelope new_config
    client add_uri tell_status tell_active tell_waiting finish_pull save_final assemble release
    ensure_layout write_index image_index export_image build lock_image_dir cut store_manifest_blob
    blob_exists FilePath-discrete final_path_for write_file_atomic native.Mathlib.Decide.ℕ_discrete
    new_tasks new_task save_now persist_locked reconcile_loop reconcile_round reconcile_task adopt
    recall remove_file rename_file run_steps write_step adopted build_locked build_tasks layer_tasks
    load_state previous commit_file discard reconcile_blob resume_part mark_committed_locked
    save_state update_task Verify.blob file_digest new_hash_func download_object attempt
    part_complete find_existing_task fetch pass submit_and_watch find_gid submit_new submit_loop
    wait_gid verdict on_complete current_value verify_and_commit precheck set_task run_each
    on_resolved resolve_blob_url resolve_once resolve_with tries hops head_answer redirect_hop
    blob_url first_options discard_unresumable_part state_file run pending_places finish_run
    reported with_scheme contains has_prefix has_suffix trim_slashes drop_slashes decimal
    digits_before header refresh after_failure chain_has is_canceled is_deadline is_non_retryable
    retry_loop before_retry mark_retry
ended_fine = refl

abbrev manifest_for : Platform → ImageManifest
manifest_for plat = record {
  digest = codes "sha256:m";
  size = 1;
  media_type = single.media_type;
  raw = codes "m";
  config = blob_of (codes "sha256:cc");
  layers = blob_of (codes "sha256:ll") ∷ [];
  platform = plat;
}

resolves :
    (image : Bytes) (ref : Ref) (plat : Platform)
    → resolve_manifest_opts (outside.remote ref (config_of image flags)) plat outside.patience 0
      ≡ ok (manifest_for plat)
unfolding resolve_manifest_opts fetch_loop resolve_manifest_once walk is_index_media_type bytes_eq
    no_index is_manifest_media_type from_document checked_layers from_raw manifest_from_descriptor
resolves image ref plat = refl

abbrev hash_size : Option Hash → ℕ
hash_size none = 0
hash_size (some h) = size_of h

manifest_for-AllSized : (plat : Platform) → AllSized deps size_of (manifest_for plat)
unfolding cut
manifest_for-AllSized plat = (λ h e. ap (λ o. hash_size o) e, (λ h e. ap (λ o. hash_size o) e, tt))

resolved-AllSized :
    (image : Bytes) (ref : Ref) (plat : Platform) (m : ImageManifest)
    → resolve_manifest_opts (outside.remote ref (config_of image flags)) plat outside.patience 0
      ≡ ok m
    → AllSized deps size_of m
resolved-AllSized image ref plat m made =
    let same : manifest_for plat ≡ m =
      ok-injective (manifest_for plat) m (sym (resolves image ref plat) ∙ made) in
    subst (AllSized deps size_of) same (manifest_for-AllSized plat)

run_command_verified_example : Served flags given outside 4 part_disk (disk_of ended)
unfolding split_positional expand_short_flags bytes_eq expand_one expand_cluster short_flag is_flag
    value_flag trim_dashes
run_command_verified_example =
    run_command_verified parser outside 4 size_of part_disk given flags outside-Lawful
      (λ p. (refl, refl)) refl refl resolved-AllSized (has_code_inverse ended ended_fine)

-- The context is over from the fifth step on.
abbrev interrupted : Outside
interrupted = record outside {
  net = λ _. record redirecting { ctx_err = λ n. if ltb n 5 then none else some (plain []) };
}

interrupted-Ends : Ends interrupted 5
interrupted-Ends = record { over = λ ref n late. ground arith; ticks = machine-Ticks }

run_command_ends_example : is_some (run_command parser interrupted 6 given part_disk) ≡ true
run_command_ends_example =
    run_command_ends parser interrupted 5 6 given part_disk interrupted-Ends (omega arith)

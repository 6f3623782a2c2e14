-- ===== src/Tests/Runs.antt =====
-- A whole run: a plan built from what an earlier run left, and a download of what is missing.
use imgpull.Base.{
  ◌≡◌, ◌⊎◌, refl, is_ok, Result, ok, err, ◌&&◌, true, Option, none, some, is_some, get_elem?, [],
  arith,
}
use imgpull.Retry.{canceled}
use imgpull.Verify
use imgpull.Verify.Laws.{IsIntact}
use imgpull.Plan.{Task}
use imgpull.Scheduler.{Config, Sched}
use imgpull.Scheduler.Polling.{IsAside}
use imgpull.Scheduler.Settling.{EndsByCancel}
use imgpull.Tests.{deps, plain_digests, alpine, two_blobs, linux}
use imgpull.Tests.Plans.{
  part_disk, clock, resumed, size_of, two_blobs-AllSized, resumed_built, has_committed,
}
use imgpull.Tests.Requests.{redirecting, fresh_session}
use imgpull.Tests.Downloads.{prompt, config_with, written-fault, written-blobs}
use imgpull.Plan.Build.{
  build, lock_image_dir, store_manifest_blob, new_tasks, new_task, reconcile_loop, reconcile_round,
  adopt, recall, adopted, build_locked, build_tasks, layer_tasks, load_state, previous,
}
use imgpull.Base.{cut, bytes_eq}
use imgpull.Plan.Reconcile.{
  blob_exists, reconcile_task, commit_file, discard, reconcile_blob, resume_part,
}
use imgpull.Files.{
  FilePath-discrete, write_file_atomic, remove_file, rename_file, run_steps, write_step,
}
use imgpull.Plan.{final_path_for, save_now, persist_locked, save_state, update_task, state_file}
use imgpull.Plan.Tasks.{mark_committed_locked, set_task}
use imgpull.Verify.{file_digest, new_hash_func}
use imgpull.Scheduler.Download.{download_object, verdict}
use imgpull.Scheduler.Attempt.{attempt, fetch, submit_and_watch, submit_new, on_resolved}
use imgpull.Scheduler.Parts.{part_complete, verify_and_commit, precheck, discard_unresumable_part}
use imgpull.Scheduler.Submit.{find_existing_task, find_gid, submit_loop, first_options}
use imgpull.Scheduler.{pass}
use imgpull.Scheduler.Wait.{wait_gid, on_complete, current_value}
use imgpull.Scheduler.Run.{
  RunEnd, run, run_each, pending_places, finish_run, reported, RunError, over,
}
use imgpull.Scheduler.Running.{AllDone, WasCanceled, run_verified}
use imgpull.Plan.Sound.{Sound}
use imgpull.Plan.Guarantees.{build_verified-Sound}
use imgpull.Registry.Client.{
  resolve_blob_url, resolve_once, resolve_with, tries, hops, head_answer, redirect_hop, blob_url,
}

abbrev pulling : Config
pulling = config_with redirecting prompt 2

pulling-IsAside : IsAside pulling
pulling-IsAside = record { same_faults = written-fault; same_blobs = written-blobs }

pulling_live : EndsByCancel redirecting
pulling_live n e h = cc

abbrev begun : Sched
begun = record { world = resumed true; session = fresh_session }

abbrev pulled : Option RunEnd
pulled = run pulling 3 (λ places. places) begun

abbrev end_of : Option RunEnd → RunEnd
end_of none = record { sched = begun; sent = []; result = err (over canceled) }
end_of (some end) = end

is_ok_inverse : (r : Result RunError (Unit {0})) → is_ok r ≡ true → r ≡ ok tt
is_ok_inverse (ok _) h = refl
is_ok_inverse (err e) h = cc

end_of_lem : (r : Option RunEnd) → is_some r ≡ true → r ≡ some (end_of r)
end_of_lem none h = cc
end_of_lem (some s) h = refl

abbrev second_task : RunEnd → Option Task
second_task r = get_elem? (r.sched.world.plan.objects) 1

pulled_runs :
    is_some pulled && (is_ok (end_of pulled).result && has_committed (second_task (end_of pulled)))
    ≡ true
unfolding build lock_image_dir cut store_manifest_blob blob_exists FilePath-discrete final_path_for
    write_file_atomic native.Mathlib.Decide.ℕ_discrete new_tasks new_task save_now persist_locked
    reconcile_loop reconcile_round reconcile_task adopt recall bytes_eq remove_file rename_file
    run_steps write_step adopted build_locked build_tasks layer_tasks load_state previous
    commit_file discard reconcile_blob resume_part mark_committed_locked save_state update_task
    Verify.blob file_digest new_hash_func download_object attempt part_complete find_existing_task
    fetch pass submit_and_watch find_gid submit_new submit_loop wait_gid verdict on_complete
    current_value verify_and_commit precheck set_task run_each on_resolved resolve_blob_url
    resolve_once resolve_with tries hops head_answer redirect_hop blob_url first_options
    discard_unresumable_part state_file run pending_places finish_run reported
pulled_runs = refl

pulled_ended : run pulling 3 (λ places. places) begun ≡ some (end_of pulled)
pulled_ended = end_of_lem pulled (let h = pulled_runs in ground arith)

pulled_fine : (end_of pulled).result ≡ ok tt
pulled_fine = is_ok_inverse (end_of pulled).result (let h = pulled_runs in ground arith)

begun_Sound : Sound deps size_of (IsIntact plain_digests) (begun.world.disk.fault) (begun.world)
begun_Sound =
    let s =
      build_verified-Sound deps alpine two_blobs linux clock part_disk size_of (λ p. (refl, refl))
        two_blobs-AllSized (resumed_built true) in
    record { same_faults = refl; tasks = s.tasks }

run_verified_example : AllDone pulling (end_of pulled).sched ⊎ WasCanceled (end_of pulled).sent
run_verified_example =
    run_verified pulling pulling-IsAside pulling_live size_of 3 (λ places. places) (λ j ps m. m)
      begun begun_Sound pulled_ended pulled_fine

-- ===== src/Scheduler/Stalling.antt =====
-- The path of `attempt` for a blob that the registry does not have, when an alternate URL is left.
use imgpull.Base.{
  Bool-cases, Result, List-cases, ℕ, zero, suc, ◌≡◌, refl, ◌∙◌, false, none, some, [], Bytes,
  get_elem?, modify, Option-cases, inl, inr,
}
use imgpull.Files.{Disk}
use imgpull.Retry.{GoError}
use imgpull.Plan.{Task, World, downloading, part_path, update_task}
use imgpull.Plan.Saving.{persist_locked-files}
use imgpull.Plan.Tasks.{pop_alt_url, set_task, set_fields}
use imgpull.Scheduler.{Options, Config, Sched, pass, time}
use imgpull.Scheduler.Parts.{part_complete, verify_and_commit}
use imgpull.Scheduler.Wait.{wait_file}
use imgpull.Scheduler.Attempt.{on_missing}

-- The same aria2 with other answers to `addUri`.
abbrev pub answering : Config → (ℕ → Bytes → Options → Result GoError Bytes) → Config
answering c add = record c { aria2 = record (c.aria2) { add_uri = add } }

wait_file_same :
    (c : Config) (add : ℕ → Bytes → Options → Result GoError Bytes) (fuel i : ℕ) (t : Task)
    (s : Sched)
    → wait_file (answering c add) fuel i t s ≡ wait_file c fuel i t s
unfolding wait_file pass verify_and_commit
wait_file_same c add zero i t s = refl
wait_file_same c add (suc fuel) i t s = elim (Option-cases (c.net.ctx_err (s.session.tick))) [
  | inr (e, over) ↦ rw (wait_file, over) refl
  | inl live ↦ elim (Bool-cases (part_complete t (s.world.disk))) [
    | inl whole ↦ rw (wait_file, live, whole) refl
    | inr part ↦ rw (wait_file, live, part) (wait_file_same c add fuel i t (pass c s))
  ]
]

on_missing_same :
    (c : Config) (add : ℕ → Bytes → Options → Result GoError Bytes) (fuel i : ℕ) (t : Task)
    (e : GoError) (s : Sched)
    → on_missing (answering c add) fuel i t e s ≡ on_missing c fuel i t e s
unfolding on_missing
on_missing_same c add fuel i t e s =
    elim (Option-cases ((pop_alt_url (time c s) c.deps i (s.world)).1)) [
      | inl nothing ↦ rw (on_missing, nothing) refl
      | inr (u, popped) ↦ rw (on_missing, popped) (wait_file_same c add fuel i t _)
    ]

module _ (c : Config) (t : Task) (live : (n : ℕ) → c.net.ctx_err n ≡ none)
    (idle : (n : ℕ) (d : Disk)
      → part_complete t d ≡ false
      → part_complete t (c.aria2.works n d) ≡ false) where
  part_complete_same :
      (d e : Disk)
      → e.files (part_path t) ≡ d.files (part_path t)
      → part_complete t d ≡ false
      → part_complete t e ≡ false
  unfolding part_complete
  part_complete_same d e same part =
      let eq : part_complete t e ≡ part_complete t d = rw (part_complete, same) refl in eq ∙ part

  part_complete-update_task :
      (now i : ℕ) (g : Task → Task) (w : World)
      → part_complete t (w.disk) ≡ false
      → part_complete t ((update_task c.deps now i g w).disk) ≡ false
  unfolding update_task
  part_complete-update_task now i g w = part_complete_same (w.disk) _ (
      persist_locked-files c.deps now
        (record w { plan = record (w.plan) { objects = modify (w.plan.objects) i g } })
        (part_path t) (λ e. cc) (λ e. cc))

  part_complete-pop_alt_url :
      (now i : ℕ) (w : World)
      → part_complete t (w.disk) ≡ false
      → part_complete t ((pop_alt_url now c.deps i w).0.disk) ≡ false
  unfolding pop_alt_url
  part_complete-pop_alt_url now i w part = elim (Option-cases (get_elem? (w.plan.objects) i)) [
    | inl e ↦ rw (pop_alt_url, e) part
    | inr (u, e) ↦ elim (List-cases u.alt_urls) [
      | inl f ↦ rw (pop_alt_url, e, f) part
      | inr (v, vs, f) ↦ rw (pop_alt_url, e, f) (part_complete-update_task now i _ w part)
    ]
  ]

  wait_file_polls :
      (fuel i : ℕ) (s : Sched)
      → part_complete t (s.world.disk) ≡ false
      → wait_file c fuel i t s ≡ none
  unfolding wait_file pass
  wait_file_polls zero i s part = refl
  wait_file_polls (suc fuel) i s part =
      rw (wait_file, live (s.session.tick), part)
        (wait_file_polls fuel i (pass c s) (idle (s.session.tick) (s.world.disk) part))

  -- For a blob that the registry does not have, aria2's answers to `addUri` make no difference, so the
  -- outcome depends on no submission; and with an alternate URL left, while the context is live and the
  -- .part is not completed by other means, the poll goes on for whatever number of rounds it is given.
  pub on_missing_polls :
      (fuel i : ℕ) (e : GoError) (s : Sched) (u : Bytes)
      → (pop_alt_url (time c s) c.deps i (s.world)).1 ≡ some u
      → part_complete t (s.world.disk) ≡ false
      → ((add : ℕ → Bytes → Options → Result GoError Bytes) (s' : Sched)
          → on_missing (answering c add) fuel i t e s' ≡ on_missing c fuel i t e s')
        × (on_missing c fuel i t e s ≡ none)
  unfolding on_missing set_task
  on_missing_polls fuel i e s u popped part = (
    λ add s'. on_missing_same c add fuel i t e s',
    rw (on_missing, popped)
        (wait_file_polls fuel i _ (
          part_complete-update_task _ _ (set_fields (time c s) downloading u none []) _
            (part_complete-pop_alt_url (time c s) i (s.world) part))),
  )

-- ===== src/Plan/Placing.antt =====
-- internal/plan: the digests of a plan's tasks are those of the manifest, whatever Build does to them.
use imgpull.Base.{
  ℕ, zero, suc, ltb, ◌==◌, ◌≡◌, ◌∙◌, refl, ap, Bool, true, false, ◌&&◌, Option, none, some, is_some,
  List, [], ◌∷◌, modify, get_elem?, length, Bool-cases, Option-cases, Result-cases, inl, inr, ok,
  is_ok, >>=-eq-ok, ok-injective, arith,
}
use mathlib.Core.Path.{subst}
use imgpull.Files.{Disk, FilePath, mkdir_all, rename_file}
use imgpull.Verify
use imgpull.Verify.{Hash}
use imgpull.Platform.{Platform}
use imgpull.Reference.{Ref}
use imgpull.Manifest.{BlobDescriptor, ImageManifest}
use imgpull.Plan.{
  Kind, config, layer, Task, World, Deps, StateObject, Status, pending, committed, is_committed,
  final_path, part_path, update_task, save_now,
}
use imgpull.Plan.Places.{digest_at, promised_at, SameDigests, digest_at-modify}
use imgpull.Plan.Saving.{persist_locked-objects}
use imgpull.Plan.Tasks.{mark_committed_locked, committed_fields}
use imgpull.Plan.Reconcile.{
  warning_of, set_status, commit_file, resume_part, reconcile_blob, reconcile_task, blob_exists,
  CommitError,
}
use imgpull.Plan.Build.{
  built, adopt, carry_over, reconcile_round, reconcile_loop, new_task, layer_tasks, new_tasks,
  new_plan, finish, build_tasks,
}

module _ (deps : Deps) where
  update_task-SameDigests :
      (now i : ℕ) (g : Task → Task) (w : World)
      → ((t : Task) → (g t).digest ≡ t.digest)
      → SameDigests w (update_task deps now i g w)
  unfolding update_task
  update_task-SameDigests now i g w keeps j =
      ap (λ ts. digest_at ts j)
        (persist_locked-objects deps now
          (record w { plan = record (w.plan) { objects = modify (w.plan.objects) i g } }))
      ∙ digest_at-modify (w.plan.objects) i g keeps j

  module _ (now i : ℕ) where
    commit_file-SameDigests :
        (t : Task) (part : FilePath) (w : World) → SameDigests w (commit_file deps now i t part w).0
    unfolding commit_file mark_committed_locked
    commit_file-SameDigests t part w j =
        elim (Bool-cases (w.disk.fault (mkdir_all (final_path deps t)))) [
          | inl stuck ↦ rw (commit_file, stuck) refl
          | inr free ↦ elim (Bool-cases ((rename_file part (final_path deps t) (w.disk)).1)) [
            | inr stayed ↦ rw (commit_file, free, stayed) refl
            | inl moved ↦
                rw (commit_file, free, moved)
                  (update_task-SameDigests now i (committed_fields now) _ (λ u. refl) j)
          ]
        ]

    set_status-SameDigests : (x : Status) (w : World) → SameDigests w (set_status i x w)
    set_status-SameDigests x w j =
        digest_at-modify (w.plan.objects) i (λ t. record t { status = x }) (λ t. refl) j

    warning_of-SameDigests :
        (w : World) (r : World × Option CommitError)
        → SameDigests w r.0
        → SameDigests w (warning_of deps now i r).0
    warning_of-SameDigests w (v, none) same = same
    warning_of-SameDigests w (v, some e) same = same

    resume_part-SameDigests : (t : Task) (w : World) → SameDigests w (resume_part deps now i t w).0
    unfolding resume_part
    resume_part-SameDigests t w j = elim (Option-cases (w.disk.files (part_path t))) [
      | inl gone ↦ rw (resume_part, gone) refl
      | inr (text, there) ↦ elim (Bool-cases (length text == t.size)) [
        | inl whole ↦
            elim (Bool-cases
              (is_ok (Verify.blob deps.digests (w.disk) (part_path t) t.hash t.size))) [
                | inl good ↦
                    rw (resume_part, there, whole, good)
                      (warning_of-SameDigests w (commit_file deps now i t (part_path t) w)
                        (commit_file-SameDigests t (part_path t) w) j)
                | inr bad ↦ rw (resume_part, there, whole, bad) refl
              ]
        | inr unlike ↦ elim (Bool-cases (ltb t.size (length text))) [
          | inl long ↦ rw (resume_part, there, unlike, long) refl
          | inr short ↦ rw (resume_part, there, unlike, short) (set_status-SameDigests pending w j)
        ]
      ]
    ]

    reconcile_blob-SameDigests :
        (verify : Bool) (t : Task) (w : World)
        → SameDigests w (reconcile_blob deps now i verify t w).0
    unfolding reconcile_blob
    reconcile_blob-SameDigests verify t w j =
        elim (Bool-cases (blob_exists deps (w.disk) (final_path deps t) t.digest t.size)) [
          | inl found ↦ rw (reconcile_blob, found) (set_status-SameDigests committed w j)
          | inr lost ↦ elim (Bool-cases (verify && is_some (w.disk.files (final_path deps t)))) [
            | inl wrong ↦ rw (reconcile_blob, lost, wrong) (resume_part-SameDigests t _ j)
            | inr gone ↦ rw (reconcile_blob, lost, gone) (resume_part-SameDigests t w j)
          ]
        ]

    reconcile_task-SameDigests :
        (verify : Bool) (t : Task) (w : World)
        → SameDigests w (reconcile_task deps now i verify t w).0
    unfolding reconcile_task
    reconcile_task-SameDigests verify t w j =
        elim (Bool-cases (is_committed t.status && is_some (w.disk.files (final_path deps t)))) [
          | inl trusted ↦ rw (reconcile_task, trusted) refl
          | inr unsure ↦ elim (Bool-cases (is_committed t.status)) [
            | inl was ↦
                rw (reconcile_task, unsure, was)
                  (reconcile_blob-SameDigests verify (record t { status = pending }) _ j
                    ∙ set_status-SameDigests pending w j)
            | inr never ↦
                rw (reconcile_task, unsure, never) (reconcile_blob-SameDigests verify t w j)
          ]
        ]

  module _ (verify : Bool) (objects : List StateObject) where
    adopt-digest : (t : Task) → (adopt deps verify objects t).digest ≡ t.digest
    unfolding adopt carry_over
    adopt-digest t = ground arith

    reconcile_round-SameDigests :
        (now i : ℕ) (w : World) → SameDigests w (reconcile_round deps verify objects now i w)
    unfolding reconcile_round
    reconcile_round-SameDigests now i w j =
        let adopted = modify (w.plan.objects) i (adopt deps verify objects) in
        let same = digest_at-modify (w.plan.objects) i (adopt deps verify objects) adopt-digest j in
        elim (Option-cases (get_elem? adopted i)) [
          | inl gone ↦ rw (reconcile_round, gone) same
          | inr (t, at) ↦
              rw (reconcile_round, at) (reconcile_task-SameDigests now i verify t _ j ∙ same)
        ]

    reconcile_loop-SameDigests :
        (clock : ℕ → ℕ) (k i : ℕ) (w : World)
        → SameDigests w (reconcile_loop deps verify objects clock k i w)
    unfolding reconcile_loop
    reconcile_loop-SameDigests clock zero i w j = refl
    reconcile_loop-SameDigests clock (suc k) i w j =
        reconcile_loop-SameDigests clock k (suc i) _ j ∙ reconcile_round-SameDigests (clock i) i w j

  new_task-digest :
      (kind : Kind) (b : BlobDescriptor) {t : Task}
      → new_task deps kind b ≡ ok t
      → t.digest ≡ b.digest
  unfolding new_task
  new_task-digest kind b {t} made = elim (Option-cases (deps.new_hash b.digest)) [
    | inl bad ↦ ground arith
    | inr (h, known) ↦ ground arith
  ]

  cons_lem :
      (b : BlobDescriptor) (bs : List BlobDescriptor) (t : Task) (ts : List Task)
      → t.digest ≡ b.digest
      → ((j : ℕ) → digest_at ts j ≡ promised_at bs j)
      → (j : ℕ) → digest_at (t ∷ ts) j ≡ promised_at (b ∷ bs) j
  cons_lem b bs t ts same rest zero = ap some same
  cons_lem b bs t ts same rest (suc j) = rest j

  layer_tasks_lem :
      (ls : List BlobDescriptor) {ts : List Task}
      → layer_tasks deps ls ≡ ok ts
      → (j : ℕ) → digest_at ts j ≡ promised_at ls j
  unfolding layer_tasks
  layer_tasks_lem [] {ts} made =
      subst (λ x. (j : ℕ) → digest_at x j ≡ none) (ok-injective [] ts made) (λ j. refl)
  layer_tasks_lem (l ∷ ls) {ts} made =
      let (t, one, more) = >>=-eq-ok (new_task deps layer l) _ made in
      let (rest, others, all) = >>=-eq-ok (layer_tasks deps ls) _ more in
      subst (λ x. (j : ℕ) → digest_at x j ≡ promised_at (l ∷ ls) j) (ok-injective (t ∷ rest) ts all)
        (cons_lem l ls t rest (new_task-digest layer l one) (layer_tasks_lem ls others))

  new_tasks_lem :
      (m : ImageManifest) {ts : List Task}
      → new_tasks deps m ≡ ok ts
      → (j : ℕ) → digest_at ts j ≡ promised_at (m.config ∷ m.layers) j
  unfolding new_tasks
  new_tasks_lem m {ts} made =
      let (t, one, more) = >>=-eq-ok (new_task deps config m.config) _ made in
      let (rest, others, all) = >>=-eq-ok (layer_tasks deps m.layers) _ more in
      subst (λ x. (j : ℕ) → digest_at x j ≡ promised_at (m.config ∷ m.layers) j)
        (ok-injective (t ∷ rest) ts all)
        (cons_lem m.config m.layers t rest (new_task-digest config m.config one)
          (layer_tasks_lem m.layers others))

  finish_built :
      (ref : Ref) (m : ImageManifest) (plat : Platform) (verify : Bool) (clock : ℕ → ℕ) (n : ℕ)
      (x : World × Bool) {w : World}
      → finish deps ref m plat verify clock n x ≡ built w
      → x.0 ≡ w
  finish_built ref m plat verify clock n (v, true) h = cc
  finish_built ref m plat verify clock n (v, false) h = cc

  -- The tasks of a built plan are those of the manifest, the config first.
  pub build_tasks_lem :
      (ref : Ref) (m : ImageManifest) (plat : Platform) (verify : Bool) (clock : ℕ → ℕ) (h : Hash)
      (objects : List StateObject) (d : Disk) {w : World}
      → build_tasks deps ref m plat verify clock h objects d ≡ built w
      → (j : ℕ) → digest_at (w.plan.objects) j ≡ promised_at (m.config ∷ m.layers) j
  unfolding build_tasks save_now
  build_tasks_lem ref m plat verify clock h objects d {w} made j =
      elim (Result-cases (new_tasks deps m)) [
        | inr (bad, e) ↦ ground arith
        | inl (ts, e) ↦
            let start : World = record { plan = new_plan deps ref m plat h ts; disk = d } in
            let n = length ts in
            let looped = reconcile_loop deps verify objects clock n 0 start in
            let done = finish_built ref m plat verify clock n _ (rw (e, build_tasks) at made) in
            subst (λ x. digest_at (x.plan.objects) j ≡ promised_at (m.config ∷ m.layers) j) done
              (ap (λ ts. digest_at ts j) (persist_locked-objects deps (clock n) looped)
                ∙ reconcile_loop-SameDigests verify objects clock n 0 start j
                ∙ new_tasks_lem m e j)
      ]

-- ===== src/Plan/Reconciling.antt =====
-- Reconciling one task with the disk keeps the invariant of the plan.
use imgpull.Base.{
  ℕ, ◌≡◌, ◌⊎◌, sym, ap, ◌∙◌, Bool, true, false, ◌&&◌, some, Bytes, modify, get_elem?, All-get_elem?,
  get_elem?-modify_self, All-modify_back, Bool-cases, Option-cases, inl, inr, ok, is_some, arith,
}
use mathlib.Core.Path.{subst}
use mathlib.Core.Option.{some-injective}
use imgpull.Files.{FilePath, FilePath-discrete, Disk, Syscall, control, remove_file}
use imgpull.Verify.{Hash}
use imgpull.Verify
use imgpull.Verify.Laws.{IsIntact, blob_sound}
use imgpull.Plan.{Task, World, Deps, committed, pending, is_committed, final_path, part_path}
use imgpull.Plan.Reconcile.{
  commit_file, discard, blob_exists, resume_part, reconcile_blob, reconcile_task, on_disk,
  set_status,
}
use imgpull.Plan.Sound.{Held, Sound, final_path_lem, Sound-disk, Sound-task}
use imgpull.Plan.Committing.{
  same_promise, remove_file-fault, remove_file-others, remove_file-Sound, discard-Sound,
  commit_file-Sound,
}

-- The four worlds in which `resume_part` may end; the last is a commit of a verified .part.
resume_part_cases :
    (deps : Deps) (now i : ℕ) (t : Task) (w : World)
    → let r = (resume_part deps now i t w).0 in
      (r ≡ on_disk (remove_file (control (part_path t))) w)
      ⊎ ((r ≡ on_disk (discard (part_path t)) w)
          ⊎ ((r ≡ set_status i pending w)
              ⊎ ((r ≡ (commit_file deps now i t (part_path t) w).0)
                  × (Verify.blob deps.digests (w.disk) (part_path t) t.hash t.size ≡ ok tt))))
unfolding resume_part
resume_part_cases deps now i t w = ground arith

blob_exists_lem :
    (deps : Deps) (d : Disk) (p : FilePath) (digest : Bytes) (size : ℕ)
    → blob_exists deps d p digest size ≡ true
    → (h : Hash) × (deps.new_hash digest ≡ some h) × (Verify.blob deps.digests d p h size ≡ ok tt)
unfolding blob_exists
blob_exists_lem deps d p digest size good = elim (Option-cases (deps.new_hash digest)) [
  | inl bad ↦ ground arith
  | inr (h, known) ↦ (h, known, ground arith)
]

-- Reconciling, where everything intact is as promised. `careful`: where blobs are verified again, a
-- blob that is as promised passes the check.
module _ (deps : Deps) (size_of : Hash → ℕ) (P : Bytes → Hash → ℕ → Type 0)
    (of_intact : (text : Bytes) (h : Hash) (n : ℕ) → IsIntact deps.digests text h n → P text h n)
    (f : Syscall → Bool) (verify_existing : Bool)
    (careful : verify_existing ≡ true
      → (d : Disk) (t : Task) → d.fault ≡ f
      → deps.new_hash t.digest ≡ some t.hash
      → Held deps size_of P d t
      → blob_exists deps d (final_path deps t) t.digest t.size ≡ true)
    (now i : ℕ) where
  abbrev Goal : World → Type 0
  Goal = Sound deps size_of P f

  set_pending-Sound :
      {w : World} {t : Task}
      → Goal w
      → get_elem? (w.plan.objects) i ≡ some t
      → Goal (set_status i pending w)
  set_pending-Sound {w} {t} s at =
      let ts = All-get_elem? _ (w.plan.objects) i s.tasks at in
      Sound-task deps size_of P i (λ u. record u { status = pending }) s at
        (record { hashed = ts.hashed; sized = ts.sized; held = λ e. cc })

  resume_part-Sound :
      (t : Task) {w : World}
      → Goal w
      → get_elem? (w.plan.objects) i ≡ some t
      → Goal (resume_part deps now i t w).0
  resume_part-Sound t {w} s at = elim (resume_part_cases deps now i t w) [
    | inl e ↦ rw e (remove_file-Sound deps size_of P (control (part_path t)) (λ a h e. cc) s)
    | inr (inl e) ↦ rw e (discard-Sound deps size_of P t.part_name s)
    | inr (inr (inl e)) ↦ rw e (set_pending-Sound s at)
    | inr (inr (inr (e, good))) ↦
        let (text, there, intact) =
          blob_sound deps.digests (w.disk) (part_path t) t.hash t.size good in
        rw e (
          commit_file-Sound deps size_of P now i t t.part_name s at there
            (of_intact text _ _ intact))
  ]

  set_committed-Sound :
      (t : Task) {w : World}
      → Goal w
      → get_elem? (w.plan.objects) i ≡ some t
      → blob_exists deps (w.disk) (final_path deps t) t.digest t.size ≡ true
      → Goal (set_status i committed w)
  set_committed-Sound t {w} s at good =
      let ts = All-get_elem? _ (w.plan.objects) i s.tasks at in
      let (h, known, passed) =
        blob_exists_lem deps (w.disk) (final_path deps t) t.digest t.size good in
      let (text, there, intact) =
        blob_sound deps.digests (w.disk) (final_path deps t) h t.size passed in
      let same : h ≡ t.hash = some-injective _ _ (sym known ∙ ts.hashed) in
      Sound-task deps size_of P i (λ u. record u { status = committed }) s at
        (record {
          hashed = ts.hashed;
          sized = ts.sized;
          held = λ _. record {
            text = text;
            there = there;
            promised = subst (λ g. P text g t.size) same (of_intact text h t.size intact);
          };
        })

  -- Deleting a blob that failed its check takes nothing from the other tasks.
  delete_blob-Sound :
      (t : Task) {w : World}
      → Goal w
      → get_elem? (w.plan.objects) i ≡ some t
      → verify_existing ≡ true
      → blob_exists deps (w.disk) (final_path deps t) t.digest t.size ≡ false
      → Goal (on_disk (remove_file (final_path deps t)) w)
  delete_blob-Sound t {w} s at on bad =
      let ts = All-get_elem? _ (w.plan.objects) i s.tasks at in
      Sound-disk deps size_of P (remove_file (final_path deps t) (w.disk)) s
        (remove_file-fault (final_path deps t) (w.disk))
        λ u hashed sized held. elim (FilePath-discrete (final_path deps u) (final_path deps t)) [
          | no other ↦ record {
            text = held.text;
            there = remove_file-others _ _ (w.disk) other ∙ held.there;
            promised = held.promised;
          }
          | yes same ↦
              let stands : Held deps size_of P (w.disk) t = record {
                text = held.text;
                there = ap (w.disk.files) (sym same) ∙ held.there;
                promised =
                    same_promise deps size_of P t u ts.sized sized
                      (sym (final_path_lem deps t ts.hashed)
                        ∙ sym same
                        ∙ final_path_lem deps u hashed)
                      held.promised;
              } in
              let found = careful on (w.disk) t s.same_faults ts.hashed stands in cc
        ]

  reconcile_blob-Sound :
      (t : Task) {w : World}
      → Goal w
      → get_elem? (w.plan.objects) i ≡ some t
      → Goal (reconcile_blob deps now i verify_existing t w).0
  unfolding reconcile_blob
  reconcile_blob-Sound t {w} s at =
      elim (Bool-cases (blob_exists deps (w.disk) (final_path deps t) t.digest t.size)) [
        | inl good ↦ rw good (set_committed-Sound t s at good)
        | inr bad ↦
            elim (Bool-cases (verify_existing && is_some (w.disk.files (final_path deps t)))) [
              | inl both ↦
                  rw (bad, both)
                    (resume_part-Sound t (delete_blob-Sound t s at (ground arith) bad) at)
              | inr neither ↦ rw (bad, neither) (resume_part-Sound t s at)
            ]
      ]

  -- Reconciling a task makes it sound, on every branch, if the others are, and if a blob that it
  -- is trusted to have committed is as promised wherever it is there.
  pub reconcile_task-Sound :
      (t : Task) (w : World)
      → Goal (set_status i pending w)
      → get_elem? (w.plan.objects) i ≡ some t
      → (t.status ≡ committed
          → (text : Bytes) → w.disk.files (final_path deps t) ≡ some text
          → P text t.hash t.size)
      → Goal (reconcile_task deps now i verify_existing t w).0
  unfolding reconcile_task
  reconcile_task-Sound t w s at trusted =
      let pend : Task → Task = λ u. record u { status = pending } in
      let old = get_elem?-modify_self (w.plan.objects) i pend at in
      let ts = All-get_elem? _ (modify (w.plan.objects) i pend) i s.tasks old in
      elim (Bool-cases (is_committed t.status && is_some (w.disk.files (final_path deps t)))) [
        | inl kept ↦ rw kept (record {
          same_faults = s.same_faults;
          tasks =
              All-modify_back _ (w.plan.objects) i pend at
                (record {
                  hashed = ts.hashed;
                  sized = ts.sized;
                  held = λ c. elim (Option-cases (w.disk.files (final_path deps t))) [
                    | inl gone ↦ ground arith
                    | inr (text, there) ↦ record {
                      text = text;
                      there = there;
                      promised = trusted c text there;
                    }
                  ];
                })
                s.tasks;
        })
        | inr rest ↦ elim (Bool-cases (is_committed t.status)) [
          | inl lost ↦
              rw (rest, lost) (reconcile_blob-Sound (pend t) {w = set_status i pending w} s old)
          | inr never ↦
              rw (rest, never)
                (reconcile_blob-Sound t {w = w}
                  (record {
                    same_faults = s.same_faults;
                    tasks =
                        All-modify_back _ (w.plan.objects) i pend at
                          (record {
                            hashed = ts.hashed;
                            sized = ts.sized;
                            held = λ c. ground arith;
                          })
                          s.tasks;
                  })
                  at)
        ]
      ]

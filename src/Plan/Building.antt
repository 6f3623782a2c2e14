-- ===== src/Plan/Building.antt =====
-- `Build` establishes the invariant of the plan.
use imgpull.Base.{
  ℕ, zero, suc, ◌≡◌, sym, ap, ◌∙◌, Bool, true, false, some, List, [], ◌∷◌, Bytes, modify, get_elem?,
  modify-modify, modify_of_none, get_elem?-modify_self, All, All-get_elem?, All-modify_at,
  Bool-cases, Option-cases, inl, inr, ok, arith, length, >>=-eq-ok, ok-injective, Result-cases,
}
use mathlib.Core.Path.{subst}
use mathlib.Core.Option.{some-injective}
use imgpull.Files.{Disk, Syscall}
use imgpull.Verify.{Hash}
use imgpull.Verify.Laws.{IsIntact}
use imgpull.Platform.{Platform}
use imgpull.Reference.{Ref}
use imgpull.Manifest.{BlobDescriptor, ImageManifest}
use imgpull.Plan.{
  Kind, config, layer, Task, World, Deps, StateObject, committed, pending, final_path, save_now,
}
use imgpull.Plan.Reconcile.{blob_exists, set_status}
use imgpull.Plan.Build.{
  built, adopt, carry_over, reconcile_round, reconcile_loop, new_task, layer_tasks, new_tasks,
  new_plan, finish, build_tasks,
}
use imgpull.Plan.Sound.{Sized, Held, TaskSound, Sound, persist_locked-Sound}
use imgpull.Plan.Reconciling.{reconcile_task-Sound}

-- What a task keeps when it adopts a previous state.
adopt_fields :
    (deps : Deps) (verify : Bool) (objects : List StateObject) (t : Task)
    → let a = adopt deps verify objects t in
      (a.digest ≡ t.digest)
      × (a.size ≡ t.size)
      × (a.hash ≡ t.hash)
      × (verify ≡ true → a.status ≡ t.status)
unfolding adopt carry_over
adopt_fields deps verify objects t = ground arith

module _ (deps : Deps) (size_of : Hash → ℕ) (P : Bytes → Hash → ℕ → Type 0)
    (of_intact : (text : Bytes) (h : Hash) (n : ℕ) → IsIntact deps.digests text h n → P text h n)
    (f : Syscall → Bool) (verify : Bool)
    (careful : verify ≡ true
      → (d : Disk) (t : Task) → d.fault ≡ f
      → deps.new_hash t.digest ≡ some t.hash
      → Held deps size_of P d t
      → blob_exists deps d (final_path deps t) t.digest t.size ≡ true)
    (lenient : verify ≡ false → (text : Bytes) (h : Hash) (n : ℕ) → P text h n)
    (objects : List StateObject) where
  abbrev pub Good : World → Type 0
  Good = Sound deps size_of P f

  abbrev at_round : ℕ → World → World
  at_round i w = record w {
    plan = record (w.plan) { objects = modify (w.plan.objects) i (adopt deps verify objects) };
  }

  round_trusted :
      (t : Task) {d : Disk}
      → TaskSound deps size_of P d t
      → (adopt deps verify objects t).status ≡ committed
      → (text : Bytes) → d.files (final_path deps (adopt deps verify objects t)) ≡ some text
      → P text (adopt deps verify objects t).hash (adopt deps verify objects t).size
  round_trusted t {d} s c text there = elim (Bool-cases verify) [
    | inr off ↦ lenient off text _ _
    | inl on ↦
        let (ed, es, eh, est) = adopt_fields deps verify objects t in
        let held = s.held (sym (est on) ∙ c) in
        let same : held.text ≡ text = some-injective _ _ (
          sym held.there
          ∙ ap (λ g. d.files (final_path deps (record t { digest = g }))) (sym ed)
          ∙ there) in
        rw (eh, es) (subst (λ x. P x t.hash t.size) same held.promised)
  ]

  pub reconcile_round-Sound :
      (now i : ℕ) (w : World) → Good w → Good (reconcile_round deps verify objects now i w)
  unfolding reconcile_round
  reconcile_round-Sound now i w s = elim (Option-cases (get_elem? (w.plan.objects) i)) [
    | inl e ↦
        rw (modify_of_none (w.plan.objects) i (adopt deps verify objects) e, e, reconcile_round)
          (rw (modify_of_none (w.plan.objects) i (adopt deps verify objects) e) s)
    | inr (t, at) ↦
        let (ed, es, eh, est) = adopt_fields deps verify objects t in
        let ts = All-get_elem? _ (w.plan.objects) i s.tasks at in
        let at' = get_elem?-modify_self (w.plan.objects) i (adopt deps verify objects) at in
        let waiting : Good (set_status i pending (at_round i w)) = record {
          same_faults = s.same_faults;
          tasks = rw modify-modify (
              All-modify_at _ (w.plan.objects) i _ at
                (record {
                  hashed = rw (ed, eh) ts.hashed;
                  sized = rw (es, eh) ts.sized;
                  held = λ c. cc;
                })
                s.tasks);
        } in
        rw (at', reconcile_round)
          (reconcile_task-Sound deps size_of P of_intact f verify careful now i
            (adopt deps verify objects t) (at_round i w) waiting at' (round_trusted t ts))
  ]

  reconcile_loop-Sound :
      (clock : ℕ → ℕ) (k i : ℕ) (w : World)
      → Good w
      → Good (reconcile_loop deps verify objects clock k i w)
  unfolding reconcile_loop
  reconcile_loop-Sound clock zero i w s = s
  reconcile_loop-Sound clock (suc k) i w s =
      reconcile_loop-Sound clock k (suc i) _ (reconcile_round-Sound (clock i) i w s)

  new_task-Sound :
      (kind : Kind) (b : BlobDescriptor) (d : Disk) {t : Task}
      → Sized deps size_of b
      → new_task deps kind b ≡ ok t
      → TaskSound deps size_of P d t
  unfolding new_task
  new_task-Sound kind b d {t} sized made = elim (Option-cases (deps.new_hash b.digest)) [
    | inl bad ↦ ground arith
    | inr (h, known) ↦ record {
      hashed = ground arith;
      sized = ground (arith, sized h known);
      held = λ c. ground arith;
    }
  ]

  layer_tasks-Sound :
      (ls : List BlobDescriptor) (d : Disk) {ts : List Task}
      → All (Sized deps size_of) ls
      → layer_tasks deps ls ≡ ok ts
      → All (TaskSound deps size_of P d) ts
  unfolding layer_tasks
  layer_tasks-Sound [] d {ts} sized made = subst (All _) (ok-injective [] ts made) tt
  layer_tasks-Sound (l ∷ ls) d {ts} (hl, hls) made =
      let (t, one, more) = >>=-eq-ok (new_task deps layer l) _ made in
      let (rest, others, all) = >>=-eq-ok (layer_tasks deps ls) _ more in
      subst (All _) (ok-injective (t ∷ rest) ts all)
        (new_task-Sound layer l d hl one, layer_tasks-Sound ls d hls others)

  new_tasks-Sound :
      (mfst : ImageManifest) (d : Disk) {ts : List Task}
      → Sized deps size_of mfst.config
      → All (Sized deps size_of) mfst.layers
      → new_tasks deps mfst ≡ ok ts
      → All (TaskSound deps size_of P d) ts
  unfolding new_tasks
  new_tasks-Sound mfst d {ts} hc hls made =
      let (t, one, more) = >>=-eq-ok (new_task deps config mfst.config) _ made in
      let (rest, others, all) = >>=-eq-ok (layer_tasks deps mfst.layers) _ more in
      subst (All _) (ok-injective (t ∷ rest) ts all)
        (new_task-Sound config mfst.config d hc one, layer_tasks-Sound mfst.layers d hls others)

  finish_built :
      (ref : Ref) (mfst : ImageManifest) (plat : Platform) (clock : ℕ → ℕ) (n : ℕ)
      (x : World × Bool) {w : World}
      → finish deps ref mfst plat verify clock n x ≡ built w
      → x.0 ≡ w
  finish_built ref mfst plat clock n (v, true) h = cc
  finish_built ref mfst plat clock n (v, false) h = cc

  module _ (ref : Ref) (mfst : ImageManifest) (plat : Platform) (clock : ℕ → ℕ)
      (config_sized : Sized deps size_of mfst.config)
      (layers_sized : All (Sized deps size_of) mfst.layers) where
    pub build_tasks-Sound :
        (h : Hash) (d : Disk) {w : World}
        → d.fault ≡ f
        → build_tasks deps ref mfst plat verify clock h objects d ≡ built w
        → Good w
    unfolding build_tasks save_now
    build_tasks-Sound h d {w} same made = elim (Result-cases (new_tasks deps mfst)) [
      | inr (bad, e) ↦ ground arith
      | inl (ts, e) ↦
          let start : World = record { plan = new_plan deps ref mfst plat h ts; disk = d } in
          let n = length ts in
          let s : Good start = record {
            same_faults = same;
            tasks = new_tasks-Sound mfst d config_sized layers_sized e;
          } in
          let done = finish_built ref mfst plat clock n _ (rw (e, build_tasks) at made) in
          subst Good done
            (persist_locked-Sound deps size_of P (clock n) (reconcile_loop-Sound clock n 0 start s))
    ]

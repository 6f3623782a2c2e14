-- ===== src/Scheduler/Running.antt =====
-- internal/downloader/scheduler.go, `Run`: the plan at its end.
use imgpull.Base.{
  List-cases, ℕ, zero, suc, ◌+◌, ◌≡◌, ◌⊎◌, refl, sym, true, false, Option, none, some, List, [],
  ◌∷◌, Bytes, get_elem?, All-get_elem?, Option-cases, Bool-cases, inl, inr, ok, arith,
}
use mathlib.Core.Path.{subst}
use imgpull.Verify.{Hash}
use imgpull.Verify.Laws.{IsIntact}
use imgpull.Retry.{GoError, is_canceled}
use imgpull.Plan.{
  Task, Status, pending, downloading, committed, failed, unknown_status, is_committed, final_path,
}
use imgpull.Plan.Places.{SameDigests}
use imgpull.Plan.Sound.{Sound}
use imgpull.Scheduler.{Config, Sched}
use imgpull.Scheduler.Polling.{IsAside}
use imgpull.Scheduler.Settling.{EndsByCancel}
use imgpull.Scheduler.Each.{mem, Ran, run_each-Ran}
use imgpull.Scheduler.Run.{
  Sent, run_each, pending_places, reported, join_errors, RunEnd, finish_run, run,
}

pub is_committed_lem : (x : Status) → is_committed x ≡ true → x ≡ committed
is_committed_lem committed h = refl
is_committed_lem pending h = cc
is_committed_lem downloading h = cc
is_committed_lem failed h = cc
is_committed_lem (unknown_status word) h = cc

mem-pending_places :
    (ts : List Task) (n k : ℕ) {t : Task}
    → get_elem? ts k ≡ some t
    → is_committed t.status ≡ false
    → mem (n + k) (pending_places n ts) ≡ true
unfolding pending_places
mem-pending_places [] n k at open_yet = cc
mem-pending_places (u ∷ ts) n zero {t} at open_yet =
    let same : u ≡ t = cc in rw (same, open_yet) (ground arith)
mem-pending_places (u ∷ ts) n (suc k) at open_yet =
    let rest = mem-pending_places ts (suc n) k at open_yet in
    let place : suc n + k ≡ n + suc k = omega arith in
    elim (Bool-cases (is_committed u.status)) [
      | inl done ↦ rw (pending_places, done) (rw place at rest)
      | inr more ↦ rw (pending_places, more) (ground (arith, rw place at rest))
    ]

mem-pending_places_from :
    (ts : List Task) (k : ℕ) {t : Task}
    → get_elem? ts k ≡ some t
    → is_committed t.status ≡ false
    → mem k (pending_places 0 ts) ≡ true
mem-pending_places_from ts k at open_yet =
    let zero_first : 0 + k ≡ k = omega arith in
    subst (λ m. mem m (pending_places 0 ts) ≡ true) zero_first
      (mem-pending_places ts 0 k at open_yet)

reported-nil :
    (errs : List GoError)
    → reported errs ≡ []
    → (errs ≡ [])
      ⊎ ((e : GoError) × (rest : List GoError) × (errs ≡ e ∷ rest) × (is_canceled e ≡ true))
unfolding reported
reported-nil [] h = inl refl
reported-nil (e ∷ errs) h = elim (Bool-cases (is_canceled e)) [
  | inl dropped ↦ inr (e, errs, refl, dropped)
  | inr live ↦ absurd (let b = rw (reported, live) at h in cc)
]

join_errors-ok : (errs : List GoError) → join_errors errs ≡ ok tt → errs ≡ []
join_errors-ok [] h = refl
join_errors-ok (e ∷ errs) h = cc

finish_run-ok :
    (c : Config) (sent : Sent)
    → (finish_run c sent).result ≡ ok tt
    → (c.net.ctx_err (sent.0.session.tick) ≡ none) × (reported sent.1 ≡ [])
unfolding finish_run
finish_run-ok c (s, errs) h = elim (Option-cases (c.net.ctx_err (s.session.tick))) [
  | inr (e, dead) ↦ absurd (let b = rw dead at h in cc)
  | inl live ↦ (live, join_errors-ok (reported errs) (rw live at h))
]

-- The order in which the tasks get their turn leaves none out.
abbrev pub Covers : (List ℕ → List ℕ) → Type 0
Covers order = (j : ℕ) (ps : List ℕ) → mem j ps ≡ true → mem j (order ps) ≡ true

-- Every task of the plan is committed, and has an intact blob.
abbrev pub AllDone : Config → Sched → Type 0
AllDone c s =
    (j : ℕ) (t : Task)
    → get_elem? (s.world.plan.objects) j ≡ some t
    → (t.status ≡ committed)
      × ((text : Bytes) × (s.world.disk.files (final_path c.deps t) ≡ some text)
          × IsIntact c.deps.digests text t.hash t.size)

-- The run dropped the cancellation of a download.
abbrev pub WasCanceled : List GoError → Type 0
WasCanceled sent =
    (e : GoError) × (rest : List GoError) × (sent ≡ e ∷ rest) × (is_canceled e ≡ true)

module _ (c : Config) (aside : IsAside c) (law : EndsByCancel c.net) (size_of : Hash → ℕ) (fuel : ℕ)
    (order : List ℕ → List ℕ) (covers : Covers order) (s : Sched)
    (sound : Sound c.deps size_of (IsIntact c.deps.digests) (s.world.disk.fault) (s.world)) where
  all_done :
      (s' : Sched)
      → Sound c.deps size_of (IsIntact c.deps.digests) (s.world.disk.fault) (s'.world)
      → ((j : ℕ) (t : Task) → get_elem? (s'.world.plan.objects) j ≡ some t → t.status ≡ committed)
      → AllDone c s'
  all_done s' sound' each j t at =
      let done = each j t at in
      let held = (All-get_elem? _ (s'.world.plan.objects) j sound'.tasks at).held done in
      (done, (held.text, held.there, held.promised))

  -- What was committed before stays so, and the others were downloaded.
  each_done :
      (places : List ℕ) (sent : Sent)
      → pending_places 0 (s.world.plan.objects) ≡ places
      → Ran c aside law size_of (s.world.disk.fault) fuel (order places) s sent
      → sent.1 ≡ []
      → c.net.ctx_err (sent.0.session.tick) ≡ none
      → (j : ℕ) (t : Task) → get_elem? (sent.0.world.plan.objects) j ≡ some t
      → t.status ≡ committed
  each_done places sent is_places ran nothing live j t at =
      elim (Option-cases (get_elem? (s.world.plan.objects) j)) [
        | inl gone ↦ absurd (let b = ran.absent j gone in cc)
        | inr (t0, before) ↦ elim (Bool-cases (mem j (order places))) [
          | inl turn ↦
              let (u, found, is) = ran.done nothing live j t0 turn before in
              let same : u ≡ t = cc in rw same at is
          | inr left_out ↦
              let same : t0 ≡ t = let b = ran.others j left_out in cc in
              elim (Bool-cases (is_committed t0.status)) [
                | inl done ↦ is_committed_lem t.status (rw same at done)
                | inr open_yet ↦
                    let m : mem j places ≡ true =
                      rw is_places at
                        (mem-pending_places_from (s.world.plan.objects) j before open_yet) in
                    absurd (let b = covers j places m in cc)
              ]
        ]
      ]

  abbrev Keeps : Sched → Type 0
  Keeps s' =
      Sound c.deps size_of (IsIntact c.deps.digests) (s.world.disk.fault) (s'.world)
      × SameDigests (s.world) (s'.world)

  none_pending :
      pending_places 0 (s.world.plan.objects) ≡ []
      → (j : ℕ) (t : Task) → get_elem? (s.world.plan.objects) j ≡ some t
      → t.status ≡ committed
  none_pending nothing j t at = elim (Bool-cases (is_committed t.status)) [
    | inl done ↦ is_committed_lem t.status done
    | inr open_yet ↦
        absurd (
          let m = rw nothing at (mem-pending_places_from (s.world.plan.objects) j at open_yet) in
          cc)
  ]

  finished :
      (places : List ℕ) (s' : Sched) (errs : List GoError)
      → pending_places 0 (s.world.plan.objects) ≡ places
      → run_each c fuel (order places) s ≡ some (s', errs)
      → (finish_run c (s', errs)).result ≡ ok tt
      → AllDone c s' ⊎ WasCanceled errs
  finished places s' errs is_places ran fine =
      let (live, silent) = finish_run-ok c (s', errs) fine in
      let r =
        run_each-Ran c aside law size_of (s.world.disk.fault) fuel (order places) s sound ran in
      elim (reported-nil errs silent) [
        | inr dropped ↦ inr dropped
        | inl nothing ↦
            inl (all_done s' r.sound (each_done places (s', errs) is_places r nothing live))
      ]

  -- However `Run` ends, the plan is sound at its end, and its tasks have the digests that they had.
  pub run_keeps :
      {end : RunEnd}
      → run c fuel order s ≡ some end
      → Sound c.deps size_of (IsIntact c.deps.digests) (s.world.disk.fault) (end.sched.world)
        × SameDigests (s.world) (end.sched.world)
  unfolding run finish_run
  run_keeps {end} made = elim (List-cases (pending_places 0 (s.world.plan.objects))) [
    | inl nothing ↦
        let e : ◌≡◌ {A = Option RunEnd} (some (record { sched = s; sent = []; result = ok tt }))
            (some end) =
          rw (run, nothing) at made in
        let same : ◌≡◌ {A = RunEnd} (record { sched = s; sent = []; result = ok tt }) end = cc in
        subst (λ x. Keeps (x.sched)) same (sound, λ j. refl)
    | inr (i, is, some_left) ↦ elim (Option-cases (run_each c fuel (order (i ∷ is)) s)) [
      | inl polling ↦ absurd (let b = rw (run, some_left, polling) at made in cc)
      | inr ((s', errs), ran) ↦
          let e : ◌≡◌ {A = Option RunEnd} (some (finish_run c (s', errs))) (some end) =
            rw (run, some_left, ran) at made in
          let same : finish_run c (s', errs) ≡ end = cc in
          let r =
            run_each-Ran c aside law size_of (s.world.disk.fault) fuel (order (i ∷ is)) s sound
              ran in
          subst (λ x. Keeps (x.sched)) same (r.sound, r.digests)
    ]
  ]

  -- When `Run` returns nil, every task of the plan is committed and has a file in blobs/ of its size
  -- that hashes to its digest, or Run has dropped the cancellation of a download, if the plan was sound
  -- before, every pending task gets its turn, one after another, aria2 does not touch blobs/, and a
  -- context ends only by a cancellation or a deadline.
  pub run_verified :
      {end : RunEnd}
      → run c fuel order s ≡ some end
      → end.result ≡ ok tt
      → AllDone c end.sched ⊎ WasCanceled end.sent
  unfolding run finish_run
  run_verified {end} made fine = elim (List-cases (pending_places 0 (s.world.plan.objects))) [
    | inl nothing ↦
        let e : ◌≡◌ {A = Option RunEnd} (some (record { sched = s; sent = []; result = ok tt }))
            (some end) =
          rw (run, nothing) at made in
        let same : ◌≡◌ {A = RunEnd} (record { sched = s; sent = []; result = ok tt }) end = cc in
        subst (λ x. AllDone c x.sched ⊎ WasCanceled x.sent) same
          (inl (all_done s sound (none_pending nothing)))
    | inr (i, is, some_left) ↦ elim (Option-cases (run_each c fuel (order (i ∷ is)) s)) [
      | inl polling ↦ absurd (let b = rw (run, some_left, polling) at made in cc)
      | inr ((s', errs), ran) ↦
          let e : ◌≡◌ {A = Option RunEnd} (some (finish_run c (s', errs))) (some end) =
            rw (run, some_left, ran) at made in
          let same : finish_run c (s', errs) ≡ end = cc in
          subst (λ x. AllDone c x.sched ⊎ WasCanceled x.sent) same
            (finished (i ∷ is) s' errs some_left ran
              (subst (λ x. x.result ≡ ok tt) (sym same) fine))
    ]
  ]

-- ===== src/Scheduler/Each.antt =====
-- internal/downloader/scheduler.go, `Run`: what its loop over the tasks has done.
use imgpull.Base.{
  ℕ, ◌==◌, ◌≡◌, ◌≢◌, ◌⊎◌, refl, ◌∙◌, ap, sym, Bool, true, false, ◌||◌, Option, none, some, List, [],
  ◌∷◌, get_elem?, Option-cases, Bool-cases, inl, inr, Result, ok, err, ==_iff, arith,
}
use mathlib.Core.Path.{subst}
use imgpull.Files.{Syscall}
use imgpull.Verify.{Hash}
use imgpull.Verify.Laws.{IsIntact}
use imgpull.Retry.{GoError}
use imgpull.Plan.Places.{digest_at, digest_at-some, digest_at-get_elem?}
use imgpull.Plan.{Task, committed}
use imgpull.Plan.Sound.{Sound}
use imgpull.Scheduler.{Config, Sched, Outcome}
use imgpull.Scheduler.Download.{download_object}
use imgpull.Scheduler.Polling.{IsAside}
use imgpull.Scheduler.Settling.{EndsByCancel, download_object-Settles}
use imgpull.Scheduler.Run.{Sent, with_error, run_each}

abbrev pub mem : ℕ → List ℕ → Bool
mem j [] = false
mem j (i ∷ is) = i == j || mem j is

-- The task at a place is committed.
abbrev pub CommittedAt : Sched → ℕ → Type 0
CommittedAt s j =
    (u : Task) × (get_elem? (s.world.plan.objects) j ≡ some u) × (u.status ≡ committed)

module _ (c : Config) (aside : IsAside c) (law : EndsByCancel c.net) (size_of : Hash → ℕ)
    (faults : Syscall → Bool) (fuel : ℕ) where
  abbrev pub SoundAt : Sched → Type 0
  SoundAt s = Sound c.deps size_of (IsIntact c.deps.digests) faults (s.world)

  -- What the loop has done from `s` on.
  pub record Ran (order : List ℕ) (s : Sched) (sent : Sent) : Type 0 where
    pub sound : SoundAt sent.0
    pub others :
        (j : ℕ)
        → mem j order ≡ false
        → get_elem? (sent.0.world.plan.objects) j ≡ get_elem? (s.world.plan.objects) j
    pub digests :
        (j : ℕ) → digest_at (sent.0.world.plan.objects) j ≡ digest_at (s.world.plan.objects) j
    pub absent :
        (j : ℕ)
        → get_elem? (s.world.plan.objects) j ≡ none
        → get_elem? (sent.0.world.plan.objects) j ≡ none
    pub done :
        sent.1 ≡ []
        → c.net.ctx_err (sent.0.session.tick) ≡ none
        → (j : ℕ) (t : Task) → mem j order ≡ true
        → get_elem? (s.world.plan.objects) j ≡ some t
        → CommittedAt sent.0 j

  -- One download, on a plan that is sound with the faults of the section.
  pub record One (i : ℕ) (s : Sched) (out : Outcome) : Type 0 where
    pub sound : SoundAt out.0
    pub others :
        (j : ℕ)
        → j ≢ i
        → get_elem? (out.0.world.plan.objects) j ≡ get_elem? (s.world.plan.objects) j
    pub digests :
        (j : ℕ) → digest_at (out.0.world.plan.objects) j ≡ digest_at (s.world.plan.objects) j
    pub present : (j : ℕ) → get_elem? (s.world.plan.objects) j ≡ none → j ≢ i
    pub stays : (u : Task) × (get_elem? (out.0.world.plan.objects) i ≡ some u)
    pub done : out.1 ≡ ok tt → CommittedAt out.0 i

  pub download_object-One :
      (i : ℕ) (t : Task) (s : Sched) {out : Outcome}
      → SoundAt s
      → get_elem? (s.world.plan.objects) i ≡ some t
      → download_object c fuel i t s ≡ some out
      → One i s out
  download_object-One i t s {out} sound at made =
      let e =
        (download_object-Settles c aside size_of faults (get_elem? (s.world.plan.objects)) i t law
            fuel s
            (record {
              sound = sound;
              now_at = t;
              at = at;
              same = record { digest = refl; hash = refl; size = refl; part_name = refl };
              others = λ j apart. refl;
            })).settled
          out made in
      record {
        sound = e.kept.sound;
        others = e.kept.others;
        digests = λ j. elim (Bool-cases (j == i)) [
          | inl here ↦
              let place = (==_iff j i).0 here in
              rw place (
                digest_at-some (out.0.world.plan.objects) i e.kept.at
                ∙ ap some e.kept.same.digest
                ∙ sym (digest_at-some (s.world.plan.objects) i at))
          | inr other ↦
              digest_at-get_elem? (out.0.world.plan.objects) (s.world.plan.objects) j
                (e.kept.others j (λ x. ground (arith, x)))
        ];
        present = λ j none_there same. (let b = rw same at none_there in cc);
        stays = (e.kept.now_at, e.kept.at);
        done = λ h. let d = e.done h in (d.task, d.found, d.status);
      }

  -- A place that the loop comes to, or one of the rest.
  mem-cases : (i j : ℕ) (rest : List ℕ) → mem j (i ∷ rest) ≡ true → (i ≡ j) ⊎ (mem j rest ≡ true)
  mem-cases i j rest m = elim (Bool-cases (i == j)) [
    | inl same ↦ inl ((==_iff i j).0 same)
    | inr other ↦ inr (rw other at m)
  ]

  not-mem-head : (i j : ℕ) (rest : List ℕ) → mem j (i ∷ rest) ≡ false → j ≢ i
  not-mem-head i j rest m e = ground (arith, e)

  not-mem-tail : (i j : ℕ) (rest : List ℕ) → mem j (i ∷ rest) ≡ false → mem j rest ≡ false
  not-mem-tail i j rest m = ground arith

  stopped-Ran :
      (order : List ℕ) (s : Sched) {e : GoError}
      → SoundAt s
      → c.net.ctx_err (s.session.tick) ≡ some e
      → Ran order s (s, [])
  stopped-Ran order s sound dead = record {
    sound = sound;
    others = λ j m. refl;
    digests = λ j. refl;
    absent = λ j none_there. none_there;
    done = λ nothing live j t m at. cc;
  }

  gone-Ran :
      (i : ℕ) (rest : List ℕ) (s : Sched) (sent : Sent)
      → get_elem? (s.world.plan.objects) i ≡ none
      → Ran rest s sent
      → Ran (i ∷ rest) s sent
  gone-Ran i rest s sent gone r = record {
    sound = r.sound;
    others = λ j m. r.others j (not-mem-tail i j rest m);
    digests = r.digests;
    absent = r.absent;
    done = λ nothing live j t m at. elim (mem-cases i j rest m) [
      | inl here ↦ absurd (let b = rw here at gone in cc)
      | inr later ↦ r.done nothing live j t later at
    ];
  }

  without_error :
      (r : Result GoError (Unit {0})) (errs : List GoError)
      → with_error r errs ≡ []
      → (r ≡ ok tt) × (errs ≡ [])
  without_error (ok _) errs h = (refl, h)
  without_error (err e) errs h = cc

  longer-Ran :
      (i : ℕ) (rest : List ℕ) (s s1 : Sched) (r : Result GoError (Unit {0})) (sent : Sent)
      → One i s (s1, r)
      → Ran rest s1 sent
      → Ran (i ∷ rest) s (sent.0, with_error r sent.1)
  longer-Ran i rest s s1 r sent first later = record {
    sound = later.sound;
    others =
        λ j m. later.others j (not-mem-tail i j rest m) ∙ first.others j (not-mem-head i j rest m);
    digests = λ j. later.digests j ∙ first.digests j;
    absent =
        λ j none_there. later.absent j (first.others j (first.present j none_there) ∙ none_there);
    done = λ nothing live j t m at.
        let (fine, silent) = without_error r sent.1 nothing in
        elim (Bool-cases (mem j rest)) [
          | inl again ↦ elim (Bool-cases (i == j)) [
            | inl same ↦
                let here = (==_iff i j).0 same in
                let (u, found) = first.stays in later.done silent live j u again (rw here at found)
            | inr other ↦
                later.done silent live j t again (first.others j (λ e. ground (arith, e)) ∙ at)
          ]
          | inr last ↦ elim (mem-cases i j rest m) [
            | inr in_rest ↦ absurd (cc)
            | inl here ↦
                let (u, found, is) = rw here at (first.done fine) in
                (u, later.others j last ∙ found, is)
          ]
        ];
  }

  -- The loop keeps the plan sound, changes the tasks that get their turn only, and where no error is
  -- sent and the context is live at the end, has committed each of them.
  pub run_each-Ran :
      (order : List ℕ) (s : Sched) {sent : Sent}
      → SoundAt s
      → run_each c fuel order s ≡ some sent
      → Ran order s sent
  unfolding run_each
  run_each-Ran [] s {sent} sound h =
      let e : ◌≡◌ {A = Sent} (s, []) sent = cc in
      subst (Ran [] s) e (record {
        sound = sound;
        others = λ j m. refl;
        digests = λ j. refl;
        absent = λ j none_there. none_there;
        done = λ nothing live j t m at. cc;
      })
  run_each-Ran (i ∷ rest) s {sent} sound h = elim (Option-cases (c.net.ctx_err (s.session.tick))) [
    | inr (e, dead) ↦
        let stop : ◌≡◌ {A = Option Sent} (some (s, [])) (some sent) = rw (run_each, dead) at h in
        let same : ◌≡◌ {A = Sent} (s, []) sent = cc in
        subst (Ran (i ∷ rest) s) same (stopped-Ran (i ∷ rest) s sound dead)
    | inl live ↦ elim (Option-cases (get_elem? (s.world.plan.objects) i)) [
      | inl gone ↦
          gone-Ran i rest s sent gone (run_each-Ran rest s sound (rw (run_each, live, gone) at h))
      | inr (t, there) ↦ elim (Option-cases (download_object c fuel i t s)) [
        | inl polling ↦ absurd (let b = rw (run_each, live, there, polling) at h in cc)
        | inr ((s1, r), made) ↦ elim (Option-cases (run_each c fuel rest s1)) [
          | inl polling ↦ absurd (let b = rw (run_each, live, there, made, polling) at h in cc)
          | inr (later, ran) ↦
              let first = download_object-One i t s sound there made in
              let b : ◌≡◌ {A = Option Sent} (some (later.0, with_error r later.1)) (some sent) =
                rw (run_each, live, there, made, ran) at h in
              let same : ◌≡◌ {A = Sent} (later.0, with_error r later.1) sent = cc in
              subst (Ran (i ∷ rest) s) same
                (longer-Ran i rest s s1 r later first (run_each-Ran rest s1 first.sound ran))
        ]
      ]
    ]
  ]

-- ===== src/Scheduler/Settling.antt =====
-- How the retry loop of `downloadObject` ends: the plan, the blob at a nil error, and the status of
-- a task that is given up.
use imgpull.Base.{
  ℕ, zero, suc, ◌≡◌, refl, Bool, true, false, ◌||◌, Option, none, some, [], Bytes, get_elem?,
  Bool-cases, Option-cases, inl, inr, ok, err,
}
use mathlib.Core.Path.{subst, ◌∙◌}
use imgpull.Registry.{Net}
use imgpull.Files.{Syscall}
use imgpull.Verify.{Hash}
use imgpull.Retry.{GoError, is_canceled, is_deadline, is_non_retryable}
use imgpull.Plan.{Task, World, failed}
use imgpull.Plan.Tasks.{mark_failed, failed_fields}
use imgpull.Scheduler.{Config, Sched, Outcome, in_world, time}
use imgpull.Scheduler.Attempt.{attempt}
use imgpull.Scheduler.Download.{
  before_retry, verdict, error_text, previous_text, retry_loop, download_object,
}
use imgpull.Scheduler.Ready.{IsDone, mark_retry-Ready, mark_failed-Ready, mark_failed-at}
use imgpull.Scheduler.Polling.{IsAside, Kept, Good, pass-Kept}
use imgpull.Scheduler.Safety.{attempt-Ends}

-- A context that is over says that it was canceled or that its deadline passed.
abbrev pub EndsByCancel : Net → Type 0
EndsByCancel net =
    (n : ℕ) (e : GoError) → net.ctx_err n ≡ some e → is_canceled e || is_deadline e ≡ true

module _ (c : Config) (aside : IsAside c) (size_of : Hash → ℕ) (faults : Syscall → Bool)
    (before : ℕ → Option Task) (i : ℕ) (t : Task) where
  abbrev Safe : Sched → Type 0
  Safe s = Kept c aside size_of faults before i t s

  -- The task at the place has failed.
  pub record IsFailed (w : World) : Type 0 where
    pub task : Task
    pub found : get_elem? (w.plan.objects) i ≡ some task
    pub status : task.status ≡ failed

  -- How `downloadObject` may end.
  pub record Settled (o : Outcome) : Type 0 where
    pub kept : Safe o.0
    pub done : o.1 ≡ ok tt → IsDone c.deps size_of faults before i t (o.0.world)
    pub lost :
        (e : GoError) → o.1 ≡ err e → is_canceled e || is_deadline e ≡ false → IsFailed (o.0.world)

  pub record Settles (r : Option Outcome) : Type 0 where
    pub settled : (o : Outcome) → r ≡ some o → Settled o

  settles : {o : Outcome} → Settled o → Settles (some o)
  settles {o} g = record { settled = λ o' e. let same : o ≡ o' = cc in subst Settled same g }

  over_Settled :
      (s : Sched) (e : GoError)
      → Safe s
      → is_canceled e || is_deadline e ≡ true
      → Settled (s, err e)
  over_Settled s e k over = record {
    kept = k;
    done = λ h. cc;
    lost = λ e' h live. let same : e ≡ e' = cc in cc;
  }

  gave_up_Settled :
      (s : Sched) (e : GoError) (text : Bytes)
      → Safe s
      → Settled (in_world (mark_failed (time c s) c.deps i text) s, err e)
  gave_up_Settled s e text k = record {
    kept = mark_failed-Ready c.deps size_of faults before i t (time c s) text k;
    done = λ h. cc;
    lost = λ e' h live. record {
      task = failed_fields (time c s) text k.now_at;
      found = mark_failed-at c.deps i (time c s) text (s.world) k.at;
      status = refl;
    };
  }

  -- An attempt that did not settle the matter is followed by `rest`.
  round-Settles :
      (out : Outcome) (rest : Option Outcome)
      → Good c aside size_of faults before i t out
      → (Safe out.0 → Settles rest)
      → Settles (elim (verdict c i out) [ some done ↦ some done | none ↦ rest ])
  unfolding verdict
  round-Settles (s, ok tt) rest g more =
      settles (record { kept = g.kept; done = g.done; lost = λ e h. cc })
  round-Settles (s, err e) rest g more = elim (Bool-cases (is_canceled e || is_deadline e)) [
    | inl over ↦ rw (verdict, over) (settles (over_Settled s e g.kept over))
    | inr live ↦ elim (Bool-cases (is_non_retryable e)) [
      | inl fatal ↦ rw (verdict, live, fatal) (settles (gave_up_Settled s e _ g.kept))
      | inr again ↦ rw (verdict, live, again) (more g.kept)
    ]
  ]

  before_retry-Safe : (last : Bytes) (s : Sched) → Safe s → Safe (before_retry c i last s).0
  unfolding before_retry
  before_retry-Safe last s k = elim (Option-cases (c.net.ctx_err (s.session.tick))) [
    | inr (e, over) ↦ rw (before_retry, over) k
    | inl live ↦
        rw (before_retry, live)
          (pass-Kept c aside size_of faults before i t _
            (mark_retry-Ready c.deps size_of faults before i t (time c s) (previous_text last) k))
  ]

  before_retry-over :
      (last : Bytes) (s : Sched) {e : GoError}
      → EndsByCancel c.net
      → (before_retry c i last s).1 ≡ some e
      → is_canceled e || is_deadline e ≡ true
  unfolding before_retry
  before_retry-over last s {e} law h = elim (Option-cases (c.net.ctx_err (s.session.tick))) [
    | inr (e', over) ↦ law (s.session.tick) e (over ∙ (rw (before_retry, over) at h))
    | inl live ↦ law _ e (rw (before_retry, live) at h)
  ]

  module _ (law : EndsByCancel c.net) (fuel : ℕ) where
    -- One round: an attempt, and what the loop makes of it.
    attempt-Settles :
        (s : Sched) (rest : Outcome → Option Outcome)
        → Safe s
        → ((out : Outcome) → Safe out.0 → Settles (rest out))
        → Settles (elim (attempt c fuel i t s) [
          | none ↦ none
          | some out ↦ elim (verdict c i out) [ some done ↦ some done | none ↦ rest out ]
        ])
    attempt-Settles s rest kept more = elim (Option-cases (attempt c fuel i t s)) [
      | inl polling ↦ rw polling (record { settled = λ o e. cc })
      | inr (out, made) ↦ rw made (
          round-Settles out (rest out)
            ((attempt-Ends c aside size_of faults before i t fuel s kept).good out made) (more out))
    ]

    retry_loop-Settles :
        (k : ℕ) (last : Bytes) (s : Sched) → Safe s → Settles (retry_loop c k fuel i t last s)
    unfolding retry_loop
    retry_loop-Settles zero last s safe = settles (gave_up_Settled s _ last safe)
    retry_loop-Settles (suc k) last s safe =
        let ready = before_retry c i last s in
        let kept = before_retry-Safe last s safe in
        elim (Option-cases (ready.1)) [
          | inr (e, over) ↦
              rw (retry_loop, over)
                (settles (over_Settled ready.0 e kept (before_retry-over last s law over)))
          | inl live ↦
              rw (retry_loop, live)
                (attempt-Settles ready.0 (λ out. retry_loop c k fuel i t (error_text c out) out.0)
                  kept (λ out safe'. retry_loop-Settles k (error_text c out) out.0 safe'))
        ]

    pub download_object-Settles : (s : Sched) → Safe s → Settles (download_object c fuel i t s)
    unfolding download_object
    download_object-Settles s safe =
        elim (c.max_retries) as (λ n. c.max_retries ≡ n → Settles (download_object c fuel i t s)) [
          | zero ↦ λ n. rw (download_object, n) (settles (gave_up_Settled s _ [] safe))
          | suc k ↦ λ n.
              rw (download_object, n)
                (attempt-Settles s (λ out. retry_loop c k fuel i t (error_text c out) out.0) safe
                  (λ out safe'. retry_loop-Settles k (error_text c out) out.0 safe'))
        ]
          refl

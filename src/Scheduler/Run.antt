-- ===== src/Scheduler/Run.antt =====
-- internal/downloader/scheduler.go, `Run`: downloads one after another, as a single worker does them,
-- in whatever order the worker comes to them.
use imgpull.Base.{
  ℕ, suc, Option, none, some, List, [], ◌∷◌, get_elem?, Result, ok, err, if◌then◌else◌,
}
use imgpull.Retry.{GoError, is_canceled}
use imgpull.Plan.{Task, is_committed}
use imgpull.Scheduler.{Config, Sched}
use imgpull.Scheduler.Download.{download_object}

-- The errors that the workers send, without the nil ones.
abbrev pub with_error : Result GoError (Unit {0}) → List GoError → List GoError
with_error (ok _) errs = errs
with_error (err e) errs = e ∷ errs

abbrev pub Sent : Type 0
Sent = Sched × List GoError

abbrev after_one : Result GoError (Unit {0}) → Option Sent → Option Sent
after_one r none = none
after_one r (some (s, errs)) = some (s, with_error r errs)

-- The loop over the places of the tasks, in the order in which a worker comes to them. No task is
-- started once the context is over.
unfoldable pub run_each : Config → ℕ → List ℕ → Sched → Option Sent
run_each c fuel [] s = some (s, [])
run_each c fuel (i ∷ rest) s = elim (c.net.ctx_err (s.session.tick)) [
  | some e ↦ some (s, [])
  | none ↦ elim (get_elem? (s.world.plan.objects) i) [
    | none ↦ run_each c fuel rest s
    | some t ↦ elim (download_object c fuel i t s) [
      | none ↦ none
      | some out ↦ after_one out.1 (run_each c fuel rest out.0)
    ]
  ]
]

-- The places of `PendingObjects`, from `n` on.
unfoldable pub pending_places : ℕ → List Task → List ℕ
pending_places n [] = []
pending_places n (t ∷ ts) =
    let rest = pending_places (suc n) ts in if is_committed t.status then rest else n ∷ rest

-- The loop that drops cancellations. `seen`, by which an error value that came before is left out, has
-- no part in whether an error is left.
unfoldable pub reported : List GoError → List GoError
reported [] = []
reported (e ∷ errs) = let rest = reported errs in if is_canceled e then rest else e ∷ rest

-- What `Run` returns: the error of the context, or the errors of the tasks, joined.
pub data RunError : Type 0 where
  over : GoError → RunError
  joined : List GoError → RunError

abbrev pub join_errors : List GoError → Result RunError (Unit {0})
join_errors [] = ok tt
join_errors (e ∷ errs) = err (joined (e ∷ errs))

-- How `Run` ends, with the errors that the workers sent.
pub record RunEnd : Type 0 where
  pub sched : Sched
  pub sent : List GoError
  pub result : Result RunError (Unit {0})

unfoldable pub finish_run : Config → Sent → RunEnd
unfolding reported
finish_run c (s, errs) = record {
  sched = s;
  sent = errs;
  result = elim (c.net.ctx_err (s.session.tick)) [
    | some e ↦ err (over e)
    | none ↦ join_errors (reported errs)
  ];
}

-- `Run`, where `order` is the order in which the pending tasks get their turn.
unfoldable pub run : Config → ℕ → (List ℕ → List ℕ) → Sched → Option RunEnd
unfolding run_each pending_places finish_run
run c fuel order s = elim (pending_places 0 (s.world.plan.objects)) [
  | [] ↦ some (record { sched = s; sent = []; result = ok tt })
  | i ∷ is ↦ elim (run_each c fuel (order (i ∷ is)) s) [
    | none ↦ none
    | some sent ↦ some (finish_run c sent)
  ]
]

-- ===== src/Scheduler/Download.antt =====
-- internal/downloader/scheduler.go: `downloadObject`.
use imgpull.Base.{
  ℕ, zero, suc, ◌||◌, Option, none, some, [], Bytes, is_empty, codes, if◌then◌else◌, ok, err,
}
use imgpull.Retry.{GoError, plain, is_canceled, is_deadline, is_non_retryable}
use imgpull.Plan.{Task}
use imgpull.Plan.Tasks.{mark_retry, mark_failed}
use imgpull.Scheduler.{Config, Sched, Outcome, pass, in_world, time}
use imgpull.Scheduler.Attempt.{attempt}

abbrev pub previous_text : Bytes → Bytes
previous_text text = if is_empty text then codes "previous attempt failed" else text

-- What stands before a repeated attempt: the context is looked at, the retry is recorded, and the
-- backoff is waited for unless the run is canceled.
unfoldable pub before_retry : Config → ℕ → Bytes → Sched → Sched × Option GoError
before_retry c i last s = elim (c.net.ctx_err (s.session.tick)) [
  | some e ↦ (s, some e)
  | none ↦
      let s' = pass c (in_world (mark_retry (time c s) c.deps i (previous_text last)) s) in
      (s', c.net.ctx_err (s'.session.tick))
]

-- What the loop makes of an attempt: `none` is another round.
unfoldable pub verdict : Config → ℕ → Outcome → Option Outcome
verdict c i (s, ok r) = some (s, ok r)
verdict c i (s, err e) =
    if is_canceled e || is_deadline e
    then some (s, err e)
    else if is_non_retryable e
    then some (in_world (mark_failed (time c s) c.deps i (c.aria2.text e)) s, err e)
    else none

abbrev pub error_text : Config → Outcome → Bytes
error_text c (s, ok _) = []
error_text c (s, err e) = c.aria2.text e

-- The loop of `downloadObject` from its second round on, with the attempts left and the text of the
-- last error. The error at the end is made anew.
unfoldable pub retry_loop : Config → ℕ → ℕ → ℕ → Task → Bytes → Sched → Option Outcome
retry_loop c zero fuel i t last s =
    some (in_world (mark_failed (time c s) c.deps i last) s, err (plain last))
retry_loop c (suc k) fuel i t last s =
    let ready = before_retry c i last s in
    elim (ready.1) [
      | some e ↦ some (ready.0, err e)
      | none ↦ elim (attempt c fuel i t ready.0) [
        | none ↦ none
        | some out ↦ elim (verdict c i out) [
          | some done ↦ some done
          | none ↦ retry_loop c k fuel i t (error_text c out) out.0
        ]
      ]
    ]

-- `downloadObject`. `NewScheduler` makes the number of attempts positive.
unfoldable pub download_object : Config → ℕ → ℕ → Task → Sched → Option Outcome
download_object c fuel i t s = elim (c.max_retries) [
  | zero ↦ some (in_world (mark_failed (time c s) c.deps i []) s, err (plain []))
  | suc k ↦ elim (attempt c fuel i t s) [
    | none ↦ none
    | some out ↦ elim (verdict c i out) [
      | some done ↦ some done
      | none ↦ retry_loop c k fuel i t (error_text c out) out.0
    ]
  ]
]

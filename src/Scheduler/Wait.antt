-- ===== src/Scheduler/Wait.antt =====
-- internal/downloader/scheduler.go: `waitTask`. A gid is polled until aria2 reports an end; without
-- a gid the .part file is polled. Fuel counts the polls, and `none` is a poll that goes on.
use imgpull.Base.{
  ℕ, zero, suc, ltb, ◌+◌, true, false, ◌||◌, Option, none, some, [], Bytes, codes, bytes_eq,
  if◌then◌else◌, ok, err,
}
use imgpull.Retry.{GoError, plain, wrapped, retryable_error, classify_aria2_failure}
use imgpull.Plan.{Task}
use imgpull.Plan.Tasks.{mark_range_unsupported, forget_url}
use imgpull.Registry.{Session}
use imgpull.Registry.Auth.{header}
use imgpull.Registry.Client.{probe_range_blind}
use imgpull.Scheduler.{
  Config, Sched, Outcome, DownloadStatus, complete, error, removed, pass, in_world, time, current,
}
use imgpull.Scheduler.Parts.{part_complete, verify_and_commit}

-- `currentHeaders`, as the value of the header; empty for none.
unfoldable pub current_value : Config → Session → Session × Bytes
current_value c s =
    if c.auth
    then (let h = header c.net c.repo s in
        elim (h.1) [ err _ ↦ (h.0, []) | ok value ↦ (h.0, value) ])
    else (s, [])

abbrev pub with_session : Session → Sched → Sched
with_session session s = record s { session = session }

-- What an abort with code 8 does: the source is probed unless it is known to ignore ranges.
unfoldable pub judge_source : Config → ℕ → Task → Sched → Sched
judge_source c i t s =
    let known = (current i t s).range_unsupported || s.session.range_blind in
    let headers = current_value c (s.session) in
    let probed = probe_range_blind c.net (current i t s).url headers.1 headers.0 in
    let s' = if known then s else with_session probed.0 s in
    let blind = known || probed.1 in
    if blind
    then in_world (mark_range_unsupported (time c s') c.deps i) s'
    else in_world (forget_url (time c s') c.deps i) s'

-- The end of a poll that finds the task complete or failed.
unfoldable pub on_complete : Config → ℕ → Task → Sched → Outcome
on_complete c i t s =
    if part_complete t (s.world.disk)
    then verify_and_commit c i t s
    else (s, err (retryable_error (plain [])))

unfoldable pub on_error : Config → ℕ → Task → DownloadStatus → Sched → Outcome
on_error c i t st s = (
  if bytes_eq st.error_code (codes "8") then judge_source c i t s else s,
  err (classify_aria2_failure st.error_code st.error_message),
)

-- `select` on the context and a second's wait: `some` is an abort.
abbrev pub pause : Config → Sched → Option GoError
pause c s = c.net.ctx_err (s.session.tick)

-- The loop with a gid; the number is that of failed polls in a row. `RemoveDownloadResult`, which is called
-- on a completed and on a failed task and whose error is ignored, changes aria2's list alone; it and
-- `stopTask` are left out.
unfoldable pub wait_gid : Config → ℕ → ℕ → Task → Bytes → ℕ → Sched → Option Outcome
wait_gid c zero i t gid failures s = none
wait_gid c (suc fuel) i t gid failures s =
    let s' = pass c s in
    elim (c.net.ctx_err (s.session.tick)) [
      | some e ↦ some (s', err e)
      | none ↦ elim (c.aria2.tell_status (s.session.tick) gid) [
        | err e ↦ elim (ltb 10 (failures + 1)) [
          | true ↦ some (s', err (retryable_error (wrapped e)))
          | false ↦ elim (pause c s') [
            | some a ↦ some (s', err a)
            | none ↦ wait_gid c fuel i t gid (failures + 1) s'
          ]
        ]
        | ok st ↦ elim (st.status) [
          | complete ↦ some (on_complete c i t s')
          | error ↦ some (on_error c i t st s')
          | removed ↦ some (s', err (retryable_error (plain [])))
          | _ ↦ elim (pause c s') [
            | some a ↦ some (s', err a)
            | none ↦ wait_gid c fuel i t gid 0 s'
          ]
        ]
      ]
    ]

-- The loop without a gid.
unfoldable pub wait_file : Config → ℕ → ℕ → Task → Sched → Option Outcome
wait_file c zero i t s = none
wait_file c (suc fuel) i t s = elim (c.net.ctx_err (s.session.tick)) [
  | some e ↦ some (s, err e)
  | none ↦ elim (part_complete t (s.world.disk)) [
    | true ↦ some (verify_and_commit c i t s)
    | false ↦ wait_file c fuel i t (pass c s)
  ]
]

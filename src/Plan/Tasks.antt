-- ===== src/Plan/Tasks.antt =====
-- internal/plan/planner.go: the methods that change one task, and those that count tasks.
use imgpull.Base.{
  ℕ, ◌+◌, ◌%◌, ◌^◌, Bool, true, ◌&&◌, Option, none, some, List, [], ◌∷◌, Bytes, get_elem?,
  if◌then◌else◌,
}
use imgpull.Plan.{
  Task, Plan, World, Deps, Status, pending, committed, failed, is_committed, update_task,
  err_string,
}

-- `x if x != "" else y`
abbrev or_keep : Bytes → Bytes → Bytes
or_keep [] old = old
or_keep (c ∷ s) old = c ∷ s

abbrev or_keep_time : Option ℕ → Option ℕ → Option ℕ
or_keep_time none old = old
or_keep_time (some t) old = some t

abbrev tail_of : List Bytes → List Bytes
tail_of [] = []
tail_of (_ ∷ us) = us

abbrev first_of_list : List Bytes → Option Bytes
first_of_list [] = none
first_of_list (u ∷ _) = some u

module _ (now : ℕ) where
  -- What each method does to the task.
  abbrev pub set_fields : Status → Bytes → Option ℕ → Bytes → Task → Task
  set_fields status url expires gid t = record t {
    status = status;
    url = or_keep url t.url;
    url_expires_at = or_keep_time expires t.url_expires_at;
    gid = or_keep gid t.gid;
    updated_at = now;
  }

  abbrev pub retry_fields : Bytes → Task → Task
  retry_fields message t = record t {
    retries = t.retries + 1;
    last_error = err_string message;
    status = pending;
    gid = [];
    updated_at = now;
  }

  abbrev pub forget_fields : Task → Task
  forget_fields t = record t { url = []; url_expires_at = none; gid = []; updated_at = now }

  abbrev pub range_fields : Task → Task
  range_fields t = record t {
    range_unsupported = true;
    url = [];
    url_expires_at = none;
    gid = [];
    updated_at = now;
  }

  abbrev pub failed_fields : Bytes → Task → Task
  failed_fields message t = record t {
    retries = t.retries + 1;
    last_error = err_string message;
    status = failed;
    gid = [];
    updated_at = now;
  }

  abbrev pub committed_fields : Task → Task
  committed_fields t = record t {
    status = committed;
    gid = [];
    url = [];
    url_expires_at = none;
    last_error = [];
    updated_at = now;
  }

  module _ (deps : Deps) (i : ℕ) where
    -- `SetTask`
    unfoldable pub set_task : Status → Bytes → Option ℕ → Bytes → World → World
    set_task status url expires gid = update_task deps now i (set_fields status url expires gid)

    -- `MarkRetry`
    unfoldable pub mark_retry : Bytes → World → World
    mark_retry message = update_task deps now i (retry_fields message)

    -- `ForgetURL`
    unfoldable pub forget_url : World → World
    forget_url = update_task deps now i forget_fields

    -- `PopAltURL`: nothing is saved when there is no alternate.
    unfoldable pub pop_alt_url : World → World × Option Bytes
    pop_alt_url w = elim (get_elem? (w.plan.objects) i) [
      | none ↦ (w, none)
      | some t ↦ elim t.alt_urls [
        | [] ↦ (w, none)
        | u ∷ us ↦
            (update_task deps now i (λ s. record s { alt_urls = us; updated_at = now }) w, some u)
      ]
    ]

    -- `MarkRangeUnsupported`
    unfoldable pub mark_range_unsupported : World → World
    mark_range_unsupported = update_task deps now i range_fields

    -- `MarkFailed`
    unfoldable pub mark_failed : Bytes → World → World
    mark_failed message = update_task deps now i (failed_fields message)

    -- `markCommittedLocked`
    unfoldable pub mark_committed_locked : World → World
    mark_committed_locked = update_task deps now i committed_fields

-- `PendingObjects`
unfoldable pub pending_objects : List Task → List Task
pending_objects [] = []
pending_objects (t ∷ ts) =
    let rest = pending_objects ts in if is_committed t.status then rest else t ∷ rest

-- An `int64` that only grows from 0, as its bit pattern.
abbrev pub i64 : ℕ → ℕ
i64 n = n % 2 ^ 64

-- The loops of `TotalBytes` and `DoneBytes`.
unfoldable pub total_loop : List Task → ℕ → ℕ
total_loop [] n = n
total_loop (t ∷ ts) n = total_loop ts (if is_committed t.status then n else i64 (n + t.size))

unfoldable pub done_loop : List Task → ℕ → ℕ
done_loop [] n = n
done_loop (t ∷ ts) n = done_loop ts (if is_committed t.status then i64 (n + t.size) else n)

-- `TotalBytes`
unfoldable pub total_bytes : Plan → ℕ
unfolding total_loop
total_bytes p = total_loop p.objects 0

-- `DoneBytes`
unfoldable pub done_bytes : Plan → ℕ
unfolding done_loop
done_bytes p = done_loop p.objects 0

-- `AllCommitted`
unfoldable pub all_committed : List Task → Bool
all_committed [] = true
all_committed (t ∷ ts) = is_committed t.status && all_committed ts

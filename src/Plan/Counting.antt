-- ===== src/Plan/Counting.antt =====
-- `TotalBytes`, `DoneBytes`, `PendingObjects` and `AllCommitted`.
use imgpull.Base.{
  ℕ, length, ◌+◌, ◌≡◌, ◌↔◌, refl, ◌∙◌, true, List, [], ◌∷◌, Bool-cases, inl, inr, arith,
  if◌then◌else◌,
}
use imgpull.Plan.{Task, Plan, is_committed}
use imgpull.Plan.Tasks.{
  pending_objects, i64, total_loop, done_loop, total_bytes, done_bytes, all_committed,
}

-- The bytes of the tasks, without a wrap.
abbrev pub sizes : List Task → ℕ
sizes [] = 0
sizes (t ∷ ts) = t.size + sizes ts

i64-add : (a b : ℕ) → i64 (i64 a + b) ≡ i64 (a + b)
i64-add a b = omega arith

total_loop_lem :
    (ts : List Task) (n : ℕ) → total_loop ts (i64 n) ≡ i64 (n + sizes (pending_objects ts))
unfolding total_loop pending_objects
total_loop_lem [] n = omega arith
total_loop_lem (t ∷ ts) n = elim (Bool-cases (is_committed t.status)) [
  | inl done ↦ rw (total_loop, pending_objects, done) (total_loop_lem ts n)
  | inr open_yet ↦
      rw (total_loop, pending_objects, open_yet, i64-add n t.size)
        (total_loop_lem ts (n + t.size) ∙ omega arith)
]

-- The tasks that are committed.
unfoldable pub committed_objects : List Task → List Task
committed_objects [] = []
committed_objects (t ∷ ts) =
    let rest = committed_objects ts in if is_committed t.status then t ∷ rest else rest

done_loop_lem :
    (ts : List Task) (n : ℕ) → done_loop ts (i64 n) ≡ i64 (n + sizes (committed_objects ts))
unfolding done_loop committed_objects
done_loop_lem [] n = omega arith
done_loop_lem (t ∷ ts) n = elim (Bool-cases (is_committed t.status)) [
  | inl done ↦
      rw (done_loop, committed_objects, done, i64-add n t.size)
        (done_loop_lem ts (n + t.size) ∙ omega arith)
  | inr open_yet ↦ rw (done_loop, committed_objects, open_yet) (done_loop_lem ts n)
]

sizes_split :
    (ts : List Task) → sizes (pending_objects ts) + sizes (committed_objects ts) ≡ sizes ts
unfolding pending_objects committed_objects
sizes_split [] = refl
sizes_split (t ∷ ts) =
    let rest = sizes_split ts in
    elim (Bool-cases (is_committed t.status)) [
      | inl done ↦ rw (pending_objects, committed_objects, done) (omega arith)
      | inr open_yet ↦ rw (pending_objects, committed_objects, open_yet) (omega arith)
    ]

pub length_split :
    (ts : List Task) → length (pending_objects ts) + length (committed_objects ts) ≡ length ts
unfolding pending_objects committed_objects
length_split [] = refl
length_split (t ∷ ts) =
    let rest = length_split ts in
    elim (Bool-cases (is_committed t.status)) [
      | inl done ↦ rw (pending_objects, committed_objects, done) (omega arith)
      | inr open_yet ↦ rw (pending_objects, committed_objects, open_yet) (omega arith)
    ]

pub done_bytes_lem : (p : Plan) → done_bytes p ≡ i64 (sizes (committed_objects p.objects))
unfolding done_bytes
done_bytes_lem p = done_loop_lem p.objects 0 ∙ omega arith

-- `TotalBytes` is the sum of the sizes of what `PendingObjects` returns, and with `DoneBytes` it
-- makes up the sizes of all tasks, in 64-bit arithmetic that wraps around.
pub total_bytes_lem :
    (p : Plan)
    → (total_bytes p ≡ i64 (sizes (pending_objects p.objects)))
      × (i64 (total_bytes p + done_bytes p) ≡ i64 (sizes p.objects))
unfolding total_bytes done_bytes
total_bytes_lem p =
    let a = total_loop_lem p.objects 0 in
    let b = done_loop_lem p.objects 0 in
    let s = sizes_split p.objects in (a ∙ omega arith, omega arith)

-- `AllCommitted` answers true exactly when `PendingObjects` is empty.
pub all_committed_lem : (ts : List Task) → (all_committed ts ≡ true) ↔ (pending_objects ts ≡ [])
unfolding all_committed pending_objects
all_committed_lem [] = (λ _. refl, λ _. refl)
all_committed_lem (t ∷ ts) =
    let rest = all_committed_lem ts in
    elim (Bool-cases (is_committed t.status)) [
      | inl done ↦ rw (all_committed, pending_objects, done) rest
      | inr open_yet ↦ rw (all_committed, pending_objects, open_yet) (λ e. cc, λ e. cc)
    ]

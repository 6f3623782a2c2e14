-- ===== src/Progress/Rows.antt =====
-- internal/downloader/progress.go: how many rows the panel has, and that it never panics.
use imgpull.Base.{
  ℕ, leb, ◌+◌, ◌≤◌, ◌≡◌, inl, inr, true, Option, some, List, [], ◌∷◌, Bytes, codes, bytes_eq,
  length, Bool-cases, refl, arith,
}
use imgpull.Progress.{Format, ObjView, Snapshot}
use imgpull.Progress.Size.{human_size-total}
use imgpull.Progress.Lines.{
  ◌>>=◌, is_positive, bar, sum_speed, speed_text, done_text, obj_line, obj_lines, head_line,
  frame_lines,
}

-- The part of a bar that is filled is never longer than the bar.
abbrev pub Fits : Format → Type 0
Fits f = (done total width : ℕ) → f.cells done total width ≤ width

abbrev Prints {ℓ} : {A : Type ℓ} → Option A → Type ℓ
Prints {A} o = (a : A) × (o ≡ some a)

>>=-Prints {ℓ κ} :
    {A : Type ℓ} {B : Type κ} (o : Option A) (next : A → Option B)
    → Prints o
    → ((a : A) → Prints (next a))
    → Prints (o >>= next)
>>=-Prints o next (a, printed) later = rw printed (later a)

module _ (f : Format) (fits : Fits f) where
  bar-Prints : (done total width : ℕ) → Prints (bar f done total width)
  unfolding bar
  bar-Prints done total width =
      let short : leb (f.cells done total width) width ≡ true =
        ground (arith, fits done total width) in
      rw short (_, refl)

  speed_text-Prints : (separator : Bytes) (speed : ℕ) → Prints (speed_text f separator speed)
  unfolding speed_text
  speed_text-Prints separator speed = elim (Bool-cases (is_positive speed)) [
    | inr still ↦ rw (speed_text, still) ([], refl)
    | inl moving ↦
        rw (speed_text, moving) (>>=-Prints _ _ (human_size-total f speed) (λ s. (_, refl)))
  ]

  done_text-Prints : (o : ObjView) → Prints (done_text f o)
  unfolding done_text
  done_text-Prints o = elim (Bool-cases (is_positive o.total)) [
    | inr unknown ↦ rw (done_text, unknown) (human_size-total f o.done)
    | inl known ↦
        rw (done_text, known)
          (>>=-Prints _ _ (bar-Prints o.done o.total 20) (λ strip.
            >>=-Prints _ _ (human_size-total f o.done)
              (λ done. >>=-Prints _ _ (human_size-total f o.total) (λ total. (_, refl)))))
  ]

  obj_line-Prints : (o : ObjView) → Prints (obj_line f o)
  unfolding obj_line
  obj_line-Prints o = elim (Bool-cases (bytes_eq o.state (codes "queue"))) [
    | inl queue ↦ rw (obj_line, queue) (_, refl)
    | inr other ↦ elim (Bool-cases (bytes_eq o.state (codes "verify"))) [
      | inl verify ↦
          rw (obj_line, other, verify)
            (>>=-Prints _ _ (bar-Prints 1 1 20)
              (λ strip. >>=-Prints _ _ (human_size-total f o.total) (λ total. (_, refl))))
      | inr down ↦
          rw (obj_line, other, down)
            (>>=-Prints _ _ (done_text-Prints o) (λ done.
              >>=-Prints _ _ (speed_text-Prints (codes "  ") o.speed) (λ speed. (_, refl))))
    ]
  ]

  -- One row for every object.
  abbrev Rows : ℕ → Option (List Bytes) → Type 0
  Rows n o = (ls : List Bytes) × (o ≡ some ls) × (length ls ≡ n)

  obj_lines-Rows : (os : List ObjView) → Rows (length os) (obj_lines f os)
  unfolding obj_lines
  obj_lines-Rows [] = ([], refl, refl)
  obj_lines-Rows (o ∷ os) =
      let (l, printed) = obj_line-Prints o in
      let (ls, rest, count) = obj_lines-Rows os in
      (l ∷ ls, rw (obj_lines, printed, rest) refl, rw count refl)

  -- The panel never panics, and has one row and one more for each active object, if no bar is
  -- filled beyond its width.
  pub frame_lines_lem : (s : Snapshot) → Rows (length s.active + 1) (frame_lines f s)
  unfolding frame_lines
  frame_lines_lem s =
      let (done, done_printed) = human_size-total f s.done_bytes in
      let (total, total_printed) = human_size-total f s.total_bytes in
      let (speed, speed_printed) = speed_text-Prints (codes " | ") (sum_speed s.active) in
      let (rows, rows_printed, count) = obj_lines-Rows s.active in
      (
        head_line f s done total speed ∷ rows,
        rw (frame_lines, done_printed, total_printed, speed_printed, rows_printed) refl,
        omega (arith, count),
      )

-- ===== src/Progress/Lines.antt =====
-- internal/downloader/progress.go: frameLines and what it is made of. `none` is a panic. Texts are
-- kept as code points, also where they are not ASCII.
use imgpull.Base.{
  ℕ, zero, suc, ltb, leb, ◌+◌, ◌-◌, ◌*◌, ◌/◌, ◌%◌, ◌^◌, ◌==◌, Bool, true, false, not, ◌&&◌, Option,
  none, some, List, [], ◌∷◌, ◌++◌, Bytes, codes, bytes_eq, length, decimal, int64_cutoff,
  if◌then◌else◌,
}
use imgpull.Plan.Tasks.{i64}
use imgpull.Progress.{Format, ObjView, Snapshot}
use imgpull.Progress.Size.{human_size}

infixl 5 ◌>>=◌
abbrev pub ◌>>=◌ {ℓ κ} : {A : Type ℓ} {B : Type κ} → Option A → (A → Option B) → Option B
none >>= next = none
some a >>= next = next a

-- `<` and `0 <` on `int64`s, as bit patterns.
abbrev pub int64_lt : ℕ → ℕ → Bool
int64_lt a b = ltb ((a + int64_cutoff) % 2 ^ 64) ((b + int64_cutoff) % 2 ^ 64)

abbrev pub is_positive : ℕ → Bool
is_positive n = ltb 0 n && ltb n int64_cutoff

-- `%d` of `a / b` for a positive `b`; Go cuts the fraction off.
unfoldable pub quotient_text : ℕ → ℕ → Bytes
quotient_text a b =
    let size = (2 ^ 64 - a) / b in
    if ltb a int64_cutoff
    then decimal (a / b)
    else if size == 0
    then decimal 0
    else b'-' ∷ decimal size

-- `sumSpeed`
unfoldable pub sum_speed : List ObjView → ℕ
sum_speed [] = 0
sum_speed (o ∷ os) = i64 (o.speed + sum_speed os)

-- `strings.Repeat`
abbrev pub repeat : Bytes → ℕ → Bytes
repeat s zero = []
repeat s (suc n) = s ++ repeat s n

-- `bar`, at the quotient of two numbers. A negative count of `strings.Repeat` panics.
unfoldable pub bar : Format → ℕ → ℕ → ℕ → Option Bytes
bar f done total width =
    let full = f.cells done total width in
    if leb full width
    then some (repeat (codes "█") full ++ repeat (codes "░") (width - full))
    else none

-- The rest of a line: a speed, if it is positive.
unfoldable pub speed_text : Format → Bytes → ℕ → Option Bytes
unfolding human_size
speed_text f separator speed = elim (is_positive speed) [
  | false ↦ some []
  | true ↦ do s ← human_size f speed; some (separator ++ (s ++ codes "/s"))
]

-- What stands between the label and the speed of an object that is being downloaded.
unfoldable pub done_text : Format → ObjView → Option Bytes
unfolding human_size bar
done_text f o = elim (is_positive o.total) [
  | false ↦ human_size f o.done
  | true ↦ do
    strip ← bar f o.done o.total 20
    done ← human_size f o.done
    total ← human_size f o.total
    some (
        b'['
        ∷ (strip
            ++ (codes "] "
                ++ (f.percent o.done o.total ++ (codes "%  " ++ (done ++ b'/' ∷ total))))))
]

-- `objLine`
unfoldable pub obj_line : Format → ObjView → Option Bytes
unfolding human_size bar done_text speed_text
obj_line f o = elim (bytes_eq o.state (codes "queue")) [
  | true ↦ some (o.label ++ codes "  preparing… (resolving URL / waiting for aria2)")
  | false ↦ elim (bytes_eq o.state (codes "verify")) [
    | true ↦ do
      strip ← bar f 1 1 20
      total ← human_size f o.total
      some (
          o.label
          ++ (codes "  ["
              ++ (strip
                  ++ (codes "] 100%  "
                      ++ (total ++ b'/' ∷ (total ++ codes "  verifying SHA-256…"))))))
    | false ↦ do
      done ← done_text f o
      speed ← speed_text f (codes "  ") o.speed
      some (o.label ++ (codes "  " ++ (done ++ speed)))
  ]
]

unfoldable pub obj_lines : Format → List ObjView → Option (List Bytes)
unfolding obj_line
obj_lines f [] = some []
obj_lines f (o ∷ os) = let rest = obj_lines f os in do l ← obj_line f o; ls ← rest; some (l ∷ ls)

-- The parts of the first line that stand under a condition.
abbrev pub share_text : Snapshot → Bytes
share_text s =
    if is_positive s.total_bytes && not (int64_lt s.total_bytes s.done_bytes)
    then codes " (" ++ (quotient_text (i64 (100 * s.done_bytes)) s.total_bytes ++ codes "%)")
    else []

abbrev pub queued_text : Snapshot → Bytes
queued_text s =
    if ltb (s.done_objects + length s.active) s.total_objects
    then codes " | "
      ++ (decimal (s.total_objects - s.done_objects - length s.active) ++ codes " queued")
    else []

abbrev pub elapsed_text : Format → Snapshot → Bytes
elapsed_text f s = if ltb 0 s.elapsed then codes " | " ++ f.duration s.elapsed else []

-- The first line, from the sizes that it shows.
abbrev pub head_line : Format → Snapshot → Bytes → Bytes → Bytes → Bytes
head_line f s done total speed =
    decimal s.done_objects
    ++ (b'/'
        ∷ (decimal s.total_objects
            ++ (codes " objects | "
                ++ (done
                    ++ (codes " / "
                        ++ (total
                            ++ (share_text s
                                ++ (speed
                                    ++ (codes " | "
                                        ++ (decimal (length s.active)
                                            ++ (codes " active"
                                                ++ (queued_text s ++ elapsed_text f s))))))))))))

-- `frameLines`
unfoldable pub frame_lines : Format → Snapshot → Option (List Bytes)
unfolding human_size speed_text sum_speed obj_lines quotient_text
frame_lines f s = do
  done ← human_size f s.done_bytes
  total ← human_size f s.total_bytes
  speed ← speed_text f (codes " | ") (sum_speed s.active)
  rows ← obj_lines f s.active
  some (head_line f s done total speed ∷ rows)

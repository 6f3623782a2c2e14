-- ===== src/Progress.antt =====
-- internal/downloader/progress.go: the panel of the live downloads and its state.
pub mod Size
pub mod Lines
pub mod Rows
pub mod Screen
pub mod Collect
use imgpull.Base.{ℕ, zero, suc, Bool, true, false, Bytes, List, [], ◌∷◌, ◌++◌, codes}

-- `ObjView`. Numbers of bytes are `int64`s, as their bit patterns.
pub record ObjView : Type 0 where
  pub label : Bytes
  pub state : Bytes
  pub done : ℕ
  pub total : ℕ
  pub speed : ℕ

-- `Snapshot`
pub record Snapshot : Type 0 where
  pub done_objects : ℕ
  pub total_objects : ℕ
  pub done_bytes : ℕ
  pub total_bytes : ℕ
  pub active : List ObjView
  pub elapsed : ℕ

-- What the lines take from package fmt and the floats: `%.1f` of the quotient of two numbers,
-- `%3.0f` of a hundred times it, `int(frac * float64(width))` of the quotient cut to [0, 1], and the
-- text of a duration.
pub record Format : Type 0 where
  pub tenths : ℕ → ℕ → Bytes
  pub percent : ℕ → ℕ → Bytes
  pub cells : ℕ → ℕ → ℕ → ℕ
  pub duration : ℕ → Bytes

-- What the program writes to a terminal: a line, or the sequence that goes up one row and clears it.
pub data Output : Type 0 where
  line : Bytes → Output
  erase_row : Output

-- `Progress`: whether stderr is a terminal, and how many rows of the panel are on it.
pub record Panel : Type 0 where
  pub tty : Bool
  pub drawn : ℕ

abbrev pub erasing : ℕ → List Output
erasing zero = []
erasing (suc n) = erase_row ∷ erasing n

abbrev pub lines : List Bytes → List Output
lines [] = []
lines (l ∷ ls) = line l ∷ lines ls

-- `clearLocked`
unfoldable pub clear_locked : Panel → Panel × List Output
clear_locked p = (record p { drawn = 0 }, erasing p.drawn)

abbrev pub log_prefix : Bytes
log_prefix = codes "imgpull: "

-- `Logf`, on the formatted message. Package log has the same prefix.
unfoldable pub logf : Bytes → Panel → Panel × List Output
unfolding clear_locked
logf message p = elim p.tty [
  | false ↦ (p, line (log_prefix ++ message) ∷ [])
  | true ↦
      let cleared = clear_locked p in (cleared.0, cleared.1 ++ line (log_prefix ++ message) ∷ [])
]

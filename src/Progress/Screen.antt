-- ===== src/Progress/Screen.antt =====
-- internal/downloader/progress.go: the terminal under any sequence of Logf and Render.
use imgpull.Base.{◌≡◌, true, false, Option, none, some, List, [], ◌∷◌, ◌++◌, Bytes, length}
use imgpull.Progress.{
  Format, Snapshot, Output, line, erase_row, Panel, lines, clear_locked, log_prefix, logf,
}
use imgpull.Progress.Lines.{frame_lines}

-- `Render`
unfoldable pub render : Format → Snapshot → Panel → Option (Panel × List Output)
unfolding clear_locked frame_lines
render f snap p = elim p.tty [
  | false ↦ some (p, [])
  | true ↦ elim (frame_lines f snap) [
    | none ↦ none
    | some rows ↦ some (record p { drawn = length rows }, (clear_locked p).1 ++ lines rows)
  ]
]

pub data Call : Type 0 where
  log_call : Bytes → Call
  render_call : Snapshot → Call

unfoldable pub one_call : Format → Call → Panel → Option (Panel × List Output)
unfolding logf render
one_call f (log_call message) p = some (logf message p)
one_call f (render_call snap) p = render f snap p

-- A terminal: its lines above the cursor, the lowest first.
abbrev pub put_out : List Output → List Bytes → List Bytes
put_out [] screen = screen
put_out (line l ∷ out) screen = put_out out (l ∷ screen)
put_out (erase_row ∷ out) [] = put_out out []
put_out (erase_row ∷ out) (l ∷ screen) = put_out out screen

-- The calls one after another, on a panel and a terminal; `none` is a panic.
unfoldable pub run_calls : Format → List Call → Panel → List Bytes → Option (Panel × List Bytes)
unfolding one_call
run_calls f [] p screen = some (p, screen)
run_calls f (c ∷ cs) p screen = elim (one_call f c p) [
  | none ↦ none
  | some (p', out) ↦ run_calls f cs p' (put_out out screen)
]

-- What the user is meant to see: the event lines so far, the newest first, and below them the rows of
-- the last panel, until an event comes.
pub record View : Type 0 where
  pub events : List Bytes
  pub rows : List Bytes

-- `xs` turned around in front of `ys`.
abbrev pub rev_onto : List Bytes → List Bytes → List Bytes
rev_onto [] ys = ys
rev_onto (x ∷ xs) ys = rev_onto xs (x ∷ ys)

unfoldable pub view_call : Format → Call → View → Option View
view_call f (log_call message) v =
    some (record { events = (log_prefix ++ message) ∷ v.events; rows = [] })
view_call f (render_call snap) v = elim (frame_lines f snap) [
  | none ↦ none
  | some rows ↦ some (record v { rows = rows })
]

unfoldable pub view_calls : Format → List Call → View → Option View
unfolding view_call
view_calls f [] v = some v
view_calls f (c ∷ cs) v = elim (view_call f c v) [ none ↦ none | some v' ↦ view_calls f cs v' ]

-- The panel and the terminal show the view.
pub record Shows (p : Panel) (screen : List Bytes) (v : View) : Type 0 where
  pub interactive : p.tty ≡ true
  pub counted : p.drawn ≡ length v.rows
  pub shown : screen ≡ rev_onto v.rows v.events

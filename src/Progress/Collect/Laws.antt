-- ===== src/Progress/Collect/Laws.antt =====
-- internal/downloader/progress.go: what a snapshot shows of the plan and the live objects.
use mathlib.Core.List.Perm
use mathlib.Core.List.{Perm}
use imgpull.Base.{ℕ, ◌+◌, ◌≡◌, false, List, [], ◌∷◌}
use imgpull.Plan.{Plan}
use imgpull.Progress.{ObjView}
use imgpull.Progress.Collect.{bytes_lt}

-- No label stands before a smaller one.
abbrev pub AfterIt : ObjView → List ObjView → Type 0
AfterIt v [] = Unit
AfterIt v (w ∷ ws) = bytes_lt w.label v.label ≡ false

abbrev pub IsOrdered : List ObjView → Type 0
IsOrdered [] = Unit
IsOrdered (v ∷ vs) = AfterIt v vs × IsOrdered vs

-- The bytes done of the rows, without a wrap.
abbrev pub dones : List ObjView → ℕ
dones [] = 0
dones (o ∷ os) = o.done + dones os

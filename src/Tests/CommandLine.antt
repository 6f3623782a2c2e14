-- ===== src/Tests/CommandLine.antt =====
-- The command line at concrete arguments.
use imgpull.Base.{◌≡◌, refl, false, List, [], ◌∷◌, ◌++◌, Bytes, codes, All, bytes_eq}
use imgpull.Args.{terminator, is_flag, split_positional}
use imgpull.Args.Laws.{Interleaved, IsOther, split_positional_lem, split_positional-append}

abbrev before : List Bytes
before = codes "-kV" ∷ codes "--platform" ∷ codes "linux/arm64" ∷ codes "alpine" ∷ []

before-IsOther : All IsOther before
unfolding bytes_eq
before-IsOther = (refl, (refl, (refl, (refl, tt))))

split_positional_lem_example :
    Interleaved (split_positional before).0 (split_positional before).1 before
    × All (λ a. is_flag a ≡ false) (split_positional before).0
split_positional_lem_example = split_positional_lem before

split_positional-append_example : split_positional (before ++ terminator ∷ codes "busybox" ∷ []) ≡ (
  (split_positional before).0,
  (split_positional before).1 ++ terminator ∷ codes "busybox" ∷ [],
)
split_positional-append_example =
    split_positional-append before (codes "busybox" ∷ []) before-IsOther

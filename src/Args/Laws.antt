-- ===== src/Args/Laws.antt =====
-- What the reading of the command line keeps apart, and what `--` does.
use imgpull.Base.{
  ◌≡◌, refl, sym, false, not, ◌&&◌, List, [], ◌∷◌, ◌++◌, append_assoc, Bytes, codes, bytes_eq,
  bytes_eq_self, has_prefix, All, Bool-cases, inl, inr,
}
use imgpull.Args.{
  terminator, value_flag, is_flag, trim_dashes, split_positional, expand_one, expand_short_flags,
}

abbrev pub IsOther : Bytes → Type 0
IsOther a = bytes_eq a terminator ≡ false

-- The third list has the elements of the other two, each once, with either's own order kept.
pub data Interleaved : List Bytes → List Bytes → List Bytes → Type 0 where
  done : Interleaved [] [] []
  left :
      {xs ys zs : List Bytes} (a : Bytes) → Interleaved xs ys zs → Interleaved (a ∷ xs) ys (a ∷ zs)
  right :
      {xs ys zs : List Bytes} (a : Bytes) → Interleaved xs ys zs → Interleaved xs (a ∷ ys) (a ∷ zs)

all_right : (zs : List Bytes) → Interleaved [] zs zs
all_right [] = done
all_right (z ∷ zs) = right z (all_right zs)

-- `splitPositional` loses and makes up no argument and keeps the order on either side: the arguments are
-- the positional ones and the rest, interleaved; and no positional one is a flag.
pub split_positional_lem :
    (args : List Bytes)
    → Interleaved (split_positional args).0 (split_positional args).1 args
      × All (λ a. is_flag a ≡ false) (split_positional args).0
unfolding split_positional
split_positional_lem [] = (done, tt)
split_positional_lem (a ∷ []) = elim (Bool-cases (bytes_eq a terminator)) [
  | inl ending ↦ rw (split_positional, ending) (right a done, tt)
  | inr other ↦ elim (Bool-cases (is_flag a)) [
    | inl flag ↦ rw (split_positional, other, flag) (right a done, tt)
    | inr plain ↦ rw (split_positional, other, plain) (left a done, (plain, tt))
  ]
]
split_positional_lem (a ∷ b ∷ args) =
    let (n, ns) = split_positional_lem (b ∷ args) in
    let (m, ms) = split_positional_lem args in
    elim (Bool-cases (bytes_eq a terminator)) [
      | inl ending ↦ rw (split_positional, ending) (all_right (a ∷ b ∷ args), tt)
      | inr other ↦ elim (Bool-cases (is_flag a)) [
        | inr plain ↦ rw (split_positional, other, plain) (left a n, (plain, ns))
        | inl flag ↦
            elim (Bool-cases (value_flag (trim_dashes a) && not (has_prefix b (codes "-")))) [
              | inl takes ↦ rw (split_positional, other, flag, takes) (right a (right b m), ms)
              | inr alone ↦ rw (split_positional, other, flag, alone) (right a n, ns)
            ]
      ]
    ]

-- `expandShortFlags` expands what stands before the first `--` and leaves it and the rest alone.
pub expand_short_flags-append :
    (xs bs : List Bytes)
    → All IsOther xs
    → expand_short_flags (xs ++ terminator ∷ bs) ≡ expand_short_flags xs ++ terminator ∷ bs
unfolding expand_short_flags
expand_short_flags-append [] bs h = rw (expand_short_flags, bytes_eq_self terminator) refl
expand_short_flags-append (a ∷ xs) bs (ha, hxs) =
    rw (expand_short_flags, ha, expand_short_flags-append xs bs hxs)
      (sym (append_assoc (expand_one a) (expand_short_flags xs) (terminator ∷ bs)))

split_terminator : (bs : List Bytes) → split_positional (terminator ∷ bs) ≡ ([], terminator ∷ bs)
unfolding split_positional bytes_eq
split_terminator [] = refl
split_terminator (b ∷ bs) = refl

-- `splitPositional` takes no positional argument from behind the first `--`.
pub split_positional-append :
    (xs bs : List Bytes)
    → All IsOther xs
    → split_positional (xs ++ terminator ∷ bs)
      ≡ ((split_positional xs).0, (split_positional xs).1 ++ terminator ∷ bs)
unfolding split_positional has_prefix
split_positional-append [] bs h = split_terminator bs
split_positional-append (a ∷ []) bs (other, _) = elim (Bool-cases (is_flag a)) [
  | inr plain ↦ rw (split_positional, other, plain, split_terminator bs) refl
  | inl flag ↦ elim (Bool-cases (value_flag (trim_dashes a))) [
    | inl takes ↦ rw (split_positional, other, flag, takes, split_terminator bs) refl
    | inr alone ↦ rw (split_positional, other, flag, alone, split_terminator bs) refl
  ]
]
split_positional-append (a ∷ b ∷ xs) bs (other, (hb, hxs)) =
    let n = split_positional-append (b ∷ xs) bs (hb, hxs) in
    let m = split_positional-append xs bs hxs in
    elim (Bool-cases (is_flag a)) [
      | inr plain ↦ rw (split_positional, other, plain, n) refl
      | inl flag ↦
          elim (Bool-cases (value_flag (trim_dashes a) && not (has_prefix b (codes "-")))) [
            | inl takes ↦ rw (split_positional, other, flag, takes, m) refl
            | inr alone ↦ rw (split_positional, other, flag, alone, n) refl
          ]
    ]

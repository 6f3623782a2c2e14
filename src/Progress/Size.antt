-- ===== src/Progress/Size.antt =====
-- internal/fsx/fsx.go: HumanSize.
use imgpull.Base.{
  ◌-◌, ℕ, zero, suc, ltb, leb, ◌+◌, ◌*◌, ◌/◌, ◌^◌, ◌≤◌, ◌<◌, ◌≡◌, inl, inr, true, false, ◌||◌,
  Option, none, some, ◌∷◌, ◌++◌, Bytes, codes, get_elem?, int64_text, int64_cutoff, decimal,
  Bool-cases, Option-cases, ◌⊎◌, refl, arith, if◌then◌else◌,
}
use imgpull.Progress.{Format}

-- The loop of `HumanSize` over `m`, `div` and `exp`.
unfoldable pub unit_loop : ℕ → ℕ → ℕ → ℕ → ℕ × ℕ
unit_loop zero m div exp = (div, exp)
unit_loop (suc fuel) m div exp = elim (ltb m 1024) [
  | true ↦ (div, exp)
  | false ↦ unit_loop fuel (m / 1024) (div * 1024) (exp + 1)
]

-- The divisor and the index of the unit at `n` bytes.
unfoldable pub unit_of : ℕ → ℕ × ℕ
unfolding unit_loop
unit_of n = unit_loop 7 (n / 1024) 1024 0

abbrev pub unit_letters : Bytes
unit_letters = codes "KMGTPE"

-- `HumanSize` at an `int64`; `none` is a panic on the index.
unfoldable pub human_size : Format → ℕ → Option Bytes
unfolding unit_of int64_text
human_size f n =
    let unit = unit_of n in
    if ltb n 1024 || leb int64_cutoff n
    then some (int64_text n ++ codes " B")
    else elim (get_elem? unit_letters unit.1) [
      | none ↦ none
      | some letter ↦ some (f.tenths n unit.0 ++ (b' ' ∷ letter ∷ codes "iB"))
    ]

unit_of_lem :
    (n : ℕ)
    → 1024 ≤ n
    → n < int64_cutoff
    → ((unit_of n).0 ≤ n)
      × (n < 1024 * (unit_of n).0)
      × ((unit_of n).1 < 6)
      × ((unit_of n).0 ≡ 1024 ^ suc (unit_of n).1)
unfolding unit_of unit_loop
unit_of_lem n large fits = ground arith

letter_of : (k : ℕ) → k < 6 → (letter : ℕ) × (get_elem? unit_letters k ≡ some letter)
letter_of k h = elim (Option-cases (get_elem? unit_letters k)) [
  | inl missing ↦ absurd (ground arith)
  | inr found ↦ found
]

-- A number of bytes below a KiB, a number in the unit of which there are between 1 and 1023, or, behind
-- a minus sign, the number of bytes of a negative `int64`.
abbrev pub HumanSized : Format → ℕ → Type 0
HumanSized f n =
    ((n < 1024) × (human_size f n ≡ some (decimal n ++ codes " B")))
    ⊎ (((k : ℕ) × (letter : ℕ) × (get_elem? (codes "KMGTPE") k ≡ some letter)
          × (1024 ^ suc k ≤ n)
          × (n < 1024 * 1024 ^ suc k)
          × (n < int64_cutoff)
          × (human_size f n ≡ some (f.tenths n (1024 ^ suc k) ++ (b' ' ∷ letter ∷ codes "iB"))))
        ⊎ ((int64_cutoff ≤ n)
            × (human_size f n ≡ some (b'-' ∷ decimal (2 ^ 64 - n) ++ codes " B"))))

-- HumanSize never panics, at no `int64`, which is given as its bit pattern. From a KiB on it picks the
-- unit of which there are between 1 and 1023 in the number; below a KiB, and at a negative number, it
-- prints the number of bytes.
pub human_size_lem : (f : Format) (n : ℕ) → n < 2 ^ 64 → HumanSized f n
unfolding human_size int64_text
human_size_lem f n fits = elim (Bool-cases (ltb n 1024)) [
  | inl small ↦ inl (ground arith, ground arith)
  | inr large ↦ elim (Bool-cases (leb int64_cutoff n)) [
    | inl negative ↦
        let sign : ltb n int64_cutoff ≡ false = ground arith in
        inr (inr (ground arith, rw (human_size, large, negative, int64_text, sign) refl))
    | inr not_negative ↦
        let (above, below, few, power) = unit_of_lem n (ground arith) (ground arith) in
        let (letter, found) = letter_of (unit_of n).1 few in
        inr (
          inl (
            (unit_of n).1,
            letter,
            found,
            rw power at above,
            rw power at below,
            ground arith,
            rw (large, not_negative, found, power) refl,
          ))
  ]
]

pub human_size-total : (f : Format) (n : ℕ) → (t : Bytes) × (human_size f n ≡ some t)
unfolding human_size
human_size-total f n = elim (Bool-cases (ltb n 1024 || leb int64_cutoff n)) [
  | inl plain ↦ (int64_text n ++ codes " B", rw plain refl)
  | inr unit ↦
      let (_, _, few, _) = unit_of_lem n (ground arith) (ground arith) in
      let (letter, found) = letter_of (unit_of n).1 few in
      (f.tenths n (unit_of n).0 ++ (b' ' ∷ letter ∷ codes "iB"), rw (unit, found) refl)
]

-- ===== src/Base/Decimal.antt =====
-- Numbers in base ten: the verb `%d` of package `fmt`, and `strconv.ParseInt` at 64 bits.
use Prim.Native.Nat.{ℕ, zero, suc, ◌+◌, ◌-◌, ◌*◌, ◌/◌, ◌%◌, ◌^◌, ◌<◌, ◌≤◌}
use mathlib.Core.Path.{◌≡◌}
use mathlib.Core.Logic.{inl, inr}
use mathlib.Core.Bool.{Bool, true, false, not, ◌&&◌}
use mathlib.Core.List.{[], ◌∷◌}
use mathlib.Core.Option.{Option, none, some}
use native.Mathlib.Omega.{arith}
use imgpull.Base.Tests.{◌==◌, leb, ltb, if◌then◌else◌, Bool-cases}
use imgpull.Base.Errors.{Result, ok, err}
use imgpull.Base.Texts.{Bytes}

-- The digits of `n` in front of `rest`, the last digit first.
unfoldable pub digits_before : ℕ → ℕ → Bytes → Bytes
digits_before zero n rest = rest
digits_before (suc fuel) n rest = elim (n / 10 == 0) [
  | true ↦ (48 + n % 10) ∷ rest
  | false ↦ digits_before fuel (n / 10) ((48 + n % 10) ∷ rest)
]

-- `fmt.Sprintf("%d", n)`, at a number that is not negative. There are no more digits than `n + 1`.
unfoldable pub decimal : ℕ → Bytes
unfolding digits_before
decimal n = digits_before (suc n) n []

pub data ℤ : Type 0 where
  pos negsuc : ℕ → ℤ

-- `strconv.ErrSyntax` and `strconv.ErrRange`
pub data NumError : Type 0 where
  syntax range : NumError

abbrev pub max_uint64 : ℕ
max_uint64 = 18446744073709551615

-- `1 << 63`
abbrev pub int64_cutoff : ℕ
int64_cutoff = 9223372036854775808

-- `%d` at an `int64`, given as its bit pattern.
unfoldable pub int64_text : ℕ → Bytes
unfolding decimal
int64_text n = if ltb n int64_cutoff then decimal n else b'-' ∷ decimal (2 ^ 64 - n)

-- The bit pattern of an `int64`.
abbrev pub to_bits : ℤ → ℕ
to_bits (pos n) = n
to_bits (negsuc n) = 2 ^ 64 - suc n

abbrev pub is_digit : ℕ → Bool
is_digit c = leb 48 c && leb c 57

-- The loop of `ParseUint`, which stops at the first byte that is no digit or overflows.
unfoldable pub scan_digits : ℕ → Bytes → Result NumError ℕ
scan_digits n [] = ok n
scan_digits n (c ∷ s) =
    let next = n * 10 + (c - 48) in
    let rest = scan_digits next s in
    if not (is_digit c) then err syntax else if ltb max_uint64 next then err range else rest

unfoldable pub parse_uint : Bytes → Result NumError ℕ
unfolding scan_digits
parse_uint [] = err syntax
parse_uint (c ∷ s) = scan_digits 0 (c ∷ s)

-- Whether there is a minus sign, and what follows the sign.
unfoldable pub split_sign : Bytes → Bool × Bytes
split_sign [] = (false, [])
split_sign (c ∷ s) =
    if c == b'+' then (false, s) else if c == b'-' then (true, s) else (false, c ∷ s)

abbrev pub negate : ℕ → ℤ
negate zero = pos zero
negate (suc n) = negsuc n

-- A value out of range is cut to the end of the range; one of no number is 0.
unfoldable pub signed : Bool → Result NumError ℕ → ℤ × Option NumError
signed minus (err syntax) = (pos 0, some syntax)
signed false (err range) = (pos (int64_cutoff - 1), some range)
signed true (err range) = (negate int64_cutoff, some range)
signed false (ok n) =
    if ltb n int64_cutoff then (pos n, none) else (pos (int64_cutoff - 1), some range)
signed true (ok n) =
    if leb n int64_cutoff then (negate n, none) else (negate int64_cutoff, some range)

-- `strconv.ParseInt(s, 10, 64)`
unfoldable pub parse_int : Bytes → ℤ × Option NumError
unfolding split_sign signed parse_uint
parse_int [] = (pos 0, some syntax)
parse_int (c ∷ s) = let parts = split_sign (c ∷ s) in signed parts.0 (parse_uint parts.1)

-- Scanning the digits of `n` gives `n`.
scan_digits-digits_before :
    (fuel n : ℕ) (rest : Bytes)
    → n < fuel
    → n ≤ max_uint64
    → scan_digits 0 (digits_before fuel n rest) ≡ scan_digits n rest
unfolding digits_before scan_digits
scan_digits-digits_before zero n rest small fits = absurd (omega arith)
scan_digits-digits_before (suc fuel) n rest small fits = elim (Bool-cases (n / 10 == 0)) [
  | inl last ↦ rw (last, digits_before) (ground arith)
  | inr more ↦ ground (arith, scan_digits-digits_before fuel (n / 10) ((48 + n % 10) ∷ rest))
]

abbrev Starts : Bytes → Type 0
Starts [] = false ≡ true
Starts (c ∷ s) = is_digit c ≡ true

digits_before-Starts :
    (fuel n : ℕ) (rest : Bytes) → Starts rest → Starts (digits_before fuel n rest)
unfolding digits_before
digits_before-Starts zero n rest h = h
digits_before-Starts (suc fuel) n rest h =
    let digit : is_digit (48 + n % 10) ≡ true = ground arith in
    elim (n / 10 == 0)
      as (λ b. Starts (elim b [
        | true ↦ (48 + n % 10) ∷ rest
        | false ↦ digits_before fuel (n / 10) ((48 + n % 10) ∷ rest)
      ])) [ true ↦ digit | false ↦ digits_before-Starts fuel (n / 10) ((48 + n % 10) ∷ rest) digit ]

decimal-Starts : (n : ℕ) → Starts (decimal n)
unfolding decimal digits_before
decimal-Starts n =
    let digit : is_digit (48 + n % 10) ≡ true = ground arith in
    elim (n / 10 == 0)
      as (λ b. Starts (elim b [
        | true ↦ (48 + n % 10) ∷ []
        | false ↦ digits_before n (n / 10) ((48 + n % 10) ∷ [])
      ])) [ true ↦ digit | false ↦ digits_before-Starts n (n / 10) ((48 + n % 10) ∷ []) digit ]

parse_int_digits : (s : Bytes) → Starts s → parse_int s ≡ signed false (scan_digits 0 s)
unfolding parse_int parse_uint split_sign
parse_int_digits [] h = cc
parse_int_digits (c ∷ s) h = ground arith

-- `ParseInt` reads back what `%d` prints.
pub parse_int-decimal : (n : ℕ) → n < int64_cutoff → parse_int (decimal n) ≡ (pos n, none)
unfolding decimal signed scan_digits
parse_int-decimal n small =
    rw
      (
        parse_int_digits (decimal n) (decimal-Starts n),
        scan_digits-digits_before (suc n) n [] (omega arith) (omega arith),
      )
      (ground arith)

-- ===== src/Retry/Laws.antt =====
-- The classes of errors, and the bounds of the backoff.
use imgpull.Base.{
  List, [], ◌∷◌, codes, contains, bytes_eq, decimal, digits_before, refl, ℕ, zero, suc, ◌*◌, ◌/◌,
  ◌%◌, ◌≤◌, ◌<◌, ◌≡◌, Bool, false, not, ◌&&◌, ◌||◌, Bytes, to_lower, second, arith,
}
use native.Mathlib.Nat.{mod-lt}
use imgpull.Retry.{
  is_retryable, needs_part_cleanup, is_auth_error, is_non_retryable, is_canceled, is_deadline,
  one_of, fatal_codes, cleanup_codes, auth_codes, mentions_auth, classify_aria2_failure,
  backoff_delay, base_delay,
}

-- Whether the code is one of these numbers in base ten.
pub is_among : Bytes → List ℕ → Bool
is_among code [] = false
is_among code (n ∷ ns) = bytes_eq code (decimal n) || is_among code ns

pub speaks_of : Bytes → List Bytes → Bool
speaks_of message [] = false
speaks_of message (word ∷ words) = contains (to_lower message) word || speaks_of message words

-- The codes that are not worth a retry, and those that ask for a cleanup.
abbrev pub is_fatal : Bytes → Bool
is_fatal code = is_among code (3 ∷ 9 ∷ 10 ∷ 23 ∷ 15 ∷ 16 ∷ 20 ∷ 21 ∷ [])

abbrev pub asks_cleanup : Bytes → Bool
asks_cleanup code = is_among code (11 ∷ 12 ∷ 13 ∷ 17 ∷ 22 ∷ 25 ∷ 26 ∷ [])

-- The codes and the words of a failed authorization.
abbrev pub asks_login : Bytes → Bytes → Bool
asks_login code message =
    is_among code (14 ∷ 24 ∷ [])
    || speaks_of message (codes "401" ∷ codes "403" ∷ codes "unauthorized" ∷ codes "forbidden" ∷ [])

is_fatal_lem : (code : Bytes) → one_of code fatal_codes ≡ is_fatal code
unfolding one_of is_among decimal digits_before
is_fatal_lem code = refl

asks_cleanup_lem : (code : Bytes) → one_of code cleanup_codes ≡ asks_cleanup code
unfolding one_of is_among decimal digits_before
asks_cleanup_lem code = refl

asks_login_lem :
    (code message : Bytes)
    → (one_of code auth_codes || mentions_auth (to_lower message)) ≡ asks_login code message
unfolding one_of is_among speaks_of mentions_auth decimal digits_before
asks_login_lem code message = ground arith

-- The four classes of a failure of aria2: the codes 3, 9, 10, 15, 16, 20, 21 and 23 are not retried; 11,
-- 12, 13, 17, 22, 25 and 26 ask for a cleanup; of the others, 14 and 24, or a message that speaks of 401,
-- 403, unauthorized or forbidden, ask for a fresh login; and exactly what is left is retryable. None
-- counts as a cancellation or a deadline.
pub classify_aria2_failure_lem :
    (code message : Bytes)
    → let e = classify_aria2_failure code message in
      let fatal = is_fatal code in
      let cleanup = asks_cleanup code in
      let login = asks_login code message in
      (is_non_retryable e ≡ fatal)
      × (needs_part_cleanup e ≡ not fatal && cleanup)
      × (is_auth_error e ≡ not (fatal || cleanup) && login)
      × (is_retryable e ≡ not (fatal || (cleanup || login)))
      × (is_canceled e || is_deadline e ≡ false)
unfolding classify_aria2_failure is_non_retryable needs_part_cleanup is_auth_error is_retryable
    is_canceled is_deadline
classify_aria2_failure_lem code message =
    ground (arith, is_fatal_lem code, asks_cleanup_lem code, asks_login_lem code message)

base_delay_bounds : (n : ℕ) → (second ≤ base_delay n) × (base_delay n ≤ 16 * second)
unfolding base_delay
base_delay_bounds zero = omega arith
base_delay_bounds (suc zero) = omega arith
base_delay_bounds (suc (suc zero)) = omega arith
base_delay_bounds (suc (suc (suc zero))) = omega arith
base_delay_bounds (suc (suc (suc (suc zero)))) = omega arith
base_delay_bounds (suc (suc (suc (suc (suc n))))) = ground arith

-- The wait is more than three quarters of a second and less than twenty seconds, whatever is drawn,
-- and differs from the doubled delay by less than a quarter of it.
pub backoff_delay_bounds :
    (n random : ℕ) (less : Bool)
    → let w = backoff_delay n random less in
      (3 * base_delay n < 4 * w)
      × (4 * w < 5 * base_delay n)
      × (3 * second < 4 * w)
      × (w < 20 * second)
unfolding backoff_delay
backoff_delay_bounds n random less =
    let (low, high) = base_delay_bounds n in
    let small : random % (base_delay n / 4) < base_delay n / 4 = mod-lt _ (omega arith) in
    ground arith

-- ===== src/Retry.antt =====
-- internal/downloader/retry.go, over the errors of the whole program.
pub mod Laws
use imgpull.Base.{
  ℕ, zero, suc, ltb, ◌+◌, ◌-◌, ◌*◌, ◌/◌, ◌%◌, ◌^◌, ◌==◌, ◌≡◌, Bool, true, false, ◌||◌, Option, none,
  some, List, [], ◌∷◌, Bytes, codes, bytes_eq, contains, to_lower, second, if◌then◌else◌,
}

-- A Go error as the chain that `errors.As` and `errors.Is` walk. The texts of messages are left out
-- but for the one that the code reads, aria2's.
pub data GoError : Type 0 where
  plain : Bytes → GoError
  canceled deadline_exceeded blob_not_found unauthorized : GoError
  status_error : ℕ → GoError  -- `transport.Error`, with its status code
  url_error : Bool → GoError → GoError  -- `url.Error`, and whether it is a timeout
  rpc_error : ℕ → Bytes → GoError  -- aria2's code and message
  wrapped : GoError → GoError  -- `fmt.Errorf` with `%w`
  retryable_error part_cleanup_error auth_retry_error non_retryable_error : GoError → GoError

-- `Unwrap`, by every type that has it. `partCleanupError` and `authRetryError` embed a
-- `retryableError` and so have its `Unwrap`, which goes straight to the error inside.
abbrev pub unwrap : GoError → Option GoError
unwrap (url_error timeout e) = some e
unwrap (wrapped e) = some e
unwrap (retryable_error e) = some e
unwrap (part_cleanup_error e) = some e
unwrap (auth_retry_error e) = some e
unwrap (non_retryable_error e) = some e
unwrap _ = none

-- `errors.As` and `errors.Is`: whether an error of the chain passes the test.
unfoldable pub chain_has : (GoError → Bool) → GoError → Bool
chain_has test (url_error timeout e) = test (url_error timeout e) || chain_has test e
chain_has test (wrapped e) = test (wrapped e) || chain_has test e
chain_has test (retryable_error e) = test (retryable_error e) || chain_has test e
chain_has test (part_cleanup_error e) = test (part_cleanup_error e) || chain_has test e
chain_has test (auth_retry_error e) = test (auth_retry_error e) || chain_has test e
chain_has test (non_retryable_error e) = test (non_retryable_error e) || chain_has test e
chain_has test e = test e

abbrev pub retryable_kind : GoError → Bool
retryable_kind (retryable_error _) = true
retryable_kind _ = false

abbrev pub part_cleanup_kind : GoError → Bool
part_cleanup_kind (part_cleanup_error _) = true
part_cleanup_kind _ = false

abbrev pub auth_kind : GoError → Bool
auth_kind (auth_retry_error _) = true
auth_kind _ = false

abbrev pub non_retryable_kind : GoError → Bool
non_retryable_kind (non_retryable_error _) = true
non_retryable_kind _ = false

abbrev pub canceled_kind : GoError → Bool
canceled_kind canceled = true
canceled_kind _ = false

abbrev pub deadline_kind : GoError → Bool
deadline_kind deadline_exceeded = true
deadline_kind _ = false

abbrev pub not_found_kind : GoError → Bool
not_found_kind blob_not_found = true
not_found_kind _ = false

abbrev pub unauthorized_kind : GoError → Bool
unauthorized_kind unauthorized = true
unauthorized_kind _ = false

-- `isRetryable`, `needsPartCleanup`, `isAuthError`, `isNonRetryable`
unfoldable pub is_retryable : GoError → Bool
unfolding chain_has
is_retryable = chain_has retryable_kind

unfoldable pub needs_part_cleanup : GoError → Bool
unfolding chain_has
needs_part_cleanup = chain_has part_cleanup_kind

unfoldable pub is_auth_error : GoError → Bool
unfolding chain_has
is_auth_error = chain_has auth_kind

unfoldable pub is_non_retryable : GoError → Bool
unfolding chain_has
is_non_retryable = chain_has non_retryable_kind

-- `errors.Is` for `context.Canceled` and `context.DeadlineExceeded`
unfoldable pub is_canceled : GoError → Bool
unfolding chain_has
is_canceled = chain_has canceled_kind

unfoldable pub is_deadline : GoError → Bool
unfolding chain_has
is_deadline = chain_has deadline_kind

-- The tests of a `case` of the switch on aria2's error code.
unfoldable pub one_of : Bytes → List Bytes → Bool
one_of code [] = false
one_of code (c ∷ cs) = bytes_eq code c || one_of code cs

abbrev pub fatal_codes : List Bytes
fatal_codes =
    codes "3"
    ∷ codes "9"
    ∷ codes "10"
    ∷ codes "23"
    ∷ codes "15"
    ∷ codes "16"
    ∷ codes "20"
    ∷ codes "21"
    ∷ []

abbrev pub cleanup_codes : List Bytes
cleanup_codes =
    codes "11" ∷ codes "12" ∷ codes "13" ∷ codes "17" ∷ codes "22" ∷ codes "25" ∷ codes "26" ∷ []

abbrev pub auth_codes : List Bytes
auth_codes = codes "14" ∷ codes "24" ∷ []

-- The words that the default case looks for in the message.
unfoldable pub mentions_auth : Bytes → Bool
mentions_auth msg =
    contains msg (codes "401")
    || (contains msg (codes "403")
        || (contains msg (codes "unauthorized") || contains msg (codes "forbidden")))

-- `classifyAria2Failure`, on `ErrorCode` and `ErrorMessage`.
unfoldable pub classify_aria2_failure : Bytes → Bytes → GoError
classify_aria2_failure code message =
    if one_of code fatal_codes
    then non_retryable_error (plain message)
    else if one_of code cleanup_codes
    then part_cleanup_error (plain message)
    else if one_of code auth_codes
    then auth_retry_error (plain message)
    else if mentions_auth (to_lower message)
    then auth_retry_error (plain message)
    else retryable_error (plain message)

-- `time.Second << shift`, with both caps.
unfoldable pub base_delay : ℕ → ℕ
base_delay attempt =
    let shift : ℕ = if ltb 4 (attempt - 1) then 4 else attempt - 1 in
    let d : ℕ = second * 2 ^ shift in if ltb (30 * second) d then 30 * second else d

-- `backoffDelay`. `random` is what `rand.Int63n` draws before it is brought below its bound, and
-- `less` is whether `rand.Intn(2)` gives 0. An attempt below 1 counts as 1.
unfoldable pub backoff_delay : ℕ → ℕ → Bool → ℕ
backoff_delay attempt random less =
    let d : ℕ = base_delay attempt in
    let jitter : ℕ = random % (d / 4) in if less then d - jitter else d + jitter

-- ===== src/Registry/Address.antt =====
-- internal/registry/client.go: registryScheme, and parseURLExpiry.
use imgpull.Base.{
  ℕ, leb, ltb, ◌+◌, ◌-◌, ◌*◌, ◌%◌, ◌^◌, ◌≤◌, ◌<◌, ◌==◌, ◌≡◌, Bool, true, false, not, ◌&&◌, ◌||◌,
  Option, none, some, List, [], ◌∷◌, Bytes, codes, bytes_eq, is_empty, second, if◌then◌else◌, arith,
  has_suffix, contains, is_digit, int64_cutoff, decimal, parse_int, parse_int-decimal, ℤ, pos,
  negsuc, NumError,
}
use imgpull.Registry.{Net}

-- What stands in front of the last `sep`.
unfoldable pub before_last : ℕ → Bytes → Option Bytes
before_last sep [] = none
before_last sep (c ∷ s) = elim (before_last sep s) [
  | some start ↦ some (c ∷ start)
  | none ↦ if c == sep then some [] else none
]

unfoldable pub all_digits : Bytes → Bool
all_digits [] = true
all_digits (c ∷ s) = is_digit c && all_digits s

-- The part `(:\d+)?$` of `localhostRe`.
unfoldable pub is_port : Bytes → Bool
unfolding all_digits
is_port [] = true
is_port (c ∷ s) = (c == b':') && (not (is_empty s) && all_digits s)

-- What follows the prefix, if the text has it.
unfoldable pub after_prefix : Bytes → Bytes → Option Bytes
after_prefix [] s = some s
after_prefix (p ∷ ps) [] = none
after_prefix (p ∷ ps) (c ∷ s) = let rest = after_prefix ps s in if c == p then rest else none

-- `localhostRe`
unfoldable pub is_localhost : Bytes → Bool
unfolding after_prefix is_port
is_localhost reg = elim (after_prefix (codes "localhost") reg) [
  | none ↦ false
  | some rest ↦ is_port rest
]

-- The registry without its port, unless it is an IPv6 address in brackets.
unfoldable pub without_port : Bytes → Bytes
unfolding before_last contains
without_port reg = elim (before_last b':' reg) [
  | none ↦ reg
  | some host ↦ if contains reg (codes "]") then reg else host
]

-- `registryScheme`
unfoldable pub registry_scheme : Bytes → Bool → Bytes
unfolding without_port is_localhost has_suffix bytes_eq
registry_scheme reg insecure =
    if insecure
    then codes "http"
    else if is_localhost reg
        || (bytes_eq reg (codes "::1")
            || (bytes_eq (without_port reg) (codes "127.0.0.1")
                || has_suffix reg (codes ".localhost")))
    then codes "http"
    else codes "https"

-- Times count nanoseconds from the zero time of Go, the year 1, which is 0. A time before it, which no
-- clock shows, is taken as the first nanosecond behind it, so that it is not the zero time.
abbrev pub earlier : ℕ → ℕ → ℕ
earlier d t = if leb d t then t - d else 1

-- `t.Add(time.Duration(exp) * time.Second)`, whose duration wraps around at 64 bits.
unfoldable pub add_seconds : ℕ → ℕ → ℕ
add_seconds exp t =
    let d = exp * second % 2 ^ 64 in if ltb d int64_cutoff then t + d else earlier (2 ^ 64 - d) t

-- The seconds from the year 1 to the year 1970.
abbrev pub unix_epoch : ℕ
unix_epoch = 62135596800

-- `time.Unix(n, 0)`, which adds the epoch in 64 bits.
unfoldable pub unix_time : ℕ → ℕ
unix_time n =
    let seconds = (n + unix_epoch) % 2 ^ 64 in
    if ltb seconds int64_cutoff then seconds * second else 1

-- A number that was read without an error, if it is above the bound.
abbrev pub accepted : ℕ → ℤ × Option NumError → Option ℕ
accepted bound (pos n, none) = if ltb bound n then some n else none
accepted bound (pos n, some e) = none
accepted bound (negsuc n, problem) = none

-- `strconv.Atoi` or `ParseInt` with the test of its number.
unfoldable pub number_above : ℕ → Bytes → Option ℕ
unfolding parse_int
number_above bound s = accepted bound (parse_int s)

-- The loop over the layouts of a SAS expiry.
unfoldable pub first_layout : Net → Bytes → List Bytes → Option ℕ
first_layout net se [] = none
first_layout net se (layout ∷ layouts) =
    let rest = first_layout net se layouts in
    elim (net.parse_time layout se) [ some t ↦ some t | none ↦ rest ]

-- The loop over the names of a unix timestamp.
unfoldable pub first_timestamp : Net → Bytes → List Bytes → Option ℕ
unfolding number_above unix_time
first_timestamp net url [] = none
first_timestamp net url (key ∷ keys) =
    let rest = first_timestamp net url keys in
    let v = net.query url key in
    if is_empty v
    then rest
    else (elim (number_above (2 ^ 30) v) [ some n ↦ some (unix_time n) | none ↦ rest ])

-- The date and the lifetime of a presigned URL.
unfoldable pub presigned : Net → Bytes → Option ℕ
unfolding number_above add_seconds
presigned net url =
    let date = net.query url (codes "X-Amz-Date") in
    if is_empty date then none else (elim (number_above 0 (net.query url (codes "X-Amz-Expires"))) [
      | none ↦ none
      | some exp ↦ elim (net.parse_time (codes "20060102T150405Z") date) [
        | none ↦ none
        | some t ↦ some (add_seconds exp t)
      ]
    ])

-- `parseURLExpiry`; 0 is the zero time.
unfoldable pub parse_url_expiry : Net → Bytes → ℕ
unfolding presigned first_layout first_timestamp
parse_url_expiry net url =
    let se = net.query url (codes "se") in
    let layouts = codes "2006-01-02T15:04:05Z07:00" ∷ codes "2006-01-02T15:04:05Z" ∷ [] in
    let keys = codes "x-oss-expires" ∷ codes "Expires" ∷ codes "expires" ∷ [] in
    let stamp : ℕ = elim (first_timestamp net url keys) [ some t ↦ t | none ↦ 0 ] in
    elim (presigned net url) [
      | some t ↦ t
      | none ↦
          if is_empty se
          then stamp
          else (elim (first_layout net se layouts) [ some t ↦ t | none ↦ stamp ])
    ]

number_above-decimal : (n : ℕ) → 0 < n → n < int64_cutoff → number_above 0 (decimal n) ≡ some n
unfolding number_above
number_above-decimal n positive small = rw (parse_int-decimal n small) (ground arith)

add_seconds_lem : (n t : ℕ) → n ≤ 9223372036 → add_seconds n t ≡ t + n * second
unfolding add_seconds
add_seconds_lem n t small =
    let short : ltb (n * second % 2 ^ 64) int64_cutoff ≡ true = ground arith in
    rw short (omega arith)

-- A presigned URL with a date and a lifetime in base ten expires after that lifetime, up to the 292
-- years that a duration holds.
pub parse_url_expiry-decimal :
    (net : Net) (url : Bytes) (n t : ℕ)
    → is_empty (net.query url (codes "X-Amz-Date")) ≡ false
    → net.query url (codes "X-Amz-Expires") ≡ decimal n
    → net.parse_time (codes "20060102T150405Z") (net.query url (codes "X-Amz-Date")) ≡ some t
    → 0 < n
    → n ≤ 9223372036
    → parse_url_expiry net url ≡ t + n * second
unfolding parse_url_expiry presigned
parse_url_expiry-decimal net url n t dated lasts read positive small =
    rw
      (
        parse_url_expiry,
        presigned,
        dated,
        lasts,
        number_above-decimal n positive (omega arith),
        read,
      )
      (add_seconds_lem n t small)

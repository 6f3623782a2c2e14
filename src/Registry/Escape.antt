-- ===== src/Registry/Escape.antt =====
-- internal/registry/auth.go: `urlEscape` and `encodeQuery`.
use imgpull.Base.{
  ◌≤◌, ℕ, ltb, leb, ◌+◌, ◌-◌, ◌*◌, ◌/◌, ◌%◌, ◌<◌, ◌==◌, ◌≡◌, refl, Bool, true, ◌&&◌, ◌||◌, List, [],
  ◌∷◌, ◌++◌, Bytes, All, All-append, ap, ◌≢◌, ◌⊎◌, Bool-cases, inl, inr, if◌then◌else◌, arith,
}

-- The bytes that stay as they are.
abbrev pub is_unreserved : ℕ → Bool
is_unreserved c =
    (leb b'a' c && leb c b'z')
    || ((leb b'A' c && leb c b'Z')
        || ((leb b'0' c && leb c b'9') || (c == b'-' || (c == b'_' || (c == b'.' || c == b'~')))))

-- `hex[n]`, for n below 16.
abbrev pub hex_digit : ℕ → ℕ
hex_digit n = if ltb n 10 then b'0' + n else b'A' + (n - 10)

-- `c>>4` and `c&0xf` on a byte.
abbrev pub escape_byte : ℕ → Bytes
escape_byte c =
    if is_unreserved c then c ∷ [] else b'%' ∷ hex_digit (c / 16) ∷ hex_digit (c % 16) ∷ []

-- `urlEscape`
unfoldable pub url_escape : Bytes → Bytes
url_escape [] = []
url_escape (c ∷ s) = escape_byte c ++ url_escape s

-- `encodeQuery` on the pairs in the order in which the map yields them.
unfoldable pub encode_query : List (Bytes × Bytes) → Bytes
unfolding url_escape
encode_query [] = []
encode_query ((k, v) ∷ []) = url_escape k ++ b'=' ∷ url_escape v
encode_query ((k, v) ∷ p ∷ rest) =
    url_escape k ++ b'=' ∷ (url_escape v ++ b'&' ∷ encode_query (p ∷ rest))

-- Percent-decoding, as a receiver does it: the specification of `urlEscape`.
abbrev pub hex_value : ℕ → ℕ
hex_value c = if ltb c b'A' then c - b'0' else c - b'A' + 10

pub url_unescape : Bytes → Bytes
url_unescape [] = []
url_unescape (c ∷ []) = c ∷ []
url_unescape (c ∷ d ∷ []) = c ∷ d ∷ []
url_unescape (c ∷ d ∷ e ∷ s) =
    let plain = url_unescape (d ∷ e ∷ s) in
    let decoded = url_unescape s in
    if c == b'%' then (hex_value d * 16 + hex_value e) ∷ decoded else c ∷ plain

abbrev pub IsByte : ℕ → Type 0
IsByte c = c < 256

unescape_plain : (c : ℕ) (s : Bytes) → c ≢ b'%' → url_unescape (c ∷ s) ≡ c ∷ url_unescape s
unfolding url_unescape
unescape_plain c [] h = refl
unescape_plain c (d ∷ []) h = refl
unescape_plain c (d ∷ e ∷ s) h = ground arith

hex_value-hex_digit : (n : ℕ) → n < 16 → hex_value (hex_digit n) ≡ n
hex_value-hex_digit n h = ground arith

url_unescape_step :
    (c : ℕ) (s : Bytes) → c < 256 → url_unescape (escape_byte c ++ s) ≡ c ∷ url_unescape s
unfolding url_unescape
url_unescape_step c s h = elim (Bool-cases (is_unreserved c)) [
  | inl kept ↦ rw kept (unescape_plain c s (ground arith))
  | inr hidden ↦
      rw
        (
          hidden,
          hex_value-hex_digit (c / 16) (omega arith),
          hex_value-hex_digit (c % 16) (omega arith),
        )
        (ap (λ b. b ∷ url_unescape s) (omega arith))
]

-- Percent-decoding gives back every text of bytes from what `urlEscape` makes of it.
pub url_unescape-url_escape : (s : Bytes) → All IsByte s → url_unescape (url_escape s) ≡ s
unfolding url_escape url_unescape
url_unescape-url_escape [] h = refl
url_unescape-url_escape (c ∷ s) (hc, hs) =
    rw (url_unescape_step c (url_escape s) hc, url_unescape-url_escape s hs)

-- A percent sign, or one of the unreserved characters of RFC 3986: a letter, a digit, `-`, `_`, `.`
-- or `~`.
abbrev pub IsEscapedByte : ℕ → Type 0
IsEscapedByte c =
    (c ≡ 37)
    ⊎ (((97 ≤ c) × (c ≤ 122))
        ⊎ (((65 ≤ c) × (c ≤ 90))
            ⊎ (((48 ≤ c) × (c ≤ 57)) ⊎ ((c ≡ 45) ⊎ ((c ≡ 95) ⊎ ((c ≡ 46) ⊎ (c ≡ 126)))))))

is_unreserved-IsEscapedByte : (c : ℕ) → is_unreserved c ≡ true → IsEscapedByte c
is_unreserved-IsEscapedByte c h = ground arith

is_unreserved-hex_digit : (n : ℕ) → n < 16 → is_unreserved (hex_digit n) ≡ true
is_unreserved-hex_digit n h = ground arith

escape_byte-All : (c : ℕ) → c < 256 → All IsEscapedByte (escape_byte c)
escape_byte-All c h =
    let plain = is_unreserved-IsEscapedByte in
    elim (Bool-cases (is_unreserved c)) [
      | inl kept ↦ rw kept (plain c kept, tt)
      | inr hidden ↦ rw hidden (
        inl refl,
        (
          plain _ (is_unreserved-hex_digit (c / 16) (omega arith)),
          (plain _ (is_unreserved-hex_digit (c % 16) (omega arith)), tt),
        ),
      )
    ]

-- An escaped text holds percent signs, letters, digits, `-`, `_`, `.` and `~` alone, so none of the
-- bytes that separate the parts of a query.
pub url_escape-All : (s : Bytes) → All IsByte s → All IsEscapedByte (url_escape s)
unfolding url_escape
url_escape-All [] h = tt
url_escape-All (c ∷ s) (hc, hs) =
    All-append _ (escape_byte c) (url_escape s) (escape_byte-All c hc) (url_escape-All s hs)

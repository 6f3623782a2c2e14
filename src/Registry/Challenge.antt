-- ===== src/Registry/Challenge.antt =====
-- internal/registry/auth.go: `parseChallenge`.
pub mod RoundTrip
use imgpull.Base.{
  ℕ, zero, suc, ltb, ◌+◌, ◌-◌, ◌<◌, ◌≤◌, ◌==◌, ◌≡◌, ◌≢◌, refl, Bool, true, false, not, ◌&&◌, ◌||◌,
  Option, none, some, List, [], ◌∷◌, ◌++◌, Bytes, codes, bytes_eq, is_empty, trim_space, to_lower,
  cut, length, if◌then◌else◌, arith, Result, ok, err,
}

abbrev pub Params : Type 0
Params = List (Bytes × Bytes)

-- `challenge`. A later parameter hides an earlier one of the same name.
pub record Challenge : Type 0 where
  pub scheme : Bytes
  pub params : Params

-- `c.params[key]`, empty when missing.
unfoldable pub param : Bytes → Params → Bytes
param key [] = []
param key ((k, v) ∷ ps) = if bytes_eq k key then v else param key ps

pub data ChallengeError : Type 0 where
  empty_challenge malformed_challenge : ChallengeError

-- `v[:i]` and `v[i+1:]` for the first space or tab.
unfoldable pub cut_blank : Bytes → Option (Bytes × Bytes)
cut_blank [] = none
cut_blank (c ∷ s) = elim (c == 32 || c == 9) [
  | true ↦ some ([], s)
  | false ↦ elim (cut_blank s) [ none ↦ none | some (a, b) ↦ some (c ∷ a, b) ]
]

-- The loop over `j` from the byte behind the opening quote: the value up to a quote that no
-- backslash stands before, and the rest behind it. `prev` is `rest[j-1]`.
unfoldable pub close_quote : ℕ → Bytes → Option (Bytes × Bytes)
close_quote prev [] = none
close_quote prev (c ∷ s) = elim (c == b'"' && not (prev == b'\\')) [
  | true ↦ some ([], s)
  | false ↦ elim (close_quote c s) [ none ↦ none | some (a, b) ↦ some (c ∷ a, b) ]
]

-- `strings.ReplaceAll(val, "\\\"", "\"")`
unfoldable pub unquote : Bytes → Bytes
unquote [] = []
unquote (c ∷ []) = c ∷ []
unquote (c ∷ d ∷ s) =
    let skipped = unquote s in
    let kept = unquote (d ∷ s) in if c == b'\\' && d == b'"' then b'"' ∷ skipped else c ∷ kept

-- `strings.TrimPrefix(s, ",")`
abbrev pub drop_comma : Bytes → Bytes
drop_comma [] = []
drop_comma (c ∷ s) = if c == b',' then s else c ∷ s

-- The value at the head of `rest`, and what is left.
unfoldable pub scan_value : Bytes → Result ChallengeError (Bytes × Bytes)
scan_value [] = ok ([], [])
scan_value (c ∷ s) =
    if c == b'"'
    then (elim (close_quote c s) [
      | none ↦ err malformed_challenge
      | some (raw, rest) ↦ ok (unquote raw, drop_comma rest)
    ])
    else (elim (cut (c ∷ s) b',') [
      | none ↦ ok (trim_space (c ∷ s), [])
      | some (raw, rest) ↦ ok (trim_space raw, rest)
    ])

abbrev pub add_param : Bytes → Bytes → Params → Params
add_param key val ps = if is_empty key then ps else (to_lower key, val) ∷ ps

-- The loop over the pairs. A round takes at least the `=`, so the length of the text is fuel enough;
-- with no fuel left the text is empty.
unfoldable pub scan_pairs : ℕ → Bytes → Params → Result ChallengeError Params
unfolding scan_value
scan_pairs zero rest ps = ok ps
scan_pairs (suc fuel) rest ps = elim (cut rest b'=') [
  | none ↦ ok ps
  | some (key, behind) ↦ elim (scan_value behind) [
    | err e ↦ err e
    | ok (val, left) ↦ scan_pairs fuel left (add_param (trim_space key) val ps)
  ]
]

-- `parseChallenge`
unfoldable pub parse_challenge : Bytes → Result ChallengeError Challenge
parse_challenge input =
    let v = trim_space input in
    if is_empty v then err empty_challenge else (elim (cut_blank v) [
      | none ↦ ok (record { scheme = v; params = [] })
      | some (scheme, rest) ↦ elim (scan_pairs (length rest) rest []) [
        | err e ↦ err e
        | ok ps ↦ ok (record { scheme = scheme; params = ps })
      ]
    ])

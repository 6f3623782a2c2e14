-- ===== src/Args.antt =====
-- cmd/imgpull/main.go: the reading of the command line before package flag has it.
pub mod Laws
use imgpull.Base.{
  ℕ, ◌==◌, Bool, true, false, not, ◌&&◌, ◌||◌, Option, none, some, List, [], ◌∷◌, ◌++◌, Bytes,
  codes, bytes_eq, has_prefix, is_empty, if◌then◌else◌,
}

abbrev any_of : List Bytes → Bytes → Bool
any_of [] s = false
any_of (t ∷ ts) s = bytes_eq t s || any_of ts s

-- `valueFlags`
unfoldable pub value_flag : Bytes → Bool
value_flag = any_of (
    codes "platform"
    ∷ codes "output"
    ∷ codes "aria2-rpc"
    ∷ codes "aria2-secret"
    ∷ codes "concurrency"
    ∷ codes "max-retries"
    ∷ codes "export"
    ∷ codes "username"
    ∷ codes "password"
    ∷ codes "proxy"
    ∷ [])

abbrev look_up : List (ℕ × Bytes) → ℕ → Option Bytes
look_up [] c = none
look_up ((k, v) ∷ rest) c = if k == c then some v else look_up rest c

-- `shortFlags`
unfoldable pub short_flag : ℕ → Option Bytes
short_flag = look_up (
    (b'h', codes "help")
    ∷ (b'v', codes "version")
    ∷ (b'p', codes "platform")
    ∷ (b'o', codes "output")
    ∷ (b'r', codes "aria2-rpc")
    ∷ (b's', codes "aria2-secret")
    ∷ (b'c', codes "concurrency")
    ∷ (b'R', codes "max-retries")
    ∷ (b'e', codes "export")
    ∷ (b'u', codes "username")
    ∷ (b'P', codes "password")
    ∷ (b'k', codes "insecure")
    ∷ (b'V', codes "verify")
    ∷ (b'x', codes "proxy")
    ∷ [])

abbrev pub terminator : Bytes
terminator = codes "--"

-- `strings.HasPrefix(a, "-") && a != "-"`
unfoldable pub is_flag : Bytes → Bool
unfolding has_prefix bytes_eq
is_flag a = has_prefix a (codes "-") && not (bytes_eq a (codes "-"))

-- `strings.TrimLeft(a, "-")`
unfoldable pub trim_dashes : Bytes → Bytes
trim_dashes [] = []
trim_dashes (c ∷ s) = let rest = trim_dashes s in if c == b'-' then rest else c ∷ s

abbrev to_positional : Bytes → List Bytes × List Bytes → List Bytes × List Bytes
to_positional a (p, r) = (a ∷ p, r)

abbrev to_rest : List Bytes → List Bytes × List Bytes → List Bytes × List Bytes
to_rest xs (p, r) = (p, xs ++ r)

-- `splitPositional`: the arguments without a dash, and the rest.
unfoldable pub split_positional : List Bytes → List Bytes × List Bytes
split_positional [] = ([], [])
split_positional (a ∷ []) =
    if bytes_eq a terminator then ([], a ∷ []) else if is_flag a then ([], a ∷ []) else (a ∷ [], [])
split_positional (a ∷ b ∷ args) =
    let next = split_positional (b ∷ args) in
    let after = split_positional args in
    if bytes_eq a terminator
    then ([], a ∷ b ∷ args)
    else if is_flag a
    then (if value_flag (trim_dashes a) && not (has_prefix b (codes "-"))
        then to_rest (a ∷ b ∷ []) after
        else to_rest (a ∷ []) next)
    else to_positional a next

-- `strings.TrimPrefix(rest, "=")`
abbrev trim_equals : Bytes → Bytes
trim_equals [] = []
trim_equals (c ∷ s) = if c == b'=' then s else c ∷ s

abbrev starts_with_equals : Bytes → Bool
starts_with_equals [] = false
starts_with_equals (c ∷ s) = c == b'='

-- The inner loop of `expandShortFlags`, on what follows the dash.
unfoldable pub expand_cluster : Bytes → List Bytes
expand_cluster [] = []
expand_cluster (c ∷ rest) =
    let later = expand_cluster rest in
    elim (short_flag c) [
      | none ↦ (b'-' ∷ c ∷ rest) ∷ []
      | some long ↦
          if starts_with_equals rest || (not (is_empty rest) && value_flag long)
          then (codes "--" ++ long) ∷ trim_equals rest ∷ []
          else (codes "--" ++ long) ∷ later
    ]

-- What the outer loop does with an argument before `--`.
unfoldable pub expand_one : Bytes → List Bytes
expand_one [] = [] ∷ []
expand_one (a ∷ []) = (a ∷ []) ∷ []
expand_one (a ∷ b ∷ s) =
    if not (a == b'-') || b == b'-' then (a ∷ b ∷ s) ∷ [] else expand_cluster (b ∷ s)

-- `expandShortFlags`; everything from `--` on stays as it is.
unfoldable pub expand_short_flags : List Bytes → List Bytes
expand_short_flags [] = []
expand_short_flags (a ∷ args) =
    let rest = expand_short_flags args in
    if bytes_eq a terminator then a ∷ args else expand_one a ++ rest

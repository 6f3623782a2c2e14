-- ===== src/Rpc/Endpoint.antt =====
-- internal/downloader/aria2.go: NormalizeEndpoint.
use mathlib.Core.Path.{subst}
use mathlib.Core.List.{reverse, reverse-append, reverse-reverse}
use imgpull.Base.{
  All-append, sym, ◌∙◌, All, ap, ==_iff, ◌⊎◌, ◌==◌, ◌≡◌, ◌≢◌, true, false, [], ◌∷◌, ◌++◌, Bytes,
  codes, has_prefix, has_suffix, contains, is_empty, if◌then◌else◌, Bool-cases, inl, inr, refl,
  arith,
}

unfoldable pub drop_slashes : Bytes → Bytes
drop_slashes [] = []
drop_slashes (c ∷ s) = let rest = drop_slashes s in if c == b'/' then rest else c ∷ s

-- `strings.TrimRight(s, "/")`
unfoldable pub trim_slashes : Bytes → Bytes
unfolding drop_slashes
trim_slashes s = reverse (drop_slashes (reverse s))

abbrev pub rpc_path : Bytes
rpc_path = codes "/jsonrpc"

abbrev pub scheme_mark : Bytes
scheme_mark = codes "://"

-- The endpoint with its scheme.
unfoldable pub with_scheme : Bytes → Bytes
unfolding contains
with_scheme s = if contains s scheme_mark then s else codes "http://" ++ s

-- `NormalizeEndpoint`
unfoldable pub normalize_endpoint : Bytes → Bytes
unfolding with_scheme trim_slashes has_suffix
normalize_endpoint s =
    let full = with_scheme s in
    if is_empty s
    then s
    else if has_suffix full rpc_path
    then full
    else trim_slashes full ++ rpc_path

has_prefix-append : (p s : Bytes) → has_prefix (p ++ s) p ≡ true
unfolding has_prefix
has_prefix-append [] [] = refl
has_prefix-append [] (c ∷ s) = refl
has_prefix-append (c ∷ p) s = ground (arith, has_prefix-append p s)

has_prefix_longer : (s p t : Bytes) → has_prefix s p ≡ true → has_prefix (s ++ t) p ≡ true
unfolding has_prefix
has_prefix_longer [] [] [] h = refl
has_prefix_longer [] [] (c ∷ t) h = refl
has_prefix_longer [] (q ∷ p) t h = cc
has_prefix_longer (c ∷ s) [] t h = refl
has_prefix_longer (c ∷ s) (q ∷ p) t h = ground (arith, has_prefix_longer s p t)

contains_longer : (s p t : Bytes) → contains s p ≡ true → contains (s ++ t) p ≡ true
unfolding contains
contains_longer [] p [] h = h
contains_longer [] p (c ∷ t) h = ground (arith, has_prefix_longer [] p (c ∷ t))
contains_longer (c ∷ s) p t h = ground (arith, has_prefix_longer (c ∷ s) p t, contains_longer s p t)

pub has_suffix-append : (s p : Bytes) → has_suffix (s ++ p) p ≡ true
unfolding has_suffix
has_suffix-append s p = rw (reverse-append s p) (has_prefix-append (reverse p) (reverse s))

contains-with_scheme : (s : Bytes) → contains (with_scheme s) scheme_mark ≡ true
unfolding with_scheme contains has_prefix
contains-with_scheme s = elim (Bool-cases (contains s scheme_mark)) [
  | inl there ↦ rw there there
  | inr missing ↦ rw missing refl
]

not-is_empty : (s : Bytes) → contains s scheme_mark ≡ true → is_empty s ≡ false
unfolding contains has_prefix
not-is_empty [] h = cc
not-is_empty (c ∷ s) h = refl

pub normalize_endpoint_full :
    (s : Bytes)
    → contains s scheme_mark ≡ true
    → has_suffix s rpc_path ≡ true
    → normalize_endpoint s ≡ s
unfolding normalize_endpoint with_scheme
normalize_endpoint_full s scheme path = rw (scheme, path, not-is_empty s scheme) refl

drop_slashes_lem :
    (s : Bytes)
    → (slashes : Bytes) × (s ≡ slashes ++ drop_slashes s)
      × All (λ c. c ≡ b'/') slashes
      × (has_prefix (drop_slashes s) (codes "/") ≡ false)
unfolding drop_slashes has_prefix
drop_slashes_lem [] = ([], refl, tt, refl)
drop_slashes_lem (c ∷ s) =
    let (slashes, same, all, plain) = drop_slashes_lem s in
    elim (Bool-cases (c == b'/')) [
      | inl slash ↦
          rw (drop_slashes, slash)
            (c ∷ slashes, ap (λ r. c ∷ r) same, ((==_iff c b'/').0 slash, all), plain)
      | inr other ↦ rw (drop_slashes, other) ([], refl, tt, rw (has_prefix, other) (ground arith))
    ]

All-reverse : (s : Bytes) → All (λ c. c ≡ b'/') s → All (λ c. c ≡ b'/') (reverse s)
All-reverse [] h = tt
All-reverse (c ∷ s) (hc, hs) =
    subst (All (λ c. c ≡ b'/')) (sym (reverse-append (c ∷ []) s))
      (All-append (λ c. c ≡ b'/') (reverse s) (c ∷ []) (All-reverse s hs) (hc, tt))

trim_slashes_lem :
    (s : Bytes)
    → (slashes : Bytes) × (s ≡ trim_slashes s ++ slashes)
      × All (λ c. c ≡ b'/') slashes
      × (has_suffix (trim_slashes s) (codes "/") ≡ false)
unfolding trim_slashes has_suffix
trim_slashes_lem s =
    let (slashes, same, all, plain) = drop_slashes_lem (reverse s) in
    (
      reverse slashes,
      sym (reverse-reverse s)
          ∙ ap (λ r. reverse r) same
          ∙ reverse-append slashes (drop_slashes (reverse s)),
      All-reverse slashes all,
      rw (reverse-reverse (drop_slashes (reverse s))) plain,
    )

-- What becomes of the text behind its scheme: nothing, where it ends in `/jsonrpc`; else the slashes at
-- its end are replaced by `/jsonrpc`.
abbrev pub Completed : Bytes → Bytes → Type 0
Completed full result =
    ((has_suffix full (codes "/jsonrpc") ≡ true) × (result ≡ full))
    ⊎ ((has_suffix full (codes "/jsonrpc") ≡ false)
        × ((base : Bytes) × (slashes : Bytes) × (full ≡ base ++ slashes)
            × All (λ c. c ≡ b'/') slashes
            × (has_suffix base (codes "/") ≡ false)
            × (result ≡ base ++ codes "/jsonrpc")))

abbrev pub Normalized : Bytes → Bytes → Type 0
Normalized s result =
    ((contains s (codes "://") ≡ true) × Completed s result)
    ⊎ ((contains s (codes "://") ≡ false) × Completed (codes "http://" ++ s) result)

normalize_endpoint-Completed :
    (s : Bytes) → is_empty s ≡ false → Completed (with_scheme s) (normalize_endpoint s)
unfolding normalize_endpoint
normalize_endpoint-Completed s some_text = elim (Bool-cases (has_suffix (with_scheme s) rpc_path)) [
  | inl done ↦
      let e : normalize_endpoint s ≡ with_scheme s =
        rw (normalize_endpoint, some_text, done) refl in
      inl (done, e)
  | inr more ↦
      let (slashes, same, all, plain) = trim_slashes_lem (with_scheme s) in
      let e : normalize_endpoint s ≡ trim_slashes (with_scheme s) ++ rpc_path =
        rw (normalize_endpoint, some_text, more) refl in
      inr (more, (trim_slashes (with_scheme s), slashes, same, all, plain, e))
]

normalize_endpoint-nil : normalize_endpoint [] ≡ []
unfolding normalize_endpoint
normalize_endpoint-nil = refl

-- An empty endpoint stays empty. To any other one without `://`, `http://` is added in front; then,
-- unless it ends in `/jsonrpc`, all the slashes at its end, and nothing else, are replaced by
-- `/jsonrpc`.
pub normalize_endpoint_lem :
    (s : Bytes)
    → ((s ≡ []) × (normalize_endpoint s ≡ [])) ⊎ ((s ≢ []) × Normalized s (normalize_endpoint s))
unfolding with_scheme
normalize_endpoint_lem [] = inl (refl, normalize_endpoint-nil)
normalize_endpoint_lem (c ∷ s) =
    let full = λ (t : Bytes). Completed t (normalize_endpoint (c ∷ s)) in
    let done : full (with_scheme (c ∷ s)) = normalize_endpoint-Completed (c ∷ s) refl in
    inr (
      λ e. cc,
      elim (Bool-cases (contains (c ∷ s) scheme_mark)) [
        | inl there ↦
            let e : with_scheme (c ∷ s) ≡ c ∷ s = rw (with_scheme, there) refl in
            inl (there, subst full e done)
        | inr missing ↦
            let e : with_scheme (c ∷ s) ≡ codes "http://" ++ c ∷ s =
              rw (with_scheme, missing) refl in
            inr (missing, subst full e done)
      ],
    )

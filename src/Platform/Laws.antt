-- ===== src/Platform/Laws.antt =====
-- Parsing and printing a platform, and what the selection from an index returns.
use imgpull.Base.{
  refl, codes, bytes_eq, bytes_eq_iff, ◌||◌, Option-cases, ◌≡◌, ap, ◌⊎◌, inl, inr, true, false,
  none, some, List, [], ◌∷◌, ◌++◌, Bytes, bytes_eq_comm, is_empty, is_empty-append, trim_space,
  Lacks, split, split-append, split_of_Lacks, All, ok, err, arith, Bool-cases,
}
use mathlib.Core.Path.{subst}
use imgpull.Platform.{
  Platform, Descriptor, parse_platform, platform_string, matches, effective_variant, is_attestation,
  from_parts, find_platform, available, describe, select_platform, SelectError, platform_not_found,
}

-- A platform whose fields hold no slash, and whose text neither begins nor ends with a space.
pub record IsPlain (p : Platform) : Type 0 where
  pub os_plain : Lacks b'/' p.os
  pub architecture_plain : Lacks b'/' p.architecture
  pub variant_plain : Lacks b'/' p.variant
  pub trimmed : trim_space (platform_string p) ≡ platform_string p

parse_parts :
    (o a v : Bytes)
    → let p : Platform = record { os = o; architecture = a; variant = v } in
      IsPlain p → from_parts (platform_string p) (split (platform_string p) b'/') ≡ ok p
unfolding platform_string
parse_parts o a [] plain =
    rw (split-append o a b'/' plain.os_plain, split_of_Lacks a b'/' plain.architecture_plain)
parse_parts o a (c ∷ v) plain = rw (
  split-append o (a ++ b'/' ∷ c ∷ v) b'/' plain.os_plain,
  split-append a (c ∷ v) b'/' plain.architecture_plain,
  split_of_Lacks (c ∷ v) b'/' plain.variant_plain,
)

platform_string-ne-nil : (p : Platform) → is_empty (platform_string p) ≡ false
unfolding platform_string
platform_string-ne-nil p = ground (
  arith,
  is_empty-append p.os b'/' (p.architecture ++ b'/' ∷ p.variant),
  is_empty-append p.os b'/' p.architecture,
)

-- `ParsePlatform` reads back what `String` prints of a platform, if no field of it holds a slash and
-- the text neither begins nor ends with a blank.
pub parse_platform-platform_string :
    (p : Platform) → IsPlain p → parse_platform (platform_string p) ≡ ok p
unfolding parse_platform
parse_platform-platform_string p plain =
    rw (plain.trimmed, platform_string-ne-nil p) (parse_parts p.os p.architecture p.variant plain)

-- Whether a platform may be chosen from an index: it is no attestation, and it matches.
pub record IsChoice (p : Platform) (desc : Descriptor) : Type 0 where
  pub genuine : is_attestation desc ≡ false
  pub fitting : matches p desc ≡ true

abbrev pub Skipped : Platform → Descriptor → Type 0
Skipped p desc = (is_attestation desc ≡ true) ⊎ (matches p desc ≡ false)

find_platform_first :
    (manifests : List Descriptor) (p : Platform) {desc : Descriptor}
    → find_platform manifests p ≡ some desc
    → (before : List Descriptor) × (after : List Descriptor) × (manifests ≡ before ++ desc ∷ after)
      × All (Skipped p) before
      × IsChoice p desc
unfolding find_platform
find_platform_first [] p h = ground arith
find_platform_first (m ∷ ms) p {desc} h = elim (Bool-cases (is_attestation m)) [
  | inl skip ↦
      let (b, a, e, s, c) = find_platform_first ms p {desc = desc} (ground arith) in
      (m ∷ b, a, ap (λ r. m ∷ r) e, (inl skip, s), c)
  | inr keep ↦ elim (Bool-cases (matches p m)) [
    | inl fits ↦ ([], ms, ground arith, tt, ground arith)
    | inr differs ↦
        let (b, a, e, s, c) = find_platform_first ms p {desc = desc} (ground arith) in
        (m ∷ b, a, ap (λ r. m ∷ r) e, (inr differs, s), c)
  ]
]

find_platform-none :
    (manifests : List Descriptor) (p : Platform)
    → find_platform manifests p ≡ none
    → All (Skipped p) manifests
unfolding find_platform
find_platform-none [] p h = tt
find_platform-none (m ∷ ms) p h = ground (arith, find_platform-none ms p)

-- `SelectPlatform` returns the first descriptor that is no attestation and matches.
pub select_platform_first :
    (manifests : List Descriptor) (p : Platform) {desc : Descriptor}
    → select_platform manifests p ≡ ok desc
    → (before : List Descriptor) × (after : List Descriptor) × (manifests ≡ before ++ desc ∷ after)
      × All (Skipped p) before
      × IsChoice p desc
unfolding select_platform
select_platform_first manifests p h = find_platform_first manifests p (ground arith)

-- A platform as an attestation has it.
abbrev pub IsUnknown : Platform → Type 0
IsUnknown dp = (dp.os ≡ codes "unknown") ⊎ (dp.architecture ≡ codes "unknown")

-- What an index offers, in its order: the text of every platform that is not unknown, and the media
-- type of every descriptor without a platform.
pub data Offers : List Descriptor → List Bytes → Type 0 where
  nothing : Offers [] []
  hidden :
      {desc : Descriptor} {ds : List Descriptor} {names : List Bytes} (dp : Platform)
      → desc.platform ≡ some dp
      → IsUnknown dp
      → Offers ds names
      → Offers (desc ∷ ds) names
  offered :
      {desc : Descriptor} {ds : List Descriptor} {names : List Bytes} (dp : Platform)
      → desc.platform ≡ some dp
      → ¬ IsUnknown dp
      → Offers ds names
      → Offers (desc ∷ ds) (platform_string dp ∷ names)
  untyped :
      {desc : Descriptor} {ds : List Descriptor} {names : List Bytes}
      → desc.platform ≡ none
      → Offers ds names
      → Offers (desc ∷ ds) (desc.media_type ∷ names)

IsUnknown-cases :
    (dp : Platform)
    → let b = bytes_eq dp.os (codes "unknown") || bytes_eq dp.architecture (codes "unknown") in
      ((b ≡ true) × IsUnknown dp) ⊎ ((b ≡ false) × (¬ IsUnknown dp))
IsUnknown-cases dp = elim (Bool-cases (bytes_eq dp.os (codes "unknown"))) [
  | inl os ↦ inl (rw os refl, inl ((bytes_eq_iff _ _).0 os))
  | inr other ↦ elim (Bool-cases (bytes_eq dp.architecture (codes "unknown"))) [
    | inl arch ↦ inl (rw (other, arch) refl, inr ((bytes_eq_iff _ _).0 arch))
    | inr known ↦ inr (
      rw (other, known) refl,
      λ u. elim u [
        | inl os ↦ (let e = (bytes_eq_iff _ _).1 os in cc)
        | inr arch ↦ (let e = (bytes_eq_iff _ _).1 arch in cc)
      ],
    )
  ]
]

available-Offers : (ds : List Descriptor) → Offers ds (available ds)
unfolding available is_attestation describe
available-Offers [] = nothing
available-Offers (desc ∷ ds) =
    let rest = available-Offers ds in
    elim (Option-cases desc.platform) [
      | inl missing ↦
          let e : desc.media_type ∷ available ds ≡ available (desc ∷ ds) =
            rw (available, is_attestation, describe, missing) refl in
          subst (Offers (desc ∷ ds)) e (untyped missing rest)
      | inr (dp, there) ↦ elim (IsUnknown-cases dp) [
        | inl (b, unknown) ↦
            let e : available ds ≡ available (desc ∷ ds) =
              rw (available, is_attestation, there, b) refl in
            subst (Offers (desc ∷ ds)) e (hidden dp there unknown rest)
        | inr (b, known) ↦
            let e : platform_string dp ∷ available ds ≡ available (desc ∷ ds) =
              rw (available, is_attestation, describe, there, b) refl in
            subst (Offers (desc ∷ ds)) e (offered dp there known rest)
      ]
    ]

-- `SelectPlatform` fails only if every descriptor is an attestation or does not match, and then the
-- error holds the platform asked for and the names of what the index offers, in its order: the platform
-- of each descriptor that is no attestation, or its media type where it has no platform.
pub select_platform_none :
    (manifests : List Descriptor) (p : Platform) {e : SelectError}
    → select_platform manifests p ≡ err e
    → All (Skipped p) manifests
      × ((names : List Bytes) × (e ≡ platform_not_found p names) × Offers manifests names)
unfolding select_platform
select_platform_none manifests p {e} h =
    let skipped : All (Skipped p) manifests = ground (arith, find_platform-none manifests p) in
    let same : e ≡ platform_not_found p (available manifests) = ground arith in
    (skipped, (available manifests, same, available-Offers manifests))

-- `Matches` treats the platform of the descriptor and the one that was asked for alike.
pub matches_comm :
    (p q : Platform) (desc : Descriptor)
    → matches p (record desc { platform = some q }) ≡ matches q (record desc { platform = some p })
unfolding matches
matches_comm p q desc =
    rw
      (
        bytes_eq_comm q.os p.os,
        bytes_eq_comm q.architecture p.architecture,
        bytes_eq_comm (effective_variant q) (effective_variant p),
      )
      (ground arith)

-- ===== src/Platform.antt =====
-- internal/registry/platform.go
pub mod Laws
use imgpull.Base.{
  ℕ, ltb, ◌==◌, ◌≡◌, Bool, true, false, not, ◌&&◌, ◌||◌, Option, none, some, List, [], ◌∷◌, ◌++◌,
  Bytes, codes, bytes_eq, is_empty, trim_space, split, length, Result, ok, err, if◌then◌else◌,
}
use imgpull.Verify.{Hash}

-- `Platform`, and `v1.Platform` as far as the program reads it.
pub record Platform : Type 0 where
  pub os : Bytes
  pub architecture : Bytes
  pub variant : Bytes

-- `v1.Descriptor`, as far as the program reads it.
pub record Descriptor : Type 0 where
  pub media_type : Bytes
  pub digest : Hash
  pub platform : Option Platform

pub data PlatformError : Type 0 where
  empty_platform : PlatformError
  invalid_platform : Bytes → PlatformError

-- `ParsePlatform` behind `strings.Split`, by the number of parts.
abbrev from_parts : Bytes → List Bytes → Result PlatformError Platform
from_parts s [] = err (invalid_platform s)
from_parts s (a ∷ []) = ok (record { os = codes "linux"; architecture = a; variant = [] })
from_parts s (o ∷ a ∷ []) = ok (record { os = o; architecture = a; variant = [] })
from_parts s (o ∷ a ∷ v ∷ []) = ok (record { os = o; architecture = a; variant = v })
from_parts s (_ ∷ _ ∷ _ ∷ _ ∷ _) = err (invalid_platform s)

-- `ParsePlatform`
unfoldable pub parse_platform : Bytes → Result PlatformError Platform
parse_platform input =
    let s = trim_space input in
    if is_empty s then err empty_platform else from_parts s (split s b'/')

-- `(*Platform).String`
unfoldable pub platform_string : Platform → Bytes
platform_string p =
    if not (is_empty p.variant)
    then p.os ++ b'/' ∷ (p.architecture ++ b'/' ∷ p.variant)
    else p.os ++ b'/' ∷ p.architecture

-- The variant that `Matches` compares: an empty one stands for v1 on amd64.
unfoldable pub effective_variant : Platform → Bytes
effective_variant p =
    if is_empty p.variant && bytes_eq p.architecture (codes "amd64") then codes "v1" else p.variant

abbrev pub variants_match : Bytes → Bytes → Bool
variants_match dv pv = bytes_eq dv pv || (is_empty dv || is_empty pv)

-- `(*Platform).Matches`
unfoldable pub matches : Platform → Descriptor → Bool
matches p desc = elim desc.platform [
  | none ↦ false
  | some dp ↦
      if not (bytes_eq dp.os p.os) || not (bytes_eq dp.architecture p.architecture)
      then false
      else variants_match (effective_variant dp) (effective_variant p)
]

-- `isAttestation`; both of its later returns are false.
unfoldable pub is_attestation : Descriptor → Bool
is_attestation desc = elim desc.platform [
  | none ↦ false
  | some dp ↦ bytes_eq dp.os (codes "unknown") || bytes_eq dp.architecture (codes "unknown")
]

-- The first loop of `SelectPlatform`.
unfoldable pub find_platform : List Descriptor → Platform → Option Descriptor
find_platform [] p = none
find_platform (desc ∷ rest) p =
    let later = find_platform rest p in
    if is_attestation desc then later else if matches p desc then some desc else later

-- The text by which the second loop names a descriptor.
unfoldable pub describe : Descriptor → Bytes
unfolding platform_string
describe desc = elim desc.platform [ none ↦ desc.media_type | some dp ↦ platform_string dp ]

-- The second loop of `SelectPlatform`, which names what the index has.
unfoldable pub available : List Descriptor → List Bytes
available [] = []
available (desc ∷ rest) =
    let later = available rest in if is_attestation desc then later else describe desc ∷ later

pub data SelectError : Type 0 where
  platform_not_found : Platform → List Bytes → SelectError

-- `SelectPlatform`
unfoldable pub select_platform : List Descriptor → Platform → Result SelectError Descriptor
select_platform manifests p = elim (find_platform manifests p) [
  | some desc ↦ ok desc
  | none ↦ err (platform_not_found p (available manifests))
]

-- ===== src/Reference.antt =====
-- internal/reference/parse.go.
pub mod Laws
use imgpull.Base.{
  ℕ, ltb, ◌≡◌, Bool, true, false, Option, none, some, List, [], ◌∷◌, ◌++◌, Bytes, codes, bytes_eq,
  is_empty, trim_space, cut, take, length, Result, ok, err, if◌then◌else◌,
}

-- `name.Reference`: what the program asks of a parsed reference. `other` is a reference that is
-- neither a `name.Tag` nor a `name.Digest`.
pub data Identifier : Type 0 where
  tag digest : Bytes → Identifier
  other : Identifier

pub record NameReference : Type 0 where
  pub registry_str : Bytes
  pub repository_str : Bytes
  pub identifier : Identifier

-- Package `name` of go-containerregistry: `ParseReference`, with the `Insecure` option or without,
-- and `DefaultRegistry`.
pub record Names : Type 0 where
  pub parse_reference : Bytes → Bool → Option NameReference
  pub default_registry : Bytes

pub record Ref : Type 0 where
  pub input : Bytes
  pub reference : NameReference
  pub registry : Bytes
  pub repository : Bytes
  pub tag : Bytes
  pub digest : Bytes

pub data ReferenceError : Type 0 where
  empty_reference : ReferenceError
  unparsable : Bytes → ReferenceError

abbrev tag_of : Identifier → Bytes
tag_of (tag t) = t
tag_of _ = []

abbrev digest_of : Identifier → Bytes
digest_of (digest d) = d
digest_of _ = []

-- `Parse`
unfoldable pub parse : Names → Bytes → Bool → Result ReferenceError Ref
parse names raw insecure =
    let input = trim_space raw in
    if is_empty input then err empty_reference else (elim (names.parse_reference input insecure) [
      | none ↦ err (unparsable input)
      | some ref ↦ ok (record {
        input = input;
        reference = ref;
        registry =
            if bytes_eq ref.registry_str names.default_registry
            then codes "docker.io"
            else ref.registry_str;
        repository = ref.repository_str;
        tag = tag_of ref.identifier;
        digest = digest_of ref.identifier;
      })
    ])

abbrev first_twelve : Bytes → Bytes
first_twelve hex = if ltb 12 (length hex) then take 12 hex else hex

-- `ShortDigest`
unfoldable pub short_digest : Bytes → Bytes
short_digest d = first_twelve (elim (cut d b':') [ none ↦ d | some (_, hex) ↦ hex ])

-- `RefDir`
unfoldable pub ref_dir : Ref → Bytes
ref_dir r = if is_empty r.tag then codes "digest-" ++ short_digest r.digest else r.tag

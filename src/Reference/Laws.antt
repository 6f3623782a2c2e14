-- ===== src/Reference/Laws.antt =====
-- What a parsed reference holds, and the names derived from it.
use imgpull.Base.{
  ◌≡◌, ◌≢◌, ◌⊎◌, inl, inr, Option-cases, Bool, some, [], ◌∷◌, ◌++◌, ◌≤◌, Bytes, codes, bytes_eq,
  trim_space, cut, cut-append, Lacks, take, take_all, length, length-take, ok, arith, if◌then◌else◌,
}
use imgpull.Reference.{Names, Ref, parse, short_digest, first_twelve}

-- The short form of a digest is the first twelve characters behind its first colon.
pub short_digest_lem :
    (algorithm hex : Bytes)
    → Lacks b':' algorithm
    → short_digest (algorithm ++ b':' ∷ hex) ≡ take 12 hex
unfolding short_digest
short_digest_lem algorithm hex h =
    rw (cut-append algorithm hex b':' h) (ground (arith, take_all 12 hex))

length-first_twelve : (s : Bytes) → length (first_twelve s) ≤ 12
length-first_twelve s = ground (arith, length-take 12 s)

pub length-short_digest : (d : Bytes) → length (short_digest d) ≤ 12
unfolding short_digest
length-short_digest d = elim (Option-cases (cut d b':')) [
  | inl whole ↦ rw (whole, short_digest) (length-first_twelve d)
  | inr (halves, found) ↦ rw (found, short_digest) (length-first_twelve halves.1)
]

-- A successful parse is of the trimmed input, which is not empty and is what the library parsed; it
-- keeps no more than one of tag and digest, and shows the default registry as docker.io.
pub parse_lem :
    (names : Names) (raw : Bytes) (insecure : Bool) {r : Ref}
    → parse names raw insecure ≡ ok r
    → (r.input ≡ trim_space raw)
      × (r.input ≢ [])
      × (names.parse_reference r.input insecure ≡ some r.reference)
      × ((r.tag ≡ []) ⊎ (r.digest ≡ []))
      × (r.registry ≡ (
          if bytes_eq r.reference.registry_str names.default_registry
          then codes "docker.io"
          else r.reference.registry_str))
unfolding parse
parse_lem names raw insecure {r} h = ground arith

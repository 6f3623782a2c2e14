-- ===== src/Tests/Parsing.antt =====
-- Texts: platforms, references, challenges, escapes and errors at concrete inputs.
use imgpull.Base.{
  List, Bytes, ◌≡◌, refl, ◌<◌, ◌*◌, ◌++◌, true, false, not, ◌||◌, ◌&&◌, some, List, [], ◌∷◌, Bytes,
  codes, bytes_eq, All, trim_space, to_lower, second, ok, err, arith,
}
use imgpull.Platform.{
  Platform, Descriptor, parse_platform, platform_string, matches, select_platform, find_platform,
  is_attestation, platform_not_found, available, describe, effective_variant,
}
use imgpull.Platform.Laws.{
  Offers, IsPlain, IsChoice, Skipped, parse_platform-platform_string, select_platform_first,
  select_platform_none,
}
use imgpull.Reference.{Names, parse}
use imgpull.Retry.{
  is_retryable, needs_part_cleanup, is_auth_error, is_non_retryable, is_canceled, is_deadline,
  classify_aria2_failure, backoff_delay, base_delay,
}
use imgpull.Retry.Laws.{
  is_fatal, asks_cleanup, asks_login, classify_aria2_failure_lem, backoff_delay_bounds,
}
use imgpull.Registry.Escape.{
  url_escape, url_unescape, IsEscapedByte, url_unescape-url_escape, url_escape-All,
}
use imgpull.Registry.Challenge.{parse_challenge, Params}
use imgpull.Registry.Challenge.RoundTrip.{render, IsPlainPair, parse_challenge-render}
use imgpull.Tests.{linux, alpine}

abbrev arm : Platform
arm = record { os = codes "linux"; architecture = codes "arm64"; variant = codes "v8" }

abbrev entry : Platform → Descriptor
entry p = record {
  media_type = [];
  digest = record { algorithm = codes "sha256"; hex = [] };
  platform = some p;
}

abbrev provenance : Descriptor
provenance = entry (record { os = codes "unknown"; architecture = codes "unknown"; variant = [] })

arm-IsPlain : IsPlain arm
unfolding platform_string trim_space
arm-IsPlain = record {
  os_plain = omega arith;
  architecture_plain = omega arith;
  variant_plain = omega arith;
  trimmed = refl;
}

parse_platform-platform_string_example : parse_platform (codes "linux/arm64/v8") ≡ ok arm
unfolding platform_string
parse_platform-platform_string_example = parse_platform-platform_string arm arm-IsPlain

abbrev index : List Descriptor
index = provenance ∷ entry linux ∷ entry arm ∷ []

arm_selected : select_platform index arm ≡ ok (entry arm)
unfolding select_platform find_platform is_attestation matches effective_variant bytes_eq
arm_selected = refl

select_platform_first_example :
    (before : List Descriptor) × (after : List Descriptor) × (index ≡ before ++ entry arm ∷ after)
    × All (Skipped arm) before
    × IsChoice arm (entry arm)
select_platform_first_example = select_platform_first index arm arm_selected

abbrev windows : Platform
windows = record { os = codes "windows"; architecture = codes "amd64"; variant = [] }

windows_refused :
    select_platform index windows
    ≡ err (platform_not_found windows (codes "linux/amd64" ∷ codes "linux/arm64/v8" ∷ []))
unfolding select_platform find_platform is_attestation matches effective_variant bytes_eq available
    describe platform_string
windows_refused = refl

select_platform_none_example :
    All (Skipped windows) index
    × ((names : List Bytes) × (platform_not_found windows
            (codes "linux/amd64" ∷ codes "linux/arm64/v8" ∷ [])
          ≡ platform_not_found windows names)
        × Offers index names)
select_platform_none_example = select_platform_none index windows windows_refused

abbrev names : Names
names = record {
  parse_reference = λ _ _. some (alpine.reference);
  default_registry = codes "index.docker.io";
}

alpine_parsed : parse names (codes " r/a:1") false ≡ ok alpine
unfolding parse trim_space bytes_eq
alpine_parsed = refl

classify_aria2_failure_lem_example :
    let e = classify_aria2_failure (codes "9") (codes "Not enough disk space") in
    let fatal = is_fatal (codes "9") in
    let cleanup = asks_cleanup (codes "9") in
    let login = asks_login (codes "9") (codes "Not enough disk space") in
    (is_non_retryable e ≡ fatal)
    × (needs_part_cleanup e ≡ not fatal && cleanup)
    × (is_auth_error e ≡ not (fatal || cleanup) && login)
    × (is_retryable e ≡ not (fatal || (cleanup || login)))
    × (is_canceled e || is_deadline e ≡ false)
classify_aria2_failure_lem_example =
    classify_aria2_failure_lem (codes "9") (codes "Not enough disk space")

backoff_delay_bounds_example :
    let w = backoff_delay 9 12345 true in
    (3 * base_delay 9 < 4 * w)
    × (4 * w < 5 * base_delay 9)
    × (3 * second < 4 * w)
    × (w < 20 * second)
backoff_delay_bounds_example = backoff_delay_bounds 9 12345 true

abbrev scope : Bytes
scope = codes "repository:library/a b"

url_unescape-url_escape_example : url_unescape (url_escape scope) ≡ scope
url_unescape-url_escape_example = url_unescape-url_escape scope (omega arith)

url_escape-All_example : All IsEscapedByte (url_escape scope)
url_escape-All_example = url_escape-All scope (omega arith)

abbrev params : Params
params = (codes "Realm", codes "https://auth/token") ∷ (codes "service", codes "r") ∷ []

params_plain : All IsPlainPair params
unfolding trim_space
params_plain = (
  record {
    key_plain = omega arith;
    key_trimmed = refl;
    key_there = refl;
    quote_free = omega arith;
    backslash_free = omega arith;
  },
  (
    record {
      key_plain = omega arith;
      key_trimmed = refl;
      key_there = refl;
      quote_free = omega arith;
      backslash_free = omega arith;
    },
    tt,
  ),
)

challenge_trimmed :
    trim_space (codes "Bearer" ++ 32 ∷ render params) ≡ codes "Bearer" ++ 32 ∷ render params
unfolding trim_space
challenge_trimmed = refl

parse_challenge-render_example :
    parse_challenge (codes "Bearer Realm=\"https://auth/token\",service=\"r\"")
    ≡ ok (record {
      scheme = codes "Bearer";
      params = (codes "service", codes "r") ∷ (codes "realm", codes "https://auth/token") ∷ [];
    })
unfolding to_lower
parse_challenge-render_example =
    parse_challenge-render (codes "Bearer") params (omega arith) (omega arith) params_plain
      challenge_trimmed

-- ===== src/Tests/Requests.antt =====
-- Resolving a blob's URL at concrete answers of a registry.
use imgpull.Base.{
  ℕ, ◌≡◌, refl, ◌∙◌, true, false, ◌||◌, none, some, [], Bytes, codes, bytes_eq, bytes_eq_iff,
  bytes_eq_self, ok, err, has_prefix, has_suffix, contains,
}
use imgpull.Retry.{
  GoError, wrapped, blob_not_found, chain_has, not_found_kind, unauthorized_kind, is_canceled,
  is_deadline,
}
use imgpull.Registry.{Net, Response, Session, Repository}
use imgpull.Registry.Client.{
  ResolvedUrl, blob_url, resolve_blob_url, resolve_once, resolve_with, tries, hops, head_answer,
  redirect_hop, resolve_via_range_get, range_answer,
}
use imgpull.Registry.Address.{
  registry_scheme, parse_url_expiry, is_localhost, without_port, before_last, is_port, all_digits,
  after_prefix,
}
use imgpull.Registry.Client.Laws.{IsFold, resolve_blob_url-Confined}

-- A registry that answers every request in one way.
abbrev pub registry_with : Response → Net
registry_with resp = record {
  send = λ _ _. ok resp;
  ctx_err = λ _. none;
  now = λ n. n;
  authorization = λ _. none;
  base64 = λ s. s;
  decode_token = λ _. none;
  parse_location = λ _ location. some location;
  host = λ url. url;
  same_fold = bytes_eq;
  query = λ _ _. [];
  parse_time = λ _ _. none;
  insecure = false;
}

abbrev pub repository : Repository
repository = record { registry_str = codes "r"; repository_str = codes "a"; pull_scope = codes "s" }

abbrev pub fresh_session : Session
fresh_session = record {
  auth = record { auth_value = []; expires_at = 0; refreshed = false };
  skip_head = false;
  range_blind = false;
  tick = 0;
}

abbrev pub answer : ℕ → Bytes → Response
answer status location = record {
  status = status;
  location = location;
  www_authenticate = [];
  body = [];
}

abbrev pub redirecting : Net
redirecting = registry_with (answer 307 (codes "https://cdn/ll"))

redirecting-IsFold : IsFold redirecting
redirecting-IsFold = record {
  same_refl = bytes_eq_self;
  same_trans = λ a b c h k.
      let ab : a ≡ b = (bytes_eq_iff a b).0 h in
      let bc : b ≡ c = (bytes_eq_iff b c).0 k in (bytes_eq_iff a c).1 (ab ∙ bc);
}

abbrev at_cdn : ResolvedUrl
at_cdn = record { url = codes "https://cdn/ll"; headers = []; expires_at = 0 }

redirected :
    (resolve_blob_url redirecting repository (codes "sha256:ll") false fresh_session).1 ≡ ok at_cdn
unfolding resolve_blob_url tries resolve_once resolve_with hops head_answer redirect_hop blob_url
    bytes_eq parse_url_expiry
redirected = refl

other_host :
    redirecting.same_fold
      (redirecting.host at_cdn.url)
      (redirecting.host (blob_url redirecting repository (codes "sha256:ll")))
    ≡ false
unfolding blob_url bytes_eq
other_host = refl

resolve_blob_url-Confined_example : at_cdn.headers ≡ []
resolve_blob_url-Confined_example =
    resolve_blob_url-Confined redirecting repository (codes "sha256:ll") redirecting-IsFold false
      fresh_session at_cdn redirected other_host

abbrev lacking : Net
lacking = registry_with (answer 404 [])

abbrev missing : GoError
missing = wrapped blob_not_found

once_missing :
    (resolve_once lacking repository (codes "sha256:ll") false fresh_session).1 ≡ err missing
unfolding resolve_once resolve_with hops head_answer resolve_via_range_get range_answer
once_missing = refl

missing_kind : chain_has not_found_kind missing ≡ true
unfolding chain_has
missing_kind = refl

missing_no_auth : chain_has unauthorized_kind missing ≡ false
unfolding chain_has
missing_no_auth = refl

missing_no_stop : is_canceled missing || is_deadline missing ≡ false
unfolding chain_has is_canceled is_deadline
missing_no_stop = refl

-- Local registries are spoken to without TLS, with a port or without, and others with it.
schemes :
    (registry_scheme (codes "localhost:5000") false ≡ codes "http")
    × (registry_scheme (codes "127.0.0.1:80") false ≡ codes "http")
    × (registry_scheme (codes "a.localhost") false ≡ codes "http")
    × (registry_scheme (codes "localhost.org") false ≡ codes "https")
    × (registry_scheme (codes "quay.io") true ≡ codes "http")
unfolding registry_scheme is_localhost without_port before_last is_port all_digits after_prefix
    has_suffix has_prefix contains bytes_eq
schemes = (refl, refl, refl, refl, refl)

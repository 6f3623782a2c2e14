-- ===== src/Registry/Client.antt =====
-- internal/registry/client.go: resolving a blob's URL.
pub mod Laws
use imgpull.Base.{
  ℕ, zero, suc, ltb, leb, ◌+◌, ◌*◌, ◌==◌, ◌≡◌, Bool, true, false, not, ◌&&◌, ◌||◌, Option, none,
  some, List, [], ◌∷◌, ◌++◌, Bytes, codes, is_empty, second, if◌then◌else◌, Result, ok, err,
}
use imgpull.Retry.{
  GoError, plain, wrapped, blob_not_found, unauthorized, unauthorized_kind, not_found_kind,
  is_canceled, is_deadline, chain_has,
}
use imgpull.Registry.{Net, Request, Response, Session, Repository, Method, head, get, wait, between}
use imgpull.Registry.Address.{registry_scheme, parse_url_expiry}
use imgpull.Registry.Auth.{failure, invalidate, header}

-- `ResolvedURL`; `expires_at` is 0 when unknown.
pub record ResolvedUrl : Type 0 where
  pub url : Bytes
  pub headers : List Bytes
  pub expires_at : ℕ

abbrev pub Outcome : Type 0
Outcome = Session × Result GoError ResolvedUrl

abbrev pub authorization_line : Bytes → Bytes
authorization_line value = codes "Authorization: " ++ value

-- `if header != "" { headers = … }`
abbrev pub header_lines : Bytes → List Bytes
header_lines [] = []
header_lines (c ∷ v) = authorization_line (c ∷ v) ∷ []

abbrev pub latch : Session → Session
latch s = record s { skip_head = true }

-- A 404 or 400 to HEAD is believed only if the ranged GET agrees; if not, HEAD is skipped later.
abbrev pub confirm : Outcome → Outcome
confirm (s, ok res) = (latch s, ok res)
confirm (s, err e) = (s, err e)

-- What the loop does with one response: a URL on the same host to go on with, or an end.
pub data Hop : Type 0 where
  follow : Bytes → Hop
  finish : Outcome → Hop

-- How `ResolveBlobURL` goes on after a failed try.
pub data Next : Type 0 where
  stop : GoError → Next
  again : Session → ℕ → GoError → Next

module _ (net : Net) (repo : Repository) (digest : Bytes) where
  -- `(*Client).blobURL`
  unfoldable pub blob_url : Bytes
  unfolding registry_scheme
  blob_url =
      registry_scheme repo.registry_str net.insecure
      ++ codes "://"
      ++ repo.registry_str
      ++ codes "/v2/"
      ++ repo.repository_str
      ++ codes "/blobs/"
      ++ digest

  abbrev pub range_request : Bytes → Request
  range_request value = record {
    method = get;
    url = blob_url;
    authorization = value;
    ranged = true;
    basic = none;
  }

  -- The redirect of a ranged GET.
  unfoldable pub follow_range : Bytes → Response → Result GoError ResolvedUrl
  follow_range value resp =
      if is_empty resp.location
      then err failure
      else (elim (net.parse_location blob_url resp.location) [
        | none ↦ err failure
        | some next ↦
            if net.same_fold (net.host next) (net.host blob_url)
            then ok (record { url = next; headers = authorization_line value ∷ []; expires_at = 0 })
            else ok (record { url = next; headers = []; expires_at = parse_url_expiry net next })
      ])

  -- The switch of `resolveViaRangeGet`.
  unfoldable pub range_answer : Bytes → Response → Session → Outcome
  unfolding follow_range
  range_answer value resp s =
      if between 300 400 resp.status
      then (s, follow_range value resp)
      else if resp.status == 200
      then (
        record s { range_blind = true },
        ok (record { url = blob_url; headers = header_lines value; expires_at = 0 }),
      )
      else if resp.status == 206
      then (s, ok (record { url = blob_url; headers = header_lines value; expires_at = 0 }))
      else if resp.status == 401 || resp.status == 403
      then (s, err unauthorized)
      else if resp.status == 404 || resp.status == 400
      then (s, err (wrapped blob_not_found))
      else (s, err failure)

  -- `resolveViaRangeGet`
  unfoldable pub resolve_via_range_get : Bytes → Session → Outcome
  resolve_via_range_get value s = elim (net.send s.tick (range_request value)) [
    | err e ↦ (wait s, err e)
    | ok resp ↦ range_answer value resp (wait s)
  ]

  unfoldable pub redirect_hop : Bytes → Response → Session → Hop
  redirect_hop url resp s =
      if is_empty resp.location
      then finish (s, err failure)
      else (elim (net.parse_location url resp.location) [
        | none ↦ finish (s, err failure)
        | some next ↦
            if net.same_fold (net.host next) (net.host url)
            then follow next
            else finish (
              s,
              ok (record { url = next; headers = []; expires_at = parse_url_expiry net next }),
            )
      ])

  unfoldable pub head_answer : Bytes → Bytes → Response → Session → Hop
  head_answer value url resp s =
      if between 300 400 resp.status
      then redirect_hop url resp s
      else if resp.status == 200 || resp.status == 206
      then finish (s, ok (record { url = url; headers = header_lines value; expires_at = 0 }))
      else if resp.status == 401 || resp.status == 403
      then finish (s, err unauthorized)
      else if resp.status == 405 || resp.status == 501
      then finish (resolve_via_range_get value (latch s))
      else if resp.status == 404 || resp.status == 400
      then finish (confirm (resolve_via_range_get value s))
      else finish (resolve_via_range_get value s)

  abbrev pub head_request : Bytes → Bytes → Request
  head_request value url = record {
    method = head;
    url = url;
    authorization = value;
    ranged = false;
    basic = none;
  }

  -- A HEAD that fails: the run is over, or the ranged GET takes its place, now and later.
  unfoldable pub head_failed : Bytes → Session → Outcome
  head_failed value s = elim (net.ctx_err s.tick) [
    | some e ↦ (s, err e)
    | none ↦ resolve_via_range_get value (latch s)
  ]

  -- The loop over the hops, with the number of them left.
  unfoldable pub hops : ℕ → Bytes → Bytes → Session → Outcome
  hops zero value url s = (s, err failure)
  hops (suc k) value url s = elim (net.send s.tick (head_request value url)) [
    | err _ ↦ head_failed value (wait s)
    | ok resp ↦ elim (head_answer value url resp (wait s)) [
      | finish out ↦ out
      | follow next ↦ hops k value next (wait s)
    ]
  ]

  -- `resolveBlobURLOnce` behind the authorization.
  unfoldable pub resolve_with : Bytes → Session → Outcome
  resolve_with value s =
      if s.skip_head then resolve_via_range_get value s else hops 6 value blob_url s

  -- `resolveBlobURLOnce`; `auth` says that there is an authenticator.
  unfoldable pub resolve_once : Bool → Session → Outcome
  resolve_once false s = resolve_with [] s
  resolve_once true s =
      let h = header net repo s in
      elim (h.1) [ err e ↦ (h.0, err e) | ok value ↦ resolve_with value h.0 ]

  -- The pause between two tries ends early when the run is canceled.
  abbrev pub pause : Session → ℕ → GoError → Next
  pause s not_found e = elim (net.ctx_err s.tick) [
    | some c ↦ stop c
    | none ↦ again (wait s) not_found e
  ]

  unfoldable pub after_failure : Bool → ℕ → GoError → Session → Next
  after_failure auth not_found e s =
      if chain_has unauthorized_kind e && auth
      then again (invalidate s) not_found e
      else if is_canceled e || is_deadline e
      then stop e
      else if chain_has not_found_kind e
      then (if leb 3 (not_found + 1) then stop e else pause s (not_found + 1) e)
      else pause s not_found e

  -- The loop of `ResolveBlobURL`, with the tries left, the 404s so far and the last error.
  unfoldable pub tries : Bool → ℕ → ℕ → GoError → Session → Outcome
  tries auth zero not_found last s = (s, err last)
  tries auth (suc k) not_found last s =
      let once = resolve_once auth s in
      elim (once.1) [
        | ok res ↦ (once.0, ok res)
        | err e ↦ elim (after_failure auth not_found e once.0) [
          | stop c ↦ (once.0, err c)
          | again s' n e' ↦ tries auth k n e' s'
        ]
      ]

  -- `ResolveBlobURL`
  unfoldable pub resolve_blob_url : Bool → Session → Outcome
  resolve_blob_url auth s = tries auth 3 0 failure s

-- `ProbeRangeBlind`; the headers that its callers pass are the authorization or none.
unfoldable pub probe_range_blind : Net → Bytes → Bytes → Session → Session × Bool
probe_range_blind net url value s =
    elim (net.send s.tick
      (record { method = get; url = url; authorization = value; ranged = true; basic = none })) [
        | err _ ↦ (wait s, false)
        | ok resp ↦ (wait s, resp.status == 200)
      ]

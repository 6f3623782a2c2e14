-- ===== src/Registry/Auth.antt =====
-- internal/registry/auth.go: `Authenticator`.
use imgpull.Base.{
  ℕ, ltb, ◌+◌, ◌*◌, ◌==◌, Bool, true, false, not, ◌&&◌, ◌||◌, Option, none, some, List, [], ◌∷◌,
  ◌++◌, Bytes, codes, bytes_eq, is_empty, to_lower, second, if◌then◌else◌, Result, ok, err,
}
use imgpull.Retry.{GoError, plain, wrapped}
use imgpull.Registry.{
  Net, Request, Response, Session, Credentials, TokenResponse, Repository, get, wait, between,
}
use imgpull.Registry.Address.{registry_scheme, add_seconds}
use imgpull.Registry.Escape.{encode_query}
use imgpull.Registry.Challenge.{Challenge, param, parse_challenge}

-- An error that the package makes; its text is left out.
abbrev pub failure : GoError
failure = plain []

abbrev pub hour : ℕ
hour = 3600 * second

-- `Invalidate`
unfoldable pub invalidate : Session → Session
invalidate s = record s { auth = record { auth_value = []; expires_at = 0; refreshed = false } }

-- `resolveCreds`, on what the keychain's `Authorization` gives: `none` for every error and for nil.
unfoldable pub resolve_creds : Net → Repository → Option Credentials
resolve_creds net repo = elim (net.authorization repo.registry_str) [
  | none ↦ none
  | some auth ↦
      let password : Bytes =
        if not (is_empty auth.identity_token) && is_empty auth.password
        then auth.identity_token
        else auth.password in
      if is_empty auth.username && is_empty password
      then none
      else some (record auth { password = password })
]

-- The credentials that are sent: those with a user name.
unfoldable pub named_creds : Net → Repository → Option Credentials
unfolding resolve_creds
named_creds net repo = elim (resolve_creds net repo) [
  | none ↦ none
  | some creds ↦ if is_empty creds.username then none else some creds
]

-- `basicValue`
unfoldable pub basic_value : Net → Repository → Result GoError Bytes
basic_value net repo = elim (named_creds net repo) [
  | none ↦ err failure
  | some creds ↦ ok (codes "Basic " ++ net.base64 (creds.username ++ b':' ∷ creds.password))
]

abbrev optional_pair : Bytes → Bytes → List (Bytes × Bytes)
optional_pair key [] = []
optional_pair key (c ∷ v) = (key, c ∷ v) ∷ []

abbrev account_pair : Option Credentials → List (Bytes × Bytes)
account_pair none = []
account_pair (some creds) = (codes "account", creds.username) ∷ []

abbrev basic_pair : Option Credentials → Option (Bytes × Bytes)
basic_pair none = none
basic_pair (some creds) = some (creds.username, creds.password)

-- The request of `fetchBearerLocked` for a realm.
abbrev token_request : Net → Repository → Challenge → Request
token_request net repo c =
    let creds = named_creds net repo in
    record {
      method = get;
      url =
          param (codes "realm") c.params
          ++ b'?'
            ∷ encode_query (
                (codes "scope", repo.pull_scope)
                ∷ (optional_pair (codes "service") (param (codes "service") c.params)
                    ++ account_pair creds));
      authorization = [];
      ranged = false;
      basic = basic_pair creds;
    }

abbrev token_text : TokenResponse → Bytes
token_text tok = if is_empty tok.token then tok.access_token else tok.token

-- The seconds that are added to a time, as a duration of 64 bits.
abbrev lifetime : TokenResponse → ℕ
lifetime tok = if ltb 0 tok.expires_in then tok.expires_in else 60

-- `IssuedAt` counts if it parses and is not the zero time.
unfoldable pub expiry : ℕ → TokenResponse → ℕ
unfolding add_seconds
expiry now tok = elim tok.issued_at [
  | none ↦ add_seconds (lifetime tok) now
  | some t ↦ if t == 0 then add_seconds (lifetime tok) now else add_seconds (lifetime tok) t
]

abbrev authorized : Bytes → ℕ → Session → Session
authorized value expires s = record s {
  auth = record { auth_value = value; expires_at = expires; refreshed = true };
}

module _ (net : Net) (repo : Repository) where
  -- What `fetchBearerLocked` makes of the response.
  unfoldable pub accept_token : Response → Session → Session × Result GoError (Unit {0})
  accept_token resp s =
      if resp.status == 200
      then (elim (net.decode_token resp.body) [
        | none ↦ (s, err failure)
        | some tok ↦ if is_empty (token_text tok) then (s, err failure) else (
          authorized (codes "Bearer " ++ token_text tok) (expiry (net.now s.tick) tok) s,
          ok tt,
        )
      ])
      else (s, err failure)

  -- `fetchBearerLocked`
  unfoldable pub fetch_bearer : Challenge → Session → Session × Result GoError (Unit {0})
  fetch_bearer c s =
      if is_empty (param (codes "realm") c.params)
      then (s, err failure)
      else (elim (net.send s.tick (token_request net repo c)) [
        | err e ↦ (wait s, err (wrapped e))
        | ok resp ↦ accept_token resp (wait s)
      ])

  -- `handleChallengeLocked`
  unfoldable pub handle_challenge : Bytes → Session → Session × Result GoError (Unit {0})
  handle_challenge header s = elim (parse_challenge header) [
    | err _ ↦ (s, err failure)
    | ok c ↦
        if bytes_eq (to_lower c.scheme) (codes "bearer")
        then fetch_bearer c s
        else if bytes_eq (to_lower c.scheme) (codes "basic")
        then (elim (basic_value net repo) [
          | err e ↦ (s, err e)
          | ok value ↦ (authorized value (net.now s.tick + hour) s, ok tt)
        ])
        else (s, err failure)
  ]

  abbrev ping_request : Request
  ping_request = record {
    method = get;
    url =
        registry_scheme repo.registry_str net.insecure
        ++ codes "://"
        ++ repo.registry_str
        ++ codes "/v2/";
    authorization = [];
    ranged = false;
    basic = none;
  }

  -- `refreshLocked`
  unfoldable pub refresh : Session → Session × Result GoError (Unit {0})
  refresh s = elim (net.send s.tick ping_request) [
    | err e ↦ (wait s, err (wrapped e))
    | ok resp ↦
        if between 200 300 resp.status
        then (authorized [] (net.now s.tick + hour) (wait s), ok tt)
        else if resp.status == 401
        then handle_challenge resp.www_authenticate (wait s)
        else (wait s, err failure)
  ]

  -- Whether `Header` answers from the cache.
  abbrev pub is_fresh : Session → Bool
  is_fresh s =
      s.auth.refreshed
      && (is_empty (s.auth.auth_value) || ltb (net.now s.tick + 30 * second) (s.auth.expires_at))

  abbrev give_value : Session × Result GoError (Unit {0}) → Session × Result GoError Bytes
  give_value (s, ok _) = (s, ok (s.auth.auth_value))
  give_value (s, err e) = (s, err e)

  -- `Header`
  unfoldable pub header : Session → Session × Result GoError Bytes
  header s = if is_fresh s then (s, ok (s.auth.auth_value)) else give_value (refresh s)

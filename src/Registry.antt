-- ===== src/Registry.antt =====
-- internal/registry: the HTTP side, which the authenticator and the client share.
pub mod Escape
pub mod Challenge
pub mod Address
pub mod Auth
pub mod Client
use imgpull.Base.{
  ℕ, ltb, leb, ◌+◌, ◌==◌, ◌≡◌, Bool, true, false, ◌&&◌, ◌||◌, Option, none, some, List, [], ◌∷◌,
  ◌++◌, Bytes, codes, bytes_eq, is_empty, if◌then◌else◌, Result,
}
use imgpull.Retry.{GoError}

pub data Method : Type 0 where
  head get : Method

-- A request, as far as the program sets it up. An empty `authorization` is no such header, and
-- `basic` is what `SetBasicAuth` is given.
pub record Request : Type 0 where
  pub method : Method
  pub url : Bytes
  pub authorization : Bytes
  pub ranged : Bool
  pub basic : Option (Bytes × Bytes)

-- A response, as far as the program reads it. An absent header is empty.
pub record Response : Type 0 where
  pub status : ℕ
  pub location : Bytes
  pub www_authenticate : Bytes
  pub body : Bytes

-- `name.Repository` of go-containerregistry.
pub record Repository : Type 0 where
  pub registry_str : Bytes
  pub repository_str : Bytes
  pub pull_scope : Bytes

-- `authn.AuthConfig`
pub record Credentials : Type 0 where
  pub username : Bytes
  pub password : Bytes
  pub identity_token : Bytes

-- The JSON document of a token endpoint, with `issued_at` as `time.Parse` gives it.
pub record TokenResponse : Type 0 where
  pub token : Bytes
  pub access_token : Bytes
  pub expires_in : ℕ  -- an `int`; a negative one counts as 0, as in the source
  pub issued_at : Option ℕ

-- What lies outside of the package: the network at every step, the context, the clock, the keychain
-- and the standard library's URL, JSON, base64 and time functions; `query` is a parameter of a URL's
-- query, empty if there is none. `insecure` is the flag that the constructors are given.
pub record Net : Type 0 where
  pub send : ℕ → Request → Result GoError Response
  pub ctx_err : ℕ → Option GoError
  pub now : ℕ → ℕ
  pub authorization : Bytes → Option Credentials
  pub base64 : Bytes → Bytes
  pub decode_token : Bytes → Option TokenResponse
  pub parse_location : Bytes → Bytes → Option Bytes
  pub host : Bytes → Bytes
  pub same_fold : Bytes → Bytes → Bool
  pub query : Bytes → Bytes → Bytes
  pub parse_time : Bytes → Bytes → Option ℕ
  pub insecure : Bool

-- `Authenticator`
pub record AuthState : Type 0 where
  pub auth_value : Bytes
  pub expires_at : ℕ
  pub refreshed : Bool

-- What a resolve changes: the cached authorization, the two latches of `Client`, and `tick`, the
-- number of steps that the world outside has taken.
pub record Session : Type 0 where
  pub auth : AuthState
  pub skip_head : Bool
  pub range_blind : Bool
  pub tick : ℕ

abbrev pub wait : Session → Session
wait s = record s { tick = s.tick + 1 }

-- `a <= status && status < b`
abbrev pub between : ℕ → ℕ → ℕ → Bool
between a b status = leb a status && ltb status b

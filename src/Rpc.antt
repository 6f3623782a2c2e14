-- ===== src/Rpc.antt =====
-- internal/downloader/aria2.go: the client of aria2's JSON-RPC interface.
pub mod Endpoint
pub mod Call
pub mod Service
pub mod Daemon
pub mod Startup
pub mod Reading
use imgpull.Base.{
  ℕ, ltb, leb, ◌+◌, ◌-◌, ◌%◌, ◌^◌, ◌==◌, Bool, true, false, not, ◌&&◌, ◌||◌, Option, none, some,
  List, [], ◌∷◌, ◌++◌, Bytes, codes, is_empty, length, take, decimal, int64_text, Result, ok, err,
  ℤ, parse_int, if◌then◌else◌,
}
use imgpull.Retry.{GoError, plain, wrapped, rpc_error}
use imgpull.Scheduler.{DownloadStatus, Options}

-- The values that the client puts into `params`.
pub data Param : Type 0 where
  text : Bytes → Param
  texts : List Bytes → Param
  options : Options → Param
  number : ℕ → Param

-- `rpcRequest`
pub record Request : Type 0 where
  pub id : Bytes
  pub version : Bytes
  pub method : Bytes
  pub params : List Param

-- `rpcResponse`: the result is kept as the text that it came in, the error as its code and message.
pub record Response : Type 0 where
  pub id : Bytes
  pub result : Bytes
  pub error : Option (ℕ × Bytes)

-- An HTTP response: its status, the bytes of its body, and the error that ends the body early.
pub record HttpResponse : Type 0 where
  pub status : ℕ
  pub content : Bytes
  pub broken : Option GoError

-- What the client stands on: the process id, JSON, and the HTTP client at each step of the world.
pub record Wire : Type 0 where
  pub pid : ℕ
  pub marshal : Request → Result GoError Bytes
  pub unmarshal : Bytes → Result GoError Response
  pub bad_endpoint : Bytes → Option GoError  -- `http.NewRequestWithContext`
  pub post : ℕ → Bytes → Bytes → Result GoError HttpResponse
  pub read_text : Bytes → Result GoError Bytes
  pub read_status : Bytes → Result GoError DownloadStatus
  pub read_statuses : Bytes → Result GoError (List DownloadStatus)
  pub read_version : Bytes → Result GoError Bytes

-- `RPC`; the counter is the one of the last request.
pub record Rpc : Type 0 where
  pub endpoint : Bytes
  pub secret : Bytes
  pub id : ℕ

-- `(*DownloadStatus).Progress`: bytes done, bytes in all, bytes per second.
unfoldable pub progress : DownloadStatus → ℤ × ℤ × ℤ
progress s =
    ((parse_int s.completed_length).0, (parse_int s.total_length).0, (parse_int s.download_speed).0)

-- `truncate`
unfoldable pub truncate : Bytes → ℕ → Bytes
truncate s n = if leb (length s) n then s else take n s ++ codes "..."

-- `r.id.Add(1)`
abbrev pub next_id : ℕ → ℕ
next_id n = (n + 1) % 2 ^ 64

unfoldable pub request_id : ℕ → ℕ → Bytes
request_id pid n = codes "imgpull-" ++ (decimal pid ++ b'-' ∷ int64_text n)

-- The parameters with the secret in front, if there is one.
unfoldable pub authorize : Bytes → List Param → List Param
authorize secret params =
    if is_empty secret then params else text (codes "token:" ++ secret) ∷ params

-- `io.ReadAll` of the body behind `io.LimitReader(resp.Body, 4<<20)`.
abbrev pub body_limit : ℕ
body_limit = 4194304

unfoldable pub read_limited : ℕ → HttpResponse → Result GoError Bytes
read_limited limit r = elim r.broken [
  | none ↦ ok (take limit r.content)
  | some e ↦ if leb limit (length r.content) then ok (take limit r.content) else err e
]

-- `unmarshalErr != nil || out.Error == nil`
abbrev pub no_rpc_error : Result GoError Response → Bool
no_rpc_error (err _) = true
no_rpc_error (ok r) = elim r.error [ none ↦ true | some _ ↦ false ]

abbrev wrap_error {ℓ} : {A : Type ℓ} → Result GoError A → Result GoError A
wrap_error (err e) = err (wrapped e)
wrap_error (ok a) = ok a

abbrev pub http_error : Bytes → ℕ → Bytes → GoError
http_error method status content = plain (
    codes "aria2 rpc "
    ++ (method ++ (codes ": http " ++ (decimal status ++ (codes ": " ++ truncate content 200)))))

-- What an envelope says: its error, or its result read as the caller wants it.
unfoldable pub open_envelope {ℓ} :
    {A : Type ℓ} → (Bytes → Result GoError A) → Response → Result GoError A
open_envelope decode r = elim r.error [
  | some (code, message) ↦ err (rpc_error code message)
  | none ↦ wrap_error (decode r.result)
]

-- `Call`, from the bytes of the body on.
unfoldable pub interpret {ℓ} :
    {A : Type ℓ} → Wire → Bytes → (Bytes → Result GoError A) → ℕ → Bytes → Result GoError A
unfolding open_envelope
interpret w method decode status content =
    let out = w.unmarshal content in
    if not (status == 200) && no_rpc_error out
    then err (http_error method status content)
    else (elim out [ err e ↦ err (wrapped e) | ok r ↦ open_envelope decode r ])

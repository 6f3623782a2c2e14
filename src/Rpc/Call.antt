-- ===== src/Rpc/Call.antt =====
-- internal/downloader/aria2.go: Call and the methods that go by it.
use imgpull.Base.{ℕ, Option, none, some, List, [], ◌∷◌, Bytes, codes, Result, ok, err, ◌>>=◌}
use imgpull.Retry.{GoError, wrapped}
use imgpull.Scheduler.{DownloadStatus, Options}
use imgpull.Rpc.{
  Wire, Rpc, Request, Param, text, texts, options, number, request_id, next_id, authorize,
  read_limited, body_limit, interpret,
}

unfoldable pub request_of : Wire → Rpc → Bytes → List Param → Request
unfolding request_id authorize
request_of w r method params = record {
  id = request_id w.pid (next_id r.id);
  version = codes "2.0";
  method = method;
  params = authorize r.secret params;
}

-- `Call`, from the request to its answer. A nil result is a `decode` that reads nothing.
unfoldable pub exchange {ℓ} :
    {A : Type ℓ}
    → Wire
    → ℕ
    → Rpc
    → Bytes
    → List Param
    → (Bytes → Result GoError A)
    → Result GoError A
unfolding request_of read_limited interpret
exchange w tick r method params decode = w.marshal (request_of w r method params) >>= λ body.
    elim (w.bad_endpoint r.endpoint) [
      | some e ↦ err e
      | none ↦ elim (w.post tick r.endpoint body) [
        | err e ↦ err (wrapped e)
        | ok response ↦ read_limited body_limit response >>= λ content.
            interpret w method decode response.status content
      ]
    ]

-- `Call`: the counter goes up whatever comes of it.
unfoldable pub call {ℓ} :
    {A : Type ℓ}
    → Wire
    → ℕ
    → Rpc
    → Bytes
    → List Param
    → (Bytes → Result GoError A)
    → Rpc × Result GoError A
unfolding exchange
call w tick r method params decode =
    (record r { id = next_id r.id }, exchange w tick r method params decode)

abbrev pub nothing : Bytes → Result GoError (Unit {0})
nothing _ = ok tt

-- `if options != nil`
abbrev option_params : Option Options → List Param
option_params none = []
option_params (some o) = options o ∷ []

unfoldable pub add_uri : Wire → ℕ → Rpc → List Bytes → Option Options → Rpc × Result GoError Bytes
unfolding call
add_uri w tick r uris o =
    call w tick r (codes "aria2.addUri") (texts uris ∷ option_params o) w.read_text

unfoldable pub tell_status : Wire → ℕ → Rpc → Bytes → Rpc × Result GoError DownloadStatus
unfolding call
tell_status w tick r gid = call w tick r (codes "aria2.tellStatus") (text gid ∷ []) w.read_status

unfoldable pub tell_active : Wire → ℕ → Rpc → Rpc × Result GoError (List DownloadStatus)
unfolding call
tell_active w tick r = call w tick r (codes "aria2.tellActive") [] w.read_statuses

unfoldable pub tell_waiting : Wire → ℕ → Rpc → Rpc × Result GoError (List DownloadStatus)
unfolding call
tell_waiting w tick r =
    call w tick r (codes "aria2.tellWaiting") (number 0 ∷ number 1000 ∷ []) w.read_statuses

unfoldable pub remove_download_result : Wire → ℕ → Rpc → Bytes → Rpc × Result GoError (Unit {0})
unfolding call
remove_download_result w tick r gid =
    call w tick r (codes "aria2.removeDownloadResult") (text gid ∷ []) nothing

unfoldable pub force_remove : Wire → ℕ → Rpc → Bytes → Rpc × Result GoError (Unit {0})
unfolding call
force_remove w tick r gid = call w tick r (codes "aria2.forceRemove") (text gid ∷ []) nothing

unfoldable pub get_version : Wire → ℕ → Rpc → Rpc × Result GoError Bytes
unfolding call
get_version w tick r = call w tick r (codes "aria2.getVersion") [] w.read_version

unfoldable pub shutdown : Wire → ℕ → Rpc → Rpc × Result GoError (Unit {0})
unfolding call
shutdown w tick r = call w tick r (codes "aria2.shutdown") [] nothing

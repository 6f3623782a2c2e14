-- ===== src/Rpc/Service.antt =====
-- internal/downloader/aria2.go: the client against aria2 as a function from requests to answers.
use mathlib.Core.Path.{fun_ext}
use imgpull.Base.{
  ℕ, ◌≡◌, ◌≤◌, ◌==◌, ◌≢◌, ◌⊎◌, inl, inr, refl, none, some, List, [], ◌∷◌, ◌++◌, Bytes, codes,
  length, take_all, Bool-cases, Result, ok, err, arith,
}
use imgpull.Files.{Disk}
use imgpull.Retry.{GoError, wrapped, rpc_error}
use imgpull.Scheduler.{Aria2}
use imgpull.Rpc.{
  Wire, Rpc, Request, Param, text, texts, options, number, HttpResponse, authorize, read_limited,
  body_limit, open_envelope, interpret,
}
use imgpull.Rpc.Call.{request_of, exchange, call, add_uri, tell_status, tell_active, tell_waiting}

-- What aria2 makes of a request: the text of a result, or a code and a message.
pub data Answer : Type 0 where
  returned : Bytes → Answer
  refused : ℕ → Bytes → Answer

-- The answer at each step, to a method and its parameters without the secret.
abbrev pub Service : Type 0
Service = ℕ → Bytes → List Param → Answer

-- A result comes with the status 200, an error with any status.
abbrev pub Carries : Wire → Answer → HttpResponse → Type 0
Carries w (returned v) h =
    (h.status ≡ 200)
    × (id : Bytes) × (w.unmarshal h.content ≡ ok (record { id = id; result = v; error = none }))
Carries w (refused code message) h =
    (id : Bytes) × (v : Bytes) × (w.unmarshal h.content
      ≡ ok (record { id = id; result = v; error = some (code, message) }))

-- What stands in a request for `params` to a server with this secret.
abbrev pub Presents : Bytes → List Param → List Param → Type 0
Presents secret params sent =
    ((secret ≡ []) × (sent ≡ params))
    ⊎ ((secret ≢ []) × (sent ≡ text (codes "token:" ++ secret) ∷ params))

-- The wire leads to an aria2 that answers as `service` does, in less than 4 MiB.
pub record Serves (w : Wire) (r : Rpc) (service : Service) : Type 0 where
  pub reachable : w.bad_endpoint r.endpoint ≡ none
  pub answered :
      (tick : ℕ) (q : Request) (params : List Param)
      → q.version ≡ codes "2.0"
      → Presents r.secret params q.params
      → (body : Bytes) × (h : HttpResponse) × (w.marshal q ≡ ok body)
        × (w.post tick r.endpoint body ≡ ok h)
        × (h.broken ≡ none)
        × (length h.content ≤ body_limit)
        × Carries w (service tick q.method params) h

-- What the caller of a method has from an answer.
abbrev pub answer_of {ℓ} : {A : Type ℓ} → (Bytes → Result GoError A) → Answer → Result GoError A
answer_of decode (returned v) = elim (decode v) [ err e ↦ err (wrapped e) | ok a ↦ ok a ]
answer_of decode (refused code message) = err (rpc_error code message)

authorize-Presents :
    (secret : Bytes) (params : List Param) → Presents secret params (authorize secret params)
unfolding authorize
authorize-Presents [] params = inl (refl, refl)
authorize-Presents (c ∷ s) params = inr (ground arith, refl)

module _ {ℓ} {A : Type ℓ} (w : Wire) (method : Bytes) (decode : Bytes → Result GoError A) where
  interpret_lem :
      (answer : Answer) (h : HttpResponse)
      → Carries w answer h
      → interpret w method decode h.status h.content ≡ answer_of decode answer
  unfolding interpret open_envelope
  interpret_lem (returned v) h (good, id, reads) =
      rw (good, reads) (elim (decode v) [ err e ↦ refl | ok a ↦ refl ])
  interpret_lem (refused code message) h (id, v, reads) = elim (Bool-cases (h.status == 200)) [
    | inl good ↦ rw (good, reads) refl
    | inr bad ↦ rw (bad, reads) refl
  ]

module _ {ℓ} {A : Type ℓ} (w : Wire) (r : Rpc) (service : Service) (s : Serves w r service) where
  -- `Call` gives what the service answers.
  exchange_lem :
      (tick : ℕ) (method : Bytes) (params : List Param) (decode : Bytes → Result GoError A)
      → exchange w tick r method params decode ≡ answer_of decode (service tick method params)
  unfolding exchange request_of read_limited
  exchange_lem tick method params decode =
      let (body, h, encoded, posted, whole, short, carried) =
        s.answered tick (request_of w r method params) params refl
          (authorize-Presents r.secret params) in
      rw (encoded, s.reachable, posted, whole, take_all body_limit h.content short)
        (interpret_lem w method decode (service tick method params) h carried)

-- The client as the scheduler has it, where `counter` is the client's counter at each step.
unfoldable pub client : Wire → Rpc → (ℕ → ℕ) → (ℕ → Disk → Disk) → (GoError → Bytes) → Aria2
unfolding add_uri tell_status tell_active tell_waiting
client w r counter works text_of =
    let rpc : ℕ → Rpc = λ tick. record r { id = counter tick } in
    record {
      works = works;
      tell_active = λ tick. (tell_active w tick (rpc tick)).1;
      tell_waiting = λ tick. (tell_waiting w tick (rpc tick)).1;
      tell_status = λ tick gid. (tell_status w tick (rpc tick) gid).1;
      add_uri = λ tick url o. (add_uri w tick (rpc tick) (url ∷ []) (some o)).1;
      text = text_of;
    }

-- The service itself in the client's place.
pub direct : Wire → Service → (ℕ → Disk → Disk) → (GoError → Bytes) → Aria2
direct w service works text_of = record {
  works = works;
  tell_active = λ tick. answer_of w.read_statuses (service tick (codes "aria2.tellActive") []);
  tell_waiting = λ tick.
      answer_of w.read_statuses
        (service tick (codes "aria2.tellWaiting") (number 0 ∷ number 1000 ∷ []));
  tell_status =
      λ tick gid. answer_of w.read_status (service tick (codes "aria2.tellStatus") (text gid ∷ []));
  add_uri = λ tick url o.
      answer_of w.read_text
        (service tick (codes "aria2.addUri") (texts (url ∷ []) ∷ options o ∷ []));
  text = text_of;
}

module _ (w : Wire) (r : Rpc) (service : Service) (s : Serves w r service) where
  counted : (n : ℕ) → Serves w (record r { id = n }) service
  counted n = record { reachable = s.reachable; answered = s.answered }

  -- Where the wire leads to an aria2 that answers every request with the right secret in less than
  -- 4 MiB, an error with any HTTP status, the client is for the scheduler what that aria2 is: each of
  -- its four calls gives the service's answer to the method and the parameters, whatever the counter
  -- of requests is.
  pub client_refines :
      (counter : ℕ → ℕ) (works : ℕ → Disk → Disk) (text_of : GoError → Bytes)
      → client w r counter works text_of ≡ direct w service works text_of
  unfolding client direct add_uri tell_status tell_active tell_waiting call
  client_refines counter works text_of = λ i. record {
    works = works;
    tell_active =
        fun_ext
          (λ tick.
            exchange_lem w (record r { id = counter tick }) service (counted (counter tick)) tick
              (codes "aria2.tellActive") [] w.read_statuses)
          i;
    tell_waiting =
        fun_ext
          (λ tick.
            exchange_lem w (record r { id = counter tick }) service (counted (counter tick)) tick
              (codes "aria2.tellWaiting") (number 0 ∷ number 1000 ∷ []) w.read_statuses)
          i;
    tell_status =
        fun_ext
          (λ tick. fun_ext (λ gid.
            exchange_lem w (record r { id = counter tick }) service (counted (counter tick)) tick
              (codes "aria2.tellStatus") (text gid ∷ []) w.read_status))
          i;
    add_uri =
        fun_ext
          (λ tick. fun_ext (λ url. fun_ext (λ o.
            exchange_lem w (record r { id = counter tick }) service (counted (counter tick)) tick
              (codes "aria2.addUri") (texts (url ∷ []) ∷ options o ∷ []) w.read_text)))
          i;
    text = text_of;
  }

-- ===== src/Registry/Client/Laws.antt =====
-- The headers that go with a resolved URL, and the requests of a resolve (internal/registry).
use imgpull.Base.{
  ℕ, zero, suc, ◌==◌, ◌≡◌, refl, ◌⊎◌, inl, inr, ◌∙◌, Bool, true, false, ◌||◌, [], Bytes, is_empty,
  Bool-cases, Option-cases, Result-cases, if◌then◌else◌, ok, err, arith,
}
use imgpull.Retry.{GoError}
use imgpull.Registry.{Net, Response, Session, Repository, wait, between}
use imgpull.Registry.Auth.{failure, header}
use imgpull.Registry.Client.{
  ResolvedUrl, Outcome, Hop, follow, finish, blob_url, range_answer, resolve_via_range_get,
  redirect_hop, head_answer, head_failed, hops, resolve_with, resolve_once, tries, resolve_blob_url,
  after_failure, range_request, head_request, confirm, latch, Next, stop, again,
}

-- `strings.EqualFold` is an equivalence.
pub record IsFold (net : Net) : Type 0 where
  pub same_refl : (a : Bytes) → net.same_fold a a ≡ true
  pub same_trans :
      (a b c : Bytes)
      → net.same_fold a b ≡ true
      → net.same_fold b c ≡ true
      → net.same_fold a c ≡ true

Hop-cases : (h : Hop) → ((out : Outcome) × (h ≡ finish out)) ⊎ ((next : Bytes) × (h ≡ follow next))
Hop-cases (finish out) = inl (out, refl)
Hop-cases (follow next) = inr (next, refl)

Next-cases :
    (n : Next)
    → ((e : GoError) × (n ≡ stop e)) ⊎ ((s : Session) × (k : ℕ) × (e : GoError) × (n ≡ again s k e))
Next-cases (stop e) = inl (e, refl)
Next-cases (again s k e) = inr (s, k, e, refl)

module _ (net : Net) (repo : Repository) (digest : Bytes) where
  -- A resolved URL on another host than the registry's comes with no header at all.
  abbrev pub Confined : ResolvedUrl → Type 0
  Confined res =
      net.same_fold (net.host res.url) (net.host (blob_url net repo digest)) ≡ false
      → res.headers ≡ []

  abbrev pub OkConfined : Outcome → Type 0
  OkConfined out = (res : ResolvedUrl) → out.1 ≡ ok res → Confined res

  module _ (fold : IsFold net) where
    range_answer-Confined :
        (value : Bytes) (resp : Response) (s : Session)
        → OkConfined (range_answer net repo digest value resp s)
    unfolding range_answer
    range_answer-Confined value resp s res h far =
        let home = fold.same_refl (net.host (blob_url net repo digest)) in ground arith

    range_get-Confined :
        (value : Bytes) (s : Session) → OkConfined (resolve_via_range_get net repo digest value s)
    unfolding resolve_via_range_get
    range_get-Confined value s res h far =
        elim (Result-cases (net.send s.tick (range_request net repo digest value))) [
          | inr (e, bad) ↦ ground arith
          | inl (resp, good) ↦
              range_answer-Confined value resp (wait s) res (rw (good, resolve_via_range_get) at h)
                far
        ]

    confirm-Confined : (out : Outcome) → OkConfined out → OkConfined (confirm out)
    confirm-Confined (s, ok r) h = h
    confirm-Confined (s, err e) h = h

    abbrev HopConfined : Hop → Type 0
    HopConfined (finish out) = OkConfined out
    HopConfined (follow next) =
        net.same_fold (net.host next) (net.host (blob_url net repo digest)) ≡ true

    module _ (value url : Bytes)
        (near : net.same_fold (net.host url) (net.host (blob_url net repo digest)) ≡ true) where
      redirect-Confined :
          (resp : Response) (s : Session) → HopConfined (redirect_hop net repo digest url resp s)
      unfolding redirect_hop
      redirect-Confined resp s = elim (Bool-cases (is_empty resp.location)) [
        | inl blank ↦ rw blank (λ r h far. ground arith)
        | inr there ↦ elim (Option-cases (net.parse_location url resp.location)) [
          | inl bad ↦ rw (there, bad) (λ r h far. ground arith)
          | inr (next, good) ↦ elim (Bool-cases (net.same_fold (net.host next) (net.host url))) [
            | inl same ↦ rw (there, good, same) (fold.same_trans _ _ _ same near)
            | inr other ↦ rw (there, good, other) (λ r h far. ground arith)
          ]
        ]
      ]

      head_answer-Confined :
          (resp : Response) (s : Session)
          → HopConfined (head_answer net repo digest value url resp s)
      unfolding head_answer
      head_answer-Confined resp s = elim (Bool-cases (between 300 400 resp.status)) [
        | inl a ↦ rw a (redirect-Confined resp s)
        | inr a ↦ elim (Bool-cases (resp.status == 200 || resp.status == 206)) [
          | inl b ↦ rw (a, b) (λ r h far. ground (arith, near))
          | inr b ↦ elim (Bool-cases (resp.status == 401 || resp.status == 403)) [
            | inl c ↦ rw (a, b, c) (λ r h far. ground arith)
            | inr c ↦ elim (Bool-cases (resp.status == 405 || resp.status == 501)) [
              | inl d ↦ rw (a, b, c, d) (range_get-Confined value (latch s))
              | inr d ↦ elim (Bool-cases (resp.status == 404 || resp.status == 400)) [
                | inl e ↦ rw (a, b, c, d, e) (confirm-Confined _ (range_get-Confined value s))
                | inr e ↦ rw (a, b, c, d, e) (range_get-Confined value s)
              ]
            ]
          ]
        ]
      ]

    head_failed-Confined :
        (value : Bytes) (s : Session) → OkConfined (head_failed net repo digest value s)
    unfolding head_failed
    head_failed-Confined value s = elim (Option-cases (net.ctx_err s.tick)) [
      | inl live ↦ rw (live, head_failed) (range_get-Confined value (latch s))
      | inr (c, over) ↦ rw (over, head_failed) (λ r h far. ground arith)
    ]

    hops-Confined :
        (k : ℕ) (value url : Bytes) (s : Session)
        → net.same_fold (net.host url) (net.host (blob_url net repo digest)) ≡ true
        → OkConfined (hops net repo digest k value url s)
    unfolding hops
    hops-Confined zero value url s near = λ r h far. ground arith
    hops-Confined (suc k) value url s near =
        elim (Result-cases (net.send s.tick (head_request net repo digest value url))) [
          | inr (e, bad) ↦ rw (bad, hops) (head_failed-Confined value (wait s))
          | inl (resp, good) ↦
              let hop = head_answer-Confined value url near resp (wait s) in
              elim (Hop-cases (head_answer net repo digest value url resp (wait s))) [
                | inl (out, e) ↦ rw (good, hops, e) (rw e at hop)
                | inr (next, e) ↦
                    rw (good, hops, e) (hops-Confined k value next (wait s) (rw e at hop))
              ]
        ]

    if-Confined :
        (b : Bool) (x y : Outcome) → OkConfined x → OkConfined y → OkConfined (if b then x else y)
    if-Confined true x y h k = h
    if-Confined false x y h k = k

    resolve_with-Confined :
        (value : Bytes) (s : Session) → OkConfined (resolve_with net repo digest value s)
    unfolding resolve_with
    resolve_with-Confined value s =
        if-Confined (s.skip_head) _ _ (range_get-Confined value s)
          (hops-Confined 6 value (blob_url net repo digest) s (fold.same_refl _))

    resolve_once-Confined :
        (auth : Bool) (s : Session) → OkConfined (resolve_once net repo digest auth s)
    unfolding resolve_once
    resolve_once-Confined false s = resolve_with-Confined [] s
    resolve_once-Confined true s = elim (Result-cases ((header net repo s).1)) [
      | inr (e, bad) ↦ rw (bad, resolve_once) (λ r h far. ground arith)
      | inl (value, good) ↦
          rw (good, resolve_once) (resolve_with-Confined value (header net repo s).0)
    ]

    tries-Confined :
        (auth : Bool) (k n : ℕ) (last : GoError) (s : Session)
        → OkConfined (tries net repo digest auth k n last s)
    unfolding tries
    tries-Confined auth zero n last s = λ r h far. ground arith
    tries-Confined auth (suc k) n last s =
        elim (Result-cases ((resolve_once net repo digest auth s).1)) [
          | inl (res, good) ↦
              rw (good, tries) (λ r h far. resolve_once-Confined auth s r (good ∙ h) far)
          | inr (e, bad) ↦
              elim (Next-cases
                (after_failure net repo digest auth n e (resolve_once net repo digest auth s).0)) [
                  | inl (c, ended) ↦ rw (bad, tries, ended) (λ r h far. ground arith)
                  | inr (s', m, e', more) ↦ rw (bad, tries, more) (tries-Confined auth k m e' s')
                ]
        ]

    -- A resolve returns a URL on another host, as of a CDN, with no header, on every path.
    pub resolve_blob_url-Confined :
        (auth : Bool) (s : Session) (res : ResolvedUrl)
        → (resolve_blob_url net repo digest auth s).1 ≡ ok res
        → net.same_fold (net.host res.url) (net.host (blob_url net repo digest)) ≡ false
        → res.headers ≡ []
    unfolding resolve_blob_url
    resolve_blob_url-Confined auth s = tries-Confined auth 3 0 failure s

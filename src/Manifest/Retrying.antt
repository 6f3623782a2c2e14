-- ===== src/Manifest/Retrying.antt =====
-- internal/registry/manifest.go: `ResolveManifestOpts`, with the classes of errors that it goes by.
use imgpull.Base.{
  ℕ, zero, suc, leb, ◌+◌, ◌==◌, ◌≡◌, ◌∙◌, ◌<◌, Bool, true, false, ◌||◌, Option, none, some, is_some,
  Bool-cases, Option-cases, Result-cases, inl, inr, if◌then◌else◌, Result, ok, err, arith,
}
use imgpull.Retry.{
  GoError, status_error, url_error, wrapped, retryable_error, part_cleanup_error, auth_retry_error,
  non_retryable_error, is_canceled, is_deadline, chain_has,
}
use imgpull.Manifest.{ImageManifest}
use imgpull.Manifest.Fetch.{Remote, resolve_manifest_once}
use imgpull.Manifest.Checked.{IsChecked, resolve_manifest_once-IsChecked}
use imgpull.Platform.{Platform}

-- `errors.As` on `*transport.Error`: the status code of the first one in the chain.
unfoldable pub first_status : GoError → Option ℕ
first_status (status_error n) = some n
first_status (url_error timeout e) = first_status e
first_status (wrapped e) = first_status e
first_status (retryable_error e) = first_status e
first_status (part_cleanup_error e) = first_status e
first_status (auth_retry_error e) = first_status e
first_status (non_retryable_error e) = first_status e
first_status _ = none

abbrev pub url_kind : GoError → Bool
url_kind (url_error _ _) = true
url_kind _ = false

-- `retryableFetchErr`
unfoldable pub retryable_fetch_err : GoError → Bool
retryable_fetch_err e = elim (first_status e) [
  | some code ↦ leb 500 code || code == 429
  | none ↦ chain_has url_kind e || is_deadline e
]

-- The context after the try of that number, and at the end of the pause behind it.
pub record Patience : Type 0 where
  pub after_try : ℕ → Option GoError
  pub after_pause : ℕ → Option GoError

module _ (remote : Remote) (plat : Platform) (patience : Patience) where
  -- Whether the loop goes on after an error on the try of that number.
  unfoldable pub gives_up : ℕ → GoError → Bool
  gives_up try e = is_canceled e || is_some (patience.after_try try)

  -- The loop, with the tries that are left after the one of that number.
  unfoldable pub fetch_loop : ℕ → ℕ → Result GoError ImageManifest
  fetch_loop zero try = elim (resolve_manifest_once remote plat try) [
    | ok m ↦ ok m
    | err e ↦ if gives_up try e then err e else err (wrapped e)
  ]
  fetch_loop (suc left) try = elim (resolve_manifest_once remote plat try) [
    | ok m ↦ ok m
    | err e ↦ elim (gives_up try e) [
      | true ↦ err e
      | false ↦ elim (retryable_fetch_err e) [
        | false ↦ err (wrapped e)
        | true ↦ elim (patience.after_pause try) [
          | some c ↦ err c
          | none ↦ fetch_loop left (try + 1)
        ]
      ]
    ]
  ]

  -- `ResolveManifestOpts`; no attempts at all stand for three.
  unfoldable pub resolve_manifest_opts : ℕ → Result GoError ImageManifest
  resolve_manifest_opts zero = fetch_loop 2 1
  resolve_manifest_opts (suc more) = fetch_loop more 1

  -- A run of tries that ends in a manifest: each one before the last failed in a way that is worth
  -- another try, with the context live after it and after the pause.
  pub data Tried : ℕ → ℕ → ImageManifest → Type 0 where
    found :
        {try : ℕ} {m : ImageManifest}
        → resolve_manifest_once remote plat try ≡ ok m
        → Tried zero try m
    retried :
        {more try : ℕ} {m : ImageManifest} (e : GoError)
        → resolve_manifest_once remote plat try ≡ err e
        → gives_up try e ≡ false
        → retryable_fetch_err e ≡ true
        → patience.after_pause try ≡ none
        → Tried more (try + 1) m
        → Tried (suc more) try m

  fetch_loop-Tried :
      (left try : ℕ) {m : ImageManifest}
      → fetch_loop left try ≡ ok m
      → (more : ℕ) × (more < suc left) × Tried more try m
  unfolding fetch_loop
  fetch_loop-Tried zero try {m} h = elim (Result-cases (resolve_manifest_once remote plat try)) [
    | inl (m', good) ↦ (zero, omega arith, found (let e = rw (fetch_loop, good) at h in good ∙ e))
    | inr (e, bad) ↦ elim (Bool-cases (gives_up try e)) [
      | inl over ↦ absurd (let b = rw (fetch_loop, bad, over) at h in cc)
      | inr live ↦ absurd (let b = rw (fetch_loop, bad, live) at h in cc)
    ]
  ]
  fetch_loop-Tried (suc left) try {m} h =
      elim (Result-cases (resolve_manifest_once remote plat try)) [
        | inl (m', good) ↦
            (zero, omega arith, found (let e = rw (fetch_loop, good) at h in good ∙ e))
        | inr (e, bad) ↦ elim (Bool-cases (gives_up try e)) [
          | inl over ↦ absurd (let b = rw (fetch_loop, bad, over) at h in cc)
          | inr live ↦ elim (Bool-cases (retryable_fetch_err e)) [
            | inr final ↦ absurd (let b = rw (fetch_loop, bad, live, final) at h in cc)
            | inl again ↦ elim (Option-cases (patience.after_pause try)) [
              | inr (c, stop) ↦ absurd (let b = rw (fetch_loop, bad, live, again, stop) at h in cc)
              | inl on ↦
                  let (more, few, tried) =
                    fetch_loop-Tried left (try + 1) (rw (fetch_loop, bad, live, again, on) at h) in
                  (suc more, omega arith, retried e bad live again on tried)
            ]
          ]
        ]
      ]

  Tried-IsChecked : {more try : ℕ} {m : ImageManifest} → Tried more try m → IsChecked remote plat m
  Tried-IsChecked {try = try} (found good) = resolve_manifest_once-IsChecked remote plat try good
  Tried-IsChecked (retried e bad live again on tried) = Tried-IsChecked tried

  -- Whatever the number of attempts, a manifest that is returned comes from the reference, in some try,
  -- and through indexes only by the first child of each that is no attestation and matches the
  -- platform; a reference that is no index is taken whatever its platform. The manifest is what the
  -- descriptor at the end of that way holds, it hashes to the digest that it is named by, which is
  -- that descriptor's, and its config and its layers have digests.
  pub resolve_manifest_opts-IsChecked :
      (attempts : ℕ) {m : ImageManifest}
      → resolve_manifest_opts attempts ≡ ok m
      → IsChecked remote plat m
  unfolding resolve_manifest_opts
  resolve_manifest_opts-IsChecked zero h =
      let (k, few, tried) = fetch_loop-Tried 2 1 h in Tried-IsChecked tried
  resolve_manifest_opts-IsChecked (suc more) h =
      let (k, few, tried) = fetch_loop-Tried more 1 h in Tried-IsChecked tried

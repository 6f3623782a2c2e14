-- ===== src/Manifest/Checked.antt =====
-- What a manifest that a try of the fetch returns is like.
use imgpull.Base.{
  true, some, ◌++◌, ℕ, zero, suc, ◌≡◌, ◌≢◌, refl, false, List, [], ◌∷◌, Bytes, bytes_eq,
  bytes_eq_iff, is_empty, All, Bool-cases, Option-cases, Result-cases, inl, inr, ok, >>=-eq-ok,
  ok-injective, arith,
}
use mathlib.Core.Path.{subst}
use imgpull.Platform.{Platform, Descriptor, select_platform}
use imgpull.Platform.Laws.{Skipped, IsChoice, select_platform_first}
use imgpull.Manifest.{BlobDescriptor, ImageManifest}
use imgpull.Manifest.Fetch.{
  RemoteDescriptor, ManifestDocument, Remote, is_index_media_type, checked_layers, from_document,
  from_raw, manifest_from_descriptor, no_index, child_of, walk, resolve_manifest_once,
}

module _ (remote : Remote) (plat : Platform) where
  -- The first descriptor of an index that is no attestation and matches the platform.
  abbrev pub Chosen : List Descriptor → Descriptor → Type 0
  Chosen manifests child =
      (before : List Descriptor) × (after : List Descriptor) × (manifests ≡ before ++ child ∷ after)
      × All (Skipped plat) before
      × IsChoice plat child

  -- A way from one descriptor to another through indexes, by the child that each one has for the
  -- platform. A descriptor that is no index ends it, whatever its platform is.
  pub data Leads (try : ℕ) : ℕ → RemoteDescriptor → RemoteDescriptor → Type 0 where
    here :
        {depth : ℕ} {desc : RemoteDescriptor}
        → is_index_media_type desc.media_type ≡ false
        → Leads try depth desc desc
    through :
        {depth : ℕ} {desc next end : RemoteDescriptor} (raw : Bytes) (manifests : List Descriptor)
        (child : Descriptor)
        → is_index_media_type desc.media_type ≡ true
        → desc.raw_manifest ≡ ok raw
        → remote.decode_index raw ≡ some manifests
        → Chosen manifests child
        → remote.get_digest try depth child.digest ≡ ok next
        → Leads try (suc depth) next end
        → Leads try depth desc end

  -- What is checked of a manifest against the descriptor that it comes from.
  pub record IsFrom (end : RemoteDescriptor) (m : ImageManifest) : Type 0 where
    pub read : end.raw_manifest ≡ ok m.raw
    pub named : m.digest ≡ remote.hash_string end.digest
    pub hashed : remote.sha256 m.raw ≡ end.digest.hex
    pub has_config : m.config.digest ≢ []
    pub has_layers : All (λ l. l.digest ≢ []) m.layers

  -- The same, with the way from the reference to that descriptor in some try.
  pub record IsChecked (m : ImageManifest) : Type 0 where
    pub try : ℕ
    pub top : RemoteDescriptor
    pub end : RemoteDescriptor
    pub found : remote.get_reference try ≡ ok top
    pub leads : Leads try 0 top end
    pub checked : IsFrom end m

  is_empty-ne : (s : Bytes) → is_empty s ≡ false → s ≢ []
  is_empty-ne [] h e = cc
  is_empty-ne (c ∷ s) h e = cc

  checked_layers-All :
      (ls : List BlobDescriptor) {out : List BlobDescriptor}
      → checked_layers ls ≡ ok out
      → All (λ l. l.digest ≢ []) out
  unfolding checked_layers
  checked_layers-All [] {out} h = subst (All _) (ok-injective [] out h) tt
  checked_layers-All (l ∷ ls) {out} h = elim (Bool-cases (is_empty l.digest)) [
    | inl blank ↦ absurd (let b = rw (checked_layers, blank) at h in cc)
    | inr there ↦
        let (rest, checked, made) =
          >>=-eq-ok (checked_layers ls) (λ r. ok (l ∷ r)) (rw (checked_layers, there) at h) in
        subst (All _) (ok-injective (l ∷ rest) out made)
          (is_empty-ne l.digest there, checked_layers-All ls checked)
  ]

  from_document-IsFrom :
      (desc : RemoteDescriptor) (raw : Bytes) (doc : ManifestDocument) {m : ImageManifest}
      → desc.raw_manifest ≡ ok raw
      → remote.sha256 raw ≡ desc.digest.hex
      → from_document remote plat desc raw doc ≡ ok m
      → IsFrom desc m
  unfolding from_document
  from_document-IsFrom desc raw doc {m} read sum h =
      elim (Bool-cases (is_empty doc.config.digest)) [
        | inl blank ↦ absurd (let b = rw (from_document, blank) at h in cc)
        | inr there ↦
            let (layers, checked, made) =
              >>=-eq-ok (checked_layers doc.layers) _ (rw (from_document, there) at h) in
            subst (IsFrom desc) (ok-injective _ m made) (record {
              read = read;
              named = refl;
              hashed = sum;
              has_config = is_empty-ne doc.config.digest there;
              has_layers = checked_layers-All doc.layers checked;
            })
      ]

  manifest_from_descriptor-IsFrom :
      (desc : RemoteDescriptor) {m : ImageManifest}
      → manifest_from_descriptor remote plat desc ≡ ok m
      → IsFrom desc m
  unfolding manifest_from_descriptor
  manifest_from_descriptor-IsFrom desc {m} h =
      let (raw, read, made) = >>=-eq-ok desc.raw_manifest (from_raw remote plat desc) h in
      elim (Bool-cases (bytes_eq (remote.sha256 raw) desc.digest.hex)) [
        | inr differs ↦ absurd (let b = rw (from_raw, differs) at made in cc)
        | inl same ↦ elim (Option-cases (remote.decode_manifest raw)) [
          | inl bad ↦ absurd (let b = rw (from_raw, same, bad) at made in cc)
          | inr (doc, good) ↦
              from_document-IsFrom desc raw doc read ((bytes_eq_iff _ _).0 same)
                (rw (from_raw, same, good) at made)
        ]
      ]

  no_index-IsFrom :
      (desc : RemoteDescriptor) {m : ImageManifest}
      → no_index remote plat desc ≡ ok m
      → IsFrom desc m
  unfolding no_index
  no_index-IsFrom desc {m} h = manifest_from_descriptor-IsFrom desc (ground arith)

  abbrev Led : ℕ → ℕ → RemoteDescriptor → ImageManifest → Type 0
  Led try depth desc m = (end : RemoteDescriptor) × Leads try depth desc end × IsFrom end m

  child_of-Chosen :
      (try depth : ℕ) (desc : RemoteDescriptor) {next : RemoteDescriptor}
      → child_of remote plat try depth desc ≡ ok next
      → (raw : Bytes) × (manifests : List Descriptor) × (child : Descriptor) × (desc.raw_manifest
          ≡ ok raw)
        × (remote.decode_index raw ≡ some manifests)
        × Chosen manifests child
        × (remote.get_digest try depth child.digest ≡ ok next)
  unfolding child_of
  child_of-Chosen try depth desc {next} h = elim (Result-cases desc.raw_manifest) [
    | inr (e, bad) ↦ absurd (let b = rw (child_of, bad) at h in cc)
    | inl (raw, read) ↦ elim (Option-cases (remote.decode_index raw)) [
      | inl bad ↦ absurd (let b = rw (child_of, read, bad) at h in cc)
      | inr (manifests, decoded) ↦ elim (Result-cases (select_platform manifests plat)) [
        | inr (e, bad) ↦ absurd (let b = rw (child_of, read, decoded, bad) at h in cc)
        | inl (child, chosen) ↦ elim (Result-cases (remote.get_digest try depth child.digest)) [
          | inr (e, bad) ↦ absurd (let b = rw (child_of, read, decoded, chosen, bad) at h in cc)
          | inl (next', got) ↦
              let same : next' ≡ next =
                ok-injective next' next (rw (child_of, read, decoded, chosen, got) at h) in
              (
                raw,
                manifests,
                child,
                read,
                decoded,
                select_platform_first manifests plat chosen,
                subst (λ x. remote.get_digest try depth child.digest ≡ ok x) same got,
              )
        ]
      ]
    ]
  ]

  walk-Led :
      (left try depth : ℕ) (desc : RemoteDescriptor) {m : ImageManifest}
      → walk remote plat left try depth desc ≡ ok m
      → Led try depth desc m
  unfolding walk
  walk-Led zero try depth desc h = elim (Bool-cases (is_index_media_type desc.media_type)) [
    | inl index ↦ absurd (let b = rw (walk, index) at h in cc)
    | inr single ↦ (desc, here single, no_index-IsFrom desc (rw (walk, single) at h))
  ]
  walk-Led (suc left) try depth desc h = elim (Bool-cases (is_index_media_type desc.media_type)) [
    | inl index ↦ elim (Result-cases (child_of remote plat try depth desc)) [
      | inr (e, bad) ↦ absurd (let b = rw (walk, index, bad) at h in cc)
      | inl (next, good) ↦
          let (raw, manifests, child, read, decoded, chosen, got) =
            child_of-Chosen try depth desc good in
          let (end, leads, from) =
            walk-Led left try (suc depth) next (rw (walk, index, good) at h) in
          (end, through raw manifests child index read decoded chosen got leads, from)
    ]
    | inr single ↦ (desc, here single, no_index-IsFrom desc (rw (walk, single) at h))
  ]

  -- What `resolve_manifest_opts-IsChecked` says, of one try.
  pub resolve_manifest_once-IsChecked :
      (try : ℕ) {m : ImageManifest} → resolve_manifest_once remote plat try ≡ ok m → IsChecked m
  unfolding resolve_manifest_once
  resolve_manifest_once-IsChecked try {m} h = elim (Result-cases (remote.get_reference try)) [
    | inr (e, bad) ↦ absurd (let b = rw (resolve_manifest_once, bad) at h in cc)
    | inl (desc, good) ↦
        let (end, leads, from) = walk-Led 4 try 0 desc (rw (resolve_manifest_once, good) at h) in
        record { try = try; top = desc; end = end; found = good; leads = leads; checked = from }
  ]

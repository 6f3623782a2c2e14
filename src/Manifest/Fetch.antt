-- ===== src/Manifest/Fetch.antt =====
-- internal/registry/manifest.go: one try of a fetch, and what a manifest that it returns is like.
use imgpull.Base.{
  ℕ, zero, suc, Bool, true, false, ◌||◌, Option, none, some, List, [], ◌∷◌, Bytes, codes, bytes_eq,
  is_empty, if◌then◌else◌, Result, ok, err, ◌>>=◌,
}
use imgpull.Verify.{Hash}
use imgpull.Retry.{GoError, plain, wrapped}
use imgpull.Platform.{Platform, Descriptor, select_platform}
use imgpull.Manifest.{BlobDescriptor, ImageManifest}

-- `IsIndexMediaType`
unfoldable pub is_index_media_type : Bytes → Bool
is_index_media_type mt =
    bytes_eq mt (codes "application/vnd.oci.image.index.v1+json")
    || bytes_eq mt (codes "application/vnd.docker.distribution.manifest.list.v2+json")

-- `IsManifestMediaType`
unfoldable pub is_manifest_media_type : Bytes → Bool
is_manifest_media_type mt =
    bytes_eq mt (codes "application/vnd.oci.image.manifest.v1+json")
    || bytes_eq mt (codes "application/vnd.docker.distribution.manifest.v2+json")

-- `remote.Descriptor` of go-containerregistry; `raw_manifest` is what its method returns.
pub record RemoteDescriptor : Type 0 where
  pub media_type : Bytes
  pub digest : Hash
  pub size : ℕ
  pub raw_manifest : Result GoError Bytes

-- The JSON document of a manifest, as far as it is read.
pub record ManifestDocument : Type 0 where
  pub config : BlobDescriptor
  pub layers : List BlobDescriptor

-- `remote.Get` by the number of the try, for the reference and for a digest at a depth, the digest
-- of the standard library, `v1.Hash.String`, and JSON. `probe` says whether a document has the
-- fields `manifests` and `config`.
pub record Remote : Type 0 where
  pub get_reference : ℕ → Result GoError RemoteDescriptor
  pub get_digest : ℕ → ℕ → Hash → Result GoError RemoteDescriptor
  pub sha256 : Bytes → Bytes
  pub hash_string : Hash → Bytes
  pub decode_index : Bytes → Option (List Descriptor)
  pub decode_manifest : Bytes → Option ManifestDocument
  pub probe : Bytes → Option (Bool × Bool)

abbrev failure : GoError
failure = plain []

-- The loop over the layers.
unfoldable pub checked_layers : List BlobDescriptor → Result GoError (List BlobDescriptor)
checked_layers [] = ok []
checked_layers (l ∷ ls) =
    if is_empty l.digest then err failure else (do rest ← checked_layers ls; ok (l ∷ rest))

module _ (remote : Remote) (plat : Platform) where
  unfoldable pub from_document :
      RemoteDescriptor → Bytes → ManifestDocument → Result GoError ImageManifest
  unfolding checked_layers
  from_document desc raw m = if is_empty m.config.digest then err failure else (do
    layers ← checked_layers m.layers
    ok (record {
      digest = remote.hash_string desc.digest;
      size = desc.size;
      media_type = desc.media_type;
      raw = raw;
      config = record (m.config) { urls = [] };
      layers = layers;
      platform = plat;
    }))

  unfoldable pub from_raw : RemoteDescriptor → Bytes → Result GoError ImageManifest
  from_raw desc raw =
      if bytes_eq (remote.sha256 raw) desc.digest.hex
      then (elim (remote.decode_manifest raw) [
        | none ↦ err failure
        | some m ↦ from_document desc raw m
      ])
      else err failure

  -- `manifestFromDescriptor`
  unfoldable pub manifest_from_descriptor : RemoteDescriptor → Result GoError ImageManifest
  unfolding from_raw
  manifest_from_descriptor desc = desc.raw_manifest >>= from_raw desc

  -- The cases of the switch but for an index.
  unfoldable pub no_index : RemoteDescriptor → Result GoError ImageManifest
  unfolding manifest_from_descriptor
  no_index desc =
      if is_manifest_media_type desc.media_type
      then manifest_from_descriptor desc
      else (elim desc.raw_manifest [
        | err e ↦ err (wrapped e)
        | ok raw ↦ elim (remote.probe raw) [
          | some (false, true) ↦ manifest_from_descriptor desc
          | _ ↦ err failure
        ]
      ])

  -- The case of an index: the child for the platform.
  unfoldable pub child_of : ℕ → ℕ → RemoteDescriptor → Result GoError RemoteDescriptor
  child_of try depth desc = elim desc.raw_manifest [
    | err e ↦ err (wrapped e)
    | ok raw ↦ elim (remote.decode_index raw) [
      | none ↦ err failure
      | some manifests ↦ elim (select_platform manifests plat) [
        | err _ ↦ err failure
        | ok child ↦ elim (remote.get_digest try depth child.digest) [
          | err e ↦ err (wrapped e)
          | ok next ↦ ok next
        ]
      ]
    ]
  ]

  -- The loop, with the depth left below `maxDepth`.
  unfoldable pub walk : ℕ → ℕ → ℕ → RemoteDescriptor → Result GoError ImageManifest
  walk zero try depth desc =
      if is_index_media_type desc.media_type then err failure else no_index desc
  walk (suc left) try depth desc =
      if is_index_media_type desc.media_type
      then (elim (child_of try depth desc) [
        | err e ↦ err e
        | ok next ↦ walk left try (suc depth) next
      ])
      else no_index desc

  -- `resolveManifestOnce`, as the try of that number.
  unfoldable pub resolve_manifest_once : ℕ → Result GoError ImageManifest
  resolve_manifest_once try = elim (remote.get_reference try) [
    | err e ↦ err (wrapped e)
    | ok desc ↦ walk 4 try 0 desc
  ]

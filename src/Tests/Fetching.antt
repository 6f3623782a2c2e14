-- ===== src/Tests/Fetching.antt =====
-- The fetch of a manifest at concrete answers of a registry.
use imgpull.Base.{zero, suc, ◌≡◌, refl, none, some, [], ◌∷◌, codes, bytes_eq, ok, err}
use imgpull.Retry.{status_error, plain, is_canceled}
use imgpull.Platform.{select_platform, find_platform, is_attestation, matches, effective_variant}
use imgpull.Manifest.{ImageManifest}
use imgpull.Manifest.Fetch.{
  Remote, RemoteDescriptor, resolve_manifest_once, walk, child_of, no_index,
  manifest_from_descriptor, from_raw, from_document, checked_layers, is_index_media_type,
  is_manifest_media_type,
}
use imgpull.Manifest.Checked.{IsChecked}
use imgpull.Manifest.Retrying.{
  Patience, fetch_loop, resolve_manifest_opts, resolve_manifest_opts-IsChecked, gives_up,
  retryable_fetch_err, first_status,
}
use imgpull.Tests.{linux, blob_of}

abbrev single : RemoteDescriptor
single = record {
  media_type = codes "application/vnd.oci.image.manifest.v1+json";
  digest = record { algorithm = codes "sha256"; hex = codes "m" };
  size = 1;
  raw_manifest = ok (codes "m");
}

abbrev index : RemoteDescriptor
index = record single { media_type = codes "application/vnd.oci.image.index.v1+json" }

-- The first try meets a 503, later ones an index with one manifest for the platform.
abbrev flaky : Remote
flaky = record {
  get_reference = λ try. elim try [
    | zero ↦ err (plain [])
    | suc n ↦ elim n [ zero ↦ err (status_error 503) | suc _ ↦ ok index ]
  ];
  get_digest = λ _ _ _. ok single;
  sha256 = λ text. text;
  hash_string = λ h. h.hex;
  decode_index =
      λ _. some (record { media_type = []; digest = single.digest; platform = some linux } ∷ []);
  decode_manifest = λ _.
      some (record {
        config = blob_of (codes "sha256:cc");
        layers = blob_of (codes "sha256:ll") ∷ [];
      });
  probe = λ _. none;
}

abbrev patient : Patience
patient = record { after_try = λ _. none; after_pause = λ _. none }

abbrev fetched : ImageManifest
fetched = record {
  digest = codes "m";
  size = 1;
  media_type = single.media_type;
  raw = codes "m";
  config = blob_of (codes "sha256:cc");
  layers = blob_of (codes "sha256:ll") ∷ [];
  platform = linux;
}

second_try : resolve_manifest_opts flaky linux patient 3 ≡ ok fetched
unfolding resolve_manifest_opts fetch_loop resolve_manifest_once gives_up is_canceled
    retryable_fetch_err first_status walk is_index_media_type bytes_eq child_of select_platform
    find_platform is_attestation matches effective_variant no_index is_manifest_media_type
    from_document checked_layers from_raw manifest_from_descriptor
second_try = refl

resolve_manifest_opts-IsChecked_example : IsChecked flaky linux fetched
resolve_manifest_opts-IsChecked_example =
    resolve_manifest_opts-IsChecked flaky linux patient 3 second_try

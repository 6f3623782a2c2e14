-- ===== src/Tests.antt =====
-- Runs of the model at concrete inputs, and the fixtures that they share.
mod Parsing
mod Plans
mod Requests
mod Downloads
mod Fetching
mod Runs
mod Daemons
mod Pulls
mod Panels
mod CommandLine
use imgpull.Base.{ℕ, Bool, true, false, Option, none, some, List, [], ◌∷◌, Bytes, codes, cut}
use imgpull.Files.{FilePath, Disk, Syscall}
use imgpull.Verify.{Hash, Digests}
use imgpull.Platform.{Platform}
use imgpull.Reference.{Ref, NameReference, tag}
use imgpull.Manifest.{BlobDescriptor, ImageManifest}
use imgpull.Plan.{Deps, StateFile, Task, Plan, World, Kind, Status, layer, pending}

-- A text is its own sum, so the blob `ab` has the digest `sha256:ab`.
abbrev pub plain_digests : Digests
plain_digests = record { sha256 = λ text. text; sha512 = λ text. text }

abbrev pub plain_hash : Bytes → Option Hash
plain_hash digest = elim (cut digest b':') [
  | none ↦ none
  | some (algorithm, hex) ↦ some (record { algorithm = algorithm; hex = hex })
]

-- The codec knows one document.
abbrev pub deps_with : StateFile → Deps
deps_with st = record {
  new_hash = plain_hash;
  digests = plain_digests;
  encode_state = λ _. some (codes "{}");
  decode_state = λ _. some st;
}

abbrev pub no_state : StateFile
no_state = record {
  version = 1;
  image = [];
  platform = [];
  manifest_digest = [];
  manifest_media_type = [];
  objects = [];
  updated_at = 0;
}

abbrev pub deps : Deps
deps = deps_with no_state

abbrev pub no_fault : Syscall → Bool
no_fault _ = false

abbrev pub empty_disk : Disk
empty_disk = record { files = λ _. none; fault = no_fault; transferred = 0; locked = false }

abbrev pub linux : Platform
linux = record { os = codes "linux"; architecture = codes "amd64"; variant = [] }

abbrev pub alpine : Ref
alpine = record {
  input = codes "r/a:1";
  reference = record {
    registry_str = codes "r";
    repository_str = codes "a";
    identifier = tag (codes "1");
  };
  registry = codes "r";
  repository = codes "a";
  tag = codes "1";
  digest = [];
}

abbrev pub blob_of : Bytes → BlobDescriptor
blob_of digest = record { digest = digest; size = 2; media_type = []; urls = [] }

abbrev pub two_blobs : ImageManifest
two_blobs = record {
  digest = codes "sha256:m";
  size = 1;
  media_type = [];
  raw = codes "m";
  config = blob_of (codes "sha256:cc");
  layers = blob_of (codes "sha256:ll") ∷ [];
  platform = linux;
}

abbrev pub layer_hash : Hash
layer_hash = record { algorithm = codes "sha256"; hex = codes "ll" }

abbrev pub layer_task : Task
layer_task = record {
  kind = layer;
  digest = codes "sha256:ll";
  size = 2;
  media_type = [];
  status = pending;
  part_name = codes "sha256_ll.part";
  gid = [];
  url = codes "http://r/ll";
  url_expires_at = none;
  alt_urls = [];
  retries = 0;
  last_error = [];
  updated_at = 0;
  range_unsupported = false;
  hash = layer_hash;
}

abbrev pub plan_of : List Task → Plan
plan_of tasks = record {
  registry = codes "r";
  repository = codes "a";
  reference = codes "1";
  image = codes "r/a:1";
  export_tag = codes "r/a:1";
  platform = linux;
  manifest_digest = codes "sha256:m";
  manifest_media_type = [];
  manifest_raw = codes "m";
  manifest_hash = record { algorithm = codes "sha256"; hex = codes "m" };
  objects = tasks;
  locked = true;
  last_save = 0;
}

abbrev pub one_layer : World
one_layer = record { plan = plan_of (layer_task ∷ []); disk = empty_disk }

-- ===== src/Plan.antt =====
-- internal/plan: the task list of one image, its state file and its place on disk.
pub mod Tasks
pub mod Reconcile
pub mod Build
pub mod Saving
pub mod Sound
pub mod Committing
pub mod Reconciling
pub mod Building
pub mod Guarantees
pub mod Counting
pub mod Places
pub mod Placing
use imgpull.Base.{
  ℕ, ltb, ◌==◌, ◌+◌, ◌-◌, ◌%◌, ◌^◌, ◌≡◌, Bool, true, false, Option, none, some, List, [], ◌∷◌, ◌++◌,
  Bytes, codes, bytes_eq, is_empty, get_elem?, modify, take, length, if◌then◌else◌, Result, second,
}
use imgpull.Files.{FilePath, Disk, image_file, blobs_file, tmp_file, write_file_atomic}
use imgpull.Verify.{Hash, Digests}
use imgpull.Platform.{Platform, platform_string}

pub data Kind : Type 0 where
  manifest config layer : Kind

-- The four status texts; `unknown_status` is any other text that a state file may hold.
pub data Status : Type 0 where
  pending downloading committed failed : Status
  unknown_status : Bytes → Status

abbrev pub is_committed : Status → Bool
is_committed committed = true
is_committed _ = false

-- `ObjectTask`. Times are nanoseconds since Go's zero time, and 0 is that time.
pub record Task : Type 0 where
  pub kind : Kind
  pub digest : Bytes
  pub size : ℕ
  pub media_type : Bytes
  pub status : Status
  pub part_name : Bytes
  pub gid : Bytes
  pub url : Bytes
  pub url_expires_at : Option ℕ
  pub alt_urls : List Bytes
  pub retries : ℕ
  pub last_error : Bytes
  pub updated_at : ℕ
  pub range_unsupported : Bool
  pub hash : Hash

-- `stateObject`
pub record StateObject : Type 0 where
  pub kind : Kind
  pub digest : Bytes
  pub size : ℕ
  pub media_type : Bytes
  pub status : Status
  pub part_name : Bytes
  pub gid : Bytes
  pub url : Bytes
  pub url_expires_at : Option ℕ
  pub alt_urls : List Bytes
  pub retries : ℕ
  pub last_error : Bytes
  pub updated_at : ℕ
  pub range_unsupported : Bool

abbrev pub state_version : ℕ
state_version = 1

-- `stateFile`
pub record StateFile : Type 0 where
  pub version : ℕ
  pub image : Bytes
  pub platform : Bytes
  pub manifest_digest : Bytes
  pub manifest_media_type : Bytes
  pub objects : List StateObject
  pub updated_at : ℕ

-- `Plan`. `locked` says that the plan still holds its directory lock.
pub record Plan : Type 0 where
  pub registry : Bytes
  pub repository : Bytes
  pub reference : Bytes
  pub image : Bytes
  pub export_tag : Bytes
  pub platform : Platform
  pub manifest_digest : Bytes
  pub manifest_media_type : Bytes
  pub manifest_raw : Bytes
  pub manifest_hash : Hash
  pub objects : List Task
  pub locked : Bool
  pub last_save : ℕ

-- The plan with the disk that its methods change. A task pointer is an index into `objects`.
pub record World : Type 0 where
  pub plan : Plan
  pub disk : Disk

-- What the package calls elsewhere: `v1.NewHash` of go-containerregistry, and the standard
-- library's digests and JSON coding of a state file, which fails on a time after the year 9999.
pub record Deps : Type 0 where
  pub new_hash : Bytes → Option Hash
  pub digests : Digests
  pub encode_state : StateFile → Option Bytes
  pub decode_state : Bytes → Option StateFile

-- `partName`
abbrev pub part_name_of : Hash → Bytes
part_name_of h = h.algorithm ++ b'_' ∷ (h.hex ++ codes ".part")

-- `strings.ReplaceAll(digest, ":", "_")`
unfoldable pub replace_colons : Bytes → Bytes
replace_colons [] = []
replace_colons (c ∷ s) = (if c == b':' then b'_' else c) ∷ replace_colons s

-- `errString`, on the text of a non-nil error.
unfoldable pub err_string : Bytes → Bytes
err_string s = if ltb 500 (length s) then take 500 s else s

unfoldable pub state_object : Task → StateObject
state_object t = record {
  kind = t.kind;
  digest = t.digest;
  size = t.size;
  media_type = t.media_type;
  status = t.status;
  part_name = t.part_name;
  gid = t.gid;
  url = t.url;
  url_expires_at = t.url_expires_at;
  alt_urls = t.alt_urls;
  retries = t.retries;
  last_error = t.last_error;
  updated_at = t.updated_at;
  range_unsupported = t.range_unsupported;
}

unfoldable pub state_objects : List Task → List StateObject
unfolding state_object
state_objects [] = []
state_objects (t ∷ ts) = state_object t ∷ state_objects ts

-- The document that `persistLocked` hands to `saveState`.
unfoldable pub state_file : ℕ → Plan → StateFile
state_file now p = record {
  version = state_version;
  image = p.image;
  platform = platform_string p.platform;
  manifest_digest = p.manifest_digest;
  manifest_media_type = p.manifest_media_type;
  objects = state_objects p.objects;
  updated_at = now;
}

abbrev pub state_path : FilePath
state_path = image_file (codes "state.json")

module _ (deps : Deps) where
  -- `finalPathFor`
  unfoldable pub final_path_for : Bytes → FilePath
  final_path_for digest = elim (deps.new_hash digest) [
    | none ↦ blobs_file (codes "sha256") (replace_colons digest)
    | some h ↦ blobs_file h.algorithm h.hex
  ]

  -- `FinalPath`
  abbrev pub final_path : Task → FilePath
  final_path t = final_path_for t.digest

  -- `saveState`
  unfoldable pub save_state : StateFile → Disk → Disk × Bool
  save_state st d = elim (deps.encode_state st) [
    | none ↦ (d, false)
    | some text ↦ write_file_atomic state_path text d
  ]

  -- `persistLocked` at the time `now`: the world after it, and whether it returned nil. A save
  -- within a second of the last one is skipped.
  unfoldable pub persist_locked : ℕ → World → World × Bool
  persist_locked now w =
      if ltb (now - w.plan.last_save) second
      then (w, true)
      else (let saved = save_state (state_file now w.plan) w.disk in
          (record { plan = record (w.plan) { last_save = now }; disk = saved.0 }, saved.1))

  -- `SaveNow`
  unfoldable pub save_now : ℕ → World → World × Bool
  save_now now w = persist_locked now w

  -- `SaveFinal`
  unfoldable pub save_final : ℕ → World → World × Bool
  save_final now w = save_now now (record w { plan = record (w.plan) { last_save = 0 } })

  -- A change of one task under the mutex, followed by `persistLocked`.
  unfoldable pub update_task : ℕ → ℕ → (Task → Task) → World → World
  update_task now i f w =
      (persist_locked now
        (record w { plan = record (w.plan) { objects = modify (w.plan.objects) i f } })).0

-- `PartPath`
abbrev pub part_path : Task → FilePath
part_path t = tmp_file t.part_name

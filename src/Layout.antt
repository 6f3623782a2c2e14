-- ===== src/Layout.antt =====
-- internal/oci/layout.go: the two documents that make an image directory an OCI layout.
pub mod Laws
use imgpull.Base.{
  ℕ, Bool, true, false, Option, none, some, is_some, List, [], ◌∷◌, ◌++◌, Bytes, codes, length,
  if◌then◌else◌,
}
use imgpull.Files.{FilePath, image_file, Disk, mkdir_all, write_file_atomic}
use imgpull.Platform.{Platform}
use imgpull.Manifest.{ImageManifest}

-- `indexEntry`, with its one annotation, the name of the reference.
pub record IndexEntry : Type 0 where
  pub media_type : Bytes
  pub digest : Bytes
  pub size : ℕ
  pub platform : Platform
  pub ref_name : Bytes

-- `imageIndex`
pub record ImageIndex : Type 0 where
  pub schema_version : ℕ
  pub media_type : Bytes
  pub manifests : List IndexEntry

-- `json.MarshalIndent` of the map with the layout's version, and of an index.
pub record Indents : Type 0 where
  pub layout_version : Bytes → Bytes
  pub index_text : ImageIndex → Option Bytes

abbrev pub marker_path : FilePath
marker_path = image_file (codes "oci-layout")

abbrev pub index_path : FilePath
index_path = image_file (codes "index.json")

abbrev pub marker_text : Indents → Bytes
marker_text j = j.layout_version (codes "1.0.0") ++ b'\n' ∷ []

-- `EnsureLayout`
unfoldable pub ensure_layout : Indents → Disk → Disk × Bool
unfolding write_file_atomic
ensure_layout j d =
    if d.fault (mkdir_all (image_file []))
    then (d, false)
    else if is_some (d.files marker_path)
    then (d, true)
    else write_file_atomic marker_path (marker_text j) d

abbrev pub index_media_type : Bytes
index_media_type = codes "application/vnd.oci.image.index.v1+json"

-- The index that `WriteIndex` writes.
unfoldable pub image_index : ImageManifest → Platform → Bytes → ImageIndex
image_index m plat ref_name = record {
  schema_version = 2;
  media_type = index_media_type;
  manifests =
      record {
        media_type = m.media_type;
        digest = m.digest;
        size = length m.raw;
        platform = record {
          os = plat.os;
          architecture = plat.architecture;
          variant = plat.variant;
        };
        ref_name = ref_name;
      }
      ∷ [];
}

-- `WriteIndex`
unfoldable pub write_index : Indents → ImageManifest → Platform → Bytes → Disk → Disk × Bool
unfolding ensure_layout image_index write_file_atomic
write_index j m plat ref_name d =
    let ensured = ensure_layout j d in
    elim (ensured.1) [
      | false ↦ ensured
      | true ↦ elim (j.index_text (image_index m plat ref_name)) [
        | none ↦ (ensured.0, false)
        | some text ↦ write_file_atomic index_path (text ++ b'\n' ∷ []) ensured.0
      ]
    ]

-- ===== src/Manifest.antt =====
-- internal/registry/manifest.go: the data that the plan reads.
pub mod Fetch
pub mod Checked
pub mod Retrying
use imgpull.Base.{ℕ, List, Bytes}
use imgpull.Platform.{Platform}

-- Sizes are `int64` in the source; those of a manifest are taken to be 0 or more.
pub record BlobDescriptor : Type 0 where
  pub digest : Bytes
  pub size : ℕ
  pub media_type : Bytes
  pub urls : List Bytes

pub record ImageManifest : Type 0 where
  pub digest : Bytes
  pub size : ℕ
  pub media_type : Bytes
  pub raw : Bytes
  pub config : BlobDescriptor
  pub layers : List BlobDescriptor
  pub platform : Platform

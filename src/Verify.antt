-- ===== src/Verify.antt =====
-- internal/verify/digest.go and size.go. A file is checked against a digest and a size.
pub mod Laws
use imgpull.Base.{
  ℕ, ◌==◌, ◌≡◌, Bool, true, false, ◌&&◌, Option, none, some, Bytes, codes, bytes_eq, length, Result,
  ok, err, ◌>>=◌, if◌then◌else◌,
}
use imgpull.Files.{FilePath, Disk, open_file, read_file}

-- `v1.Hash`, of go-containerregistry.
pub record Hash : Type 0 where
  pub algorithm : Bytes
  pub hex : Bytes

abbrev pub hash_eq : Hash → Hash → Bool
hash_eq a b = bytes_eq a.algorithm b.algorithm && bytes_eq a.hex b.hex

-- The standard library's SHA-256 and SHA-512, each as the hex text of the sum of the bytes.
pub record Digests : Type 0 where
  pub sha256 : Bytes → Bytes
  pub sha512 : Bytes → Bytes

pub data VerifyError : Type 0 where
  not_found : VerifyError
  unsupported_algorithm : Bytes → VerifyError
  unreadable : VerifyError
  size_mismatch : ℕ → ℕ → VerifyError
  digest_mismatch : Hash → Hash → VerifyError

-- The hash function that `FileDigest` selects by name.
unfoldable pub new_hash_func : Digests → Bytes → Option (Bytes → Bytes)
new_hash_func c algorithm =
    if bytes_eq algorithm (codes "sha256")
    then some c.sha256
    else if bytes_eq algorithm (codes "sha512")
    then some c.sha512
    else none

-- `os.Open` and `io.CopyBuffer`: the bytes of the file, unless a call fails.
abbrev pub read_all : Disk → FilePath → Result VerifyError Bytes
read_all d p = elim (d.files p) [
  | none ↦ err not_found
  | some text ↦
      if d.fault (open_file p)
      then err unreadable
      else if d.fault (read_file p)
      then err unreadable
      else ok text
]

-- `FileDigest`
unfoldable pub file_digest : Digests → Disk → FilePath → Bytes → Result VerifyError Bytes
file_digest c d p algorithm = elim (new_hash_func c algorithm) [
  | none ↦ err (unsupported_algorithm algorithm)
  | some sum ↦ do text ← read_all d p; ok (sum text)
]

-- `FileSize`, which is `os.Stat` and the size.
unfoldable pub file_size : Disk → FilePath → Result VerifyError ℕ
file_size d p = elim (d.files p) [ none ↦ err not_found | some text ↦ ok (length text) ]

-- `Blob`: the size is compared first, so a file of another size is never read.
unfoldable pub blob : Digests → Disk → FilePath → Hash → ℕ → Result VerifyError (Unit {0})
unfolding file_digest
blob c d p digest size = elim (d.files p) [
  | none ↦ err not_found
  | some text ↦
      if length text == size
      then (do
        sum ← file_digest c d p digest.algorithm
        let got : Hash = record { algorithm = digest.algorithm; hex = sum }
        if hash_eq got digest then ok tt else err (digest_mismatch got digest))
      else err (size_mismatch (length text) size)
]

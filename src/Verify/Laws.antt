-- ===== src/Verify/Laws.antt =====
-- What a successful check of a blob says of the file, and when it succeeds.
use imgpull.Base.{
  ℕ, ◌≡◌, inl, inr, Option-cases, false, some, Bytes, bytes_eq_iff, length, ok, arith,
}
use imgpull.Files.{FilePath, Disk, open_file, read_file}
use imgpull.Verify.{Hash, Digests, new_hash_func, blob}

-- The file holds `size` bytes that hash to `digest`, by an algorithm that the program knows.
pub record IsIntact (c : Digests) (text : Bytes) (digest : Hash) (size : ℕ) : Type 0 where
  pub sum : Bytes → Bytes
  pub known : new_hash_func c digest.algorithm ≡ some sum
  pub sized : length text ≡ size
  pub hashed : sum text ≡ digest.hex

module _ (c : Digests) (d : Disk) (p : FilePath) (digest : Hash) (size : ℕ) where
  -- A file that `Blob` accepts is there, has the size, and hashes to the digest.
  pub blob_sound :
      blob c d p digest size ≡ ok tt
      → (text : Bytes) × (d.files p ≡ some text) × IsIntact c text digest size
  unfolding blob
  blob_sound h = elim (Option-cases (d.files p)) [
    | inl absent ↦ ground arith
    | inr (text, there) ↦ elim (Option-cases (new_hash_func c digest.algorithm)) [
      | inl unknown ↦ ground arith
      | inr (sum, known) ↦ (
        text,
        there,
        record {
          sum = sum;
          known = known;
          sized = ground arith;
          hashed = ground (arith, bytes_eq_iff (sum text) digest.hex);
        },
      )
    ]
  ]

  -- `Blob` accepts a file that has the size and hashes to the digest, if its calls do not fail.
  pub blob_complete :
      (text : Bytes)
      → d.files p ≡ some text
      → IsIntact c text digest size
      → d.fault (open_file p) ≡ false
      → d.fault (read_file p) ≡ false
      → blob c d p digest size ≡ ok tt
  unfolding blob
  blob_complete text there intact opened read =
      ground
        (arith, bytes_eq_iff digest.algorithm digest.algorithm, bytes_eq_iff digest.hex digest.hex)

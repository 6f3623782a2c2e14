-- ===== src/Pull/Verified.antt =====
-- cmd/imgpull/main.go: what is on disk when pull exits with 0.
use imgpull.Base.{
  ℕ, ◌≡◌, ◌≢◌, ◌∙◌, refl, ap, inl, inr, Bool, true, false, some, [], ◌∷◌, ◌++◌, Bytes, codes,
  bytes_eq, Bool-cases, arith,
}
use mathlib.Core.Path.{subst}
use imgpull.Files.{FilePath, image_file, blobs_file, temp, Disk}
use imgpull.Platform.{Platform}
use imgpull.Reference.{Ref, ref_dir}
use imgpull.Manifest.{ImageManifest}
use imgpull.Plan.{World, Plan, Deps, state_path, save_final, save_now}
use imgpull.Plan.Saving.{persist_locked-files}
use imgpull.Plan.Build.{release}
use imgpull.Layout.{index_path, image_index, ensure_layout, write_index}
use imgpull.Layout.Laws.{ensure_layout-Ensured, write_index_lem}
use imgpull.Pull.{Outside, PullConfig, export_image, assemble, finish_pull}

-- The blobs are as they were.
abbrev pub SameBlobs : Disk → Disk → Type 0
SameBlobs d e = (a h : Bytes) → e.files (blobs_file a h) ≡ d.files (blobs_file a h)

abbrev first_byte : FilePath → ℕ
first_byte (image_file (c ∷ name)) = c
first_byte _ = 0

index_path_ne_state_path : index_path ≢ state_path
index_path_ne_state_path e = let first = ap first_byte e in omega arith

abbrev second_byte : FilePath → ℕ
second_byte (image_file (c ∷ k ∷ name)) = k
second_byte _ = 0

index_path_ne_archive : index_path ≢ image_file (codes "image.tar")
index_path_ne_archive e = let second = ap second_byte e in omega arith

save_final-files :
    (deps : Deps) (now : ℕ) (w : World) (q : FilePath)
    → q ≢ state_path
    → q ≢ temp state_path
    → (save_final deps now w).0.disk.files q ≡ w.disk.files q
unfolding save_final save_now
save_final-files deps now w q a b = persist_locked-files deps now _ q a b

release-files :
    (deps : Deps) (now : ℕ) (w : World) (q : FilePath)
    → q ≢ state_path
    → q ≢ temp state_path
    → (release deps now w).disk.files q ≡ w.disk.files q
unfolding release
release-files deps now w q a b = elim (Bool-cases ((save_final deps now w).0.plan.locked)) [
  | inl held ↦ rw (release, held) (save_final-files deps now w q a b)
  | inr free ↦ rw (release, free) (save_final-files deps now w q a b)
]

-- The writer of the archive writes image.tar only.
abbrev pub ArchivesAside : Outside → Type 0
ArchivesAside o =
    (p : Plan) (d : Disk) (q : FilePath)
    → q ≢ image_file (codes "image.tar")
    → (o.docker_archive p d).0.files q ≡ d.files q

module _ (o : Outside) (cfg : PullConfig) (m : ImageManifest) (plat : Platform) (ref : Ref)
    (aside : ArchivesAside o) where
  export_image-files :
      (p : Plan) (d : Disk) (q : FilePath)
      → q ≢ image_file (codes "image.tar")
      → (export_image o cfg p d).0.files q ≡ d.files q
  unfolding export_image
  export_image-files p d q other =
      elim (Bool-cases (bytes_eq cfg.export (codes "docker-archive"))) [
        | inr unasked ↦ rw unasked refl
        | inl asked ↦ elim (Bool-cases (o.has_tag p)) [
          | inr untagged ↦ rw (asked, untagged) refl
          | inl tagged ↦ rw (asked, tagged) (aside p d q other)
        ]
      ]

  -- The index stands on disk, and the blobs are those of `d`.
  pub record Indexed (d e : Disk) : Type 0 where
    pub text : Bytes
    pub encoded : o.indents.index_text (image_index m plat (ref_dir ref)) ≡ some text
    pub written : e.files index_path ≡ some (text ++ b'\n' ∷ [])
    pub blobs : SameBlobs d e

  assemble-Indexed :
      (p : Plan) (d : Disk)
      → (assemble o cfg m plat ref p d).1 ≡ true
      → Indexed d (assemble o cfg m plat ref p d).0
  unfolding assemble
  assemble-Indexed p d fine =
      let first = ensure_layout-Ensured o.indents d in
      let ensured = ensure_layout o.indents d in
      let r = write_index_lem o.indents m plat (ref_dir ref) ensured.0 in
      let indexed = write_index o.indents m plat (ref_dir ref) ensured.0 in
      elim (Bool-cases (ensured.1)) [
        | inr stuck ↦ absurd (let b = rw (assemble, stuck) at fine in cc)
        | inl ready ↦ elim (Bool-cases (indexed.1)) [
          | inr failed ↦ absurd (let b = rw (assemble, ready, failed) at fine in cc)
          | inl made ↦
              let (text, encoded, written, _, _) = r.written made in
              rw (assemble, ready, made)
                (record {
                  text = text;
                  encoded = encoded;
                  written =
                      export_image-files p indexed.0 index_path index_path_ne_archive ∙ written;
                  blobs = λ a h.
                      export_image-files p indexed.0 (blobs_file a h) (λ e. cc)
                      ∙ r.others (blobs_file a h) (λ e. cc) (λ e. cc) (λ e. cc) (λ e. cc)
                      ∙ first.others (blobs_file a h) (λ e. cc) (λ e. cc);
                })
        ]
      ]

  -- `pull` exits with 0 only behind a fetch that succeeded and an index that was written.
  pub finish_pull-Indexed :
      (w : World) (fetched : Bool) {d : Disk}
      → finish_pull o cfg m plat ref (w, fetched) ≡ (0, d)
      → (fetched ≡ true) × Indexed (w.disk) d
  unfolding finish_pull
  finish_pull-Indexed w false h = absurd (let b = ap (λ (x : ℕ × Disk). x.0) h in omega arith)
  finish_pull-Indexed w true {d} h =
      let saved = (save_final o.deps o.saved_at w).0 in
      let made = assemble o cfg m plat ref (saved.plan) (saved.disk) in
      elim (Bool-cases (made.1)) [
        | inr failed ↦ absurd (let b = rw failed at (ap (λ (x : ℕ × Disk). x.0) h) in omega arith)
        | inl fine ↦
            let r = assemble-Indexed (saved.plan) (saved.disk) fine in
            let e = ap (λ (x : ℕ × Disk). x.1) h in
            (
              refl,
              subst (Indexed (w.disk)) e (record {
                text = r.text;
                encoded = r.encoded;
                written =
                    release-files o.deps o.saved_at (record saved { disk = made.0 }) index_path
                      index_path_ne_state_path (λ x. cc)
                    ∙ r.written;
                blobs = λ a k.
                    release-files o.deps o.saved_at (record saved { disk = made.0 })
                      (blobs_file a k) (λ x. cc) (λ x. cc)
                    ∙ r.blobs a k
                    ∙ save_final-files o.deps o.saved_at w (blobs_file a k) (λ x. cc) (λ x. cc);
              }),
            )
      ]

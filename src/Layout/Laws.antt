-- ===== src/Layout/Laws.antt =====
-- internal/oci/layout.go: what the two functions leave on disk.
use imgpull.Base.{
  codes, none, ◌≡◌, ◌≢◌, ◌∙◌, ap, ℕ, refl, sym, inl, inr, Bool, true, false, some, is_some, [], ◌∷◌,
  ◌++◌, Bytes, Bool-cases, Option-cases, arith,
}
use imgpull.Files.{FilePath, image_file, temp, Disk, mkdir_all}
use imgpull.Files.Atomic.{write_file_atomic-target, write_file_atomic-others}
use imgpull.Platform.{Platform}
use imgpull.Manifest.{ImageManifest}
use imgpull.Layout.{
  Indents, marker_path, index_path, marker_text, ensure_layout, image_index, write_index,
}

abbrev first_byte : FilePath → ℕ
first_byte (image_file (c ∷ name)) = c
first_byte _ = 0

index_path_ne_marker_path : index_path ≢ marker_path
index_path_ne_marker_path e = let first = ap first_byte e in omega arith

module _ (j : Indents) where
  -- The marker stays where there is one, and is written whole where there is none.
  pub record Ensured (d : Disk) (r : Disk × Bool) : Type 0 where
    pub marked : r.1 ≡ true → is_some (r.0.files marker_path) ≡ true
    pub kept : (text : Bytes) → d.files marker_path ≡ some text → r.0.files marker_path ≡ some text
    pub made :
        r.1 ≡ true
        → d.files marker_path ≡ none
        → r.0.files marker_path ≡ some (j.layout_version (codes "1.0.0") ++ b'\n' ∷ [])
    pub others : (q : FilePath) → q ≢ marker_path → q ≢ temp marker_path → r.0.files q ≡ d.files q

  pub ensure_layout-Ensured : (d : Disk) → Ensured d (ensure_layout j d)
  unfolding ensure_layout
  ensure_layout-Ensured d = elim (Bool-cases (d.fault (mkdir_all (image_file [])))) [
    | inl stuck ↦
        rw (ensure_layout, stuck)
          (record { marked = λ e. cc; kept = λ text h. h; made = λ e. cc; others = λ q a b. refl })
    | inr free ↦ elim (Option-cases (d.files marker_path)) [
      | inr (text, there) ↦
          rw (ensure_layout, free, there)
            (record {
              marked = λ _. rw there refl;
              kept = λ text h. h;
              made = λ _ h. cc;
              others = λ q a b. refl;
            })
      | inl missing ↦
          rw (ensure_layout, free, missing)
            (record {
              marked =
                  λ fine. rw (write_file_atomic-target marker_path (marker_text j) d, fine) refl;
              kept = λ text h. cc;
              made = λ fine _. rw fine at (write_file_atomic-target marker_path (marker_text j) d);
              others = write_file_atomic-others marker_path (marker_text j) d;
            })
    ]
  ]

  module _ (m : ImageManifest) (plat : Platform) (ref_name : Bytes) where
    -- What WriteIndex leaves behind.
    pub record Indexed (d : Disk) (r : Disk × Bool) : Type 0 where
      pub written :
          r.1 ≡ true
          → (text : Bytes) × (j.index_text (image_index m plat ref_name) ≡ some text)
            × (r.0.files index_path ≡ some (text ++ b'\n' ∷ []))
            × (is_some (r.0.files marker_path) ≡ true)
            × (d.files marker_path ≡ none
                → r.0.files marker_path ≡ some (j.layout_version (codes "1.0.0") ++ b'\n' ∷ []))
      pub kept :
          (text : Bytes) → d.files marker_path ≡ some text → r.0.files marker_path ≡ some text
      pub unwritten : r.1 ≡ false → r.0.files index_path ≡ d.files index_path
      pub others :
          (q : FilePath)
          → q ≢ marker_path
          → q ≢ temp marker_path
          → q ≢ index_path
          → q ≢ temp index_path
          → r.0.files q ≡ d.files q

    write_index-Indexed : (d : Disk) → Indexed d (write_index j m plat ref_name d)
    unfolding write_index
    write_index-Indexed d =
        let e = ensure_layout-Ensured d in
        let after = (ensure_layout j d).0 in
        let index_kept = e.others index_path index_path_ne_marker_path (λ x. cc) in
        elim (Bool-cases ((ensure_layout j d).1)) [
          | inr stuck ↦
              rw (write_index, stuck)
                (record {
                  written = λ fine. absurd (cc);
                  kept = e.kept;
                  unwritten = λ _. index_kept;
                  others = λ q a b _ _. e.others q a b;
                })
          | inl ready ↦ elim (Option-cases (j.index_text (image_index m plat ref_name))) [
            | inl bad ↦
                rw (write_index, ready, bad)
                  (record {
                    written = λ fine. cc;
                    kept = e.kept;
                    unwritten = λ _. index_kept;
                    others = λ q a b _ _. e.others q a b;
                  })
            | inr (text, encoded) ↦
                let target = write_file_atomic-target index_path (text ++ b'\n' ∷ []) after in
                let rest = write_file_atomic-others index_path (text ++ b'\n' ∷ []) after in
                let marker = rest marker_path (λ x. index_path_ne_marker_path (sym x)) (λ x. cc) in
                rw (write_index, ready, encoded)
                  (record {
                    written = λ fine. (
                      text,
                      encoded,
                      rw fine at target,
                      rw marker (e.marked ready),
                      λ missing. marker ∙ e.made ready missing,
                    );
                    kept = λ old h. marker ∙ e.kept old h;
                    unwritten = λ failed. (rw failed at target) ∙ index_kept;
                    others = λ q a b f g. rest q f g ∙ e.others q a b;
                  })
          ]
        ]

    pub write_index_lem : (d : Disk) → Indexed d (write_index j m plat ref_name d)
    write_index_lem d = write_index-Indexed d

-- ===== src/Plan/Saving.antt =====
-- What the writing of state.json leaves alone, when it happens, and that it can be read back.
use imgpull.Base.{
  ℕ, Bytes, Option-cases, ltb, lt→ltb, ◌-◌, ◌<◌, ◌≤◌, ◌≡◌, ◌≢◌, refl, ◌∙◌, true, false, some,
  Bool-cases, inl, inr, ok, arith, second,
}
use imgpull.Files.{FilePath, Disk, temp, open_file, read_file, write_file_atomic}
use imgpull.Files.Atomic.{
  write_file_atomic-others, write_file_atomic-target, write_file_atomic-machine,
}
use imgpull.Plan.{
  World, Deps, StateFile, state_path, state_version, save_state, state_file, persist_locked,
  save_now, save_final,
}
use imgpull.Plan.Build.{load_state}

module _ (deps : Deps) where
  save_state-files :
      (st : StateFile) (d : Disk) (q : FilePath)
      → q ≢ state_path
      → q ≢ temp state_path
      → (save_state deps st d).0.files q ≡ d.files q
  unfolding save_state
  save_state-files st d q h k = elim (Option-cases (deps.encode_state st)) [
    | inl failed ↦ rw (save_state, failed) refl
    | inr (text, encoded) ↦
        rw (save_state, encoded) (write_file_atomic-others state_path text d q h k)
  ]

  save_state-fault : (st : StateFile) (d : Disk) → (save_state deps st d).0.fault ≡ d.fault
  unfolding save_state
  save_state-fault st d = elim (Option-cases (deps.encode_state st)) [
    | inl failed ↦ rw (save_state, failed) refl
    | inr (text, encoded) ↦
        rw (save_state, encoded) ((write_file_atomic-machine state_path text d).same_fault)
  ]

module _ (deps : Deps) (now : ℕ) where
  pub persist_locked-objects :
      (w : World) → (persist_locked deps now w).0.plan.objects ≡ w.plan.objects
  unfolding persist_locked
  persist_locked-objects w = ground arith

  pub persist_locked-files :
      (w : World) (q : FilePath)
      → q ≢ state_path
      → q ≢ temp state_path
      → (persist_locked deps now w).0.disk.files q ≡ w.disk.files q
  unfolding persist_locked save_state
  persist_locked-files w q h k = elim (Bool-cases (ltb (now - w.plan.last_save) second)) [
    | inl early ↦ rw early
    | inr late ↦ rw late (save_state-files deps (state_file now (w.plan)) (w.disk) q h k)
  ]

  pub persist_locked-fault : (w : World) → (persist_locked deps now w).0.disk.fault ≡ w.disk.fault
  unfolding persist_locked save_state
  persist_locked-fault w = elim (Bool-cases (ltb (now - w.plan.last_save) second)) [
    | inl early ↦ rw early
    | inr late ↦ rw late (save_state-fault deps (state_file now (w.plan)) (w.disk))
  ]

  -- `SaveNow` within a second of the last save writes nothing, and reports success.
  pub save_now_throttled :
      (w : World) → now - w.plan.last_save < second → save_now deps now w ≡ (w, true)
  unfolding save_now persist_locked
  save_now_throttled w h = rw (lt→ltb _ _ h)

  load_state-save_state :
      (st : StateFile) (d : Disk)
      → st.version ≡ state_version
      → ((text : Bytes) → deps.encode_state st ≡ some text → deps.decode_state text ≡ some st)
      → d.fault (open_file state_path) ≡ false
      → d.fault (read_file state_path) ≡ false
      → (save_state deps st d).1 ≡ true
      → load_state deps (save_state deps st d).0 ≡ ok (some st)
  unfolding save_state load_state
  load_state-save_state st d v codec opened read saved =
      elim (Option-cases (deps.encode_state st)) [
        | inl failed ↦ absurd (let e = rw (save_state, failed) at saved in cc)
        | inr (text, encoded) ↦
            let done : (write_file_atomic state_path text d).1 ≡ true =
              rw (save_state, encoded) at saved in
            let there : (write_file_atomic state_path text d).0.files state_path ≡ some text =
              write_file_atomic-target state_path text d ∙ rw done in
            let same : (write_file_atomic state_path text d).0.fault ≡ d.fault =
              (write_file_atomic-machine state_path text d).same_fault in
            let decoded : deps.decode_state text ≡ some st = codec text encoded in
            rw (load_state, save_state, encoded) (ground arith)
      ]

  -- After a `SaveFinal` that succeeds, the state file is read back as the plan stood, whenever the
  -- last save was, if the clock is a second past Go's zero time at least, the standard library decodes
  -- that document as it encoded it, and the file can be read.
  pub load_state-save_final :
      (w : World)
      → second ≤ now
      → ((text : Bytes)
          → deps.encode_state (state_file now (w.plan)) ≡ some text
          → deps.decode_state text ≡ some (state_file now (w.plan)))
      → w.disk.fault (open_file state_path) ≡ false
      → w.disk.fault (read_file state_path) ≡ false
      → (save_final deps now w).1 ≡ true
      → load_state deps ((save_final deps now w).0.disk) ≡ ok (some (state_file now (w.plan)))
  unfolding save_final save_now persist_locked
  load_state-save_final w late codec opened read =
      let due : ltb (now - 0) second ≡ false = ground arith in
      rw due λ saved.
        unfold state_file in
        load_state-save_state (state_file now (w.plan)) (w.disk) refl codec opened read saved

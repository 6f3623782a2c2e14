-- ===== src/Pull/Guarantees.antt =====
-- cmd/imgpull/main.go: what pull promises when it exits with 0.
use imgpull.Base.{
  codes, ℕ, suc, ◌≡◌, ◌≢◌, ◌⊎◌, ◌∙◌, refl, ap, inl, inr, true, false, Option, none, some, [], ◌∷◌,
  ◌++◌, Bytes, Option-cases, Result-cases, ok, arith,
}
use mathlib.Core.Path.{subst}
use mathlib.Core.Option.{some-injective}
use imgpull.Files.{FilePath, Disk, open_file, read_file}
use imgpull.Verify.{Hash}
use imgpull.Platform.{Platform, parse_platform}
use imgpull.Reference.{Ref, parse, ref_dir}
use imgpull.Manifest.{ImageManifest}
use imgpull.Manifest.Retrying.{resolve_manifest_opts}
use imgpull.Plan.{World}
use imgpull.Plan.Sound.{AllSized}
use imgpull.Layout.{index_path, image_index}
use imgpull.Plan.Build.{build, BuildError, BuildOutcome, built, refused, panicked}
use imgpull.Plan.Guarantees.{build_verified-Sound, Run-of_built}
use imgpull.Plan.Places.{digest_at, promised_at}
use imgpull.Plan.Placing.{build_tasks_lem}
use imgpull.Pull.{
  Outside, PullConfig, ProxyUrl, parse_proxy, fetch_blobs, finish_pull, platform_or_default,
  pull_manifest, pull, Exit, stop_daemon,
}
use imgpull.Pull.Verified.{finish_pull-Indexed}
use imgpull.Pull.Fetching.{Lawful, HasBlobs, Dropped, tasks_HasBlobs, fetch_blobs-Complete}

pub build-cases :
    (r : BuildOutcome)
    → ((w : World) × (r ≡ built w))
      ⊎ (((e : BuildError) × (x : Disk) × (r ≡ refused e x))
          ⊎ ((digest : Bytes) × (x : Disk) × (r ≡ panicked digest x)))
build-cases (built w) = inl (w, refl)
build-cases (refused e x) = inr (inl (e, x, refl))
build-cases (panicked digest x) = inr (inr (digest, x, refl))

-- The platform that a flag asks for, which is linux/amd64 where it is empty.
abbrev pub IsAsked : Bytes → Platform → Type 0
IsAsked flag plat =
    ((flag ≡ []) × (parse_platform (codes "linux/amd64") ≡ ok plat))
    ⊎ ((flag ≢ []) × (parse_platform flag ≡ ok plat))

platform_or_default-IsAsked :
    (flag : Bytes) {plat : Platform}
    → parse_platform (platform_or_default flag) ≡ ok plat
    → IsAsked flag plat
platform_or_default-IsAsked [] h = inl (refl, h)
platform_or_default-IsAsked (c ∷ flag) h = inr (λ e. cc, h)

-- What stands behind an exit with 0: the reference, the platform and the proxy that were asked for, the
-- manifest that was resolved for them, the plan that was built of it, the index on disk, and the blobs
-- of the manifest, unless Run dropped a cancellation.
pub record Pulled (o : Outside) (cfg : PullConfig) (fuel : ℕ) (d e : Disk) : Type 0 where
  pub proxy : Option ProxyUrl
  pub ref : Ref
  pub plat : Platform
  pub manifest : ImageManifest
  pub plan : World
  pub proxied : parse_proxy o.parse_url cfg.proxy ≡ ok proxy
  pub parsed : parse o.names cfg.image cfg.insecure ≡ ok ref
  pub asked : IsAsked cfg.platform_flag plat
  pub resolved : resolve_manifest_opts (o.remote ref cfg) plat o.patience 0 ≡ ok manifest
  pub planned : build o.deps ref manifest plat cfg.verify o.clock d ≡ built plan
  pub text : Bytes
  pub encoded : o.indents.index_text (image_index manifest plat (ref_dir ref)) ≡ some text
  pub written : e.files index_path ≡ some (text ++ b'\n' ∷ [])
  pub blobs : HasBlobs o.deps e manifest ⊎ Dropped o cfg fuel ref proxy plan

-- Every file can be opened and read.
abbrev pub IsReadable : Disk → Type 0
IsReadable d = (p : FilePath) → (d.fault (open_file p) ≡ false) × (d.fault (read_file p) ≡ false)

abbrev exit_code : Option Exit → ℕ
exit_code none = 0
exit_code (some (code, d)) = code

pub refused_code : (n : ℕ) (x e : Disk) → ◌≢◌ {A = Option Exit} (some (suc n, x)) (some (0, e))
refused_code n x e h = let b : suc n ≡ 0 = ap exit_code h in omega arith

module _ (o : Outside) (cfg : PullConfig) (fuel : ℕ) (size_of : Hash → ℕ) (d : Disk)
    (law : Lawful o) (verify : cfg.verify ≡ true) (readable : IsReadable d) where
  build_lem :
      (ref : Ref) (m : ImageManifest) (plat : Platform) {w : World}
      → build o.deps ref m plat cfg.verify o.clock d ≡ built w
      → (j : ℕ) → digest_at (w.plan.objects) j ≡ promised_at (m.config ∷ m.layers) j
  build_lem ref m plat made =
      let r = Run-of_built o.deps ref m plat cfg.verify o.clock d made in
      build_tasks_lem o.deps ref m plat cfg.verify o.clock r.manifest_hash r.objects r.start r.ran

  pull_manifest-Pulled :
      (proxy : Option ProxyUrl) (ref : Ref) (plat : Platform) (m : ImageManifest) {e : Disk}
      → parse_proxy o.parse_url cfg.proxy ≡ ok proxy
      → parse o.names cfg.image cfg.insecure ≡ ok ref
      → IsAsked cfg.platform_flag plat
      → AllSized o.deps size_of m
      → resolve_manifest_opts (o.remote ref cfg) plat o.patience 0 ≡ ok m
      → pull_manifest o cfg fuel proxy ref plat m d ≡ some (0, e)
      → Pulled o cfg fuel d e
  unfolding pull_manifest
  pull_manifest-Pulled proxy ref plat m {e} proxied parsed asked sized resolved h =
      elim (build-cases (build o.deps ref m plat cfg.verify o.clock d)) [
        | inr (inl (failure, x, stopped)) ↦
            absurd (refused_code 0 x e (rw (pull_manifest, stopped) at h))
        | inr (inr (digest, x, stopped)) ↦
            absurd (refused_code 1 x e (rw (pull_manifest, stopped) at h))
        | inl (w, made) ↦ elim (Option-cases (fetch_blobs o cfg fuel ref proxy w)) [
          | inl polling ↦ absurd (let b = rw (pull_manifest, made, polling) at h in cc)
          | inr (f, got) ↦ elim (Option-cases (stop_daemon o f)) [
            | inl waits ↦ absurd (let b = rw (pull_manifest, made, got, waits) at h in cc)
            | inr (process, stopped) ↦
                let w' = f.world in
                let ended : finish_pull o cfg m plat ref (w', f.goes_on) ≡ (0, e) =
                  some-injective _ _ (rw (pull_manifest, made, got, stopped) at h) in
                let (on, r) =
                  finish_pull-Indexed o cfg m plat ref law.archives w' (f.goes_on) ended in
                let sound =
                  build_verified-Sound o.deps ref m plat o.clock d size_of readable sized
                    (subst (λ v. build o.deps ref m plat v o.clock d ≡ built w) verify made) in
                record {
                  proxy = proxy;
                  ref = ref;
                  plat = plat;
                  manifest = m;
                  plan = w;
                  proxied = proxied;
                  parsed = parsed;
                  asked = asked;
                  resolved = resolved;
                  planned = made;
                  text = r.text;
                  encoded = r.encoded;
                  written = r.written;
                  blobs =
                      elim (fetch_blobs-Complete o cfg fuel ref proxy size_of d.fault w law sound
                        got on) [
                          | inl (blobs, same) ↦
                              let planned = build_lem ref m plat made in
                              let there =
                                tasks_HasBlobs o.deps size_of m w' sized (λ j. same j ∙ planned j)
                                  blobs in
                              inl (λ j b at.
                                let (h, hash, (text, found, intact)) = there j b at in
                                (h, hash, (text, r.blobs _ _ ∙ found, intact)))
                          | inr dropped ↦ inr dropped
                        ];
                }
          ]
        ]
      ]

  -- When `pull --verify` exits with 0, the reference, the platform and the proxy are those that were
  -- asked for, index.json holds the index of the manifest that was resolved, and
  -- the config and every layer of that manifest has a file in blobs/, under its digest, of the stated
  -- size and with that digest, unless Run has dropped the cancellation of a download; if files can be
  -- read, equal digests have equal sizes in the manifest, a context ends only by a cancellation or a
  -- deadline, nothing else touches blobs/, the archive is written to image.tar only, and every pending
  -- task gets its turn, one after another.
  pub pull_verified :
      {e : Disk}
      → ((ref : Ref) (plat : Platform) (m : ImageManifest)
          → resolve_manifest_opts (o.remote ref cfg) plat o.patience 0 ≡ ok m
          → AllSized o.deps size_of m)
      → pull o cfg fuel d ≡ some (0, e)
      → Pulled o cfg fuel d e
  unfolding pull
  pull_verified {e} sized h = elim (Result-cases (parse_proxy o.parse_url cfg.proxy)) [
    | inr (bad, failed) ↦ absurd (refused_code 1 d e (rw (pull, failed) at h))
    | inl (proxy, good) ↦ elim (Result-cases (parse o.names cfg.image cfg.insecure)) [
      | inr (bad, failed) ↦ absurd (refused_code 1 d e (rw (pull, good, failed) at h))
      | inl (ref, parsed) ↦
          elim (Result-cases (parse_platform (platform_or_default cfg.platform_flag))) [
            | inr (bad, failed) ↦ absurd (refused_code 1 d e (rw (pull, good, parsed, failed) at h))
            | inl (plat, known) ↦
                elim (Result-cases (resolve_manifest_opts (o.remote ref cfg) plat o.patience 0)) [
                  | inr (bad, failed) ↦
                      absurd (refused_code 0 d e (rw (pull, good, parsed, known, failed) at h))
                  | inl (m, resolved) ↦
                      pull_manifest-Pulled proxy ref plat m good parsed
                        (platform_or_default-IsAsked cfg.platform_flag known)
                        (sized ref plat m resolved) resolved
                        (rw (pull, good, parsed, known, resolved) at h)
                ]
          ]
    ]
  ]

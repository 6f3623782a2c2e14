-- ===== src/Command/Guarantees.antt =====
-- cmd/imgpull/main.go: what the program promises when it exits with 0.
use imgpull.Base.{
  refl, [], codes, bytes_eq_iff, false, arith, List-cases, ℕ, ◌≡◌, ◌⊎◌, ◌||◌, inl, inr, true, false,
  Option, some, ok, List, ◌∷◌, Bytes, Bool-cases,
}
use imgpull.Files.{Disk}
use imgpull.Verify.{Hash}
use imgpull.Platform.{Platform}
use imgpull.Reference.{Ref}
use imgpull.Manifest.{ImageManifest}
use imgpull.Manifest.Retrying.{resolve_manifest_opts}
use imgpull.Plan.Sound.{AllSized}
use imgpull.Pull.{Outside, PullConfig, Exit}
use imgpull.Pull.Fetching.{Lawful}
use imgpull.Pull.Guarantees.{Pulled, IsReadable, pull_verified, refused_code}
use imgpull.Command.{Flags, FlagParser, defaults, arguments, config_of, bad_export, run_command}

-- The configuration of a pull has what the flags say.
pub record IsOf (image : Bytes) (f : Flags) (cfg : PullConfig) : Type 0 where
  pub image_same : cfg.image ≡ image
  pub platform_same : cfg.platform_flag ≡ f.platform
  pub endpoint_same : cfg.aria2_rpc ≡ f.aria2_rpc
  pub secret_same : cfg.aria2_secret ≡ f.aria2_secret
  pub concurrency_same : cfg.concurrency ≡ f.concurrency
  pub retries_same : cfg.max_retries ≡ f.max_retries
  pub export_same : cfg.export ≡ f.export
  pub username_same : cfg.username ≡ f.username
  pub password_same : cfg.password ≡ f.password
  pub proxy_same : cfg.proxy ≡ f.proxy
  pub insecure_same : cfg.insecure ≡ f.insecure
  pub verify_same : cfg.verify ≡ f.verify

config_of-IsOf : (image : Bytes) (f : Flags) → IsOf image f (config_of image f)
config_of-IsOf image f = record {
  image_same = refl;
  platform_same = refl;
  endpoint_same = refl;
  secret_same = refl;
  concurrency_same = refl;
  retries_same = refl;
  export_same = refl;
  username_same = refl;
  password_same = refl;
  proxy_same = refl;
  insecure_same = refl;
  verify_same = refl;
}

abbrev pub IsExport : Bytes → Type 0
IsExport format = (format ≡ []) ⊎ (format ≡ codes "docker-archive")

bad_export-IsExport : (format : Bytes) → bad_export format ≡ false → IsExport format
bad_export-IsExport [] h = inl refl
bad_export-IsExport (c ∷ format) h = inr ((bytes_eq_iff _ _).0 (ground arith))

-- The program only told its version or its usage, or it pulled the first positional argument.
abbrev pub Served : Flags → List Bytes → Outside → ℕ → Disk → Disk → Type 0
Served f args o fuel d e =
    ((f.version || f.help ≡ true) × (e ≡ d))
    ⊎ ((image : Bytes) × (more : List Bytes) × (cfg : PullConfig) × ((arguments args).0
          ≡ image ∷ more)
        × IsOf image f cfg
        × IsExport f.export
        × Pulled o cfg fuel d e)

-- When the program exits with 0 and the flags say `--verify`, it either was asked for its version or
-- its usage, and left the disk as it was, or its first argument without a dash is the image it pulled,
-- with every flag as it was given, for the platform of `--platform` or, where that is empty, linux/amd64:
-- index.json holds the index of the manifest that was resolved, and the config and every layer of that
-- manifest has a file in blobs/, under its digest, of the stated size and with that digest, unless Run
-- has dropped the cancellation of a download; if files can be read, equal digests have equal sizes in
-- the manifest, a context ends only by a cancellation or a deadline, nothing else touches blobs/, the
-- archive is written to image.tar only, and every pending task gets its turn, one after another.
pub run_command_verified :
    (parse_flags : FlagParser) (o : Outside) (fuel : ℕ) (size_of : Hash → ℕ) (d : Disk)
    (args : List Bytes) (f : Flags) {e : Disk}
    → Lawful o
    → IsReadable d
    → parse_flags defaults ((arguments args).1) ≡ some f
    → f.verify ≡ true
    → ((image : Bytes) (ref : Ref) (plat : Platform) (m : ImageManifest)
        → resolve_manifest_opts (o.remote ref (config_of image f)) plat o.patience 0 ≡ ok m
        → AllSized o.deps size_of m)
    → run_command parse_flags o fuel args d ≡ some (0, e)
    → Served f args o fuel d e
unfolding run_command
run_command_verified parse_flags o fuel size_of d args f {e} law readable parsed verify sized h =
    elim (Bool-cases (f.version || f.help)) [
      | inl told ↦
          let a : ◌≡◌ {A = Option Exit} (some (0, d)) (some (0, e)) =
            rw (run_command, parsed, told) at h in
          inl (told, let same : e ≡ d = cc in same)
      | inr plain ↦ elim (List-cases ((arguments args).0)) [
        | inl nothing ↦ absurd (refused_code 1 d e (rw (run_command, parsed, plain, nothing) at h))
        | inr (image, more, first) ↦ elim (Bool-cases (bad_export f.export)) [
          | inl bad ↦ absurd (refused_code 1 d e (rw (run_command, parsed, plain, first, bad) at h))
          | inr good ↦ inr (
            image,
            more,
            config_of image f,
            first,
            config_of-IsOf image f,
            bad_export-IsExport f.export good,
            pull_verified o (config_of image f) fuel size_of d law verify readable (sized image)
                (rw (run_command, parsed, plain, first, good) at h),
          )
        ]
      ]
    ]

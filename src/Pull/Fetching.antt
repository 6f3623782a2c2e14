-- ===== src/Pull/Fetching.antt =====
-- cmd/imgpull/main.go: the blobs on disk behind the download step of pull.
use imgpull.Base.{
  ℕ, zero, suc, ◌≡◌, ◌⊎◌, ◌∙◌, refl, sym, ap, inl, inr, Bool, true, false, Option, some, List, [],
  ◌∷◌, Bytes, get_elem?, All-get_elem?, Bool-cases, Option-cases, Result, ok, err, is_ok,
}
use mathlib.Core.Path.{subst}
use imgpull.Files.{Disk, Syscall, blobs_file}
use imgpull.Verify.{Hash}
use imgpull.Verify.Laws.{IsIntact}
use imgpull.Reference.{Ref}
use imgpull.Manifest.{BlobDescriptor, ImageManifest}
use imgpull.Plan.{Task, World, Deps, committed, is_committed}
use imgpull.Plan.Tasks.{pending_objects}
use imgpull.Plan.Sound.{Sound, Sized, AllSized, final_path_lem}
use imgpull.Plan.Places.{digest_at, promised_at, SameDigests, task_at}
use mathlib.Core.Option.{some-injective}
use imgpull.Rpc.{Rpc}
use imgpull.Rpc.Daemon.{Daemon}
use imgpull.Rpc.Service.{client}
use imgpull.Scheduler.{Sched}
use imgpull.Scheduler.Polling.{IsAside}
use imgpull.Scheduler.Settling.{EndsByCancel}
use imgpull.Scheduler.Run.{RunEnd, run}
use imgpull.Scheduler.Running.{Covers, WasCanceled, is_committed_lem, run_keeps, run_verified}
use imgpull.Pull.{Outside, PullConfig, ProxyUrl, Fetched, connect_aria2, new_config, fetch_blobs}
use imgpull.Pull.Verified.{SameBlobs, ArchivesAside}

-- What is taken of the world outside of pull: the context ends only by a cancellation or a deadline,
-- aria2 and whatever else acts meanwhile leaves blobs/ alone, every pending task gets its turn, and
-- the archive is written to image.tar only.
pub record Lawful (o : Outside) : Type 0 where
  pub ends : (ref : Ref) → EndsByCancel (o.net ref)
  pub same_faults : (n : ℕ) (d : Disk) → (o.works n d).fault ≡ d.fault
  pub same_blobs : (n : ℕ) (d : Disk) → SameBlobs d (o.works n d)
  pub covers : Covers o.order
  pub archives : ArchivesAside o

-- The config and every layer of the manifest has a file in blobs/, under its digest, of the size that
-- the manifest states and with that digest.
abbrev pub HasBlobs : Deps → Disk → ImageManifest → Type 0
HasBlobs deps d m =
    (j : ℕ) (b : BlobDescriptor)
    → get_elem? (m.config ∷ m.layers) j ≡ some b
    → (h : Hash) × (deps.new_hash b.digest ≡ some h)
      × ((text : Bytes) × (d.files (blobs_file h.algorithm h.hex) ≡ some text)
          × IsIntact deps.digests text h b.size)

-- The same of the tasks of a plan.
abbrev pub TaskBlobs : Deps → (Hash → ℕ) → World → Type 0
TaskBlobs deps size_of w =
    (j : ℕ) (t : Task)
    → get_elem? (w.plan.objects) j ≡ some t
    → (deps.new_hash t.digest ≡ some t.hash)
      × (t.size ≡ size_of t.hash)
      × ((text : Bytes) × (w.disk.files (blobs_file t.hash.algorithm t.hash.hex) ≡ some text)
          × IsIntact deps.digests text t.hash t.size)

task_blobs :
    (deps : Deps) (size_of : Hash → ℕ) (faults : Syscall → Bool) (w : World)
    → Sound deps size_of (IsIntact deps.digests) faults w
    → ((j : ℕ) (t : Task) → get_elem? (w.plan.objects) j ≡ some t → t.status ≡ committed)
    → TaskBlobs deps size_of w
task_blobs deps size_of faults w sound done j t at =
    let ts = All-get_elem? _ (w.plan.objects) j sound.tasks at in
    let held = ts.held (done j t at) in
    (
      ts.hashed,
      ts.sized,
      (held.text, rw (final_path_lem deps t ts.hashed) at held.there, held.promised),
    )

promised_at-some :
    (bs : List BlobDescriptor) (j : ℕ) {b : BlobDescriptor}
    → get_elem? bs j ≡ some b
    → promised_at bs j ≡ some b.digest
promised_at-some [] j at = cc
promised_at-some (c ∷ bs) zero {b} at = let e : c ≡ b = cc in ap (λ x. some x.digest) e
promised_at-some (c ∷ bs) (suc j) at = promised_at-some bs j at

pub tasks_HasBlobs :
    (deps : Deps) (size_of : Hash → ℕ) (m : ImageManifest) (w : World)
    → AllSized deps size_of m
    → ((j : ℕ) → digest_at (w.plan.objects) j ≡ promised_at (m.config ∷ m.layers) j)
    → TaskBlobs deps size_of w
    → HasBlobs deps (w.disk) m
tasks_HasBlobs deps size_of m w sized planned blobs j b at =
    let (t, there, same) =
      task_at (w.plan.objects) j (planned j ∙ promised_at-some (m.config ∷ m.layers) j at) in
    let (hashed, size, (text, on_disk, intact)) = blobs j t there in
    let hash : deps.new_hash b.digest ≡ some t.hash = rw same at hashed in
    let stated = All-get_elem? (Sized deps size_of) (m.config ∷ m.layers) j sized at t.hash hash in
    (
      t.hash,
      hash,
      (text, on_disk, subst (IsIntact deps.digests text t.hash) (size ∙ sym stated) intact),
    )

none_left :
    (ts : List Task) (j : ℕ) {t : Task}
    → pending_objects ts ≡ []
    → get_elem? ts j ≡ some t
    → is_committed t.status ≡ true
unfolding pending_objects
none_left [] j nothing at = cc
none_left (u ∷ ts) zero {t} nothing at =
    let same : u ≡ t = cc in
    elim (Bool-cases (is_committed u.status)) [
      | inl done ↦ rw same at done
      | inr more ↦ absurd (let b = rw (pending_objects, more) at nothing in cc)
    ]
none_left (u ∷ ts) (suc j) nothing at = elim (Bool-cases (is_committed u.status)) [
  | inl done ↦ none_left ts j (rw (pending_objects, done) at nothing) at
  | inr more ↦ absurd (let b = rw (pending_objects, more) at nothing in cc)
]

objects-cases : (ts : List Task) → (ts ≡ []) ⊎ ((u : Task) × (us : List Task) × (ts ≡ u ∷ us))
objects-cases [] = inl refl
objects-cases (u ∷ us) = inr (u, us, refl)

is_ok_lem {ℓ} : {E : Type ℓ} (r : Result E (Unit {0})) → is_ok r ≡ true → r ≡ ok tt
is_ok_lem (ok _) h = refl
is_ok_lem (err e) h = cc

module _ (o : Outside) (cfg : PullConfig) (fuel : ℕ) (ref : Ref) (proxy : Option ProxyUrl) where
  -- Run has dropped the cancellation of a download.
  abbrev pub Dropped : World → Type 0
  Dropped w =
      (rpc : Rpc) × (daemon : Option Daemon) × (end : RunEnd) × (connect_aria2 o cfg
        ≡ some (ok (rpc, daemon)))
      × (run (new_config o cfg ref proxy rpc) fuel o.order
            (record { world = w; session = o.session })
          ≡ some end)
      × WasCanceled end.sent

  new_config-IsAside : (rpc : Rpc) → Lawful o → IsAside (new_config o cfg ref proxy rpc)
  unfolding new_config client
  new_config-IsAside rpc law = record {
    same_faults = law.same_faults;
    same_blobs = λ n d a h. law.same_blobs n d a h;
  }

  abbrev pub Complete : (Hash → ℕ) → World → World → Type 0
  Complete size_of w w' = TaskBlobs o.deps size_of w' × SameDigests w w'

  ran_Complete :
      (size_of : Hash → ℕ) (faults : Syscall → Bool) (w : World)
      → Lawful o
      → Sound o.deps size_of (IsIntact o.deps.digests) faults w
      → (rpc : Rpc) (daemon : Option Daemon) (end : RunEnd)
      → connect_aria2 o cfg ≡ some (ok (rpc, daemon))
      → run
          (new_config o cfg ref proxy rpc)
          fuel
          o.order
          (record { world = w; session = o.session })
        ≡ some end
      → end.result ≡ ok tt
      → Complete size_of w (end.sched.world) ⊎ Dropped w
  unfolding new_config
  ran_Complete size_of faults w law sound rpc daemon end connected ran fine =
      let c = new_config o cfg ref proxy rpc in
      let s : Sched = record { world = w; session = o.session } in
      let start : Sound o.deps size_of (IsIntact o.deps.digests) w.disk.fault w = record {
        same_faults = refl;
        tasks = sound.tasks;
      } in
      let aside = new_config-IsAside rpc law in
      let (kept, same) =
        run_keeps c aside (law.ends ref) size_of fuel o.order law.covers s start ran in
      elim (run_verified c aside (law.ends ref) size_of fuel o.order law.covers s start ran fine) [
        | inr dropped ↦ inr (rpc, daemon, end, connected, ran, dropped)
        | inl all ↦ inl (
          task_blobs o.deps size_of w.disk.fault (end.sched.world) kept (λ j t at. (all j t at).0),
          same,
        )
      ]

  -- A fetch that succeeds leaves the blobs of all tasks.
  pub fetch_blobs-Complete :
      (size_of : Hash → ℕ) (faults : Syscall → Bool) (w : World) {f : Fetched}
      → Lawful o
      → Sound o.deps size_of (IsIntact o.deps.digests) faults w
      → fetch_blobs o cfg fuel ref proxy w ≡ some f
      → f.goes_on ≡ true
      → Complete size_of w (f.world) ⊎ Dropped w
  unfolding fetch_blobs
  fetch_blobs-Complete size_of faults w {f} law sound made on =
      elim (objects-cases (pending_objects (w.plan.objects))) [
        | inl nothing ↦
            let same = some-injective _ _ (rw (fetch_blobs, nothing) at made) in
            subst (λ (x : Fetched). Complete size_of w (x.world) ⊎ Dropped w) same
              (inl (
                task_blobs o.deps size_of faults w sound
                    (λ j t at. is_committed_lem t.status (none_left (w.plan.objects) j nothing at)),
                λ j. refl,
              ))
        | inr (u, us, some_left) ↦ elim (Option-cases (connect_aria2 o cfg)) [
          | inl waiting ↦ absurd (let b = rw (fetch_blobs, some_left, waiting) at made in cc)
          | inr (err e, failed) ↦ absurd (
              let same = some-injective _ _ (rw (fetch_blobs, some_left, failed) at made) in
              let b : false ≡ true = ap (λ (x : Fetched). x.goes_on) same ∙ on in cc)
          | inr (ok (rpc, daemon), connected) ↦
              let c = new_config o cfg ref proxy rpc in
              let s : Sched = record { world = w; session = o.session } in
              elim (Option-cases (run c fuel o.order s)) [
                | inl polling ↦
                    absurd (let b = rw (fetch_blobs, some_left, connected, polling) at made in cc)
                | inr (end, ran) ↦
                    let same =
                      some-injective _ _ (rw (fetch_blobs, some_left, connected, ran) at made) in
                    let fine : is_ok end.result ≡ true =
                      ap (λ (x : Fetched). x.goes_on) same ∙ on in
                    subst (λ (x : Fetched). Complete size_of w (x.world) ⊎ Dropped w) same
                      (ran_Complete size_of faults w law sound rpc daemon end connected ran
                        (is_ok_lem _ fine))
              ]
        ]
      ]

-- ===== src/Plan/Places.antt =====
-- internal/plan: the digests at the places of a plan's tasks, and of a manifest's blobs.
use imgpull.Base.{
  ℕ, zero, suc, ◌≡◌, refl, ap, Option, none, some, List, [], ◌∷◌, Bytes, modify, get_elem?,
}
use imgpull.Manifest.{BlobDescriptor}
use imgpull.Plan.{Task, World}

abbrev pub digest_at : List Task → ℕ → Option Bytes
digest_at [] j = none
digest_at (t ∷ ts) zero = some t.digest
digest_at (t ∷ ts) (suc j) = digest_at ts j

-- The digest at a place of the manifest, the config first.
abbrev pub promised_at : List BlobDescriptor → ℕ → Option Bytes
promised_at [] j = none
promised_at (b ∷ bs) zero = some b.digest
promised_at (b ∷ bs) (suc j) = promised_at bs j

abbrev pub SameDigests : World → World → Type 0
SameDigests w v = (j : ℕ) → digest_at (v.plan.objects) j ≡ digest_at (w.plan.objects) j

pub digest_at-get_elem? :
    (ts us : List Task) (j : ℕ) → get_elem? ts j ≡ get_elem? us j → digest_at ts j ≡ digest_at us j
digest_at-get_elem? [] [] j same = refl
digest_at-get_elem? [] (u ∷ us) zero same = cc
digest_at-get_elem? [] (u ∷ us) (suc j) same = digest_at-get_elem? [] us j same
digest_at-get_elem? (t ∷ ts) [] zero same = cc
digest_at-get_elem? (t ∷ ts) [] (suc j) same = digest_at-get_elem? ts [] j same
digest_at-get_elem? (t ∷ ts) (u ∷ us) zero same = let e : t ≡ u = cc in ap (λ x. some x.digest) e
digest_at-get_elem? (t ∷ ts) (u ∷ us) (suc j) same = digest_at-get_elem? ts us j same

pub digest_at-some :
    (ts : List Task) (j : ℕ) {t : Task} → get_elem? ts j ≡ some t → digest_at ts j ≡ some t.digest
digest_at-some [] j at = cc
digest_at-some (u ∷ ts) zero {t} at = let e : u ≡ t = cc in ap (λ x. some x.digest) e
digest_at-some (u ∷ ts) (suc j) at = digest_at-some ts j at

-- A digest at a place is that of a task there.
pub task_at :
    (ts : List Task) (j : ℕ) {digest : Bytes}
    → digest_at ts j ≡ some digest
    → (t : Task) × (get_elem? ts j ≡ some t) × (t.digest ≡ digest)
task_at [] j at = cc
task_at (u ∷ ts) zero at = (u, refl, cc)
task_at (u ∷ ts) (suc j) at = task_at ts j at

pub digest_at-modify :
    (ts : List Task) (i : ℕ) (g : Task → Task)
    → ((t : Task) → (g t).digest ≡ t.digest)
    → (j : ℕ) → digest_at (modify ts i g) j ≡ digest_at ts j
digest_at-modify [] i g keeps j = refl
digest_at-modify (t ∷ ts) zero g keeps zero = ap some (keeps t)
digest_at-modify (t ∷ ts) zero g keeps (suc j) = refl
digest_at-modify (t ∷ ts) (suc i) g keeps zero = refl
digest_at-modify (t ∷ ts) (suc i) g keeps (suc j) = digest_at-modify ts i g keeps j

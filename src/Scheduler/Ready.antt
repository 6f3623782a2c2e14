-- ===== src/Scheduler/Ready.antt =====
-- The invariant that a download keeps: the plan is sound, and the task at its place is still the one
-- that the download was started for.
use imgpull.Base.{
  List-cases, ℕ, ◌≡◌, refl, sym, ap, ◌∙◌, Bool, Option, some, Bytes, modify, get_elem?,
  All-get_elem?, get_elem?-modify_self, get_elem?-modify_ne, ◌≢◌, inl, inr,
}
use mathlib.Core.Path.{subst₂}
use imgpull.Files.{Disk, Syscall, blobs_file, tmp_file, control, remove_file}
use imgpull.Verify.{Hash}
use imgpull.Verify.Laws.{IsIntact}
use imgpull.Plan.{Task, World, Deps, committed, downloading, update_task}
use imgpull.Plan.Tasks.{
  set_task, mark_retry, forget_url, pop_alt_url, mark_range_unsupported, mark_failed, set_fields,
  retry_fields, forget_fields, range_fields, failed_fields,
}
use imgpull.Plan.Reconcile.{discard, on_disk}
use imgpull.Plan.Saving.{persist_locked-objects}
use imgpull.Plan.Sound.{Sound, Sound-disk, Keeps-of_blobs, update_task-Sound}
use imgpull.Plan.Committing.{remove_file-Sound, discard-Sound}

-- A change of a task that is none of what the manifest says of it, and that commits nothing.
pub record IsProgress (g : Task → Task) : Type 0 where
  pub digest : (u : Task) → (g u).digest ≡ u.digest
  pub hash : (u : Task) → (g u).hash ≡ u.hash
  pub size : (u : Task) → (g u).size ≡ u.size
  pub part_name : (u : Task) → (g u).part_name ≡ u.part_name
  pub status : (u : Task) → (g u).status ≡ committed → u.status ≡ committed

-- `u` is the task that `t` was, with whatever changed of its progress.
pub record IsSame (t u : Task) : Type 0 where
  pub digest : u.digest ≡ t.digest
  pub hash : u.hash ≡ t.hash
  pub size : u.size ≡ t.size
  pub part_name : u.part_name ≡ t.part_name

module _ (deps : Deps) (i : ℕ) where
  pub at-update_task :
      (now : ℕ) (g : Task → Task) (w : World) {u : Task}
      → get_elem? (w.plan.objects) i ≡ some u
      → get_elem? ((update_task deps now i g w).plan.objects) i ≡ some (g u)
  unfolding update_task
  at-update_task now g w at =
      rw
        (persist_locked-objects deps now
          (record w { plan = record (w.plan) { objects = modify (w.plan.objects) i g } }))
        (get_elem?-modify_self (w.plan.objects) i g at)

  pub update_task-others :
      (now : ℕ) (g : Task → Task) (w : World) (j : ℕ)
      → j ≢ i
      → get_elem? ((update_task deps now i g w).plan.objects) j ≡ get_elem? (w.plan.objects) j
  unfolding update_task
  update_task-others now g w j apart =
      rw
        (persist_locked-objects deps now
          (record w { plan = record (w.plan) { objects = modify (w.plan.objects) i g } }))
        (get_elem?-modify_ne (w.plan.objects) i j g (λ e. apart (sym e)))

  pub mark_failed-at :
      (now : ℕ) (text : Bytes) (w : World) {u : Task}
      → get_elem? (w.plan.objects) i ≡ some u
      → get_elem? ((mark_failed now deps i text w).plan.objects) i ≡ some (failed_fields now text u)
  unfolding mark_failed
  mark_failed-at now text w at = at-update_task now (failed_fields now text) w at

module _ (deps : Deps) (size_of : Hash → ℕ) (faults : Syscall → Bool) (before : ℕ → Option Task)
    (i : ℕ) (t : Task) where
  pub record Ready (w : World) : Type 0 where
    pub sound : Sound deps size_of (IsIntact deps.digests) faults w
    pub now_at : Task
    pub at : get_elem? (w.plan.objects) i ≡ some now_at
    pub same : IsSame t now_at
    pub others : (j : ℕ) → j ≢ i → get_elem? (w.plan.objects) j ≡ before j

  -- The task at the place is committed.
  pub record IsDone (w : World) : Type 0 where
    pub task : Task
    pub found : get_elem? (w.plan.objects) i ≡ some task
    pub status : task.status ≡ committed

  update_task-Ready :
      (now : ℕ) (g : Task → Task)
      → IsProgress g
      → {w : World} → Ready w
      → Ready (update_task deps now i g w)
  update_task-Ready now g p {w} r =
      let ts = All-get_elem? _ (w.plan.objects) i r.sound.tasks r.at in
      record {
        sound =
            update_task-Sound deps size_of (IsIntact deps.digests) now i g r.sound r.at (record {
              hashed =
                  ap deps.new_hash (p.digest r.now_at)
                  ∙ ts.hashed
                  ∙ ap some (sym (p.hash r.now_at));
              sized = p.size r.now_at ∙ ts.sized ∙ ap size_of (sym (p.hash r.now_at));
              held = λ c.
                  let h = ts.held (p.status r.now_at c) in
                  record {
                    text = h.text;
                    there = rw (p.digest r.now_at) h.there;
                    promised =
                        subst₂ (IsIntact deps.digests h.text) (sym (p.hash r.now_at))
                          (sym (p.size r.now_at)) h.promised;
                  };
            });
        now_at = g r.now_at;
        at = at-update_task deps i now g w r.at;
        same = record {
          digest = p.digest _ ∙ r.same.digest;
          hash = p.hash _ ∙ r.same.hash;
          size = p.size _ ∙ r.same.size;
          part_name = p.part_name _ ∙ r.same.part_name;
        };
        others = λ j apart. update_task-others deps i now g w j apart ∙ r.others j apart;
      }

  pub set_task-Ready :
      (now : ℕ) (url : Bytes) (expires : Option ℕ) (gid : Bytes) {w : World}
      → Ready w
      → Ready (set_task now deps i downloading url expires gid w)
  unfolding set_task
  set_task-Ready now url expires gid =
      update_task-Ready now (set_fields now downloading url expires gid) (record {
        digest = λ u. refl;
        hash = λ u. refl;
        size = λ u. refl;
        part_name = λ u. refl;
        status = λ u e. cc;
      })

  pub mark_retry-Ready :
      (now : ℕ) (message : Bytes) {w : World} → Ready w → Ready (mark_retry now deps i message w)
  unfolding mark_retry
  mark_retry-Ready now message = update_task-Ready now (retry_fields now message) (record {
    digest = λ u. refl;
    hash = λ u. refl;
    size = λ u. refl;
    part_name = λ u. refl;
    status = λ u e. cc;
  })

  pub mark_failed-Ready :
      (now : ℕ) (message : Bytes) {w : World} → Ready w → Ready (mark_failed now deps i message w)
  unfolding mark_failed
  mark_failed-Ready now message = update_task-Ready now (failed_fields now message) (record {
    digest = λ u. refl;
    hash = λ u. refl;
    size = λ u. refl;
    part_name = λ u. refl;
    status = λ u e. cc;
  })

  pub forget_url-Ready : (now : ℕ) {w : World} → Ready w → Ready (forget_url now deps i w)
  unfolding forget_url
  forget_url-Ready now = update_task-Ready now (forget_fields now) (record {
    digest = λ u. refl;
    hash = λ u. refl;
    size = λ u. refl;
    part_name = λ u. refl;
    status = λ u e. e;
  })

  pub mark_range_unsupported-Ready :
      (now : ℕ) {w : World} → Ready w → Ready (mark_range_unsupported now deps i w)
  unfolding mark_range_unsupported
  mark_range_unsupported-Ready now = update_task-Ready now (range_fields now) (record {
    digest = λ u. refl;
    hash = λ u. refl;
    size = λ u. refl;
    part_name = λ u. refl;
    status = λ u e. e;
  })

  pub pop_alt_url-Ready : (now : ℕ) {w : World} → Ready w → Ready (pop_alt_url now deps i w).0
  unfolding pop_alt_url
  pop_alt_url-Ready now {w} r = elim (List-cases (r.now_at.alt_urls)) [
    | inl e ↦ rw (pop_alt_url, r.at, e) r
    | inr (v, vs, e) ↦
        rw (pop_alt_url, r.at, e)
          (update_task-Ready now (λ s. record s { alt_urls = vs; updated_at = now })
            (record {
              digest = λ u. refl;
              hash = λ u. refl;
              size = λ u. refl;
              part_name = λ u. refl;
              status = λ u e. e;
            })
            r)
  ]

  -- A change of the disk that leaves blobs/ and the faults alone.
  pub disk-Ready :
      {w : World} (e : Disk)
      → Ready w
      → e.fault ≡ w.disk.fault
      → ((a h : Bytes) → e.files (blobs_file a h) ≡ w.disk.files (blobs_file a h))
      → Ready (record w { disk = e })
  disk-Ready {w} e r same blobs = record {
    sound =
        Sound-disk deps size_of (IsIntact deps.digests) e r.sound same
          (Keeps-of_blobs deps size_of (IsIntact deps.digests) (w.disk) e blobs);
    now_at = r.now_at;
    at = r.at;
    same = r.same;
    others = r.others;
  }

  pub discard-Ready :
      (name : Bytes) {w : World} → Ready w → Ready (on_disk (discard (tmp_file name)) w)
  discard-Ready name r = record {
    sound = discard-Sound deps size_of (IsIntact deps.digests) name r.sound;
    now_at = r.now_at;
    at = r.at;
    same = r.same;
    others = r.others;
  }

  pub remove_control-Ready :
      (name : Bytes) {w : World}
      → Ready w
      → Ready (on_disk (remove_file (control (tmp_file name))) w)
  remove_control-Ready name r = record {
    sound =
        remove_file-Sound deps size_of (IsIntact deps.digests) (control (tmp_file name))
          (λ a h e. cc) r.sound;
    now_at = r.now_at;
    at = r.at;
    same = r.same;
    others = r.others;
  }

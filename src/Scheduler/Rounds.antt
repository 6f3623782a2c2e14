-- ===== src/Scheduler/Rounds.antt =====
-- The loops of `submitTask` and `waitTask` end: after four rounds, and when the context is over.
use imgpull.Base.{
  ℕ, zero, suc, ltb, ◌+◌, ◌≡◌, ◌≢◌, ◌≤◌, ◌<◌, refl, true, ◌&&◌, none, some, is_some, Bytes,
  Bool-cases, Option-cases, Result-cases, inl, inr, err, arith,
}
use imgpull.Retry.{is_canceled}
use imgpull.Plan.{Task}
use imgpull.Scheduler.{
  Config, Sched, Outcome, Options, complete, error, removed, active, waiting, paused, unknown_state,
  pass,
}
use imgpull.Scheduler.Submit.{rejects_options, simplify, submit_loop}
use imgpull.Scheduler.Parts.{part_complete}
use imgpull.Scheduler.Wait.{pause, wait_gid, wait_file}

module _ (c : Config) where
  pub submit_loop_ends_from :
      (fuel n : ℕ) (url : Bytes) (o : Options) (s : Sched)
      → 4 ≤ fuel + n
      → 1 ≤ fuel
      → is_some (submit_loop c fuel n url o s) ≡ true
  unfolding submit_loop
  submit_loop_ends_from zero n url o s enough some_fuel = ground arith
  submit_loop_ends_from (suc fuel) n url o s enough some_fuel =
      elim (Result-cases (c.aria2.add_uri (s.session.tick) url o)) [
        | inl (gid, taken) ↦ rw (submit_loop, taken) refl
        | inr (e, bad) ↦ elim (Bool-cases (is_canceled e)) [
          | inl over ↦ rw (submit_loop, bad, over) refl
          | inr live ↦ elim (Bool-cases (rejects_options e && ltb n 3)) [
            | inr lost ↦ rw (submit_loop, bad, live, lost) refl
            | inl again ↦
                rw (submit_loop, bad, live, again)
                  (submit_loop_ends_from fuel (n + 1) url (simplify n o) (pass c s) (ground arith)
                    (ground arith))
          ]
        ]
      ]

-- From the step `last` on, every look at the context finds that it is over.
abbrev pub IsOverAfter : Config → ℕ → Type 0
IsOverAfter c last = (n : ℕ) → last ≤ n → is_some (c.net.ctx_err n) ≡ true

not_over :
    (c : Config) {last : ℕ} → IsOverAfter c last → (n : ℕ) → last ≤ n → c.net.ctx_err n ≢ none
not_over c over n late h = let o = over n late in cc

module _ (c : Config) (last i : ℕ) (t : Task) (over : IsOverAfter c last) where
  pub wait_file_ends :
      (fuel : ℕ) (s : Sched)
      → last < s.session.tick + fuel
      → 1 ≤ fuel
      → is_some (wait_file c fuel i t s) ≡ true
  unfolding wait_file pass
  wait_file_ends zero s enough some_fuel = ground arith
  wait_file_ends (suc zero) s enough some_fuel =
      elim (Option-cases (c.net.ctx_err (s.session.tick))) [
        | inr (e, done) ↦ rw (wait_file, done) refl
        | inl live ↦ absurd (not_over c over (s.session.tick) (omega arith) live)
      ]
  wait_file_ends (suc (suc fuel)) s enough some_fuel =
      elim (Option-cases (c.net.ctx_err (s.session.tick))) [
        | inr (e, done) ↦ rw (wait_file, done) refl
        | inl live ↦ elim (Bool-cases (part_complete t (s.world.disk))) [
          | inl whole ↦ rw (wait_file, live, whole) refl
          | inr part ↦
              rw (wait_file, live, part)
                (wait_file_ends (suc fuel) (pass c s) (omega arith) (omega arith))
        ]
      ]

  pub wait_gid_ends :
      (fuel : ℕ) (gid : Bytes) (failures : ℕ) (s : Sched)
      → last < s.session.tick + fuel
      → 1 ≤ fuel
      → is_some (wait_gid c fuel i t gid failures s) ≡ true
  unfolding wait_gid pass
  wait_gid_ends zero gid failures s enough some_fuel = ground arith
  wait_gid_ends (suc zero) gid failures s enough some_fuel =
      elim (Option-cases (c.net.ctx_err (s.session.tick))) [
        | inr (e, done) ↦ rw (wait_gid, done) refl
        | inl live ↦ absurd (not_over c over (s.session.tick) (omega arith) live)
      ]
  wait_gid_ends (suc (suc fuel)) gid failures s enough some_fuel =
      elim (Option-cases (c.net.ctx_err (s.session.tick))) [
        | inr (e, done) ↦ rw (wait_gid, done) refl
        | inl live ↦
            let again : (n : ℕ) → is_some (wait_gid c (suc fuel) i t gid n (pass c s)) ≡ true =
              λ n. wait_gid_ends (suc fuel) gid n (pass c s) (omega arith) (omega arith) in
            elim (Result-cases (c.aria2.tell_status (s.session.tick) gid)) [
              | inr (e, lost) ↦ elim (Bool-cases (ltb 10 (failures + 1))) [
                | inl many ↦ rw (wait_gid, live, lost, many) refl
                | inr few ↦ elim (Option-cases (pause c (pass c s))) [
                  | inr (a, stop) ↦ rw (wait_gid, live, lost, few, stop) refl
                  | inl on ↦ rw (wait_gid, live, lost, few, on) (again (failures + 1))
                ]
              ]
              | inl (st, told) ↦
                  let more =
                    elim (Option-cases (pause c (pass c s)))
                      as (λ _.
                        is_some {A = Outcome} (elim (pause c (pass c s)) [
                          | some a ↦ some (pass c s, err a)
                          | none ↦ wait_gid c (suc fuel) i t gid 0 (pass c s)
                        ])
                        ≡ true) [ inr (a, stop) ↦ rw stop refl | inl on ↦ rw on (again 0) ] in
                  elim (st.status)
                      as (λ x.
                        st.status ≡ x
                        → is_some (wait_gid c (suc (suc fuel)) i t gid failures s) ≡ true) [
                          | complete ↦ λ is. rw (wait_gid, live, told, is) refl
                          | error ↦ λ is. rw (wait_gid, live, told, is) refl
                          | removed ↦ λ is. rw (wait_gid, live, told, is) refl
                          | active ↦ λ is. rw (wait_gid, live, told, is) more
                          | waiting ↦ λ is. rw (wait_gid, live, told, is) more
                          | paused ↦ λ is. rw (wait_gid, live, told, is) more
                          | unknown_state word ↦ λ is. rw (wait_gid, live, told, is) more
                        ]
                    refl
            ]
      ]

-- ===== src/Jobs/Order.antt =====
-- Which job a worker is given: the earliest one that is due, if there is one.
use vexa_vm.Common.{
  ℕ, ◌≤◌, ◌≡◌, refl, String, Bool, true, false, none, some, List, [], ◌∷◌, arith, Bool-cases,
  Option-cases, inl, inr, str_eq, eq_iff, eq_refl, update_where, find?,
}
use mathlib.Core.Path.{subst}
use vexa_vm.Error.{ok}
use vexa_vm.Db.{is_queued, Job, Db, query_job}
use vexa_vm.Db.External.{External}
use vexa_vm.Db.Rows.{All, All-mono, find?-update_where, count_if-pos}
use vexa_vm.Jobs.Ids.{Differs, UniqueIds}
use vexa_vm.Jobs.Outcome.{IsClaimed, start-IsClaimed}
use vexa_vm.Jobs.Valid.{AllValid}
use vexa_vm.Jobs.Enqueue.{earliest, select_where}
use vexa_vm.Jobs.Work.{is_due, precedes, next_job, claim_next_job, start, is_job}

-- `a` does not come after `b` in the order of `run_after`, then `created_at`.
pub record IsBefore {V F : Type 0} (a b : Job V F) : Type 0 where
  pub sooner : a.run_after ≤ b.run_after
  pub older : a.run_after ≡ b.run_after → a.created_at ≤ b.created_at

module _ {V F : Type 0} (x : External V F) where
  IsBefore-refl : (a : Job V F) → IsBefore a a
  IsBefore-refl a = ground arith

  IsBefore-trans : (a b c : Job V F) → IsBefore a b → IsBefore b c → IsBefore a c
  IsBefore-trans a b c h k = ground arith

  IsBefore-of_precedes : (a b : Job V F) → precedes x a b ≡ true → IsBefore a b
  IsBefore-of_precedes a b h = ground arith

  IsBefore-of_not_precedes : (a b : Job V F) → precedes x b a ≡ false → IsBefore a b
  IsBefore-of_not_precedes a b h = ground arith

  pub earliest-none :
      (before : Job V F → Job V F → Bool) (jobs : List (Job V F))
      → earliest before jobs ≡ none
      → jobs ≡ []
  unfolding earliest
  earliest-none before [] e = refl
  earliest-none before (j ∷ js) e = elim (Option-cases (earliest before js)) [
    | inl h ↦ ground arith
    | inr (k, h) ↦ ground arith
  ]

  -- The selected row is one of the rows, and no row comes before it.
  earliest-IsBefore :
      (P : Job V F → Type 0) (jobs : List (Job V F)) (a : Job V F)
      → All P jobs
      → earliest (precedes x) jobs ≡ some a
      → P a × All (λ b. IsBefore a b) jobs
  unfolding earliest
  earliest-IsBefore P [] a h e = cc
  earliest-IsBefore P (j ∷ js) a h e =
      let Best : Job V F → Type 0 = λ b. P b × All (λ c. IsBefore b c) (j ∷ js) in
      elim (Option-cases (earliest (precedes x) js)) [
        | inl nothing ↦
            let same : j ≡ a = ground arith in
            subst Best same (h.0, (IsBefore-refl j, rw (earliest-none (precedes x) js nothing) tt))
        | inr (k, found) ↦
            let ih = earliest-IsBefore P js k h.1 found in
            elim (Bool-cases (precedes x k j)) [
              | inl sooner ↦
                  let same : k ≡ a = ground arith in
                  subst Best same (ih.0, (IsBefore-of_precedes k j sooner, ih.1))
              | inr not_sooner ↦
                  let same : j ≡ a = ground arith in
                  let first = IsBefore-of_not_precedes j k not_sooner in
                  subst Best same (
                    h.0,
                    (
                      IsBefore-refl j,
                      All-mono (IsBefore k) (IsBefore j) js
                          (λ b after. IsBefore-trans j k b first after) ih.1,
                    ),
                  )
            ]
      ]

  All-of_select_where :
      (P : Job V F → Type 0) (p : Job V F → Bool) (jobs : List (Job V F))
      → All P jobs
      → All (λ j. P j × (p j ≡ true)) (select_where x p jobs)
  unfolding select_where
  All-of_select_where P p [] h = tt
  All-of_select_where P p (j ∷ js) h = elim (Bool-cases (p j)) [
    | inl e ↦ rw (e, select_where) ((h.0, e), All-of_select_where P p js h.1)
    | inr e ↦ rw (e, select_where) (All-of_select_where P p js h.1)
  ]

  -- What holds of the selected rows holds of every row that passes the test.
  All-select_where :
      (P : Job V F → Type 0) (p : Job V F → Bool) (jobs : List (Job V F))
      → All P (select_where x p jobs)
      → All (λ j. p j ≡ true → P j) jobs
  unfolding select_where
  All-select_where P p [] h = tt
  All-select_where P p (j ∷ js) h = elim (Bool-cases (p j)) [
    | inl e ↦
        let k : P j × All P (select_where x p js) = rw (e, select_where) at h in
        (λ _. k.0, All-select_where P p js k.1)
    | inr e ↦ (λ t. cc, All-select_where P p js (rw (e, select_where) at h))
  ]

  All-find?-cons :
      (j : Job V F) (js ks : List (Job V F))
      → All (Differs j.id) ks
      → All (λ k. find? (λ l. str_eq l.id k.id) js ≡ some k) ks
      → All (λ k. find? (λ l. str_eq l.id k.id) (j ∷ js) ≡ some k) ks
  All-find?-cons j js [] d h = tt
  All-find?-cons j js (k ∷ ks) d h =
      (ground (arith, d.0, h.0, eq_iff j.id k.id, eq_iff k.id j.id), All-find?-cons j js ks d.1 h.1)

  find?-self :
      (jobs : List (Job V F))
      → UniqueIds jobs
      → All (λ j. find? (λ k. str_eq k.id j.id) jobs ≡ some j) jobs
  find?-self [] u = tt
  find?-self (j ∷ js) u = (rw (eq_refl j.id), All-find?-cons j js js u.0 (find?-self js u.1))

  -- The row that `next_job` selects is the row of its id, it is due, and no due row precedes it.
  next_job-some :
      (now : ℕ) (db : Db V F) (old : Job V F)
      → UniqueIds db.jobs
      → next_job x now db ≡ some old
      → (query_job db old.id ≡ some old)
        × (is_due x now old ≡ true)
        × All (λ b. is_due x now b ≡ true → IsBefore old b) db.jobs
  unfolding next_job
  next_job-some now db old u e =
      let P : Job V F → Type 0 = λ j. find? (λ k. str_eq k.id j.id) db.jobs ≡ some j in
      let found =
        earliest-IsBefore (λ j. P j × (is_due x now j ≡ true))
          (select_where x (is_due x now) db.jobs) old
          (All-of_select_where P (is_due x now) db.jobs (find?-self db.jobs u)) e in
      (found.0.0, found.0.1, All-select_where (IsBefore old) (is_due x now) db.jobs found.1)

  next_job-none :
      (now : ℕ) (db : Db V F) → next_job x now db ≡ none → All (λ b. is_due x now b ≡ false) db.jobs
  unfolding next_job
  next_job-none now db e =
      All-mono (λ b. is_due x now b ≡ true → ⊥) (λ b. is_due x now b ≡ false) db.jobs
        (λ b h. elim (Bool-cases (is_due x now b)) [ inl t ↦ absurd (h t) | inr f ↦ f ])
        (All-select_where (λ b. ⊥) (is_due x now) db.jobs
          (rw (earliest-none (precedes x) (select_where x (is_due x now) db.jobs) e) tt))

  claimed-query :
      (worker : String) (now : ℕ) (db : Db V F) (old : Job V F)
      → query_job db old.id ≡ some old
      → is_due x now old ≡ true
      → find?
          (λ j. str_eq j.id old.id)
          (update_where (is_job x old.id is_queued) (start x worker now) db.jobs)
        ≡ some (start x worker now old)
  claimed-query worker now db old found due =
      find?-update_where (λ j. str_eq j.id old.id) (is_job x old.id is_queued) (start x worker now)
        db.jobs old (λ j. refl) found (ground (arith, eq_refl old.id))

  -- A claim hands out a job that was queued, was due and had attempts left, the earliest of those
  -- by `run_after` and then `created_at`. The job is now running, locked by the worker at this time,
  -- with one more attempt and its other columns unchanged, and it is the stored row.
  pub claim_next_job-earliest :
      (worker : String) (now : ℕ) (db db' : Db V F) (j : Job V F)
      → AllValid x db
      → claim_next_job x worker now db ≡ ok (some j, db')
      → (old : Job V F) × (query_job db old.id ≡ some old)
        × (is_due x now old ≡ true)
        × IsClaimed worker now old j
        × (query_job db' old.id ≡ some j)
        × All (λ b. is_due x now b ≡ true → IsBefore old b) db.jobs
  unfolding claim_next_job
  claim_next_job-earliest worker now db db' j v e = elim (Option-cases (next_job x now db)) [
    | inl nothing ↦ ground arith
    | inr (old, selected) ↦
        let (found, due, first) = next_job-some now db old v.1 selected in
        let after = claimed-query worker now db old found due in
        let started : start x worker now old ≡ j = ground (arith, after) in
        let claimed = subst (IsClaimed worker now old) started (start-IsClaimed x worker now old) in
        (old, found, due, claimed, ground (arith, after), first)
  ]

  -- A claim comes back empty only if no job is due, and then it changes nothing.
  pub claim_next_job-nothing_due :
      (worker : String) (now : ℕ) (db db' : Db V F)
      → AllValid x db
      → claim_next_job x worker now db ≡ ok (none, db')
      → All (λ b. is_due x now b ≡ false) db.jobs × (db' ≡ db)
  unfolding claim_next_job
  claim_next_job-nothing_due worker now db db' v e = elim (Option-cases (next_job x now db)) [
    | inl nothing ↦ (next_job-none now db nothing, ground arith)
    | inr (old, selected) ↦
        let (found, due, first) = next_job-some now db old v.1 selected in
        let after = claimed-query worker now db old found due in
        let selected_rows =
          count_if-pos (is_job x old.id is_queued) (λ k. str_eq k.id old.id) db.jobs old found
            (ground (arith, eq_refl old.id)) in
        absurd (ground (arith, after))
  ]

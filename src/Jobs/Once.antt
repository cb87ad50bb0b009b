-- ===== src/Jobs/Once.antt =====
-- A request that is repeated does its work once.
use vexa_vm.Common.{
  ℕ, ◌≤◌, ◌≡◌, refl, String, Bool, true, none, some, Option, List, [], ◌∷◌, ◌++◌, arith, Bool-cases,
  Option-cases, inl, inr, str_eq, eq_iff, eq_refl, count_if,
}
use mathlib.Core.Path.{ap, subst}
use vexa_vm.Error.{ok}
use vexa_vm.Db.{Job, NewJob, Db, sql_eq, opt_eq, query_job_by_idempotency, query_job}
use vexa_vm.Db.External.{External}
use vexa_vm.Db.Rows.{find?-append_none, count_if-append}
use vexa_vm.Jobs.Enqueue.{
  queued_job, insert_job, enqueue_job, active_job, is_active_job, enqueue_delete_job, select_where,
  by_creation,
}
use vexa_vm.Jobs.Order.{earliest-none}

module _ {V F : Type 0} (x : External V F) where
  opt_eq_refl : (o : Option String) → opt_eq o o ≡ true
  opt_eq_refl none = refl
  opt_eq_refl (some s) = eq_refl s

  beq_refl : (v : V) → x.beq v v ≡ true
  beq_refl v = (x.beq_iff v v).1 refl

  count-select_where-nil :
      (p : Job V F → Bool) (jobs : List (Job V F))
      → select_where x p jobs ≡ []
      → count_if p jobs ≡ 0
  unfolding select_where
  count-select_where-nil p [] e = refl
  count-select_where-nil p (j ∷ js) e = elim (Bool-cases (p j)) [
    | inl hit ↦ ground arith
    | inr miss ↦ rw miss (count-select_where-nil p js (rw (miss, select_where) at e))
  ]

  active_job-none :
      (p : Job V F → Bool) (db : Db V F) → active_job x p db ≡ none → count_if p db.jobs ≡ 0
  unfolding active_job
  active_job-none p db e =
      count-select_where-nil p db.jobs
        (earliest-none x (by_creation x) (select_where x p db.jobs) e)

  insert_job-result :
      (job j : Job V F) (db db' : Db V F)
      → insert_job x job db ≡ ok (j, db')
      → (j ≡ job) × (db' ≡ record db { jobs = db.jobs ++ job ∷ [] })
  unfolding insert_job
  insert_job-result job j db db' e = elim (Option-cases (query_job db job.id)) [
    | inl fresh ↦
        let found =
          find?-append_none (λ k. str_eq k.id job.id) db.jobs job fresh (eq_refl job.id) in
        (ground (arith, found), ground (arith, found))
    | inr (old, taken) ↦ (ground arith, ground arith)
  ]

  -- A second call of `enqueue_job` with the same request and idempotency key returns the job of
  -- the first and changes nothing, whatever UUID and time it draws.
  pub enqueue_job-replay :
      (request : NewJob V) (key id id' : String) (now now' : ℕ) (db db' : Db V F) (j : Job V F)
      → request.idempotency_key ≡ some key
      → enqueue_job x request id now db ≡ ok (j, db')
      → enqueue_job x request id' now' db' ≡ ok (j, db')
  unfolding enqueue_job
  enqueue_job-replay request key id id' now now' db db' j keyed e =
      elim (Option-cases (query_job_by_idempotency db key)) [
        | inl new_key ↦
            let row = queued_job x request request.payload request.idempotency_key id now in
            let inserted : insert_job x row db ≡ ok (j, db') = ground arith in
            let (same, after) = insert_job-result row j db db' inserted in
            let found =
              find?-append_none (λ k. sql_eq k.idempotency_key key) db.jobs row new_key
                (rw keyed (eq_refl key)) in
            ground (
              arith,
              found,
              eq_refl request.kind,
              opt_eq_refl request.vm_id,
              beq_refl request.payload,
            )
        | inr (old, seen) ↦ ground arith
      ]

  inserted-single :
      (request : NewJob V) (id : String) (now : ℕ) (db db' : Db V F) (j : Job V F) (vm vm' : String)
      → request.vm_id ≡ some vm'
      → count_if (is_active_job x "vm.delete" vm) db.jobs ≤ 1
      → active_job x (is_active_job x "vm.delete" vm') db ≡ none
      → insert_job x (queued_job x request request.payload request.idempotency_key id now) db
        ≡ ok (j, db')
      → count_if (is_active_job x "vm.delete" vm) db'.jobs ≤ 1
  inserted-single request id now db db' j vm vm' named h idle inserted =
      let row = queued_job x request request.payload request.idempotency_key id now in
      let (same, after) = insert_job-result row j db db' inserted in
      let total = count_if-append (is_active_job x "vm.delete" vm) db.jobs row in
      let grown = ap (λ (d : Db V F). count_if (is_active_job x "vm.delete" vm) d.jobs) after in
      let nobody = active_job-none (is_active_job x "vm.delete" vm') db idle in
      elim (Bool-cases (str_eq vm' vm)) [
        | inl mine ↦
            let same_vm : vm' ≡ vm = (eq_iff vm' vm).0 mine in
            let none_yet : count_if (is_active_job x "vm.delete" vm) db.jobs ≡ 0 =
              subst (λ s. count_if (is_active_job x "vm.delete" s) db.jobs ≡ 0) same_vm nobody in
            rw (grown, total) (ground (arith, none_yet))
        | inr other ↦ rw (grown, total, named, other) (ground (arith, h))
      ]

  -- `enqueue_delete_job` never makes a second active delete for a VM: where a VM has at most one
  -- delete that is queued or running, this is still so after it, for that VM and any request.
  pub enqueue_delete_job-single :
      (request : NewJob V) (id : String) (now : ℕ) (db db' : Db V F) (j : Job V F) (vm : String)
      → count_if (is_active_job x "vm.delete" vm) db.jobs ≤ 1
      → enqueue_delete_job x request id now db ≡ ok (j, db')
      → count_if (is_active_job x "vm.delete" vm) db'.jobs ≤ 1
  unfolding enqueue_delete_job
  enqueue_delete_job-single request id now db db' j vm h e = elim (Option-cases request.vm_id) [
    | inl no_vm ↦ ground arith
    | inr (vm', named) ↦ ground (arith, inserted-single request id now db db' j vm vm' named h)
  ]

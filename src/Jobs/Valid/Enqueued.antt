-- ===== src/Jobs/Valid/Enqueued.antt =====
-- Every way to put a job in keeps every job row valid.
use vexa_vm.Common.{
  ℕ, ◌≡◌, String, none, Option, arith, Option-cases, inl, inr, str_eq, update_where,
}
use vexa_vm.Error.{ok, Result-cases}
use vexa_vm.Db.{VmState, Job, NewJob, Db}
use vexa_vm.Db.External.{External}
use vexa_vm.Jobs.Enqueue.{
  queued_job, insert_job, enqueue_job, enqueue_guest_tools_bootstrap_job, enqueue_delete_job,
  enqueue_reinstall_job, publish_reinstall, stage,
}
use vexa_vm.Jobs.Valid.{AllValid}
use vexa_vm.Jobs.Valid.Rows.{queued_job-IsValid}
use vexa_vm.Jobs.Valid.Operations.{insert_job-AllValid}

module _ {V F : Type 0} (x : External V F) where
  insert_queued-AllValid :
      (request : NewJob V) (payload : V) (key : Option String) (id : String) (now : ℕ) (j : Job V F)
      (db db' : Db V F)
      → AllValid x db
      → insert_job x (queued_job x request payload key id now) db ≡ ok (j, db')
      → AllValid x db'
  insert_queued-AllValid request payload key id now j db db' v e =
      insert_job-AllValid x (queued_job x request payload key id now) j db db'
        (queued_job-IsValid x request payload key id now) v e

  pub enqueue_job-AllValid :
      (request : NewJob V) (id : String) (now : ℕ) (db db' : Db V F) (j : Job V F)
      → AllValid x db
      → enqueue_job x request id now db ≡ ok (j, db')
      → AllValid x db'
  unfolding enqueue_job
  enqueue_job-AllValid request id now db db' j v e = ground (
    arith,
    insert_queued-AllValid request request.payload request.idempotency_key id now j db db' v,
  )

  pub enqueue_delete_job-AllValid :
      (request : NewJob V) (id : String) (now : ℕ) (db db' : Db V F) (j : Job V F)
      → AllValid x db
      → enqueue_delete_job x request id now db ≡ ok (j, db')
      → AllValid x db'
  unfolding enqueue_delete_job
  enqueue_delete_job-AllValid request id now db db' j v e = ground (
    arith,
    insert_queued-AllValid request request.payload request.idempotency_key id now j db db' v,
  )

  pub enqueue_guest_tools_bootstrap_job-AllValid :
      (request : NewJob V) (id : String) (now : ℕ) (db db' : Db V F) (j : Job V F)
      → AllValid x db
      → enqueue_guest_tools_bootstrap_job x request id now db ≡ ok (j, db')
      → AllValid x db'
  unfolding enqueue_guest_tools_bootstrap_job
  enqueue_guest_tools_bootstrap_job-AllValid request id now db db' j v e =
      ground (arith, insert_queued-AllValid request request.payload none id now j db db' v)

  publish_reinstall-AllValid :
      (request : NewJob V) (vm : String) (payload : V) (desired : VmState) (id : String) (now : ℕ)
      (db db' : Db V F) (j : Job V F)
      → AllValid x db
      → publish_reinstall x request vm payload desired id now db ≡ ok (j, db')
      → AllValid x db'
  unfolding publish_reinstall
  publish_reinstall-AllValid request vm payload desired id now db db' j v e =
      let marked = record db {
        vms =
            update_where (λ w. str_eq w.id vm)
              (λ w. record w {
                state = VmState.reinstalling;
                desired_state = desired;
                updated_at = now;
              })
              db.vms;
      } in
      ground (
        arith,
        insert_queued-AllValid request payload request.idempotency_key id now j marked db' v,
      )

  pub enqueue_reinstall_job-AllValid :
      (request : NewJob V) (envelope : Option String) (desired : VmState) (id : String) (now : ℕ)
      (db db' : Db V F) (j : Job V F)
      → AllValid x db
      → enqueue_reinstall_job x request envelope desired id now db ≡ ok (j, db')
      → AllValid x db'
  unfolding enqueue_reinstall_job
  enqueue_reinstall_job-AllValid request envelope desired id now db db' j v e =
      elim (Option-cases request.vm_id) [
        | inl no_vm ↦ ground arith
        | inr (vm, named) ↦ elim (Result-cases (stage x request.payload envelope)) [
          | inl (payload, staged) ↦
              ground
                (arith, publish_reinstall-AllValid request vm payload desired id now db db' j v)
          | inr (reason, refused) ↦ ground arith
        ]
      ]

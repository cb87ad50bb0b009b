-- ===== src/Jobs/Valid/Operations.antt =====
-- Every operation on the queue keeps every job row valid.
use vexa_vm.Common.{
  ℕ, ◌≡◌, refl, String, Bool, true, ◌&&◌, Option, List, arith, Option-cases, inl, inr, update_where,
}
use vexa_vm.Error.{ok}
use vexa_vm.Db.{JobStatus, is_running, is_queued, Job, Db, VmRow, query_job, delete_vms_where}
use vexa_vm.Db.External.{External}
use vexa_vm.Db.Rows.{All-append, All-update_where}
use vexa_vm.Jobs.Cleanup.{cleanup_unarmed_reinstall_guest_tools}
use vexa_vm.Jobs.Enqueue.{insert_job}
use vexa_vm.Jobs.Work.{
  start, succeed, close, is_job, next_job, claim_next_job, update_job_progress, finish_job,
  cancel_job, undo_queued, undo_create, undo_reinstall, undo_snapshot, is_provisional,
}
use vexa_vm.Jobs.Ids.{UniqueIds-update_where, UniqueIds-append}
use vexa_vm.Jobs.Valid.{IsValid, AreValid, AllValid}
use vexa_vm.Jobs.Valid.Rows.{
  start-IsValid, progress-IsValid, succeed-IsValid, close-cancelled-IsValid, orphan-IsValid,
}

-- The first conjunct of a test that holds, and what a failed test says.
pub and_left : (a b : Bool) → (a && b) ≡ true → a ≡ true
and_left a b h = ground arith

pub and_right : (a b : Bool) → (a && b) ≡ true → b ≡ true
and_right a b h = ground arith

module _ {V F : Type 0} (x : External V F) where
  pub update-AllValid :
      (p : Job V F → Bool) (f : Job V F → Job V F) (jobs : List (Job V F))
      → ((j : Job V F) → IsValid x j → p j ≡ true → IsValid x (f j))
      → ((j : Job V F) → (f j).id ≡ j.id)
      → AreValid x jobs
      → AreValid x (update_where p f jobs)
  update-AllValid p f jobs h same v = (
    All-update_where (IsValid x) (IsValid x) p f jobs h (λ j k e. k) v.0,
    UniqueIds-update_where p f jobs same v.1,
  )

  pub insert_job-AllValid :
      (job j : Job V F) (db db' : Db V F)
      → IsValid x job
      → AllValid x db
      → insert_job x job db ≡ ok (j, db')
      → AllValid x db'
  unfolding insert_job
  insert_job-AllValid job j db db' k v e = elim (Option-cases (query_job db job.id)) [
    | inl fresh ↦
        ground
          (arith, All-append (IsValid x) db.jobs job v.0 k, UniqueIds-append db.jobs job fresh v.1)
    | inr (old, taken) ↦ ground arith
  ]

  claim-AllValid :
      (id worker : String) (now : ℕ) (jobs : List (Job V F))
      → AreValid x jobs
      → AreValid x (update_where (is_job x id is_queued) (start x worker now) jobs)
  claim-AllValid id worker now jobs v =
      update-AllValid _ _ jobs (λ j w q. start-IsValid x worker now j w (and_right _ _ q))
        (λ j. refl) v

  progress-AllValid :
      (id : String) (percent : F) (now : ℕ) (jobs : List (Job V F))
      → AreValid x jobs
      → AreValid x (
          update_where
            (is_job x id is_running)
            (λ j. record j { progress_percent = percent; updated_at = now })
            jobs)
  progress-AllValid id percent now jobs v =
      update-AllValid _ _ jobs (λ j w q. progress-IsValid x percent now j w) (λ j. refl) v

  finish-AllValid :
      (id : String) (result : V) (now : ℕ) (jobs : List (Job V F))
      → AreValid x jobs
      → AreValid x (update_where (is_job x id is_running) (succeed x result now) jobs)
  finish-AllValid id result now jobs v =
      update-AllValid _ _ jobs (λ j w q. succeed-IsValid x result now j w) (λ j. refl) v

  cancel-AllValid :
      (id : String) (now : ℕ) (jobs : List (Job V F))
      → AreValid x jobs
      → AreValid x (update_where (is_job x id is_queued) (close x JobStatus.cancelled now) jobs)
  cancel-AllValid id now jobs v =
      update-AllValid _ _ jobs (λ j w q. close-cancelled-IsValid x now j w) (λ j. refl) v

  pub claim_next_job-AllValid :
      (worker : String) (now : ℕ) (db db' : Db V F) (o : Option (Job V F))
      → AllValid x db
      → claim_next_job x worker now db ≡ ok (o, db')
      → AllValid x db'
  unfolding claim_next_job
  claim_next_job-AllValid worker now db db' o v e = elim (Option-cases (next_job x now db)) [
    | inl nothing_due ↦ ground arith
    | inr (j, due) ↦ ground (arith, claim-AllValid j.id worker now db.jobs v)
  ]

  pub update_job_progress-AllValid :
      (id : String) (percent : F) (now : ℕ) (db db' : Db V F)
      → AllValid x db
      → update_job_progress x id percent now db ≡ ok db'
      → AllValid x db'
  unfolding update_job_progress
  update_job_progress-AllValid id percent now db db' v e =
      ground (arith, progress-AllValid id percent now db.jobs v)

  pub finish_job-AllValid :
      (id : String) (result : V) (now : ℕ) (db db' : Db V F)
      → AllValid x db
      → finish_job x id result now db ≡ ok db'
      → AllValid x db'
  unfolding finish_job
  finish_job-AllValid id result now db db' v e =
      ground (arith, finish-AllValid id result now db.jobs v)

  -- What is undone outside the queue leaves the rows of jobs as they are, but for the VM that a
  -- deletion takes from them.
  pub cleanup_unarmed-jobs :
      (job : Job V F) (now : ℕ) (db : Db V F)
      → (cleanup_unarmed_reinstall_guest_tools x job now db).jobs ≡ db.jobs
  unfolding cleanup_unarmed_reinstall_guest_tools
  cleanup_unarmed-jobs job now db = ground arith

  delete_vms-AllValid :
      (p : VmRow → Bool) (now : ℕ) (db : Db V F)
      → AllValid x db
      → AllValid x (delete_vms_where p now db)
  unfolding delete_vms_where
  delete_vms-AllValid p now db v =
      update-AllValid _ _ db.jobs (λ j w q. orphan-IsValid x j w) (λ j. refl) v

  undo_create-AllValid :
      (vm : String) (now : ℕ) (db : Db V F) → AllValid x db → AllValid x (undo_create x vm now db)
  unfolding undo_create
  undo_create-AllValid vm now db v = delete_vms-AllValid (is_provisional x vm) now _ v

  undo_queued-AllValid :
      (job : Job V F) (now : ℕ) (db : Db V F)
      → AllValid x db
      → AllValid x (undo_queued x job now db)
  unfolding undo_queued undo_reinstall undo_snapshot
  undo_queued-AllValid job now db v = elim (Option-cases job.vm_id) [
    | inl no_vm ↦ ground (arith, cleanup_unarmed-jobs job now db)
    | inr (vm, e) ↦
        ground (arith, cleanup_unarmed-jobs job now db, undo_create-AllValid vm now db v)
  ]

  pub cancel_job-AllValid :
      (id : String) (now : ℕ) (db db' : Db V F)
      → AllValid x db
      → cancel_job x id now db ≡ ok db'
      → AllValid x db'
  unfolding cancel_job
  cancel_job-AllValid id now db db' v e = elim (Option-cases (query_job db id)) [
    | inl missing ↦ ground arith
    | inr (job, found) ↦ ground (
      arith,
      undo_queued-AllValid job now
          (record db {
            jobs = update_where (is_job x id is_queued) (close x JobStatus.cancelled now) db.jobs;
          })
          (cancel-AllValid id now db.jobs v),
    )
  ]

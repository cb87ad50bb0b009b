-- ===== src/Jobs/Valid/Rows.antt =====
-- Each way that a statement rewrites a job row keeps the row valid.
use vexa_vm.Common.{ℕ, ◌<◌, ◌≡◌, String, true, none, Option, arith}
use vexa_vm.Db.{JobStatus, is_running, is_queued, Job, NewJob}
use vexa_vm.Db.External.{External}
use vexa_vm.Jobs.Cleanup.{staged_password}
use vexa_vm.Jobs.Enqueue.{queued_job}
use vexa_vm.Jobs.Work.{start, succeed, close, requeue, give_up}
use vexa_vm.Jobs.Recover.{is_retryable, interrupt, requeue_interrupted, grant_finalizer}
use vexa_vm.Jobs.Valid.{IsValid}

module _ {V F : Type 0} (x : External V F) where
  pub queued_job-IsValid :
      (request : NewJob V) (payload : V) (key : Option String) (id : String) (now : ℕ)
      → IsValid x (queued_job x request payload key id now)
  queued_job-IsValid request payload key id now = ground arith

  pub start-IsValid :
      (worker : String) (now : ℕ) (j : Job V F)
      → IsValid x j
      → is_queued j.status ≡ true
      → IsValid x (start x worker now j)
  start-IsValid worker now j v q = ground arith

  pub progress-IsValid :
      (percent : F) (now : ℕ) (j : Job V F)
      → IsValid x j
      → IsValid x (record j { progress_percent = percent; updated_at = now })
  progress-IsValid percent now j v = ground arith

  pub succeed-IsValid :
      (result : V) (now : ℕ) (j : Job V F) → IsValid x j → IsValid x (succeed x result now j)
  succeed-IsValid result now j v = ground (arith, x.get-remove j.payload staged_password)

  pub close-cancelled-IsValid :
      (now : ℕ) (j : Job V F) → IsValid x j → IsValid x (close x JobStatus.cancelled now j)
  close-cancelled-IsValid now j v = ground (arith, x.get-remove j.payload staged_password)

  pub requeue-IsValid :
      (error : String) (retry_at : Option ℕ) (now : ℕ) (j : Job V F)
      → IsValid x j
      → j.attempts < j.max_attempts
      → IsValid x (requeue x error retry_at now j)
  requeue-IsValid error retry_at now j v h = ground arith

  pub give_up-IsValid :
      (error : String) (retry_at : Option ℕ) (now : ℕ) (j : Job V F)
      → IsValid x j
      → IsValid x (give_up x error retry_at now j)
  give_up-IsValid error retry_at now j v = ground (arith, x.get-remove j.payload staged_password)

  pub interrupt-IsValid : (now : ℕ) (j : Job V F) → IsValid x j → IsValid x (interrupt x now j)
  interrupt-IsValid now j v = ground (arith, x.get-remove j.payload staged_password)

  pub requeue_interrupted-IsValid :
      (now : ℕ) (j : Job V F)
      → IsValid x j
      → is_retryable x j ≡ true
      → IsValid x (requeue_interrupted x now j)
  requeue_interrupted-IsValid now j v h = ground arith

  pub grant_finalizer-IsValid :
      (now : ℕ) (j : Job V F)
      → IsValid x j
      → is_running j.status ≡ true
      → IsValid x (grant_finalizer x now j)
  grant_finalizer-IsValid now j v h = ground arith

  pub orphan-IsValid : (j : Job V F) → IsValid x j → IsValid x (record j { vm_id = none })
  orphan-IsValid j v = ground arith

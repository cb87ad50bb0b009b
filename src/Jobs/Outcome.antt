-- ===== src/Jobs/Outcome.antt =====
-- src/db.rs: the columns of a job row after it was claimed, queued again, or closed as failed.
use vexa_vm.Common.{arith, ℕ, ◌+◌, ◌≡◌, refl, String, Option, none, some}
use vexa_vm.Db.{JobStatus, Job}
use vexa_vm.Db.External.{External}
use vexa_vm.Jobs.Work.{start, requeue, give_up}
use vexa_vm.Jobs.Cleanup.{staged_password}

-- The columns that say what the work is.
pub record IsSameWork {V F : Type 0} (old j : Job V F) : Type 0 where
  pub id : j.id ≡ old.id
  pub kind : j.kind ≡ old.kind
  pub vm_id : j.vm_id ≡ old.vm_id
  pub result : j.result ≡ old.result
  pub progress_percent : j.progress_percent ≡ old.progress_percent
  pub idempotency_key : j.idempotency_key ≡ old.idempotency_key
  pub max_attempts : j.max_attempts ≡ old.max_attempts
  pub actor_type : j.actor_type ≡ old.actor_type
  pub actor_id : j.actor_id ≡ old.actor_id
  pub created_at : j.created_at ≡ old.created_at

pub record IsClaimed {V F : Type 0} (worker : String) (now : ℕ) (old j : Job V F) : Type 0 where
  pub work : IsSameWork old j
  pub status : j.status ≡ JobStatus.running
  pub locked_by : j.locked_by ≡ some worker
  pub locked_at : j.locked_at ≡ some now
  pub attempts : j.attempts ≡ old.attempts + 1
  pub updated_at : j.updated_at ≡ now
  pub payload : j.payload ≡ old.payload
  pub error : j.error ≡ old.error
  pub run_after : j.run_after ≡ old.run_after
  pub finished_at : j.finished_at ≡ old.finished_at

pub record IsRetried {V F : Type 0} (message : String) (retry_at now : ℕ) (old j : Job V F)
    : Type 0 where
  pub work : IsSameWork old j
  pub status : j.status ≡ JobStatus.queued
  pub run_after : j.run_after ≡ retry_at
  pub error : j.error ≡ some message
  pub payload : j.payload ≡ old.payload
  pub attempts : j.attempts ≡ old.attempts
  pub locked_by : j.locked_by ≡ none
  pub locked_at : j.locked_at ≡ none
  pub finished_at : j.finished_at ≡ none
  pub updated_at : j.updated_at ≡ now

module _ {V F : Type 0} (x : External V F) where
  pub record IsFailed (message : String) (now : ℕ) (old j : Job V F) : Type 0 where
    pub work : IsSameWork old j
    pub status : j.status ≡ JobStatus.failed
    pub error : j.error ≡ some message
    pub no_password : x.get j.payload staged_password ≡ none
    pub payload : j.payload ≡ x.remove old.payload staged_password
    pub attempts : j.attempts ≡ old.attempts
    pub locked_by : j.locked_by ≡ none
    pub locked_at : j.locked_at ≡ none
    pub finished_at : j.finished_at ≡ some now
    pub updated_at : j.updated_at ≡ now

  pub start-IsClaimed :
      (worker : String) (now : ℕ) (j : Job V F) → IsClaimed worker now j (start x worker now j)
  start-IsClaimed worker now j = record {
    work = ground arith;
    status = refl;
    locked_by = refl;
    locked_at = refl;
    attempts = refl;
    updated_at = refl;
    payload = refl;
    error = refl;
    run_after = refl;
    finished_at = refl;
  }

  pub requeue-IsRetried :
      (error : String) (t now : ℕ) (j : Job V F)
      → IsRetried error t now j (requeue x error (some t) now j)
  requeue-IsRetried error t now j = record {
    work = ground arith;
    status = refl;
    run_after = refl;
    error = refl;
    payload = refl;
    attempts = refl;
    locked_by = refl;
    locked_at = refl;
    finished_at = refl;
    updated_at = refl;
  }

  pub give_up-IsFailed :
      (error : String) (retry_at : Option ℕ) (now : ℕ) (j : Job V F)
      → IsFailed error now j (give_up x error retry_at now j)
  give_up-IsFailed error retry_at now j = record {
    work = ground arith;
    status = refl;
    error = refl;
    no_password = x.get-remove j.payload staged_password;
    payload = refl;
    attempts = refl;
    locked_by = refl;
    locked_at = refl;
    finished_at = refl;
    updated_at = refl;
  }

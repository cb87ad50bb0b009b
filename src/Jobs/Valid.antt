-- ===== src/Jobs/Valid.antt =====
-- The well-formedness of a job row, and that each operation on the queue keeps it.
pub mod Rows
pub mod Operations
pub mod Failure
pub mod Recovery
pub mod Enqueued
use vexa_vm.Common.{
  ℕ, zero, suc, ◌+◌, ◌≤◌, ◌<◌, ◌≡◌, ◌≢◌, ◌⊎◌, refl, String, Bool, true, false, none, some, Option,
  List, not,
}
use vexa_vm.Db.{JobStatus, is_running, is_active, is_queued, Job, Db, is_some}
use vexa_vm.Db.External.{External}
use vexa_vm.Db.Rows.{All}
use vexa_vm.Jobs.Ids.{UniqueIds}
use vexa_vm.Jobs.Cleanup.{staged_password}

module _ {V F : Type 0} (x : External V F) where
  -- A job is locked exactly while it runs and ended exactly when it is neither queued nor running;
  -- its attempts stay within its budget, a running one is one of them and a queued one leaves one,
  -- and an ended job holds no staged password.
  pub record IsValid (j : Job V F) : Type 0 where
    pub budget : 0 < j.max_attempts
    pub bounded : j.attempts ≤ j.max_attempts
    pub running_attempt : j.status ≡ JobStatus.running → 0 < j.attempts
    pub queued_attempt : j.status ≡ JobStatus.queued → j.attempts < j.max_attempts
    pub locked_by_worker : is_some j.locked_by ≡ is_running j.status
    pub locked_at_time : is_some j.locked_at ≡ is_running j.status
    pub ended : is_some j.finished_at ≡ not (is_active j.status)
    pub erased : is_active j.status ≡ false → x.get j.payload staged_password ≡ none
    pub answered : j.status ≡ JobStatus.succeeded → is_some j.result ≡ true

  -- Every row is valid, and no two rows have one id.
  abbrev pub AreValid : List (Job V F) → Type 0
  AreValid jobs = All IsValid jobs × UniqueIds jobs

  abbrev pub AllValid : Db V F → Type 0
  AllValid db = AreValid db.jobs

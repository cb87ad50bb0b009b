-- ===== src/Jobs/Queue.antt =====
-- The queue as its callers drive it: any sequence of operations of src/db.rs, each with the UUID
-- and the time that it draws. An operation that fails is rolled back.
use vexa_vm.Common.{ℕ, String, Option, List, [], ◌∷◌, ◌≡◌, refl}
use vexa_vm.Error.{AppResult, ok, err}
use vexa_vm.Db.{VmState, NewJob, Db}
use vexa_vm.Db.External.{External}
use vexa_vm.Jobs.Enqueue.{
  enqueue_job, enqueue_guest_tools_bootstrap_job, enqueue_delete_job, enqueue_reinstall_job,
}
use vexa_vm.Jobs.Work.{claim_next_job, update_job_progress, finish_job, fail_job, cancel_job}
use vexa_vm.Jobs.Recover.{recover_interrupted_jobs}
use vexa_vm.Jobs.Valid.{AllValid}
use vexa_vm.Jobs.Valid.Operations.{
  claim_next_job-AllValid, update_job_progress-AllValid, finish_job-AllValid, cancel_job-AllValid,
}
use vexa_vm.Jobs.Valid.Failure.{fail_job-AllValid}
use vexa_vm.Jobs.Valid.Recovery.{recover_interrupted_jobs-AllValid}
use vexa_vm.Jobs.Valid.Enqueued.{
  enqueue_job-AllValid, enqueue_delete_job-AllValid, enqueue_guest_tools_bootstrap_job-AllValid,
  enqueue_reinstall_job-AllValid,
}

pub data Operation (V F : Type 0) : Type 0 where
  enqueue : NewJob V → String → ℕ → Operation V F
  enqueue_bootstrap : NewJob V → String → ℕ → Operation V F
  enqueue_delete : NewJob V → String → ℕ → Operation V F
  enqueue_reinstall : NewJob V → Option String → VmState → String → ℕ → Operation V F
  claim : String → ℕ → Operation V F
  progress : String → F → ℕ → Operation V F
  finish : String → V → ℕ → Operation V F
  fail : String → String → Option ℕ → ℕ → Operation V F
  cancel : String → ℕ → Operation V F
  recover : ℕ → Operation V F

-- The tables that a transaction leaves.
abbrev committed : {V F A : Type 0} → Db V F → AppResult (A × Db V F) → Db V F
committed db (ok (a, db')) = db'
committed db (err e) = db

abbrev committed_only : {V F : Type 0} → Db V F → AppResult (Db V F) → Db V F
committed_only db (ok db') = db'
committed_only db (err e) = db

module _ {V F : Type 0} (x : External V F) where
  unfoldable pub perform : Operation V F → Db V F → Db V F
  perform (enqueue request id now) db = committed db (enqueue_job x request id now db)
  perform (enqueue_bootstrap request id now) db =
      committed db (enqueue_guest_tools_bootstrap_job x request id now db)
  perform (enqueue_delete request id now) db = committed db (enqueue_delete_job x request id now db)
  perform (enqueue_reinstall request envelope desired id now) db =
      committed db (enqueue_reinstall_job x request envelope desired id now db)
  perform (claim worker now) db = committed db (claim_next_job x worker now db)
  perform (progress id percent now) db = committed_only db (update_job_progress x id percent now db)
  perform (finish id result now) db = committed_only db (finish_job x id result now db)
  perform (fail id error retry_at now) db = committed db (fail_job x id error retry_at now db)
  perform (cancel id now) db = committed_only db (cancel_job x id now db)
  perform (recover now) db = (recover_interrupted_jobs x now db).0

  unfoldable pub perform_all : List (Operation V F) → Db V F → Db V F
  perform_all [] db = db
  perform_all (o ∷ os) db = perform_all os (perform o db)

  committed-AllValid :
      {A : Type 0} (db : Db V F) (r : AppResult (A × Db V F))
      → AllValid x db
      → ((a : A) (db' : Db V F) → r ≡ ok (a, db') → AllValid x db')
      → AllValid x (committed db r)
  committed-AllValid db (ok (a, db')) v h = h a db' refl
  committed-AllValid db (err e) v h = v

  committed_only-AllValid :
      (db : Db V F) (r : AppResult (Db V F))
      → AllValid x db
      → ((db' : Db V F) → r ≡ ok db' → AllValid x db')
      → AllValid x (committed_only db r)
  committed_only-AllValid db (ok db') v h = h db' refl
  committed_only-AllValid db (err e) v h = v

  perform-AllValid : (o : Operation V F) (db : Db V F) → AllValid x db → AllValid x (perform o db)
  unfolding perform
  perform-AllValid (enqueue request id now) db v =
      committed-AllValid db _ v (λ j db' e. enqueue_job-AllValid x request id now db db' j v e)
  perform-AllValid (enqueue_bootstrap request id now) db v =
      committed-AllValid db _ v
        (λ j db' e. enqueue_guest_tools_bootstrap_job-AllValid x request id now db db' j v e)
  perform-AllValid (enqueue_delete request id now) db v =
      committed-AllValid db _ v
        (λ j db' e. enqueue_delete_job-AllValid x request id now db db' j v e)
  perform-AllValid (enqueue_reinstall request envelope desired id now) db v =
      committed-AllValid db _ v
        (λ j db' e. enqueue_reinstall_job-AllValid x request envelope desired id now db db' j v e)
  perform-AllValid (claim worker now) db v =
      committed-AllValid db _ v (λ j db' e. claim_next_job-AllValid x worker now db db' j v e)
  perform-AllValid (progress id percent now) db v =
      committed_only-AllValid db _ v
        (λ db' e. update_job_progress-AllValid x id percent now db db' v e)
  perform-AllValid (finish id result now) db v =
      committed_only-AllValid db _ v (λ db' e. finish_job-AllValid x id result now db db' v e)
  perform-AllValid (fail id error retry_at now) db v =
      committed-AllValid db _ v (λ j db' e. fail_job-AllValid x id error retry_at now db db' j v e)
  perform-AllValid (cancel id now) db v =
      committed_only-AllValid db _ v (λ db' e. cancel_job-AllValid x id now db db' v e)
  perform-AllValid (recover now) db v = recover_interrupted_jobs-AllValid x now db v

  -- From tables whose job rows are valid and have distinct ids, any sequence of the ten operations,
  -- with any arguments and in any order, leads to tables with the same property.
  pub perform_all-AllValid :
      (os : List (Operation V F)) (db : Db V F) → AllValid x db → AllValid x (perform_all os db)
  unfolding perform_all
  perform_all-AllValid [] db v = v
  perform_all-AllValid (o ∷ os) db v =
      perform_all-AllValid os (perform o db) (perform-AllValid o db v)

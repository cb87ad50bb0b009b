-- ===== src/Jobs/Ending.antt =====
-- How a job ends: a failure retries it or closes it, and a cancelled create leaves nothing behind.
use vexa_vm.Common.{
  ℕ, ◌≡◌, ◌<◌, ◌≤◌, ◌⊎◌, inl, inr, ltb, Bool-cases, none, refl, String, Bool, true, false, ◌&&◌,
  some, Option, arith, if◌then◌else◌, str_eq, find?, update_where, any,
}
use mathlib.Core.Path.{ap, subst}
use vexa_vm.Error.{ok}
use vexa_vm.Db.{
  JobStatus, is_queued, is_running, Job, IpRow, Db, sql_eq, query_job, delete_vms_where, release,
}
use vexa_vm.Db.External.{External}
use vexa_vm.Db.Rows.{All, All-update_where, All-true, All-retain-not, find?-update_where, All-find?}
use vexa_vm.Jobs.Cleanup.{cleanup_unarmed_reinstall_guest_tools}
use vexa_vm.Jobs.Work.{
  is_id, is_job, fail_job, cancel_job, undo_queued, undo_create, is_provisional, close,
}
use vexa_vm.Jobs.Outcome.{IsRetried, IsFailed, requeue-IsRetried, give_up-IsFailed}
use vexa_vm.Jobs.Valid.Operations.{cleanup_unarmed-jobs}
use vexa_vm.Jobs.Valid.Failure.{retries, settle, settle-id}

module _ {V F : Type 0} (x : External V F) where
  settled-query :
      (id error : String) (retry_at : Option ℕ) (now : ℕ) (retry : Bool) (db : Db V F)
      (job : Job V F)
      → query_job db id ≡ some job
      → str_eq job.id id ≡ true
      → find?
          (λ j. str_eq j.id id)
          (update_where (is_id x id) (settle x error retry_at now retry) db.jobs)
        ≡ some (settle x error retry_at now retry job)
  settled-query id error retry_at now retry db job found named =
      find?-update_where (λ j. str_eq j.id id) (is_id x id) (settle x error retry_at now retry)
        db.jobs job (λ j. ap (λ s. str_eq s id) (settle-id x error retry_at now retry j)) found
        named

  found-id :
      (id : String) (db : Db V F) (job : Job V F)
      → query_job db id ≡ some job
      → str_eq job.id id ≡ true
  found-id id db job found =
      (All-find? (λ j. Unit {0}) (λ j. str_eq j.id id) db.jobs
        (All-true (λ j. Unit {0}) db.jobs (λ j. tt)) found).1

  settled_lem :
      (error : String) (retry_at : Option ℕ) (now : ℕ) (job : Job V F)
      → ((t : ℕ) × (retry_at ≡ some t)
          × (job.attempts < job.max_attempts)
          × IsRetried error t now job (settle x error retry_at now (retries x retry_at job) job))
        ⊎ (((retry_at ≡ none) ⊎ (job.max_attempts ≤ job.attempts))
            × IsFailed x error now job (settle x error retry_at now (retries x retry_at job) job))
  settled_lem error none now job = inr (inl refl, give_up-IsFailed x error none now job)
  settled_lem error (some t) now job = elim (Bool-cases (ltb job.attempts job.max_attempts)) [
    | inl room ↦ rw room (inl (t, refl, ground arith, requeue-IsRetried x error t now job))
    | inr spent ↦ rw spent (inr (inr (ground arith), give_up-IsFailed x error (some t) now job))
  ]

  -- `fail_job` on a running job always succeeds, and the row that it returns is the stored one. If a
  -- retry time is given and attempts are left, the job is queued again for that time, with the error
  -- and its payload, and is not locked. Otherwise it is failed, ended now, not locked, with the
  -- error, and its payload has lost the staged password.
  pub fail_job-settles :
      (id error : String) (retry_at : Option ℕ) (now : ℕ) (db : Db V F) (job : Job V F)
      → query_job db id ≡ some job
      → is_running job.status ≡ true
      → (j : Job V F) × (db' : Db V F) × (fail_job x id error retry_at now db ≡ ok (j, db'))
        × (query_job db' id ≡ some j)
        × (((t : ℕ) × (retry_at ≡ some t)
              × (job.attempts < job.max_attempts)
              × IsRetried error t now job j)
            ⊎ (((retry_at ≡ none) ⊎ (job.max_attempts ≤ job.attempts))
                × IsFailed x error now job j))
  unfolding fail_job
  fail_job-settles id error retry_at now db job found runs =
      let retry = retries x retry_at job in
      let cleaned = if retry then db else cleanup_unarmed_reinstall_guest_tools x job now db in
      let jobs' = update_where (is_id x id) (settle x error retry_at now retry) cleaned.jobs in
      let kept : cleaned.jobs ≡ db.jobs = ground (arith, cleanup_unarmed-jobs x job now db) in
      let j = settle x error retry_at now retry job in
      let after : find? (λ j. str_eq j.id id) jobs' ≡ some j =
        rw kept
          (settled-query id error retry_at now retry db job found (found-id id db job found)) in
      (
        j,
        record cleaned { jobs = jobs' },
        ground (arith, after),
        after,
        settled_lem error retry_at now job,
      )

  abbrev pub IsUndone : String → Db V F → Type 0
  IsUndone vm db =
      All (λ v. is_provisional x vm v ≡ false) db.vms
      × All (λ a. sql_eq a.assigned_vm_id vm ≡ false) db.ips

  undo_create-IsUndone :
      (vm : String) (now : ℕ) (db : Db V F) → IsUndone vm (undo_create x vm now db)
  unfolding undo_create delete_vms_where
  undo_create-IsUndone vm now db =
      let Off : IpRow → Type 0 = λ a. sql_eq a.assigned_vm_id vm ≡ false in
      (
        All-retain-not (is_provisional x vm) db.vms,
        All-update_where Off Off
            (λ a. any (λ v. is_provisional x vm v && sql_eq a.assigned_vm_id v.id) db.vms)
            (release now) (update_where (λ a. sql_eq a.assigned_vm_id vm) (release now) db.ips)
            (λ a h e. refl) (λ a h e. h)
            (All-update_where (λ a. Unit {0}) Off (λ a. sql_eq a.assigned_vm_id vm) (release now)
              db.ips (λ a h e. refl) (λ a h e. e) (All-true (λ a. Unit {0}) db.ips (λ a. tt))),
      )

  -- Cancelling a queued create leaves no provisional row of its VM, and no address assigned to it.
  pub cancel_job-undoes_create :
      (id vm : String) (now : ℕ) (db db' : Db V F) (job : Job V F)
      → query_job db id ≡ some job
      → job.kind ≡ "vm.create"
      → job.vm_id ≡ some vm
      → cancel_job x id now db ≡ ok db'
      → IsUndone vm db'
  unfolding cancel_job undo_queued
  cancel_job-undoes_create id vm now db db' job found kind named e =
      let closed : Db V F = record db {
        jobs = update_where (is_job x id is_queued) (close x JobStatus.cancelled now) db.jobs;
      } in
      let snapshot : str_eq job.kind "vm.snapshot.create" ≡ false = rw kind refl in
      let create : str_eq job.kind "vm.create" ≡ true = rw kind refl in
      let same : undo_create x vm now closed ≡ db' = ground arith in
      subst (IsUndone vm) same (undo_create-IsUndone vm now closed)

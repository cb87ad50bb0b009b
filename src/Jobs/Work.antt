-- ===== src/Jobs/Work.antt =====
-- `claim_next_job`, `update_job_progress`, `finish_job`, `fail_job` and `cancel_job` of src/db.rs.
use vexa_vm.Common.{
  ℕ, ◌+◌, Bool, String, true, false, ◌&&◌, ◌||◌, Option, none, some, if◌then◌else◌, ltb, leb, ◌==◌,
  str_eq, not, update_where, count_if,
}
use vexa_vm.Error.{AppResult, ok, err, validation, conflict, not_found, ◌>>◌, reject_if}
use vexa_vm.Db.{
  JobStatus, VmState, SnapshotState, is_queued, is_running, Job, VmRow, Db, sql_eq, is_some,
  query_job, require_changed, delete_vms_where, release,
}
use vexa_vm.Db.External.{External}
use vexa_vm.Db.Text.{validate_non_empty}
use vexa_vm.Jobs.Cleanup.{staged_password, get_str, cleanup_unarmed_reinstall_guest_tools}
use vexa_vm.Jobs.Enqueue.{earliest, select_where}

module _ {V F : Type 0} (x : External V F) where
  -- `status = 'queued' AND run_after <= now AND attempts < max_attempts`.
  abbrev pub is_due : ℕ → Job V F → Bool
  is_due now j = is_queued j.status && leb j.run_after now && ltb j.attempts j.max_attempts

  -- `ORDER BY run_after, created_at`. Rows that tie are taken in the order of the table.
  abbrev pub precedes : Job V F → Job V F → Bool
  precedes a b =
      ltb a.run_after b.run_after || (a.run_after == b.run_after && ltb a.created_at b.created_at)

  unfoldable pub next_job : ℕ → Db V F → Option (Job V F)
  next_job now db = earliest precedes (select_where x (is_due now) db.jobs)

  abbrev pub start : String → ℕ → Job V F → Job V F
  start worker now j = record j {
    status = JobStatus.running;
    attempts = j.attempts + 1;
    locked_by = some worker;
    locked_at = some now;
    updated_at = now;
  }

  -- Rows of a job, if it has the status that the statement asks for.
  abbrev pub is_job : String → (JobStatus → Bool) → Job V F → Bool
  is_job id status j = str_eq j.id id && status j.status

  unfoldable pub claim_next_job : String → ℕ → Db V F → AppResult (Option (Job V F) × Db V F)
  claim_next_job worker now db = do
    validate_non_empty "worker name" worker
    elim (next_job now db) [
      | none ↦ ok (none, db)
      | some j ↦
          let db' = record db {
            jobs = update_where (is_job j.id is_queued) (start worker now) db.jobs;
          } in
          if count_if (is_job j.id is_queued) db.jobs == 0
          then ok (none, db)
          else ok (query_job db' j.id, db')
    ]

  unfoldable pub update_job_progress : String → F → ℕ → Db V F → AppResult (Db V F)
  update_job_progress id percent now db = do
    reject_if (not (x.is_percent percent)) (validation "job progress must be between 0 and 100")
    require_changed (count_if (is_job id is_running) db.jobs) "running job"
    ok (record db {
      jobs =
          update_where (is_job id is_running)
            (λ j. record j { progress_percent = percent; updated_at = now }) db.jobs;
    })

  -- What ends a job for good: no lock, an end time, and no staged password.
  abbrev pub close : JobStatus → ℕ → Job V F → Job V F
  close status now j = record j {
    status = status;
    locked_by = none;
    locked_at = none;
    updated_at = now;
    finished_at = some now;
    payload = x.remove j.payload staged_password;
  }

  abbrev pub succeed : V → ℕ → Job V F → Job V F
  succeed result now j = record (close JobStatus.succeeded now j) {
    result = some result;
    error = none;
    progress_percent = x.hundred_percent;
  }

  unfoldable pub finish_job : String → V → ℕ → Db V F → AppResult (Db V F)
  finish_job id result now db = do
    require_changed (count_if (is_job id is_running) db.jobs) "running job"
    ok (record db { jobs = update_where (is_job id is_running) (succeed result now) db.jobs })

  -- `COALESCE(?4, run_after)`.
  abbrev or_else : Option ℕ → ℕ → ℕ
  or_else none t = t
  or_else (some s) t = s

  abbrev pub requeue : String → Option ℕ → ℕ → Job V F → Job V F
  requeue error retry_at now j = record j {
    status = JobStatus.queued;
    error = some error;
    run_after = or_else retry_at j.run_after;
    locked_by = none;
    locked_at = none;
    updated_at = now;
    finished_at = none;
  }

  abbrev pub give_up : String → Option ℕ → ℕ → Job V F → Job V F
  give_up error retry_at now j = record (close JobStatus.failed now j) {
    error = some error;
    run_after = or_else retry_at j.run_after;
  }

  abbrev pub is_id : String → Job V F → Bool
  is_id id j = str_eq j.id id

  unfoldable pub fail_job : String → String → Option ℕ → ℕ → Db V F → AppResult (Job V F × Db V F)
  fail_job id error retry_at now db = elim (query_job db id) [
    | none ↦ err (not_found "job")
    | some job ↦ do
      reject_if (not (is_running job.status)) (conflict "job is not running")
      let retry = is_some retry_at && ltb job.attempts job.max_attempts
      let cleaned = if retry then db else cleanup_unarmed_reinstall_guest_tools x job now db
      let db' = record cleaned {
        jobs =
            update_where (is_id id)
              (λ j. if retry then requeue error retry_at now j else give_up error retry_at now j)
              cleaned.jobs;
      }
      elim (query_job db' id) [ none ↦ err (not_found "job") | some j ↦ ok (j, db') ]
  ]

  abbrev is_creating : VmState → Bool
  is_creating VmState.creating = true
  is_creating _ = false

  abbrev is_reinstalling : VmState → Bool
  is_reinstalling VmState.reinstalling = true
  is_reinstalling _ = false

  abbrev in_creation : SnapshotState → Bool
  in_creation SnapshotState.creating = true
  in_creation _ = false

  -- `id = … AND state = 'creating' AND libvirt_uuid IS NULL`.
  abbrev pub is_provisional : String → VmRow → Bool
  is_provisional vm v = str_eq v.id vm && is_creating v.state && not (is_some v.libvirt_uuid)

  unfoldable pub undo_create : String → ℕ → Db V F → Db V F
  undo_create vm now db =
      delete_vms_where (is_provisional vm) now
        (record db { ips = update_where (λ a. sql_eq a.assigned_vm_id vm) (release now) db.ips })

  unfoldable pub undo_reinstall : String → Job V F → ℕ → Db V F → Db V F
  undo_reinstall vm job now db =
      let cleaned = cleanup_unarmed_reinstall_guest_tools x job now db in
      record cleaned {
        vms =
            update_where (λ v. str_eq v.id vm && is_reinstalling v.state)
              (λ v. record v { state = VmState.unknown; updated_at = now }) cleaned.vms;
      }

  unfoldable pub undo_snapshot : Option String → ℕ → Db V F → Db V F
  undo_snapshot none now db = db
  undo_snapshot (some snapshot) now db = record db {
    snapshots =
        update_where (λ s. str_eq s.id snapshot && in_creation s.state)
          (λ s. record s {
            state = SnapshotState.error;
            updated_at = now;
            completed_at = some now;
            metadata = x.insert s.metadata "error" (x.text "job cancelled");
          })
          db.snapshots;
  }

  -- The `match` at the end of `cancel_job`.
  unfoldable pub undo_queued : Job V F → ℕ → Db V F → Db V F
  undo_queued job now db =
      if str_eq job.kind "vm.snapshot.create"
      then undo_snapshot (get_str x job.payload "snapshot_id") now db
      else elim job.vm_id [
        | none ↦ db
        | some vm ↦
            if str_eq job.kind "vm.create"
            then undo_create vm now db
            else if str_eq job.kind "vm.reinstall"
            then undo_reinstall vm job now db
            else db
      ]

  unfoldable pub cancel_job : String → ℕ → Db V F → AppResult (Db V F)
  cancel_job id now db = elim (query_job db id) [
    | none ↦ err (not_found "job")
    | some job ↦ do
      reject_if (not (is_queued job.status)) (conflict "only a queued job can be cancelled")
      require_changed (count_if (is_job id is_queued) db.jobs) "queued job"
      let db' = record db {
        jobs = update_where (is_job id is_queued) (close JobStatus.cancelled now) db.jobs;
      }
      ok (undo_queued job now db')
  ]

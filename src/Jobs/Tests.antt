-- ===== src/Jobs/Tests.antt =====
-- Runs of the queue over a sample of JSON values, and its theorems at those runs.
use vexa_vm.Common.{
  ◌<◌, ◌⊎◌, ℕ, ◌+◌, ◌≤◌, ◌≡◌, refl, String, true, false, none, some, Option, List, [], ◌∷◌, arith,
  count_if,
}
use vexa_vm.Error.{ok}
use vexa_vm.Db.{
  JobStatus, VmState, IpStatus, is_running, Job, NewJob, VmRow, IpRow, Db, query_job,
  delete_vms_where, release,
}
use vexa_vm.Db.Rows.{All}
use vexa_vm.Db.Sample.{Json, empty, sample}
use vexa_vm.Db.Text.{validate_non_empty, is_blank}
use vexa_vm.Jobs.Enqueue.{
  queued_job, insert_job, enqueue_job, enqueue_delete_job, active_job, is_active_job, earliest,
  select_where,
}
use vexa_vm.Jobs.Work.{
  claim_next_job, next_job, is_due, start, fail_job, cancel_job, undo_queued, undo_create,
}
use vexa_vm.Jobs.Recover.{
  recover_interrupted_jobs, requeue_finalizers, requeue_ordinary, requeue_all, mark_damage,
  fail_exhausted, clear_orphan_rotations, mark_broken_vms, mark_broken_snapshots, mark_broken_tools,
  cleanup_terminal_reinstalls,
}
use vexa_vm.Jobs.Order.{IsBefore, claim_next_job-earliest, claim_next_job-nothing_due}
use vexa_vm.Jobs.Valid.{AllValid}
use vexa_vm.Jobs.Outcome.{IsClaimed, IsRetried, IsFailed}
use vexa_vm.Jobs.Valid.Recovery.{recover_interrupted_jobs-stopped, recover_interrupted_jobs-counts}
use vexa_vm.Jobs.Queue.{
  Operation, enqueue, enqueue_delete, claim, recover, perform, perform_all, perform_all-AllValid,
}
use vexa_vm.Jobs.Once.{enqueue_job-replay, enqueue_delete_job-single}
use vexa_vm.Jobs.Ending.{IsUndone, fail_job-settles, cancel_job-undoes_create}

abbrev request : String → Option String → NewJob Json
request kind key = record {
  kind = kind;
  vm_id = some "vm-1";
  payload = empty;
  idempotency_key = key;
  run_after = none;
  max_attempts = 2;
  actor_type = none;
  actor_id = none;
}

abbrev provisional : VmRow
provisional = record {
  id = "vm-1";
  state = VmState.creating;
  desired_state = VmState.running;
  libvirt_uuid = none;
  updated_at = 0;
}

abbrev assigned : IpRow
assigned = record {
  address = "192.0.2.7";
  status = IpStatus.used;
  assigned_vm_id = some "vm-1";
  primary_for_vm = true;
  updated_at = 0;
}

abbrev start_db : Db Json ℕ
start_db = record {
  jobs = [];
  vms = provisional ∷ [];
  ips = assigned ∷ [];
  snapshots = [];
  guest_tools = [];
}

abbrev create_row : Job Json ℕ
create_row = queued_job sample (request "vm.create" (some "key")) empty (some "key") "job-1" 10

abbrev delete_row : Job Json ℕ
delete_row =
    start sample "worker" 21 (queued_job sample (request "vm.delete" none) empty none "job-2" 20)

-- A delete runs while a create waits.
abbrev busy : Db Json ℕ
busy = record start_db { jobs = delete_row ∷ create_row ∷ [] }

abbrev history : List (Operation Json ℕ)
history =
    enqueue_delete (request "vm.delete" none) "job-2" 20
    ∷ claim "worker" 21
    ∷ enqueue (request "vm.create" (some "key")) "job-1" 10
    ∷ []

busy_lem : perform_all sample history start_db ≡ busy
unfolding perform_all perform enqueue_delete_job enqueue_job insert_job claim_next_job next_job
    active_job earliest select_where validate_non_empty is_blank
busy_lem = refl

-- A running job that is interrupted twice has used its budget.
twice_interrupted :
    (perform_all sample
      (recover 30 ∷ claim "worker" 31 ∷ recover 40 ∷ [])
      (record start_db { jobs = delete_row ∷ [] })).jobs
    ≡ (record delete_row {
      status = JobStatus.failed;
      attempts = 2;
      locked_by = none;
      locked_at = none;
      run_after = 30;
      updated_at = 40;
      finished_at = some 40;
      error = some "worker interrupted before completion";
    })
      ∷ []
unfolding perform_all perform recover_interrupted_jobs claim_next_job next_job earliest select_where
    validate_non_empty is_blank requeue_finalizers requeue_ordinary requeue_all mark_damage
    fail_exhausted clear_orphan_rotations mark_broken_vms mark_broken_snapshots mark_broken_tools
    cleanup_terminal_reinstalls
twice_interrupted = refl

busy_valid : AllValid sample busy
busy_valid = ((ground arith, (ground arith, tt)), ((refl, tt), (tt, tt)))

perform_all-AllValid_example : AllValid sample (perform_all sample history start_db)
perform_all-AllValid_example = perform_all-AllValid sample history start_db ((tt), (tt))

claim_next_job-earliest_example :
    (old : Job Json ℕ) × (query_job busy old.id ≡ some old)
    × (is_due sample 50 old ≡ true)
    × IsClaimed "other" 50 old (start sample "other" 50 create_row)
    × (query_job
          (record busy { jobs = delete_row ∷ start sample "other" 50 create_row ∷ [] })
          old.id
        ≡ some (start sample "other" 50 create_row))
    × All (λ b. is_due sample 50 b ≡ true → IsBefore old b) busy.jobs
unfolding claim_next_job next_job earliest select_where validate_non_empty is_blank
claim_next_job-earliest_example =
    claim_next_job-earliest sample "other" 50 busy
      (record busy { jobs = delete_row ∷ start sample "other" 50 create_row ∷ [] })
      (start sample "other" 50 create_row) busy_valid refl

claim_next_job-nothing_due_example : All (λ b. is_due sample 5 b ≡ false) busy.jobs × (busy ≡ busy)
unfolding claim_next_job next_job earliest select_where validate_non_empty is_blank
claim_next_job-nothing_due_example =
    claim_next_job-nothing_due sample "other" 5 busy busy busy_valid refl

recover_interrupted_jobs-stopped_example :
    All (λ j. is_running j.status ≡ false) (recover_interrupted_jobs sample 30 busy).0.jobs
recover_interrupted_jobs-stopped_example = recover_interrupted_jobs-stopped sample 30 busy

recover_interrupted_jobs-counts_example :
    let r = recover_interrupted_jobs sample 30 busy in
    r.1 + r.2 ≡ count_if (λ j. is_running j.status) busy.jobs
recover_interrupted_jobs-counts_example = recover_interrupted_jobs-counts sample 30 busy

enqueue_job-replay_example :
    enqueue_job sample (request "vm.create" (some "key")) "job-9" 60 busy ≡ ok (create_row, busy)
unfolding enqueue_job insert_job validate_non_empty is_blank
enqueue_job-replay_example =
    enqueue_job-replay sample (request "vm.create" (some "key")) "key" "job-1" "job-9" 10 60
      (record start_db { jobs = delete_row ∷ [] }) busy create_row refl refl

enqueue_delete_job-single_example : count_if (is_active_job sample "vm.delete" "vm-1") busy.jobs ≤ 1
unfolding enqueue_delete_job active_job earliest select_where
enqueue_delete_job-single_example =
    enqueue_delete_job-single sample (request "vm.delete" none) "job-9" 70 busy busy delete_row
      "vm-1" (omega arith) refl

fail_job-settles_example :
    (j : Job Json ℕ) × (db' : Db Json ℕ) × (fail_job sample "job-2" "no space" (some 90) 80 busy
      ≡ ok (j, db'))
    × (query_job db' "job-2" ≡ some j)
    × (((t : ℕ) × (◌≡◌ {A = Option ℕ} (some 90) (some t))
          × (delete_row.attempts < delete_row.max_attempts)
          × IsRetried "no space" t 80 delete_row j)
        ⊎ (((◌≡◌ {A = Option ℕ} (some 90) none) ⊎ (delete_row.max_attempts ≤ delete_row.attempts))
            × IsFailed sample "no space" 80 delete_row j))
fail_job-settles_example =
    fail_job-settles sample "job-2" "no space" (some 90) 80 busy delete_row refl refl

abbrev cancelled : Db Json ℕ
cancelled = record start_db {
  jobs =
      record delete_row { vm_id = none }
      ∷ record create_row {
        vm_id = none;
        status = JobStatus.cancelled;
        updated_at = 80;
        finished_at = some 80;
      }
      ∷ [];
  vms = [];
  ips = release 80 assigned ∷ [];
}

cancel_job-undoes_create_example : IsUndone sample "vm-1" cancelled
unfolding cancel_job undo_queued undo_create delete_vms_where
cancel_job-undoes_create_example =
    cancel_job-undoes_create sample "job-1" "vm-1" 80 busy cancelled create_row refl refl refl refl

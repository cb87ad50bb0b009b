-- ===== src/Jobs/Recover.antt =====
-- `recover_interrupted_jobs` of src/db.rs: one function for each statement of its transaction, in
-- their order.
use vexa_vm.Common.{
  ℕ, ◌+◌, Bool, String, true, false, ◌&&◌, ◌||◌, Option, none, some, List, [], ◌∷◌, if◌then◌else◌,
  leb, ltb, str_eq, not, any, update_where, count_if, max,
}
use vexa_vm.Db.{
  JobStatus, VmState, SnapshotState, GuestToolsStatus, is_running, is_active, Job, GuestTools, Db,
  sql_eq, is_some,
}
use vexa_vm.Db.External.{External}
use vexa_vm.Jobs.Cleanup.{
  staged_generation, get_str, clear_pending, cleanup_unarmed_reinstall_guest_tools,
}
use vexa_vm.Jobs.Enqueue.{select_where}
use vexa_vm.Jobs.Work.{close}

module _ {V F : Type 0} (x : External V F) where
  -- `status = 'running' AND attempts >= max_attempts`.
  abbrev pub is_exhausted : Job V F → Bool
  is_exhausted j = is_running j.status && leb j.max_attempts j.attempts

  abbrev pub is_exhausted_kind : String → Job V F → Bool
  is_exhausted_kind kind j = is_exhausted j && str_eq j.kind kind

  unfoldable pub cleanup_each : ℕ → List (Job V F) → Db V F → Db V F
  cleanup_each now [] db = db
  cleanup_each now (j ∷ js) db =
      cleanup_each now js (cleanup_unarmed_reinstall_guest_tools x j now db)

  unfoldable pub cleanup_terminal_reinstalls : ℕ → Db V F → Db V F
  unfolding cleanup_each
  cleanup_terminal_reinstalls now db =
      cleanup_each now (select_where x (is_exhausted_kind "vm.reinstall") db.jobs) db

  -- A delete whose VM row is gone, with the target fields that its finalizer needs.
  abbrev pub is_finalizer : Job V F → Bool
  is_finalizer j =
      is_running j.status
      && str_eq j.kind "vm.delete"
      && not (is_some j.vm_id)
      && is_some (get_str x j.payload "target_vm_id")
      && is_some (get_str x j.payload "target_vm_name")

  abbrev pub requeue_interrupted : ℕ → Job V F → Job V F
  requeue_interrupted now j = record j {
    status = JobStatus.queued;
    locked_by = none;
    locked_at = none;
    run_after = now;
    updated_at = now;
  }

  abbrev pub grant_finalizer : ℕ → Job V F → Job V F
  grant_finalizer now j = record (requeue_interrupted now j) {
    max_attempts = max j.max_attempts (j.attempts + 1);
  }

  unfoldable pub requeue_finalizers : ℕ → Db V F → Db V F
  requeue_finalizers now db = record db {
    jobs = update_where is_finalizer (grant_finalizer now) db.jobs;
  }

  -- `status = 'running' AND attempts < max_attempts`.
  abbrev pub is_retryable : Job V F → Bool
  is_retryable j = is_running j.status && ltb j.attempts j.max_attempts

  unfoldable pub requeue_ordinary : ℕ → Db V F → Db V F
  requeue_ordinary now db = record db {
    jobs = update_where is_retryable (requeue_interrupted now) db.jobs;
  }

  -- `json_extract(payload_json, '$.…') = vm_guest_tools.pending_generation`.
  abbrev names_generation : String → Job V F → GuestTools → Bool
  names_generation field j g = elim g.pending_generation [
    | none ↦ false
    | some generation ↦ sql_eq (x.json_extract j.payload field) generation
  ]

  abbrev is_orphan_rotation : List (Job V F) → GuestTools → Bool
  is_orphan_rotation jobs g =
      not g.pending_installed
      && is_some g.pending_generation
      && not (
          any
            (λ j.
              str_eq j.kind "vm.reinstall"
              && is_active j.status
              && sql_eq j.vm_id g.vm_id
              && names_generation staged_generation j g)
            jobs)

  unfoldable pub clear_orphan_rotations : ℕ → Db V F → Db V F
  clear_orphan_rotations now db = record db {
    guest_tools = update_where (is_orphan_rotation db.jobs) (clear_pending now) db.guest_tools;
  }

  unfoldable pub mark_broken_vms : ℕ → Db V F → Db V F
  mark_broken_vms now db = record db {
    vms =
        update_where
          (λ v.
            any
              (λ j.
                (is_exhausted_kind "vm.create" j || is_exhausted_kind "vm.reinstall" j)
                && sql_eq j.vm_id v.id)
              db.jobs)
          (λ v. record v { state = VmState.error; updated_at = now }) db.vms;
  }

  unfoldable pub mark_broken_snapshots : ℕ → Db V F → Db V F
  mark_broken_snapshots now db = record db {
    snapshots =
        update_where
          (λ s.
            any
              (λ j.
                is_exhausted_kind "vm.snapshot.create" j
                && sql_eq (x.json_extract j.payload "snapshot_id") s.id)
              db.jobs)
          (λ s. record s {
            state = SnapshotState.error;
            updated_at = now;
            completed_at = some now;
            metadata = x.insert s.metadata "error" (x.text "worker interrupted before completion");
          })
          db.snapshots;
  }

  abbrev tools_failed : String → ℕ → GuestTools → GuestTools
  tools_failed message now g = record g {
    status = GuestToolsStatus.error;
    last_error = some message;
    updated_at = now;
  }

  abbrev is_ready : GuestToolsStatus → Bool
  is_ready GuestToolsStatus.ready = true
  is_ready _ = false

  -- `last_seen_at IS NOT NULL AND locked_at IS NOT NULL AND last_seen_at >= locked_at`.
  abbrev seen_since : Option ℕ → Option ℕ → Bool
  seen_since (some seen) (some locked) = leb locked seen
  seen_since _ _ = false

  abbrev is_bootstrap_victim : GuestTools → Job V F → Bool
  is_bootstrap_victim g j =
      is_exhausted_kind "vm.guest_tools.bootstrap" j
      && sql_eq j.vm_id g.vm_id
      && (if g.pending_installed
          then names_generation "expected_generation" j g
          else x.is_null_member j.payload "expected_generation"
            && not (is_ready g.status && seen_since g.last_seen_at j.locked_at))

  unfoldable pub mark_broken_tools : ℕ → Db V F → Db V F
  mark_broken_tools now db =
      let armed =
        update_where
          (λ g.
            g.pending_installed
            && any
                (λ j.
                  is_exhausted_kind "vm.reinstall" j
                  && sql_eq j.vm_id g.vm_id
                  && names_generation staged_generation j g)
                db.jobs)
          (tools_failed "reinstall worker interrupted after Guest Tools media was armed" now)
          db.guest_tools in
      let created =
        update_where
          (λ g. any (λ j. is_exhausted_kind "vm.create" j && sql_eq j.vm_id g.vm_id) db.jobs)
          (tools_failed "VM creation worker interrupted before Guest Tools bootstrap" now) armed in
      record db {
        guest_tools =
            update_where (λ g. any (is_bootstrap_victim g) db.jobs)
              (tools_failed "Guest Tools bootstrap worker interrupted before completion" now)
              created;
      }

  abbrev pub interrupt : ℕ → Job V F → Job V F
  interrupt now j = record (close x JobStatus.failed now j) {
    error = some "worker interrupted before completion";
  }

  unfoldable pub fail_exhausted : ℕ → Db V F → Db V F
  fail_exhausted now db = record db { jobs = update_where is_exhausted (interrupt now) db.jobs }

  -- The tables after the statements that requeue jobs, before the rest look for exhausted ones.
  unfoldable pub requeue_all : ℕ → Db V F → Db V F
  requeue_all now db =
      requeue_ordinary now (requeue_finalizers now (cleanup_terminal_reinstalls now db))

  -- Marks whatever the exhausted jobs leave behind.
  unfoldable pub mark_damage : ℕ → Db V F → Db V F
  mark_damage now db =
      mark_broken_tools now
        (mark_broken_snapshots now (mark_broken_vms now (clear_orphan_rotations now db)))

  -- The tables, and the numbers of jobs that are queued again and that fail.
  unfoldable pub recover_interrupted_jobs : ℕ → Db V F → Db V F × ℕ × ℕ
  recover_interrupted_jobs now db =
      let finalized = requeue_finalizers now (cleanup_terminal_reinstalls now db) in
      let marked = mark_damage now (requeue_all now db) in
      (
        fail_exhausted now marked,
        count_if is_finalizer (cleanup_terminal_reinstalls now db).jobs
            + count_if is_retryable finalized.jobs,
        count_if is_exhausted marked.jobs,
      )

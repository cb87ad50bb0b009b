-- ===== src/Jobs/Enqueue.antt =====
-- `enqueue_job`, `enqueue_guest_tools_bootstrap_job`, `enqueue_delete_job` and
-- `enqueue_reinstall_job` of src/db.rs. `id` is the fresh UUID, `now` the clock's reading.
use vexa_vm.Common.{
  ℕ, Bool, String, true, false, ◌&&◌, ◌||◌, Option, none, some, List, [], ◌∷◌, ◌++◌, if◌then◌else◌,
  ltb, str_eq, not, any, update_where, count_if, max,
}
use vexa_vm.Error.{
  AppResult, ok, err, validation, conflict, not_found, database, ◌>>=◌, ◌>>◌, reject_if,
}
use vexa_vm.Db.{
  JobStatus, VmState, is_active, Job, NewJob, Db, sql_eq, opt_eq, is_some, query_job,
  query_job_by_idempotency, require_changed,
}
use vexa_vm.Db.External.{External}
use vexa_vm.Db.Text.{validate_non_empty}
use vexa_vm.Jobs.Cleanup.{staged_password, get_or_false, get_str, get_bool}

-- `ORDER BY … LIMIT 1`: the first row that no later row precedes.
unfoldable pub earliest {ℓ} : {A : Type ℓ} → (A → A → Bool) → List A → Option A
earliest before [] = none
earliest before (a ∷ as') = elim (earliest before as') [
  | none ↦ some a
  | some b ↦ if before b a then some b else some a
]

-- `max_attempts.max(1)`.
abbrev pub attempt_budget : ℕ → ℕ
attempt_budget n = max n 1

abbrev pub run_after_or : Option ℕ → ℕ → ℕ
run_after_or none now = now
run_after_or (some t) now = t

module _ {V F : Type 0} (x : External V F) where
  -- The inserted row: what the statement does not name has the column's default.
  abbrev pub queued_job : NewJob V → V → Option String → String → ℕ → Job V F
  queued_job request payload key id now = record {
    id = id;
    kind = request.kind;
    vm_id = request.vm_id;
    status = JobStatus.queued;
    payload = payload;
    result = none;
    error = none;
    progress_percent = x.zero_percent;
    idempotency_key = key;
    attempts = 0;
    max_attempts = attempt_budget request.max_attempts;
    run_after = run_after_or request.run_after now;
    locked_by = none;
    locked_at = none;
    actor_type = request.actor_type;
    actor_id = request.actor_id;
    created_at = now;
    updated_at = now;
    finished_at = none;
  }

  abbrev vm_exists : Option String → Db V F → Bool
  vm_exists none db = true
  vm_exists (some vm) db = any (λ v. str_eq v.id vm) db.vms

  abbrev key_taken : Option String → Db V F → Bool
  key_taken none db = false
  key_taken (some key) db = is_some (query_job_by_idempotency db key)

  -- `INSERT INTO jobs` under its constraints (primary key, unique idempotency key, foreign key),
  -- then `query_job`.
  unfoldable pub insert_job : Job V F → Db V F → AppResult (Job V F × Db V F)
  insert_job job db = do
    reject_if (is_some (query_job db job.id)) (database "UNIQUE constraint failed: jobs.id")
    reject_if (key_taken job.idempotency_key db)
        (database "UNIQUE constraint failed: jobs.idempotency_key")
    reject_if (not (vm_exists job.vm_id db)) (database "FOREIGN KEY constraint failed")
    let db' = record db { jobs = db.jobs ++ job ∷ [] }
    elim (query_job db' job.id) [ none ↦ err (not_found "job") | some j ↦ ok (j, db') ]

  -- The answer to a key that was seen before, if it was.
  abbrev pub replay : (V → V) → NewJob V → Db V F → Option (AppResult (Job V F × Db V F))
  replay view request db = elim request.idempotency_key [
    | none ↦ none
    | some key ↦ elim (query_job_by_idempotency db key) [
      | none ↦ none
      | some existing ↦
          if not (str_eq existing.kind request.kind)
            || not (opt_eq existing.vm_id request.vm_id)
            || not (x.beq (view existing.payload) request.payload)
          then some (err (conflict "idempotency key was already used for a different request"))
          else some (ok (existing, db))
    ]
  ]

  unfoldable pub enqueue_job : NewJob V → String → ℕ → Db V F → AppResult (Job V F × Db V F)
  enqueue_job request id now db = do
    validate_non_empty "job kind" request.kind
    elim (replay (λ v. v) request db) [
      | some answer ↦ answer
      | none ↦ insert_job (queued_job request request.payload request.idempotency_key id now) db
    ]

  -- `kind = … AND vm_id = … AND status IN ('queued', 'running') ORDER BY created_at LIMIT 1`.
  abbrev pub is_active_job : String → String → Job V F → Bool
  is_active_job kind vm j = str_eq j.kind kind && sql_eq j.vm_id vm && is_active j.status

  abbrev pub by_creation : Job V F → Job V F → Bool
  by_creation a b = ltb a.created_at b.created_at

  unfoldable pub select_where : (Job V F → Bool) → List (Job V F) → List (Job V F)
  select_where p [] = []
  select_where p (j ∷ js) = if p j then j ∷ select_where p js else select_where p js

  unfoldable pub active_job : (Job V F → Bool) → Db V F → Option (Job V F)
  unfolding earliest select_where
  active_job p db = earliest by_creation (select_where p db.jobs)

  -- `json_extract(payload_json, '$.expected_generation') IS ?2`.
  abbrev expects : Option String → Job V F → Bool
  expects none j = x.is_null_member j.payload "expected_generation"
  expects (some g) j = opt_eq (x.json_extract j.payload "expected_generation") (some g)

  abbrev validate_generation : Option String → AppResult (Unit {0})
  validate_generation none = ok tt
  validate_generation (some g) = elim (x.canonical_uuid g) [
    | none ↦ err (validation "guest-tools rotation generation is invalid")
    | some canonical ↦
        reject_if (not (str_eq canonical g))
          (validation "guest-tools rotation generation is not canonical")
  ]

  unfoldable pub enqueue_guest_tools_bootstrap_job :
      NewJob V → String → ℕ → Db V F → AppResult (Job V F × Db V F)
  enqueue_guest_tools_bootstrap_job request id now db = do
    reject_if (not (str_eq request.kind "vm.guest_tools.bootstrap"))
        (validation "Guest Tools bootstrap transaction requires a vm.guest_tools.bootstrap job")
    vm ← elim request.vm_id [
      | none ↦ err (validation "Guest Tools bootstrap job requires vm_id")
      | some vm ↦ ok vm
    ]
    let expected = get_str x request.payload "expected_generation"
    validate_generation expected
    let active =
        active_job (λ j. is_active_job "vm.guest_tools.bootstrap" vm j && expects expected j) db
    elim active [
      | some j ↦ ok (j, db)
      | none ↦ insert_job (queued_job request request.payload none id now) db
    ]

  unfoldable pub enqueue_delete_job : NewJob V → String → ℕ → Db V F → AppResult (Job V F × Db V F)
  enqueue_delete_job request id now db = do
    reject_if (not (str_eq request.kind "vm.delete"))
        (validation "delete transaction requires a vm.delete job")
    vm ← elim request.vm_id [
      | none ↦ err (validation "delete job requires vm_id")
      | some vm ↦ ok vm
    ]
    elim (replay (λ v. v) request db) [
      | some answer ↦ answer
      | none ↦ elim (active_job (is_active_job "vm.delete" vm) db) [
        | some j ↦ ok (j, db)
        | none ↦ insert_job (queued_job request request.payload request.idempotency_key id now) db
      ]
    ]

  -- `payload_without_staged_password`.
  abbrev pub payload_without_staged_password : V → V
  payload_without_staged_password v = if x.is_object v then x.remove v staged_password else v

  abbrev pub stage : V → Option String → AppResult V
  stage payload none = ok payload
  stage payload (some envelope) = do
    validate_non_empty "password envelope" envelope
    reject_if (not (x.is_object payload)) (validation "reinstall job payload must be an object")
    ok (x.insert payload staged_password (x.text envelope))

  abbrev has_vm : String → Db V F → ℕ
  has_vm vm db = count_if (λ v. str_eq v.id vm) db.vms

  -- The transaction of `enqueue_reinstall_job`.
  unfoldable pub publish_reinstall :
      NewJob V → String → V → VmState → String → ℕ → Db V F → AppResult (Job V F × Db V F)
  publish_reinstall request vm job_payload desired_state id now db =
      elim (replay payload_without_staged_password request db) [
        | some answer ↦ answer
        | none ↦ do
          reject_if (is_some (active_job (is_active_job "vm.reinstall" vm) db))
              (conflict "a reinstall is already queued or running for this VM")
          let db' = record db {
            vms =
                update_where (λ v. str_eq v.id vm)
                  (λ v. record v {
                    state = VmState.reinstalling;
                    desired_state = desired_state;
                    updated_at = now;
                  })
                  db.vms;
          }
          require_changed (has_vm vm db) "VM"
          insert_job (queued_job request job_payload request.idempotency_key id now) db'
      ]

  unfoldable pub enqueue_reinstall_job :
      NewJob V → Option String → VmState → String → ℕ → Db V F → AppResult (Job V F × Db V F)
  enqueue_reinstall_job request password_envelope desired_state id now db = do
    reject_if (not (str_eq request.kind "vm.reinstall"))
        (validation "reinstall transaction requires a vm.reinstall job")
    vm ← elim request.vm_id [
      | none ↦ err (validation "reinstall job requires vm_id")
      | some vm ↦ ok vm
    ]
    reject_if (is_some (x.get request.payload staged_password))
        (validation "reinstall payload contains a reserved field")
    reject_if
        (is_some password_envelope
          && get_or_false (get_bool x request.payload "clear_password_after_success"))
        (validation "manual reinstall cannot stage a guest password")
    job_payload ← stage request.payload password_envelope
    publish_reinstall request vm job_payload desired_state id now db

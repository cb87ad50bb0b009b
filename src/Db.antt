-- ===== src/Db.antt =====
-- src/db.rs, the tables that the job operations read and write, as lists of rows with the columns
-- of src/models.rs and migrations/0001_init.sql, and the SQL statements that they share.
--
-- A transaction is a function from the tables to a result: an error carries no tables, since the
-- transaction is rolled back. Times are Unix seconds, never negative (`unix_timestamp`).
pub mod External
pub mod Rows
pub mod Found
pub mod Text
pub mod Sample
use vexa_vm.Common.{
  ℕ, Bool, String, true, false, ◌&&◌, ◌||◌, Option, none, some, List, if◌then◌else◌, ◌==◌, str_eq,
  any, update_where, retain, find?, not,
}
use vexa_vm.Error.{AppResult, ok, err, AppError, not_found}

pub data JobStatus : Type 0 where
  queued running succeeded failed cancelled : JobStatus

pub data VmState : Type 0 where
  creating running stopped paused reinstalling migrating error unknown : VmState

pub data IpStatus : Type 0 where
  free reserved used main : IpStatus

pub data SnapshotState : Type 0 where
  creating ready reverting deleting error : SnapshotState

pub data GuestToolsStatus : Type 0 where
  pending ready unavailable error : GuestToolsStatus

abbrev pub is_queued : JobStatus → Bool
is_queued queued = true
is_queued _ = false

abbrev pub is_running : JobStatus → Bool
is_running JobStatus.running = true
is_running _ = false

abbrev pub is_active : JobStatus → Bool
is_active queued = true
is_active JobStatus.running = true
is_active _ = false

-- `V` is a JSON value, `F` a float.
pub record Job (V F : Type 0) : Type 0 where
  pub id : String
  pub kind : String
  pub vm_id : Option String
  pub status : JobStatus
  pub payload : V
  pub result : Option V
  pub error : Option String
  pub progress_percent : F
  pub idempotency_key : Option String
  pub attempts : ℕ  -- u32
  pub max_attempts : ℕ  -- u32
  pub run_after : ℕ
  pub locked_by : Option String
  pub locked_at : Option ℕ
  pub actor_type : Option String
  pub actor_id : Option String
  pub created_at : ℕ
  pub updated_at : ℕ
  pub finished_at : Option ℕ

pub record NewJob (V : Type 0) : Type 0 where
  pub kind : String
  pub vm_id : Option String
  pub payload : V
  pub idempotency_key : Option String
  pub run_after : Option ℕ
  pub max_attempts : ℕ  -- u32
  pub actor_type : Option String
  pub actor_id : Option String

-- The columns of the other tables that job operations read or write.
pub record VmRow : Type 0 where
  pub id : String
  pub state : VmState
  pub desired_state : VmState
  pub libvirt_uuid : Option String
  pub updated_at : ℕ

pub record IpRow : Type 0 where
  pub address : String
  pub status : IpStatus
  pub assigned_vm_id : Option String
  pub primary_for_vm : Bool
  pub updated_at : ℕ

pub record SnapshotRow (V : Type 0) : Type 0 where
  pub id : String
  pub vm_id : String
  pub state : SnapshotState
  pub metadata : V
  pub updated_at : ℕ
  pub completed_at : Option ℕ

pub record GuestTools : Type 0 where
  pub vm_id : String
  pub status : GuestToolsStatus
  pub last_seen_at : Option ℕ
  pub last_error : Option String
  pub pending_secret_envelope : Option String
  pub pending_platform : Option String
  pub pending_provisioner : Option String
  pub pending_desired_version : Option String
  pub pending_generation : Option String
  pub pending_installed : Bool
  pub updated_at : ℕ

pub record Db (V F : Type 0) : Type 0 where
  pub jobs : List (Job V F)
  pub vms : List VmRow
  pub ips : List IpRow
  pub snapshots : List (SnapshotRow V)
  pub guest_tools : List GuestTools

-- `column = ?`, where the column may be NULL.
abbrev pub sql_eq : Option String → String → Bool
sql_eq none s = false
sql_eq (some t) s = str_eq t s

-- `a == b` of two options.
abbrev pub opt_eq : Option String → Option String → Bool
opt_eq none none = true
opt_eq (some s) (some t) = str_eq s t
opt_eq _ _ = false

abbrev pub is_some {ℓ} : {A : Type ℓ} → Option A → Bool
is_some none = false
is_some (some _) = true

-- `SET status = 'free', assigned_vm_id = NULL, primary_for_vm = 0, updated_at = now`.
abbrev pub release : ℕ → IpRow → IpRow
release now a = record a {
  status = IpStatus.free;
  assigned_vm_id = none;
  primary_for_vm = false;
  updated_at = now;
}

-- The foreign keys of `DELETE FROM vms`: `release_ip_addresses_before_vm_delete`, then
-- `ON DELETE SET NULL` of jobs and `ON DELETE CASCADE` of snapshots and guest tools.
unfoldable pub delete_vms_where : {V F : Type 0} → (VmRow → Bool) → ℕ → Db V F → Db V F
delete_vms_where p now db = record db {
  vms = retain (λ v. not (p v)) db.vms;
  ips =
      update_where (λ a. any (λ v. p v && sql_eq a.assigned_vm_id v.id) db.vms) (release now)
        db.ips;
  jobs =
      update_where (λ j. any (λ v. p v && sql_eq j.vm_id v.id) db.vms)
        (λ j. record j { vm_id = none }) db.jobs;
  snapshots = retain (λ s. not (any (λ v. p v && str_eq s.vm_id v.id) db.vms)) db.snapshots;
  guest_tools = retain (λ g. not (any (λ v. p v && str_eq g.vm_id v.id) db.vms)) db.guest_tools;
}

module _ {V F : Type 0} where
  -- `query_job` and `query_job_by_idempotency`.
  abbrev pub query_job : Db V F → String → Option (Job V F)
  query_job db id = find? (λ j. str_eq j.id id) db.jobs

  abbrev pub query_job_by_idempotency : Db V F → String → Option (Job V F)
  query_job_by_idempotency db key = find? (λ j. sql_eq j.idempotency_key key) db.jobs

-- `require_changed`.
abbrev pub require_changed : ℕ → String → AppResult (Unit {0})
require_changed changed resource = if changed == 0 then err (not_found resource) else ok tt

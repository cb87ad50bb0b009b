-- ===== src/Traffic.antt =====
-- src/services/traffic.rs and the enforcement table of src/db.rs: a virtual machine that is past its
-- traffic quota has its network disabled.
--
-- A row of `vms` has the columns that are read here. The hypervisor is a parameter: a state, and
-- `set_network_enabled` on it. A reconciliation runs under the traffic lock and is no transaction:
-- an error keeps what has been written before it.
pub mod Reconcile
mod Tests
use vexa_vm.Common.{
  ℕ, Bool, String, str_append, true, false, ◌&&◌, ◌||◌, not, Option, none, some, List, [], ◌∷◌,
  ◌++◌, if◌then◌else◌, ltb, str_eq, find?, update_where,
}
use vexa_vm.Common.Chars.{nocase_eq}
use vexa_vm.Error.{AppResult, HypervisorResult, ok, err, not_found, hypervisor, database, to_string}
use vexa_vm.Db.{is_some}

pub record Vm : Type 0 where
  pub id : String
  pub name : String
  pub traffic_limit_bytes : Option ℕ
  pub traffic_used_bytes : ℕ

pub record VmTrafficEnforcement : Type 0 where
  pub vm_id : String
  pub blocked : Bool
  pub blocked_at : Option ℕ
  pub last_error : Option String
  pub updated_at : ℕ

pub record Tables : Type 0 where
  pub vms : List Vm
  pub enforcement : List VmTrafficEnforcement

pub record TrafficQuotaStatus : Type 0 where
  pub limit_bytes : Option ℕ
  pub used_bytes : ℕ
  pub unlimited : Bool
  pub exceeded : Bool
  pub network_blocked : Bool
  pub blocked_at : Option ℕ
  pub enforcement_error : Option String

abbrev pub is_exceeded : Option ℕ → ℕ → Bool
is_exceeded none used = false
is_exceeded (some limit) used = ltb 0 limit && ltb limit used

-- `filter(|limit| *limit > 0)`.
abbrev pub positive : Option ℕ → Option ℕ
positive none = none
positive (some limit) = if ltb 0 limit then some limit else none

abbrev pub is_blocked : Option VmTrafficEnforcement → Bool
is_blocked none = false
is_blocked (some e) = e.blocked

abbrev pub has_error : Option VmTrafficEnforcement → Bool
has_error none = false
has_error (some e) = is_some e.last_error

abbrev error_of : Option VmTrafficEnforcement → Option String
error_of none = none
error_of (some e) = e.last_error

abbrev blocked_since : Option VmTrafficEnforcement → Option ℕ
blocked_since none = none
blocked_since (some e) = e.blocked_at

unfoldable pub status_from : Vm → Option VmTrafficEnforcement → TrafficQuotaStatus
status_from vm e = record {
  limit_bytes = positive vm.traffic_limit_bytes;
  used_bytes = vm.traffic_used_bytes;
  unlimited = not (is_some (positive vm.traffic_limit_bytes));
  exceeded = is_exceeded (positive vm.traffic_limit_bytes) vm.traffic_used_bytes;
  network_blocked = is_blocked e;
  blocked_at = blocked_since e;
  enforcement_error = error_of e;
}

abbrev pub has_id : String → Vm → Bool
has_id id vm = str_eq vm.id id

abbrev pub is_of : String → VmTrafficEnforcement → Bool
is_of id e = str_eq e.vm_id id

abbrev pub vm_traffic_enforcement : String → Tables → Option VmTrafficEnforcement
vm_traffic_enforcement id db = find? (is_of id) db.enforcement

abbrev first_of : Option ℕ → ℕ → Option ℕ
first_of none now = some now
first_of (some t) now = some t

-- When the link was blocked first.
abbrev pub blocking_time : Bool → Option VmTrafficEnforcement → ℕ → Option ℕ
blocking_time blocked e now = if blocked then first_of (blocked_since e) now else none

abbrev pub enforce :
    Bool → Option ℕ → Option String → ℕ → VmTrafficEnforcement → VmTrafficEnforcement
enforce blocked since error now e = record e {
  blocked = blocked;
  blocked_at = since;
  last_error = error;
  updated_at = now;
}

abbrev new_row : String → VmTrafficEnforcement
new_row id = record {
  vm_id = id;
  blocked = false;
  blocked_at = none;
  last_error = none;
  updated_at = 0;
}

-- `id = ?1 OR name = ?1 COLLATE NOCASE LIMIT 1`; of several such rows, the first one in the table.
abbrev pub query_vm : String → List Vm → Option Vm
query_vm id_or_name vms = find? (λ vm. str_eq vm.id id_or_name || nocase_eq vm.name id_or_name) vms

-- `INSERT … ON CONFLICT(vm_id) DO UPDATE`, under the foreign key of `vm_id`. The
-- row meets the table's CHECK: one that is not blocked has no `blocked_at`.
unfoldable pub set_vm_traffic_enforcement :
    String → Bool → Option String → ℕ → Tables → AppResult Tables
set_vm_traffic_enforcement id blocked error now db =
    let old = vm_traffic_enforcement id db in
    let set = enforce blocked (blocking_time blocked old now) error now in
    if is_some old
    then ok (record db { enforcement = update_where (is_of id) set db.enforcement })
    else if is_some (find? (has_id id) db.vms)
    then ok (record db { enforcement = db.enforcement ++ set (new_row id) ∷ [] })
    else err (database "FOREIGN KEY constraint failed")

-- The status that the tables show, or the error of the last statement.
unfoldable pub finish :
    {S : Type 0}
    → String
    → AppResult Tables
    → Tables
    → S
    → AppResult TrafficQuotaStatus × Tables × S
finish id (err e) db s = (err e, db, s)
finish id (ok db') db s = elim (query_vm id db'.vms) [
  | none ↦ (err (not_found "VM"), db', s)
  | some vm ↦ (ok (status_from vm (vm_traffic_enforcement vm.id db')), db', s)
]

abbrev pub refused : Bool → String → String
refused should_block message = str_append "traffic quota could not " (
    str_append (if should_block then "disable" else "restore") (str_append " VM network: " message))

-- The error of the hypervisor, recorded first.
unfoldable pub fail :
    {S : Type 0}
    → Bool
    → String
    → AppResult Tables
    → Tables
    → S
    → AppResult TrafficQuotaStatus × Tables × S
fail should_block message (err e) db s = (err e, db, s)
fail should_block message (ok db') db s = (err (hypervisor (refused should_block message)), db', s)

module _ {S : Type 0}
    (set_network_enabled : String → Bool → S → HypervisorResult (Unit {0}) × S) where
  abbrev pub transition : Vm → Bool → ℕ → Tables → S → AppResult TrafficQuotaStatus × Tables × S
  transition vm should_block now db s = elim (set_network_enabled vm.name (not should_block) s).0 [
    | ok _ ↦
        finish vm.id (set_vm_traffic_enforcement vm.id should_block none now db) db
          (set_network_enabled vm.name (not should_block) s).1
    | err error ↦
        fail should_block (to_string error)
          (set_vm_traffic_enforcement vm.id (is_blocked (vm_traffic_enforcement vm.id db))
            (some (to_string error)) now db)
          db (set_network_enabled vm.name (not should_block) s).1
  ]

  unfoldable pub reconcile_vm_locked :
      String → Bool → ℕ → Tables → S → AppResult TrafficQuotaStatus × Tables × S
  reconcile_vm_locked id force now db s = elim (query_vm id db.vms) [
    | none ↦ (err (not_found "VM"), db, s)
    | some vm ↦
        let existing = vm_traffic_enforcement vm.id db in
        let should_block = is_exceeded vm.traffic_limit_bytes vm.traffic_used_bytes in
        if (if should_block then not (is_blocked existing) else is_blocked existing)
          || (force && should_block)
        then transition vm should_block now db s
        else if has_error existing
        then finish vm.id (set_vm_traffic_enforcement vm.id (is_blocked existing) none now db) db s
        else finish vm.id (ok db) db s
  ]

-- ===== src/Addresses/Assign.antt =====
-- src/db.rs: which VM holds an address, and what becomes of the addresses of a VM that is deleted.
pub mod Inversion
pub mod Allowed
use vexa_vm.Common.{
  ℕ, Bool, String, str_append, true, false, ◌&&◌, ◌||◌, not, Option, none, some, List,
  if◌then◌else◌, ◌==◌, str_eq, any, find?, count_if, update_where, retain,
}
use vexa_vm.Common.Chars.{nocase_eq}
use vexa_vm.Error.{
  Result, AppResult, ok, err, validation, not_found, conflict, database, internal, ◌>>=◌, ◌>>◌,
  reject_if,
}
use vexa_vm.Db.{IpStatus, free, used, is_some, sql_eq, require_changed}
use vexa_vm.Addresses.{
  AddressFamily, family_eq, is_main, is_used, is_free, IpLibrary, IpAddressRecord, Inventory, ok_or,
  canonical_ip, ip_is_blacklisted, query_ip_address, query_ip_pool,
}

abbrev pub concerning : String → String → String
concerning address rest = str_append "IP address " (str_append address rest)

module _ {V : Type 0} where
  unfoldable pub delete_ip_address : String → Inventory V → AppResult (Inventory V)
  delete_ip_address key db = do
    r ← ok_or (query_ip_address key db) (not_found "IP address")
    reject_if (is_main r.status || is_some r.assigned_vm_id)
        (conflict "assigned and detected host addresses cannot be deleted")
    require_changed (count_if (λ s. str_eq s.id r.id) db.addresses) "IP address"
    ok (record db { addresses = retain (λ s. not (str_eq s.id r.id)) db.addresses })

  -- What a new allocation asks of the pool of the address.
  unfoldable pub check_pool : String → Option String → Inventory V → AppResult (Unit {0})
  check_pool address none db = ok tt
  check_pool address (some id) db = do
    pool ← ok_or (query_ip_pool id db) (internal "IP address references a missing pool")
    reject_if (not pool.enabled)
        (conflict (concerning address " belongs to a disabled pool and cannot be newly assigned"))

  -- `SET primary_for_vm = 0 WHERE assigned_vm_id = … AND family = …`.
  abbrev pub is_rival : String → AddressFamily → IpAddressRecord V → Bool
  is_rival vm family r = sql_eq r.assigned_vm_id vm && family_eq r.family family

  abbrev pub unset_primary : ℕ → IpAddressRecord V → IpAddressRecord V
  unset_primary now r = record r { primary_for_vm = false; updated_at = now }

  abbrev pub give : String → Bool → ℕ → IpAddressRecord V → IpAddressRecord V
  give vm primary now r = record r {
    status = used;
    assigned_vm_id = some vm;
    primary_for_vm = primary;
    updated_at = now;
  }

  abbrev pub has_address : String → IpAddressRecord V → Bool
  has_address address r = str_eq r.address address

  abbrev pub free_row : ℕ → IpAddressRecord V → IpAddressRecord V
  free_row now r = record r {
    status = free;
    assigned_vm_id = none;
    primary_for_vm = false;
    updated_at = now;
  }

  -- The rows before the address is given to the VM.
  abbrev pub cleared :
      String → AddressFamily → Bool → ℕ → List (IpAddressRecord V) → List (IpAddressRecord V)
  cleared vm family primary now rows =
      if primary then update_where (is_rival vm family) (unset_primary now) rows else rows

  unfoldable pub delete_vm_record : String → ℕ → Inventory V → AppResult (Inventory V)
  delete_vm_record key now db = do
    vm ← ok_or (find? (λ v. str_eq v.id key || nocase_eq v.name key) db.vms) (not_found "VM")
    require_changed (count_if (λ v. str_eq v.id vm.id) db.vms) "VM"
    ok (record db {
      addresses = update_where (λ r. sql_eq r.assigned_vm_id vm.id) (free_row now) db.addresses;
      vms = retain (λ v. not (str_eq v.id vm.id)) db.vms;
    })

  abbrev pub is_protected : Option (IpAddressRecord V) → Bool
  is_protected none = false
  is_protected (some r) = is_main r.status

  abbrev pub set_status : IpStatus → ℕ → IpAddressRecord V → IpAddressRecord V
  set_status status now r = record r {
    status = status;
    assigned_vm_id = none;
    primary_for_vm = false;
    updated_at = now;
  }

  module _ {N : Type 0} (lib : IpLibrary N) where
    unfoldable pub check_blacklist : String → ℕ → Inventory V → AppResult (Unit {0})
    check_blacklist address now db = do
      parsed ← ok_or (lib.parse address) (validation "IP address is invalid")
      blocked ← ip_is_blacklisted lib parsed now db.blacklist
      reject_if blocked (conflict (concerning address " is blacklisted and cannot be assigned"))

    -- What the operation asks of the row before it writes; `mine` says that the VM holds it.
    unfoldable pub check_assignable :
        String → Bool → IpAddressRecord V → ℕ → Inventory V → AppResult (Unit {0})
    check_assignable address mine current now db = do
      (if mine then ok tt else check_pool address current.pool_id db)
      (if mine then ok tt else check_blacklist address now db)
      reject_if (not (is_free current.status) && not mine)
          (conflict (concerning address " is not free"))

    unfoldable pub assign_ip :
        String → String → Bool → ℕ → Inventory V → AppResult (IpAddressRecord V × Inventory V)
    assign_ip value vm primary now db = do
      address ← canonical_ip lib value
      current ← ok_or (query_ip_address address db) (not_found "IP address")
      check_assignable address (sql_eq current.assigned_vm_id vm) current now db
      reject_if (not (any (λ v. str_eq v.id vm) db.vms)) (database "FOREIGN KEY constraint failed")
      let rows =
          update_where (has_address address) (give vm primary now)
            (cleared vm current.family primary now db.addresses)
      let db' = record db { addresses = rows }
      r ← ok_or (query_ip_address address db') (not_found "IP address")
      ok (r, db')

    unfoldable pub release_ip :
        String → ℕ → Inventory V → AppResult (IpAddressRecord V × Inventory V)
    release_ip value now db = do
      address ← canonical_ip lib value
      let picked = λ (r : IpAddressRecord V). has_address address r && is_used r.status
      reject_if (count_if picked db.addresses == 0)
          (conflict (concerning address " is not assigned"))
      let db' = record db { addresses = update_where picked (free_row now) db.addresses }
      r ← ok_or (query_ip_address address db') (not_found "IP address")
      ok (r, db')

    -- The first critical section of `set_ip_status`, which gives the address to write.
    unfoldable pub check_ip_status : String → IpStatus → Inventory V → AppResult String
    check_ip_status value status seen = do
      reject_if (is_used status) (validation "use assign_ip to mark an address as used")
      address ← canonical_ip lib value
      reject_if (is_protected (query_ip_address address seen) && not (is_main status))
          (conflict "the detected host address is protected")
      ok address

    -- The second one, which does not look at the status again.
    unfoldable pub write_ip_status : String → IpStatus → ℕ → Inventory V → AppResult (Inventory V)
    write_ip_status address status now db = do
      require_changed (count_if (has_address address) db.addresses) "IP address"
      ok (record db {
        addresses = update_where (has_address address) (set_status status now) db.addresses;
      })

    -- The lock is taken three times: the operation reads the tables `seen`, writes to `db`, and reads
    -- the row that it returns from `later`. The result is with the tables that its write leaves.
    unfoldable pub set_ip_status :
        String
        → IpStatus
        → ℕ
        → Inventory V
        → Inventory V
        → Inventory V
        → AppResult (IpAddressRecord V) × Inventory V
    set_ip_status value status now seen db later = elim (check_ip_status value status seen) [
      | err e ↦ (err e, db)
      | ok address ↦ elim (write_ip_status address status now db) [
        | err e ↦ (err e, db)
        | ok db' ↦ (ok_or (query_ip_address address later) (not_found "IP address"), db')
      ]
    ]

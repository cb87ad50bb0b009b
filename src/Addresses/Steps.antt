-- ===== src/Addresses/Steps.antt =====
-- The operations on pools and addresses as steps, in any order.
--
-- `uuid n` is the `n`th id that is drawn. `set_ip_status` does not hold the lock between its check,
-- its write and its last read: its step is the write, and what it reads before and after is any
-- table.
pub mod Kept
pub mod Assigned
pub mod Upserted
pub mod Reached
use vexa_vm.Common.{ℕ, Bool, String, ◌≡◌}
use vexa_vm.Error.{ok}
use vexa_vm.Db.{IpStatus}
use vexa_vm.Addresses.{IpLibrary, Json, IpPool, IpAddressRecord, Inventory}
use vexa_vm.Addresses.Pools.{
  NewIpPool, IpPoolPatch, create_ip_pool, patch_ip_pool, delete_ip_pool,
  delete_ip_pool_with_unassigned_addresses,
}
use vexa_vm.Addresses.Assign.{
  delete_ip_address, assign_ip, release_ip, set_ip_status, delete_vm_record,
}
use vexa_vm.Addresses.Insert.{
  NewIpAddress, upsert_ip_address_with_policy, upsert_detected_host_address,
}

module _ {V N : Type 0} (lib : IpLibrary N) (json : Json V) (digits : ℕ → String)
    (uuid : ℕ → String) where
  pub data Step (db : Inventory V) : Inventory V → Type 0 where
    create_pool :
        (spec : NewIpPool) (n now : ℕ) {p : IpPool} {db' : Inventory V}
        → create_ip_pool lib spec (uuid n) now db ≡ ok (p, db')
        → Step db db'
    patch_pool :
        (id : String) (patch : IpPoolPatch) (now : ℕ) {p : IpPool} {db' : Inventory V}
        → patch_ip_pool lib id patch now db ≡ ok (p, db')
        → Step db db'
    delete_pool : (id : String) {db' : Inventory V} → delete_ip_pool id db ≡ ok db' → Step db db'
    roll_back_pool :
        (id : String) {db' : Inventory V}
        → delete_ip_pool_with_unassigned_addresses id db ≡ ok db'
        → Step db db'
    upsert :
        (spec : NewIpAddress V) (preserve : Bool) (n now : ℕ) {r : IpAddressRecord V}
        {db' : Inventory V}
        → upsert_ip_address_with_policy lib json digits spec preserve (uuid n) now db ≡ ok (r, db')
        → Step db db'
    detect :
        (spec : NewIpAddress V) (n now : ℕ) {r : IpAddressRecord V} {db' : Inventory V}
        → upsert_detected_host_address lib json digits spec (uuid n) now db ≡ ok (r, db')
        → Step db db'
    delete : (key : String) {db' : Inventory V} → delete_ip_address key db ≡ ok db' → Step db db'
    assign :
        (address vm : String) (primary : Bool) (now : ℕ) {r : IpAddressRecord V} {db' : Inventory V}
        → assign_ip lib address vm primary now db ≡ ok (r, db')
        → Step db db'
    release :
        (address : String) (now : ℕ) {r : IpAddressRecord V} {db' : Inventory V}
        → release_ip lib address now db ≡ ok (r, db')
        → Step db db'
    set_status :
        (address : String) (status : IpStatus) (now : ℕ) (seen later : Inventory V)
        → Step db (set_ip_status lib address status now seen db later).1
    delete_vm :
        (key : String) (now : ℕ) {db' : Inventory V}
        → delete_vm_record key now db ≡ ok db'
        → Step db db'

  pub data Reach (db : Inventory V) : Inventory V → Type 0 where
    here : Reach db db
    next : {db' db'' : Inventory V} → Reach db db' → Step db' db'' → Reach db db''

  -- The tables that a change of status writes to are those that it has checked.
  abbrev pub IsUnraced : {db db' : Inventory V} → Step db db' → Type 0
  IsUnraced {db} (set_status address status now seen later) = seen ≡ db
  IsUnraced _ = Unit {0}

  abbrev pub AreUnraced : {db db' : Inventory V} → Reach db db' → Type 0
  AreUnraced here = Unit {0}
  AreUnraced (next path step) = AreUnraced path × IsUnraced step

-- ===== src/Addresses/Steps/Reached.antt =====
-- What no sequence of steps loses.
use vexa_vm.Common.{ℕ, ◌≡◌, String, true, false, ◌&&◌, not, none, List, arith, any, retain}
use vexa_vm.Error.{ok}
use vexa_vm.Db.Rows.{All-mono, any-All}
use vexa_vm.Addresses.{IpLibrary, Json, IpPool, IpAddressRecord, Inventory}
use vexa_vm.Addresses.Pools.{
  NewIpPool, IpPoolPatch, create_ip_pool, patch_ip_pool, delete_ip_pool, is_in_pool, is_kept,
  delete_ip_pool_with_unassigned_addresses,
}
use vexa_vm.Addresses.Insert.{
  NewIpAddress, upsert_ip_address_with_policy, upsert_detected_host_address,
}
use vexa_vm.Db.Found.{any-retain}
use vexa_vm.Addresses.Steps.{
  Step, Reach, IsUnraced, AreUnraced, create_pool, patch_pool, delete_pool, roll_back_pool, upsert,
  detect, delete, assign, release, delete_vm, here, next,
}
use vexa_vm.Addresses.Steps.Kept.{
  is_host, Keeps, delete_ip_address-Keeps, delete_vm_record-Keeps, release_ip-Keeps,
  set_ip_status-Keeps,
}
use vexa_vm.Addresses.Valid.{IsValid}
use vexa_vm.Addresses.Valid.Operations.{IsValid-retain}
use vexa_vm.Addresses.Steps.Assigned.{assign_ip-Keeps}
use vexa_vm.Addresses.Steps.Upserted.{upsert-Keeps}

module _ {V N : Type 0} (lib : IpLibrary N) (json : Json V) (digits : ℕ → String)
    (host : String) where
  roll_back-Keeps :
      (id : String) (db : Inventory V) {db' : Inventory V}
      → delete_ip_pool_with_unassigned_addresses id db ≡ ok db'
      → Keeps lib host db.addresses db'.addresses
  unfolding delete_ip_pool_with_unassigned_addresses
  roll_back-Keeps id db {db'} e v =
      let gone = λ (r : IpAddressRecord V). not (is_in_pool id r) in
      let table : db'.addresses ≡ retain gone db.addresses = ground arith in
      let none_kept : any (λ r. is_in_pool id r && is_kept r) db.addresses ≡ false = ground arith in
      rw table (
        IsValid-retain lib gone db.addresses v,
        any-retain (is_host host) gone db.addresses (
            All-mono (λ r. (is_in_pool id r && is_kept r) ≡ false)
              (λ r. is_host host r ≡ true → gone r ≡ true) db.addresses
              (λ r k h. ground (arith, k, h))
              (any-All (λ r. is_in_pool id r && is_kept r) db.addresses none_kept)),
      )

  same_addresses :
      (db db' : Inventory V)
      → db'.addresses ≡ db.addresses
      → Keeps lib host db.addresses db'.addresses
  same_addresses db db' e v = rw e (v, λ h. h)

  create_ip_pool-addresses :
      (spec : NewIpPool) (id : String) (now : ℕ) (db : Inventory V) {p : IpPool} {db' : Inventory V}
      → create_ip_pool lib spec id now db ≡ ok (p, db')
      → db'.addresses ≡ db.addresses
  unfolding create_ip_pool
  create_ip_pool-addresses spec id now db e = ground arith

  patch_ip_pool-addresses :
      (id : String) (patch : IpPoolPatch) (now : ℕ) (db : Inventory V) {p : IpPool}
      {db' : Inventory V}
      → patch_ip_pool lib id patch now db ≡ ok (p, db')
      → db'.addresses ≡ db.addresses
  unfolding patch_ip_pool
  patch_ip_pool-addresses id patch now db e = ground arith

  delete_ip_pool-addresses :
      (id : String) (db : Inventory V) {db' : Inventory V}
      → delete_ip_pool id db ≡ ok db'
      → db'.addresses ≡ db.addresses
  unfolding delete_ip_pool
  delete_ip_pool-addresses id db e = ground arith

  detected :
      (spec : NewIpAddress V) (id : String) (now : ℕ) (db : Inventory V) {r : IpAddressRecord V}
      {db' : Inventory V}
      → upsert_detected_host_address lib json digits spec id now db ≡ ok (r, db')
      → upsert_ip_address_with_policy lib json digits spec true id now db ≡ ok (r, db')
  unfolding upsert_detected_host_address
  detected spec id now db e = ground arith

  module _ (uuid : ℕ → String) (ids : (n : ℕ) → lib.parse (uuid n) ≡ none) where
    -- What a step keeps; a change of status keeps the address of the host if it is not raced.
    abbrev StepKeeps : {db db' : Inventory V} → Step lib json digits uuid db db' → Type 0
    StepKeeps {db} {db'} step =
        IsValid lib db.addresses
        → IsValid lib db'.addresses
          × (IsUnraced lib json digits uuid step
              → any (is_host host) db.addresses ≡ true
              → any (is_host host) db'.addresses ≡ true)

    always :
        {U : Type 0} {rows rows' : List (IpAddressRecord V)}
        → Keeps lib host rows rows'
        → IsValid lib rows
        → IsValid lib rows' × (U → any (is_host host) rows ≡ true → any (is_host host) rows' ≡ true)
    always keeps v = let (v', kept) = keeps v in (v', λ u. kept)

    Step-Keeps :
        (db : Inventory V) {db' : Inventory V} (step : Step lib json digits uuid db db')
        → StepKeeps step
    Step-Keeps db {db'} (create_pool spec n now e) =
        always (same_addresses db db' (create_ip_pool-addresses spec (uuid n) now db e))
    Step-Keeps db {db'} (patch_pool id patch now e) =
        always (same_addresses db db' (patch_ip_pool-addresses id patch now db e))
    Step-Keeps db {db'} (delete_pool id e) =
        always (same_addresses db db' (delete_ip_pool-addresses id db e))
    Step-Keeps db (roll_back_pool id e) = always (roll_back-Keeps id db e)
    Step-Keeps db (upsert spec preserve n now e) =
        always (upsert-Keeps lib json digits host spec preserve (uuid n) now db (ids n) e)
    Step-Keeps db (detect spec n now e) = always (
        upsert-Keeps lib json digits host spec true (uuid n) now db (ids n)
          (detected spec (uuid n) now db e))
    Step-Keeps db (delete key e) = always (delete_ip_address-Keeps lib host key db e)
    Step-Keeps db (assign address vm primary now e) =
        always (assign_ip-Keeps lib host address vm primary now db e)
    Step-Keeps db (release address now e) = always (release_ip-Keeps lib host address now db e)
    Step-Keeps db (Step.set_status address status now seen later) =
        set_ip_status-Keeps lib host address status now seen db later
    Step-Keeps db (delete_vm key now e) = always (delete_vm_record-Keeps lib host key now db e)

    Reach-Keeps :
        (db : Inventory V) {db' : Inventory V} (path : Reach lib json digits uuid db db')
        → IsValid lib db.addresses
        → IsValid lib db'.addresses
          × (AreUnraced lib json digits uuid path
              → any (is_host host) db.addresses ≡ true
              → any (is_host host) db'.addresses ≡ true)
    Reach-Keeps db here v = (v, λ u h. h)
    Reach-Keeps db (next {db'} path step) v =
        let (v', kept) = Reach-Keeps db path v in
        let (v'', kept') = Step-Keeps db' step v' in (v'', λ u h. kept' u.1 (kept u.0 h))

-- No sequence of operations leads from a valid table to one that is not, if no id that is drawn is
-- an address: an address is used exactly if a VM has it, no two rows share an id or an address,
-- and a VM has one primary address in a family at most.
pub Reach-IsValid :
    {V N : Type 0} (lib : IpLibrary N) (json : Json V) (digits : ℕ → String) (uuid : ℕ → String)
    (db : Inventory V) {db' : Inventory V}
    → ((n : ℕ) → lib.parse (uuid n) ≡ none)
    → IsValid lib db.addresses
    → Reach lib json digits uuid db db'
    → IsValid lib db'.addresses
Reach-IsValid lib json digits uuid db ids v path =
    (Reach-Keeps lib json digits "" uuid ids db path v).0

-- A detected address of the host stays in a valid table, and stays the host's, whatever operations
-- are made, if no id that is drawn is an address and no other operation comes between the check and
-- the write of a `set_ip_status`.
pub Reach-keeps_host :
    {V N : Type 0} (lib : IpLibrary N) (json : Json V) (digits : ℕ → String) (uuid : ℕ → String)
    (db : Inventory V) {db' : Inventory V} (host : String)
    → ((n : ℕ) → lib.parse (uuid n) ≡ none)
    → IsValid lib db.addresses
    → (path : Reach lib json digits uuid db db') → AreUnraced lib json digits uuid path
    → any (is_host host) db.addresses ≡ true
    → any (is_host host) db'.addresses ≡ true
Reach-keeps_host lib json digits uuid db host ids v path unraced h =
    (Reach-Keeps lib json digits host uuid ids db path v).1 unraced h

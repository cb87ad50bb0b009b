-- ===== src/Addresses/Assign/Inversion.antt =====
-- What an operation on an address that succeeds found, and the table that it leaves.
use vexa_vm.Common.{
  ℕ, ◌≡◌, ◌⊎◌, ap, ◌∙◌, Bool, String, false, ◌&&◌, ◌||◌, not, some, arith, str_eq, find?,
  update_where, retain, Option-cases, inl, inr,
}
use vexa_vm.Common.Chars.{nocase_eq}
use vexa_vm.Error.{ok, Result-cases}
use vexa_vm.Db.{IpStatus, sql_eq}
use vexa_vm.Addresses.{
  is_used, is_main, IpLibrary, IpAddressRecord, VmName, Inventory, canonical_ip, query_ip_address,
}
use vexa_vm.Addresses.Assign.{
  delete_ip_address, has_address, give, free_row, cleared, is_protected, set_status,
  check_assignable, assign_ip, release_ip, check_ip_status, write_ip_status, set_ip_status,
  delete_vm_record,
}

module _ {V : Type 0} where
  pub delete_ip_address-ok :
      (key : String) (db : Inventory V) {db' : Inventory V}
      → delete_ip_address key db ≡ ok db'
      → (r : IpAddressRecord V) × (query_ip_address key db ≡ some r)
        × (is_main r.status ≡ false)
        × (db'.addresses ≡ retain (λ s. not (str_eq s.id r.id)) db.addresses)
  unfolding delete_ip_address
  delete_ip_address-ok key db {db'} e = elim (Option-cases (query_ip_address key db)) [
    | inl absent ↦ absurd (ground (arith, absent))
    | inr (r, found) ↦ (r, found, ground (arith, found), ground (arith, found))
  ]

  pub delete_vm_record-ok :
      (key : String) (now : ℕ) (db : Inventory V) {db' : Inventory V}
      → delete_vm_record key now db ≡ ok db'
      → (vm : String) × (db'.addresses
          ≡ update_where (λ r. sql_eq r.assigned_vm_id vm) (free_row now) db.addresses)
  unfolding delete_vm_record
  delete_vm_record-ok key now db {db'} e =
      elim (Option-cases (find? (λ (v : VmName). str_eq v.id key || nocase_eq v.name key) db.vms)) [
        | inl absent ↦ absurd (ground (arith, absent))
        | inr (vm, found) ↦ (vm.id, ground (arith, found))
      ]

  module _ {N : Type 0} (lib : IpLibrary N) where
    pub assign_ip-ok :
        (value vm : String) (primary : Bool) (now : ℕ) (db : Inventory V) {r : IpAddressRecord V}
        {db' : Inventory V}
        → assign_ip lib value vm primary now db ≡ ok (r, db')
        → (address : String) × (canonical_ip lib value ≡ ok address)
          × (current : IpAddressRecord V) × (query_ip_address address db ≡ some current)
          × (check_assignable lib address (sql_eq current.assigned_vm_id vm) current now db ≡ ok tt)
          × (db'.addresses
              ≡ update_where
                  (has_address address)
                  (give vm primary now)
                  (cleared vm current.family primary now db.addresses))
    unfolding assign_ip
    assign_ip-ok value vm primary now db {r} {db'} e =
        elim (Result-cases (canonical_ip lib value)) [
          | inl (address, c) ↦ elim (Option-cases (query_ip_address address db)) [
            | inl absent ↦ absurd (ground (arith, c, absent))
            | inr (current, found) ↦
                (address, c, current, found, ground (arith, c, found), ground (arith, c, found))
          ]
          | inr (e', bad) ↦ absurd (ground (arith, bad))
        ]

    pub assign_ip-reads :
        (value vm address : String) (primary : Bool) (now : ℕ) (db : Inventory V)
        {r : IpAddressRecord V} {db' : Inventory V}
        → canonical_ip lib value ≡ ok address
        → assign_ip lib value vm primary now db ≡ ok (r, db')
        → query_ip_address address db' ≡ some r
    unfolding assign_ip
    assign_ip-reads value vm address primary now db {r} {db'} c e =
        elim (Option-cases (query_ip_address address db)) [
          | inl absent ↦ absurd (ground (arith, c, absent))
          | inr (current, found) ↦
              let rows =
                update_where (has_address address) (give vm primary now)
                  (cleared vm current.family primary now db.addresses) in
              elim (Option-cases (query_ip_address address (record db { addresses = rows }))) [
                | inl lost ↦ absurd (ground (arith, c, found, lost))
                | inr (q, read) ↦
                    let same : q ≡ r = ground (arith, c, found, read) in
                    let table : record db { addresses = rows } ≡ db' =
                      ground (arith, c, found, read) in
                    rw (← table) (read ∙ ap some same)
              ]
        ]

    pub release_ip-ok :
        (value : String) (now : ℕ) (db : Inventory V) {r : IpAddressRecord V} {db' : Inventory V}
        → release_ip lib value now db ≡ ok (r, db')
        → (address : String) × (db'.addresses
            ≡ update_where
                (λ s. has_address address s && is_used s.status)
                (free_row now)
                db.addresses)
    unfolding release_ip
    release_ip-ok value now db {r} {db'} e = elim (Result-cases (canonical_ip lib value)) [
      | inl (address, c) ↦ (address, ground (arith, c))
      | inr (e', bad) ↦ absurd (ground (arith, bad))
    ]

    checked :
        (value : String) (status : IpStatus) (seen : Inventory V) {address : String}
        → check_ip_status lib value status seen ≡ ok address
        → (canonical_ip lib value ≡ ok address)
          × (is_used status ≡ false)
          × ((is_protected (query_ip_address address seen) && not (is_main status)) ≡ false)
    unfolding check_ip_status
    checked value status seen {address} e = elim (Result-cases (canonical_ip lib value)) [
      | inl (a, c) ↦
          let same : a ≡ address = ground (arith, c) in
          (c ∙ ap ok same, ground (arith, c), ground (arith, c))
      | inr (e', bad) ↦ absurd (ground (arith, bad))
    ]

    -- The operation changes nothing, or it writes the status after the check of the tables it saw.
    pub set_ip_status-cases :
        (value : String) (status : IpStatus) (now : ℕ) (seen db later : Inventory V)
        → ((set_ip_status lib value status now seen db later).1 ≡ db)
          ⊎ ((address : String) × (canonical_ip lib value ≡ ok address)
              × (is_used status ≡ false)
              × ((is_protected (query_ip_address address seen) && not (is_main status)) ≡ false)
              × ((set_ip_status lib value status now seen db later).1.addresses
                  ≡ update_where (has_address address) (set_status status now) db.addresses))
    unfolding set_ip_status write_ip_status
    set_ip_status-cases value status now seen db later =
        elim (Result-cases (check_ip_status lib value status seen)) [
          | inl (address, c) ↦
              let (canonical, unused, guard) = checked value status seen c in
              elim (Result-cases (write_ip_status lib address status now db)) [
                | inl (db', w) ↦ inr (address, canonical, unused, guard, ground (arith, c, w))
                | inr (e, bad) ↦ inl (ground (arith, c, bad))
              ]
          | inr (e, bad) ↦ inl (ground (arith, bad))
        ]

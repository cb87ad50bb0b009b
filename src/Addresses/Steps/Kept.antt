-- ===== src/Addresses/Steps/Kept.antt =====
-- What every step keeps: the validity of the table, and the addresses of the host.
use vexa_vm.Common.{
  ℕ, ◌≡◌, refl, ap, ◌∙◌, Bool, String, true, false, ◌&&◌, not, some, List, arith, str_eq, any,
  find?, update_where, Bool-cases, Option-cases, inl, inr,
}
use vexa_vm.Error.{ok}
use vexa_vm.Db.{IpStatus, sql_eq}
use vexa_vm.Db.Rows.{All, All-true, All-mono, All-find?}
use vexa_vm.Protocol.{IpAddr}
use vexa_vm.Addresses.{is_used, is_main, IpLibrary, IpAddressRecord, Inventory, is_named}
use vexa_vm.Addresses.Assign.{
  delete_ip_address, has_address, free_row, is_protected, set_status, release_ip, set_ip_status,
  delete_vm_record,
}
use vexa_vm.Addresses.Assign.Inversion.{
  delete_ip_address-ok, delete_vm_record-ok, release_ip-ok, set_ip_status-cases,
}
use vexa_vm.Db.Found.{any-update_where, any-retain, none-All}
use vexa_vm.Addresses.Valid.{IsRow, IsValid, alone_id, alone_address}
use vexa_vm.Addresses.Valid.Operations.{
  canonical_ip-parse, named-address, IsValid-quiet, IsValid-retain,
}

module _ {V : Type 0} where
  abbrev pub is_host : String → IpAddressRecord V → Bool
  is_host host r = str_eq r.address host && is_main r.status

  module _ {N : Type 0} (lib : IpLibrary N) (host : String) where
    -- A valid table stays valid, and keeps the address of the host if it has it.
    abbrev pub Keeps : List (IpAddressRecord V) → List (IpAddressRecord V) → Type 0
    Keeps rows rows' =
        IsValid lib rows
        → IsValid lib rows' × (any (is_host host) rows ≡ true → any (is_host host) rows' ≡ true)

    pub delete_ip_address-Keeps :
        (key : String) (db : Inventory V) {db' : Inventory V}
        → delete_ip_address key db ≡ ok db'
        → Keeps db.addresses db'.addresses
    delete_ip_address-Keeps key db e v =
        let (r, found, not_host, table) = delete_ip_address-ok key db e in
        let gone = λ (s : IpAddressRecord V). not (str_eq s.id r.id) in
        rw table (
          IsValid-retain lib gone db.addresses v,
          any-retain (is_host host) gone db.addresses (
              All-mono (λ s. str_eq s.id r.id ≡ true → s ≡ r)
                (λ s. is_host host s ≡ true → gone s ≡ true) db.addresses
                (λ s only h. elim (Bool-cases (str_eq s.id r.id)) [
                  | inl same ↦
                      let status : is_main s.status ≡ is_main r.status =
                        ap (λ (q : IpAddressRecord V). is_main q.status) (only same) in
                      absurd (ground (arith, h, status, not_host))
                  | inr other ↦ ground (arith, other)
                ])
                (alone_id (is_named key) db.addresses v.apart found)),
        )

    pub delete_vm_record-Keeps :
        (key : String) (now : ℕ) (db : Inventory V) {db' : Inventory V}
        → delete_vm_record key now db ≡ ok db'
        → Keeps db.addresses db'.addresses
    delete_vm_record-Keeps key now db e v =
        let (vm, table) = delete_vm_record-ok key now db e in
        rw table (
          IsValid-quiet lib (λ r. sql_eq r.assigned_vm_id vm) (free_row now) db.addresses
              (λ r. (refl, refl, refl)) (λ r. (refl, refl, refl)) (λ r w h. refl) v,
          any-update_where (is_host host) (λ r. sql_eq r.assigned_vm_id vm) (free_row now)
              db.addresses
              (All-mono (IsRow lib)
                (λ r.
                  is_host host r ≡ true
                  → sql_eq r.assigned_vm_id vm ≡ true
                  → is_host host (free_row now r) ≡ true)
                db.addresses (λ r w h k. absurd (ground (arith, h, k, w.consistent))) v.each),
        )

    pub release_ip-Keeps :
        (value : String) (now : ℕ) (db : Inventory V) {r : IpAddressRecord V} {db' : Inventory V}
        → release_ip lib value now db ≡ ok (r, db')
        → Keeps db.addresses db'.addresses
    release_ip-Keeps value now db e v =
        let (address, table) = release_ip-ok lib value now db e in
        let picked = λ (s : IpAddressRecord V). has_address address s && is_used s.status in
        rw table (
          IsValid-quiet lib picked (free_row now) db.addresses (λ r. (refl, refl, refl))
              (λ r. (refl, refl, refl)) (λ r w h. refl) v,
          any-update_where (is_host host) picked (free_row now) db.addresses (
              All-mono (IsRow lib)
                (λ r.
                  is_host host r ≡ true → picked r ≡ true → is_host host (free_row now r) ≡ true)
                db.addresses (λ r w h k. absurd (ground (arith, h, k))) v.each),
        )

    -- If the row that a lookup finds is not the host's, no row with the address is.
    pub unprotected :
        (address : String) (a : IpAddr) (rows : List (IpAddressRecord V))
        → lib.parse address ≡ some a
        → IsValid lib rows
        → is_protected (find? (is_named address) rows) ≡ false
        → All (λ r. has_address address r ≡ true → is_main r.status ≡ false) rows
    unprotected address a rows e v h = elim (Option-cases (find? (is_named address) rows)) [
      | inl absent ↦
          All-mono (λ r. is_named address r ≡ false)
            (λ r. has_address address r ≡ true → is_main r.status ≡ false) rows
            (λ r k l. absurd (ground (arith, k, l))) (none-All (is_named address) rows absent)
      | inr (r, found) ↦
          let (w, named) = All-find? (IsRow lib) (is_named address) rows v.each found in
          let is = named-address lib address a r e w named in
          let not_host : is_main r.status ≡ false = ground (arith, found, h) in
          All-mono (λ s. str_eq s.address r.address ≡ true → s ≡ r)
            (λ s. has_address address s ≡ true → is_main s.status ≡ false) rows
            (λ s only l.
              ap (λ (q : IpAddressRecord V). is_main q.status) (only (rw is l)) ∙ not_host)
            (alone_address (is_named address) rows v.apart found)
    ]

    written_status-Keeps :
        (address : String) (a : IpAddr) (status : IpStatus) (now : ℕ)
        (rows : List (IpAddressRecord V))
        → lib.parse address ≡ some a
        → IsValid lib rows
        → (is_protected (find? (is_named address) rows) && not (is_main status)) ≡ false
        → any (is_host host) rows ≡ true
        → any (is_host host) (update_where (has_address address) (set_status status now) rows)
          ≡ true
    written_status-Keeps address a status now rows parsed v guard =
        any-update_where (is_host host) (has_address address) (set_status status now) rows
          (elim (Bool-cases (is_main status)) [
            | inl to_main ↦
                All-true
                  (λ r.
                    is_host host r ≡ true
                    → has_address address r ≡ true
                    → is_host host (set_status status now r) ≡ true)
                  rows (λ r h k. ground (arith, h, to_main))
            | inr from_main ↦
                All-mono (λ r. has_address address r ≡ true → is_main r.status ≡ false)
                  (λ r.
                    is_host host r ≡ true
                    → has_address address r ≡ true
                    → is_host host (set_status status now r) ≡ true)
                  rows (λ r w h k. absurd (ground (arith, h, w k)))
                  (unprotected address a rows parsed v (ground (arith, guard, from_main)))
          ])

    -- The table stays valid whatever the check saw; the host keeps its address if the check saw the
    -- tables that are written to.
    pub set_ip_status-Keeps :
        (value : String) (status : IpStatus) (now : ℕ) (seen db later : Inventory V)
        → IsValid lib db.addresses
        → IsValid lib (set_ip_status lib value status now seen db later).1.addresses
          × (seen ≡ db
              → any (is_host host) db.addresses ≡ true
              → any (is_host host) (set_ip_status lib value status now seen db later).1.addresses
                ≡ true)
    set_ip_status-Keeps value status now seen db later v =
        elim (set_ip_status-cases lib value status now seen db later) [
          | inl same ↦ rw same (v, λ at h. h)
          | inr (address, c, unused, guard, table) ↦
              let (a, parsed) = canonical_ip-parse lib value c in
              rw table (
                IsValid-quiet lib (has_address address) (set_status status now) db.addresses
                    (λ r. (refl, refl, refl)) (λ r. (refl, refl, refl))
                    (λ r w h. ground (arith, unused)) v,
                λ at h.
                    written_status-Keeps address a status now db.addresses parsed v
                      (rw (← at) guard) h,
              )
        ]

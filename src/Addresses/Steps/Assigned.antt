-- ===== src/Addresses/Steps/Assigned.antt =====
-- What an assignment of an address keeps.
use vexa_vm.Common.{
  ℕ, ◌≡◌, Bool, String, true, false, List, arith, any, update_where, Bool-cases, inl, inr,
}
use vexa_vm.Error.{ok}
use vexa_vm.Db.{sql_eq}
use vexa_vm.Db.Rows.{All, All-true, All-mono, All-find?, All-update_where}
use vexa_vm.Addresses.{AddressFamily, is_main, IpLibrary, IpAddressRecord, Inventory, is_named}
use vexa_vm.Addresses.Assign.{
  has_address, is_rival, unset_primary, give, cleared, assign_ip, check_assignable,
}
use vexa_vm.Addresses.Assign.Inversion.{assign_ip-ok}
use vexa_vm.Db.Found.{any-update_where}
use vexa_vm.Addresses.Valid.{IsRow}
use vexa_vm.Addresses.Valid.Operations.{canonical_ip-parse, IsValid-assigned}
use vexa_vm.Addresses.Steps.Kept.{is_host, Keeps, unprotected}

module _ {V : Type 0} where
  module _ {N : Type 0} (lib : IpLibrary N) (host : String) where
    -- The row that may be given to a VM is not the host's.
    assignable_unprotected :
        (address vm : String) (current : IpAddressRecord V) (now : ℕ) (db : Inventory V)
        → IsRow lib current
        → check_assignable lib address (sql_eq current.assigned_vm_id vm) current now db ≡ ok tt
        → is_main current.status ≡ false
    unfolding check_assignable
    assignable_unprotected address vm current now db w e =
        elim (Bool-cases (is_main current.status)) [
          | inl host_row ↦
              let mine : sql_eq current.assigned_vm_id vm ≡ false =
                ground (arith, host_row, w.consistent) in
              absurd (ground (arith, host_row, mine))
          | inr other ↦ other
        ]

    kept_given :
        (address vm : String) (primary : Bool) (family : AddressFamily) (now : ℕ)
        (rows : List (IpAddressRecord V))
        → All (λ r. has_address address r ≡ true → is_main r.status ≡ false) rows
        → any (is_host host) rows ≡ true
        → any (is_host host) (
            update_where
              (has_address address)
              (give vm primary now)
              (cleared vm family primary now rows))
          ≡ true
    kept_given address vm false family now rows k h =
        any-update_where (is_host host) (has_address address) (give vm false now) rows
          (All-mono (λ r. has_address address r ≡ true → is_main r.status ≡ false)
            (λ r.
              is_host host r ≡ true
              → has_address address r ≡ true
              → is_host host (give vm false now r) ≡ true)
            rows (λ r w g l. absurd (ground (arith, g, w l))) k)
          h
    kept_given address vm true family now rows k h =
        let rows' = cleared vm family true now rows in
        any-update_where (is_host host) (has_address address) (give vm true now) rows'
          (All-mono (λ r. has_address address r ≡ true → is_main r.status ≡ false)
            (λ r.
              is_host host r ≡ true
              → has_address address r ≡ true
              → is_host host (give vm true now r) ≡ true)
            rows' (λ r w g l. absurd (ground (arith, g, w l)))
            (All-update_where (λ r. has_address address r ≡ true → is_main r.status ≡ false)
              (λ r. has_address address r ≡ true → is_main r.status ≡ false) (is_rival vm family)
              (unset_primary now) rows (λ r w g. w) (λ r w g. w) k))
          (any-update_where (is_host host) (is_rival vm family) (unset_primary now) rows
            (All-true
              (λ r.
                is_host host r ≡ true
                → is_rival vm family r ≡ true
                → is_host host (unset_primary now r) ≡ true)
              rows (λ r g l. g))
            h)

    pub assign_ip-Keeps :
        (value vm : String) (primary : Bool) (now : ℕ) (db : Inventory V) {r : IpAddressRecord V}
        {db' : Inventory V}
        → assign_ip lib value vm primary now db ≡ ok (r, db')
        → Keeps lib host db.addresses db'.addresses
    assign_ip-Keeps value vm primary now db e v =
        let (address, c, current, found, allowed, table) =
          assign_ip-ok lib value vm primary now db e in
        let (a, parsed) = canonical_ip-parse lib value c in
        let (w, named) = All-find? (IsRow lib) (is_named address) db.addresses v.each found in
        let other = assignable_unprotected address vm current now db w allowed in
        let none_host =
          unprotected lib host address a db.addresses parsed v (ground (arith, found, other)) in
        rw table (
          IsValid-assigned lib address vm primary now a db.addresses parsed found v,
          λ h. kept_given address vm primary current.family now db.addresses none_host h,
        )

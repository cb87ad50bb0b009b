-- ===== src/Addresses/Insert/Written.antt =====
-- The row that an insertion or a replacement writes, and the table after it.
use vexa_vm.Common.{
  ℕ, ◌≡◌, Bool, String, false, none, List, [], ◌∷◌, ◌++◌, arith, str_eq, eq_iff, eq_refl, any,
  update_where, Bool-cases, Option-cases, inl, inr,
}
use vexa_vm.Error.{ok}
use vexa_vm.Db.Rows.{All-true, All-mono, All-both, All-append, All-update_where, any-All}
use vexa_vm.Protocol.{IpAddr}
use vexa_vm.Addresses.{
  family_for_ip, is_used, IpLibrary, Json, IpAddressRecord, Inventory, query_ip_address,
}
use vexa_vm.Addresses.Insert.{
  NewIpAddress, overwrite, row_id, check_existing, insert_or_update, prepare,
}
use vexa_vm.Addresses.Valid.{Apart, IsRow, IsValid, updated, AreApart-update, AreApart-append}

module _ {V : Type 0} where
  -- What the source calls a conflict leaves the row free of a VM.
  pub record IsUnassigned (r : IpAddressRecord V) : Type 0 where
    pub no_vm : r.assigned_vm_id ≡ none
    pub not_primary : r.primary_for_vm ≡ false
    pub not_used : is_used r.status ≡ false

  module _ {N : Type 0} (lib : IpLibrary N) (json : Json V) (digits : ℕ → String) where
    pub prepare-row :
        (spec : NewIpAddress V) (preserve : Bool) (id : String) (now : ℕ) (db : Inventory V)
        {row : IpAddressRecord V}
        → prepare lib json digits spec preserve id now db ≡ ok row
        → (a : IpAddr) × (row.address ≡ lib.print a)
          × (family_for_ip a ≡ row.family)
          × (row.id ≡ row_id id (query_ip_address row.address db))
          × (check_existing row.address row.status (query_ip_address row.address db) ≡ ok tt)
          × IsUnassigned row
    unfolding prepare
    prepare-row spec preserve id now db {row} e = elim (Option-cases (lib.parse spec.address)) [
      | inl bad ↦ absurd (ground (arith, bad))
      | inr (a, parsed) ↦
          let address : row.address ≡ lib.print a = ground (arith, parsed) in
          let family : family_for_ip a ≡ row.family = ground (arith, parsed) in
          let same_id : row.id ≡ row_id id (query_ip_address row.address db) =
            ground (arith, parsed) in
          let allowed : check_existing row.address row.status (query_ip_address row.address db)
              ≡ ok tt =
            ground (arith, parsed) in
          (
            a,
            address,
            family,
            same_id,
            allowed,
            record {
              no_vm = ground (arith, parsed);
              not_primary = ground (arith, parsed);
              not_used = ground (arith, parsed);
            },
          )
    ]

  Apart-overwritten :
      (row r s : IpAddressRecord V)
      → row.primary_for_vm ≡ false
      → Apart r s
      → Apart
          (updated (λ q. str_eq q.address row.address) (overwrite row) r)
          (updated (λ q. str_eq q.address row.address) (overwrite row) s)
  Apart-overwritten row r s p d = elim (Bool-cases (str_eq r.address row.address)) [
    | inl hit ↦ elim (Bool-cases (str_eq s.address row.address)) [
      | inl both ↦ absurd (
          ground (
            arith,
            d.1,
            eq_iff r.address row.address,
            eq_iff s.address row.address,
            eq_refl r.address,
            hit,
            both,
          ))
      | inr one ↦
          rw (hit, one)
            (
              d.0,
              ground (arith, one, eq_iff row.address s.address, eq_refl s.address),
              ground (arith, p),
            )
    ]
    | inr miss ↦ elim (Bool-cases (str_eq s.address row.address)) [
      | inl one ↦ rw (miss, one) (d.0, miss, ground (arith, p))
      | inr no_one ↦ rw (miss, no_one) d
    ]
  ]

  module _ {N : Type 0} (lib : IpLibrary N) where
    pub IsValid-written :
        (row : IpAddressRecord V) (rows : List (IpAddressRecord V))
        {rows' : List (IpAddressRecord V)}
        → insert_or_update row rows ≡ ok rows'
        → IsRow lib row
        → row.primary_for_vm ≡ false
        → IsValid lib rows
        → IsValid lib rows'
    unfolding insert_or_update
    IsValid-written row rows {rows'} e w p v =
        let here = λ (r : IpAddressRecord V). str_eq r.address row.address in
        elim (Bool-cases (any here rows)) [
          | inl old ↦
              let table : update_where here (overwrite row) rows ≡ rows' = ground (arith, old) in
              rw (← table) (record {
                each =
                    All-update_where (IsRow lib) (IsRow lib) here (overwrite row) rows
                      (λ r u h. record {
                        number = w.number;
                        unlike = u.unlike;
                        consistent = w.consistent;
                      })
                      (λ r u h. u) v.each;
                apart =
                    AreApart-update (λ r. Unit {0}) here (overwrite row) rows
                      (λ r s k l d. Apart-overwritten row r s p d)
                      (All-true (λ r. Unit {0}) rows (λ r. tt)) v.apart;
              })
          | inr fresh ↦
              let table : rows ++ row ∷ [] ≡ rows' = ground (arith, fresh) in
              let new_id : any (λ r. str_eq r.id row.id) rows ≡ false = ground (arith, fresh) in
              rw (← table) (record {
                each = All-append (IsRow lib) rows row v.each w;
                apart =
                    AreApart-append rows row
                      (All-mono
                        (λ s. (str_eq s.id row.id ≡ false) × (str_eq s.address row.address ≡ false))
                        (λ s. Apart s row) rows (λ s k. (k.0, k.1, ground (arith, p)))
                        (All-both (λ s. str_eq s.id row.id ≡ false)
                          (λ s. str_eq s.address row.address ≡ false) rows
                          (any-All (λ r. str_eq r.id row.id) rows new_id)
                          (any-All here rows fresh)))
                      v.apart;
              })
        ]

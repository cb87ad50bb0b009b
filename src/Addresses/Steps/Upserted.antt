-- ===== src/Addresses/Steps/Upserted.antt =====
-- What an upsert of an address keeps.
use vexa_vm.Common.{
  ℕ, ◌≡◌, refl, ap, ◌∙◌, Bool, String, true, false, Option, none, some, List, [], ◌∷◌, ◌++◌, arith,
  str_eq, eq_iff, eq_refl, any, update_where, Bool-cases, Option-cases, inl, inr,
}
use vexa_vm.Error.{ok, Result-cases}
use vexa_vm.Db.{IpStatus}
use vexa_vm.Db.Rows.{All, All-true, All-mono, All-find?}
use vexa_vm.Addresses.{
  is_main, IpLibrary, Json, IpAddressRecord, Inventory, is_named, query_ip_address,
}
use vexa_vm.Addresses.Assign.{has_address, is_protected}
use vexa_vm.Addresses.Insert.{
  NewIpAddress, overwrite, row_id, check_existing, insert_or_update, prepare,
  upsert_ip_address_with_policy,
}
use vexa_vm.Addresses.Insert.Written.{IsUnassigned, prepare-row, IsValid-written}
use vexa_vm.Db.Found.{any-update_where, any-append}
use vexa_vm.Addresses.Steps.Kept.{is_host, Keeps, unprotected}
use vexa_vm.Addresses.Valid.{is_consistent, IsRow, IsValid}

module _ {V N : Type 0} (lib : IpLibrary N) (json : Json V) (digits : ℕ → String)
    (host : String) where
  upsert-parts :
      (spec : NewIpAddress V) (preserve : Bool) (id : String) (now : ℕ) (db : Inventory V)
      {r : IpAddressRecord V} {db' : Inventory V}
      → upsert_ip_address_with_policy lib json digits spec preserve id now db ≡ ok (r, db')
      → (row : IpAddressRecord V) × (prepare lib json digits spec preserve id now db ≡ ok row)
        × (insert_or_update row db.addresses ≡ ok db'.addresses)
  unfolding upsert_ip_address_with_policy
  upsert-parts spec preserve id now db {r} {db'} e =
      elim (Result-cases (prepare lib json digits spec preserve id now db)) [
        | inl (row, made) ↦ elim (Result-cases (insert_or_update row db.addresses)) [
          | inl (rows, put) ↦
              let same : rows ≡ db'.addresses = ground (arith, made, put) in
              (row, made, put ∙ ap ok same)
          | inr (e', bad) ↦ absurd (ground (arith, made, bad))
        ]
        | inr (e', bad) ↦ absurd (ground (arith, bad))
      ]

  row_id-unlike :
      (id : String) (key : String) (db : Inventory V)
      → lib.parse id ≡ none
      → IsValid lib db.addresses
      → lib.parse (row_id id (query_ip_address key db)) ≡ none
  row_id-unlike id key db e v = elim (Option-cases (query_ip_address key db)) [
    | inl absent ↦ rw absent e
    | inr (r, found) ↦
        rw found ((All-find? (IsRow lib) (is_named key) db.addresses v.each found).0.unlike)
  ]

  unassigned-consistent : (r : IpAddressRecord V) → IsUnassigned r → is_consistent r ≡ true
  unassigned-consistent r u = ground (arith, u.no_vm, u.not_primary, u.not_used)

  guarded :
      (address : String) (status : IpStatus) (o : Option (IpAddressRecord V))
      → check_existing address status o ≡ ok tt
      → is_main status ≡ false
      → is_protected o ≡ false
  unfolding check_existing
  guarded address status none e h = refl
  guarded address status (some r) e h = ground arith

  kept_written :
      (row : IpAddressRecord V) (rows : List (IpAddressRecord V)) {rows' : List (IpAddressRecord V)}
      → insert_or_update row rows ≡ ok rows'
      → All
          (λ r.
            is_host host r ≡ true → str_eq r.address row.address ≡ true → is_main row.status ≡ true)
          rows
      → any (is_host host) rows ≡ true
      → any (is_host host) rows' ≡ true
  unfolding insert_or_update
  kept_written row rows {rows'} e k h =
      let there = λ (r : IpAddressRecord V). str_eq r.address row.address in
      elim (Bool-cases (any there rows)) [
        | inl old ↦
            let table : update_where there (overwrite row) rows ≡ rows' = ground (arith, old) in
            rw (← table) (
              any-update_where (is_host host) there (overwrite row) rows
                (All-mono
                  (λ r.
                    is_host host r ≡ true
                    → str_eq r.address row.address ≡ true
                    → is_main row.status ≡ true)
                  (λ r.
                    is_host host r ≡ true → there r ≡ true → is_host host (overwrite row r) ≡ true)
                  rows
                  (λ r w g l. ground (
                    arith,
                    g,
                    w g l,
                    eq_iff r.address row.address,
                    eq_iff r.address host,
                    l,
                    eq_refl host,
                  ))
                  k)
                h)
        | inr fresh ↦
            let table : rows ++ row ∷ [] ≡ rows' = ground (arith, fresh) in
            rw (← table) (any-append (is_host host) rows row h)
      ]

  pub upsert-Keeps :
      (spec : NewIpAddress V) (preserve : Bool) (id : String) (now : ℕ) (db : Inventory V)
      {r : IpAddressRecord V} {db' : Inventory V}
      → lib.parse id ≡ none
      → upsert_ip_address_with_policy lib json digits spec preserve id now db ≡ ok (r, db')
      → Keeps lib host db.addresses db'.addresses
  upsert-Keeps spec preserve id now db u e v =
      let (row, made, put) = upsert-parts spec preserve id now db e in
      let (a, is, family, same_id, allowed, free_of_vm) =
        prepare-row lib json digits spec preserve id now db made in
      let parsed : lib.parse row.address ≡ some a = rw is (lib.parse-print a) in
      let w : IsRow lib row = record {
        number = (a, parsed, family);
        unlike = rw same_id (row_id-unlike id row.address db u v);
        consistent = unassigned-consistent row free_of_vm;
      } in
      (
        IsValid-written lib row db.addresses put w free_of_vm.not_primary v,
        kept_written row db.addresses put (elim (Bool-cases (is_main row.status)) [
          | inl to_main ↦
              All-true
                (λ r.
                  is_host host r ≡ true
                  → str_eq r.address row.address ≡ true
                  → is_main row.status ≡ true)
                db.addresses (λ r g l. to_main)
          | inr from_main ↦
              All-mono (λ r. has_address row.address r ≡ true → is_main r.status ≡ false)
                (λ r.
                  is_host host r ≡ true
                  → str_eq r.address row.address ≡ true
                  → is_main row.status ≡ true)
                db.addresses (λ r k g l. absurd (ground (arith, g, k l)))
                (unprotected lib host row.address a db.addresses parsed v (
                  guarded row.address row.status (query_ip_address row.address db) allowed
                    from_main))
        ]),
      )

-- ===== src/Addresses/Assign/Allowed.antt =====
-- When an address may be given to a VM, and what is then written.
use vexa_vm.Common.{
  ℕ, ◌≡◌, refl, ap, ◌∙◌, Bool, String, true, false, ◌&&◌, not, Option, none, some, List, [], ◌∷◌,
  arith, eq_refl, update_where, retain, Bool-cases, Option-cases, inl, inr,
}
use vexa_vm.Error.{ok, Result-cases}
use vexa_vm.Db.{used, sql_eq}
use vexa_vm.Db.Rows.{All, All-true, All-mono, All-find?, All-update_where}
use vexa_vm.Protocol.{IpAddr}
use vexa_vm.Addresses.{
  AddressFamily, family_for_ip, is_free, IpLibrary, IpPool, IpAddressRecord, BlacklistEntry,
  Inventory, canonical_ip, is_in_force, ip_is_blacklisted, is_named, query_ip_address,
  query_ip_pool,
}
use vexa_vm.Addresses.Assign.{
  check_pool, check_blacklist, check_assignable, has_address, is_rival, unset_primary, give,
  cleared, assign_ip,
}
use vexa_vm.Addresses.Assign.Inversion.{assign_ip-ok, assign_ip-reads}
use vexa_vm.Addresses.Valid.{IsRow, IsValid}
use vexa_vm.Addresses.Valid.Operations.{canonical_ip-parse, named-address, IsValid-assigned}

retain-update_where :
    {A : Type 0} (keep p : A → Bool) (f : A → A) (xs : List A)
    → ((x : A) → p x ≡ true → (keep x ≡ false) × (keep (f x) ≡ false))
    → retain keep (update_where p f xs) ≡ retain keep xs
retain-update_where keep p f [] h = refl
retain-update_where keep p f (x ∷ xs) h = elim (Bool-cases (p x)) [
  | inl hit ↦ rw (hit, (h x hit).0, (h x hit).1) (retain-update_where keep p f xs h)
  | inr miss ↦ rw (miss, retain-update_where keep p f xs h) refl
]

module _ {N : Type 0} (lib : IpLibrary N) where
  abbrev holds : Option N → IpAddr → Bool
  holds none a = false
  holds (some network) a = lib.contains network a

  -- The entry is in force for the family of the address, and its network has the address.
  abbrev pub blocks : IpAddr → ℕ → BlacklistEntry → Bool
  blocks a now e = is_in_force lib (family_for_ip a) now e && holds (lib.parse_network e.cidr) a

  not_blacklisted :
      (a : IpAddr) (now : ℕ) (es : List BlacklistEntry)
      → ip_is_blacklisted lib a now es ≡ ok false
      → All (λ e. blocks a now e ≡ false) es
  unfolding ip_is_blacklisted
  not_blacklisted a now [] h = tt
  not_blacklisted a now (e ∷ es) h = elim (Bool-cases (is_in_force lib (family_for_ip a) now e)) [
    | inl on ↦ elim (Option-cases (lib.parse_network e.cidr)) [
      | inl bad ↦ absurd (ground (arith, on, bad))
      | inr (network, parsed) ↦
          let outside : lib.contains network a ≡ false = ground (arith, on, parsed) in
          (rw (on, parsed) outside, not_blacklisted a now es (ground (arith, on, parsed, outside)))
    ]
    | inr off ↦ (rw off refl, not_blacklisted a now es (ground (arith, off)))
  ]

module _ {V : Type 0} where
  -- The address is in no pool, or in one that is enabled.
  abbrev pub IsOpen : Option String → Inventory V → Type 0
  IsOpen none db = Unit {0}
  IsOpen (some id) db = (p : IpPool) × (query_ip_pool id db ≡ some p) × (p.enabled ≡ true)

  pool-IsOpen :
      (address : String) (pool : Option String) (db : Inventory V)
      → check_pool address pool db ≡ ok tt
      → IsOpen pool db
  unfolding check_pool
  pool-IsOpen address none db h = tt
  pool-IsOpen address (some id) db h = elim (Option-cases (query_ip_pool id db)) [
    | inl absent ↦ absurd (ground (arith, absent))
    | inr (p, found) ↦ (p, found, ground (arith, found))
  ]

  module _ {N : Type 0} (lib : IpLibrary N) where
    blacklist_clear :
        (address : String) (a : IpAddr) (now : ℕ) (db : Inventory V)
        → lib.parse address ≡ some a
        → check_blacklist lib address now db ≡ ok tt
        → ip_is_blacklisted lib a now db.blacklist ≡ ok false
    unfolding check_blacklist
    blacklist_clear address a now db e h =
        elim (Result-cases (ip_is_blacklisted lib a now db.blacklist)) [
          | inl (b, done) ↦ let clear : b ≡ false = ground (arith, e, done) in done ∙ ap ok clear
          | inr (e', bad) ↦ absurd (ground (arith, e, bad))
        ]

    -- An address that is given to a VM that did not hold it was free, is in no disabled pool, and
    -- no entry of the blacklist that is in force has it.
    pub assign_ip-allowed :
        (value vm address : String) (primary : Bool) (now : ℕ) (db : Inventory V) (a : IpAddr)
        {r current : IpAddressRecord V} {db' : Inventory V}
        → canonical_ip lib value ≡ ok address
        → lib.parse address ≡ some a
        → query_ip_address address db ≡ some current
        → sql_eq current.assigned_vm_id vm ≡ false
        → assign_ip lib value vm primary now db ≡ ok (r, db')
        → (is_free current.status ≡ true)
          × IsOpen current.pool_id db
          × All (λ e. blocks lib a now e ≡ false) db.blacklist
    unfolding assign_ip check_assignable
    assign_ip-allowed value vm address primary now db a {r} {current} c parsed found other e =
        let pool : check_pool address current.pool_id db ≡ ok tt =
          ground (arith, c, found, other) in
        let black : check_blacklist lib address now db ≡ ok tt = ground (arith, c, found, other) in
        (
          ground (arith, c, found, other),
          pool-IsOpen address current.pool_id db pool,
          not_blacklisted lib a now db.blacklist (blacklist_clear address a now db parsed black),
        )

    abbrev pub is_elsewhere : String → String → IpAddressRecord V → Bool
    is_elsewhere address vm r = not (has_address address r) && not (sql_eq r.assigned_vm_id vm)

    kept_cleared :
        (address vm : String) (family : AddressFamily) (primary : Bool) (now : ℕ)
        (rows : List (IpAddressRecord V))
        → retain (is_elsewhere address vm) (cleared vm family primary now rows)
          ≡ retain (is_elsewhere address vm) rows
    kept_cleared address vm family false now rows = refl
    kept_cleared address vm family true now rows =
        retain-update_where (is_elsewhere address vm) (is_rival vm family) (unset_primary now) rows
          (λ r h. (ground (arith, h), ground (arith, h)))

    abbrev Given : String → String → Bool → IpAddressRecord V → Type 0
    Given address vm primary s =
        has_address address s ≡ true
        → (s.status ≡ used) × (s.assigned_vm_id ≡ some vm) × (s.primary_for_vm ≡ primary)

    All-Given :
        (address vm : String) (primary : Bool) (now : ℕ) (rows : List (IpAddressRecord V))
        → All
            (Given address vm primary)
            (update_where (has_address address) (give vm primary now) rows)
    All-Given address vm primary now rows =
        All-update_where (λ s. Unit {0}) (Given address vm primary) (has_address address)
          (give vm primary now) rows (λ s u h k. (refl, refl, refl))
          (λ s u h k. absurd (ground (arith, h, k))) (All-true (λ s. Unit {0}) rows (λ s. tt))

    -- In a valid table, an assignment that succeeds returns the row of the address, which the VM
    -- then holds, as its primary address or not, as was asked; every row with the address says so,
    -- and the rows of other addresses that the VM does not hold are untouched.
    pub assign_ip-assigns :
        (value vm : String) (primary : Bool) (now : ℕ) (db : Inventory V) {r : IpAddressRecord V}
        {db' : Inventory V}
        → IsValid lib db.addresses
        → assign_ip lib value vm primary now db ≡ ok (r, db')
        → (canonical_ip lib value ≡ ok r.address)
          × (r.status ≡ used)
          × (r.assigned_vm_id ≡ some vm)
          × (r.primary_for_vm ≡ primary)
          × All (λ s. has_address r.address s ≡ true → s.assigned_vm_id ≡ some vm) db'.addresses
          × (retain (is_elsewhere r.address vm) db'.addresses
              ≡ retain (is_elsewhere r.address vm) db.addresses)
    assign_ip-assigns value vm primary now db {r} {db'} v e =
        let (address, c, current, found, allowed, table) =
          assign_ip-ok lib value vm primary now db e in
        let (a, parsed) = canonical_ip-parse lib value c in
        let rows = cleared vm current.family primary now db.addresses in
        let valid : IsValid lib db'.addresses =
          rw table (IsValid-assigned lib address vm primary now a db.addresses parsed found v) in
        let given : All (Given address vm primary) db'.addresses =
          rw table (All-Given address vm primary now rows) in
        let read = assign_ip-reads lib value vm address primary now db c e in
        let (w, named) = All-find? (IsRow lib) (is_named address) db'.addresses valid.each read in
        let (g, named') =
          All-find? (Given address vm primary) (is_named address) db'.addresses given read in
        let is = named-address lib address a r parsed w named in
        let hit : has_address address r ≡ true = rw is (eq_refl address) in
        let rest =
          ap (retain (is_elsewhere address vm)) table
          ∙ retain-update_where (is_elsewhere address vm) (has_address address)
              (give vm primary now) rows (λ s h. (ground (arith, h), ground (arith, h)))
          ∙ kept_cleared address vm current.family primary now db.addresses in
        (
          rw is c,
          (g hit).0,
          (g hit).1,
          (g hit).2,
          rw is (
              All-mono (Given address vm primary)
                (λ s. has_address address s ≡ true → s.assigned_vm_id ≡ some vm) db'.addresses
                (λ s k h. (k h).1) given),
          rw is rest,
        )

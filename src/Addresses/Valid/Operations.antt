-- ===== src/Addresses/Valid/Operations.antt =====
-- What each operation on addresses keeps of the table.
use vexa_vm.Common.{
  ℕ, ◌≡◌, refl, sym, ap, ◌∙◌, Bool, String, true, false, Option, none, some, List, arith, str_eq,
  eq_iff, eq_refl, find?, update_where, retain, Bool-cases, Option-cases, inl, inr,
}
use vexa_vm.Error.{ok}
use vexa_vm.Db.{opt_eq, sql_eq}
use vexa_vm.Db.Rows.{All-true, All-mono, All-both, All-find?, All-retain, All-update_where}
use vexa_vm.Db.Text.{trim}
use vexa_vm.Protocol.{IpAddr}
use vexa_vm.Addresses.{
  AddressFamily, family_eq, family_for_ip, IpLibrary, IpAddressRecord, is_named, canonical_ip,
}
use vexa_vm.Addresses.Assign.{has_address, is_rival, unset_primary, give, cleared}
use vexa_vm.Addresses.Valid.{
  is_consistent, are_rivals, Apart, IsRow, IsValid, updated, AreApart-update, AreApart-quiet,
  AreApart-retain, IsQuiet,
}

module _ {N : Type 0} (lib : IpLibrary N) where
  pub canonical_ip-parse :
      (value : String) {address : String}
      → canonical_ip lib value ≡ ok address
      → (a : IpAddr) × (lib.parse address ≡ some a)
  unfolding canonical_ip
  canonical_ip-parse value {address} e = elim (Option-cases (lib.parse (trim value))) [
    | inl none_there ↦ absurd (ground (arith, none_there))
    | inr (a, found) ↦
        let same : lib.print a ≡ address = ground (arith, found) in
        (a, rw (← same) (lib.parse-print a))
  ]

str_eq_sym : (s t : String) → str_eq s t ≡ str_eq t s
str_eq_sym s t = ground (arith, eq_iff s t, eq_iff t s)

family_eq_sym : (f g : AddressFamily) → family_eq f g ≡ family_eq g f
family_eq_sym AddressFamily.v4 AddressFamily.v4 = refl
family_eq_sym AddressFamily.v4 AddressFamily.v6 = refl
family_eq_sym AddressFamily.v6 AddressFamily.v4 = refl
family_eq_sym AddressFamily.v6 AddressFamily.v6 = refl

holder_sym : (o : Option String) (vm : String) → opt_eq (some vm) o ≡ sql_eq o vm
holder_sym none vm = refl
holder_sym (some t) vm = str_eq_sym vm t

holder : (o : Option String) (vm : String) → opt_eq o (some vm) ≡ sql_eq o vm
holder none vm = refl
holder (some t) vm = refl

module _ {V N : Type 0} (lib : IpLibrary N) where
  -- A row that is found by an address has that address, since no id is one.
  pub named-address :
      (address : String) (a : IpAddr) (r : IpAddressRecord V)
      → lib.parse address ≡ some a
      → IsRow lib r
      → is_named address r ≡ true
      → r.address ≡ address
  named-address address a r e v h = elim (Bool-cases (str_eq r.id address)) [
    | inl same ↦
        let is : r.id ≡ address = ground (arith, eq_iff r.id address) in
        absurd (ground (arith, v.unlike, e, ap lib.parse is))
    | inr other ↦ ground (arith, eq_iff r.address address)
  ]

  -- Rows with one address have one family.
  same_family :
      (r s : IpAddressRecord V)
      → IsRow lib r
      → IsRow lib s
      → r.address ≡ s.address
      → r.family ≡ s.family
  same_family r s v w e =
      let (a, x, f) = v.number in
      let (b, y, g) = w.number in
      let same : some a ≡ some b = sym x ∙ ap lib.parse e ∙ y in
      let eq : a ≡ b = ground (arith, same) in sym f ∙ ap family_for_ip eq ∙ g

  -- An update that keeps what makes a row valid.
  abbrev pub Keeps : (IpAddressRecord V → IpAddressRecord V) → Type 0
  Keeps f =
      (r : IpAddressRecord V)
      → ((f r).id ≡ r.id) × ((f r).address ≡ r.address) × ((f r).family ≡ r.family)

  IsRow-update :
      (f : IpAddressRecord V → IpAddressRecord V) (r : IpAddressRecord V)
      → Keeps f
      → is_consistent (f r) ≡ true
      → IsRow lib r
      → IsRow lib (f r)
  IsRow-update f r k c v =
      let (a, x, g) = v.number in
      record {
        number = (a, ap lib.parse (k r).1 ∙ x, g ∙ sym (k r).2);
        unlike = ap lib.parse (k r).0 ∙ v.unlike;
        consistent = c;
      }

  pub IsValid-quiet :
      (p : IpAddressRecord V → Bool) (f : IpAddressRecord V → IpAddressRecord V)
      (rows : List (IpAddressRecord V))
      → Keeps f
      → IsQuiet f
      → ((r : IpAddressRecord V) → IsRow lib r → p r ≡ true → is_consistent (f r) ≡ true)
      → IsValid lib rows
      → IsValid lib (update_where p f rows)
  IsValid-quiet p f rows k q c v = record {
    each =
        All-update_where (IsRow lib) (IsRow lib) p f rows (λ r w h. IsRow-update f r k (c r w h) w)
          (λ r w h. w) v.each;
    apart = AreApart-quiet p f rows q v.apart;
  }

  pub IsValid-retain :
      (p : IpAddressRecord V → Bool) (rows : List (IpAddressRecord V))
      → IsValid lib rows
      → IsValid lib (retain p rows)
  IsValid-retain p rows v = record {
    each = All-retain (IsRow lib) p rows v.each;
    apart = AreApart-retain p rows v.apart;
  }

  -- A row that is not primary, if the VM has it in the family, is no rival of the one given.
  no_rival :
      (vm : String) (family : AddressFamily) (now : ℕ) (r s : IpAddressRecord V)
      → r.family ≡ family
      → (is_rival vm family s ≡ true → s.primary_for_vm ≡ false)
      → (are_rivals (give vm true now r) s ≡ false) × (are_rivals s (give vm true now r) ≡ false)
  no_rival vm family now r s e q = elim (Bool-cases (is_rival vm family s)) [
    | inl rival ↦ ground (arith, q rival)
    | inr other ↦ ground (
      arith,
      other,
      holder s.assigned_vm_id vm,
      holder_sym s.assigned_vm_id vm,
      e,
      family_eq_sym r.family s.family,
    )
  ]

  IsApart_given :
      (address vm : String) (family : AddressFamily) (now : ℕ) (r s : IpAddressRecord V)
      → (has_address address r ≡ true → r.family ≡ family)
        × (is_rival vm family r ≡ true → r.primary_for_vm ≡ false)
      → (has_address address s ≡ true → s.family ≡ family)
        × (is_rival vm family s ≡ true → s.primary_for_vm ≡ false)
      → Apart r s
      → Apart
          (updated (has_address address) (give vm true now) r)
          (updated (has_address address) (give vm true now) s)
  IsApart_given address vm family now r s k l d = elim (Bool-cases (has_address address r)) [
    | inl hit ↦ elim (Bool-cases (has_address address s)) [
      | inl both ↦ absurd (
          ground (
            arith,
            d.1,
            eq_iff r.address address,
            eq_iff s.address address,
            eq_refl r.address,
            hit,
            both,
          ))
      | inr one ↦ rw (hit, one) (d.0, d.1, (no_rival vm family now r s (k.0 hit) l.1).0)
    ]
    | inr miss ↦ elim (Bool-cases (has_address address s)) [
      | inl one ↦ rw (miss, one) (d.0, d.1, (no_rival vm family now s r (l.0 one) k.1).1)
      | inr no_one ↦ rw (miss, no_one) d
    ]
  ]

  pub IsValid-assigned :
      (address vm : String) (primary : Bool) (now : ℕ) (a : IpAddr)
      (rows : List (IpAddressRecord V)) {current : IpAddressRecord V}
      → lib.parse address ≡ some a
      → find? (is_named address) rows ≡ some current
      → IsValid lib rows
      → IsValid lib (
          update_where
            (has_address address)
            (give vm primary now)
            (cleared vm current.family primary now rows))
  IsValid-assigned address vm false now a rows {current} e found v =
      IsValid-quiet (has_address address) (give vm false now) rows (λ r. (refl, refl, refl))
        (λ r. (refl, refl, refl)) (λ r w h. refl) v
  IsValid-assigned address vm true now a rows {current} e found v =
      let family = current.family in
      let rows' = cleared vm family true now rows in
      let v' =
        IsValid-quiet (is_rival vm family) (unset_primary now) rows (λ r. (refl, refl, refl))
          (λ r. (refl, refl, refl)) (λ r w h. ground (arith, w.consistent)) v in
      let (w, named) = All-find? (IsRow lib) (is_named address) rows v.each found in
      let families =
        All-mono (IsRow lib) (λ r. has_address address r ≡ true → r.family ≡ family) rows'
          (λ r u h.
            same_family r current u w
              ((eq_iff r.address address).0 h ∙ sym (named-address address a current e w named)))
          v'.each in
      let quiet =
        All-update_where (λ r. Unit {0})
          (λ r. is_rival vm family r ≡ true → r.primary_for_vm ≡ false) (is_rival vm family)
          (unset_primary now) rows (λ r u h k. refl) (λ r u h k. absurd (ground (arith, h, k)))
          (All-true (λ r. Unit {0}) rows (λ r. tt)) in
      record {
        each =
            All-update_where (IsRow lib) (IsRow lib) (has_address address) (give vm true now) rows'
              (λ r u h. IsRow-update (give vm true now) r (λ q. (refl, refl, refl)) refl u)
              (λ r u h. u) v'.each;
        apart =
            AreApart-update
              (λ r.
                (has_address address r ≡ true → r.family ≡ family)
                × (is_rival vm family r ≡ true → r.primary_for_vm ≡ false))
              (has_address address) (give vm true now) rows'
              (λ r s k l d. IsApart_given address vm family now r s k l d)
              (All-both (λ r. has_address address r ≡ true → r.family ≡ family)
                (λ r. is_rival vm family r ≡ true → r.primary_for_vm ≡ false) rows' families quiet)
              v'.apart;
      }

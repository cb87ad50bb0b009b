-- ===== src/Addresses/Valid.antt =====
-- The addresses of the inventory agree with their parts and with one another.
pub mod Operations
use vexa_vm.Common.{
  ℕ, ◌≡◌, refl, sym, ap, ◌∙◌, Bool, String, true, false, ◌&&◌, ◌||◌, not, Option, none, some, List,
  [], ◌∷◌, ◌++◌, arith, if◌then◌else◌, str_eq, eq_iff, eq_refl, any, find?, update_where, retain,
  Bool-cases, Option-cases, inl, inr, ◌⊎◌,
}
use vexa_vm.Error.{Result, ok, err}
use vexa_vm.Db.{IpStatus, is_some, opt_eq, sql_eq}
use vexa_vm.Db.Rows.{
  All, All-true, All-mono, All-both, All-append, All-find?, All-retain, All-update_where, any-All,
}
use vexa_vm.Protocol.{IpAddr}
use vexa_vm.Addresses.{
  AddressFamily, family_eq, family_for_ip, is_used, IpLibrary, IpAddressRecord, is_named,
  canonical_ip,
}

module _ {V : Type 0} where
  abbrev pub is_consistent : IpAddressRecord V → Bool
  is_consistent r =
      (if is_used r.status then is_some r.assigned_vm_id else not (is_some r.assigned_vm_id))
      && (not r.primary_for_vm || is_some r.assigned_vm_id)

  -- Both are the primary address of one VM in one family.
  abbrev pub are_rivals : IpAddressRecord V → IpAddressRecord V → Bool
  are_rivals r s =
      r.primary_for_vm
      && s.primary_for_vm
      && family_eq r.family s.family
      && opt_eq r.assigned_vm_id s.assigned_vm_id

  abbrev pub Apart : IpAddressRecord V → IpAddressRecord V → Type 0
  Apart r s =
      (str_eq r.id s.id ≡ false) × (str_eq r.address s.address ≡ false) × (are_rivals r s ≡ false)

  abbrev pub AreApart : List (IpAddressRecord V) → Type 0
  AreApart [] = Unit {0}
  AreApart (r ∷ rs) = All (Apart r) rs × AreApart rs

  module _ {N : Type 0} (lib : IpLibrary N) where
    -- The address is one and has its family, the id is not an address, and the address is used
    -- exactly if a VM has it.
    pub record IsRow (r : IpAddressRecord V) : Type 0 where
      pub number : (a : IpAddr) × (lib.parse r.address ≡ some a) × (family_for_ip a ≡ r.family)
      pub unlike : lib.parse r.id ≡ none
      pub consistent : is_consistent r ≡ true

    -- Also, no two share an id or an address, and a VM has one primary address in a family at most.
    pub record IsValid (table : List (IpAddressRecord V)) : Type 0 where
      pub each : All IsRow table
      pub apart : AreApart table

  -- Where no two share an id, a row that is found is the only one with its id.
  pub alone_id :
      (p : IpAddressRecord V → Bool) (rows : List (IpAddressRecord V)) {r : IpAddressRecord V}
      → AreApart rows
      → find? p rows ≡ some r
      → All (λ s. str_eq s.id r.id ≡ true → s ≡ r) rows
  alone_id p [] a e = tt
  alone_id p (s ∷ rows) {r} a e = elim (Bool-cases (p s)) [
    | inl hit ↦
        let same : s ≡ r = ground arith in
        (
          λ k. same,
          All-mono (Apart s) (λ t. str_eq t.id r.id ≡ true → t ≡ r) rows
              (λ t k h. absurd (
                ground (
                  arith,
                  k.0,
                  h,
                  eq_iff t.id r.id,
                  eq_refl r.id,
                  ap (λ (q : IpAddressRecord V). q.id) same,
                )))
              a.0,
        )
    | inr miss ↦
        let later : find? p rows ≡ some r = rw miss at e in
        (
          λ k. absurd (
              ground (
                arith,
                k,
                eq_iff s.id r.id,
                eq_refl r.id,
                (All-find? (Apart s) p rows a.0 later).0.0,
              )),
          alone_id p rows a.1 later,
        )
  ]

  -- The same for addresses.
  pub alone_address :
      (p : IpAddressRecord V → Bool) (rows : List (IpAddressRecord V)) {r : IpAddressRecord V}
      → AreApart rows
      → find? p rows ≡ some r
      → All (λ s. str_eq s.address r.address ≡ true → s ≡ r) rows
  alone_address p [] a e = tt
  alone_address p (s ∷ rows) {r} a e = elim (Bool-cases (p s)) [
    | inl hit ↦
        let same : s ≡ r = ground arith in
        (
          λ k. same,
          All-mono (Apart s) (λ t. str_eq t.address r.address ≡ true → t ≡ r) rows
              (λ t k h. absurd (
                ground (
                  arith,
                  k.1,
                  h,
                  eq_iff t.address r.address,
                  eq_refl r.address,
                  ap (λ (q : IpAddressRecord V). q.address) same,
                )))
              a.0,
        )
    | inr miss ↦
        let later : find? p rows ≡ some r = rw miss at e in
        (
          λ k. absurd (
              ground (
                arith,
                k,
                eq_iff s.address r.address,
                eq_refl r.address,
                (All-find? (Apart s) p rows a.0 later).0.1,
              )),
          alone_address p rows a.1 later,
        )
  ]

  -- What an update makes of a row.
  abbrev pub updated :
      (IpAddressRecord V → Bool)
      → (IpAddressRecord V → IpAddressRecord V)
      → IpAddressRecord V
      → IpAddressRecord V
  updated p f r = if p r then f r else r

  All-updated :
      (P Q R : IpAddressRecord V → Type 0) (p : IpAddressRecord V → Bool)
      (f : IpAddressRecord V → IpAddressRecord V) (rows : List (IpAddressRecord V))
      → ((s : IpAddressRecord V) → P s → Q s → R (updated p f s))
      → All P rows
      → All Q rows
      → All R (update_where p f rows)
  All-updated P Q R p f [] h a b = tt
  All-updated P Q R p f (s ∷ rows) h a b = (h s a.0 b.0, All-updated P Q R p f rows h a.1 b.1)

  pub AreApart-update :
      (P : IpAddressRecord V → Type 0) (p : IpAddressRecord V → Bool)
      (f : IpAddressRecord V → IpAddressRecord V) (rows : List (IpAddressRecord V))
      → ((r s : IpAddressRecord V) → P r → P s → Apart r s → Apart (updated p f r) (updated p f s))
      → All P rows
      → AreApart rows
      → AreApart (update_where p f rows)
  AreApart-update P p f [] h a b = tt
  AreApart-update P p f (r ∷ rows) h a b = (
    All-updated P (Apart r) (Apart (updated p f r)) p f rows (λ s k l. h r s a.0 k l) a.1 b.0,
    AreApart-update P p f rows h a.1 b.1,
  )

  -- An update that keeps ids and addresses and makes no row primary.
  abbrev pub IsQuiet : (IpAddressRecord V → IpAddressRecord V) → Type 0
  IsQuiet f =
      (r : IpAddressRecord V)
      → ((f r).id ≡ r.id) × ((f r).address ≡ r.address) × ((f r).primary_for_vm ≡ false)

  pub AreApart-quiet :
      (p : IpAddressRecord V → Bool) (f : IpAddressRecord V → IpAddressRecord V)
      (rows : List (IpAddressRecord V))
      → IsQuiet f
      → AreApart rows
      → AreApart (update_where p f rows)
  AreApart-quiet p f rows q a =
      AreApart-update (λ r. Unit {0}) p f rows (λ r s k l d. ground (arith, q r, q s, d))
        (All-true (λ r. Unit {0}) rows (λ r. tt)) a

  pub AreApart-retain :
      (p : IpAddressRecord V → Bool) (rows : List (IpAddressRecord V))
      → AreApart rows
      → AreApart (retain p rows)
  AreApart-retain p [] a = tt
  AreApart-retain p (r ∷ rows) a = elim (Bool-cases (p r)) [
    | inl e ↦ rw e (All-retain (Apart r) p rows a.0, AreApart-retain p rows a.1)
    | inr e ↦ rw e (AreApart-retain p rows a.1)
  ]

  pub AreApart-append :
      (rows : List (IpAddressRecord V)) (r : IpAddressRecord V)
      → All (λ s. Apart s r) rows
      → AreApart rows
      → AreApart (rows ++ r ∷ [])
  AreApart-append [] r h a = (tt, tt)
  AreApart-append (s ∷ rows) r h a =
      (All-append (Apart s) rows r a.0 h.0, AreApart-append rows r h.1 a.1)

-- ===== src/Tokens/Once.antt =====
-- What an exchange leaves: no row that is open for the hash.
use vexa_vm.Common.{
  ℕ, ◌≡◌, ◌⊎◌, inl, inr, String, true, false, Option, none, some, List, [], ◌∷◌, arith, Bool-cases,
  Option-cases, ◌==◌, str_eq, eq_iff, eq_refl, find?, update_where,
}
use vexa_vm.Error.{ok}
use vexa_vm.Db.Rows.{All, All-mono, All-update_where, All-find?, All-true}
use vexa_vm.Tokens.{
  Link, CustomerToken, Tokens, Canonical, is_open, is_unconsumed, use_customer, session_end,
  exchange_customer_link,
}

-- Two rows of the table have neither one id nor one token hash.
abbrev pub Apart : Link → Link → Type 0
Apart k l = (str_eq l.id k.id ≡ false) × ((l.token_hash == k.token_hash) ≡ false)

abbrev pub AreApart : List CustomerToken → Type 0
AreApart [] = Unit {0}
AreApart (t ∷ ts) = All (λ u. Apart t.link u.link) ts × AreApart ts

-- The token that an open link leads to is the only one with its id and the only one with its hash.
abbrev pub IsAlone : ℕ → CustomerToken → CustomerToken → Type 0
IsAlone hash t u = (u ≡ t) ⊎ ((str_eq u.id t.id ≡ false) × ((u.token_hash == hash) ≡ false))

IsAlone-of_Apart :
    (hash now : ℕ) (u t v : CustomerToken)
    → is_open hash now u.link ≡ true
    → u ≡ t
    → Apart u.link v.link
    → IsAlone hash t v
IsAlone-of_Apart hash now u t v hit same k =
    let idf : str_eq v.id t.id ≡ false = rw (← same) k.0 in
    let h : u.token_hash ≡ hash = ground arith in inr (idf, rw (← h) k.1)

head-IsAlone :
    (hash now : ℕ) (u t : CustomerToken)
    → (Apart u.link t.link) × (is_open hash now t.link ≡ true)
    → IsAlone hash t u
head-IsAlone hash now u t k = inr (ground (arith, eq_iff u.id t.id, eq_iff t.id u.id), ground arith)

pub open-IsAlone :
    (hash now : ℕ) (ts : List CustomerToken) (t : CustomerToken)
    → AreApart ts
    → find? (λ u. is_open hash now u.link) ts ≡ some t
    → All (IsAlone hash t) ts
open-IsAlone hash now [] t a e = tt
open-IsAlone hash now (u ∷ us) t a e = elim (Bool-cases (is_open hash now u.link)) [
  | inl hit ↦
      let same : u ≡ t = ground arith in
      (
        inl same,
        All-mono (λ v. Apart u.link v.link) (IsAlone hash t) us
            (λ v k. IsAlone-of_Apart hash now u t v hit same k) a.0,
      )
  | inr miss ↦
      let found = rw miss at e in
      (
        head-IsAlone hash now u t
            (All-find? (λ v. Apart u.link v.link) (λ v. is_open hash now v.link) us a.0 found),
        open-IsAlone hash now us t a.1 found,
      )
]

-- A row that no exchange of the hash can open, at whatever time.
abbrev pub IsClosed : ℕ → CustomerToken → Type 0
IsClosed hash u = (now : ℕ) → is_open hash now u.link ≡ false

pub opens :
    (hash now : ℕ) (ts : List CustomerToken) {t : CustomerToken}
    → find? (λ u. is_open hash now u.link) ts ≡ some t
    → is_open hash now t.link ≡ true
opens hash now ts e =
    (All-find? (λ u. Unit {0}) (λ u. is_open hash now u.link) ts
      (All-true (λ u. Unit {0}) ts (λ u. tt)) e).1

IsClosed-hit :
    (hash session now until : ℕ) (t u : CustomerToken)
    → IsAlone hash t u
    → is_unconsumed t.id u.link ≡ true
    → IsClosed hash (use_customer session now until u)
IsClosed-hit hash session now until t u k p later = ground arith

IsClosed-miss :
    (hash now : ℕ) (t u : CustomerToken)
    → is_open hash now t.link ≡ true
    → IsAlone hash t u
    → is_unconsumed t.id u.link ≡ false
    → IsClosed hash u
IsClosed-miss hash now t u open_ (inl same) p later =
    let p' : is_unconsumed t.id t.link ≡ false = rw same at p in ground (arith, eq_refl t.id)
IsClosed-miss hash now t u open_ (inr other) p later = ground (arith, other.1)

pub exchange-IsClosed :
    (hash session now until : ℕ) (ts : List CustomerToken) (t : CustomerToken)
    → AreApart ts
    → find? (λ u. is_open hash now u.link) ts ≡ some t
    → All
        (IsClosed hash)
        (update_where (λ u. is_unconsumed t.id u.link) (use_customer session now until) ts)
exchange-IsClosed hash session now until ts t a e =
    All-update_where (IsAlone hash t) (IsClosed hash) (λ u. is_unconsumed t.id u.link)
      (use_customer session now until) ts (IsClosed-hit hash session now until t)
      (λ u. IsClosed-miss hash now t u (opens hash now ts e)) (open-IsAlone hash now ts t a e)

module _ (canonical : Canonical) where
  -- An exchange of a hash that no row is open for.
  pub closed_exchange :
      (hash session : ℕ) (source : Option String) (now ttl : ℕ) (db : Tokens)
      {o : Option CustomerToken} {db' : Tokens}
      → find? (λ u. is_open hash now u.link) db.customer ≡ none
      → exchange_customer_link canonical hash session source now ttl db ≡ ok (o, db')
      → (o ≡ none) × (db' ≡ db)
  unfolding exchange_customer_link
  closed_exchange hash session source now ttl db none_open e = ground arith

  -- After an exchange no row is open for its hash, at whatever time.
  pub after_exchange :
      (hash session : ℕ) (source : Option String) (now ttl : ℕ) (db : Tokens) {t : CustomerToken}
      {db' : Tokens}
      → AreApart db.customer
      → exchange_customer_link canonical hash session source now ttl db ≡ ok (some t, db')
      → All (IsClosed hash) db'.customer
  unfolding exchange_customer_link
  after_exchange hash session source now ttl db {t} {db'} a e =
      elim (Option-cases (find? (λ u. is_open hash now u.link) db.customer)) [
        | inl none_open ↦ absurd (ground arith)
        | inr (t0, found) ↦
            let same : db'.customer
                ≡ update_where (λ u. is_unconsumed t0.id u.link)
                    (use_customer session now (session_end t0.expires_at now ttl)) db.customer =
              ground arith in
            rw same (
              exchange-IsClosed hash session now (session_end t0.expires_at now ttl) db.customer t0
                a found)
      ]

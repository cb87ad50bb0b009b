-- ===== src/Tokens/Steps/Changes.antt =====
-- How a step changes the table of customer tokens.
use vexa_vm.Common.{
  ℕ, ◌≡◌, refl, String, Bool, false, ◌&&◌, ◌||◌, not, Option, some, List, [], ◌∷◌, ◌++◌, arith,
  Bool-cases, Option-cases, inl, inr, ◌==◌, str_eq, any, find?, update_where, retain,
}
use vexa_vm.Error.{ok, Result-cases}
use vexa_vm.Db.{require_changed}
use vexa_vm.Tokens.{
  is_open, session_end, is_bound_elsewhere, is_unconsumed, use_customer, opt_num_eq, Link,
  CustomerToken, Tokens, Canonical, canonical_optional_ip, links_of, is_session, is_prunable,
  is_live_session, revoke, create_customer_link, exchange_customer_link,
  authenticate_customer_session, create_vnc_link, exchange_vnc_link, revoke_customer_token_for_vm,
  revoke_customer_session, revoke_vm_vnc_tokens, revoke_vnc_session, prune_expired_tokens,
}
use vexa_vm.Tokens.Steps.{
  Step, create_customer, exchange_customer, authenticate_customer, create_vnc, exchange_vnc,
  revoke_customer, end_customer_session, revoke_vm, end_vnc_session, prune,
}

-- An update keeps the identity of a token.
abbrev pub Keeps : (CustomerToken → CustomerToken) → Type 0
Keeps f = (t : CustomerToken) → ((f t).id ≡ t.id) × ((f t).token_hash ≡ t.token_hash)

-- An update opens no row that was closed.
abbrev pub IsClosing : (CustomerToken → CustomerToken) → Type 0
IsClosing f =
    (u : CustomerToken) (hash now : ℕ)
    → is_open hash now u.link ≡ false
    → is_open hash now (f u).link ≡ false

pub data Change (ts : List CustomerToken) : List CustomerToken → Type 0 where
  unchanged : Change ts ts
  updated :
      (p : CustomerToken → Bool) (f : CustomerToken → CustomerToken)
      → Keeps f
      → IsClosing f
      → Change ts (update_where p f ts)
  removed : (p : CustomerToken → Bool) → Change ts (retain p ts)

module _ (canonical : Canonical) where
  pub create-added :
      (vm : String) (hash : ℕ) (scopes : List String) (bound : Option String) (expires : ℕ)
      (id : String) (now : ℕ) (db : Tokens) {t : CustomerToken} {db' : Tokens}
      → create_customer_link canonical vm hash scopes bound expires id now db ≡ ok (t, db')
      → (db'.customer ≡ db.customer ++ t ∷ [])
        × (any (λ k. str_eq k.id t.id || k.token_hash == t.token_hash) (links_of db.customer)
            ≡ false)
        × (t.token_hash ≡ hash)
  unfolding create_customer_link
  create-added vm hash scopes bound expires id now db {t} {db'} e =
      (ground arith, ground arith, ground arith)

  exchange-change :
      (hash session : ℕ) (source : Option String) (now ttl : ℕ) (db : Tokens)
      {o : Option CustomerToken} {db' : Tokens}
      → exchange_customer_link canonical hash session source now ttl db ≡ ok (o, db')
      → Change db.customer db'.customer
  unfolding exchange_customer_link
  exchange-change hash session source now ttl db {o} {db'} e =
      elim (Option-cases (find? (λ u. is_open hash now u.link) db.customer)) [
        | inl none_open ↦ let same : db' ≡ db = ground arith in rw same unchanged
        | inr (t, found) ↦
            let until = session_end t.expires_at now ttl in
            elim (Result-cases (canonical_optional_ip canonical source)) [
              | inl (address, valid) ↦ elim (Bool-cases (is_bound_elsewhere t.bound_ip address)) [
                | inl elsewhere ↦ let same : db' ≡ db = ground arith in rw same unchanged
                | inr free ↦
                    let table : db'.customer
                        ≡ update_where (λ u. is_unconsumed t.id u.link)
                            (use_customer session now until) db.customer =
                      ground arith in
                    rw table (
                      updated (λ u. is_unconsumed t.id u.link) (use_customer session now until)
                        (λ u. (refl, refl)) (λ u hash' now' c. ground (arith, c)))
              ]
              | inr (e', invalid) ↦ absurd (ground arith)
            ]
      ]

  authenticate-change :
      (session : ℕ) (source : Option String) (now : ℕ) (db : Tokens) {o : Option CustomerToken}
      {db' : Tokens}
      → authenticate_customer_session canonical session source now db ≡ ok (o, db')
      → Change db.customer db'.customer
  unfolding authenticate_customer_session
  authenticate-change session source now db {o} {db'} e =
      elim (Result-cases (canonical_optional_ip canonical source)) [
        | inl (address, valid) ↦
            elim (Option-cases (find? (λ t. is_session session address now t.link) db.customer)) [
              | inl gone ↦ let same : db' ≡ db = ground arith in rw same unchanged
              | inr (t, seen) ↦
                  let table : db'.customer
                      ≡ update_where (λ u. opt_num_eq u.session_hash session)
                          (λ u. record u { last_used_at = some now }) db.customer =
                    ground arith in
                  rw table (
                    updated (λ u. opt_num_eq u.session_hash session)
                      (λ u. record u { last_used_at = some now }) (λ u. (refl, refl))
                      (λ u hash' now' c. ground (arith, c)))
            ]
        | inr (e', invalid) ↦ absurd (ground arith)
      ]

  create_vnc-customer :
      (vm : String) (hash : ℕ) (bound : Option String) (created : ℕ) (id : String) (db : Tokens)
      {l : Link} {db' : Tokens}
      → create_vnc_link canonical vm hash bound created id db ≡ ok (l, db')
      → db'.customer ≡ db.customer
  unfolding create_vnc_link
  create_vnc-customer vm hash bound created id db e = ground arith

  exchange_vnc-customer :
      (hash session : ℕ) (source : Option String) (now : ℕ) (db : Tokens) {o : Option Link}
      {db' : Tokens}
      → exchange_vnc_link canonical hash session source now db ≡ ok (o, db')
      → db'.customer ≡ db.customer
  unfolding exchange_vnc_link
  exchange_vnc-customer hash session source now db e = ground arith

  revoke-change :
      (vm id : String) (now : ℕ) (db : Tokens) {db' : Tokens}
      → revoke_customer_token_for_vm vm id now db ≡ ok db'
      → Change db.customer db'.customer
  unfolding revoke_customer_token_for_vm require_changed
  revoke-change vm id now db {db'} e =
      let table : db'.customer
          ≡ update_where (λ t. str_eq t.id id && str_eq t.vm_id vm)
              (λ t. record t { link = revoke now t.link }) db.customer =
        ground arith in
      rw table (
        updated (λ t. str_eq t.id id && str_eq t.vm_id vm)
          (λ t. record t { link = revoke now t.link }) (λ u. (refl, refl))
          (λ u hash' now' c. ground (arith, c)))

  -- Every step but a creation.
  abbrev pub IsChange : {db db' : Tokens} → Step canonical db db' → Type 0
  IsChange (create_customer vm hash scopes bound expires id now e) = Unit {0}
  IsChange {db} {db'} _ = Change db.customer db'.customer

  pub Step-IsChange : {db db' : Tokens} (step : Step canonical db db') → IsChange step
  unfolding revoke_customer_session revoke_vm_vnc_tokens revoke_vnc_session prune_expired_tokens
  Step-IsChange (create_customer vm hash scopes bound expires id now e) = tt
  Step-IsChange {db} (exchange_customer hash session source now ttl e) =
      exchange-change hash session source now ttl db e
  Step-IsChange {db} (authenticate_customer session source now e) =
      authenticate-change session source now db e
  Step-IsChange {db} (create_vnc vm hash bound created id e) =
      rw (create_vnc-customer vm hash bound created id db e) unchanged
  Step-IsChange {db} (exchange_vnc hash session source now e) =
      rw (exchange_vnc-customer hash session source now db e) unchanged
  Step-IsChange {db} (revoke_customer vm id now e) = revoke-change vm id now db e
  Step-IsChange {db} (end_customer_session session now) =
      updated (λ t. is_live_session session t.link) (λ t. record t { link = revoke now t.link })
        (λ u. (refl, refl)) (λ u hash' now' c. ground (arith, c))
  Step-IsChange {db} (revoke_vm vm now) = unchanged
  Step-IsChange {db} (end_vnc_session session now) = unchanged
  Step-IsChange {db} (prune now) = removed (λ t. not (is_prunable now t.link))

-- ===== src/Tokens/Prune.antt =====
-- What a deletion of expired tokens, and a revocation, mean for a session.
use vexa_vm.Common.{
  ℕ, ◌≤◌, ◌≡◌, String, true, false, not, Option, none, arith, find?, Option-cases, inl, inr, ap,
}
use vexa_vm.Error.{AppResult, ok, err, Result-cases}
use vexa_vm.Db.Rows.{All-update_where, All-true, find?-none, find?-retain}
use vexa_vm.Tokens.{
  Link, CustomerToken, Tokens, Canonical, canonical_optional_ip, is_session, is_prunable,
  is_live_session, revoke, authenticate_customer_session, authenticate_vnc_session,
  prune_expired_tokens, revoke_customer_session,
}

prunable-ended :
    (session : ℕ) (source : Option String) (now now' : ℕ) (l : Link)
    → now ≤ now'
    → not (is_prunable now l) ≡ false
    → is_session session source now' l ≡ false
prunable-ended session source now now' l h p = ground arith

-- The token, or none, or the error, that an authentication answers with.
abbrev pub answer : AppResult (Option CustomerToken × Tokens) → AppResult (Option CustomerToken)
answer r = elim r [ ok p ↦ ok p.0 | err e ↦ err e ]

module _ (canonical : Canonical) where
  found_alike :
      (session : ℕ) (source : Option String) (now : ℕ) (db db' : Tokens) {address : Option String}
      → canonical_optional_ip canonical source ≡ ok address
      → find? (λ t. is_session session address now t.link) db.customer
        ≡ find? (λ t. is_session session address now t.link) db'.customer
      → answer (authenticate_customer_session canonical session source now db)
        ≡ answer (authenticate_customer_session canonical session source now db')
  unfolding authenticate_customer_session
  found_alike session source now db db' {address} valid same =
      elim (Option-cases (find? (λ t. is_session session address now t.link) db'.customer)) [
        | inl gone ↦ ground arith
        | inr (t, seen) ↦ ground arith
      ]

  no_session :
      (session : ℕ) (source : Option String) (now : ℕ) (db : Tokens) {o : Option CustomerToken}
      {db' : Tokens}
      → ((address : Option String)
          → find? (λ t. is_session session address now t.link) db.customer ≡ none)
      → authenticate_customer_session canonical session source now db ≡ ok (o, db')
      → (o ≡ none) × (db' ≡ db)
  unfolding authenticate_customer_session
  no_session session source now db gone e =
      elim (Result-cases (canonical_optional_ip canonical source)) [
        | inl (address, valid) ↦ ground (arith, gone address)
        | inr (e', invalid) ↦ absurd (ground arith)
      ]

  -- A prune at `now` deletes no row that a session could still need: an authentication at that time
  -- or later, of a customer or of a VNC session, answers what it would have answered without it.
  pub authenticate-prune :
      (now now' session : ℕ) (source : Option String) (db : Tokens)
      → now ≤ now'
      → (answer (
            authenticate_customer_session canonical session source now'
              (prune_expired_tokens now db).1)
          ≡ answer (authenticate_customer_session canonical session source now' db))
        × (authenticate_vnc_session canonical session source now' (prune_expired_tokens now db).1
            ≡ authenticate_vnc_session canonical session source now' db)
  unfolding prune_expired_tokens authenticate_customer_session authenticate_vnc_session
  authenticate-prune now now' session source db h =
      elim (Result-cases (canonical_optional_ip canonical source)) [
        | inl (address, valid) ↦
            let customer =
              find?-retain (λ t. is_session session address now' t.link)
                (λ t. not (is_prunable now t.link)) db.customer
                (λ t. prunable-ended session address now now' t.link h) in
            let vnc =
              find?-retain (is_session session address now') (λ l. not (is_prunable now l)) db.vnc
                (λ l. prunable-ended session address now now' l h) in
            (
              found_alike session source now' (prune_expired_tokens now db).1 db valid customer,
              rw valid (ap (λ o. ok o) vnc),
            )
        | inr (e, invalid) ↦ (rw invalid, rw invalid)
      ]

  revoked-ended :
      (session now : ℕ) (source : Option String) (now' : ℕ) (t : CustomerToken)
      → is_live_session session t.link ≡ true
      → is_session session source now' (revoke now t.link) ≡ false
  revoked-ended session now source now' t h = ground arith

  not_live :
      (session : ℕ) (source : Option String) (now : ℕ) (t : CustomerToken)
      → is_live_session session t.link ≡ false
      → is_session session source now t.link ≡ false
  not_live session source now t h = ground arith

  -- After a revocation of a session, no authentication of it gives a token, at whatever time and
  -- from whatever address.
  pub authenticate-revoke :
      (session now : ℕ) (source : Option String) (now' : ℕ) (db : Tokens) {o : Option CustomerToken}
      {db' : Tokens}
      → authenticate_customer_session canonical session source now'
          (revoke_customer_session session now db).1
        ≡ ok (o, db')
      → (o ≡ none) × (db' ≡ (revoke_customer_session session now db).1)
  unfolding revoke_customer_session authenticate_customer_session
  authenticate-revoke session now source now' db e =
      no_session session source now' (revoke_customer_session session now db).1
        (λ address.
          find?-none (λ t. is_session session address now' t.link)
            (revoke_customer_session session now db).1.customer
            (All-update_where (λ t. Unit {0}) (λ t. is_session session address now' t.link ≡ false)
              (λ t. is_live_session session t.link) (λ t. record t { link = revoke now t.link })
              db.customer (λ t u. revoked-ended session now address now' t)
              (λ t u. not_live session address now' t)
              (All-true (λ t. Unit {0}) db.customer (λ t. tt))))
        e

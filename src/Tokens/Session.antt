-- ===== src/Tokens/Session.antt =====
-- A session authenticates the token that it was exchanged for, until it ends.
use vexa_vm.Common.{
  ℕ, ◌≡◌, refl, inl, inr, String, true, false, ◌&&◌, Option, none, some, List, [], ◌∷◌, arith,
  if◌then◌else◌, ap, ◌∙◌, Option-cases, ltb, str_eq, eq_refl, find?, update_where,
}
use vexa_vm.Error.{ok}
use vexa_vm.Db.Rows.{All, All-mono, find?-only, find?-update_only, find?-update_where}
use vexa_vm.Tokens.{
  CustomerToken, Tokens, Canonical, canonical_optional_ip, is_open, links_of, session_taken,
  is_unconsumed, use_customer, session_end, exchange_customer_link, authenticate_customer_session,
  is_session, ip_allows,
}
use vexa_vm.Tokens.Once.{AreApart, IsAlone, open-IsAlone, opens}

-- No row holds a session that no link was exchanged for.
not_in_session :
    (session : ℕ) (source : Option String) (now : ℕ) (ts : List CustomerToken)
    → session_taken session (links_of ts) ≡ false
    → All (λ t. is_session session source now t.link ≡ false) ts
not_in_session session source now [] h = tt
not_in_session session source now (t ∷ ts) h =
    (ground arith, not_in_session session source now ts (ground arith))

alone_id : (hash : ℕ) (t u : CustomerToken) → IsAlone hash t u → str_eq u.id t.id ≡ true → u ≡ t
alone_id hash t u (inl same) h = same
alone_id hash t u (inr other) h = cc (other.0)

alone_unconsumed :
    (hash : ℕ) (t u : CustomerToken) → IsAlone hash t u → is_unconsumed t.id u.link ≡ true → u ≡ t
alone_unconsumed hash t u k h = alone_id hash t u k (ground arith)

open_unconsumed :
    (hash now : ℕ) (t : CustomerToken)
    → is_open hash now t.link ≡ true
    → is_unconsumed t.id t.link ≡ true
open_unconsumed hash now t h = ground (arith, eq_refl t.id)

-- The table after an exchange: one lookup finds the token, the other finds it while it is in session.
module _ (hash session now until : ℕ) (ts : List CustomerToken) (t : CustomerToken)
    (apart : AreApart ts) (found : find? (λ u. is_open hash now u.link) ts ≡ some t) where
  returned :
      find?
        (λ u. str_eq u.id t.id)
        (update_where (λ u. is_unconsumed t.id u.link) (use_customer session now until) ts)
      ≡ some (use_customer session now until t)
  returned =
      find?-update_where (λ u. str_eq u.id t.id) (λ u. is_unconsumed t.id u.link)
        (use_customer session now until) ts t (λ u. refl)
        (find?-only (λ u. str_eq u.id t.id) (λ u. is_open hash now u.link) ts t
          (All-mono (IsAlone hash t) (λ u. str_eq u.id t.id ≡ true → u ≡ t) ts (alone_id hash t)
            (open-IsAlone hash now ts t apart found))
          found (eq_refl t.id))
        (open_unconsumed hash now t (opens hash now ts found))

  in_session :
      (source : Option String) (now' : ℕ)
      → session_taken session (links_of ts) ≡ false
      → find?
          (λ u. is_session session source now' u.link)
          (update_where (λ u. is_unconsumed t.id u.link) (use_customer session now until) ts)
        ≡ (if is_session session source now' (use_customer session now until t).link
            then some (use_customer session now until t)
            else none)
  in_session source now' fresh =
      find?-update_only (λ u. is_session session source now' u.link)
        (λ u. is_unconsumed t.id u.link) (λ u. is_open hash now u.link)
        (use_customer session now until) ts t (not_in_session session source now' ts fresh)
        (All-mono (IsAlone hash t) (λ u. is_unconsumed t.id u.link ≡ true → u ≡ t) ts
          (alone_unconsumed hash t) (open-IsAlone hash now ts t apart found))
        found (open_unconsumed hash now t (opens hash now ts found))

  session_test :
      (source : Option String) (now' : ℕ)
      → is_session session source now' (use_customer session now until t).link
        ≡ (ltb now' until && ip_allows t.bound_ip source)
  session_test source now' = ground (arith, opens hash now ts found)

module _ (canonical : Canonical) where
  looked_up :
      (session : ℕ) (source : Option String) (now : ℕ) (db : Tokens) {address : Option String}
      {o : Option CustomerToken} {db' : Tokens}
      → canonical_optional_ip canonical source ≡ ok address
      → authenticate_customer_session canonical session source now db ≡ ok (o, db')
      → o ≡ find? (λ u. is_session session address now u.link) db.customer
  unfolding authenticate_customer_session
  looked_up session source now db {address} c e = ground arith

  -- Where no two tokens share an id or a token hash, and a link is exchanged at `now` for a session,
  -- then from a valid source address the session authenticates, until another operation changes the
  -- tokens, exactly the token that the exchange returned, exactly while the time is before the end of
  -- the session (the lesser of an hour or `ttl` after `now` and the link's own end) and the
  -- address is the one the token is bound to, if it is bound.
  pub authenticate-exchange :
      (hash session : ℕ) (source : Option String) (now ttl : ℕ) (db : Tokens) {t : CustomerToken}
      {db' : Tokens} (source' : Option String) (now' : ℕ) {address : Option String}
      {o : Option CustomerToken} {db'' : Tokens}
      → AreApart db.customer
      → exchange_customer_link canonical hash session source now ttl db ≡ ok (some t, db')
      → canonical_optional_ip canonical source' ≡ ok address
      → authenticate_customer_session canonical session source' now' db' ≡ ok (o, db'')
      → o ≡ (
          if ltb now' (session_end t.expires_at now ttl) && ip_allows t.bound_ip address
          then some t
          else none)
  unfolding exchange_customer_link authenticate_customer_session
  authenticate-exchange hash session source now ttl db {t} {db'} source' now' {address} a e c e' =
      elim (Option-cases (find? (λ u. is_open hash now u.link) db.customer)) [
        | inl none_open ↦ absurd (ground arith)
        | inr (t0, found) ↦
            let until = session_end t0.expires_at now ttl in
            let fresh : session_taken session (links_of db.customer) ≡ false = ground arith in
            let ret = returned hash session now until db.customer t0 a found in
            let table : db'.customer
                ≡ update_where (λ u. is_unconsumed t0.id u.link) (use_customer session now until)
                    db.customer =
              ground arith in
            let same : t ≡ use_customer session now until t0 = ground (arith, ret) in
            let test = session_test hash session now until db.customer t0 a found address now' in
            let seen =
              in_session hash session now until db.customer t0 a found address now' fresh in
            rw same (
              looked_up session source' now' db' c e'
              ∙ ap (find? (λ u. is_session session address now' u.link)) table
              ∙ seen
              ∙ rw test)
      ]

-- ===== src/Tokens/Steps.antt =====
-- The operations on tokens as steps, in any order.
pub mod Changes
pub mod Distinct
pub mod Closed
use vexa_vm.Common.{ℕ, ◌≡◌, String, Option, List}
use vexa_vm.Error.{ok}
use vexa_vm.Tokens.{
  Link, CustomerToken, Tokens, Canonical, create_customer_link, exchange_customer_link,
  authenticate_customer_session, create_vnc_link, exchange_vnc_link, revoke_customer_token_for_vm,
  revoke_customer_session, revoke_vm_vnc_tokens, revoke_vnc_session, prune_expired_tokens,
}

module _ (canonical : Canonical) where
  pub data Step (db : Tokens) : Tokens → Type 0 where
    create_customer :
        (vm : String) (hash : ℕ) (scopes : List String) (bound : Option String) (expires : ℕ)
        (id : String) (now : ℕ) {t : CustomerToken} {db' : Tokens}
        → create_customer_link canonical vm hash scopes bound expires id now db ≡ ok (t, db')
        → Step db db'
    exchange_customer :
        (hash session : ℕ) (source : Option String) (now ttl : ℕ) {o : Option CustomerToken}
        {db' : Tokens}
        → exchange_customer_link canonical hash session source now ttl db ≡ ok (o, db')
        → Step db db'
    authenticate_customer :
        (session : ℕ) (source : Option String) (now : ℕ) {o : Option CustomerToken} {db' : Tokens}
        → authenticate_customer_session canonical session source now db ≡ ok (o, db')
        → Step db db'
    create_vnc :
        (vm : String) (hash : ℕ) (bound : Option String) (created : ℕ) (id : String) {l : Link}
        {db' : Tokens}
        → create_vnc_link canonical vm hash bound created id db ≡ ok (l, db')
        → Step db db'
    exchange_vnc :
        (hash session : ℕ) (source : Option String) (now : ℕ) {o : Option Link} {db' : Tokens}
        → exchange_vnc_link canonical hash session source now db ≡ ok (o, db')
        → Step db db'
    revoke_customer :
        (vm id : String) (now : ℕ) {db' : Tokens}
        → revoke_customer_token_for_vm vm id now db ≡ ok db'
        → Step db db'
    end_customer_session : (session now : ℕ) → Step db (revoke_customer_session session now db).1
    revoke_vm : (vm : String) (now : ℕ) → Step db (revoke_vm_vnc_tokens vm now db).1
    end_vnc_session : (session now : ℕ) → Step db (revoke_vnc_session session now db).1
    prune : (now : ℕ) → Step db (prune_expired_tokens now db).1

  pub data Reach (db : Tokens) : Tokens → Type 0 where
    here : Reach db db
    next : {db' db'' : Tokens} → Reach db db' → Step db' db'' → Reach db db''

  -- A step that creates no customer link with the hash.
  abbrev pub IsOther : ℕ → {db db' : Tokens} → Step db db' → Type 0
  IsOther hash (create_customer vm hash' scopes bound expires id now e) = ¬ (hash' ≡ hash)
  IsOther hash _ = Unit {0}

  abbrev pub AreOther : ℕ → {db db' : Tokens} → Reach db db' → Type 0
  AreOther hash here = Unit {0}
  AreOther hash (next path step) = AreOther hash path × IsOther hash step

-- ===== src/Tokens/Steps/Closed.antt =====
-- A link that was exchanged stays closed.
use vexa_vm.Common.{ℕ, ◌≡◌, String, false, Option, none, some, List, arith}
use vexa_vm.Error.{ok}
use vexa_vm.Db.Rows.{All, All-mono, All-retain, All-append, All-update_where, find?-none}
use vexa_vm.Tokens.{CustomerToken, Tokens, Canonical, is_open, exchange_customer_link}
use vexa_vm.Tokens.Once.{AreApart, IsClosed, closed_exchange, after_exchange}
use vexa_vm.Tokens.Steps.{
  Step, Reach, IsOther, AreOther, here, next, create_customer, exchange_customer,
  authenticate_customer, create_vnc, exchange_vnc, revoke_customer, end_customer_session, revoke_vm,
  end_vnc_session, prune,
}
use vexa_vm.Tokens.Steps.Distinct.{Reach-AreApart}
use vexa_vm.Tokens.Steps.Changes.{Change, unchanged, updated, removed, create-added, Step-IsChange}

Change-IsClosed :
    (hash : ℕ) {ts ts' : List CustomerToken}
    → Change ts ts'
    → All (IsClosed hash) ts
    → All (IsClosed hash) ts'
Change-IsClosed hash unchanged c = c
Change-IsClosed hash {ts} (updated p f keep closing) c =
    All-update_where (IsClosed hash) (IsClosed hash) p f ts
      (λ u k h now. closing u hash now (k now)) (λ u k h. k) c
Change-IsClosed hash {ts} (removed p) c = All-retain (IsClosed hash) p ts c

module _ (canonical : Canonical) where
  Step-IsClosed :
      (hash : ℕ) {db db' : Tokens} (step : Step canonical db db')
      → IsOther canonical hash step
      → All (IsClosed hash) db.customer
      → All (IsClosed hash) db'.customer
  Step-IsClosed hash {db} (create_customer vm hash' scopes bound expires id now {t} e) other c =
      let (table, fresh, named) =
        create-added canonical vm hash' scopes bound expires id now db e in
      rw table (All-append (IsClosed hash) db.customer t c (λ now'. ground (arith, other, named)))
  Step-IsClosed hash (exchange_customer hash' session source now ttl e) other c =
      Change-IsClosed hash
        (Step-IsChange canonical (exchange_customer hash' session source now ttl e)) c
  Step-IsClosed hash (authenticate_customer session source now e) other c =
      Change-IsClosed hash (Step-IsChange canonical (authenticate_customer session source now e)) c
  Step-IsClosed hash (create_vnc vm hash' bound created id e) other c =
      Change-IsClosed hash (Step-IsChange canonical (create_vnc vm hash' bound created id e)) c
  Step-IsClosed hash (exchange_vnc hash' session source now e) other c =
      Change-IsClosed hash (Step-IsChange canonical (exchange_vnc hash' session source now e)) c
  Step-IsClosed hash (revoke_customer vm id now e) other c =
      Change-IsClosed hash (Step-IsChange canonical (revoke_customer vm id now e)) c
  Step-IsClosed hash (end_customer_session session now) other c =
      Change-IsClosed hash (Step-IsChange canonical (end_customer_session session now)) c
  Step-IsClosed hash (revoke_vm vm now) other c =
      Change-IsClosed hash (Step-IsChange canonical (revoke_vm vm now)) c
  Step-IsClosed hash (end_vnc_session session now) other c =
      Change-IsClosed hash (Step-IsChange canonical (end_vnc_session session now)) c
  Step-IsClosed hash (prune now) other c =
      Change-IsClosed hash (Step-IsChange canonical (prune now)) c

  Reach-IsClosed :
      (hash : ℕ) {db db' : Tokens} (path : Reach canonical db db')
      → AreOther canonical hash path
      → All (IsClosed hash) db.customer
      → All (IsClosed hash) db'.customer
  Reach-IsClosed hash here other c = c
  Reach-IsClosed hash (next path step) other c =
      Step-IsClosed hash step other.1 (Reach-IsClosed hash path other.0 c)

  -- A link that was exchanged for a session is never exchanged again. The tokens are those that any
  -- operations lead to from a table where no two customer tokens share an id or a token hash. After
  -- the exchange, and after whatever operations that create no link with the same hash, an exchange
  -- of the hash that does not fail, at whatever time, for whatever session and from whatever
  -- address, returns no token and changes nothing.
  pub exchange_customer_link-once :
      (hash session : ℕ) (source : Option String) (now ttl : ℕ) {start db : Tokens}
      {t : CustomerToken} {db' later : Tokens} (session' : ℕ) (source' : Option String)
      (now' ttl' : ℕ) {o : Option CustomerToken} {last : Tokens}
      → AreApart start.customer
      → Reach canonical start db
      → exchange_customer_link canonical hash session source now ttl db ≡ ok (some t, db')
      → (path : Reach canonical db' later) → AreOther canonical hash path
      → exchange_customer_link canonical hash session' source' now' ttl' later ≡ ok (o, last)
      → (o ≡ none) × (last ≡ later)
  exchange_customer_link-once hash session source now ttl {db = db} {later = later} session' source'
        now' ttl' a before e path other e' =
      let closed = Reach-IsClosed hash path other (
        after_exchange canonical hash session source now ttl db (Reach-AreApart canonical before a)
          e) in
      closed_exchange canonical hash session' source' now' ttl' later
        (find?-none (λ u. is_open hash now' u.link) later.customer
          (All-mono (IsClosed hash) (λ u. is_open hash now' u.link ≡ false) later.customer
            (λ u k. k now') closed))
        e'

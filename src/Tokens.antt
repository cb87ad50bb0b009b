-- ===== src/Tokens.antt =====
-- src/db.rs, customer and VNC tokens: a one-time link is exchanged for a browser session, which
-- authenticates until it expires or is revoked.
--
-- A hash is the number that its 32 bytes spell. The functions return rows; the records that the
-- source returns are these without the two hashes. `canonical` is `IpAddr::from_str` followed by
-- `to_string`, on a trimmed text. The token operations call `canonical_optional_ip` with no expected
-- family.
pub mod Once
pub mod Session
pub mod Prune
pub mod Steps
mod Tests
use vexa_vm.Common.{
  ℕ, ◌+◌, ◌^◌, ◌-◌, min, Bool, String, true, false, ◌&&◌, ◌||◌, not, Option, none, some, List, [],
  ◌∷◌, ◌++◌, if◌then◌else◌, ltb, leb, ◌==◌, str_eq, any, update_where, retain, find?, count_if,
  str_append,
}
use vexa_vm.Error.{AppResult, ok, err, validation, not_found, database, ◌>>=◌, ◌>>◌, reject_if}
use vexa_vm.Db.{is_some, opt_eq, require_changed}
use vexa_vm.Db.Text.{trim, is_blank}

-- The columns that both tables have.
pub record Link : Type 0 where
  pub id : String
  pub vm_id : String
  pub token_hash : ℕ
  pub session_hash : Option ℕ
  pub bound_ip : Option String
  pub created_at : ℕ
  pub expires_at : ℕ
  pub consumed_at : Option ℕ
  pub session_expires_at : Option ℕ
  pub revoked_at : Option ℕ

pub record CustomerToken : Type 0 where
  pub link : Link
  pub open link use *
  pub scopes : List String
  pub last_used_at : Option ℕ

-- `vms` holds the ids that the foreign keys refer to.
pub record Tokens : Type 0 where
  pub customer : List CustomerToken
  pub vnc : List Link
  pub vms : List String

abbrev pub Canonical : Type 0
Canonical = String → Option String

unfoldable pub canonical_optional_ip : Canonical → Option String → AppResult (Option String)
canonical_optional_ip canonical none = ok none
canonical_optional_ip canonical (some value) =
    if is_blank value then ok none else elim (canonical (trim value)) [
      | none ↦ err (validation (str_append "invalid IP address: " (trim value)))
      | some address ↦ ok (some address)
    ]

abbrev pub opt_num_eq : Option ℕ → ℕ → Bool
opt_num_eq none n = false
opt_num_eq (some m) n = m == n

-- `token_hash = … AND consumed_at IS NULL AND revoked_at IS NULL AND expires_at > now`.
abbrev pub is_open : ℕ → ℕ → Link → Bool
is_open hash now l =
    l.token_hash == hash
    && not (is_some l.consumed_at)
    && not (is_some l.revoked_at)
    && ltb now l.expires_at

abbrev later_than : Option ℕ → ℕ → Bool
later_than none now = false
later_than (some t) now = ltb now t

-- `bound_ip IS NULL OR bound_ip = …`.
abbrev pub ip_allows : Option String → Option String → Bool
ip_allows none source = true
ip_allows (some bound) none = false
ip_allows (some bound) (some source) = str_eq bound source

-- `session_hash = … AND session_expires_at > now AND revoked_at IS NULL AND …`.
abbrev pub is_session : ℕ → Option String → ℕ → Link → Bool
is_session hash source now l =
    opt_num_eq l.session_hash hash
    && later_than l.session_expires_at now
    && not (is_some l.revoked_at)
    && ip_allows l.bound_ip source

-- `bound_ip.is_some() && bound_ip != source_ip`.
abbrev pub is_bound_elsewhere : Option String → Option String → Bool
is_bound_elsewhere bound source = is_some bound && not (opt_eq bound source)

abbrev pub consume : ℕ → ℕ → ℕ → Link → Link
consume session now until l = record l {
  session_hash = some session;
  consumed_at = some now;
  session_expires_at = some until;
}

-- `COALESCE(revoked_at, now)`.
abbrev pub revoke : ℕ → Link → Link
revoke now l = record l { revoked_at = elim l.revoked_at [ none ↦ some now | some t ↦ some t ] }

abbrev new_link : String → String → ℕ → Option String → ℕ → ℕ → Link
new_link id vm hash bound created expires = record {
  id = id;
  vm_id = vm;
  token_hash = hash;
  session_hash = none;
  bound_ip = bound;
  created_at = created;
  expires_at = expires;
  consumed_at = none;
  session_expires_at = none;
  revoked_at = none;
}

-- The constraints of an INSERT: primary key, unique hash, foreign key and order of the times.
abbrev pub insertable : Link → List Link → List String → AppResult (Unit {0})
insertable l links vms = do
  reject_if (any (λ k. str_eq k.id l.id || k.token_hash == l.token_hash) links)
      (database "UNIQUE constraint failed")
  reject_if (not (ltb l.created_at l.expires_at)) (database "CHECK constraint failed")
  reject_if (not (any (λ v. str_eq v l.vm_id) vms)) (database "FOREIGN KEY constraint failed")

abbrev pub links_of : List CustomerToken → List Link
links_of [] = []
links_of (t ∷ ts) = t.link ∷ links_of ts

abbrev pub session_taken : ℕ → List Link → Bool
session_taken session links = any (λ l. opt_num_eq l.session_hash session) links

-- Rows of an id that are still unconsumed.
abbrev pub is_unconsumed : String → Link → Bool
is_unconsumed id l = str_eq l.id id && not (is_some l.consumed_at)

-- `now.saturating_add(ttl)` with the time to live capped at an hour, and never past the link.
abbrev pub session_end : ℕ → ℕ → ℕ → ℕ
session_end link_expires now ttl = min link_expires (min (now + min ttl 3600) (2 ^ 63 - 1))

abbrev pub use_customer : ℕ → ℕ → ℕ → CustomerToken → CustomerToken
use_customer session now until t = record t {
  link = consume session now until t.link;
  last_used_at = some now;
}

module _ (canonical : Canonical) where
  unfoldable pub create_customer_link :
      String
      → ℕ
      → List String
      → Option String
      → ℕ
      → String
      → ℕ
      → Tokens
      → AppResult (CustomerToken × Tokens)
  create_customer_link vm hash scopes bound expires id now db = do
    reject_if (leb expires now) (validation "customer token expiry must be in the future")
    bound' ← canonical_optional_ip canonical bound
    let t : CustomerToken = record {
      link = new_link id vm hash bound' now expires;
      scopes = scopes;
      last_used_at = none;
    }
    insertable t.link (links_of db.customer) db.vms
    ok (t, record db { customer = db.customer ++ t ∷ [] })

  unfoldable pub create_customer_token :
      String → ℕ → List String → ℕ → String → ℕ → Tokens → AppResult (CustomerToken × Tokens)
  create_customer_token vm hash scopes expires id now db =
      create_customer_link vm hash scopes none expires id now db

  unfoldable pub exchange_customer_link :
      ℕ → ℕ → Option String → ℕ → ℕ → Tokens → AppResult (Option CustomerToken × Tokens)
  exchange_customer_link hash session source now ttl db = do
    reject_if (ttl == 0) (validation "customer session TTL must be greater than zero")
    source' ← canonical_optional_ip canonical source
    elim (find? (λ t. is_open hash now t.link) db.customer) [
      | none ↦ ok (none, db)
      | some t ↦
          if is_bound_elsewhere t.bound_ip source'
          then ok (none, db)
          else if session_taken session (links_of db.customer)
          then err (database "UNIQUE constraint failed: customer_tokens.session_hash")
          else (let until = session_end t.expires_at now ttl in
              let db' = record db {
                customer =
                    update_where (λ u. is_unconsumed t.id u.link) (use_customer session now until)
                      db.customer;
              } in
              ok (find? (λ u. str_eq u.id t.id) db'.customer, db'))
    ]

  unfoldable pub authenticate_customer_session :
      ℕ → Option String → ℕ → Tokens → AppResult (Option CustomerToken × Tokens)
  authenticate_customer_session session source now db = do
    source' ← canonical_optional_ip canonical source
    elim (find? (λ t. is_session session source' now t.link) db.customer) [
      | none ↦ ok (none, db)
      | some t ↦ ok (
        some t,
        record db {
          customer =
              update_where (λ u. opt_num_eq u.session_hash session)
                (λ u. record u { last_used_at = some now }) db.customer;
        },
      )
    ]

  -- The times of a VNC link are fixed: it lives for ten minutes.
  unfoldable pub create_vnc_link :
      String → ℕ → Option String → ℕ → String → Tokens → AppResult (Link × Tokens)
  create_vnc_link vm hash bound created id db = do
    bound' ← canonical_optional_ip canonical bound
    let l = new_link id vm hash bound' created (created + 600)
    insertable l db.vnc db.vms
    ok (l, record db { vnc = db.vnc ++ l ∷ [] })

  unfoldable pub exchange_vnc_link :
      ℕ → ℕ → Option String → ℕ → Tokens → AppResult (Option Link × Tokens)
  exchange_vnc_link hash session source now db = do
    source' ← canonical_optional_ip canonical source
    elim (find? (is_open hash now) db.vnc) [
      | none ↦ ok (none, db)
      | some l ↦
          if is_bound_elsewhere l.bound_ip source'
          then ok (none, db)
          else if session_taken session db.vnc
          then err (database "UNIQUE constraint failed: vnc_tokens.session_hash")
          else (let db' = record db {
            vnc = update_where (is_unconsumed l.id) (consume session now l.expires_at) db.vnc;
          } in
              ok (find? (λ u. str_eq u.id l.id) db'.vnc, db'))
    ]

  unfoldable pub authenticate_vnc_session : ℕ → Option String → ℕ → Tokens → AppResult (Option Link)
  authenticate_vnc_session session source now db = do
    source' ← canonical_optional_ip canonical source
    ok (find? (is_session session source' now) db.vnc)

unfoldable pub revoke_customer_token_for_vm : String → String → ℕ → Tokens → AppResult Tokens
revoke_customer_token_for_vm vm id now db = do
  let picked = λ (t : CustomerToken). str_eq t.id id && str_eq t.vm_id vm
  require_changed (count_if picked db.customer) "customer token"
  ok (record db {
    customer = update_where picked (λ t. record t { link = revoke now t.link }) db.customer;
  })

-- `session_hash = … AND revoked_at IS NULL`.
abbrev pub is_live_session : ℕ → Link → Bool
is_live_session session l = opt_num_eq l.session_hash session && not (is_some l.revoked_at)

unfoldable pub revoke_customer_session : ℕ → ℕ → Tokens → ℕ × Tokens
revoke_customer_session session now db = (
  count_if (λ t. is_live_session session t.link) db.customer,
  record db {
    customer =
        update_where (λ t. is_live_session session t.link)
          (λ t. record t { link = revoke now t.link }) db.customer;
  },
)

unfoldable pub revoke_vm_vnc_tokens : String → ℕ → Tokens → ℕ × Tokens
revoke_vm_vnc_tokens vm now db = (
  count_if (λ l. str_eq l.vm_id vm) db.vnc,
  record db { vnc = update_where (λ l. str_eq l.vm_id vm) (revoke now) db.vnc },
)

unfoldable pub revoke_vnc_session : ℕ → ℕ → Tokens → ℕ × Tokens
revoke_vnc_session session now db = (
  count_if (is_live_session session) db.vnc,
  record db { vnc = update_where (is_live_session session) (revoke now) db.vnc },
)

-- `COALESCE(session_expires_at, expires_at) <= now OR revoked_at IS NOT NULL`.
abbrev pub is_prunable : ℕ → Link → Bool
is_prunable now l =
    leb (elim l.session_expires_at [ none ↦ l.expires_at | some t ↦ t ]) now || is_some l.revoked_at

unfoldable pub prune_expired_tokens : ℕ → Tokens → (ℕ × ℕ) × Tokens
prune_expired_tokens now db = (
  (count_if (λ t. is_prunable now t.link) db.customer, count_if (is_prunable now) db.vnc),
  record db {
    customer = retain (λ t. not (is_prunable now t.link)) db.customer;
    vnc = retain (λ l. not (is_prunable now l)) db.vnc;
  },
)

-- ===== src/Admins/Steps.antt =====
-- The operations on accounts as steps, and what is left of the rows after an update.
--
-- `set_admin_enabled`, which no route calls, is not among the steps: it asks nothing of the others.
pub mod Super
pub mod Book
pub mod Revoked
use vexa_vm.Common.{
  ℕ, ◌≡◌, ◌≢◌, refl, sym, ap, ◌∙◌, Bool, String, true, false, ◌&&◌, ◌||◌, not, Option, none, some,
  List, [], ◌∷◌, ◌++◌, arith, if◌then◌else◌, ◌==◌, str_eq, eq_iff, eq_refl, any, find?, count_if,
  update_where, retain, Bool-cases, Option-cases, inl, inr,
}
use vexa_vm.Common.Chars.{nocase_eq}
use vexa_vm.Error.{Result, AppResult, ok, err}
use vexa_vm.Db.Rows.{All, All-true, All-mono, All-both, All-append, All-retain, All-find?, any-All}
use vexa_vm.Db.Found.{any-update_where, any-retain, any-append}
use vexa_vm.Addresses.{IpLibrary}
use vexa_vm.Admins.{
  AdminRole, Admin, ApiKey, Accounts, is_super, is_enabled_super, is_admin, query_admin,
  first_admin, insert_admin, new_admin, bootstrap_admin, create_admin, set_credentials,
  update_admin_credentials, is_other_super, set_access, update_admin_access, delete_admin,
  record_admin_login, unwrap_or,
}
use vexa_vm.Admins.Sessions.{
  create_admin_session, authenticate_admin_session, revoke_admin_session, revoke_admin_sessions,
  prune_expired_sessions,
}
use vexa_vm.Admins.Keys.{create_api_key, authenticate_api_key, revoke_api_key}

module _ {N : Type 0} (lib : IpLibrary N) where
  pub data Step (db : Accounts) : Accounts → Type 0 where
    bootstrap :
        (username password_hash id : String) (now : ℕ) {a : Admin} {db' : Accounts}
        → bootstrap_admin username password_hash id now db ≡ ok (a, db')
        → Step db db'
    create :
        (username password_hash : String) (role : AdminRole) (id : String) (now : ℕ) {a : Admin}
        {db' : Accounts}
        → create_admin username password_hash role id now db ≡ ok (a, db')
        → Step db db'
    set_login :
        (id : String) (username password_hash : Option String) (now : ℕ) {db' : Accounts}
        → update_admin_credentials id username password_hash now db ≡ ok db'
        → Step db db'
    give_access :
        (id : String) (role : Option AdminRole) (enabled : Option Bool) (now : ℕ) {a : Admin}
        {db' : Accounts}
        → update_admin_access id role enabled now db ≡ ok (a, db')
        → Step db db'
    delete : (id : String) {db' : Accounts} → delete_admin id db ≡ ok db' → Step db db'
    record_login :
        (id : String) (at : ℕ) {db' : Accounts} → record_admin_login id at db ≡ ok db' → Step db db'
    sign_in :
        (id : String) (token csrf expires : ℕ) (source_ip user_agent : Option String) (now : ℕ)
        {db' : Accounts}
        → create_admin_session id token csrf expires source_ip user_agent now db ≡ ok db'
        → Step db db'
    see : (token now : ℕ) → Step db (authenticate_admin_session token now db).1
    sign_out : (token : ℕ) → Step db (revoke_admin_session token db).1
    sign_out_all : (id : String) → Step db (revoke_admin_sessions id db).1
    prune : (now : ℕ) → Step db (prune_expired_sessions now db).1
    create_key :
        (name : String) (token : ℕ) (prefix : String) (permissions allowlist : List String)
        (created_by : Option String) (expires_at : Option ℕ) (id : String) (now : ℕ) {k : ApiKey}
        {db' : Accounts}
        → create_api_key lib name token prefix permissions allowlist created_by expires_at id now db
          ≡ ok (k, db')
        → Step db db'
    use_key : (token now : ℕ) → Step db (authenticate_api_key token now db).1
    revoke_key :
        (id : String) (now : ℕ) {db' : Accounts} → revoke_api_key id now db ≡ ok db' → Step db db'

  pub data Reach (db : Accounts) : Accounts → Type 0 where
    here : Reach db db
    next : {db' db'' : Accounts} → Reach db db' → Step db' db'' → Reach db db''

abbrev pub AreDistinct : List Admin → Type 0
AreDistinct [] = Unit {0}
AreDistinct (a ∷ rest) = All (λ b. str_eq a.id b.id ≡ false) rest × AreDistinct rest

-- Distinct administrators stay so, and an enabled super administrator is left if there was one.
abbrev Keeps : List Admin → List Admin → Type 0
Keeps rows rows' =
    AreDistinct rows
    → AreDistinct rows' × (any is_enabled_super rows ≡ true → any is_enabled_super rows' ≡ true)

AreDistinct-retain :
    (p : Admin → Bool) (rows : List Admin) → AreDistinct rows → AreDistinct (retain p rows)
AreDistinct-retain p [] d = tt
AreDistinct-retain p (a ∷ rows) d = elim (Bool-cases (p a)) [
  | inl e ↦
      rw e (All-retain (λ b. str_eq a.id b.id ≡ false) p rows d.0, AreDistinct-retain p rows d.1)
  | inr e ↦ rw e (AreDistinct-retain p rows d.1)
]

All-same_id :
    (id : String) (p : Admin → Bool) (f : Admin → Admin) (rows : List Admin)
    → ((a : Admin) → (f a).id ≡ a.id)
    → All (λ b. str_eq id b.id ≡ false) rows
    → All (λ b. str_eq id b.id ≡ false) (update_where p f rows)
All-same_id id p f [] k d = tt
All-same_id id p f (a ∷ rows) k d = (ground (arith, k a, d.0), All-same_id id p f rows k d.1)

AreDistinct-update :
    (p : Admin → Bool) (f : Admin → Admin) (rows : List Admin)
    → ((a : Admin) → (f a).id ≡ a.id)
    → AreDistinct rows
    → AreDistinct (update_where p f rows)
AreDistinct-update p f [] k d = tt
AreDistinct-update p f (a ∷ rows) k d = (
  elim (Bool-cases (p a)) [
    | inl e ↦ rw (e, k a) (All-same_id a.id p f rows k d.0)
    | inr e ↦ rw e (All-same_id a.id p f rows k d.0)
  ],
  AreDistinct-update p f rows k d.1,
)

AreDistinct-append :
    (rows : List Admin) (a : Admin)
    → All (λ b. str_eq b.id a.id ≡ false) rows
    → AreDistinct rows
    → AreDistinct (rows ++ a ∷ [])
AreDistinct-append [] a h d = (tt, tt)
AreDistinct-append (b ∷ rows) a h d =
    (All-append (λ c. str_eq b.id c.id ≡ false) rows a d.0 h.0, AreDistinct-append rows a h.1 d.1)

-- A row that is found by its id is the only one with it.
alone :
    (id : String) (rows : List Admin) {a : Admin}
    → AreDistinct rows
    → find? (is_admin id) rows ≡ some a
    → All (λ b. is_admin id b ≡ true → b ≡ a) rows
alone id [] d e = tt
alone id (b ∷ rows) {a} d e = elim (Bool-cases (is_admin id b)) [
  | inl hit ↦
      let same : b ≡ a = ground arith in
      (
        λ k. same,
        All-mono (λ c. str_eq b.id c.id ≡ false) (λ c. is_admin id c ≡ true → c ≡ a) rows
            (λ c k h.
              absurd (ground (arith, k, h, hit, eq_iff c.id id, eq_iff b.id id, eq_refl id)))
            d.0,
      )
  | inr miss ↦ (λ k. absurd (ground (arith, k, miss)), alone id rows d.1 (rw miss at e))
]

-- Another enabled super administrator is not touched by what is done to one id.
others_updated :
    (id : String) (f : Admin → Admin) (rows : List Admin)
    → (count_if (is_other_super id) rows == 0) ≡ false
    → any is_enabled_super (update_where (is_admin id) f rows) ≡ true
others_updated id f [] h = absurd (ground arith)
others_updated id f (a ∷ rows) h = elim (Bool-cases (is_other_super id a)) [
  | inl other ↦
      let miss : is_admin id a ≡ false = ground (arith, other) in ground (arith, other, miss)
  | inr same ↦ ground (arith, others_updated id f rows (ground (arith, same)))
]

others_left :
    (id : String) (rows : List Admin)
    → (count_if (is_other_super id) rows == 0) ≡ false
    → any is_enabled_super (retain (λ a. not (is_admin id a)) rows) ≡ true
others_left id [] h = absurd (ground arith)
others_left id (a ∷ rows) h = elim (Bool-cases (is_other_super id a)) [
  | inl other ↦
      let miss : is_admin id a ≡ false = ground (arith, other) in ground (arith, other, miss)
  | inr same ↦ ground (arith, others_left id rows (ground (arith, same)))
]

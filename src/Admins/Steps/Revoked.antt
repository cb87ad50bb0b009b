-- ===== src/Admins/Steps/Revoked.antt =====
-- That a key of the API which was revoked is of no use.
use vexa_vm.Common.{
  ℕ, ◌≡◌, refl, sym, ap, ◌∙◌, Bool, String, true, false, ◌||◌, Option, none, some, List, [], ◌∷◌,
  ◌++◌, arith, ◌==◌, str_eq, eq_iff, any, find?, count_if, update_where, Bool-cases, Option-cases,
  inl, inr,
}
use vexa_vm.Error.{ok}
use vexa_vm.Db.{is_some, sql_eq}
use vexa_vm.Db.Text.{trim}
use vexa_vm.Db.Rows.{All, All-true, All-update_where, All-append, All-find?}
use vexa_vm.Db.Found.{any-update_where, any-append}
use vexa_vm.Addresses.{IpLibrary}
use vexa_vm.Admins.{
  AdminRole, Admin, ApiKey, Accounts, first_admin, insert_admin, new_admin, bootstrap_admin,
  create_admin, update_admin_credentials, update_admin_access, delete_admin, record_admin_login,
}
use vexa_vm.Admins.Sessions.{
  create_admin_session, authenticate_admin_session, revoke_admin_session, revoke_admin_sessions,
  prune_expired_sessions,
}
use vexa_vm.Admins.Keys.{
  is_valid_key, revoke_key as stamp, normalize_allowlist, create_api_key, authenticate_api_key,
  revoke_api_key,
}
use vexa_vm.Error.{Result-cases}
use vexa_vm.Admins.Steps.{
  Step, Reach, bootstrap, create, set_login, give_access, delete, record_login, sign_in, see,
  sign_out, sign_out_all, prune, create_key, use_key, revoke_key, here, next,
}

-- The key is there, revoked.
record IsDead (id : String) (keys : List ApiKey) : Type 0 where
  all_revoked : All (λ k. str_eq k.id id ≡ true → is_some k.revoked_at ≡ true) keys
  there : any (λ k. str_eq k.id id) keys ≡ true

IsDead-update :
    (id : String) (p : ApiKey → Bool) (f : ApiKey → ApiKey) (keys : List ApiKey)
    → ((k : ApiKey)
        → ((f k).id ≡ k.id) × (is_some k.revoked_at ≡ true → is_some (f k).revoked_at ≡ true))
    → IsDead id keys
    → IsDead id (update_where p f keys)
IsDead-update id p f keys h d = record {
  all_revoked =
      All-update_where (λ k. str_eq k.id id ≡ true → is_some k.revoked_at ≡ true)
        (λ k. str_eq k.id id ≡ true → is_some k.revoked_at ≡ true) p f keys
        (λ k w q e. (h k).1 (w (ap (λ (s : String). str_eq s id) (sym (h k).0) ∙ e))) (λ k w q. w)
        d.all_revoked;
  there =
      any-update_where (λ k. str_eq k.id id) p f keys
        (All-true (λ k. str_eq k.id id ≡ true → p k ≡ true → str_eq (f k).id id ≡ true) keys
          (λ k e q. ap (λ (s : String). str_eq s id) (h k).0 ∙ e))
        d.there;
}

IsDead-append :
    (id : String) (k : ApiKey) (keys : List ApiKey)
    → any (λ j. str_eq j.id k.id) keys ≡ false
    → IsDead id keys
    → IsDead id (keys ++ k ∷ [])
IsDead-append id k keys fresh d =
    let other : str_eq k.id id ≡ false = elim (Bool-cases (str_eq k.id id)) [
      | inl same ↦
          let is : k.id ≡ id = (eq_iff k.id id).0 same in
          absurd
            (ground (arith, ap (λ (s : String). any (λ j. str_eq j.id s) keys) is, fresh, d.there))
      | inr e ↦ e
    ] in
    record {
      all_revoked =
          All-append (λ j. str_eq j.id id ≡ true → is_some j.revoked_at ≡ true) keys k d.all_revoked
            (λ e. absurd (ground (arith, e, other)));
      there = any-append (λ j. str_eq j.id id) keys k d.there;
    }

any-first :
    (p q : ApiKey → Bool) (keys : List ApiKey)
    → any (λ k. p k || q k) keys ≡ false
    → any p keys ≡ false
any-first p q [] h = refl
any-first p q (k ∷ keys) h = ground (arith, any-first p q keys (ground arith))

count_any :
    (p : ApiKey → Bool) (keys : List ApiKey) → (count_if p keys == 0) ≡ false → any p keys ≡ true
count_any p [] h = absurd (ground arith)
count_any p (k ∷ keys) h = elim (Bool-cases (p k)) [
  | inl e ↦ ground (arith, e)
  | inr e ↦ ground (arith, e, count_any p keys (ground (arith, e)))
]

same_keys :
    (id : String) (db db' : Accounts) → db'.keys ≡ db.keys → IsDead id db.keys → IsDead id db'.keys
same_keys id db db' e d = rw e d

insert_admin-keys :
    (a : Admin) (db : Accounts) {b : Admin} {db' : Accounts}
    → insert_admin a db ≡ ok (b, db')
    → db'.keys ≡ db.keys
unfolding insert_admin
insert_admin-keys a db e = ground arith

bootstrap_admin-keys :
    (username password_hash id : String) (now : ℕ) (db : Accounts) {b : Admin} {db' : Accounts}
    → bootstrap_admin username password_hash id now db ≡ ok (b, db')
    → db'.keys ≡ db.keys
unfolding bootstrap_admin
bootstrap_admin-keys username password_hash id now db {b} {db'} e =
    elim (Option-cases (first_admin db.admins)) [
      | inl empty ↦
          let a = new_admin id username password_hash AdminRole.super_admin now in
          let put : insert_admin a db ≡ ok (b, db') = ground (arith, empty) in
          insert_admin-keys a db put
      | inr (a, there) ↦ ground (arith, there)
    ]

create_admin-keys :
    (username password_hash : String) (role : AdminRole) (id : String) (now : ℕ) (db : Accounts)
    {b : Admin} {db' : Accounts}
    → create_admin username password_hash role id now db ≡ ok (b, db')
    → db'.keys ≡ db.keys
unfolding create_admin
create_admin-keys username password_hash role id now db {b} {db'} e =
    let a = new_admin id username password_hash role now in
    let put : insert_admin a db ≡ ok (b, db') = ground arith in insert_admin-keys a db put

delete_admin-IsDead :
    (key id : String) (db : Accounts) {db' : Accounts}
    → delete_admin id db ≡ ok db'
    → IsDead key db.keys
    → IsDead key db'.keys
unfolding delete_admin
delete_admin-IsDead key id db {db'} e d =
    let f = λ (k : ApiKey). record k { created_by = none } in
    let table : db'.keys ≡ update_where (λ k. sql_eq k.created_by id) f db.keys = ground arith in
    rw table (IsDead-update key (λ k. sql_eq k.created_by id) f db.keys (λ k. (refl, λ h. h)) d)

stamp-keeps : (now : ℕ) (k : ApiKey) → is_some (stamp now k).revoked_at ≡ true
stamp-keeps now k = elim (Option-cases k.revoked_at) [
  | inl live ↦ rw live refl
  | inr (t, dead) ↦ rw dead refl
]

revoke_api_key-table :
    (id : String) (now : ℕ) (db : Accounts) {db' : Accounts}
    → revoke_api_key id now db ≡ ok db'
    → (db'.keys ≡ update_where (λ k. str_eq k.id id) (stamp now) db.keys)
      × ((count_if (λ k. str_eq k.id id) db.keys == 0) ≡ false)
unfolding revoke_api_key
revoke_api_key-table id now db e = (ground arith, ground arith)

revoke_api_key-IsDead :
    (id : String) (now : ℕ) (db : Accounts) {db' : Accounts}
    → revoke_api_key id now db ≡ ok db'
    → IsDead id db'.keys
revoke_api_key-IsDead id now db {db'} e =
    let (table, some_key) = revoke_api_key-table id now db e in
    rw table (record {
      all_revoked =
          All-update_where (λ k. Unit {0})
            (λ k. str_eq k.id id ≡ true → is_some k.revoked_at ≡ true) (λ k. str_eq k.id id)
            (stamp now) db.keys (λ k u h q. stamp-keeps now k)
            (λ k u h q. absurd (ground (arith, h, q))) (All-true (λ k. Unit {0}) db.keys (λ k. tt));
      there =
          any-update_where (λ k. str_eq k.id id) (λ k. str_eq k.id id) (stamp now) db.keys
            (All-true
              (λ k.
                str_eq k.id id ≡ true → str_eq k.id id ≡ true → str_eq (stamp now k).id id ≡ true)
              db.keys (λ k h q. h))
            (count_any (λ k. str_eq k.id id) db.keys some_key);
    })

module _ {N : Type 0} (lib : IpLibrary N) where
  create_api_key-IsDead :
      (key name : String) (token : ℕ) (prefix : String) (permissions allowlist : List String)
      (created_by : Option String) (until : Option ℕ) (id : String) (now : ℕ) (db : Accounts)
      {k : ApiKey} {db' : Accounts}
      → create_api_key lib name token prefix permissions allowlist created_by until id now db
        ≡ ok (k, db')
      → IsDead key db.keys
      → IsDead key db'.keys
  unfolding create_api_key
  create_api_key-IsDead key name token prefix permissions allowlist created_by until id now db {k}
        {db'} e d =
      elim (Result-cases (normalize_allowlist lib [] allowlist)) [
        | inl (list, normal) ↦
            let j : ApiKey = record {
              id = id;
              name = trim name;
              token_hash = token;
              prefix = prefix;
              permissions = permissions;
              ip_allowlist = list;
              created_by = created_by;
              created_at = now;
              expires_at = until;
              last_used_at = none;
              revoked_at = none;
            } in
            let table : db'.keys ≡ db.keys ++ j ∷ [] = ground (arith, normal) in
            let fresh : any (λ k. str_eq k.id id || k.token_hash == token) db.keys ≡ false =
              ground (arith, normal) in
            rw table (
              IsDead-append key j db.keys
                (any-first (λ k. str_eq k.id id) (λ k. k.token_hash == token) db.keys fresh) d)
        | inr (e', bad) ↦ absurd (ground (arith, bad))
      ]

  update_admin_credentials-keys :
      (id : String) (username password_hash : Option String) (now : ℕ) (db : Accounts)
      {db' : Accounts}
      → update_admin_credentials id username password_hash now db ≡ ok db'
      → db'.keys ≡ db.keys
  unfolding update_admin_credentials
  update_admin_credentials-keys id username password_hash now db e = ground arith

  update_admin_access-keys :
      (id : String) (role : Option AdminRole) (enabled : Option Bool) (now : ℕ) (db : Accounts)
      {b : Admin} {db' : Accounts}
      → update_admin_access id role enabled now db ≡ ok (b, db')
      → db'.keys ≡ db.keys
  unfolding update_admin_access
  update_admin_access-keys id role enabled now db e = ground arith

  use_key-IsDead :
      (key : String) (token now : ℕ) (db : Accounts)
      → IsDead key db.keys
      → IsDead key (authenticate_api_key token now db).1.keys
  unfolding authenticate_api_key
  use_key-IsDead key token now db d = elim (Option-cases (find? (is_valid_key token now) db.keys)) [
    | inl absent ↦ rw (absent, authenticate_api_key) d
    | inr (k, found) ↦
        rw (found, authenticate_api_key)
          (IsDead-update key (λ j. j.token_hash == token)
            (λ j. record j { last_used_at = some now }) db.keys (λ j. (refl, λ h. h)) d)
  ]

  Step-IsDead :
      (key : String) (db : Accounts) {db' : Accounts}
      → Step lib db db'
      → IsDead key db.keys
      → IsDead key db'.keys
  unfolding create_admin_session authenticate_admin_session revoke_admin_session
      revoke_admin_sessions prune_expired_sessions record_admin_login
  Step-IsDead key db {db'} (bootstrap username password_hash id now e) =
      same_keys key db db' (bootstrap_admin-keys username password_hash id now db e)
  Step-IsDead key db {db'} (create username password_hash role id now e) =
      same_keys key db db' (create_admin-keys username password_hash role id now db e)
  Step-IsDead key db {db'} (set_login id username password_hash now e) =
      same_keys key db db' (update_admin_credentials-keys id username password_hash now db e)
  Step-IsDead key db {db'} (give_access id role enabled now e) =
      same_keys key db db' (update_admin_access-keys id role enabled now db e)
  Step-IsDead key db (delete id e) = delete_admin-IsDead key id db e
  Step-IsDead key db {db'} (record_login id at e) = same_keys key db db' (ground arith)
  Step-IsDead key db {db'} (sign_in id token csrf expires source agent now e) =
      same_keys key db db' (ground arith)
  Step-IsDead key db (see token now) =
      same_keys key db (authenticate_admin_session token now db).1 (ground arith)
  Step-IsDead key db (sign_out token) = λ d. d
  Step-IsDead key db (sign_out_all id) = λ d. d
  Step-IsDead key db (prune now) = λ d. d
  Step-IsDead key db (create_key name token prefix permissions allowlist by until id now e) =
      create_api_key-IsDead key name token prefix permissions allowlist by until id now db e
  Step-IsDead key db (use_key token now) = use_key-IsDead key token now db
  Step-IsDead key db (revoke_key id now e) =
      let (table, some_key) = revoke_api_key-table id now db e in
      λ d. rw table (
        IsDead-update key (λ k. str_eq k.id id) (stamp now) db.keys
          (λ k. (refl, λ h. stamp-keeps now k)) d)

  Reach-IsDead :
      (key : String) (db : Accounts) {db' : Accounts}
      → Reach lib db db'
      → IsDead key db.keys
      → IsDead key db'.keys
  Reach-IsDead key db here d = d
  Reach-IsDead key db (next {db'} path step) d =
      Step-IsDead key db' step (Reach-IsDead key db path d)

  -- After a key of the API is revoked, and whatever operations are made then, no authentication
  -- yields that key, with whatever token and at whatever time.
  pub revoke_api_key-final :
      (id : String) (now : ℕ) (db : Accounts) {db' db'' : Accounts} (token at : ℕ) {k : ApiKey}
      → revoke_api_key id now db ≡ ok db'
      → Reach lib db' db''
      → (authenticate_api_key token at db'').0 ≡ some k
      → str_eq k.id id ≡ false
  unfolding authenticate_api_key
  revoke_api_key-final id now db {db'} {db''} token at {k} e path yields =
      let dead = Reach-IsDead id db' path (revoke_api_key-IsDead id now db e) in
      elim (Option-cases (find? (is_valid_key token at) db''.keys)) [
        | inl absent ↦ absurd (ground (arith, absent))
        | inr (j, found) ↦
            let same : j ≡ k = ground (arith, found) in
            let (revoked, valid) =
              All-find? (λ j. str_eq j.id id ≡ true → is_some j.revoked_at ≡ true)
                (is_valid_key token at) db''.keys dead.all_revoked found in
            rw (← same) (elim (Bool-cases (str_eq j.id id)) [
              | inl hit ↦ absurd (ground (arith, revoked hit, valid))
              | inr other ↦ other
            ])
      ]

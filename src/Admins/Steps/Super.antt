-- ===== src/Admins/Steps/Super.antt =====
-- What the operations on administrators keep.
use vexa_vm.Common.{
  ℕ, ◌≡◌, refl, sym, ap, ◌∙◌, Bool, String, true, false, ◌&&◌, ◌||◌, not, Option, some, List, [],
  ◌∷◌, ◌++◌, arith, ◌==◌, str_eq, any, count_if, update_where, retain, Bool-cases, Option-cases,
  inl, inr,
}
use vexa_vm.Common.Chars.{nocase_eq}
use vexa_vm.Error.{ok}
use vexa_vm.Db.{is_some}
use vexa_vm.Db.Rows.{All-true, All-mono, any-All}
use vexa_vm.Db.Found.{any-update_where, any-retain, any-append}
use vexa_vm.Addresses.{IpLibrary}
use vexa_vm.Admins.{
  AdminRole, Admin, Accounts, is_enabled_super, is_admin, query_admin, first_admin, insert_admin,
  new_admin, bootstrap_admin, create_admin, set_credentials, update_admin_credentials,
  is_other_super, set_access, update_admin_access, delete_admin, record_admin_login, unwrap_or,
}
use vexa_vm.Admins.Sessions.{
  create_admin_session, authenticate_admin_session, revoke_admin_session, revoke_admin_sessions,
  prune_expired_sessions,
}
use vexa_vm.Admins.Keys.{create_api_key, authenticate_api_key, revoke_api_key}
use vexa_vm.Admins.Steps.{
  Step, Reach, bootstrap, create, set_login, give_access, delete, record_login, sign_in, see,
  sign_out, sign_out_all, prune, create_key, use_key, revoke_key, here, next, AreDistinct, Keeps,
  AreDistinct-retain, AreDistinct-update, AreDistinct-append, alone, others_updated, others_left,
}

insert_admin-Keeps :
    (a : Admin) (db : Accounts) {b : Admin} {db' : Accounts}
    → insert_admin a db ≡ ok (b, db')
    → Keeps db.admins db'.admins
unfolding insert_admin
insert_admin-Keeps a db {b} {db'} e d =
    let table : db'.admins ≡ db.admins ++ a ∷ [] = ground arith in
    let fresh : any (λ c. str_eq c.id a.id || nocase_eq c.username a.username) db.admins ≡ false =
      ground arith in
    rw table (
      AreDistinct-append db.admins a
          (All-mono (λ c. (str_eq c.id a.id || nocase_eq c.username a.username) ≡ false)
            (λ c. str_eq c.id a.id ≡ false) db.admins (λ c h. ground (arith, h))
            (any-All (λ c. str_eq c.id a.id || nocase_eq c.username a.username) db.admins fresh))
          d,
      any-append is_enabled_super db.admins a,
    )

bootstrap_admin-Keeps :
    (username password_hash id : String) (now : ℕ) (db : Accounts) {b : Admin} {db' : Accounts}
    → bootstrap_admin username password_hash id now db ≡ ok (b, db')
    → Keeps db.admins db'.admins
unfolding bootstrap_admin
bootstrap_admin-Keeps username password_hash id now db {b} {db'} e d =
    elim (Option-cases (first_admin db.admins)) [
      | inl empty ↦
          let a = new_admin id username password_hash AdminRole.super_admin now in
          let put : insert_admin a db ≡ ok (b, db') = ground (arith, empty) in
          insert_admin-Keeps a db put d
      | inr (a, there) ↦
          let same : db'.admins ≡ db.admins = ground (arith, there) in rw same (d, λ h. h)
    ]

create_admin-Keeps :
    (username password_hash : String) (role : AdminRole) (id : String) (now : ℕ) (db : Accounts)
    {b : Admin} {db' : Accounts}
    → create_admin username password_hash role id now db ≡ ok (b, db')
    → Keeps db.admins db'.admins
unfolding create_admin
create_admin-Keeps username password_hash role id now db {b} {db'} e d =
    let a = new_admin id username password_hash role now in
    let put : insert_admin a db ≡ ok (b, db') = ground arith in insert_admin-Keeps a db put d

-- An update that changes neither ids nor roles nor what is enabled.
harmless :
    (id : String) (f : Admin → Admin) (rows : List Admin)
    → ((a : Admin) → ((f a).id ≡ a.id) × (is_enabled_super (f a) ≡ is_enabled_super a))
    → Keeps rows (update_where (is_admin id) f rows)
harmless id f rows k d = (
  AreDistinct-update (is_admin id) f rows (λ a. (k a).0) d,
  any-update_where is_enabled_super (is_admin id) f rows (
      All-true
        (λ a. is_enabled_super a ≡ true → is_admin id a ≡ true → is_enabled_super (f a) ≡ true) rows
        (λ a h l. (k a).1 ∙ h)),
)

update_admin_credentials-Keeps :
    (id : String) (username password_hash : Option String) (now : ℕ) (db : Accounts)
    {db' : Accounts}
    → update_admin_credentials id username password_hash now db ≡ ok db'
    → Keeps db.admins db'.admins
unfolding update_admin_credentials
update_admin_credentials-Keeps id username password_hash now db {db'} e d =
    elim (Bool-cases (not (is_some username) && not (is_some password_hash))) [
      | inl nothing ↦
          let same : db'.admins ≡ db.admins = ground (arith, nothing) in rw same (d, λ h. h)
      | inr change ↦
          let table : db'.admins
              ≡ update_where (is_admin id) (set_credentials username password_hash now) db.admins =
            ground (arith, change) in
          rw table (
            harmless id (set_credentials username password_hash now) db.admins (λ a. (refl, refl))
              d)
    ]

record_admin_login-Keeps :
    (id : String) (at : ℕ) (db : Accounts) {db' : Accounts}
    → record_admin_login id at db ≡ ok db'
    → Keeps db.admins db'.admins
unfolding record_admin_login
record_admin_login-Keeps id at db {db'} e d =
    let f = λ (a : Admin). record a { last_login_at = some at; updated_at = at } in
    let table : db'.admins ≡ update_where (is_admin id) f db.admins = ground arith in
    rw table (harmless id f db.admins (λ a. (refl, refl)) d)

update_admin_access-Keeps :
    (id : String) (role : Option AdminRole) (enabled : Option Bool) (now : ℕ) (db : Accounts)
    {b : Admin} {db' : Accounts}
    → update_admin_access id role enabled now db ≡ ok (b, db')
    → Keeps db.admins db'.admins
unfolding update_admin_access
update_admin_access-Keeps id role enabled now db {b} {db'} e d =
    elim (Option-cases (query_admin id db)) [
      | inl absent ↦ absurd (ground (arith, absent))
      | inr (c, found) ↦
          let f = set_access (unwrap_or role c.role) (unwrap_or enabled c.enabled) now in
          let table : db'.admins ≡ update_where (is_admin id) f db.admins = ground (arith, found) in
          let only = alone id db.admins d found in
          rw table (
            AreDistinct-update (is_admin id) f db.admins (λ a. refl) d,
            λ h. elim (Bool-cases (count_if (is_other_super id) db.admins == 0)) [
              | inl last ↦
                  let fine : is_enabled_super c ≡ true → is_enabled_super (f c) ≡ true =
                    λ super. ground (arith, found, last, super) in
                  any-update_where is_enabled_super (is_admin id) f db.admins
                    (All-mono (λ a. is_admin id a ≡ true → a ≡ c)
                      (λ a.
                        is_enabled_super a ≡ true
                        → is_admin id a ≡ true
                        → is_enabled_super (f a) ≡ true)
                      db.admins (λ a k super hit. fine (ap is_enabled_super (sym (k hit)) ∙ super))
                      only)
                    h
              | inr others ↦ others_updated id f db.admins others
            ],
          )
    ]

delete_admin-Keeps :
    (id : String) (db : Accounts) {db' : Accounts}
    → delete_admin id db ≡ ok db'
    → Keeps db.admins db'.admins
unfolding delete_admin
delete_admin-Keeps id db {db'} e d = elim (Option-cases (query_admin id db)) [
  | inl absent ↦ absurd (ground (arith, absent))
  | inr (c, found) ↦
      let keep = λ (a : Admin). not (is_admin id a) in
      let table : db'.admins ≡ retain keep db.admins = ground (arith, found) in
      let only = alone id db.admins d found in
      rw table (
        AreDistinct-retain keep db.admins d,
        λ h. elim (Bool-cases (count_if (is_other_super id) db.admins == 0)) [
          | inl last ↦
              let plain : is_enabled_super c ≡ false = ground (arith, found, last) in
              any-retain is_enabled_super keep db.admins
                (All-mono (λ a. is_admin id a ≡ true → a ≡ c)
                  (λ a. is_enabled_super a ≡ true → keep a ≡ true) db.admins
                  (λ a k super. elim (Bool-cases (is_admin id a)) [
                    | inl hit ↦ absurd (ground (arith, ap is_enabled_super (k hit), super, plain))
                    | inr miss ↦ ground (arith, miss)
                  ])
                  only)
                h
          | inr others ↦ others_left id db.admins others
        ],
      )
]

same_admins : (db db' : Accounts) → db'.admins ≡ db.admins → Keeps db.admins db'.admins
same_admins db db' e d = rw e (d, λ h. h)

module _ {N : Type 0} (lib : IpLibrary N) where
  Step-Keeps : (db : Accounts) {db' : Accounts} → Step lib db db' → Keeps db.admins db'.admins
  unfolding create_admin_session authenticate_admin_session revoke_admin_session
      revoke_admin_sessions prune_expired_sessions create_api_key authenticate_api_key
      revoke_api_key
  Step-Keeps db (bootstrap username password_hash id now e) =
      bootstrap_admin-Keeps username password_hash id now db e
  Step-Keeps db (create username password_hash role id now e) =
      create_admin-Keeps username password_hash role id now db e
  Step-Keeps db (set_login id username password_hash now e) =
      update_admin_credentials-Keeps id username password_hash now db e
  Step-Keeps db (give_access id role enabled now e) =
      update_admin_access-Keeps id role enabled now db e
  Step-Keeps db (delete id e) = delete_admin-Keeps id db e
  Step-Keeps db (record_login id at e) = record_admin_login-Keeps id at db e
  Step-Keeps db {db'} (sign_in id token csrf expires source agent now e) =
      same_admins db db' (ground arith)
  Step-Keeps db {db'} (see token now) =
      same_admins db (authenticate_admin_session token now db).1 (ground arith)
  Step-Keeps db (sign_out token) = λ d. (d, λ h. h)
  Step-Keeps db (sign_out_all id) = λ d. (d, λ h. h)
  Step-Keeps db (prune now) = λ d. (d, λ h. h)
  Step-Keeps db {db'} (create_key name token prefix permissions allowlist by until id now e) =
      same_admins db db' (ground arith)
  Step-Keeps db {db'} (use_key token now) =
      same_admins db (authenticate_api_key token now db).1 (ground arith)
  Step-Keeps db {db'} (revoke_key id now e) = same_admins db db' (ground arith)

  Reach-Keeps : (db : Accounts) {db' : Accounts} → Reach lib db db' → Keeps db.admins db'.admins
  Reach-Keeps db here d = (d, λ h. h)
  Reach-Keeps db (next {db'} path step) d =
      let (d', kept) = Reach-Keeps db path d in
      let (d'', kept') = Step-Keeps db' step d' in (d'', λ h. kept' (kept h))

  -- Where no two administrators share an id and one of them is an enabled super administrator, an
  -- enabled super administrator is left after any sequence of operations that the routes make.
  pub Reach-keeps_super :
      (db : Accounts) {db' : Accounts}
      → AreDistinct db.admins
      → Reach lib db db'
      → any is_enabled_super db.admins ≡ true
      → any is_enabled_super db'.admins ≡ true
  Reach-keeps_super db d path h = (Reach-Keeps db path d).1 h

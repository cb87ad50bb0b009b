-- ===== src/Admins/Steps/Book/Refined.antt =====
-- The table of sessions implements the book.
use mathlib.Core.Path.{fun_ext}
use vexa_vm.Common.{
  ℕ, ◌≡◌, refl, sym, ap, ◌∙◌, Bool, String, true, false, ◌&&◌, ◌||◌, not, Option, List, [], ◌∷◌,
  ◌++◌, arith, ltb, leb, ◌==◌, str_eq, any, find?, retain, Bool-cases, Option-cases, inl, inr,
}
use vexa_vm.Error.{ok}
use vexa_vm.Db.{is_some}
use vexa_vm.Db.Rows.{All-true, All-mono, All-find?, any-All}
use vexa_vm.Addresses.{IpLibrary}
use vexa_vm.Admins.{
  AdminRole, Admin, Session, ApiKey, Accounts, is_admin, first_admin, insert_admin, new_admin,
  bootstrap_admin, create_admin, update_admin_credentials, update_admin_access, delete_admin,
  record_admin_login,
}
use vexa_vm.Admins.Sessions.{
  has_token, enabled_admin, is_current, create_admin_session, authenticate_admin_session,
  verify_admin_session_csrf, revoke_admin_session, revoke_admin_sessions, prune_expired_sessions,
}
use vexa_vm.Admins.Keys.{create_api_key, authenticate_api_key, revoke_api_key}
use vexa_vm.Admins.Steps.{
  Step, Reach, bootstrap, create, set_login, give_access, delete, record_login, sign_in, see,
  sign_out, sign_out_all, prune, create_key, use_key, revoke_key, here, next,
}
use vexa_vm.Admins.Steps.Book.{
  Entry, Book, Event, opened, closed_all, nothing, apply, passes, is_enabled, admits, confirms,
  book, event, retrace,
}
use vexa_vm.Admins.Steps.Book.Lists.{
  AreApart, AreApart-retain, AreApart-append, AreApart-update, book-retain, book-close, book-append,
  book-update, any_token,
}

abbrev Refines : List Session → List Session → Event → Type 0
Refines rows rows' e =
    AreApart rows → AreApart rows' × ((t : ℕ) → book rows' t ≡ apply e (book rows) t)

unchanged :
    (db db' : Accounts) → db'.sessions ≡ db.sessions → Refines db.sessions db'.sessions nothing
unchanged db db' e a = rw e (a, λ t. refl)

create_admin_session-Refines :
    (id : String) (token csrf expires : ℕ) (source agent : Option String) (now : ℕ) (db : Accounts)
    {db' : Accounts}
    → create_admin_session id token csrf expires source agent now db ≡ ok db'
    → Refines db.sessions db'.sessions
        (opened token (record { admin_id = id; csrf_hash = csrf; expires_at = expires }))
unfolding create_admin_session
create_admin_session-Refines id token csrf expires source agent now db {db'} e a =
    let s : Session = record {
      token_hash = token;
      csrf_hash = csrf;
      admin_id = id;
      source_ip = source;
      user_agent = agent;
      created_at = now;
      expires_at = expires;
      last_seen_at = now;
    } in
    let table : db'.sessions ≡ db.sessions ++ s ∷ [] = ground arith in
    let fresh : any (λ t. t.token_hash == token || t.csrf_hash == csrf) db.sessions ≡ false =
      ground arith in
    let free =
      All-mono (λ t. (t.token_hash == token || t.csrf_hash == csrf) ≡ false)
        (λ t. has_token token t ≡ false) db.sessions (λ t h. ground (arith, h))
        (any-All (λ t. t.token_hash == token || t.csrf_hash == csrf) db.sessions fresh) in
    rw table (AreApart-append db.sessions s free a, λ t. book-append s t db.sessions free)

authenticate_admin_session-Refines :
    (token now : ℕ) (db : Accounts)
    → Refines db.sessions (authenticate_admin_session token now db).1.sessions nothing
unfolding authenticate_admin_session
authenticate_admin_session-Refines token now db a =
    let f = λ (t : Session). record t { last_seen_at = now } in
    elim (Option-cases (find? (is_current token now db) db.sessions)) [
      | inl absent ↦ rw (absent, authenticate_admin_session) (a, λ t. refl)
      | inr (s, found) ↦
          rw (found, authenticate_admin_session)
            (
              AreApart-update (has_token token) f db.sessions (λ t. (refl, refl)) a,
              λ t. book-update (has_token token) f t db.sessions (λ u. (refl, refl)),
            )
    ]

delete_admin-sessions :
    (id : String) (db : Accounts) {db' : Accounts}
    → delete_admin id db ≡ ok db'
    → db'.sessions ≡ retain (λ s. not (str_eq s.admin_id id)) db.sessions
unfolding delete_admin
delete_admin-sessions id db e = ground arith

closed_all-Refines :
    (id : String) (ss : List Session)
    → Refines ss (retain (λ s. not (str_eq s.admin_id id)) ss) (closed_all id)
closed_all-Refines id ss a = (
  AreApart-retain (λ s. not (str_eq s.admin_id id)) ss a,
  λ t. book-retain (λ e. not (str_eq e.admin_id id)) t ss a,
)

insert_admin-sessions :
    (a : Admin) (db : Accounts) {b : Admin} {db' : Accounts}
    → insert_admin a db ≡ ok (b, db')
    → db'.sessions ≡ db.sessions
unfolding insert_admin
insert_admin-sessions a db e = ground arith

bootstrap_admin-sessions :
    (username password_hash id : String) (now : ℕ) (db : Accounts) {b : Admin} {db' : Accounts}
    → bootstrap_admin username password_hash id now db ≡ ok (b, db')
    → db'.sessions ≡ db.sessions
unfolding bootstrap_admin
bootstrap_admin-sessions username password_hash id now db {b} {db'} e =
    elim (Option-cases (first_admin db.admins)) [
      | inl empty ↦
          let a = new_admin id username password_hash AdminRole.super_admin now in
          let put : insert_admin a db ≡ ok (b, db') = ground (arith, empty) in
          insert_admin-sessions a db put
      | inr (a, there) ↦ ground (arith, there)
    ]

create_admin-sessions :
    (username password_hash : String) (role : AdminRole) (id : String) (now : ℕ) (db : Accounts)
    {b : Admin} {db' : Accounts}
    → create_admin username password_hash role id now db ≡ ok (b, db')
    → db'.sessions ≡ db.sessions
unfolding create_admin
create_admin-sessions username password_hash role id now db {b} {db'} e =
    let a = new_admin id username password_hash role now in
    let put : insert_admin a db ≡ ok (b, db') = ground arith in insert_admin-sessions a db put

update_admin_credentials-sessions :
    (id : String) (username password_hash : Option String) (now : ℕ) (db : Accounts)
    {db' : Accounts}
    → update_admin_credentials id username password_hash now db ≡ ok db'
    → db'.sessions ≡ db.sessions
unfolding update_admin_credentials
update_admin_credentials-sessions id username password_hash now db e = ground arith

update_admin_access-sessions :
    (id : String) (role : Option AdminRole) (enabled : Option Bool) (now : ℕ) (db : Accounts)
    {b : Admin} {db' : Accounts}
    → update_admin_access id role enabled now db ≡ ok (b, db')
    → db'.sessions ≡ db.sessions
unfolding update_admin_access
update_admin_access-sessions id role enabled now db e = ground arith

module _ {N : Type 0} (lib : IpLibrary N) where
  create_api_key-sessions :
      (name : String) (token : ℕ) (prefix : String) (permissions allowlist : List String)
      (created_by : Option String) (until : Option ℕ) (id : String) (now : ℕ) (db : Accounts)
      {k : ApiKey} {db' : Accounts}
      → create_api_key lib name token prefix permissions allowlist created_by until id now db
        ≡ ok (k, db')
      → db'.sessions ≡ db.sessions
  unfolding create_api_key
  create_api_key-sessions name token prefix permissions allowlist created_by until id now db e =
      ground arith

  Step-Refines :
      (db : Accounts) {db' : Accounts} (s : Step lib db db')
      → Refines db.sessions db'.sessions (event lib s)
  unfolding revoke_admin_session revoke_admin_sessions prune_expired_sessions record_admin_login
      authenticate_api_key revoke_api_key
  Step-Refines db {db'} (bootstrap username password_hash id now e) =
      unchanged db db' (bootstrap_admin-sessions username password_hash id now db e)
  Step-Refines db {db'} (create username password_hash role id now e) =
      unchanged db db' (create_admin-sessions username password_hash role id now db e)
  Step-Refines db {db'} (set_login id username password_hash now e) =
      unchanged db db' (update_admin_credentials-sessions id username password_hash now db e)
  Step-Refines db {db'} (give_access id role enabled now e) =
      unchanged db db' (update_admin_access-sessions id role enabled now db e)
  Step-Refines db {db'} (delete id e) =
      let table = delete_admin-sessions id db e in
      λ a. rw table (closed_all-Refines id db.sessions a)
  Step-Refines db {db'} (record_login id at e) = unchanged db db' (ground arith)
  Step-Refines db (sign_in id token csrf expires source agent now e) =
      create_admin_session-Refines id token csrf expires source agent now db e
  Step-Refines db (see token now) = authenticate_admin_session-Refines token now db
  Step-Refines db (sign_out token) = λ a. (
    AreApart-retain (λ s. not (has_token token s)) db.sessions a,
    λ t. book-close token t db.sessions,
  )
  Step-Refines db (sign_out_all id) = closed_all-Refines id db.sessions
  Step-Refines db (prune now) = λ a. (
    AreApart-retain (λ s. not (leb s.expires_at now)) db.sessions a,
    λ t. book-retain (λ e. not (leb e.expires_at now)) t db.sessions a,
  )
  Step-Refines db {db'} (create_key name token prefix permissions allowlist by until id now e) =
      unchanged db db'
        (create_api_key-sessions name token prefix permissions allowlist by until id now db e)
  Step-Refines db (use_key token now) =
      unchanged db (authenticate_api_key token now db).1 (ground arith)
  Step-Refines db {db'} (revoke_key id now e) = unchanged db db' (ground arith)

  Reach-Refines :
      (db : Accounts) {db' : Accounts} (path : Reach lib db db')
      → AreApart db.sessions
      → AreApart db'.sessions × (book db'.sessions ≡ retrace lib path (book db.sessions))
  Reach-Refines db here a = (a, refl)
  Reach-Refines db (next {db'} path step) a =
      let (a', same) = Reach-Refines db path a in
      let (a'', stepped) = Step-Refines db' step a' in
      (a'', fun_ext stepped ∙ ap (apply (event lib step)) same)

is_some-find? : {A : Type 0} (p : A → Bool) (xs : List A) → is_some (find? p xs) ≡ any p xs
is_some-find? p [] = refl
is_some-find? p (x ∷ xs) = elim (Bool-cases (p x)) [
  | inl hit ↦ rw hit refl
  | inr miss ↦ rw miss (is_some-find? p xs)
]

authenticates :
    (token now : ℕ) (db : Accounts)
    → is_some (authenticate_admin_session token now db).0
      ≡ any (is_current token now db) db.sessions
unfolding authenticate_admin_session
authenticates token now db = elim (Option-cases (find? (is_current token now db) db.sessions)) [
  | inl absent ↦
      rw (absent, authenticate_admin_session)
        (ap is_some (sym absent) ∙ is_some-find? (is_current token now db) db.sessions)
  | inr (s, found) ↦
      let (known, live) =
        All-find? (λ t. Unit {0}) (is_current token now db) db.sessions
          (All-true (λ t. Unit {0}) db.sessions (λ t. tt)) found in
      let seen : any (is_current token now db) db.sessions ≡ true =
        sym (is_some-find? (is_current token now db) db.sessions) ∙ ap is_some found in
      elim (Option-cases (enabled_admin s db)) [
        | inl absent ↦ absurd (ground (arith, live, absent))
        | inr (a, there) ↦ rw (found, authenticate_admin_session, seen, there) refl
      ]
]

enabled-is :
    (s : Session) (db : Accounts) → is_some (enabled_admin s db) ≡ is_enabled s.admin_id db.admins
enabled-is s db = is_some-find? (λ a. is_admin s.admin_id a && a.enabled) db.admins

module _ {N : Type 0} (lib : IpLibrary N) where
  -- Where no two sessions share a token, the operations on accounts, in any order, implement the
  -- book: after them a token signs somebody in exactly if the book says so, and a CSRF credential
  -- passes exactly if the book has it for that token.
  pub Reach-implements :
      (db : Accounts) {db' : Accounts} (path : Reach lib db db') (token csrf now : ℕ)
      → AreApart db.sessions
      → (is_some (authenticate_admin_session token now db').0
          ≡ admits (retrace lib path (book db.sessions)) db'.admins token now)
        × (verify_admin_session_csrf token csrf now db'
            ≡ confirms (retrace lib path (book db.sessions)) db'.admins token csrf now)
  unfolding verify_admin_session_csrf
  Reach-implements db {db'} path token csrf now a =
      let (a', same) = Reach-Refines lib db path a in
      let live = λ (e : Entry). ltb now e.expires_at && is_enabled e.admin_id db'.admins in
      let right = λ (e : Entry). live e && e.csrf_hash == csrf in
      (
        authenticates token now db'
            ∙ any_token token (is_current token now db') live db'.sessions
                (λ s. ground (arith, enabled-is s db')) a'
            ∙ ap (λ (b : Book). passes live (b token)) same,
        any_token token (λ s. is_current token now db' s && s.csrf_hash == csrf) right db'.sessions
              (λ s. ground (arith, enabled-is s db')) a'
            ∙ ap (λ (b : Book). passes right (b token)) same,
      )

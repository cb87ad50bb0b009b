-- ===== src/Admins.antt =====
-- src/db.rs, "Administrators and browser sessions" and "API credentials": who may use the panel.
--
-- A hash is the number that its 32 bytes spell. The functions return rows; the records that the
-- source returns are these without the hashes. JSON columns hold the lists that they encode. Of
-- other tables only the references to a deleted administrator change, which are left out.
pub mod Sessions
pub mod Keys
pub mod Steps
mod Tests
use vexa_vm.Common.{
  ℕ, Bool, String, true, false, ◌&&◌, ◌||◌, not, Option, none, some, List, [], ◌∷◌, ◌++◌,
  if◌then◌else◌, leb, ◌==◌, str_eq, any, find?, count_if, update_where, retain,
}
use vexa_vm.Common.Chars.{nocase_eq}
use vexa_vm.Error.{
  Result, AppResult, AppError, ok, err, not_found, conflict, database, ◌>>=◌, ◌>>◌, reject_if,
}
use vexa_vm.Db.{is_some, sql_eq, require_changed}
use vexa_vm.Db.Text.{trim, validate_non_empty}

pub data AdminRole : Type 0 where
  super_admin admin read_only : AdminRole

pub record Admin : Type 0 where
  pub id : String
  pub username : String
  pub password_hash : String
  pub role : AdminRole
  pub enabled : Bool
  pub created_at : ℕ
  pub updated_at : ℕ
  pub last_login_at : Option ℕ

pub record Session : Type 0 where
  pub token_hash : ℕ
  pub csrf_hash : ℕ
  pub admin_id : String
  pub source_ip : Option String
  pub user_agent : Option String
  pub created_at : ℕ
  pub expires_at : ℕ
  pub last_seen_at : ℕ

pub record ApiKey : Type 0 where
  pub id : String
  pub name : String
  pub token_hash : ℕ
  pub prefix : String
  pub permissions : List String
  pub ip_allowlist : List String
  pub created_by : Option String
  pub created_at : ℕ
  pub expires_at : Option ℕ
  pub last_used_at : Option ℕ
  pub revoked_at : Option ℕ

pub record Accounts : Type 0 where
  pub admins : List Admin
  pub sessions : List Session
  pub keys : List ApiKey

abbrev pub ok_or : {A : Type 0} → Option A → AppError → AppResult A
ok_or none e = err e
ok_or (some a) e = ok a

abbrev pub is_super : AdminRole → Bool
is_super super_admin = true
is_super _ = false

-- `role = 'super_admin' AND enabled = 1`.
abbrev pub is_enabled_super : Admin → Bool
is_enabled_super a = is_super a.role && a.enabled

abbrev pub is_admin : String → Admin → Bool
is_admin id a = str_eq a.id id

abbrev pub query_admin : String → Accounts → Option Admin
query_admin id db = find? (is_admin id) db.admins

-- `ORDER BY created_at LIMIT 1`.
abbrev earlier : Admin → Option Admin → Admin
earlier a none = a
earlier a (some b) = if leb a.created_at b.created_at then a else b

abbrev pub first_admin : List Admin → Option Admin
first_admin [] = none
first_admin (a ∷ rest) = some (earlier a (first_admin rest))

unfoldable pub insert_admin : Admin → Accounts → AppResult (Admin × Accounts)
insert_admin a db = do
  reject_if (any (λ b. str_eq b.id a.id || nocase_eq b.username a.username) db.admins)
      (database "UNIQUE constraint failed")
  let db' = record db { admins = db.admins ++ a ∷ [] }
  row ← ok_or (query_admin a.id db') (not_found "admin")
  ok (row, db')

abbrev pub new_admin : String → String → String → AdminRole → ℕ → Admin
new_admin id username password_hash role now = record {
  id = id;
  username = trim username;
  password_hash = password_hash;
  role = role;
  enabled = true;
  created_at = now;
  updated_at = now;
  last_login_at = none;
}

unfoldable pub bootstrap_admin :
    String → String → (id : String) (now : ℕ) → Accounts → AppResult (Admin × Accounts)
bootstrap_admin username password_hash id now db = do
  validate_non_empty "username" username
  validate_non_empty "password hash" password_hash
  elim (first_admin db.admins) [
    | some a ↦ ok (a, db)
    | none ↦ insert_admin (new_admin id username password_hash super_admin now) db
  ]

unfoldable pub create_admin :
    String → String → AdminRole → (id : String) (now : ℕ) → Accounts → AppResult (Admin × Accounts)
create_admin username password_hash role id now db = do
  validate_non_empty "username" username
  validate_non_empty "password hash" password_hash
  insert_admin (new_admin id username password_hash role now) db

abbrev pub unwrap_or : {A : Type 0} → Option A → A → A
unwrap_or none b = b
unwrap_or (some a) b = a

abbrev validate_some : String → Option String → AppResult (Unit {0})
validate_some label none = ok tt
validate_some label (some value) = validate_non_empty label value

abbrev trimmed : Option String → Option String
trimmed none = none
trimmed (some s) = some (trim s)

-- The new name is another administrator's, if there is a row to rename.
abbrev taken : String → Option String → List Admin → Bool
taken id none admins = false
taken id (some name) admins =
    any (is_admin id) admins && any (λ a. not (str_eq a.id id) && nocase_eq a.username name) admins

abbrev pub set_credentials : Option String → Option String → ℕ → Admin → Admin
set_credentials username password_hash now a = record a {
  username = unwrap_or (trimmed username) a.username;
  password_hash = unwrap_or password_hash a.password_hash;
  updated_at = now;
}

unfoldable pub update_admin_credentials :
    String → Option String → Option String → ℕ → Accounts → AppResult Accounts
update_admin_credentials id username password_hash now db =
    if not (is_some username) && not (is_some password_hash) then ok db else (do
      validate_some "username" username
      validate_some "password hash" password_hash
      reject_if (taken id (trimmed username) db.admins) (database "UNIQUE constraint failed")
      require_changed (count_if (is_admin id) db.admins) "admin"
      ok (record db {
        admins = update_where (is_admin id) (set_credentials username password_hash now) db.admins;
      }))

unfoldable pub set_admin_enabled : String → Bool → ℕ → Accounts → AppResult Accounts
set_admin_enabled id enabled now db = do
  require_changed (count_if (is_admin id) db.admins) "admin"
  ok (record db {
    admins =
        update_where (is_admin id) (λ a. record a { enabled = enabled; updated_at = now })
          db.admins;
  })

-- `role = 'super_admin' AND enabled = 1 AND id <> …`.
abbrev pub is_other_super : String → Admin → Bool
is_other_super id a = is_enabled_super a && not (str_eq a.id id)

abbrev pub set_access : AdminRole → Bool → ℕ → Admin → Admin
set_access role enabled now a = record a { role = role; enabled = enabled; updated_at = now }

unfoldable pub update_admin_access :
    String → Option AdminRole → Option Bool → ℕ → Accounts → AppResult (Admin × Accounts)
update_admin_access id role enabled now db = do
  current ← ok_or (query_admin id db) (not_found "admin")
  let next_role = unwrap_or role current.role
  let next_enabled = unwrap_or enabled current.enabled
  reject_if
      (is_enabled_super current
        && (not (is_super next_role) || not next_enabled)
        && count_if (is_other_super id) db.admins == 0)
      (conflict "at least one enabled super administrator is required")
  let db' = record db {
    admins = update_where (is_admin id) (set_access next_role next_enabled now) db.admins;
  }
  row ← ok_or (query_admin id db') (not_found "admin")
  ok (row, db')

-- Sessions go by `ON DELETE CASCADE`, and the creator of a key by `ON DELETE SET NULL`.
unfoldable pub delete_admin : String → Accounts → AppResult Accounts
delete_admin id db = do
  current ← ok_or (query_admin id db) (not_found "admin")
  reject_if (is_enabled_super current && count_if (is_other_super id) db.admins == 0)
      (conflict "the last enabled super administrator cannot be deleted")
  require_changed (count_if (is_admin id) db.admins) "admin"
  ok (record {
    admins = retain (λ a. not (is_admin id a)) db.admins;
    sessions = retain (λ s. not (str_eq s.admin_id id)) db.sessions;
    keys = update_where (λ k. sql_eq k.created_by id) (λ k. record k { created_by = none }) db.keys;
  })

unfoldable pub record_admin_login : String → ℕ → Accounts → AppResult Accounts
record_admin_login id at db = do
  require_changed (count_if (is_admin id) db.admins) "admin"
  ok (record db {
    admins =
        update_where (is_admin id) (λ a. record a { last_login_at = some at; updated_at = at })
          db.admins;
  })

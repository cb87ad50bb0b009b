-- ===== src/Admins/Sessions.antt =====
-- src/db.rs: browser sessions of administrators.
use vexa_vm.Common.{
  ℕ, Bool, String, ◌&&◌, ◌||◌, not, Option, none, some, [], ◌∷◌, ◌++◌, ltb, leb, ◌==◌, str_eq, any,
  find?, count_if, update_where, retain,
}
use vexa_vm.Error.{AppResult, ok, validation, database, ◌>>◌, reject_if}
use vexa_vm.Db.{is_some}
use vexa_vm.Admins.{Admin, Session, Accounts, is_admin}

unfoldable pub create_admin_session :
    String
    → (token csrf expires : ℕ) (source_ip user_agent : Option String) (now : ℕ) → Accounts
    → AppResult Accounts
create_admin_session admin token csrf expires source_ip user_agent now db = do
  reject_if (leb expires now) (validation "session expiry must be in the future")
  reject_if (any (λ s. s.token_hash == token || s.csrf_hash == csrf) db.sessions)
      (database "UNIQUE constraint failed")
  reject_if (not (any (is_admin admin) db.admins)) (database "FOREIGN KEY constraint failed")
  let s : Session = record {
    token_hash = token;
    csrf_hash = csrf;
    admin_id = admin;
    source_ip = source_ip;
    user_agent = user_agent;
    created_at = now;
    expires_at = expires;
    last_seen_at = now;
  }
  ok (record db { sessions = db.sessions ++ s ∷ [] })

abbrev pub has_token : ℕ → Session → Bool
has_token token s = s.token_hash == token

-- The join with the administrators, where `a.enabled = 1`.
abbrev pub enabled_admin : Session → Accounts → Option Admin
enabled_admin s db = find? (λ a. is_admin s.admin_id a && a.enabled) db.admins

abbrev pub is_current : ℕ → ℕ → Accounts → Session → Bool
is_current token now db s =
    has_token token s && ltb now s.expires_at && is_some (enabled_admin s db)

-- A row of the join.
abbrev pub joined : Option Admin → Session → Option (Admin × Session)
joined none s = none
joined (some a) s = some (a, s)

unfoldable pub authenticate_admin_session : ℕ → ℕ → Accounts → Option (Admin × Session) × Accounts
authenticate_admin_session token now db = elim (find? (is_current token now db) db.sessions) [
  | none ↦ (none, db)
  | some s ↦ (
    joined (enabled_admin s db) s,
    record db {
      sessions = update_where (has_token token) (λ t. record t { last_seen_at = now }) db.sessions;
    },
  )
]

unfoldable pub verify_admin_session_csrf : ℕ → ℕ → ℕ → Accounts → Bool
verify_admin_session_csrf token csrf now db =
    any (λ s. is_current token now db s && s.csrf_hash == csrf) db.sessions

unfoldable pub revoke_admin_session : ℕ → Accounts → Bool × Accounts
revoke_admin_session token db = (
  ltb 0 (count_if (has_token token) db.sessions),
  record db { sessions = retain (λ s. not (has_token token s)) db.sessions },
)

unfoldable pub revoke_admin_sessions : String → Accounts → ℕ × Accounts
revoke_admin_sessions admin db = (
  count_if (λ s. str_eq s.admin_id admin) db.sessions,
  record db { sessions = retain (λ s. not (str_eq s.admin_id admin)) db.sessions },
)

unfoldable pub prune_expired_sessions : ℕ → Accounts → ℕ × Accounts
prune_expired_sessions now db = (
  count_if (λ s. leb s.expires_at now) db.sessions,
  record db { sessions = retain (λ s. not (leb s.expires_at now)) db.sessions },
)

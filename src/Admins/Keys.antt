-- ===== src/Admins/Keys.antt =====
-- src/db.rs: keys of the API.
use vexa_vm.Common.{
  ℕ, Bool, String, str_append, false, ◌&&◌, ◌||◌, not, Option, none, some, List, [], ◌∷◌, ◌++◌,
  if◌then◌else◌, leb, ◌==◌, str_eq, any, find?, count_if, update_where,
}
use vexa_vm.Error.{AppResult, ok, validation, not_found, database, ◌>>=◌, ◌>>◌, reject_if}
use vexa_vm.Db.{is_some, require_changed}
use vexa_vm.Db.Text.{trim, validate_non_empty}
use vexa_vm.Addresses.{IpLibrary}
use vexa_vm.Admins.{ApiKey, Accounts, ok_or, is_admin}

abbrev pub query_api_key : String → Accounts → Option ApiKey
query_api_key id db = find? (λ k. str_eq k.id id) db.keys

abbrev is_past : Option ℕ → ℕ → Bool
is_past none now = false
is_past (some expiry) now = leb expiry now

-- `REFERENCES admins(id)`, which a NULL passes.
abbrev is_unknown : Option String → Accounts → Bool
is_unknown none db = false
is_unknown (some id) db = not (any (is_admin id) db.admins)

module _ {N : Type 0} (lib : IpLibrary N) where
  unfoldable pub normalize_allowlist : List String → List String → AppResult (List String)
  normalize_allowlist normalized [] = ok normalized
  normalize_allowlist normalized (cidr ∷ cidrs) = do
    network ←
        ok_or (lib.parse_network (trim cidr))
          (validation (str_append "invalid API key CIDR: " cidr))
    let canonical = lib.network_to_string network
    normalize_allowlist
        (if any (str_eq canonical) normalized then normalized else normalized ++ canonical ∷ [])
        cidrs

  unfoldable pub create_api_key :
      String
      → (token : ℕ) (prefix : String) (permissions ip_allowlist : List String)
        (created_by : Option String) (expires_at : Option ℕ) (id : String) (now : ℕ)
      → Accounts
      → AppResult (ApiKey × Accounts)
  create_api_key name token prefix permissions ip_allowlist created_by expires_at id now db = do
    validate_non_empty "API key name" name
    reject_if (is_past expires_at now) (validation "API key expiry must be in the future")
    allowlist ← normalize_allowlist [] ip_allowlist
    let key : ApiKey = record {
      id = id;
      name = trim name;
      token_hash = token;
      prefix = prefix;
      permissions = permissions;
      ip_allowlist = allowlist;
      created_by = created_by;
      created_at = now;
      expires_at = expires_at;
      last_used_at = none;
      revoked_at = none;
    }
    reject_if (any (λ k. str_eq k.id id || k.token_hash == token) db.keys)
        (database "UNIQUE constraint failed")
    reject_if (is_unknown created_by db) (database "FOREIGN KEY constraint failed")
    let db' = record db { keys = db.keys ++ key ∷ [] }
    row ← ok_or (query_api_key id db') (not_found "API key")
    ok (row, db')

-- `revoked_at IS NULL AND (expires_at IS NULL OR expires_at > …)`.
abbrev pub is_valid_key : ℕ → ℕ → ApiKey → Bool
is_valid_key token now k =
    k.token_hash == token && not (is_some k.revoked_at) && not (is_past k.expires_at now)

unfoldable pub authenticate_api_key : ℕ → ℕ → Accounts → Option ApiKey × Accounts
authenticate_api_key token now db = elim (find? (is_valid_key token now) db.keys) [
  | none ↦ (none, db)
  | some k ↦ (
    some k,
    record db {
      keys =
          update_where (λ j. j.token_hash == token) (λ j. record j { last_used_at = some now })
            db.keys;
    },
  )
]

-- `COALESCE(revoked_at, …)`.
abbrev pub revoke_key : ℕ → ApiKey → ApiKey
revoke_key now k = record k { revoked_at = elim k.revoked_at [ none ↦ some now | some t ↦ some t ] }

unfoldable pub revoke_api_key : String → ℕ → Accounts → AppResult Accounts
revoke_api_key id now db = do
  require_changed (count_if (λ k. str_eq k.id id) db.keys) "API key"
  ok (record db { keys = update_where (λ k. str_eq k.id id) (revoke_key now) db.keys })

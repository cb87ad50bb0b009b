-- ===== src/Admins/Steps/Book.antt =====
-- What sessions promise, without the table: a book says of each token whom it signs in, with which
-- CSRF credential and until when.
pub mod Lists
pub mod Refined
use vexa_vm.Common.{
  ℕ, Bool, String, true, false, ◌&&◌, ◌||◌, not, Option, none, some, List, [], ◌∷◌, if◌then◌else◌,
  ltb, leb, ◌==◌, str_eq, any, find?,
}
use vexa_vm.Addresses.{IpLibrary}
use vexa_vm.Admins.{Admin, Session, Accounts, is_admin}
use vexa_vm.Admins.Sessions.{has_token}
use vexa_vm.Admins.Steps.{
  Step, Reach, bootstrap, create, set_login, give_access, delete, record_login, sign_in, see,
  sign_out, sign_out_all, prune, create_key, use_key, revoke_key, here, next,
}

pub record Entry : Type 0 where
  pub admin_id : String
  pub csrf_hash : ℕ
  pub expires_at : ℕ

abbrev pub Book : Type 0
Book = ℕ → Option Entry

abbrev pub keep : (Entry → Bool) → Option Entry → Option Entry
keep p none = none
keep p (some e) = if p e then some e else none

pub data Event : Type 0 where
  opened : (token : ℕ) (e : Entry) → Event
  closed : (token : ℕ) → Event
  closed_all : (admin_id : String) → Event
  pruned : (now : ℕ) → Event
  nothing : Event

abbrev pub apply : Event → Book → Book
apply (opened token e) b = λ t. if t == token then some e else b t
apply (closed token) b = λ t. if t == token then none else b t
apply (closed_all id) b = λ t. keep (λ e. not (str_eq e.admin_id id)) (b t)
apply (pruned now) b = λ t. keep (λ e. not (leb e.expires_at now)) (b t)
apply nothing b = b

abbrev passes : (Entry → Bool) → Option Entry → Bool
passes p none = false
passes p (some e) = p e

abbrev is_enabled : String → List Admin → Bool
is_enabled id admins = any (λ a. is_admin id a && a.enabled) admins

-- The token signs somebody in at the time.
abbrev pub admits : Book → List Admin → ℕ → ℕ → Bool
admits b admins token now =
    passes (λ e. ltb now e.expires_at && is_enabled e.admin_id admins) (b token)

-- The CSRF credential is that of the token, which signs somebody in.
abbrev pub confirms : Book → List Admin → ℕ → ℕ → ℕ → Bool
confirms b admins token csrf now =
    passes (λ e. (ltb now e.expires_at && is_enabled e.admin_id admins) && e.csrf_hash == csrf)
      (b token)

-- What the table says.
abbrev pub entry : Session → Entry
entry s = record { admin_id = s.admin_id; csrf_hash = s.csrf_hash; expires_at = s.expires_at }

abbrev pub to_entry : Option Session → Option Entry
to_entry none = none
to_entry (some s) = some (entry s)

abbrev pub book : List Session → Book
book sessions = λ t. to_entry (find? (has_token t) sessions)

module _ {N : Type 0} (lib : IpLibrary N) where
  -- What a step means to the book.
  abbrev pub event : {db db' : Accounts} → Step lib db db' → Event
  event (bootstrap username password_hash id now e) = nothing
  event (create username password_hash role id now e) = nothing
  event (set_login id username password_hash now e) = nothing
  event (give_access id role enabled now e) = nothing
  event (delete id e) = closed_all id
  event (record_login id at e) = nothing
  event (sign_in id token csrf expires source agent now e) =
      opened token (record { admin_id = id; csrf_hash = csrf; expires_at = expires })
  event (see token now) = nothing
  event (sign_out token) = closed token
  event (sign_out_all id) = closed_all id
  event (prune now) = pruned now
  event (create_key name token prefix permissions allowlist by until id now e) = nothing
  event (use_key token now) = nothing
  event (revoke_key id now e) = nothing

  -- The book after a sequence of steps.
  abbrev pub retrace : {db db' : Accounts} → Reach lib db db' → Book → Book
  retrace here b = b
  retrace (next path step) b = apply (event step) (retrace path b)

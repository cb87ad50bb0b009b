-- ===== src/Admins/Tests.antt =====
-- Runs of the operations on accounts, and the theorems about them there.
use vexa_vm.Common.{ℕ, ◌≡◌, refl, String, true, false, none, some, [], ◌∷◌, any, str_eq}
use vexa_vm.Error.{ok, err, conflict}
use vexa_vm.Db.{is_some}
use vexa_vm.Addresses.Sample.{toy}
use vexa_vm.Admins.{
  AdminRole, read_only, Admin, Session, ApiKey, Accounts, is_enabled_super, update_admin_access,
}
use vexa_vm.Admins.Sessions.{
  create_admin_session, authenticate_admin_session, verify_admin_session_csrf,
}
use vexa_vm.Admins.Keys.{authenticate_api_key, revoke_api_key}
use vexa_vm.Admins.Steps.{Reach, here, next, give_access, sign_in}
use vexa_vm.Admins.Steps.Super.{Reach-keeps_super}
use vexa_vm.Admins.Steps.Revoked.{revoke_api_key-final}
use vexa_vm.Admins.Steps.Book.{admits, confirms, book, retrace}
use vexa_vm.Admins.Steps.Book.Refined.{Reach-implements}

abbrev account : String → AdminRole → Admin
account id role = record {
  id = id;
  username = id;
  password_hash = "phc";
  role = role;
  enabled = true;
  created_at = 1000;
  updated_at = 1000;
  last_login_at = none;
}

abbrev key : String → ℕ → ApiKey
key id token = record {
  id = id;
  name = id;
  token_hash = token;
  prefix = "vx";
  permissions = [];
  ip_allowlist = [];
  created_by = none;
  created_at = 1000;
  expires_at = none;
  last_used_at = none;
  revoked_at = none;
}

abbrev before : Accounts
before = record {
  admins = account "root" AdminRole.super_admin ∷ account "ops" AdminRole.super_admin ∷ [];
  sessions = [];
  keys = key "k1" 5 ∷ key "k2" 6 ∷ [];
}

abbrev demoted : Admin
demoted = record (account "root" read_only) { updated_at = 2000 }

abbrev after : Accounts
after = record before { admins = demoted ∷ account "ops" AdminRole.super_admin ∷ [] }

demotes : update_admin_access "root" (some read_only) none 2000 before ≡ ok (demoted, after)
unfolding update_admin_access
demotes = refl

last_stays :
    update_admin_access "ops" none (some false) 3000 after
    ≡ err (conflict "at least one enabled super administrator is required")
unfolding update_admin_access
last_stays = refl

Reach-keeps_super_example : any is_enabled_super after.admins ≡ true
Reach-keeps_super_example =
    Reach-keeps_super toy before ((refl, tt), (tt, tt))
      (next here (give_access "root" (some read_only) none 2000 demotes)) refl

abbrev session : Session
session = record {
  token_hash = 77;
  csrf_hash = 88;
  admin_id = "ops";
  source_ip = none;
  user_agent = none;
  created_at = 2000;
  expires_at = 5600;
  last_seen_at = 2000;
}

abbrev signed_in : Accounts
signed_in = record before { sessions = session ∷ [] }

signs_in : create_admin_session "ops" 77 88 5600 none none 2000 before ≡ ok signed_in
unfolding create_admin_session
signs_in = refl

abbrev path : Reach toy before signed_in
path = next here (sign_in "ops" 77 88 5600 none none 2000 signs_in)

Reach-implements_example :
    (is_some (authenticate_admin_session 77 3000 signed_in).0
      ≡ admits (retrace toy path (book before.sessions)) signed_in.admins 77 3000)
    × (verify_admin_session_csrf 77 88 3000 signed_in
        ≡ confirms (retrace toy path (book before.sessions)) signed_in.admins 77 88 3000)
Reach-implements_example = Reach-implements toy before path 77 88 3000 tt

admitted : admits (retrace toy path (book before.sessions)) signed_in.admins 77 3000 ≡ true
admitted = refl

abbrev revoked : Accounts
revoked = record before { keys = record (key "k1" 5) { revoked_at = some 2000 } ∷ key "k2" 6 ∷ [] }

revokes : revoke_api_key "k1" 2000 before ≡ ok revoked
unfolding revoke_api_key
revokes = refl

other_key : (authenticate_api_key 6 3000 revoked).0 ≡ some (key "k2" 6)
unfolding authenticate_api_key
other_key = refl

revoke_api_key-final_example : str_eq "k2" "k1" ≡ false
revoke_api_key-final_example =
    revoke_api_key-final toy "k1" 2000 before 6 3000 revokes here other_key

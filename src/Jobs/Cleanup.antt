-- ===== src/Jobs/Cleanup.antt =====
-- The parts that several job operations share: reserved payload fields, and what is undone when a
-- reinstall ends before its Guest Tools media is armed.
use vexa_vm.Common.{
  ℕ, Bool, String, false, ◌&&◌, ◌||◌, Option, none, some, if◌then◌else◌, ltb, str_eq, len, not,
  update_where, retain,
}
use vexa_vm.Db.{Job, GuestTools, Db, sql_eq}
use vexa_vm.Db.External.{External}

-- `STAGED_PASSWORD_ENVELOPE_FIELD` and `STAGED_GUEST_TOOLS_GENERATION_FIELD`.
abbrev pub staged_password : String
staged_password = "_staged_password_envelope"

abbrev pub staged_generation : String
staged_generation = "_guest_tools_rotation_generation"

abbrev pub get_or_false : Option Bool → Bool
get_or_false none = false
get_or_false (some b) = b

-- `SET pending_… = NULL, pending_installed = 0, updated_at = now`.
abbrev pub clear_pending : ℕ → GuestTools → GuestTools
clear_pending now g = record g {
  pending_secret_envelope = none;
  pending_platform = none;
  pending_provisioner = none;
  pending_desired_version = none;
  pending_generation = none;
  pending_installed = false;
  updated_at = now;
}

-- Members of a JSON value, as `Value::get(k).and_then(Value::as_str)` and `as_bool` read them.
module _ {V F : Type 0} (x : External V F) where
  abbrev pub get_str : V → String → Option String
  get_str v k = elim (x.get v k) [ none ↦ none | some w ↦ x.as_str w ]

  abbrev pub get_bool : V → String → Option Bool
  get_bool v k = elim (x.get v k) [ none ↦ none | some w ↦ x.as_bool w ]

  abbrev unarmed : String → String → GuestTools → Bool
  unarmed vm generation g =
      str_eq g.vm_id vm && sql_eq g.pending_generation generation && not g.pending_installed

  drop_rotation : Job V F → String → String → ℕ → Db V F → Db V F
  drop_rotation job vm generation now db =
      if str_eq generation "" || ltb 64 (len generation)
      then db
      else if get_or_false (get_bool job.payload "guest_tools_new_configuration")
      then record db { guest_tools = retain (λ g. not (unarmed vm generation g)) db.guest_tools }
      else record db {
        guest_tools = update_where (unarmed vm generation) (clear_pending now) db.guest_tools;
      }

  drop_rotation_of : Option String → Option String → Job V F → ℕ → Db V F → Db V F
  unfolding drop_rotation
  drop_rotation_of (some vm) (some generation) job now db = drop_rotation job vm generation now db
  drop_rotation_of _ _ job now db = db

  unfoldable pub cleanup_unarmed_reinstall_guest_tools : Job V F → ℕ → Db V F → Db V F
  unfolding drop_rotation_of
  cleanup_unarmed_reinstall_guest_tools job now db =
      if str_eq job.kind "vm.reinstall"
      then drop_rotation_of job.vm_id (get_str job.payload staged_generation) job now db
      else db

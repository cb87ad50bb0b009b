-- ===== src/Db/External.antt =====
-- What src/db.rs uses of code outside the repository: JSON values and the JSON functions of SQL,
-- floats, and the parsing of UUIDs. The laws are the documented behaviour that proofs rely on.
use vexa_vm.Common.{String, Bool, true, Option, none, some, ◌≡◌, ◌↔◌}

pub record External (V F : Type 0) : Type 0 where
  -- `==`, `get`, `as_str`, `as_bool` and `is_object` of a `serde_json::Value`.
  pub beq : V → V → Bool
  pub get : V → String → Option V
  pub as_str : V → Option String
  pub as_bool : V → Option Bool
  pub is_object : V → Bool
  -- `Value::String`, and `insert` and `remove` of a JSON object.
  pub text : String → V
  pub insert : V → String → V → V
  pub remove : V → String → V
  -- `json_extract` of a member, where it is compared with a text.
  pub json_extract : V → String → Option String
  pub is_null_member : V → String → Bool
  pub zero_percent : F
  pub hundred_percent : F
  pub is_percent : F → Bool
  -- `Uuid::parse_str`, followed by `to_string`.
  pub canonical_uuid : String → Option String
  pub beq_iff : (v w : V) → (beq v w ≡ true) ↔ (v ≡ w)
  pub get-remove : (v : V) (k : String) → get (remove v k) k ≡ none
  pub remove-insert :
      (v w : V) (k : String) → is_object v ≡ true → get v k ≡ none → remove (insert v k w) k ≡ v
  pub remove_absent : (v : V) (k : String) → get v k ≡ none → remove v k ≡ v
  pub get-insert : (v w : V) (k : String) → is_object v ≡ true → get (insert v k w) k ≡ some w

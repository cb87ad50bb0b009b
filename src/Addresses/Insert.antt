-- ===== src/Addresses/Insert.antt =====
-- src/db.rs: an address comes into the inventory, or its details are replaced.
pub mod Written
use vexa_vm.Common.{
  ℕ, Bool, String, str_append, true, false, ◌&&◌, ◌||◌, not, Option, none, some, List, [], ◌∷◌,
  ◌++◌, if◌then◌else◌, ltb, str_eq, any, update_where,
}
use vexa_vm.Error.{
  Result, AppResult, ok, err, validation, not_found, conflict, database, internal, ◌>>=◌, ◌>>◌,
  reject_if,
}
use vexa_vm.Db.{IpStatus, is_some}
use vexa_vm.Protocol.{IpAddr}
use vexa_vm.Addresses.{
  IpScope, family_eq, scope_eq, is_main, is_used, family_for_ip, IpLibrary, Json, IpAddressRecord,
  Inventory, ok_or, validate_prefix, canonical_gateway, query_ip_address, query_ip_pool,
}

pub record NewIpAddress (V : Type 0) : Type 0 where
  pub pool_id : Option String
  pub address : String
  pub prefix_length : ℕ
  pub scope : IpScope
  pub status : IpStatus
  pub gateway : Option String
  pub reverse_dns : Option String
  pub metadata : V

-- What is taken either from the request or from the row that is there.
pub record Details (V : Type 0) : Type 0 where
  pub pool_id : Option String
  pub gateway : Option String
  pub reverse_dns : Option String
  pub metadata : V

abbrev or_false : Option Bool → Bool
or_false none = false
or_false (some b) = b

module _ {V : Type 0} where
  -- What the operation asks of the row that has the address.
  unfoldable pub check_existing :
      String → IpStatus → Option (IpAddressRecord V) → AppResult (Unit {0})
  check_existing address status none = ok tt
  check_existing address status (some r) = do
    reject_if (is_some r.assigned_vm_id || is_used r.status)
        (conflict (str_append "IP address " (str_append address " is already assigned")))
    reject_if (is_main r.status && not (is_main status))
        (conflict "the detected host address is protected")

  abbrev pub requested : NewIpAddress V → Option String → Details V
  requested spec gateway = record {
    pool_id = spec.pool_id;
    gateway = gateway;
    reverse_dns = spec.reverse_dns;
    metadata = spec.metadata;
  }

  -- `preserve_existing_main_details`, of a main row.
  unfoldable pub details_of :
      Json V
      → NewIpAddress V
      → Option String
      → Bool
      → Option (IpAddressRecord V)
      → AppResult (Details V)
  details_of json spec gateway preserve none = ok (requested spec gateway)
  details_of json spec gateway preserve (some r) =
      if preserve && is_main r.status
      then (do
        reject_if (not (json.is_object r.metadata)) (
            conflict
              "existing main host-address metadata is not an object and cannot be safely merged")
        reject_if (not (json.is_object spec.metadata))
            (validation "detected host-address metadata must be an object")
        ok (record {
          pool_id = r.pool_id;
          gateway = r.gateway;
          reverse_dns = r.reverse_dns;
          metadata = json.extend r.metadata spec.metadata;
        }))
      else ok (requested spec gateway)

  abbrev pub row_id : String → Option (IpAddressRecord V) → String
  row_id id none = id
  row_id id (some r) = r.id

  -- `ON CONFLICT(address) DO UPDATE`.
  abbrev pub overwrite : IpAddressRecord V → IpAddressRecord V → IpAddressRecord V
  overwrite row r = record row { id = r.id; created_at = r.created_at }

  unfoldable pub insert_or_update :
      IpAddressRecord V → List (IpAddressRecord V) → AppResult (List (IpAddressRecord V))
  insert_or_update row rows =
      if any (λ r. str_eq r.address row.address) rows
      then ok (update_where (λ r. str_eq r.address row.address) (overwrite row) rows)
      else (do
        reject_if (any (λ r. str_eq r.id row.id) rows)
            (database "UNIQUE constraint failed: ip_addresses.id")
        ok (rows ++ row ∷ []))

  module _ {N : Type 0} (lib : IpLibrary N) (json : Json V) (digits : ℕ → String) where
    unfoldable pub check_member :
        IpAddr → NewIpAddress V → Option String → Inventory V → AppResult (Unit {0})
    check_member address spec none db = ok tt
    check_member address spec (some id) db = do
      pool ← ok_or (query_ip_pool id db) (not_found "IP pool")
      network ← ok_or (lib.parse_network pool.cidr) (internal "stored IP pool CIDR is invalid")
      reject_if
          (not (family_eq pool.family (family_for_ip address))
            || not (scope_eq pool.scope spec.scope)
            || not (lib.contains network address))
          (validation "address family, scope, and value must match its IP pool")
      reject_if (ltb spec.prefix_length (lib.prefix_len network))
          (validation "address prefix length cannot be broader than its IP pool")

    -- The row that is written, from what the request and the table say.
    unfoldable pub prepare :
        NewIpAddress V → Bool → String → ℕ → Inventory V → AppResult (IpAddressRecord V)
    prepare spec preserve id now db = do
      parsed ← ok_or (lib.parse spec.address) (validation "IP address is invalid")
      let family = family_for_ip parsed
      validate_prefix digits family spec.prefix_length
      reject_if (is_used spec.status) (validation "use assign_ip to mark an address as used")
      gateway ← canonical_gateway lib spec.gateway family
      let address = lib.print parsed
      let existing = query_ip_address address db
      check_existing address spec.status existing
      details ← details_of json spec gateway preserve existing
      check_member parsed spec details.pool_id db
      ok (record {
        id = row_id id existing;
        pool_id = details.pool_id;
        address = address;
        family = family;
        prefix_length = spec.prefix_length;
        scope = spec.scope;
        status = spec.status;
        gateway = details.gateway;
        assigned_vm_id = none;
        primary_for_vm = false;
        reverse_dns = details.reverse_dns;
        metadata = details.metadata;
        created_at = now;
        updated_at = now;
      })

    unfoldable pub upsert_ip_address_with_policy :
        NewIpAddress V
        → Bool
        → (id : String) (now : ℕ) → Inventory V
        → AppResult (IpAddressRecord V × Inventory V)
    upsert_ip_address_with_policy spec preserve id now db = do
      row ← prepare spec preserve id now db
      rows ← insert_or_update row db.addresses
      let db' = record db { addresses = rows }
      r ← ok_or (query_ip_address row.address db') (not_found "IP address")
      ok (r, db')

    abbrev pub upsert_ip_address :
        NewIpAddress V
        → (id : String) (now : ℕ) → Inventory V
        → AppResult (IpAddressRecord V × Inventory V)
    upsert_ip_address spec id now db = upsert_ip_address_with_policy spec false id now db

    unfoldable pub upsert_detected_host_address :
        NewIpAddress V
        → (id : String) (now : ℕ) → Inventory V
        → AppResult (IpAddressRecord V × Inventory V)
    upsert_detected_host_address spec id now db = do
      reject_if (not (is_main spec.status))
          (validation "a detected host address must have main status")
      reject_if (not (or_false (json.get_bool spec.metadata "detected_host_address")))
          (validation "detected host address metadata is missing its detection marker")
      upsert_ip_address_with_policy spec true id now db

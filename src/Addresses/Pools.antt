-- ===== src/Addresses/Pools.antt =====
-- src/db.rs: the ranges of addresses that a node gives out.
use vexa_vm.Common.{
  ℕ, Bool, String, str_append, ◌&&◌, ◌||◌, not, Option, none, some, List, [], ◌∷◌, ◌++◌, leb, ◌==◌,
  str_eq, any, count_if, update_where, retain,
}
use vexa_vm.Common.Chars.{nocase_eq}
use vexa_vm.Error.{
  AppResult, ok, validation, not_found, conflict, database, internal, ◌>>=◌, ◌>>◌, reject_if,
}
use vexa_vm.Db.{is_some, sql_eq, require_changed}
use vexa_vm.Db.Text.{trim, validate_non_empty}
use vexa_vm.Addresses.{
  IpScope, family_eq, is_main, is_used, family_for_ip, IpLibrary, IpPool, IpAddressRecord,
  Inventory, ok_or, canonical_gateway, query_ip_pool,
}

pub record NewIpPool : Type 0 where
  pub name : String
  pub cidr : String
  pub scope : IpScope
  pub gateway : Option String
  pub bridge : Option String
  pub vlan_id : Option ℕ
  pub mtu : ℕ
  pub enabled : Bool

pub record IpPoolPatch : Type 0 where
  pub name : Option String
  pub scope : Option IpScope
  pub gateway : Option String
  pub bridge : Option String
  pub vlan_id : Option ℕ
  pub mtu : Option ℕ
  pub enabled : Option Bool

-- `Option::or` and `unwrap_or`.
abbrev pub or : {A : Type 0} → Option A → Option A → Option A
or none b = b
or (some a) b = some a

abbrev pub unwrap_or : {A : Type 0} → Option A → A → A
unwrap_or none b = b
unwrap_or (some a) b = a

-- The CHECK constraints on the columns of a pool.
abbrev pub are_columns_bad : Option ℕ → ℕ → Bool
are_columns_bad none mtu = not (leb 576 mtu && leb mtu 9216)
are_columns_bad (some vlan) mtu =
    not (leb 576 mtu && leb mtu 9216) || not (leb 1 vlan && leb vlan 4094)

module _ {N : Type 0} (lib : IpLibrary N) where
  unfoldable pub networks_overlap : N → N → Bool
  networks_overlap left right =
      family_eq (family_for_ip (lib.addr left)) (family_for_ip (lib.addr right))
      && (lib.contains left (lib.addr right) || lib.contains right (lib.addr left))

  unfoldable pub check_gateway : N → Option String → String → AppResult (Unit {0})
  check_gateway network none message = ok tt
  check_gateway network (some gateway) message = do
    address ← ok_or (lib.parse gateway) (validation "gateway is invalid")
    reject_if (not (lib.contains network address)) (validation message)

  -- The stored pools in order.
  unfoldable pub check_overlaps : N → List IpPool → AppResult (Unit {0})
  check_overlaps network [] = ok tt
  check_overlaps network (p ∷ ps) = do
    other ← ok_or (lib.parse_network p.cidr) (internal "stored IP pool CIDR is invalid")
    reject_if (networks_overlap network other)
        (conflict (str_append "IP pool " (str_append p.cidr " overlaps an existing range")))
    check_overlaps network ps

  module _ {V : Type 0} where
    unfoldable pub create_ip_pool :
        NewIpPool → (id : String) (now : ℕ) → Inventory V → AppResult (IpPool × Inventory V)
    create_ip_pool spec id now db = do
      validate_non_empty "IP pool name" spec.name
      network ← ok_or (lib.parse_network spec.cidr) (validation "IP pool CIDR is invalid")
      let family = family_for_ip (lib.addr network)
      gateway ← canonical_gateway lib spec.gateway family
      check_gateway network gateway "IP pool gateway must be inside its CIDR"
      check_overlaps network db.pools
      let pool : IpPool = record {
        id = id;
        name = trim spec.name;
        cidr = lib.network_to_string network;
        family = family;
        scope = spec.scope;
        gateway = gateway;
        bridge = spec.bridge;
        vlan_id = spec.vlan_id;
        mtu = spec.mtu;
        enabled = spec.enabled;
        created_at = now;
        updated_at = now;
      }
      reject_if
          (any (λ p. str_eq p.id id || nocase_eq p.name pool.name || str_eq p.cidr pool.cidr)
            db.pools)
          (database "UNIQUE constraint failed")
      reject_if (are_columns_bad spec.vlan_id spec.mtu) (database "CHECK constraint failed")
      let db' = record db { pools = db.pools ++ pool ∷ [] }
      row ← ok_or (query_ip_pool id db') (not_found "IP pool")
      ok (row, db')

    unfoldable pub patch_ip_pool :
        String → IpPoolPatch → (now : ℕ) → Inventory V → AppResult (IpPool × Inventory V)
    patch_ip_pool id patch now db = do
      current ← ok_or (query_ip_pool id db) (not_found "IP pool")
      let name = trim (unwrap_or patch.name current.name)
      validate_non_empty "IP pool name" name
      network ← ok_or (lib.parse_network current.cidr) (validation "stored IP pool CIDR is invalid")
      gateway ←
          canonical_gateway lib (or patch.gateway current.gateway)
            (family_for_ip (lib.addr network))
      check_gateway network gateway "IP pool gateway must be inside its CIDR"
      let mtu = unwrap_or patch.mtu current.mtu
      reject_if (not (leb 576 mtu && leb mtu 9216)) (validation "MTU must be between 576 and 9216")
      let vlan = or patch.vlan_id current.vlan_id
      reject_if (any (λ p. not (str_eq p.id id) && nocase_eq p.name name) db.pools)
          (database "UNIQUE constraint failed")
      reject_if (are_columns_bad vlan mtu) (database "CHECK constraint failed")
      let db' = record db {
        pools =
            update_where (λ p. str_eq p.id id)
              (λ p. record p {
                name = name;
                scope = unwrap_or patch.scope current.scope;
                gateway = gateway;
                bridge = or patch.bridge current.bridge;
                vlan_id = vlan;
                mtu = mtu;
                enabled = unwrap_or patch.enabled current.enabled;
                updated_at = now;
              })
              db.pools;
      }
      row ← ok_or (query_ip_pool id db') (not_found "IP pool")
      ok (row, db')

module _ {V : Type 0} where
  abbrev pub is_in_pool : String → IpAddressRecord V → Bool
  is_in_pool id r = sql_eq r.pool_id id

  unfoldable pub delete_ip_pool : String → Inventory V → AppResult (Inventory V)
  delete_ip_pool id db = do
    reject_if (not (count_if (is_in_pool id) db.addresses == 0))
        (conflict "remove the pool's explicit addresses before deleting it")
    require_changed (count_if (λ p. str_eq p.id id) db.pools) "IP pool"
    ok (record db { pools = retain (λ p. not (str_eq p.id id)) db.pools })

  -- `status IN ('used', 'main') OR assigned_vm_id IS NOT NULL`.
  abbrev pub is_kept : IpAddressRecord V → Bool
  is_kept r = is_used r.status || is_main r.status || is_some r.assigned_vm_id

  unfoldable pub delete_ip_pool_with_unassigned_addresses :
      String → Inventory V → AppResult (Inventory V)
  delete_ip_pool_with_unassigned_addresses id db = do
    reject_if (any (λ r. is_in_pool id r && is_kept r) db.addresses)
        (conflict "pool contains an assigned or host-owned address")
    require_changed (count_if (λ p. str_eq p.id id) db.pools) "IP pool"
    ok (record db {
      addresses = retain (λ r. not (is_in_pool id r)) db.addresses;
      pools = retain (λ p. not (str_eq p.id id)) db.pools;
    })

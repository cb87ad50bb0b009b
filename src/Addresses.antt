-- ===== src/Addresses.antt =====
-- src/db.rs, "Dual-stack address pools": which addresses the node has, and which VM holds each.
--
-- Only columns that the operations read are kept of the pools, the blacklist and the VMs. A read
-- that follows a write in the same operation sees what was written; `set_ip_status`, which takes the
-- lock three times, has the tables of each time as arguments. (`release_ip` reads the row that it
-- returns under a lock of its own, too, and nothing comes in between here.) The clock is read once. The tests of the unique index on primary addresses and of the
-- CHECK constraints on addresses are left out.
pub mod Pools
pub mod Assign
pub mod Insert
pub mod Valid
pub mod Steps
pub mod Sample
mod Tests
use vexa_vm.Common.{
  ℕ, Bool, String, str_append, true, false, ◌&&◌, ◌||◌, not, Option, none, some, List, [], ◌∷◌,
  if◌then◌else◌, ltb, leb, ◌==◌, str_eq, find?, ◌≡◌,
}
use vexa_vm.Error.{
  Result, AppResult, ok, err, validation, internal, AppError, ◌>>=◌, ◌>>◌, reject_if,
}
use vexa_vm.Db.{IpStatus, free, reserved, used, main}
use vexa_vm.Db.Text.{trim, is_blank}
use vexa_vm.Protocol.{IpAddr}

pub data AddressFamily : Type 0 where
  v4 v6 : AddressFamily

pub data IpScope : Type 0 where
  public private : IpScope

abbrev pub family_eq : AddressFamily → AddressFamily → Bool
family_eq AddressFamily.v4 AddressFamily.v4 = true
family_eq AddressFamily.v6 AddressFamily.v6 = true
family_eq _ _ = false

abbrev pub scope_eq : IpScope → IpScope → Bool
scope_eq public public = true
scope_eq private private = true
scope_eq _ _ = false

abbrev pub is_main : IpStatus → Bool
is_main main = true
is_main _ = false

abbrev pub is_used : IpStatus → Bool
is_used used = true
is_used _ = false

abbrev pub is_free : IpStatus → Bool
is_free free = true
is_free _ = false

-- What the code uses of the `IpAddr` of the standard library and of the package ipnet, whose
-- networks are `N`: parsing and printing, `addr`, `contains` and `prefix_len`.
pub record IpLibrary (N : Type 0) : Type 0 where
  pub parse : String → Option IpAddr
  pub print : IpAddr → String
  pub parse_network : String → Option N
  pub network_to_string : N → String
  pub addr : N → IpAddr
  pub contains : N → IpAddr → Bool
  pub prefix_len : N → ℕ
  pub parse-print : (a : IpAddr) → parse (print a) ≡ some a

-- What the code uses of a `serde_json::Value`: `is_object`, the value of a member that is a
-- Boolean, and `extend` of an object.
pub record Json (V : Type 0) : Type 0 where
  pub is_object : V → Bool
  pub get_bool : V → String → Option Bool
  pub extend : V → V → V

pub record IpPool : Type 0 where
  pub id : String
  pub name : String
  pub cidr : String
  pub family : AddressFamily
  pub scope : IpScope
  pub gateway : Option String
  pub bridge : Option String
  pub vlan_id : Option ℕ
  pub mtu : ℕ
  pub enabled : Bool
  pub created_at : ℕ
  pub updated_at : ℕ

-- `V` is a JSON value.
pub record IpAddressRecord (V : Type 0) : Type 0 where
  pub id : String
  pub pool_id : Option String
  pub address : String
  pub family : AddressFamily
  pub prefix_length : ℕ
  pub scope : IpScope
  pub status : IpStatus
  pub gateway : Option String
  pub assigned_vm_id : Option String
  pub primary_for_vm : Bool
  pub reverse_dns : Option String
  pub metadata : V
  pub created_at : ℕ
  pub updated_at : ℕ

pub record BlacklistEntry : Type 0 where
  pub cidr : String
  pub family : AddressFamily
  pub enabled : Bool
  pub expires_at : Option ℕ

pub record VmName : Type 0 where
  pub id : String
  pub name : String

pub record Inventory (V : Type 0) : Type 0 where
  pub pools : List IpPool
  pub addresses : List (IpAddressRecord V)
  pub blacklist : List BlacklistEntry
  pub vms : List VmName

abbrev pub ok_or : {A : Type 0} → Option A → AppError → AppResult A
ok_or none e = err e
ok_or (some a) e = ok a

abbrev pub family_for_ip : IpAddr → AddressFamily
family_for_ip (IpAddr.v4 a) = AddressFamily.v4
family_for_ip (IpAddr.v6 a) = AddressFamily.v6

abbrev family_name : AddressFamily → String
family_name AddressFamily.v4 = "V4"
family_name AddressFamily.v6 = "V6"

abbrev family_bits : AddressFamily → ℕ
family_bits AddressFamily.v4 = 32
family_bits AddressFamily.v6 = 128

-- `digits` prints a number.
unfoldable pub validate_prefix : (digits : ℕ → String) → AddressFamily → ℕ → AppResult (Unit {0})
validate_prefix digits family prefix = reject_if (ltb (family_bits family) prefix) (
    validation (
      str_append "prefix length "
        (str_append (digits prefix) (str_append " is invalid for " (family_name family)))))

module _ {N : Type 0} (lib : IpLibrary N) where
  unfoldable pub canonical_ip : String → AppResult String
  canonical_ip value = elim (lib.parse (trim value)) [
    | none ↦ err (validation (str_append "invalid IP address: " value))
    | some a ↦ ok (lib.print a)
  ]

  -- `canonical_optional_ip` with an expected family.
  unfoldable pub canonical_gateway : Option String → AddressFamily → AppResult (Option String)
  canonical_gateway none family = ok none
  canonical_gateway (some value) family =
      if is_blank value then ok none else elim (lib.parse (trim value)) [
        | none ↦ err (validation (str_append "invalid IP address: " (trim value)))
        | some a ↦
            if family_eq family (family_for_ip a)
            then ok (some (lib.print a))
            else err (validation "IP address family does not match its pool")
      ]

  -- `enabled = 1 AND family = … AND (expires_at IS NULL OR expires_at > at)`.
  abbrev pub is_in_force : AddressFamily → ℕ → BlacklistEntry → Bool
  is_in_force family at e =
      e.enabled
      && family_eq e.family family
      && elim e.expires_at [ none ↦ true | some t ↦ ltb at t ]

  -- The rows in order, up to one that holds the address or is no network.
  unfoldable pub ip_is_blacklisted : IpAddr → ℕ → List BlacklistEntry → AppResult Bool
  ip_is_blacklisted address at [] = ok false
  ip_is_blacklisted address at (e ∷ es) =
      let rest = ip_is_blacklisted address at es in
      if is_in_force (family_for_ip address) at e
      then elim (lib.parse_network e.cidr) [
        | none ↦ err (internal (str_append "stored blacklist CIDR is invalid: " e.cidr))
        | some network ↦ if lib.contains network address then ok true else rest
      ]
      else rest

module _ {V : Type 0} where
  -- `WHERE address = … OR id = … LIMIT 1`.
  abbrev pub is_named : String → IpAddressRecord V → Bool
  is_named key r = str_eq r.address key || str_eq r.id key

  abbrev pub query_ip_address : String → Inventory V → Option (IpAddressRecord V)
  query_ip_address key db = find? (is_named key) db.addresses

  abbrev pub query_ip_pool : String → Inventory V → Option IpPool
  query_ip_pool id db = find? (λ p. str_eq p.id id) db.pools

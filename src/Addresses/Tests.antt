-- ===== src/Addresses/Tests.antt =====
-- Runs of the operations on addresses, and the theorems about them there.
use vexa_vm.Common.{ℕ, ◌≡◌, refl, Bool, String, true, false, none, some, [], ◌∷◌, any, retain}
use vexa_vm.Error.{ok}
use vexa_vm.Db.{IpStatus, free, reserved, used, main}
use vexa_vm.Db.Text.{trim}
use vexa_vm.Db.Rows.{All}
use vexa_vm.Protocol.{IpAddr}
use vexa_vm.Addresses.{
  AddressFamily, public, is_free, Json, IpAddressRecord, BlacklistEntry, Inventory, canonical_ip,
  ip_is_blacklisted,
}
use vexa_vm.Addresses.Sample.{unary, toy}
use vexa_vm.Addresses.Assign.{
  assign_ip, check_ip_status, write_ip_status, set_ip_status, check_assignable, check_pool,
  check_blacklist, give, has_address,
}
use vexa_vm.Addresses.Assign.Allowed.{
  blocks, IsOpen, is_elsewhere, assign_ip-allowed, assign_ip-assigns,
}
use vexa_vm.Addresses.Valid.{IsValid}
use vexa_vm.Addresses.Steps.{here, next, assign, set_status}
use vexa_vm.Addresses.Steps.Kept.{is_host}
use vexa_vm.Addresses.Steps.Reached.{Reach-IsValid, Reach-keeps_host}

abbrev json : Json Bool
json = record { is_object = λ v. true; get_bool = λ v k. some v; extend = λ v w. w }

abbrev row : String → String → IpStatus → IpAddressRecord Bool
row id address status = record {
  id = id;
  pool_id = none;
  address = address;
  family = AddressFamily.v4;
  prefix_length = 32;
  scope = public;
  status = status;
  gateway = none;
  assigned_vm_id = none;
  primary_for_vm = false;
  reverse_dns = none;
  metadata = true;
  created_at = 1000;
  updated_at = 1000;
}

abbrev entry : BlacklistEntry
entry = record { cidr = "4aa"; family = AddressFamily.v4; enabled = true; expires_at = none }

abbrev before : Inventory Bool
before = record {
  pools = [];
  addresses = row "r1" "4" main ∷ row "r2" "4a" free ∷ [];
  blacklist = entry ∷ [];
  vms = record { id = "vm-1"; name = "web" } ∷ [];
}

abbrev given : IpAddressRecord Bool
given = give "vm-1" true 2000 (row "r2" "4a" free)

abbrev after : Inventory Bool
after = record before { addresses = row "r1" "4" main ∷ given ∷ [] }

canonical : canonical_ip toy " 4a" ≡ ok "4a"
unfolding canonical_ip trim
canonical = refl

assigned : assign_ip toy " 4a" "vm-1" true 2000 before ≡ ok (given, after)
unfolding assign_ip canonical_ip trim check_assignable check_pool check_blacklist ip_is_blacklisted
assigned = refl

before-IsValid : IsValid toy before.addresses
before-IsValid = record {
  each = (
    record { number = (IpAddr.v4 0, refl, refl); unlike = refl; consistent = refl },
    (record { number = (IpAddr.v4 1, refl, refl); unlike = refl; consistent = refl }, tt),
  );
  apart = (((refl, refl, refl), tt), (tt, tt));
}

assign_ip-allowed_example :
    (is_free free ≡ true)
    × IsOpen none before
    × All (λ e. blocks toy (IpAddr.v4 1) 2000 e ≡ false) before.blacklist
assign_ip-allowed_example =
    assign_ip-allowed toy " 4a" "vm-1" "4a" true 2000 before (IpAddr.v4 1) canonical refl refl refl
      assigned

assign_ip-assigns_example :
    (canonical_ip toy " 4a" ≡ ok "4a")
    × (given.status ≡ used)
    × (given.assigned_vm_id ≡ some "vm-1")
    × (given.primary_for_vm ≡ true)
    × All (λ s. has_address "4a" s ≡ true → s.assigned_vm_id ≡ some "vm-1") after.addresses
    × (retain (is_elsewhere toy "4a" "vm-1") after.addresses
        ≡ retain (is_elsewhere toy "4a" "vm-1") before.addresses)
assign_ip-assigns_example =
    assign_ip-assigns toy " 4a" "vm-1" true 2000 before before-IsValid assigned

abbrev uuid : ℕ → String
uuid n = String.◌∷◌ "u" (unary n)

abbrev digits : ℕ → String
digits n = unary n

Reach-IsValid_example : IsValid toy after.addresses
Reach-IsValid_example =
    Reach-IsValid toy json digits uuid before (λ n. refl) before-IsValid
      (next here (assign " 4a" "vm-1" true 2000 assigned))

-- The address of the host is protected from a change that sees the host's row.
protected : (set_ip_status toy "4" free 3000 after after after).1 ≡ after
unfolding set_ip_status check_ip_status canonical_ip trim
protected = refl

abbrev detected : Inventory Bool
detected = record before { addresses = row "r1" "4" main ∷ row "r2" "4a" main ∷ [] }

-- An address that becomes the host's between the check and the write of a change is lost to it.
raced :
    (set_ip_status toy "4a" reserved 3000 before detected detected).1.addresses
    ≡ row "r1" "4" main ∷ record (row "r2" "4a" reserved) { updated_at = 3000 } ∷ []
unfolding set_ip_status check_ip_status write_ip_status canonical_ip trim
raced = refl

Reach-keeps_host_example :
    any (is_host "4") (set_ip_status toy "4" free 3000 after after after).1.addresses ≡ true
Reach-keeps_host_example =
    Reach-keeps_host toy json digits uuid before "4" (λ n. refl) before-IsValid
      (next (next here (assign " 4a" "vm-1" true 2000 assigned))
        (set_status "4" free 3000 after after))
      ((tt, tt), refl) refl

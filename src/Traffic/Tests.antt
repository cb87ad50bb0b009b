-- ===== src/Traffic/Tests.antt =====
-- Runs of the reconciliation against the in-memory backend, and the theorems about it there.
use vexa_vm.Common.{◌≡◌, refl, Bool, String, true, false, Option, none, some, [], ◌∷◌}
use vexa_vm.Error.{HypervisorResult, ok, err, hypervisor, vm_not_found, to_string}
use vexa_vm.Hypervisor.Validate.{validate_vm_name}
use vexa_vm.Hypervisor.Mock.{new, find_vm, set_network_enabled, with_vm_mut}
use vexa_vm.Traffic.{
  Vm, VmTrafficEnforcement, Tables, TrafficQuotaStatus, status_from, vm_traffic_enforcement,
  set_vm_traffic_enforcement, finish, refused, reconcile_vm_locked,
}
use vexa_vm.Traffic.Reconcile.{reconcile_vm_locked-settles, reconcile_vm_locked-refused}

abbrev heavy : Vm
heavy = record {
  id = "vm-1";
  name = "demo-1";
  traffic_limit_bytes = some 100;
  traffic_used_bytes = 101;
}

abbrev tables : Tables
tables = record { vms = heavy ∷ []; enforcement = [] }

-- A backend whose state is whether the only machine is connected.
abbrev switch : String → Bool → Bool → HypervisorResult (Unit {0}) × Bool
switch name enabled s = (ok tt, enabled)

abbrev row : VmTrafficEnforcement
row = record {
  vm_id = "vm-1";
  blocked = true;
  blocked_at = some 1000;
  last_error = none;
  updated_at = 1000;
}

abbrev blocked_tables : Tables
blocked_tables = record { vms = heavy ∷ []; enforcement = row ∷ [] }

abbrev blocked_status : TrafficQuotaStatus
blocked_status = record {
  limit_bytes = some 100;
  used_bytes = 101;
  unlimited = false;
  exceeded = true;
  network_blocked = true;
  blocked_at = some 1000;
  enforcement_error = none;
}

blocks :
    reconcile_vm_locked switch "vm-1" false 1000 tables true
    ≡ (ok blocked_status, blocked_tables, false)
unfolding reconcile_vm_locked set_vm_traffic_enforcement finish status_from
blocks = refl

absent : (set_network_enabled "demo-1" false new).0 ≡ err (vm_not_found "demo-1")
unfolding set_network_enabled with_vm_mut find_vm validate_vm_name
absent = refl

reconcile_vm_locked-settles_example :
    (◌≡◌ {A = Bool} true true)
    × (◌≡◌ {A = Bool} true true)
    × (◌≡◌ {A = Option String} none none)
    × (blocked_tables.vms ≡ tables.vms)
    × (reconcile_vm_locked switch "vm-1" false 2000 blocked_tables false
        ≡ (ok blocked_status, blocked_tables, false))
reconcile_vm_locked-settles_example =
    reconcile_vm_locked-settles switch "vm-1" false 1000 tables true 2000 refl refl blocks

reconcile_vm_locked-refused_example :
    (db' : Tables) × (reconcile_vm_locked set_network_enabled "vm-1" false 1000 tables new ≡ (
      err (hypervisor (refused true (to_string (vm_not_found "demo-1")))),
      db',
      (set_network_enabled "demo-1" false new).1,
    ))
    × (db'.vms ≡ tables.vms)
    × ((r : VmTrafficEnforcement) × (vm_traffic_enforcement "vm-1" db' ≡ some r)
        × (r.blocked ≡ false)
        × (r.last_error ≡ some (to_string (vm_not_found "demo-1"))))
reconcile_vm_locked-refused_example =
    reconcile_vm_locked-refused set_network_enabled "vm-1" false 1000 tables new refl refl absent

-- ===== src/Hypervisor/Mock/Operations.antt =====
-- The operations of the backend, in any order, and what all of them keep.
use mathlib.Core.Path.{subst}
use vexa_vm.Common.{
  ℕ, ◌≡◌, ◌≤◌, refl, String, Bool, false, Option, none, some, List, [], ◌∷◌, arith, ltb, Bool-cases,
  Option-cases, inl, inr, ap, ◌∙◌, sym,
}
use vexa_vm.Error.{HypervisorResult, Result-cases}
use vexa_vm.Hypervisor.{
  VmInfo, VmStats, CreateVmRequest, ResizeVmRequest, ReinstallVmRequest, PowerAction,
  SnapshotRequest,
}
use vexa_vm.Hypervisor.Validate.{outside, outside_some}
use vexa_vm.Hypervisor.Mock.{
  MockVm, MockHypervisor, set_stats, create_vm, delete_vm, power, power_vm, next_state, resize,
  resize_vm, set_memory_balloon, balloon_vm, reinstall, reinstall_vm, set_network_enabled, gib,
}
use vexa_vm.Hypervisor.Mock.SnapshotOps.{create_snapshot, revert_snapshot, delete_snapshot}
use vexa_vm.Hypervisor.Mock.Seed.{detach_seed_media, detach_vm, path_eq}
use vexa_vm.Hypervisor.Mock.Snapshots.{IsMarked}
use vexa_vm.Hypervisor.Mock.Resize.{
  asked, asked_bytes, with_cores, with_all, resize_vm_grows, resize_vm_shrinks,
}
use vexa_vm.Hypervisor.Mock.Valid.{IsSound}

-- The calls that may change the state.
pub data Op : Type 0 where
  create : CreateVmRequest → ℕ → Op
  delete : String → Bool → Op
  set_power : String → PowerAction → Op
  set_size : String → ResizeVmRequest → Op
  balloon : String → ℕ → Op
  rebuild : String → ReinstallVmRequest → Op
  network : String → Bool → Op
  sample_stats : String → VmStats → Op
  take_snapshot : String → SnapshotRequest → ℕ → Op
  revert : String → String → Op
  forget : String → String → Op
  detach : String → String → Op

unfoldable pub perform : Op → MockHypervisor → MockHypervisor
perform (create r uuid) h = (create_vm r uuid h).1
perform (delete name storage) h = (delete_vm name storage h).1
perform (set_power name action) h = (power name action h).1
perform (set_size name r) h = (resize name r h).1
perform (balloon name target) h = (set_memory_balloon name target h).1
perform (rebuild name r) h = (reinstall name r h).1
perform (network name enabled) h = (set_network_enabled name enabled h).1
perform (sample_stats name stats) h = (set_stats name stats h).1
perform (take_snapshot name r now) h = (create_snapshot name r now h).1
perform (revert name snapshot) h = (revert_snapshot name snapshot h).1
perform (forget name snapshot) h = (delete_snapshot name snapshot h).1
perform (detach name source) h = (detach_seed_media name source h).1

unfoldable pub perform_all : List Op → MockHypervisor → MockHypervisor
perform_all [] h = h
perform_all (op ∷ ops) h = perform_all ops (perform op h)

-- A machine that is changed and keeps what `IsSound` speaks of.
abbrev pub Alike : MockVm → MockVm → Type 0
Alike v w =
    (v.info.name ≡ w.info.name)
    × (v.info.vcpus ≡ w.info.vcpus)
    × (v.info.memory_mib ≡ w.info.memory_mib)
    × (v.info.disk_bytes ≡ w.info.disk_bytes)
    × (v.vnc_port ≡ w.vnc_port)

asked_bounds :
    (low high : ℕ) (o : Option ℕ) (old : ℕ)
    → outside_some low high o ≡ false
    → low ≤ old
    → old ≤ high
    → (low ≤ asked o old) × (asked o old ≤ high)
asked_bounds low high o old b l u = ground arith

pub gib_bounds :
    (n : ℕ) → outside 1 1048576 n ≡ false → (1073741824 ≤ gib n) × (gib n ≤ 1125899906842624)
gib_bounds n b = ground arith

asked_bytes_bounds :
    (o : Option ℕ) (old : ℕ)
    → outside_some 1 1048576 o ≡ false
    → 1073741824 ≤ old
    → old ≤ 1125899906842624
    → (1073741824 ≤ asked_bytes o old) × (asked_bytes o old ≤ 1125899906842624)
asked_bytes_bounds none old b l u = (l, u)
asked_bytes_bounds (some n) old b l u = gib_bounds n b

module _ (name : String) (next : ℕ) (vm : MockVm) (s : IsSound name next vm) where
  pub Alike-IsSound :
      (vm' : MockVm)
      → Alike vm' vm
      → IsMarked vm'.snapshots
      → IsSound name next vm' × (vm'.vnc_port ≡ vm.vnc_port)
  Alike-IsSound vm' a m = (
    record {
      named = a.0 ∙ s.named;
      some_cores = omega (arith, a.1, s.some_cores);
      cores = omega (arith, a.1, s.cores);
      some_memory = omega (arith, a.2, s.some_memory);
      memory = omega (arith, a.2, s.memory);
      some_disk = omega (arith, a.3, s.some_disk);
      disk = omega (arith, a.3, s.disk);
      port = omega (arith, a.4, s.port);
      port_fits = omega (arith, a.4, s.port_fits);
      port_drawn = omega (arith, a.4, s.port_drawn);
      marked = m;
    },
    a.4,
  )

  pub power_vm-IsSound :
      (action : PowerAction)
      → IsSound name next (power_vm action vm).1 × ((power_vm action vm).1.vnc_port ≡ vm.vnc_port)
  power_vm-IsSound action = elim (Result-cases (next_state action vm.info.power_state)) [
    | inl (state, e) ↦
        rw (e, power_vm)
          (Alike-IsSound (record vm { info = record vm.info { power_state = state } })
            (refl, refl, refl, refl, refl) s.marked)
    | inr (e', e) ↦ rw (e, power_vm) (s, refl)
  ]

  pub balloon_vm-IsSound :
      (target : ℕ)
      → IsSound name next (balloon_vm target vm).1
        × ((balloon_vm target vm).1.vnc_port ≡ vm.vnc_port)
  balloon_vm-IsSound target =
      let same : (balloon_vm target vm).1 ≡ vm = ground arith in
      subst (λ (m : MockVm). IsSound name next m × (m.vnc_port ≡ vm.vnc_port)) (sym same) (s, refl)

  pub resize_vm-IsSound :
      (r : ResizeVmRequest)
      → (outside_some 1 512 r.vcpus ≡ false)
        × (outside_some 256 16777216 r.memory_mib ≡ false)
        × (outside_some 1 1048576 r.disk_gib ≡ false)
      → IsSound name next (resize_vm r vm).1 × ((resize_vm r vm).1.vnc_port ≡ vm.vnc_port)
  resize_vm-IsSound r b =
      let c = asked_bounds 1 512 r.vcpus vm.info.vcpus b.0 s.some_cores s.cores in
      let m =
        asked_bounds 256 16777216 r.memory_mib vm.info.memory_mib b.1 s.some_memory s.memory in
      let d = asked_bytes_bounds r.disk_gib vm.info.disk_bytes b.2 s.some_disk s.disk in
      let left =
        λ (v : MockVm) (e : (resize_vm r vm).1 ≡ v)
            (k : IsSound name next v × (v.vnc_port ≡ vm.vnc_port)).
          subst (λ (n : MockVm). IsSound name next n × (n.vnc_port ≡ vm.vnc_port)) (sym e) k in
      elim (Bool-cases (ltb (asked_bytes r.disk_gib vm.info.disk_bytes) vm.info.disk_bytes)) [
        | inl small ↦
            left (with_cores r vm)
              (ap (λ (q : HypervisorResult VmInfo × MockVm). q.1) (resize_vm_shrinks r vm small))
              (
                record {
                  named = s.named;
                  some_cores = c.0;
                  cores = c.1;
                  some_memory = m.0;
                  memory = m.1;
                  some_disk = s.some_disk;
                  disk = s.disk;
                  port = s.port;
                  port_fits = s.port_fits;
                  port_drawn = s.port_drawn;
                  marked = s.marked;
                },
                refl,
              )
        | inr fits ↦
            left (with_all r vm)
              (ap (λ (q : HypervisorResult VmInfo × MockVm). q.1) (resize_vm_grows r vm fits))
              (
                record {
                  named = s.named;
                  some_cores = c.0;
                  cores = c.1;
                  some_memory = m.0;
                  memory = m.1;
                  some_disk = d.0;
                  disk = d.1;
                  port = s.port;
                  port_fits = s.port_fits;
                  port_drawn = s.port_drawn;
                  marked = s.marked;
                },
                refl,
              )
      ]

  pub reinstall_vm-IsSound :
      (r : ReinstallVmRequest)
      → outside 1 1048576 r.disk_gib ≡ false
      → IsSound name next (reinstall_vm r vm).1 × ((reinstall_vm r vm).1.vnc_port ≡ vm.vnc_port)
  reinstall_vm-IsSound r b =
      let d = gib_bounds r.disk_gib b in
      (
        record {
          named = s.named;
          some_cores = s.some_cores;
          cores = s.cores;
          some_memory = s.some_memory;
          memory = s.memory;
          some_disk = d.0;
          disk = d.1;
          port = s.port;
          port_fits = s.port_fits;
          port_drawn = s.port_drawn;
          marked = (tt, refl);
        },
        refl,
      )

  pub detach_vm-IsSound :
      (source : String)
      → IsSound name next (detach_vm source vm).1 × ((detach_vm source vm).1.vnc_port ≡ vm.vnc_port)
  detach_vm-IsSound source = elim (Option-cases vm.cloud_init_iso) [
    | inl empty ↦ rw (empty, detach_vm) (s, refl)
    | inr (seed, there) ↦ elim (Bool-cases (path_eq seed source)) [
      | inl same ↦
          rw (there, detach_vm, same)
            (Alike-IsSound (record vm { cloud_init_iso = none }) (refl, refl, refl, refl, refl)
              s.marked)
      | inr ne ↦ rw (there, detach_vm, ne) (s, refl)
    ]
  ]

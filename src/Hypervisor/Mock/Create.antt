-- ===== src/Hypervisor/Mock/Create.antt =====
-- A creation and a deletion keep a valid backend valid.
use mathlib.Core.Path.{subst}
use vexa_vm.Common.{
  ℕ, ◌+◌, ◌%◌, ◌^◌, ◌≡◌, ◌≤◌, ◌<◌, refl, String, Bool, some, List, arith, ltb, Bool-cases,
  Option-cases, inl, inr, ◌⊎◌, str_eq, eq_iff, ap, ◌∙◌, sym,
}
use vexa_vm.Common.Dict.{
  get, insert, remove, get-insert, HasKeys-insert, HasKeys-remove, get-remove,
}
use vexa_vm.Error.{Result-cases}
use vexa_vm.Hypervisor.{CreateVmRequest}
use vexa_vm.Hypervisor.Validate.{validate_create_request}
use vexa_vm.Hypervisor.Validate.Bounds.{IsSized, create_request-IsSized}
use vexa_vm.Hypervisor.Mock.{
  MockVm, MockHypervisor, find_vm, create_vm, delete_vm, vm_of, allocate_vnc_port,
}
use vexa_vm.Hypervisor.Mock.Valid.{IsSound, IsValid}
use vexa_vm.Hypervisor.Mock.Operations.{gib_bounds}

-- A counter that has moved on.
later-IsSound :
    (name : String) (next next' : ℕ) (vm : MockVm)
    → next ≤ next'
    → IsSound name next vm
    → IsSound name next' vm
later-IsSound name next next' vm h s = record {
  named = s.named;
  some_cores = s.some_cores;
  cores = s.cores;
  some_memory = s.some_memory;
  memory = s.memory;
  some_disk = s.some_disk;
  disk = s.disk;
  port = s.port;
  port_fits = s.port_fits;
  port_drawn = omega (arith, s.port_drawn, h);
  marked = s.marked;
}

later-IsValid :
    (h h' : MockHypervisor)
    → h'.inner ≡ h.inner
    → h.next_vnc_port ≤ h'.next_vnc_port
    → IsValid h
    → IsValid h'
later-IsValid h h' same le valid = record {
  keys = rw same valid.keys;
  counter = omega (arith, valid.counter, le);
  sound = λ name vm e.
      later-IsSound name h.next_vnc_port h'.next_vnc_port vm le
        (valid.sound name vm (rw same at e));
  ports = λ a b v w ea eb e. valid.ports a b v w (rw same at ea) (rw same at eb) e;
}

-- The machine of a valid request, with the port that the counter shows.
new-IsSound :
    (r : CreateVmRequest) (uuid port next : ℕ)
    → IsSized r.vcpus r.memory_mib r.disk_gib
    → 5901 ≤ port
    → port ≤ 65535
    → port < next
    → IsSound r.name next (vm_of r uuid port)
new-IsSound r uuid port next b low high drawn =
    let d = gib_bounds r.disk_gib (ground arith) in
    record {
      named = refl;
      some_cores = b.0;
      cores = b.1;
      some_memory = b.2;
      memory = b.3;
      some_disk = d.0;
      disk = d.1;
      port = low;
      port_fits = high;
      port_drawn = drawn;
      marked = (tt, refl);
    }

-- What a lookup finds after an insertion: the new machine, or one that was there.
inserted :
    (name : String) (vm : MockVm) (m : List (String × MockVm)) (other : String) (v : MockVm)
    → get other (insert name vm m) ≡ some v
    → ((name ≡ other) × (vm ≡ v)) ⊎ (get other m ≡ some v)
inserted name vm m other v e = elim (Bool-cases (str_eq name other)) [
  | inl same ↦ inl ((eq_iff name other).0 same, ground (arith, get-insert name other vm m))
  | inr ne ↦ inr (ground (arith, get-insert name other vm m))
]

insert-IsSound :
    (name : String) (vm : MockVm) (h h' : MockHypervisor)
    → h.next_vnc_port ≤ h'.next_vnc_port
    → IsSound name h'.next_vnc_port vm
    → IsValid h
    → (other : String) (v : MockVm) → ((name ≡ other) × (vm ≡ v)) ⊎ (get other h.inner ≡ some v)
    → IsSound other h'.next_vnc_port v
insert-IsSound name vm h h' le s valid other v (inl same) =
    subst (λ (n : String). IsSound n h'.next_vnc_port v) same.0
      (subst (λ (m : MockVm). IsSound name h'.next_vnc_port m) same.1 s)
insert-IsSound name vm h h' le s valid other v (inr there) =
    later-IsSound other h.next_vnc_port h'.next_vnc_port v le (valid.sound other v there)

insert-ports :
    (name : String) (vm : MockVm) (h : MockHypervisor)
    → vm.vnc_port ≡ h.next_vnc_port
    → IsValid h
    → (a b : String) (v w : MockVm) → ((name ≡ a) × (vm ≡ v)) ⊎ (get a h.inner ≡ some v)
    → ((name ≡ b) × (vm ≡ w)) ⊎ (get b h.inner ≡ some w)
    → v.vnc_port ≡ w.vnc_port
    → a ≡ b
insert-ports name vm h port valid a b v w (inl p) (inl q) e = sym p.0 ∙ q.0
insert-ports name vm h port valid a b v w (inl p) (inr q) e =
    let drawn = (valid.sound b w q).port_drawn in
    absurd (omega (arith, drawn, e, port, ap (λ (m : MockVm). m.vnc_port) p.1))
insert-ports name vm h port valid a b v w (inr p) (inl q) e =
    let drawn = (valid.sound a v p).port_drawn in
    absurd (omega (arith, drawn, e, port, ap (λ (m : MockVm). m.vnc_port) q.1))
insert-ports name vm h port valid a b v w (inr p) (inr q) e = valid.ports a b v w p q e

insert-IsValid :
    (name : String) (vm : MockVm) (h h' : MockHypervisor)
    → h'.inner ≡ insert name vm h.inner
    → h.next_vnc_port ≤ h'.next_vnc_port
    → vm.vnc_port ≡ h.next_vnc_port
    → IsSound name h'.next_vnc_port vm
    → IsValid h
    → IsValid h'
insert-IsValid name vm h h' table le port s valid = record {
  keys = rw table (HasKeys-insert name vm h.inner valid.keys);
  counter = omega (arith, valid.counter, le);
  sound = λ other v e.
      insert-IsSound name vm h h' le s valid other v
        (inserted name vm h.inner other v (rw table at e));
  ports = λ a b v w ea eb e.
      insert-ports name vm h port valid a b v w (inserted name vm h.inner a v (rw table at ea))
        (inserted name vm h.inner b w (rw table at eb)) e;
}

pub create-IsValid :
    (r : CreateVmRequest) (uuid : ℕ) (h : MockHypervisor)
    → h.next_vnc_port + 1 < 2 ^ 32
    → IsValid h
    → IsValid (create_vm r uuid h).1
unfolding create_vm allocate_vnc_port
create-IsValid r uuid h room valid = elim (Result-cases (validate_create_request r)) [
  | inl (u, good) ↦
      let drawn : (h.next_vnc_port + 1) % 2 ^ 32 ≡ h.next_vnc_port + 1 = omega arith in
      elim (Option-cases (get r.name h.inner)) [
        | inl absent ↦ elim (Bool-cases (ltb h.next_vnc_port 65536)) [
          | inl fits ↦
              let h' : MockHypervisor = record {
                inner = insert r.name (vm_of r uuid h.next_vnc_port) h.inner;
                next_vnc_port = (h.next_vnc_port + 1) % 2 ^ 32;
              } in
              let is : (create_vm r uuid h).1 ≡ h' = ground arith in
              rw is (
                insert-IsValid r.name (vm_of r uuid h.next_vnc_port) h h' refl
                  (omega (arith, drawn)) refl
                  (new-IsSound r uuid h.next_vnc_port h'.next_vnc_port
                    (create_request-IsSized r good) valid.counter (ground arith)
                    (omega (arith, drawn)))
                  valid)
          | inr full ↦
              later-IsValid h (create_vm r uuid h).1 (ground arith) (ground (arith, drawn)) valid
        ]
        | inr (vm, there) ↦ let is : (create_vm r uuid h).1 ≡ h = ground arith in rw is valid
      ]
  | inr (e, bad) ↦ let is : (create_vm r uuid h).1 ≡ h = ground arith in rw is valid
]

pub delete-IsValid :
    (name : String) (storage : Bool) (h : MockHypervisor)
    → IsValid h
    → IsValid (delete_vm name storage h).1
unfolding delete_vm
delete-IsValid name storage h valid = elim (Result-cases (find_vm name h)) [
  | inl (vm, found) ↦
      let h' : MockHypervisor = record h { inner = remove name h.inner } in
      let is : (delete_vm name storage h).1 ≡ h' = ground arith in
      let kept : IsValid h' = record {
        keys = HasKeys-remove name h.inner valid.keys;
        counter = valid.counter;
        sound = λ other v e. valid.sound other v (get-remove name other h.inner valid.keys e);
        ports = λ a b v w ea eb e.
            valid.ports a b v w (get-remove name a h.inner valid.keys ea)
              (get-remove name b h.inner valid.keys eb) e;
      } in
      rw is kept
  | inr (e, absent) ↦ let is : (delete_vm name storage h).1 ≡ h = ground arith in rw is valid
]

-- ===== src/Hypervisor/Mock/Snapshots.antt =====
-- The list of a machine's snapshots: one of them is current, and no two share a name.
use vexa_vm.Common.{
  ℕ, ◌≡◌, ◌≤◌, refl, String, Bool, true, false, not, some, List, [], ◌∷◌, ◌++◌, arith, ◌==◌,
  Bool-cases, inl, inr, str_eq, eq_iff, ap, sym, ◌∙◌, any, map, length, count_if, retain, last_set,
  length-retain-le,
}
use vexa_vm.Db.Rows.{All}
use vexa_vm.Hypervisor.{SnapshotInfo, SnapshotRequest}
use vexa_vm.Hypervisor.Mock.{MockVm}
use vexa_vm.Hypervisor.Mock.SnapshotOps.{
  is_named, set_current, mark_last, snapshot_vm, revert_vm, forget_vm,
}

abbrev pub NotIn : String → List SnapshotInfo → Type 0
NotIn name = All (λ s. str_eq s.name name ≡ false)

abbrev pub Distinct : List SnapshotInfo → Type 0
Distinct [] = Unit {0}
Distinct (s ∷ ss) = NotIn s.name ss × Distinct ss

abbrev pub is_current : SnapshotInfo → Bool
is_current s = s.current

abbrev one_if_any : List SnapshotInfo → ℕ
one_if_any [] = 0
one_if_any (s ∷ ss) = 1

-- Exactly one snapshot is current, where there is one at all.
abbrev pub IsMarked : List SnapshotInfo → Type 0
IsMarked ss = Distinct ss × (count_if is_current ss ≡ one_if_any ss)

NotIn-map :
    (f : SnapshotInfo → Bool) (name : String) (ss : List SnapshotInfo)
    → NotIn name ss
    → NotIn name (map (λ s. set_current (f s) s) ss)
NotIn-map f name [] h = tt
NotIn-map f name (s ∷ ss) h = (h.0, NotIn-map f name ss h.1)

Distinct-map :
    (f : SnapshotInfo → Bool) (ss : List SnapshotInfo)
    → Distinct ss
    → Distinct (map (λ s. set_current (f s) s) ss)
Distinct-map f [] h = tt
Distinct-map f (s ∷ ss) h = (NotIn-map f s.name ss h.0, Distinct-map f ss h.1)

NotIn-append :
    (name : String) (ss : List SnapshotInfo) (t : SnapshotInfo)
    → NotIn name ss
    → str_eq t.name name ≡ false
    → NotIn name (ss ++ t ∷ [])
NotIn-append name [] t h e = (e, tt)
NotIn-append name (s ∷ ss) t h e = (h.0, NotIn-append name ss t h.1 e)

Distinct-append :
    (ss : List SnapshotInfo) (t : SnapshotInfo)
    → Distinct ss
    → NotIn t.name ss
    → Distinct (ss ++ t ∷ [])
Distinct-append [] t h e = (tt, tt)
Distinct-append (s ∷ ss) t h e = (
  NotIn-append s.name ss t h.0 (ground (arith, eq_iff t.name s.name, eq_iff s.name t.name, e.0)),
  Distinct-append ss t h.1 e.1,
)

not_named :
    (name : String) (ss : List SnapshotInfo) → any (is_named name) ss ≡ false → NotIn name ss
not_named name [] h = tt
not_named name (s ∷ ss) h = (ground arith, not_named name ss (ground arith))

NotIn-retain :
    (p : SnapshotInfo → Bool) (name : String) (ss : List SnapshotInfo)
    → NotIn name ss
    → NotIn name (retain p ss)
NotIn-retain p name [] h = tt
NotIn-retain p name (s ∷ ss) h = elim (Bool-cases (p s)) [
  | inl e ↦ rw e (h.0, NotIn-retain p name ss h.1)
  | inr e ↦ rw e (NotIn-retain p name ss h.1)
]

Distinct-retain :
    (p : SnapshotInfo → Bool) (ss : List SnapshotInfo) → Distinct ss → Distinct (retain p ss)
Distinct-retain p [] h = tt
Distinct-retain p (s ∷ ss) h = elim (Bool-cases (p s)) [
  | inl e ↦ rw e (NotIn-retain p s.name ss h.0, Distinct-retain p ss h.1)
  | inr e ↦ rw e (Distinct-retain p ss h.1)
]

NotIn-last_set :
    (name : String) (ss : List SnapshotInfo)
    → NotIn name ss
    → NotIn name (last_set (set_current true) ss)
NotIn-last_set name [] h = tt
NotIn-last_set name (s ∷ []) h = h
NotIn-last_set name (s ∷ t ∷ ss) h = (h.0, NotIn-last_set name (t ∷ ss) h.1)

Distinct-last_set :
    (ss : List SnapshotInfo) → Distinct ss → Distinct (last_set (set_current true) ss)
Distinct-last_set [] h = tt
Distinct-last_set (s ∷ []) h = h
Distinct-last_set (s ∷ t ∷ ss) h =
    (NotIn-last_set s.name (t ∷ ss) h.0, Distinct-last_set (t ∷ ss) h.1)

none_current : (ss : List SnapshotInfo) → count_if is_current (map (set_current false) ss) ≡ 0
none_current [] = refl
none_current (s ∷ ss) = none_current ss

appended_current :
    (ss : List SnapshotInfo) (t : SnapshotInfo)
    → t.current ≡ true
    → count_if is_current (map (set_current false) ss ++ t ∷ [])
      ≡ one_if_any (map (set_current false) ss ++ t ∷ [])
appended_current [] t h = rw h
appended_current (s ∷ []) t h = rw h
appended_current (s ∷ u ∷ ss) t h = appended_current (u ∷ ss) t h

-- A name that no snapshot has is made current nowhere, and one that a snapshot has just there.
revert_absent :
    (name : String) (ss : List SnapshotInfo)
    → NotIn name ss
    → count_if is_current (map (λ s. set_current (is_named name s) s) ss) ≡ 0
revert_absent name [] h = refl
revert_absent name (s ∷ ss) h = rw h.0 (revert_absent name ss h.1)

revert_current :
    (name : String) (ss : List SnapshotInfo)
    → Distinct ss
    → any (is_named name) ss ≡ true
    → count_if is_current (map (λ s. set_current (is_named name s) s) ss) ≡ 1
revert_current name [] h e = cc
revert_current name (s ∷ ss) h e = elim (Bool-cases (str_eq s.name name)) [
  | inl hit ↦
      let same : s.name ≡ name = (eq_iff s.name name).0 hit in
      let absent : NotIn name ss = rw (← same) h.0 in rw (hit, revert_absent name ss absent) refl
  | inr miss ↦ rw miss (revert_current name ss h.1 (rw miss at e))
]

retain_all :
    (p : SnapshotInfo → Bool) (ss : List SnapshotInfo)
    → length (retain p ss) ≡ length ss
    → retain p ss ≡ ss
retain_all p [] h = refl
retain_all p (s ∷ ss) h = elim (Bool-cases (p s)) [
  | inl e ↦ rw e (ap (λ (r : List SnapshotInfo). s ∷ r) (retain_all p ss (ground arith)))
  | inr e ↦ absurd (ground (arith, length-retain-le p ss))
]

count_if-retain-le :
    (p q : SnapshotInfo → Bool) (ss : List SnapshotInfo) → count_if q (retain p ss) ≤ count_if q ss
count_if-retain-le p q [] = omega arith
count_if-retain-le p q (s ∷ ss) = ground (arith, count_if-retain-le p q ss)

any_count : (ss : List SnapshotInfo) → any is_current ss ≡ true → 1 ≤ count_if is_current ss
any_count [] h = cc
any_count (s ∷ ss) h = ground (arith, any_count ss)

last_current :
    (ss : List SnapshotInfo)
    → any is_current ss ≡ false
    → count_if is_current (last_set (set_current true) ss)
      ≡ one_if_any (last_set (set_current true) ss)
last_current [] h = refl
last_current (s ∷ []) h = refl
last_current (s ∷ t ∷ []) h = ground arith
last_current (s ∷ t ∷ u ∷ ss) h = ground (arith, last_current (t ∷ u ∷ ss))

one_at_most : (ss : List SnapshotInfo) → one_if_any ss ≤ 1
one_at_most [] = omega arith
one_at_most (s ∷ ss) = omega arith

any_one : (ss : List SnapshotInfo) → any is_current ss ≡ true → one_if_any ss ≡ 1
any_one [] h = cc
any_one (s ∷ ss) h = refl

mark_last-IsMarked :
    (ss : List SnapshotInfo) → Distinct ss → count_if is_current ss ≤ 1 → IsMarked (mark_last ss)
mark_last-IsMarked ss d h = elim (Bool-cases (any is_current ss)) [
  | inl some_current ↦
      rw some_current (d, omega (arith, any_count ss some_current, any_one ss some_current))
  | inr no_current ↦ rw no_current (Distinct-last_set ss d, last_current ss no_current)
]

pub snapshot_vm-IsMarked :
    (r : SnapshotRequest) (now : ℕ) (vm : MockVm)
    → IsMarked vm.snapshots
    → IsMarked (snapshot_vm r now vm).1.snapshots
snapshot_vm-IsMarked r now vm m = elim (Bool-cases (any (is_named r.name) vm.snapshots)) [
  | inl taken ↦ rw taken m
  | inr free ↦
      let s : SnapshotInfo = record {
        name = r.name;
        description = r.description;
        created_at = some now;
        current = true;
      } in
      rw free (
        Distinct-append (map (set_current false) vm.snapshots) s
            (Distinct-map (λ t. false) vm.snapshots m.0)
            (NotIn-map (λ t. false) r.name vm.snapshots (not_named r.name vm.snapshots free)),
        appended_current vm.snapshots s refl,
      )
]

one_of_any :
    (name : String) (ss : List SnapshotInfo)
    → any (is_named name) ss ≡ true
    → one_if_any (map (λ s. set_current (is_named name s) s) ss) ≡ 1
one_of_any name [] h = cc
one_of_any name (s ∷ ss) h = refl

pub revert_vm-IsMarked :
    (name snapshot : String) (vm : MockVm)
    → IsMarked vm.snapshots
    → IsMarked (revert_vm name snapshot vm).1.snapshots
revert_vm-IsMarked name snapshot vm m = elim (Bool-cases (any (is_named snapshot) vm.snapshots)) [
  | inl there ↦ rw there (
    Distinct-map (is_named snapshot) vm.snapshots m.0,
    revert_current snapshot vm.snapshots m.0 there ∙ sym (one_of_any snapshot vm.snapshots there),
  )
  | inr absent ↦ rw absent m
]

pub forget_vm-IsMarked :
    (name snapshot : String) (vm : MockVm)
    → IsMarked vm.snapshots
    → IsMarked (forget_vm name snapshot vm).1.snapshots
forget_vm-IsMarked name snapshot vm m =
    let keep = λ (s : SnapshotInfo). not (is_named snapshot s) in
    elim (Bool-cases (length (retain keep vm.snapshots) == length vm.snapshots)) [
      | inl same ↦ rw (same, retain_all keep vm.snapshots (ground arith)) m
      | inr fewer ↦ rw fewer (
          mark_last-IsMarked (retain keep vm.snapshots) (Distinct-retain keep vm.snapshots m.0) (
            omega (
              arith,
              count_if-retain-le keep is_current vm.snapshots,
              one_at_most vm.snapshots,
              m.1,
            )))
    ]

-- ===== src/Traffic/Reconcile.antt =====
-- What a reconciliation of a machine's traffic promises.
use mathlib.Core.Path.{subst}
use vexa_vm.Common.{
  ℕ, ◌≡◌, refl, ap, ◌∙◌, Bool, String, true, false, ◌&&◌, ◌||◌, not, Option, none, some, List, [],
  ◌∷◌, ◌++◌, arith, str_eq, if◌then◌else◌, eq_refl, find?, update_where, Bool-cases, Option-cases,
  inl, inr,
}
use vexa_vm.Common.Chars.{nocase_eq}
use vexa_vm.Error.{
  AppResult, HypervisorResult, HypervisorError, ok, err, hypervisor, to_string, Result-cases,
}
use vexa_vm.Db.{is_some}
use vexa_vm.Db.Rows.{find?-update_where, find?-append_none, All-find?, All-true}
use vexa_vm.Traffic.{
  Vm, VmTrafficEnforcement, query_vm, Tables, TrafficQuotaStatus, is_exceeded, is_blocked,
  has_error, status_from, has_id, is_of, vm_traffic_enforcement, blocking_time, enforce, new_row,
  set_vm_traffic_enforcement, finish, fail, refused, transition, reconcile_vm_locked,
}

-- A write is what the next lookup finds, and it leaves the machines.
pub set-lookup :
    (id : String) (blocked : Bool) (error : Option String) (now : ℕ) (db : Tables) {db' : Tables}
    → set_vm_traffic_enforcement id blocked error now db ≡ ok db'
    → (db'.vms ≡ db.vms)
      × ((e : VmTrafficEnforcement) × (vm_traffic_enforcement id db' ≡ some e)
          × (e.blocked ≡ blocked)
          × (e.last_error ≡ error))
unfolding set_vm_traffic_enforcement
set-lookup id blocked error now db {db'} h =
    let set =
      enforce blocked (blocking_time blocked (vm_traffic_enforcement id db) now) error now in
    elim (Option-cases (vm_traffic_enforcement id db)) [
      | inl absent ↦
          let table : db'.enforcement ≡ db.enforcement ++ set (new_row id) ∷ [] = ground arith in
          (
            ground arith,
            (
              set (new_row id),
              rw table (
                  find?-append_none (is_of id) db.enforcement (set (new_row id)) absent
                    (eq_refl id)),
              refl,
              refl,
            ),
          )
      | inr (old, there) ↦
          let table : db'.enforcement ≡ update_where (is_of id) set db.enforcement = ground arith in
          let hit =
            (All-find? (λ (e : VmTrafficEnforcement). Unit {0}) (is_of id) db.enforcement
              (All-true (λ (e : VmTrafficEnforcement). Unit {0}) db.enforcement (λ e. tt))
              there).1 in
          (
            ground arith,
            (
              set old,
              rw table (
                  find?-update_where (is_of id) (is_of id) set db.enforcement old (λ e. refl) there
                    hit),
              refl,
              refl,
            ),
          )
    ]

-- A write for a machine that is there succeeds.
set-total :
    (id : String) (blocked : Bool) (error : Option String) (now : ℕ) (db : Tables)
    → is_some (find? (has_id id) db.vms) ≡ true
    → (db' : Tables) × (set_vm_traffic_enforcement id blocked error now db ≡ ok db')
unfolding set_vm_traffic_enforcement
set-total id blocked error now db found =
    let set =
      enforce blocked (blocking_time blocked (vm_traffic_enforcement id db) now) error now in
    elim (Option-cases (vm_traffic_enforcement id db)) [
      | inl absent ↦
          (record db { enforcement = db.enforcement ++ set (new_row id) ∷ [] }, ground arith)
      | inr (old, there) ↦
          (record db { enforcement = update_where (is_of id) set db.enforcement }, ground arith)
    ]

-- The network is blocked exactly if the quota is exceeded, and no error is pending.
abbrev pub IsSettled : Vm → Tables → Type 0
IsSettled vm db =
    (is_blocked (vm_traffic_enforcement vm.id db)
      ≡ is_exceeded vm.traffic_limit_bytes vm.traffic_used_bytes)
    × (has_error (vm_traffic_enforcement vm.id db) ≡ false)

-- A machine that a lookup finds has a row with its id.
found-has_id :
    (p : Vm → Bool) (vms : List Vm) {vm : Vm}
    → find? p vms ≡ some vm
    → is_some (find? (has_id vm.id) vms) ≡ true
found-has_id p [] e = absurd (ground arith)
found-has_id p (v ∷ vs) {vm} e = elim (Bool-cases (p v)) [
  | inl hit ↦ let same : v ≡ vm = ground arith in rw (same, eq_refl vm.id) refl
  | inr miss ↦
      let later = found-has_id p vs (rw miss at e) in
      elim (Bool-cases (has_id vm.id v)) [ inl here ↦ rw here refl | inr other ↦ rw other later ]
]

finish-IsSettled :
    {S : Type 0} (vm : Vm) (r : AppResult Tables) (db : Tables) (s : S) {st : TrafficQuotaStatus}
    {db' : Tables} {s' : S}
    → query_vm vm.id db.vms ≡ some vm
    → ((db1 : Tables) → r ≡ ok db1 → (db1.vms ≡ db.vms) × IsSettled vm db1)
    → finish vm.id r db s ≡ (ok st, db', s')
    → (db'.vms ≡ db.vms)
      × IsSettled vm db'
      × (st ≡ status_from vm (vm_traffic_enforcement vm.id db'))
unfolding finish
finish-IsSettled vm (err e) db s found settles h = absurd (ground arith)
finish-IsSettled vm (ok db1) db s {st} {db'} {s'} found settles h =
    let (kept, settled) = settles db1 refl in
    let again : query_vm vm.id db1.vms ≡ some vm = rw kept found in
    let same : db' ≡ db1 = ground arith in
    let shown : st ≡ status_from vm (vm_traffic_enforcement vm.id db1) = ground arith in
    rw same (kept, settled, shown)

same-IsSettled :
    (vm : Vm) (db : Tables)
    → IsSettled vm db
    → (db1 : Tables) → ◌≡◌ {A = AppResult Tables} (ok db) (ok db1)
    → (db1.vms ≡ db.vms) × IsSettled vm db1
same-IsSettled vm db settled db1 e =
    let same : db ≡ db1 = cc in
    subst (λ (d : Tables). (d.vms ≡ db.vms) × IsSettled vm d) same (refl, settled)

-- A write of the state that the quota asks for settles the machine.
set-IsSettled :
    (vm : Vm) (blocked : Bool) (now : ℕ) (db : Tables)
    → blocked ≡ is_exceeded vm.traffic_limit_bytes vm.traffic_used_bytes
    → (db1 : Tables) → set_vm_traffic_enforcement vm.id blocked none now db ≡ ok db1
    → (db1.vms ≡ db.vms) × IsSettled vm db1
set-IsSettled vm blocked now db is db1 e =
    let (kept, row) = set-lookup vm.id blocked none now db e in
    (kept, (rw (row.1) (row.2 ∙ is), rw (row.1) (ap is_some row.3)))

fail-not_ok :
    {S : Type 0} (b : Bool) (message : String) (r : AppResult Tables) (db : Tables) (s : S)
    {st : TrafficQuotaStatus} {db' : Tables} {s' : S}
    → fail b message r db s ≡ (ok st, db', s')
    → ⊥
unfolding fail
fail-not_ok b message (ok db1) db s h = ground arith
fail-not_ok b message (err e) db s h = ground arith

module _ {S : Type 0}
    (set_network_enabled : String → Bool → S → HypervisorResult (Unit {0}) × S) where
  transition-IsSettled :
      (vm : Vm) (now : ℕ) (db : Tables) (s : S) {st : TrafficQuotaStatus} {db' : Tables} {s' : S}
      → query_vm vm.id db.vms ≡ some vm
      → transition set_network_enabled vm
          (is_exceeded vm.traffic_limit_bytes vm.traffic_used_bytes)
          now
          db
          s
        ≡ (ok st, db', s')
      → (db'.vms ≡ db.vms)
        × IsSettled vm db'
        × (st ≡ status_from vm (vm_traffic_enforcement vm.id db'))
  transition-IsSettled vm now db s found h =
      let block = is_exceeded vm.traffic_limit_bytes vm.traffic_used_bytes in
      elim (Result-cases (set_network_enabled vm.name (not block) s).0) [
        | inl (u, done) ↦
            finish-IsSettled vm (set_vm_traffic_enforcement vm.id block none now db) db
              (set_network_enabled vm.name (not block) s).1 found
              (set-IsSettled vm block now db refl) (rw (done, transition) at h)
        | inr (e, bad) ↦ absurd (
            fail-not_ok block (to_string e)
              (set_vm_traffic_enforcement vm.id (is_blocked (vm_traffic_enforcement vm.id db))
                (some (to_string e)) now db)
              db (set_network_enabled vm.name (not block) s).1 (rw (bad, transition) at h))
      ]

  reconcile-IsSettled :
      (id : String) (force : Bool) (now : ℕ) (db : Tables) (s : S) {vm : Vm}
      {st : TrafficQuotaStatus} {db' : Tables} {s' : S}
      → query_vm id db.vms ≡ some vm
      → query_vm vm.id db.vms ≡ some vm
      → reconcile_vm_locked set_network_enabled id force now db s ≡ (ok st, db', s')
      → (db'.vms ≡ db.vms)
        × IsSettled vm db'
        × (st ≡ status_from vm (vm_traffic_enforcement vm.id db'))
  unfolding reconcile_vm_locked
  reconcile-IsSettled id force now db s {vm} found again h =
      let block = is_exceeded vm.traffic_limit_bytes vm.traffic_used_bytes in
      let existing = vm_traffic_enforcement vm.id db in
      let run = rw (found, reconcile_vm_locked) at h in
      let test =
        (if block then not (is_blocked existing) else is_blocked existing) || (force && block) in
      elim (Bool-cases test) [
        | inl needed ↦ transition-IsSettled vm now db s again (rw needed at run)
        | inr not_needed ↦
            let right : is_blocked existing ≡ block = ground arith in
            elim (Bool-cases (has_error existing)) [
              | inl pending ↦
                  finish-IsSettled vm
                    (set_vm_traffic_enforcement vm.id (is_blocked existing) none now db) db s again
                    (set-IsSettled vm (is_blocked existing) now db right)
                    (rw (not_needed, pending) at run)
              | inr clear ↦
                  finish-IsSettled vm (ok db) db s again (same-IsSettled vm db (right, clear))
                    (rw (not_needed, clear) at run)
            ]
      ]

  -- The machine is the one that the id or name given finds, and that its own id finds. After
  -- a reconciliation that succeeds, the recorded network block and the one in the returned
  -- status are on exactly if the machine is past its quota, no error is pending, and the
  -- machines are unchanged. Another one, not forced, at any time, returns the same status,
  -- and changes neither the tables nor the hypervisor.
  pub reconcile_vm_locked-settles :
      (id : String) (force : Bool) (now : ℕ) (db : Tables) (s : S) {vm : Vm}
      {st : TrafficQuotaStatus} {db' : Tables} {s' : S} (now' : ℕ)
      → query_vm id db.vms ≡ some vm
      → query_vm vm.id db.vms ≡ some vm
      → reconcile_vm_locked set_network_enabled id force now db s ≡ (ok st, db', s')
      → (st.network_blocked ≡ is_exceeded vm.traffic_limit_bytes vm.traffic_used_bytes)
        × (st.exceeded ≡ st.network_blocked)
        × (st.enforcement_error ≡ none)
        × (db'.vms ≡ db.vms)
        × (reconcile_vm_locked set_network_enabled id false now' db' s' ≡ (ok st, db', s'))
  unfolding reconcile_vm_locked status_from finish
  reconcile_vm_locked-settles id force now db s {vm} {st} {db'} {s'} now' found own h =
      let (kept, settled, shown) = reconcile-IsSettled id force now db s found own h in
      let found' : query_vm id db'.vms ≡ some vm = rw kept found in
      let again : query_vm vm.id db'.vms ≡ some vm = rw kept own in
      rw shown (
        settled.0,
        ground (arith, settled.0),
        ground (arith, settled.1),
        kept,
        ground (arith, found', again, settled.0, settled.1),
      )

  -- The machine is the one that the id or name given finds. Where its network has to be
  -- switched and the hypervisor refuses, the reconciliation fails with the hypervisor's
  -- message; the recorded block stays as it was, so that the next reconciliation tries again,
  -- its error is exactly that message, and the machines are unchanged.
  pub reconcile_vm_locked-refused :
      (id : String) (force : Bool) (now : ℕ) (db : Tables) (s : S) {vm : Vm} {e : HypervisorError}
      → query_vm id db.vms ≡ some vm
      → is_blocked (vm_traffic_enforcement vm.id db)
        ≡ not (is_exceeded vm.traffic_limit_bytes vm.traffic_used_bytes)
      → (set_network_enabled vm.name
          (not (is_exceeded vm.traffic_limit_bytes vm.traffic_used_bytes))
          s).0
        ≡ err e
      → (db' : Tables) × (reconcile_vm_locked set_network_enabled id force now db s ≡ (
        err (
            hypervisor
              (refused (is_exceeded vm.traffic_limit_bytes vm.traffic_used_bytes) (to_string e))),
        db',
        (set_network_enabled vm.name
            (not (is_exceeded vm.traffic_limit_bytes vm.traffic_used_bytes))
            s).1,
      ))
        × (db'.vms ≡ db.vms)
        × ((row : VmTrafficEnforcement) × (vm_traffic_enforcement vm.id db' ≡ some row)
            × (row.blocked ≡ is_blocked (vm_traffic_enforcement vm.id db))
            × (row.last_error ≡ some (to_string e)))
  unfolding reconcile_vm_locked fail
  reconcile_vm_locked-refused id force now db s {vm} {e} found differs bad =
      let blocked = is_blocked (vm_traffic_enforcement vm.id db) in
      let (db', written) =
        set-total vm.id blocked (some (to_string e)) now db
          (found-has_id (λ v. str_eq v.id id || nocase_eq v.name id) db.vms found) in
      let (kept, row) = set-lookup vm.id blocked (some (to_string e)) now db written in
      (db', ground (arith, found, differs, bad, written), kept, row)

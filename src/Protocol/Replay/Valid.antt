-- ===== src/Protocol/Replay/Valid.antt =====
-- The set and the queue of the cache agree, and neither outgrows the capacity.
use vexa_vm.Common.{
  ℕ, ◌≡◌, ◌≤◌, ◌<◌, refl, sym, ap, ◌∙◌, String, false, ◌&&◌, not, List, [], ◌∷◌, ◌++◌, arith, ltb,
  leb, str_eq, eq_iff, eq_refl, length, length-append, any, retain, Bool-cases, inl, inr,
}
use vexa_vm.Protocol.Replay.{ReplayCache, new, last_moment, evict, cache_key, accept}

abbrev pub keys : List (ℕ × String) → List String
keys [] = []
keys ((t, k) ∷ order) = k ∷ keys order

abbrev pub NotIn : String → List String → Type 0
NotIn k [] = Unit {0}
NotIn k (j ∷ js) = (str_eq j k ≡ false) × NotIn k js

abbrev pub Distinct : List String → Type 0
Distinct [] = Unit {0}
Distinct (k ∷ ks) = NotIn k ks × Distinct ks

pub record IsValid (c : ReplayCache) : Type 0 where
  pub some_room : 1 ≤ c.capacity
  pub mirrored : c.seen ≡ keys c.order
  pub distinct : Distinct (keys c.order)
  pub bounded : length c.order ≤ c.capacity

retain-NotIn : (k : String) (js : List String) → NotIn k js → retain (λ s. not (str_eq s k)) js ≡ js
retain-NotIn k [] h = refl
retain-NotIn k (j ∷ js) h = rw h.0 (ap (λ (r : List String). j ∷ r) (retain-NotIn k js h.1))

retain_head :
    (k : String) (js : List String) → NotIn k js → retain (λ s. not (str_eq s k)) (k ∷ js) ≡ js
retain_head k js h = rw (eq_refl k) (retain-NotIn k js h)

-- What an eviction leaves.
pub evict-Distinct :
    (capacity age now : ℕ) (seen : List String) (order : List (ℕ × String))
    → 1 ≤ capacity
    → seen ≡ keys order
    → Distinct (keys order)
    → ((evict capacity age now seen order).0 ≡ keys (evict capacity age now seen order).1)
      × Distinct (keys (evict capacity age now seen order).1)
      × (length (evict capacity age now seen order).1 < capacity)
unfolding evict
evict-Distinct capacity age now seen [] room m d = (m, d, omega arith)
evict-Distinct capacity age now seen ((t, k) ∷ rest) room m d =
    let stays = leb now (last_moment t age) && ltb (length ((t, k) ∷ rest)) capacity in
    elim (Bool-cases stays) [
      | inl stop ↦ rw stop (m, d, ground (arith, stop))
      | inr go ↦ rw go (
          evict-Distinct capacity age now (retain (λ s. not (str_eq s k)) seen) rest room
            (rw m (retain_head k (keys rest) d.0)) d.1)
    ]

not_seen : (k : String) (js : List String) → any (λ s. str_eq s k) js ≡ false → NotIn k js
not_seen k [] h = tt
not_seen k (j ∷ js) h = (ground arith, not_seen k js (ground arith))

keys-append :
    (order : List (ℕ × String)) (t : ℕ) (k : String)
    → keys (order ++ (t, k) ∷ []) ≡ keys order ++ k ∷ []
keys-append [] t k = refl
keys-append ((u, j) ∷ order) t k = ap (λ (r : List String). j ∷ r) (keys-append order t k)

NotIn-append :
    (j k : String) (js : List String) → NotIn j js → str_eq k j ≡ false → NotIn j (js ++ k ∷ [])
NotIn-append j k [] h e = (e, tt)
NotIn-append j k (i ∷ js) h e = (h.0, NotIn-append j k js h.1 e)

Distinct-append :
    (k : String) (js : List String) → Distinct js → NotIn k js → Distinct (js ++ k ∷ [])
Distinct-append k [] d h = (tt, tt)
Distinct-append k (j ∷ js) d h = (
  NotIn-append j k js d.0 (ground (arith, eq_iff k j, eq_iff j k, h.0)),
  Distinct-append k js d.1 h.1,
)

-- Every call, accepted or not, keeps the set of seen keys equal to the keys of the queue, which are
-- distinct, and the queue within the capacity.
pub accept-IsValid :
    (request_id nonce : String) (now age : ℕ) (c : ReplayCache)
    → IsValid c
    → IsValid (accept request_id nonce now age c).1
unfolding accept
accept-IsValid request_id nonce now age c v =
    let kept = evict c.capacity age now c.seen c.order in
    let (m, d, l) =
      evict-Distinct c.capacity age now c.seen c.order v.some_room v.mirrored v.distinct in
    let key = cache_key request_id nonce in
    elim (Bool-cases (any (λ s. str_eq s key) kept.0)) [
      | inl old ↦
          rw (old, accept)
            (record { some_room = v.some_room; mirrored = m; distinct = d; bounded = omega arith })
      | inr fresh ↦
          let free : any (λ s. str_eq s key) (keys kept.1) ≡ false = rw (← m) fresh in
          rw (fresh, accept)
            (record {
              some_room = v.some_room;
              mirrored =
                  ap (λ (s : List String). s ++ key ∷ []) m ∙ sym (keys-append kept.1 now key);
              distinct =
                  rw (keys-append kept.1 now key)
                    (Distinct-append key (keys kept.1) d (not_seen key (keys kept.1) free));
              bounded = omega (arith, length-append kept.1 ((now, key) ∷ []));
            })
    ]

pub new-IsValid : (capacity : ℕ) → IsValid (new capacity)
new-IsValid capacity = record {
  some_room = ground arith;
  mirrored = refl;
  distinct = tt;
  bounded = ground arith;
}

-- ===== src/Protocol/Replay/Held.antt =====
-- How long a request that was accepted is remembered, and when it is not.
use mathlib.Core.Path.{subst}
use vexa_vm.Common.{
  ℕ, suc, ◌+◌, ◌≡◌, ◌≤◌, ◌<◌, refl, ap, ◌∙◌, String, true, false, ◌&&◌, not, List, [], ◌∷◌, ◌++◌,
  arith, ltb, leb, str_eq, eq_refl, length, length-append, any, retain, Bool-cases, inl, inr, ◌⊎◌,
}
use vexa_vm.Error.{ok, err}
use vexa_vm.Protocol.{replay, ProtocolResult}
use vexa_vm.Protocol.Replay.{ReplayCache, last_moment, evict, cache_key, accept}
use vexa_vm.Protocol.Replay.Valid.{IsValid, keys, evict-Distinct, accept-IsValid}

-- The queue holds `key` from time `t` on, with at most `n` entries after it.
abbrev pub Held : String → ℕ → ℕ → List (ℕ × String) → Type 0
Held key t n [] = ⊥
Held key t n ((u, k) ∷ rest) = ((u ≡ t) × (k ≡ key) × (length rest ≤ n)) ⊎ Held key t n rest

Held-le :
    (key : String) (t n : ℕ) (order : List (ℕ × String)) → Held key t n order → 1 ≤ length order
Held-le key t n [] h = absurd h
Held-le key t n ((u, k) ∷ rest) h = omega arith

Held-tail :
    (key : String) (t n capacity age now u : ℕ) (k : String) (rest : List (ℕ × String))
    → Held key t n ((u, k) ∷ rest)
    → n + 1 < capacity
    → now ≤ last_moment t age
    → (leb now (last_moment u age) && ltb (length ((u, k) ∷ rest)) capacity) ≡ false
    → Held key t n rest
Held-tail key t n capacity age now u k rest (inl h) room young go =
    let moment : last_moment u age ≡ last_moment t age = ap (λ (w : ℕ). last_moment w age) h.0 in
    absurd (ground (arith, moment, h.2))
Held-tail key t n capacity age now u k rest (inr h) room young go = h

Held-evict :
    (key : String) (t n capacity age now : ℕ) (seen : List String) (order : List (ℕ × String))
    → Held key t n order
    → n + 1 < capacity
    → now ≤ last_moment t age
    → Held key t n (evict capacity age now seen order).1
unfolding evict
Held-evict key t n capacity age now seen [] h room young = h
Held-evict key t n capacity age now seen ((u, k) ∷ rest) h room young =
    let stays = leb now (last_moment u age) && ltb (length ((u, k) ∷ rest)) capacity in
    elim (Bool-cases stays) [
      | inl stop ↦ rw stop h
      | inr go ↦ rw go (
          Held-evict key t n capacity age now (retain (λ s. not (str_eq s k)) seen) rest
            (Held-tail key t n capacity age now u k rest h room young go) room young)
    ]

Held-append :
    (key : String) (t n : ℕ) (order : List (ℕ × String)) (e : ℕ × String)
    → Held key t n order
    → Held key t (n + 1) (order ++ e ∷ [])
Held-append key t n [] e h = absurd h
Held-append key t n ((u, k) ∷ rest) e (inl h) =
    inl (h.0, h.1, omega (arith, h.2, length-append rest (e ∷ [])))
Held-append key t n ((u, k) ∷ rest) e (inr h) = inr (Held-append key t n rest e h)

Held-seen :
    (key : String) (t n : ℕ) (order : List (ℕ × String))
    → Held key t n order
    → any (λ s. str_eq s key) (keys order) ≡ true
Held-seen key t n [] h = absurd h
Held-seen key t n ((u, k) ∷ rest) (inl h) = ground (arith, h.1, eq_refl key)
Held-seen key t n ((u, k) ∷ rest) (inr h) = ground (arith, Held-seen key t n rest h)

Held-last :
    (key : String) (t : ℕ) (order : List (ℕ × String)) → Held key t 0 (order ++ (t, key) ∷ [])
Held-last key t [] = inl (refl, refl, omega arith)
Held-last key t ((u, k) ∷ rest) = inr (Held-last key t rest)

Held-mono :
    (key : String) (t n m : ℕ) (order : List (ℕ × String))
    → n ≤ m
    → Held key t n order
    → Held key t m order
Held-mono key t n m [] l h = h
Held-mono key t n m ((u, k) ∷ rest) l (inl h) = inl (h.0, h.1, omega (arith, h.2, l))
Held-mono key t n m ((u, k) ∷ rest) l (inr h) = inr (Held-mono key t n m rest l h)

-- A call that comes in time keeps what is held, with one more entry after it at most.
accept-Held :
    (request_id nonce : String) (now age : ℕ) (c : ReplayCache) (key : String) (t n : ℕ)
    → Held key t n c.order
    → n + 1 < c.capacity
    → now ≤ last_moment t age
    → Held key t (n + 1) (accept request_id nonce now age c).1.order
unfolding accept
accept-Held request_id nonce now age c key t n h room young =
    let kept = evict c.capacity age now c.seen c.order in
    let held = Held-evict key t n c.capacity age now c.seen c.order h room young in
    elim (Bool-cases (any (λ s. str_eq s (cache_key request_id nonce)) kept.0)) [
      | inl old ↦ rw (old, accept) (Held-mono key t n (n + 1) kept.1 (omega arith) held)
      | inr fresh ↦
          rw (fresh, accept) (Held-append key t n kept.1 (now, cache_key request_id nonce) held)
    ]

accept-capacity :
    (request_id nonce : String) (now age : ℕ) (c : ReplayCache)
    → (accept request_id nonce now age c).1.capacity ≡ c.capacity
unfolding accept
accept-capacity request_id nonce now age c = ground arith

-- A request as the cache sees it: its id, its nonce and the time at which it comes.
abbrev pub Call : Type 0
Call = String × String × ℕ

unfoldable pub accept_all : ℕ → List Call → ReplayCache → ReplayCache
accept_all age [] c = c
accept_all age ((request_id, nonce, now) ∷ calls) c =
    accept_all age calls (accept request_id nonce now age c).1

abbrev pub AllBefore : ℕ → List Call → Type 0
AllBefore limit [] = Unit {0}
AllBefore limit (call ∷ calls) = (call.2 ≤ limit) × AllBefore limit calls

accept_all-Held :
    (age : ℕ) (calls : List Call) (c : ReplayCache) (key : String) (t n : ℕ)
    → IsValid c
    → Held key t n c.order
    → n + length calls + 1 < c.capacity
    → AllBefore (last_moment t age) calls
    → IsValid (accept_all age calls c)
      × Held key t (n + length calls) (accept_all age calls c).order
      × ((accept_all age calls c).capacity ≡ c.capacity)
unfolding accept_all
accept_all-Held age [] c key t n v h room early =
    (v, Held-mono key t n (n + 0) c.order (omega arith) h, refl)
accept_all-Held age ((request_id, nonce, now) ∷ calls) c key t n v h room early =
    let next = (accept request_id nonce now age c).1 in
    let same = accept-capacity request_id nonce now age c in
    let (v', h', c') =
      accept_all-Held age calls next key t (n + 1) (accept-IsValid request_id nonce now age c v)
        (accept-Held request_id nonce now age c key t n h (omega arith) early.0)
        (omega (arith, same)) early.1 in
    (
      v',
      Held-mono key t (n + 1 + length calls) (n + suc (length calls))
          (accept_all age calls next).order (omega arith) h',
      c' ∙ same,
    )

replayed :
    (request_id nonce : String) (now age : ℕ) (c : ReplayCache) (t n : ℕ)
    → IsValid c
    → Held (cache_key request_id nonce) t n c.order
    → n + 1 < c.capacity
    → now ≤ last_moment t age
    → (accept request_id nonce now age c).0 ≡ err replay
unfolding accept
replayed request_id nonce now age c t n v h room young =
    let key = cache_key request_id nonce in
    let kept = evict c.capacity age now c.seen c.order in
    let (m, d, l) =
      evict-Distinct c.capacity age now c.seen c.order v.some_room v.mirrored v.distinct in
    let old : any (λ s. str_eq s key) kept.0 ≡ true = rw m (
      Held-seen key t n kept.1
        (Held-evict key t n c.capacity age now c.seen c.order h room young)) in
    rw (old, accept)

accepted-Held :
    (request_id nonce : String) (t age : ℕ) (c : ReplayCache) {c' : ReplayCache}
    → accept request_id nonce t age c ≡ (ok tt, c')
    → Held (cache_key request_id nonce) t 0 c'.order × (c'.capacity ≡ c.capacity)
unfolding accept
accepted-Held request_id nonce t age c {c'} e =
    let kept = evict c.capacity age t c.seen c.order in
    let key = cache_key request_id nonce in
    elim (Bool-cases (any (λ s. str_eq s key) kept.0)) [
      | inl old ↦ absurd (ground (arith, old))
      | inr fresh ↦
          let table : c'.order ≡ kept.1 ++ (t, key) ∷ [] = ground (arith, fresh) in
          (rw table (Held-last key t kept.1), ground (arith, fresh))
    ]

-- A request that was accepted at time `t` is refused as a replay whenever it comes again, for as
-- long as its age is within the maximum and fewer than `capacity - 1` other calls have been made,
-- whatever these calls are.
pub accept-replay :
    (request_id nonce : String) (t now age : ℕ) (c : ReplayCache) {c' : ReplayCache}
    (calls : List Call)
    → IsValid c
    → accept request_id nonce t age c ≡ (ok tt, c')
    → length calls + 1 < c.capacity
    → AllBefore (last_moment t age) calls
    → now ≤ last_moment t age
    → (accept request_id nonce now age (accept_all age calls c')).0 ≡ err replay
accept-replay request_id nonce t now age c {c'} calls v e room early young =
    let (held, same) = accepted-Held request_id nonce t age c e in
    let v' : IsValid c' =
      subst IsValid (ap (λ (p : ProtocolResult (Unit {0}) × ReplayCache). p.1) e)
        (accept-IsValid request_id nonce t age c v) in
    let (v'', held', same') =
      accept_all-Held age calls c' (cache_key request_id nonce) t 0 v' held (omega arith) early in
    replayed request_id nonce now age (accept_all age calls c') t (0 + length calls) v'' held'
      (omega (arith, same, same')) young

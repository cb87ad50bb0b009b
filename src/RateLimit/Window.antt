-- ===== src/RateLimit/Window.antt =====
-- What a fixed window promises: a bounded table, and at most `limit` admissions in a window
-- whatever other callers do in between.
use vexa_vm.Common.{
  ℕ, ◌+◌, ◌-◌, ◌^◌, ◌≤◌, ◌<◌, ◌≡◌, refl, String, true, false, Option, none, some, List, [], ◌∷◌,
  arith, if◌then◌else◌, leb, ◌==◌, ◌||◌, length, str_eq, eq_iff, eq_refl, Bool-cases, if_rule,
  Option-cases, inl, inr, min,
}
use native.Mathlib.Nat.{add-zero, add_assoc}
use vexa_vm.Common.Int.{ℤ, pos, ◌+ℤ◌, ◌≤ℤ◌, ◌<ℤ◌, leb_ℤ, saturating_sub-lt}
use vexa_vm.Common.Dict.{
  get, retain_values, get-insert, length-insert-le, length-retain_values-le, get-retain_values,
  get-retain_values_absent,
}
use vexa_vm.Error.{AppError, rate_limited, AppResult, ok, err}
use vexa_vm.RateLimit.{
  Bucket, RateLimiter, max_buckets, bucket_key, is_live, current_bucket, evict, admit, check,
}

admit-length :
    (r : RateLimiter) (k : String) (limit : ℕ) (window now : ℤ)
    → length r.buckets < max_buckets
    → length (admit r k limit window now).0.buckets ≤ max_buckets
unfolding admit
admit-length r k limit window now h =
    let b = current_bucket (get k r.buckets) window now in
    let c : Bucket = record b { count = min (b.count + 1) (2 ^ 32 - 1) } in
    elim (Bool-cases (leb limit b.count)) [
      | inl e ↦ rw e (omega (arith, length-insert-le k b r.buckets))
      | inr e ↦ rw e (omega (arith, length-insert-le k c r.buckets))
    ]

-- A property of every way that a check can end holds of the check.
check_rule :
    (P : RateLimiter × AppResult (Unit {0}) → Type 0) (r : RateLimiter) (namespace key : String)
    (limit : ℕ) (window now : ℤ)
    → ((e : AppError) → P (r, err e))
    → P (evict r now, err rate_limited)
    → P (admit (evict r now) (bucket_key namespace key) limit window now)
    → P (check r namespace key limit window now)
unfolding check
check_rule P r namespace key limit window now refused full admitted =
    if_rule P (limit == 0 || leb_ℤ window (pos 0)) (refused _) (
      if_rule P r.poisoned (refused _)
        (if_rule P (leb max_buckets (length (evict r now).buckets)) full admitted))

-- The table never holds more than `max_buckets` buckets, whatever is checked.
pub check-length :
    (r : RateLimiter) (namespace key : String) (limit : ℕ) (window now : ℤ)
    → length r.buckets ≤ max_buckets
    → length (check r namespace key limit window now).0.buckets ≤ max_buckets
unfolding check
check-length r namespace key limit window now h = ground (
  arith,
  length-retain_values-le (is_live now) r.buckets,
  admit-length (evict r now) (bucket_key namespace key) limit window now,
)

-- What the bucket of a key says after `acc` admissions in the window that began at `t0` or later.
abbrev pub Tracks : ℤ → ℤ → ℕ → ℕ → Option Bucket → Type 0
Tracks t0 window limit acc none = acc ≡ 0
Tracks t0 window limit acc (some b) =
    (t0 ≤ℤ b.started_at) × (b.window_seconds ≡ window) × (b.count ≡ acc) × (acc ≤ limit)

abbrev pub admissions : AppResult (Unit {0}) → ℕ
admissions (ok _) = 1
admissions (err _) = 0

module _ (t0 window : ℤ) (limit : ℕ) (positive : pos 0 <ℤ window) where
  is_live_lem :
      (now : ℤ) (b : Bucket)
      → t0 ≤ℤ b.started_at
      → b.window_seconds ≡ window
      → now <ℤ t0 +ℤ window
      → is_live now b ≡ true
  unfolding ◌+ℤ◌
  is_live_lem now b h w k = rw w (saturating_sub-lt now b.started_at window positive (ground arith))

  retain-Tracks :
      (now : ℤ) (k : String) (m : List (String × Bucket)) (acc : ℕ)
      → now <ℤ t0 +ℤ window
      → Tracks t0 window limit acc (get k m)
      → Tracks t0 window limit acc (get k (retain_values (is_live now) m))
  retain-Tracks now k m acc h t = elim (Option-cases (get k m)) [
    | inl e ↦ rw (get-retain_values_absent (is_live now) k m e) (rw e at t)
    | inr (b, e) ↦
        let u : Tracks t0 window limit acc (some b) = rw e at t in
        rw (get-retain_values (is_live now) k m e (is_live_lem now b u.0 u.1 h)) u
  ]

  evict-Tracks :
      (r : RateLimiter) (now : ℤ) (k : String) (acc : ℕ)
      → now <ℤ t0 +ℤ window
      → Tracks t0 window limit acc (get k r.buckets)
      → Tracks t0 window limit acc (get k (evict r now).buckets)
  evict-Tracks r now k acc h t = elim (Bool-cases (leb max_buckets (length r.buckets))) [
    | inl e ↦ rw e (retain-Tracks now k r.buckets acc h t)
    | inr e ↦ rw e t
  ]

  current-Tracks :
      (o : Option Bucket) (now : ℤ) (acc : ℕ)
      → t0 ≤ℤ now
      → now <ℤ t0 +ℤ window
      → Tracks t0 window limit acc o
      → Tracks t0 window limit acc (some (current_bucket o window now))
  current-Tracks none now acc h k t = ground arith
  current-Tracks (some b) now acc h k t = rw (is_live_lem now b t.0 t.1 k) t

  admit-Tracks :
      (r : RateLimiter) (k : String) (now : ℤ) (acc : ℕ)
      → limit < 2 ^ 32
      → t0 ≤ℤ now
      → now <ℤ t0 +ℤ window
      → Tracks t0 window limit acc (get k r.buckets)
      → let (r', result) = admit r k limit window now in
        Tracks t0 window limit (acc + admissions result) (get k r'.buckets)
  unfolding admit
  admit-Tracks r k now acc small h i t =
      let b = current_bucket (get k r.buckets) window now in
      let u : Tracks t0 window limit acc (some b) =
        current-Tracks (get k r.buckets) now acc h i t in
      elim (Bool-cases (leb limit b.count)) [
        | inl e ↦ rw (e, get-insert k k b r.buckets, eq_refl k) (ground arith)
        | inr e ↦
            let c : Bucket = record b { count = min (b.count + 1) (2 ^ 32 - 1) } in
            rw (e, get-insert k k c r.buckets, eq_refl k) (ground arith)
      ]

  check_own-Tracks :
      (r : RateLimiter) (namespace key : String) (now : ℤ) (acc : ℕ)
      → limit < 2 ^ 32
      → t0 ≤ℤ now
      → now <ℤ t0 +ℤ window
      → Tracks t0 window limit acc (get (bucket_key namespace key) r.buckets)
      → let (r', result) = check r namespace key limit window now in
        Tracks t0 window limit (acc + admissions result) (get (bucket_key namespace key) r'.buckets)
  check_own-Tracks r namespace key now acc small h i t =
      let k = bucket_key namespace key in
      let e = evict-Tracks r now k acc i t in
      check_rule (λ o. Tracks t0 window limit (acc + admissions o.1) (get k o.0.buckets)) r
        namespace key limit window now (λ m. rw add-zero t) (rw add-zero e)
        (admit-Tracks (evict r now) k now acc small h i e)

  check_agreed-Tracks :
      (r : RateLimiter) (namespace key k : String) (other : ℕ) (span now : ℤ) (acc : ℕ)
      → other ≡ limit
      → span ≡ window
      → bucket_key namespace key ≡ k
      → limit < 2 ^ 32
      → t0 ≤ℤ now
      → now <ℤ t0 +ℤ window
      → Tracks t0 window limit acc (get k r.buckets)
      → let (r', result) = check r namespace key other span now in
        Tracks t0 window limit (acc + admissions result) (get k r'.buckets)
  check_agreed-Tracks r namespace key k other span now acc el es same small h i t =
      rw (el, es, ← same) (check_own-Tracks r namespace key now acc small h i (rw (← same) at t))

  admit-get_ne :
      (r : RateLimiter) (k j : String) (other : ℕ) (span now : ℤ)
      → str_eq k j ≡ false
      → get j (admit r k other span now).0.buckets ≡ get j r.buckets
  unfolding admit
  admit-get_ne r k j other span now h =
      let b = current_bucket (get k r.buckets) span now in
      let c : Bucket = record b { count = min (b.count + 1) (2 ^ 32 - 1) } in
      ground (arith, get-insert k j b r.buckets, get-insert k j c r.buckets)

  check_other-Tracks :
      (r : RateLimiter) (namespace key j : String) (other : ℕ) (span now : ℤ) (acc : ℕ)
      → str_eq (bucket_key namespace key) j ≡ false
      → now <ℤ t0 +ℤ window
      → Tracks t0 window limit acc (get j r.buckets)
      → Tracks t0 window limit acc (get j (check r namespace key other span now).0.buckets)
  check_other-Tracks r namespace key j other span now acc ne i t =
      let e = evict-Tracks r now j acc i t in
      let k = bucket_key namespace key in
      check_rule (λ o. Tracks t0 window limit acc (get j o.0.buckets)) r namespace key other span
        now (λ m. t) e (rw (admit-get_ne (evict r now) k j other span now ne) e)

-- One call of `check`, by anyone.
pub record Call : Type 0 where
  pub namespace : String
  pub key : String
  pub limit : ℕ
  pub window : ℤ
  pub now : ℤ

-- A sequence of calls; the number counts the admissions of the bucket `k`.
unfoldable pub run : String → RateLimiter → List Call → RateLimiter × ℕ
run k r [] = (r, 0)
run k r (c ∷ cs) =
    let (r', result) = check r c.namespace c.key c.limit c.window c.now in
    let (r'', n) = run k r' cs in
    (r'', if str_eq (bucket_key c.namespace c.key) k then admissions result + n else n)

-- Every call falls in the window from `t0`, and the calls for `k` ask for this limit and window.
abbrev pub Within : ℤ → ℤ → ℕ → String → List Call → Type 0
Within t0 window limit k [] = Unit {0}
Within t0 window limit k (c ∷ cs) =
    (t0 ≤ℤ c.now)
    × (c.now <ℤ t0 +ℤ window)
    × (bucket_key c.namespace c.key ≡ k → (c.limit ≡ limit) × (c.window ≡ window))
    × Within t0 window limit k cs

run-Tracks :
    (t0 window : ℤ) (limit : ℕ) (k : String) (acc : ℕ) (r : RateLimiter) (cs : List Call)
    → pos 0 <ℤ window
    → limit < 2 ^ 32
    → Within t0 window limit k cs
    → Tracks t0 window limit acc (get k r.buckets)
    → Tracks t0 window limit (acc + (run k r cs).1) (get k (run k r cs).0.buckets)
unfolding run
run-Tracks t0 window limit k acc r [] p small w t = rw add-zero t
run-Tracks t0 window limit k acc r (c ∷ cs) p small w t =
    let key = bucket_key c.namespace c.key in
    let r' = (check r c.namespace c.key c.limit c.window c.now).0 in
    let result = (check r c.namespace c.key c.limit c.window c.now).1 in
    elim (Bool-cases (str_eq key k)) [
      | inl e ↦
          let same : key ≡ k = (eq_iff key k).0 e in
          let (limits, windows) = w.2 same in
          let u =
            check_agreed-Tracks t0 window limit p r c.namespace c.key k c.limit c.window c.now acc
              limits windows same small w.0 w.1 t in
          rw (e, ← add_assoc)
            (run-Tracks t0 window limit k (acc + admissions result) r' cs p small w.3 u)
      | inr e ↦ rw e (
          run-Tracks t0 window limit k acc r' cs p small w.3 (
            check_other-Tracks t0 window limit p r c.namespace c.key k c.limit c.window c.now acc e
              w.1 t))
    ]

Tracks-le :
    (t0 window : ℤ) (limit acc : ℕ) (o : Option Bucket) → Tracks t0 window limit acc o → acc ≤ limit
Tracks-le t0 window limit acc none t = omega arith
Tracks-le t0 window limit acc (some b) t = omega arith

-- However calls for other keys are interleaved, a key that has no bucket at first is admitted at
-- most `limit` times within one window, if its callers agree on the limit (a `u32`) and the window.
pub run-le-limit :
    (t0 window : ℤ) (limit : ℕ) (k : String) (r : RateLimiter) (cs : List Call)
    → pos 0 <ℤ window
    → limit < 2 ^ 32
    → Within t0 window limit k cs
    → get k r.buckets ≡ none
    → (run k r cs).1 ≤ limit
run-le-limit t0 window limit k r cs p small w absent = omega (
  arith,
  Tracks-le t0 window limit (0 + (run k r cs).1) (get k (run k r cs).0.buckets)
      (run-Tracks t0 window limit k 0 r cs p small w (rw absent refl)),
)

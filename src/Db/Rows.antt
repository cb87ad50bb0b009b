-- ===== src/Db/Rows.antt =====
-- Facts about lists of rows: what an update, a deletion or an insertion keeps.
use vexa_vm.Common.{
  ◌+◌, ◌≤◌, ◌≡◌, refl, Bool, true, false, none, some, List, [], ◌∷◌, ◌++◌, arith, if◌then◌else◌,
  Bool-cases, inl, inr, update_where, retain, find?, count_if, not, any, ap,
}

module _ {A : Type 0} where
  abbrev pub All : (A → Type 0) → List A → Type 0
  All P [] = Unit {0}
  All P (x ∷ xs) = P x × All P xs

  pub All-append : (P : A → Type 0) (xs : List A) (x : A) → All P xs → P x → All P (xs ++ x ∷ [])
  All-append P [] x h p = (p, tt)
  All-append P (y ∷ xs) x h p = (h.0, All-append P xs x h.1 p)

  pub All-mono : (P Q : A → Type 0) (xs : List A) → ((x : A) → P x → Q x) → All P xs → All Q xs
  All-mono P Q [] f h = tt
  All-mono P Q (x ∷ xs) f h = (f x h.0, All-mono P Q xs f h.1)

  -- `UPDATE … SET f WHERE p` takes rows with `P` to rows with `Q`.
  pub All-update_where :
      (P Q : A → Type 0) (p : A → Bool) (f : A → A) (xs : List A)
      → ((x : A) → P x → p x ≡ true → Q (f x))
      → ((x : A) → P x → p x ≡ false → Q x)
      → All P xs
      → All Q (update_where p f xs)
  All-update_where P Q p f [] hit miss h = tt
  All-update_where P Q p f (x ∷ xs) hit miss h = elim (Bool-cases (p x)) [
    | inl e ↦ rw e (hit x h.0 e, All-update_where P Q p f xs hit miss h.1)
    | inr e ↦ rw e (miss x h.0 e, All-update_where P Q p f xs hit miss h.1)
  ]

  pub All-both : (P Q : A → Type 0) (xs : List A) → All P xs → All Q xs → All (λ x. P x × Q x) xs
  All-both P Q [] h k = tt
  All-both P Q (x ∷ xs) h k = ((h.0, k.0), All-both P Q xs h.1 k.1)

  pub All-find? :
      (P : A → Type 0) (p : A → Bool) (xs : List A) {x : A}
      → All P xs
      → find? p xs ≡ some x
      → P x × (p x ≡ true)
  All-find? P p [] h e = cc
  All-find? P p (y ∷ xs) {x} h e = elim (Bool-cases (p y)) [
    | inl hit ↦ let same : y ≡ x = ground arith in rw (← same) (h.0, hit)
    | inr miss ↦ All-find? P p xs h.1 (rw miss at e)
  ]

  -- An inserted row is found if no row before it is.
  pub find?-append_none :
      (p : A → Bool) (xs : List A) (x : A)
      → find? p xs ≡ none
      → p x ≡ true
      → find? p (xs ++ x ∷ []) ≡ some x
  find?-append_none p [] x h e = rw e
  find?-append_none p (y ∷ xs) x h e = elim (Bool-cases (p y)) [
    | inl hit ↦ ground arith
    | inr miss ↦ rw miss (find?-append_none p xs x (rw miss at h) e)
  ]

  pub count_if-append :
      (p : A → Bool) (xs : List A) (x : A)
      → count_if p (xs ++ x ∷ []) ≡ count_if p xs + (if p x then 1 else 0)
  count_if-append p [] x = ground arith
  count_if-append p (y ∷ xs) x = ground (arith, count_if-append p xs x)

  pub count_if-eq-zero :
      (p : A → Bool) (xs : List A) → All (λ x. p x ≡ false) xs → count_if p xs ≡ 0
  count_if-eq-zero p [] h = refl
  count_if-eq-zero p (x ∷ xs) h = rw h.0 (count_if-eq-zero p xs h.1)

  -- The first row that passes `q` is updated, if `p` selects it and the update keeps `q`.
  pub find?-update_where :
      (q p : A → Bool) (f : A → A) (xs : List A) (x : A)
      → ((y : A) → q (f y) ≡ q y)
      → find? q xs ≡ some x
      → p x ≡ true
      → find? q (update_where p f xs) ≡ some (f x)
  find?-update_where q p f [] x keep e h = cc
  find?-update_where q p f (y ∷ ys) x keep e h = elim (Bool-cases (q y)) [
    | inl hit ↦ let same : y ≡ x = ground arith in ground (arith, keep y)
    | inr miss ↦
        let rest = find?-update_where q p f ys x keep (rw miss at e) h in ground (arith, keep y)
  ]

  pub count_if-pos :
      (p q : A → Bool) (xs : List A) (x : A) → find? q xs ≡ some x → p x ≡ true → 1 ≤ count_if p xs
  count_if-pos p q [] x e h = cc
  count_if-pos p q (y ∷ ys) x e h = elim (Bool-cases (q y)) [
    | inl hit ↦ let same : y ≡ x = ground arith in ground arith
    | inr miss ↦ let rest = count_if-pos p q ys x (rw miss at e) h in ground arith
  ]

  -- `DELETE … WHERE p` leaves no row that `p` selects.
  pub All-retain-not :
      (p : A → Bool) (xs : List A) → All (λ x. p x ≡ false) (retain (λ x. not (p x)) xs)
  All-retain-not p [] = tt
  All-retain-not p (x ∷ xs) = elim (Bool-cases (p x)) [
    | inl e ↦ rw e (All-retain-not p xs)
    | inr e ↦ rw e (e, All-retain-not p xs)
  ]

  pub All-true : (P : A → Type 0) (xs : List A) → ((x : A) → P x) → All P xs
  All-true P [] h = tt
  All-true P (x ∷ xs) h = (h x, All-true P xs h)

  pub find?-none : (q : A → Bool) (xs : List A) → All (λ x. q x ≡ false) xs → find? q xs ≡ none
  find?-none q [] h = refl
  find?-none q (x ∷ xs) h = rw h.0 (find?-none q xs h.1)

  -- Where no row passes `q` and `x` is the only row that `p` selects, an update brings in just the
  -- row `f x`.
  pub find?-update_only :
      (q p r : A → Bool) (f : A → A) (xs : List A) (x : A)
      → All (λ y. q y ≡ false) xs
      → All (λ y. p y ≡ true → y ≡ x) xs
      → find? r xs ≡ some x
      → p x ≡ true
      → find? q (update_where p f xs) ≡ (if q (f x) then some (f x) else none)
  find?-update_only q p r f [] x off only e h = cc
  find?-update_only q p r f (y ∷ ys) x off only e h = elim (Bool-cases (p y)) [
    | inl hit ↦
        let same : y ≡ x = only.0 hit in
        elim (Bool-cases (q (f x))) [
          | inl seen ↦ ground (arith, seen)
          | inr unseen ↦
              let quiet = find?-none q (update_where p f ys) (
                All-update_where (λ z. (q z ≡ false) × (p z ≡ true → z ≡ x)) (λ z. q z ≡ false) p f
                  ys (λ z k t. rw (k.1 t) unseen) (λ z k t. k.0)
                  (All-both (λ z. q z ≡ false) (λ z. p z ≡ true → z ≡ x) ys off.1 only.1)) in
              ground (arith, unseen, quiet)
        ]
    | inr miss ↦
        let other : r y ≡ false = elim (Bool-cases (r y)) [
          | inl t ↦ let same : y ≡ x = ground arith in cc (rw same at miss)
          | inr f' ↦ f'
        ] in
        rw (miss, off.0) (find?-update_only q p r f ys x off.1 only.1 (rw other at e) h)
  ]

  -- A deletion that spares whatever may pass `q` is not seen by a lookup of `q`.
  pub find?-retain :
      (q keep : A → Bool) (xs : List A)
      → ((x : A) → keep x ≡ false → q x ≡ false)
      → find? q (retain keep xs) ≡ find? q xs
  find?-retain q keep [] h = refl
  find?-retain q keep (x ∷ xs) h = elim (Bool-cases (keep x)) [
    | inl e ↦ rw (e, find?-retain q keep xs h) refl
    | inr e ↦ rw (e, h x e) (find?-retain q keep xs h)
  ]

  -- Where `x` is the only row that `q` may select, a lookup of `q` finds it.
  pub find?-only :
      (q r : A → Bool) (xs : List A) (x : A)
      → All (λ y. q y ≡ true → y ≡ x) xs
      → find? r xs ≡ some x
      → q x ≡ true
      → find? q xs ≡ some x
  find?-only q r [] x only e h = cc
  find?-only q r (y ∷ ys) x only e h = elim (Bool-cases (q y)) [
    | inl hit ↦ rw hit (ap some (only.0 hit))
    | inr miss ↦
        let other : r y ≡ false = elim (Bool-cases (r y)) [
          | inl t ↦ let same : y ≡ x = ground arith in cc (rw same at miss)
          | inr f ↦ f
        ] in
        rw miss (find?-only q r ys x only.1 (rw other at e) h)
  ]

  pub any-All : (p : A → Bool) (xs : List A) → any p xs ≡ false → All (λ x. p x ≡ false) xs
  any-All p [] h = tt
  any-All p (x ∷ xs) h = (ground arith, any-All p xs (ground arith))

  pub All-retain : (P : A → Type 0) (p : A → Bool) (xs : List A) → All P xs → All P (retain p xs)
  All-retain P p [] h = tt
  All-retain P p (x ∷ xs) h = elim (Bool-cases (p x)) [
    | inl e ↦ rw e (h.0, All-retain P p xs h.1)
    | inr e ↦ rw e (All-retain P p xs h.1)
  ]

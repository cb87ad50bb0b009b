-- ===== src/Db/Found.antt =====
-- Whether a table still has a row of a kind after an update, a deletion or an insertion.
use vexa_vm.Common.{
  ◌≡◌, Bool, true, false, none, List, [], ◌∷◌, ◌++◌, arith, any, find?, update_where, retain,
  Bool-cases, inl, inr,
}
use vexa_vm.Db.Rows.{All}

module _ {A : Type 0} where
  pub any-update_where :
      (p q : A → Bool) (f : A → A) (xs : List A)
      → All (λ x. p x ≡ true → q x ≡ true → p (f x) ≡ true) xs
      → any p xs ≡ true
      → any p (update_where q f xs) ≡ true
  any-update_where p q f [] h e = e
  any-update_where p q f (x ∷ xs) h e = elim (Bool-cases (p x)) [
    | inl here ↦ elim (Bool-cases (q x)) [
      | inl hit ↦ ground (arith, hit, h.0 here hit)
      | inr miss ↦ ground (arith, miss, here)
    ]
    | inr there ↦ ground (arith, any-update_where p q f xs h.1 (rw there at e))
  ]

  pub any-retain :
      (p keep : A → Bool) (xs : List A)
      → All (λ x. p x ≡ true → keep x ≡ true) xs
      → any p xs ≡ true
      → any p (retain keep xs) ≡ true
  any-retain p keep [] h e = e
  any-retain p keep (x ∷ xs) h e = elim (Bool-cases (p x)) [
    | inl here ↦ rw (h.0 here, here)
    | inr there ↦ elim (Bool-cases (keep x)) [
      | inl k ↦ rw k (ground (arith, any-retain p keep xs h.1 (rw there at e)))
      | inr k ↦ rw k (any-retain p keep xs h.1 (rw there at e))
    ]
  ]

  pub any-append :
      (p : A → Bool) (xs : List A) (x : A) → any p xs ≡ true → any p (xs ++ x ∷ []) ≡ true
  any-append p [] x e = cc
  any-append p (y ∷ xs) x e = elim (Bool-cases (p y)) [
    | inl here ↦ ground (arith, here)
    | inr there ↦ ground (arith, any-append p xs x (rw there at e))
  ]

  pub none-All : (p : A → Bool) (xs : List A) → find? p xs ≡ none → All (λ x. p x ≡ false) xs
  none-All p [] e = tt
  none-All p (x ∷ xs) e = elim (Bool-cases (p x)) [
    | inl here ↦ absurd (ground (arith, here))
    | inr there ↦ (there, none-All p xs (rw there at e))
  ]

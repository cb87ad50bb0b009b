-- ===== src/Common/Dict.antt =====
-- `HashMap<String, V>` as an association list: a key occurs at most once in a map that these
-- operations build. The order of the list stands for the unspecified order of iteration.
use vexa_vm.Common.{
  ◌+◌, ◌≤◌, ◌≡◌, refl, String, Bool, true, false, Option, none, some, List, [], ◌∷◌, arith,
  if◌then◌else◌, str_eq, eq_iff, length, Bool-cases, inl, inr, sym, ◌∙◌,
}

module _ {V : Type 0} where
  abbrev pub get : String → List (String × V) → Option V
  get k [] = none
  get k ((j, v) ∷ m) = if str_eq j k then some v else get k m

  abbrev pub insert : String → V → List (String × V) → List (String × V)
  insert k v [] = (k, v) ∷ []
  insert k v ((j, w) ∷ m) = if str_eq j k then (k, v) ∷ m else (j, w) ∷ insert k v m

  abbrev pub remove : String → List (String × V) → List (String × V)
  remove k [] = []
  remove k ((j, w) ∷ m) = if str_eq j k then m else (j, w) ∷ remove k m

  abbrev pub retain_values : (V → Bool) → List (String × V) → List (String × V)
  retain_values p [] = []
  retain_values p ((j, w) ∷ m) = if p w then (j, w) ∷ retain_values p m else retain_values p m

  -- No key occurs twice.
  abbrev pub HasKeys : List (String × V) → Type 0
  HasKeys [] = Unit {0}
  HasKeys ((j, w) ∷ m) = (get j m ≡ none) × HasKeys m

  pub get-insert :
      (k j : String) (v : V) (m : List (String × V))
      → get j (insert k v m) ≡ (if str_eq k j then some v else get j m)
  get-insert k j v [] = refl
  get-insert k j v ((i, w) ∷ m) =
      ground (arith, eq_iff k j, eq_iff i k, eq_iff i j, get-insert k j v m)

  pub get-remove_ne :
      (k j : String) (m : List (String × V)) → str_eq k j ≡ false → get j (remove k m) ≡ get j m
  get-remove_ne k j [] h = refl
  get-remove_ne k j ((i, w) ∷ m) h =
      ground (arith, eq_iff k j, eq_iff i k, eq_iff i j, get-remove_ne k j m h)

  pub get-remove_self : (k : String) (m : List (String × V)) → HasKeys m → get k (remove k m) ≡ none
  get-remove_self k [] h = refl
  get-remove_self k ((i, w) ∷ m) h = elim (Bool-cases (str_eq i k)) [
    | inl e ↦ let same : i ≡ k = (eq_iff i k).0 e in ground arith
    | inr e ↦ rw (e, e) (get-remove_self k m h.1)
  ]

  pub length-insert-le :
      (k : String) (v : V) (m : List (String × V)) → length (insert k v m) ≤ length m + 1
  length-insert-le k v [] = omega arith
  length-insert-le k v ((i, w) ∷ m) = ground (arith, length-insert-le k v m)

  pub length-insert_present :
      (k : String) (v : V) (m : List (String × V)) {w : V}
      → get k m ≡ some w
      → length (insert k v m) ≡ length m
  length-insert_present k v [] h = cc
  length-insert_present k v ((i, u) ∷ m) {w} h = ground (arith, length-insert_present k v m {w = w})

  pub length-retain_values-le :
      (p : V → Bool) (m : List (String × V)) → length (retain_values p m) ≤ length m
  length-retain_values-le p [] = omega arith
  length-retain_values-le p ((i, w) ∷ m) = ground (arith, length-retain_values-le p m)

  pub get-retain_values_absent :
      (p : V → Bool) (k : String) (m : List (String × V))
      → get k m ≡ none
      → get k (retain_values p m) ≡ none
  get-retain_values_absent p k [] h = refl
  get-retain_values_absent p k ((i, w) ∷ m) h = ground (arith, get-retain_values_absent p k m)

  -- An entry whose value passes the test is kept.
  pub get-retain_values :
      (p : V → Bool) (k : String) (m : List (String × V)) {w : V}
      → get k m ≡ some w
      → p w ≡ true
      → get k (retain_values p m) ≡ some w
  get-retain_values p k [] h q = cc
  get-retain_values p k ((i, u) ∷ m) {w} h q = ground (arith, get-retain_values p k m {w = w})

  pub HasKeys-insert :
      (k : String) (v : V) (m : List (String × V)) → HasKeys m → HasKeys (insert k v m)
  HasKeys-insert k v [] h = (refl, tt)
  HasKeys-insert k v ((i, w) ∷ m) h = elim (Bool-cases (str_eq i k)) [
    | inl e ↦ let same : i ≡ k = (eq_iff i k).0 e in rw e ground (arith, same)
    | inr e ↦
        rw e (ground (arith, get-insert k i v m, eq_iff k i, eq_iff i k), HasKeys-insert k v m h.1)
  ]

  -- A removal brings no key in, and finds no more than was there.
  pub get-remove_absent :
      (k j : String) (m : List (String × V)) → get j m ≡ none → get j (remove k m) ≡ none
  get-remove_absent k j [] h = refl
  get-remove_absent k j ((i, w) ∷ m) h = ground (arith, get-remove_absent k j m)

  pub HasKeys-remove : (k : String) (m : List (String × V)) → HasKeys m → HasKeys (remove k m)
  HasKeys-remove k [] h = tt
  HasKeys-remove k ((i, w) ∷ m) h = elim (Bool-cases (str_eq i k)) [
    | inl e ↦ rw e h.1
    | inr e ↦ rw e (get-remove_absent k i m h.0, HasKeys-remove k m h.1)
  ]

  pub get-remove :
      (k j : String) (m : List (String × V)) {v : V}
      → HasKeys m
      → get j (remove k m) ≡ some v
      → get j m ≡ some v
  get-remove k j m keys e = elim (Bool-cases (str_eq k j)) [
    | inl same ↦
        let eq : k ≡ j = (eq_iff k j).0 same in
        let gone : get j (remove k m) ≡ none = rw (← eq) (get-remove_self k m keys) in cc
    | inr ne ↦ sym (get-remove_ne k j m ne) ∙ e
  ]

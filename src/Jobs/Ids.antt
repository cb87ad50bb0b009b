-- ===== src/Jobs/Ids.antt =====
-- The primary key of the job table: no two rows have one id.
use vexa_vm.Common.{
  ◌≡◌, refl, String, Bool, true, false, none, some, List, [], ◌∷◌, ◌++◌, arith, Bool-cases, inl,
  inr, str_eq, eq_iff, update_where, find?, if◌then◌else◌,
}
use vexa_vm.Db.{Job}
use vexa_vm.Db.Rows.{All, All-append, All-mono, All-update_where}

module _ {V F : Type 0} where
  abbrev pub Differs : String → Job V F → Type 0
  Differs id j = str_eq j.id id ≡ false

  abbrev pub UniqueIds : List (Job V F) → Type 0
  UniqueIds [] = Unit {0}
  UniqueIds (j ∷ js) = All (Differs j.id) js × UniqueIds js

  -- A statement that does not set the id keeps ids unique.
  pub UniqueIds-update_where :
      (p : Job V F → Bool) (f : Job V F → Job V F) (jobs : List (Job V F))
      → ((j : Job V F) → (f j).id ≡ j.id)
      → UniqueIds jobs
      → UniqueIds (update_where p f jobs)
  UniqueIds-update_where p f [] same u = tt
  UniqueIds-update_where p f (j ∷ js) same u =
      let kept : (if p j then f j else j).id ≡ j.id = elim (Bool-cases (p j)) [
        | inl e ↦ rw e (same j)
        | inr e ↦ rw e refl
      ] in
      (
        rw kept (
            All-update_where (Differs j.id) (Differs j.id) p f js (λ k h e. rw (same k) h)
              (λ k h e. h) u.0),
        UniqueIds-update_where p f js same u.1,
      )

  Differs-find? :
      (id : String) (jobs : List (Job V F))
      → find? (λ j. str_eq j.id id) jobs ≡ none
      → All (Differs id) jobs
  Differs-find? id [] e = tt
  Differs-find? id (j ∷ js) e = elim (Bool-cases (str_eq j.id id)) [
    | inl hit ↦ ground arith
    | inr miss ↦ (miss, Differs-find? id js (rw miss at e))
  ]

  UniqueIds-append_new :
      (jobs : List (Job V F)) (j : Job V F)
      → All (Differs j.id) jobs
      → UniqueIds jobs
      → UniqueIds (jobs ++ j ∷ [])
  UniqueIds-append_new [] j d u = (tt, tt)
  UniqueIds-append_new (k ∷ ks) j d u = (
    All-append (Differs k.id) ks j u.0 (ground (arith, d.0, eq_iff k.id j.id, eq_iff j.id k.id)),
    UniqueIds-append_new ks j d.1 u.1,
  )

  -- An inserted row whose id is not in the table keeps ids unique.
  pub UniqueIds-append :
      (jobs : List (Job V F)) (j : Job V F)
      → find? (λ k. str_eq k.id j.id) jobs ≡ none
      → UniqueIds jobs
      → UniqueIds (jobs ++ j ∷ [])
  UniqueIds-append jobs j e u = UniqueIds-append_new jobs j (Differs-find? j.id jobs e) u

  -- The row that a lookup finds is the only one with its id.
  pub UniqueIds-find? :
      (id : String) (jobs : List (Job V F)) (job : Job V F)
      → UniqueIds jobs
      → find? (λ j. str_eq j.id id) jobs ≡ some job
      → All (λ j. str_eq j.id id ≡ true → j ≡ job) jobs
  UniqueIds-find? id [] job u e = tt
  UniqueIds-find? id (k ∷ ks) job u e = elim (Bool-cases (str_eq k.id id)) [
    | inl hit ↦
        let same : k ≡ job = ground arith in
        let named : k.id ≡ id = (eq_iff k.id id).0 hit in
        (
          λ h. same,
          All-mono (Differs k.id) (λ j. str_eq j.id id ≡ true → j ≡ job) ks
              (λ j d h. let other : str_eq j.id id ≡ false = rw (← named) d in cc) u.0,
        )
    | inr miss ↦ (λ h. cc, UniqueIds-find? id ks job u.1 (rw miss at e))
  ]

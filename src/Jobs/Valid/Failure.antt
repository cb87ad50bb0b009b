-- ===== src/Jobs/Valid/Failure.antt =====
-- `fail_job` keeps every job row valid, where ids are unique.
use vexa_vm.Common.{
  ℕ, ◌<◌, ◌≡◌, refl, String, Bool, true, false, ◌&&◌, some, Option, List, arith, ltb, if◌then◌else◌,
  Bool-cases, Option-cases, inl, inr, str_eq, update_where, find?,
}
use vexa_vm.Error.{ok}
use vexa_vm.Db.{Job, Db, is_some, query_job}
use vexa_vm.Db.External.{External}
use vexa_vm.Db.Rows.{All, All-update_where}
use vexa_vm.Jobs.Work.{requeue, give_up, is_id, fail_job}
use vexa_vm.Jobs.Valid.{IsValid, AreValid, AllValid}
use vexa_vm.Jobs.Ids.{UniqueIds-update_where, UniqueIds-find?}
use vexa_vm.Jobs.Valid.Rows.{give_up-IsValid, requeue-IsValid}
use vexa_vm.Jobs.Valid.Operations.{cleanup_unarmed-jobs}

module _ {V F : Type 0} (x : External V F) where
  abbrev pub retries : Option ℕ → Job V F → Bool
  retries retry_at job = is_some retry_at && ltb job.attempts job.max_attempts

  abbrev pub settle : String → Option ℕ → ℕ → Bool → Job V F → Job V F
  settle error retry_at now retry j =
      if retry then requeue x error retry_at now j else give_up x error retry_at now j

  settle-IsValid :
      (error : String) (retry_at : Option ℕ) (now : ℕ) (j job : Job V F)
      → IsValid x j
      → j ≡ job
      → IsValid x (settle error retry_at now (retries retry_at job) j)
  settle-IsValid error retry_at now j job v e = elim (Bool-cases (retries retry_at job)) [
    | inl again ↦
        let room : j.attempts < j.max_attempts = rw e (ground arith) in
        rw again (requeue-IsValid x error retry_at now j v room)
    | inr last ↦ rw last (give_up-IsValid x error retry_at now j v)
  ]

  All-both :
      (P Q : Job V F → Type 0) (jobs : List (Job V F))
      → All P jobs
      → All Q jobs
      → All (λ j. P j × Q j) jobs
  All-both P Q List.[] h k = tt
  All-both P Q (List.◌∷◌ j js) h k = ((h.0, k.0), All-both P Q js h.1 k.1)

  pub settle-id :
      (error : String) (retry_at : Option ℕ) (now : ℕ) (retry : Bool) (j : Job V F)
      → (settle error retry_at now retry j).id ≡ j.id
  settle-id error retry_at now true j = refl
  settle-id error retry_at now false j = refl

  settle-AllValid :
      (id error : String) (retry_at : Option ℕ) (now : ℕ) (jobs : List (Job V F)) (job : Job V F)
      → AreValid x jobs
      → find? (λ j. str_eq j.id id) jobs ≡ some job
      → AreValid x
          (update_where (is_id x id) (settle error retry_at now (retries retry_at job)) jobs)
  settle-AllValid id error retry_at now jobs job v found = (
    All-update_where (λ j. IsValid x j × (str_eq j.id id ≡ true → j ≡ job)) (IsValid x) _ _ jobs
        (λ j h hit. settle-IsValid error retry_at now j job h.0 (h.1 hit)) (λ j h miss. h.0)
        (All-both (IsValid x) (λ j. str_eq j.id id ≡ true → j ≡ job) jobs v.0
          (UniqueIds-find? id jobs job v.1 found)),
    UniqueIds-update_where _ _ jobs (settle-id error retry_at now (retries retry_at job)) v.1,
  )

  pub fail_job-AllValid :
      (id error : String) (retry_at : Option ℕ) (now : ℕ) (db db' : Db V F) (j : Job V F)
      → AllValid x db
      → fail_job x id error retry_at now db ≡ ok (j, db')
      → AllValid x db'
  unfolding fail_job
  fail_job-AllValid id error retry_at now db db' j v e = elim (Option-cases (query_job db id)) [
    | inl missing ↦ ground arith
    | inr (job, found) ↦ ground (
      arith,
      cleanup_unarmed-jobs x job now db,
      settle-AllValid id error retry_at now db.jobs job v found,
    )
  ]

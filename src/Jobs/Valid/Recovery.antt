-- ===== src/Jobs/Valid/Recovery.antt =====
-- `recover_interrupted_jobs`: every row stays valid, no job is left running, and the two numbers
-- that it returns account for every job that was.
use vexa_vm.Common.{
  ℕ, ◌+◌, ◌≡◌, refl, Bool, true, false, List, [], ◌∷◌, arith, Bool-cases, inl, inr, update_where,
  count_if, ◌∙◌,
}
use vexa_vm.Db.{is_running, Job, Db}
use vexa_vm.Db.External.{External}
use vexa_vm.Db.Rows.{All, All-update_where}
use vexa_vm.Jobs.Enqueue.{select_where}
use vexa_vm.Jobs.Cleanup.{cleanup_unarmed_reinstall_guest_tools}
use vexa_vm.Jobs.Recover.{
  is_exhausted, is_exhausted_kind, is_retryable, is_finalizer, interrupt, requeue_interrupted,
  grant_finalizer, cleanup_each, cleanup_terminal_reinstalls, requeue_finalizers, requeue_ordinary,
  requeue_all, clear_orphan_rotations, mark_broken_vms, mark_broken_snapshots, mark_broken_tools,
  mark_damage, fail_exhausted, recover_interrupted_jobs,
}
use vexa_vm.Jobs.Valid.{AreValid, AllValid}
use vexa_vm.Jobs.Valid.Rows.{
  interrupt-IsValid, requeue_interrupted-IsValid, grant_finalizer-IsValid,
}
use vexa_vm.Jobs.Valid.Operations.{cleanup_unarmed-jobs, update-AllValid}

module _ {V F : Type 0} (x : External V F) where
  abbrev pub runs : Job V F → Bool
  runs j = is_running j.status

  cleanup_each-jobs :
      (now : ℕ) (js : List (Job V F)) (db : Db V F) → (cleanup_each x now js db).jobs ≡ db.jobs
  unfolding cleanup_each
  cleanup_each-jobs now [] db = refl
  cleanup_each-jobs now (j ∷ js) db =
      cleanup_each-jobs now js (cleanup_unarmed_reinstall_guest_tools x j now db)
      ∙ cleanup_unarmed-jobs x j now db

  -- The job table after the statements that requeue.
  abbrev requeued : ℕ → List (Job V F) → List (Job V F)
  requeued now jobs =
      update_where (is_retryable x) (requeue_interrupted x now)
        (update_where (is_finalizer x) (grant_finalizer x now) jobs)

  abbrev recovered : ℕ → List (Job V F) → List (Job V F)
  recovered now jobs = update_where (is_exhausted x) (interrupt x now) (requeued now jobs)

  cleanup_terminal-jobs :
      (now : ℕ) (db : Db V F) → (cleanup_terminal_reinstalls x now db).jobs ≡ db.jobs
  unfolding cleanup_terminal_reinstalls
  cleanup_terminal-jobs now db =
      cleanup_each-jobs now (select_where x (is_exhausted_kind x "vm.reinstall") db.jobs) db

  requeue_all-jobs : (now : ℕ) (db : Db V F) → (requeue_all x now db).jobs ≡ requeued now db.jobs
  unfolding requeue_all requeue_ordinary requeue_finalizers
  requeue_all-jobs now db = rw (cleanup_terminal-jobs now db)

  mark_damage-jobs : (now : ℕ) (db : Db V F) → (mark_damage x now db).jobs ≡ db.jobs
  unfolding mark_damage mark_broken_tools mark_broken_snapshots mark_broken_vms
      clear_orphan_rotations
  mark_damage-jobs now db = refl

  recover-jobs :
      (now : ℕ) (db : Db V F) → (recover_interrupted_jobs x now db).0.jobs ≡ recovered now db.jobs
  unfolding recover_interrupted_jobs fail_exhausted
  recover-jobs now db = rw (mark_damage-jobs now (requeue_all x now db), requeue_all-jobs now db)

  exhausted_of_not_retryable :
      (j : Job V F) → is_retryable x j ≡ false → runs j ≡ true → is_exhausted x j ≡ true
  exhausted_of_not_retryable j h r = ground arith

  finalizer_runs : (j : Job V F) → is_finalizer x j ≡ true → runs j ≡ true
  finalizer_runs j h = ground arith

  recovered-AllValid :
      (now : ℕ) (jobs : List (Job V F)) → AreValid x jobs → AreValid x (recovered now jobs)
  recovered-AllValid now jobs v =
      update-AllValid x _ _ _ (λ j w q. interrupt-IsValid x now j w) (λ j. refl)
        (update-AllValid x _ _ _ (λ j w q. requeue_interrupted-IsValid x now j w q) (λ j. refl)
          (update-AllValid x _ _ jobs
            (λ j w q. grant_finalizer-IsValid x now j w (finalizer_runs j q)) (λ j. refl) v))

  -- Recovery keeps every job row valid.
  pub recover_interrupted_jobs-AllValid :
      (now : ℕ) (db : Db V F) → AllValid x db → AllValid x (recover_interrupted_jobs x now db).0
  recover_interrupted_jobs-AllValid now db v =
      rw (recover-jobs now db) (recovered-AllValid now db.jobs v)

  All-trivial : (jobs : List (Job V F)) → All (λ j. Unit {0}) jobs
  All-trivial [] = tt
  All-trivial (j ∷ js) = (tt, All-trivial js)

  stopped_of_exhausted :
      (j : Job V F) → is_retryable x j ≡ false → is_exhausted x j ≡ false → runs j ≡ false
  stopped_of_exhausted j h e = ground arith

  recovered-stopped :
      (now : ℕ) (jobs : List (Job V F)) → All (λ j. runs j ≡ false) (recovered now jobs)
  recovered-stopped now jobs =
      All-update_where (λ j. is_retryable x j ≡ false) (λ j. runs j ≡ false) (is_exhausted x)
        (interrupt x now) (requeued now jobs) (λ j h e. refl) (λ j h e. stopped_of_exhausted j h e)
        (All-update_where (λ j. Unit {0}) (λ j. is_retryable x j ≡ false) (is_retryable x)
          (requeue_interrupted x now) (update_where (is_finalizer x) (grant_finalizer x now) jobs)
          (λ j h e. refl) (λ j h e. e)
          (All-trivial (update_where (is_finalizer x) (grant_finalizer x now) jobs)))

  -- After recovery no job is running, whatever the tables were.
  pub recover_interrupted_jobs-stopped :
      (now : ℕ) (db : Db V F) → All (λ j. runs j ≡ false) (recover_interrupted_jobs x now db).0.jobs
  recover_interrupted_jobs-stopped now db = rw (recover-jobs now db) (recovered-stopped now db.jobs)

  counted : ℕ → List (Job V F) → ℕ
  counted now jobs =
      count_if (is_finalizer x) jobs
      + count_if (is_retryable x) (update_where (is_finalizer x) (grant_finalizer x now) jobs)
      + count_if (is_exhausted x) (requeued now jobs)

  counted-eq : (now : ℕ) (jobs : List (Job V F)) → counted now jobs ≡ count_if (λ j. runs j) jobs
  unfolding counted
  counted-eq now [] = refl
  counted-eq now (j ∷ js) = elim (Bool-cases (is_finalizer x j)) [
    | inl f ↦ rw (f, finalizer_runs j f) (omega (arith, counted-eq now js))
    | inr f ↦ rw f (ground (arith, counted-eq now js))
  ]

  -- The jobs that are queued again and those that fail are together the jobs that were running.
  pub recover_interrupted_jobs-counts :
      (now : ℕ) (db : Db V F)
      → let r = recover_interrupted_jobs x now db in
        r.1 + r.2 ≡ count_if (λ j. is_running j.status) db.jobs
  unfolding recover_interrupted_jobs requeue_finalizers counted
  recover_interrupted_jobs-counts now db =
      rw
        (
          cleanup_terminal-jobs now db,
          mark_damage-jobs now (requeue_all x now db),
          requeue_all-jobs now db,
        )
        (counted-eq now db.jobs)

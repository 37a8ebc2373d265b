-- ===== src/Controller/Repository/Returns.antt =====
-- The reconciler of repositories comes back to one that is there.
use restic_backup_operator.Base.{ℕ, ◌<◌, ◌^◌, String, Option, none, some, ◌∷◌, ◌≡◌, refl, ℤ}
use restic_backup_operator.Restic.Types.{Credentials, RepoStats}
use restic_backup_operator.Restic.Executor.{Result, ok, err}
use restic_backup_operator.Api.Meta.{NamespacedName}
use restic_backup_operator.Api.Repository.{ResticRepository}
use restic_backup_operator.Cluster.{
  Trace, Env, accepted, refused, get, repositories, restic_stats, ◌>>=◌,
}
use restic_backup_operator.Cluster.Logic.{Meets-run_handler}
use restic_backup_operator.Cluster.Outcomes.{
  ComesBack, Anything, Guarantees, Guarantees-bind, Guarantees-call_then, outcome_rules,
}
use restic_backup_operator.Controller.Repository.{
  Credentialed, reject, after_init, initialize, after_recheck, after_unlock, remove_lock,
  leave_locked, mark_ready, after_format, after_stats, publish_stats, handle_check_error,
  after_check, ensure_accessible, reconcile_with, after_credentials, get_credentials,
  reconcile_handler, reconcile,
}
use restic_backup_operator.Controller.Repository.Success.{StatsFit, formatted}

module _ (e : Env) where
  reject-Guarantees :
      {A : Type 0} {P : A → Type 0} (r : ResticRepository) (reason message : String)
      → Guarantees P (reject e r reason message)
  unfolding reject
  reject-Guarantees r reason message = search outcome_rules

  after_init-Guarantees :
      (r : ResticRepository) (o : Option String) → Guarantees Anything (after_init e r o)
  unfolding after_init
  after_init-Guarantees r (some m) = reject-Guarantees r _ m
  after_init-Guarantees r none = search outcome_rules

  initialize-Guarantees :
      (r : ResticRepository) (creds : Credentials) → Guarantees Anything (initialize e r creds)
  unfolding initialize
  initialize-Guarantees r creds = search (outcome_rules, after_init-Guarantees)

  after_recheck-Guarantees :
      (r : ResticRepository) (creds : Credentials) (o : Option String)
      → Guarantees Anything (after_recheck e r creds o)
  unfolding after_recheck
  after_recheck-Guarantees r creds none = search outcome_rules
  after_recheck-Guarantees r creds (some m) = initialize-Guarantees r creds

  after_unlock-Guarantees :
      (r : ResticRepository) (creds : Credentials) (age : ℕ) (o : Option String)
      → Guarantees Anything (after_unlock e r creds age o)
  unfolding after_unlock
  after_unlock-Guarantees r creds age (some m) = reject-Guarantees r _ m
  after_unlock-Guarantees r creds age none = search (outcome_rules, after_recheck-Guarantees)

  remove_lock-Guarantees :
      (r : ResticRepository) (creds : Credentials) (age : ℕ)
      → Guarantees Anything (remove_lock e r creds age)
  unfolding remove_lock
  remove_lock-Guarantees r creds age = search (outcome_rules, after_unlock-Guarantees)

  leave_locked-Guarantees :
      (r : ResticRepository) (age threshold : ℕ)
      → Guarantees Anything (leave_locked e r age threshold)
  unfolding leave_locked
  leave_locked-Guarantees r age threshold = search outcome_rules

  mark_ready-Guarantees : (r : ResticRepository) → Guarantees Anything (mark_ready e r)
  unfolding mark_ready
  mark_ready-Guarantees r = search outcome_rules

  -- A size of 64 bits has a text, so that nothing panics.
  after_stats-Guarantees :
      (r : ResticRepository) (o : Result RepoStats)
      → ((s : RepoStats) → o ≡ ok s → s.total_size < 2 ^ 64)
      → Guarantees Anything (after_stats e r o)
  unfolding after_stats after_format
  after_stats-Guarantees r (err m) fit = search outcome_rules
  after_stats-Guarantees r (ok s) fit =
      let (size, text) = formatted e.one_decimal s.total_size (fit s refl) in
      rw text (search outcome_rules)

  publish_stats-Guarantees :
      (r : ResticRepository) (creds : Credentials)
      → StatsFit e creds
      → Guarantees Anything (publish_stats e r creds)
  unfolding publish_stats
  publish_stats-Guarantees r creds fit =
      Guarantees-call_then (restic_stats creds)
        (λ t. e.stats t creds (record { mode = "restore-size" })) (after_stats e r)
        (λ t. after_stats-Guarantees r _ (fit t (record { mode = "restore-size" })))

  get_credentials-Guarantees : (r : ResticRepository) → Guarantees Anything (get_credentials e r)
  unfolding get_credentials
  get_credentials-Guarantees r = search outcome_rules

module _ (e : Env) (configured : ℤ) (fits : (creds : Credentials) → StatsFit e creds) where
  handle_check_error-Guarantees :
      (r : ResticRepository) (creds : Credentials) (error : String)
      → Guarantees Anything (handle_check_error e configured r creds error)
  unfolding handle_check_error
  handle_check_error-Guarantees r creds error =
      search (outcome_rules, initialize-Guarantees, remove_lock-Guarantees, leave_locked-Guarantees)

  after_check-Guarantees :
      (r : ResticRepository) (creds : Credentials) (o : Option String)
      → Guarantees Anything (after_check e configured r creds o)
  unfolding after_check
  after_check-Guarantees r creds none = search outcome_rules
  after_check-Guarantees r creds (some error) = handle_check_error-Guarantees r creds error

  ensure_accessible-Guarantees :
      (r : ResticRepository) (creds : Credentials)
      → Guarantees Anything (ensure_accessible e configured r creds)
  unfolding ensure_accessible
  ensure_accessible-Guarantees r creds = search (outcome_rules, after_check-Guarantees)

  publishes :
      (r : ResticRepository) (creds : Credentials) → Guarantees Anything (publish_stats e r creds)
  publishes r creds = publish_stats-Guarantees e r creds (fits creds)

  reconcile_with-Guarantees :
      (r : ResticRepository) (creds : Credentials)
      → Guarantees ComesBack (reconcile_with e configured r creds)
  unfolding reconcile_with
  reconcile_with-Guarantees r creds =
      Guarantees-bind _ _ (ensure_accessible-Guarantees r creds) (λ _.
        Guarantees-bind _ _ (mark_ready-Guarantees e r)
          (λ saved. Guarantees-bind _ _ (publishes saved creds) (λ _. search outcome_rules)))

  after_credentials-Guarantees :
      (r : ResticRepository) (found : Credentialed)
      → Guarantees ComesBack (after_credentials e configured r found)
  unfolding after_credentials
  after_credentials-Guarantees r (refused problem) = reject-Guarantees e r _ _
  after_credentials-Guarantees r (accepted creds) = reconcile_with-Guarantees r creds

  pub repository_returns :
      (name : NamespacedName) (t : Trace) (r : ResticRepository)
      → e.get_repository t name ≡ accepted r
      → ComesBack (reconcile e configured name t).0
  unfolding reconcile reconcile_handler
  repository_returns name t r found =
      Meets-run_handler {R = λ o u. ComesBack o} (reconcile_handler e configured name) t
        (rw found (whole.at (get repositories name ∷ t)))
    where
      whole : Guarantees ComesBack (get_credentials e r >>= after_credentials e configured r)
      whole = search (outcome_rules, get_credentials-Guarantees, after_credentials-Guarantees)

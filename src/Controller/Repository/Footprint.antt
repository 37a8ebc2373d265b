-- ===== src/Controller/Repository/Footprint.antt =====
-- The calls that the reconciler of repositories makes.
use restic_backup_operator.Base.{ℕ, String, Bool, true, false, Option, none, some, ℤ}
use restic_backup_operator.Restic.Types.{Credentials, RepoStats}
use restic_backup_operator.Restic.Executor.{Result, ok, err}
use restic_backup_operator.Api.Meta.{NamespacedName}
use restic_backup_operator.Api.Repository.{ResticRepository}
use restic_backup_operator.Cluster.{
  Trace, Env, Call, accepted, refused, get, repositories, secrets, update_repository_status,
  record_event, restic_check, restic_unlock, restic_init, restic_stats,
}
use restic_backup_operator.Cluster.Calls.{Within, Extends, Extends-run_handler, within_rules}
use restic_backup_operator.Controller.Repository.{
  reject, after_init, initialize, after_recheck, after_unlock, remove_lock, leave_locked,
  mark_ready, after_format, after_stats, publish_stats, handle_check_error, after_check,
  ensure_accessible, reconcile_with, after_credentials, get_credentials, reconcile_handler,
  reconcile, Credentialed,
}

-- Reads of repositories and secrets, writes of a repository's status, events and restic.
abbrev pub repository_calls : Call → Bool
repository_calls (get repositories name) = true
repository_calls (get secrets name) = true
repository_calls (update_repository_status r) = true
repository_calls (record_event type reason message) = true
repository_calls (restic_check creds) = true
repository_calls (restic_unlock creds) = true
repository_calls (restic_init creds) = true
repository_calls (restic_stats creds) = true
repository_calls _ = false

module _ (e : Env) where
  reject-Within :
      {A : Type 0} (r : ResticRepository) (reason message : String)
      → Within {A = A} repository_calls (reject e r reason message)
  unfolding reject
  reject-Within r reason message = search within_rules

  after_init-Within :
      (r : ResticRepository) (o : Option String) → Within repository_calls (after_init e r o)
  unfolding after_init
  after_init-Within r (some m) = reject-Within r _ m
  after_init-Within r none = search within_rules

  initialize-Within :
      (r : ResticRepository) (creds : Credentials) → Within repository_calls (initialize e r creds)
  unfolding initialize
  initialize-Within r creds = search (within_rules, after_init-Within)

  after_recheck-Within :
      (r : ResticRepository) (creds : Credentials) (o : Option String)
      → Within repository_calls (after_recheck e r creds o)
  unfolding after_recheck
  after_recheck-Within r creds none = search within_rules
  after_recheck-Within r creds (some m) = initialize-Within r creds

  after_unlock-Within :
      (r : ResticRepository) (creds : Credentials) (age : ℕ) (o : Option String)
      → Within repository_calls (after_unlock e r creds age o)
  unfolding after_unlock
  after_unlock-Within r creds age (some m) = reject-Within r _ m
  after_unlock-Within r creds age none = search (within_rules, after_recheck-Within)

  remove_lock-Within :
      (r : ResticRepository) (creds : Credentials) (age : ℕ)
      → Within repository_calls (remove_lock e r creds age)
  unfolding remove_lock
  remove_lock-Within r creds age = search (within_rules, after_unlock-Within)

  leave_locked-Within :
      (r : ResticRepository) (age threshold : ℕ)
      → Within repository_calls (leave_locked e r age threshold)
  unfolding leave_locked
  leave_locked-Within r age threshold = search within_rules

  mark_ready-Within : (r : ResticRepository) → Within repository_calls (mark_ready e r)
  unfolding mark_ready
  mark_ready-Within r = search within_rules

  after_format-Within :
      (r : ResticRepository) (stats : RepoStats) (o : Option String)
      → Within repository_calls (after_format e r stats o)
  unfolding after_format
  after_format-Within r stats none = search within_rules
  after_format-Within r stats (some size) = search within_rules

  after_stats-Within :
      (r : ResticRepository) (o : Result RepoStats) → Within repository_calls (after_stats e r o)
  unfolding after_stats
  after_stats-Within r (err m) = search within_rules
  after_stats-Within r (ok stats) = after_format-Within r stats _

  publish_stats-Within :
      (r : ResticRepository) (creds : Credentials)
      → Within repository_calls (publish_stats e r creds)
  unfolding publish_stats
  publish_stats-Within r creds = search (within_rules, after_stats-Within)

  get_credentials-Within : (r : ResticRepository) → Within repository_calls (get_credentials e r)
  unfolding get_credentials
  get_credentials-Within r = search within_rules

module _ (e : Env) (configured : ℤ) where
  handle_check_error-Within :
      (r : ResticRepository) (creds : Credentials) (error : String)
      → Within repository_calls (handle_check_error e configured r creds error)
  unfolding handle_check_error
  handle_check_error-Within r creds error =
      search (within_rules, initialize-Within, remove_lock-Within, leave_locked-Within)

  after_check-Within :
      (r : ResticRepository) (creds : Credentials) (o : Option String)
      → Within repository_calls (after_check e configured r creds o)
  unfolding after_check
  after_check-Within r creds none = search within_rules
  after_check-Within r creds (some error) = handle_check_error-Within r creds error

  ensure_accessible-Within :
      (r : ResticRepository) (creds : Credentials)
      → Within repository_calls (ensure_accessible e configured r creds)
  unfolding ensure_accessible
  ensure_accessible-Within r creds = search (within_rules, after_check-Within)

  reconcile_with-Within :
      (r : ResticRepository) (creds : Credentials)
      → Within repository_calls (reconcile_with e configured r creds)
  unfolding reconcile_with
  reconcile_with-Within r creds =
      search (within_rules, ensure_accessible-Within, mark_ready-Within, publish_stats-Within)

  after_credentials-Within :
      (r : ResticRepository) (found : Credentialed)
      → Within repository_calls (after_credentials e configured r found)
  unfolding after_credentials
  after_credentials-Within r (refused problem) = reject-Within e r _ _
  after_credentials-Within r (accepted creds) = reconcile_with-Within r creds

  reconcile_handler-Within :
      (name : NamespacedName) → Within repository_calls (reconcile_handler e configured name)
  unfolding reconcile_handler
  reconcile_handler-Within name =
      search (within_rules, get_credentials-Within, after_credentials-Within)

  pub repository_footprint :
      (name : NamespacedName) (t : Trace)
      → Extends repository_calls t (reconcile e configured name t).1
  unfolding reconcile
  repository_footprint name t = Extends-run_handler _ t (reconcile_handler-Within name)

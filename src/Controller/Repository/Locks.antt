-- ===== src/Controller/Repository/Locks.antt =====
-- The reconciler of repositories on a repository that is locked: from the message of restic to the
-- removal of the lock, or to the report that it is left.
use restic_backup_operator.Base.{
  ℕ, ◌<◌, ◌≤◌, ◌^◌, String, ◌<>◌, true, false, none, some, ◌∷◌, ◌≡◌, inl, inr, refl, arith, ℤ,
  contains, leb,
}
use restic_backup_operator.Conditions.{not_ready_condition}
use restic_backup_operator.Restic.Types.{Credentials}
use restic_backup_operator.Api.Meta.{NamespacedName}
use restic_backup_operator.Api.Workload.{Secret}
use restic_backup_operator.Api.Repository.{ResticRepository}
use restic_backup_operator.Cluster.{
  Trace, Env, update_repository_status, restic_check, record_event, accepted, get, repositories,
  secrets, warning, requeue_after, default_requeue_interval, error_requeue_interval, run_handler,
}
use restic_backup_operator.Controller.LockAge.{codes, parse_lock_age}
use restic_backup_operator.Controller.LockAge.Age.{Age, HasDigits}
use restic_backup_operator.Controller.LockAge.Search.{opens_number}
use restic_backup_operator.Controller.LockAge.Rounds.{FractionFits, nanoseconds}
use restic_backup_operator.Controller.LockAge.RoundTrip.{lock_message, parse_lock_age-lock_message}
use restic_backup_operator.Controller.Repository.{
  get_stale_lock_threshold, set_repository_condition, after_check, handle_check_error, leave_locked,
  ensure_accessible, reconcile_with, reconcile, reconcile_handler, get_credentials,
  after_credentials, credentials_of,
}
use restic_backup_operator.Controller.Repository.Success.{
  Recoverable, unlocked, WritesAccepted, StatsFit, WroteReady, reconcile_with-Accessible,
}

-- An error by which restic reports a lock of this age: it says that the repository is locked and has
-- the age in parentheses, before which no parenthesis opens before a digit or a dot. The age has 63
-- bits as a number of nanoseconds, and so has its fraction without the dot.
pub record ReportsLock (fraction : ℕ → ℕ → ℕ → ℕ) (error : String) (a : Age) : Type 0 where
  pub before : String
  pub after : String
  pub text : error ≡ lock_message before a after
  pub locked : contains error "repository is already locked" ≡ true
  pub clear : opens_number (codes before) ≡ false
  pub digits : HasDigits a.fraction
  pub fits : FractionFits a.fraction
  pub short : nanoseconds fraction a < 2 ^ 63

reported_age :
    (fraction : ℕ → ℕ → ℕ → ℕ) (error : String) (a : Age)
    → ReportsLock fraction error a
    → parse_lock_age fraction error ≡ nanoseconds fraction a
reported_age fraction error a p =
    rw (p.text)
      (parse_lock_age-lock_message fraction p.before a p.after p.clear p.digits p.fits p.short)

younger : {a b : ℕ} → a < b → leb b a ≡ false
younger h = ground arith

-- The key of the secret that a repository refers to.
abbrev pub secret_name : ResticRepository → NamespacedName
secret_name r = record { name = r.spec.credentials_secret_ref.name; namespace = r.meta.namespace }

module _ (e : Env) (configured : ℤ) (creds : Credentials) (r : ResticRepository) (t : Trace) where
  -- Where the check fails by a lock that restic reports as at least as old as the threshold, where the
  -- lock is removed and the second check succeeds, and where the writes of the status are accepted and
  -- the sizes fit 64 bits, the reconciliation ends with a new run in an hour, and the status was
  -- written as Ready.
  reconcile_with-stale_lock :
      (error : String) (a : Age)
      → (e.check t creds).1 ≡ some error
      → ReportsLock e.fraction error a
      → get_stale_lock_threshold configured ≤ nanoseconds e.fraction a
      → e.unlock (restic_check creds ∷ t) creds ≡ none
      → (e.check (unlocked e creds (nanoseconds e.fraction a) t) creds).1 ≡ none
      → WritesAccepted e
      → StatsFit e creds
      → let ended = run_handler (reconcile_with e configured r creds) t in
        (ended.0 ≡ requeue_after default_requeue_interval) × WroteReady ended.1
  reconcile_with-stale_lock error a failed_ p old removed checked writes fit =
      reconcile_with-Accessible e configured creds r t (inr (error, failed_, inr recoverable))
        writes fit
    where
      recoverable : Recoverable e configured creds error t
      recoverable = rw (reported_age e.fraction error a p) (p.locked, old, removed, inl checked)

  -- The status that is written for a lock that is left.
  abbrev pub left_locked : ℕ → ResticRepository
  left_locked age =
      let now = e.now (restic_check creds ∷ t) in
      set_repository_condition now r (
        not_ready_condition now "RepositoryLocked" (
          "Repository is locked by another operation (lock age: "
          <> (e.duration_text age
              <> (", threshold: "
                  <> (e.duration_text (get_stale_lock_threshold configured) <> ")")))))

  -- The message of the event.
  abbrev pub left_message : ℕ → String
  left_message age =
      "Repository is locked by another operation, lock age: "
      <> (e.duration_text age
          <> (" (threshold: " <> (e.duration_text (get_stale_lock_threshold configured) <> ")")))

  reconcile_with-fresh_lock :
      (error : String) (a : Age)
      → (e.check t creds).1 ≡ some error
      → ReportsLock e.fraction error a
      → nanoseconds e.fraction a < get_stale_lock_threshold configured
      → WritesAccepted e
      → run_handler (reconcile_with e configured r creds) t ≡ (
        requeue_after error_requeue_interval,
        update_repository_status (left_locked (nanoseconds e.fraction a))
            ∷ (record_event warning "RepositoryLocked" (left_message (nanoseconds e.fraction a))
                ∷ (restic_check creds ∷ t)),
      )
  unfolding reconcile_with ensure_accessible after_check handle_check_error leave_locked
  reconcile_with-fresh_lock error a failed_ p young writes =
      rw (failed_, p.locked, reported_age e.fraction error a p, younger young, (writes _ _).1) refl

module _ (e : Env) (configured : ℤ) where
  -- Where the repository, its secret and the password in it are there, where the check fails by an
  -- error that says that the repository is locked and has the age of the lock in the first
  -- parentheses that begin with a digit or a dot, in hours, minutes and seconds, of 63 bits as a
  -- number of nanoseconds and with a fraction of 63 bits without its dot, where this age is below
  -- the threshold and the writes of the status are accepted, the reconciliation comes back in
  -- thirty seconds; it has read the repository and the secret, checked the repository, recorded a
  -- warning and written the condition RepositoryLocked with the age and the threshold, in this
  -- order and nothing else: no lock is removed.
  pub reconcile-fresh_lock :
      (name : NamespacedName) (t : Trace) (r : ResticRepository) (secret : Secret)
      (creds : Credentials) (error : String) (a : Age)
      → e.get_repository t name ≡ accepted r
      → e.get_secret (get repositories name ∷ t) (secret_name r) ≡ accepted secret
      → credentials_of r secret ≡ accepted creds
      → (e.check (get secrets (secret_name r) ∷ (get repositories name ∷ t)) creds).1 ≡ some error
      → ReportsLock e.fraction error a
      → nanoseconds e.fraction a < get_stale_lock_threshold configured
      → WritesAccepted e
      → let read = get secrets (secret_name r) ∷ (get repositories name ∷ t) in
        reconcile e configured name t ≡ (
          requeue_after error_requeue_interval,
          update_repository_status
                (left_locked e configured creds r read (nanoseconds e.fraction a))
              ∷ (record_event warning "RepositoryLocked"
                    (left_message e configured creds r read (nanoseconds e.fraction a))
                  ∷ (restic_check creds ∷ read)),
        )
  unfolding reconcile reconcile_handler get_credentials after_credentials
  reconcile-fresh_lock name t r secret creds error a there kept known failed_ p young writes =
      rw (there, kept, known)
        (reconcile_with-fresh_lock e configured creds r
          (get secrets (secret_name r) ∷ (get repositories name ∷ t)) error a failed_ p young
          writes)

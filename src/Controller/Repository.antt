-- ===== src/Controller/Repository.antt =====
-- internal/controller/resticrepository_controller.go: the reconciler of repositories. A statement
-- that returns early stops the handler.
pub mod Laws
pub mod Success
pub mod Locks
pub mod Outcomes
pub mod WithRestic
pub mod Footprint
pub mod Returns
use restic_backup_operator.Base.{
  ℕ, String, ◌<>◌, Bool, true, false, Option, none, some, List, [], ◌∷◌, ◌==◌, ℤ, is_positive,
  to_nat, to_int32, to_int64, contains, leb, if◌then◌else◌,
}
use restic_backup_operator.Conditions.{
  Condition, set_condition, ready_condition, not_ready_condition,
}
use restic_backup_operator.Restic.Types.{Credentials, RepoStats, CheckResult}
use restic_backup_operator.Restic.Executor.{Result, ok, err}
use restic_backup_operator.Api.Meta.{NamespacedName}
use restic_backup_operator.Api.Repository.{ResticRepository, RepositoryStatistics}
use restic_backup_operator.Api.Workload.{Secret}
use restic_backup_operator.Cluster.{
  Trace, Env, Handler, Exit, go, Outcome, panicked, requeue_after, Reply, accepted, refused,
  ApiError, EventType, normal, warning, get, repositories, secrets, update_repository_status,
  restic_check, restic_unlock, restic_init, restic_stats, ◌>>=◌, ◌>>◌, pure, stop_with, call, ask,
  event, or_fail, or_ignore, run_handler, continue, wrap, error_requeue_interval,
  default_requeue_interval,
}
use restic_backup_operator.Controller.Bytes.{format_bytes}
use restic_backup_operator.Controller.LockAge.{parse_lock_age}

-- `secret.Data[key]`
unfoldable pub secret_value : List (String × String) → String → Option String
secret_value [] key = none
secret_value ((k, v) ∷ entries) key = if k == key then some v else secret_value entries key

abbrev or_empty : Option String → String
or_empty none = ""
or_empty (some v) = v

-- The second half of `getCredentials`; the error is its message.
abbrev pub Credentialed : Type 0
Credentialed = Reply Credentials

abbrev missing_password : ApiError
missing_password = record {
  not_found = false;
  already_exists = false;
  message = "RESTIC_PASSWORD not found in secret";
}

unfoldable pub credentials_of : ResticRepository → Secret → Credentialed
unfolding secret_value
credentials_of repository secret = elim (secret_value secret.entries "RESTIC_PASSWORD") [
  | none ↦ refused missing_password
  | some password ↦ accepted (record {
    repository = repository.spec.repository_url;
    password = password;
    aws_access_key_id = or_empty (secret_value secret.entries "AWS_ACCESS_KEY_ID");
    aws_secret_access_key = or_empty (secret_value secret.entries "AWS_SECRET_ACCESS_KEY");
    cache_dir = "";
  })
]

-- `DefaultStaleLockThreshold`
abbrev pub default_stale_lock_threshold : ℕ
default_stale_lock_threshold = 1_800_000_000_000

unfoldable pub get_stale_lock_threshold : ℤ → ℕ
get_stale_lock_threshold configured =
    if is_positive configured then to_nat configured else default_stale_lock_threshold

abbrev pub set_repository_condition : ℕ → ResticRepository → Condition → ResticRepository
set_repository_condition now r c = record r {
  status = record r.status { conditions = set_condition now r.status.conditions c };
}

module _ (e : Env) where
  abbrev read_credentials : ResticRepository → Reply Secret → Credentialed
  read_credentials repository (refused problem) =
      refused (wrap "failed to get credentials secret: " problem)
  read_credentials repository (accepted secret) = credentials_of repository secret

  unfoldable pub get_credentials : ResticRepository → Handler Credentialed
  unfolding credentials_of
  get_credentials repository =
      let name : NamespacedName = record {
        name = repository.spec.credentials_secret_ref.name;
        namespace = repository.meta.namespace;
      } in
      do
        reply ← call (get secrets name) (λ t. e.get_secret t name)
        pure (read_credentials repository reply)

  -- `r.Status().Update(ctx, repository)`, whose error is returned.
  abbrev pub save_status : ResticRepository → Handler ResticRepository
  save_status r = do
    reply ← call (update_repository_status r) (λ t. e.put_repository_status t r)
    or_fail reply

  -- The branches that mark the repository as not ready and come back later.
  unfoldable pub reject : {A : Type 0} → ResticRepository → String → String → Handler A
  reject r reason message = do
    now ← ask e.now
    event warning reason message
    save_status (set_repository_condition now r (not_ready_condition now reason message))
    stop_with (requeue_after error_requeue_interval)

  -- What follows on the error of a call, by whether there is one.
  unfoldable pub after_init : ResticRepository → Option String → Handler (Unit {0})
  unfolding reject
  after_init r (some message) = reject r "InitializationFailed" message
  after_init r none = event normal "RepositoryInitialized" "Repository was successfully initialized"

  unfoldable pub initialize : ResticRepository → Credentials → Handler (Unit {0})
  unfolding after_init
  initialize r creds = do error ← call (restic_init creds) (λ t. e.init t creds); after_init r error

  -- The second check, after the unlock; an error leads on to the initialization.
  unfoldable pub after_recheck : ResticRepository → Credentials → Option String → Handler (Unit {0})
  unfolding initialize
  after_recheck r creds none = pure tt
  after_recheck r creds (some _) = initialize r creds

  unfoldable pub after_unlock :
      ResticRepository → Credentials → ℕ → Option String → Handler (Unit {0})
  unfolding after_recheck reject
  after_unlock r creds age (some message) = reject r "UnlockFailed" message
  after_unlock r creds age none = do
    event normal "RepositoryUnlocked"
        ("Stale lock (age: " <> (e.duration_text age <> ") was removed from repository"))
    found ← call (restic_check creds) (λ t. e.check t creds)
    after_recheck r creds found.1

  unfoldable pub remove_lock : ResticRepository → Credentials → ℕ → Handler (Unit {0})
  unfolding after_unlock
  remove_lock r creds age = do
    error ← call (restic_unlock creds) (λ t. e.unlock t creds)
    after_unlock r creds age error

  -- The lock is fresh: the condition and the event have messages of their own.
  unfoldable pub leave_locked : ResticRepository → ℕ → ℕ → Handler (Unit {0})
  leave_locked r age threshold = do
    now ← ask e.now
    event warning "RepositoryLocked" (
        "Repository is locked by another operation, lock age: "
        <> (e.duration_text age <> (" (threshold: " <> (e.duration_text threshold <> ")"))))
    save_status (
        set_repository_condition now r (
          not_ready_condition now "RepositoryLocked" (
            "Repository is locked by another operation (lock age: "
            <> (e.duration_text age <> (", threshold: " <> (e.duration_text threshold <> ")"))))))
    stop_with (requeue_after error_requeue_interval)

  unfoldable pub mark_ready : ResticRepository → Handler ResticRepository
  mark_ready r = do
    now ← ask e.now
    let ready =
        set_repository_condition now r
          (ready_condition now "RepositoryAccessible" "Repository is initialized and accessible")
    save_status (record ready {
      status = record ready.status { observed_generation = ready.meta.generation };
    })

  unfoldable pub with_statistics : ResticRepository → RepoStats → String → ResticRepository
  with_statistics r stats size = record r {
    status = record r.status {
      statistics = some (record {
        total_size = size;
        total_file_count = to_int64 stats.total_file_count;
        snapshot_count = to_int32 stats.snapshot_count;
      });
    };
  }

  unfoldable pub after_format : ResticRepository → RepoStats → Option String → Handler (Unit {0})
  unfolding with_statistics
  after_format r stats none = stop_with panicked
  after_format r stats (some size) = do save_status (with_statistics r stats size); pure tt

  -- Statistics that cannot be had are no error.
  unfoldable pub after_stats : ResticRepository → Result RepoStats → Handler (Unit {0})
  unfolding after_format
  after_stats r (err _) = pure tt
  after_stats r (ok stats) = after_format r stats (format_bytes e.one_decimal stats.total_size)

  unfoldable pub publish_stats : ResticRepository → Credentials → Handler (Unit {0})
  unfolding after_stats
  publish_stats r creds = do
    reply ← call (restic_stats creds) (λ t. e.stats t creds (record { mode = "restore-size" }))
    after_stats r reply

-- `configured` is the field `StaleLockThreshold` of the reconciler.
module _ (e : Env) (configured : ℤ) where
  unfoldable pub handle_check_error : ResticRepository → Credentials → String → Handler (Unit {0})
  unfolding initialize remove_lock leave_locked get_stale_lock_threshold
  handle_check_error r creds error =
      let age = parse_lock_age e.fraction error in
      let threshold = get_stale_lock_threshold configured in
      if contains error "repository is already locked"
      then (if leb threshold age then remove_lock e r creds age else leave_locked e r age threshold)
      else initialize e r creds

  unfoldable pub after_check : ResticRepository → Credentials → Option String → Handler (Unit {0})
  unfolding handle_check_error
  after_check r creds none = pure tt
  after_check r creds (some error) = handle_check_error r creds error

  -- From the check to the point where the repository is known to be accessible.
  unfoldable pub ensure_accessible : ResticRepository → Credentials → Handler (Unit {0})
  unfolding after_check
  ensure_accessible r creds = do
    found ← call (restic_check creds) (λ t. e.check t creds)
    after_check r creds found.1

  abbrev pub report_success : Handler Outcome
  report_success = do
    event normal "ReconcileSuccess" "Repository reconciled successfully"
    pure (requeue_after default_requeue_interval)

  -- After the credentials are there.
  unfoldable pub reconcile_with : ResticRepository → Credentials → Handler Outcome
  unfolding ensure_accessible mark_ready publish_stats
  reconcile_with r creds = do
    ensure_accessible r creds
    saved ← mark_ready e r
    publish_stats e saved creds
    report_success

  unfoldable pub after_credentials : ResticRepository → Credentialed → Handler Outcome
  unfolding reconcile_with reject
  after_credentials r (refused problem) = reject e r "CredentialsNotFound" problem.message
  after_credentials r (accepted creds) = reconcile_with r creds

  unfoldable pub reconcile_handler : NamespacedName → Handler Outcome
  unfolding get_credentials after_credentials
  reconcile_handler name = do
    reply ← call (get repositories name) (λ t. e.get_repository t name)
    repository ← or_ignore reply
    found ← get_credentials e repository
    after_credentials repository found

  unfoldable pub reconcile : NamespacedName → Trace → Outcome × Trace
  unfolding reconcile_handler
  reconcile name = run_handler (reconcile_handler name)

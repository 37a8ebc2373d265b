-- ===== src/Cluster.antt =====
-- The services that the reconcilers call (the API server through controller-runtime, the event
-- recorder, restic, the clock), as functions of what was called before, and the calls as a trace.
pub mod Logic
pub mod Calls
pub mod Outcomes
use restic_backup_operator.Base.{
  ℕ, String, Bool, true, false, Option, List, ◌∷◌, ◌<>◌, if◌then◌else◌, ℤ,
}
use restic_backup_operator.Restic.Types.{Credentials, CheckResult, RepoStats, StatsOptions}
use restic_backup_operator.Restic.Executor.{Result}
use restic_backup_operator.Api.Meta.{NamespacedName, ObjectMeta}
use restic_backup_operator.Api.Repository.{ResticRepository}
use restic_backup_operator.Api.Backup.{ResticBackup}
use restic_backup_operator.Api.Restore.{ResticRestore}
use restic_backup_operator.Api.Retention.{GlobalRetentionPolicy}
use restic_backup_operator.Api.Workload.{CronJob, Job, Secret}

-- An error of the API server: what `apierrors.IsNotFound` and `apierrors.IsAlreadyExists` say of
-- it, and its message.
pub record ApiError : Type 0 where
  pub not_found : Bool
  pub already_exists : Bool
  pub message : String

pub data Reply (A : Type 0) : Type 0 where
  accepted : A → Reply A
  refused : ApiError → Reply A

pub data Kind : Type 0 where
  repositories backups restores policies secrets cron_jobs jobs : Kind

pub data EventType : Type 0 where
  normal warning : EventType

-- What a reconciler calls, with the objects that it sends.
pub data Call : Type 0 where
  get : Kind → NamespacedName → Call
  update_backup : ResticBackup → Call
  update_restore : ResticRestore → Call
  update_policy : GlobalRetentionPolicy → Call
  update_repository_status : ResticRepository → Call
  update_backup_status : ResticBackup → Call
  update_restore_status : ResticRestore → Call
  update_policy_status : GlobalRetentionPolicy → Call
  create_cron_job : CronJob → Call
  update_cron_job : CronJob → Call
  create_job : Job → Call
  record_event : EventType → String → String → Call
  restic_check : Credentials → Call
  restic_unlock : Credentials → Call
  restic_init : Credentials → Call
  restic_stats : Credentials → Call

-- The calls so far, the latest first.
abbrev pub Trace : Type 0
Trace = List Call

-- The answers of the services. A write is answered with the object as the server holds it, which
-- the client decodes into the object that was sent. The executor of restic is the interface
-- `Executor` of internal/restic/executor.go, for the operations that a reconciler calls.
pub record Env : Type 0 where
  pub get_repository : Trace → NamespacedName → Reply ResticRepository
  pub get_backup : Trace → NamespacedName → Reply ResticBackup
  pub get_restore : Trace → NamespacedName → Reply ResticRestore
  pub get_policy : Trace → NamespacedName → Reply GlobalRetentionPolicy
  pub get_secret : Trace → NamespacedName → Reply Secret
  pub get_cron_job : Trace → NamespacedName → Reply CronJob
  pub get_job : Trace → NamespacedName → Reply Job
  pub put_backup : Trace → ResticBackup → Reply ResticBackup
  pub put_restore : Trace → ResticRestore → Reply ResticRestore
  pub put_policy : Trace → GlobalRetentionPolicy → Reply GlobalRetentionPolicy
  pub put_repository_status : Trace → ResticRepository → Reply ResticRepository
  pub put_backup_status : Trace → ResticBackup → Reply ResticBackup
  pub put_restore_status : Trace → ResticRestore → Reply ResticRestore
  pub put_policy_status : Trace → GlobalRetentionPolicy → Reply GlobalRetentionPolicy
  pub post_cron_job : Trace → CronJob → Reply CronJob
  pub put_cron_job : Trace → CronJob → Reply CronJob
  pub post_job : Trace → Job → Reply Job
  pub check : Trace → Credentials → CheckResult × Option String
  pub unlock : Trace → Credentials → Option String
  pub init : Trace → Credentials → Option String
  pub stats : Trace → Credentials → StatsOptions → Result RepoStats
  -- `time.Now()`
  pub now : Trace → ℕ
  -- `controllerutil`: the finalizers of an object, and the references that
  -- `SetControllerReference owner object` leaves on the object.
  pub contains_finalizer : List String → String → Bool
  pub add_finalizer : List String → String → List String
  pub remove_finalizer : List String → String → List String
  pub controller_reference : ObjectMeta → ObjectMeta → Reply (List (String × String))
  -- The cron library: the first time after a given one that a schedule names, if it can be parsed.
  pub next_time : String → ℕ → Option ℕ
  -- `%s` of a duration, `%.1f` of the quotient of two numbers, and the scaled fraction of
  -- `time.ParseDuration`.
  pub duration_text : ℕ → String
  pub one_decimal : ℕ → ℕ → String
  pub fraction : ℕ → ℕ → ℕ → ℕ

-- What `Reconcile` returns; a duration is in nanoseconds.
pub data Outcome : Type 0 where
  finished : Outcome
  requeue_after : ℕ → Outcome
  failed : String → Outcome
  panicked : Outcome

-- A handler stops with an outcome, or goes on with a value.
pub data Exit (A : Type 0) : Type 0 where
  stop : Outcome → Exit A
  go : A → Exit A

abbrev pub Handler : Type 0 → Type 0
Handler A = Trace → Exit A × Trace

abbrev pub continue : {A B : Type 0} → Exit A × Trace → (A → Handler B) → Exit B × Trace
continue (stop o, t) f = (stop o, t)
continue (go a, t) f = f a t

infixl 5 ◌>>=◌ ◌>>◌
abbrev pub ◌>>=◌ : {A B : Type 0} → Handler A → (A → Handler B) → Handler B
◌>>=◌ m f t = continue (m t) f

abbrev pub ◌>>◌ : {A B : Type 0} → Handler A → Handler B → Handler B
m >> k = m >>= λ _. k

abbrev pub pure : {A : Type 0} → A → Handler A
pure a t = (go a, t)

abbrev pub stop_with : {A : Type 0} → Outcome → Handler A
stop_with o t = (stop o, t)

-- A call, with its answer.
abbrev pub call : {A : Type 0} → Call → (Trace → A) → Handler A
call c answer t = (go (answer t), c ∷ t)

-- A value of the present, with no call in the trace.
abbrev pub ask : {A : Type 0} → (Trace → A) → Handler A
ask f t = (go (f t), t)

-- `Recorder.Event`
abbrev pub event : EventType → String → String → Handler (Unit {0})
event type reason message = call (record_event type reason message) (λ _. tt)

-- `if err := …; err != nil { return ctrl.Result{}, err }`
abbrev pub or_fail : {A : Type 0} → Reply A → Handler A
or_fail (accepted a) = pure a
or_fail (refused e) = stop_with (failed e.message)

-- The head of each `Reconcile`: an object that is not found is ignored.
abbrev pub or_ignore : {A : Type 0} → Reply A → Handler A
or_ignore (accepted a) = pure a
or_ignore (refused e) = stop_with (if e.not_found then finished else failed e.message)

-- A reconciler ends with an outcome.
abbrev pub outcome_of : Exit Outcome → Outcome
outcome_of (stop o) = o
outcome_of (go o) = o

abbrev pub run_handler : Handler Outcome → Trace → Outcome × Trace
run_handler m t = let (exit, t') = m t in (outcome_of exit, t')

-- `fmt.Errorf("…: %w", err)`, which keeps what the API says of the error.
abbrev pub wrap : String → ApiError → ApiError
wrap prefix e = record e { message = prefix <> e.message }

abbrev pub wrapped : {A : Type 0} → String → Reply A → Reply A
wrapped prefix (accepted a) = accepted a
wrapped prefix (refused e) = refused (wrap prefix e)

abbrev pub second : ℕ
second = 1_000_000_000

-- `errorRequeueInterval` and `defaultRequeueInterval`
abbrev pub error_requeue_interval : ℕ
error_requeue_interval = 30_000_000_000

abbrev pub default_requeue_interval : ℕ
default_requeue_interval = 3_600_000_000_000

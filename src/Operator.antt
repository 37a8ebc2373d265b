-- ===== src/Operator.antt =====
-- cmd/main.go: the process of the operator, and `SetupWithManager` of the four reconcilers. The
-- environment, the command line, `time.ParseDuration` and the manager of controller-runtime are
-- arguments.
pub mod Laws
use restic_backup_operator.Base.{
  ℕ, String, ◌<>◌, Bool, true, false, Option, none, some, List, [], ◌∷◌, ◌==◌, ℤ, pos, non_empty,
  not, if◌then◌else◌,
}
use restic_backup_operator.Cluster.{
  Kind, repositories, backups, restores, policies, cron_jobs, jobs,
}

-- What `flag.Parse` found on the command line; the zero flags are left at their defaults.
pub record CommandLine : Type 0 where
  pub metrics_bind_address : Option String
  pub health_probe_bind_address : Option String
  pub leader_elect : Option Bool
  pub metrics_secure : Option Bool
  pub enable_http2 : Option Bool
  pub stale_lock_threshold : Option ℤ

abbrev pub given_or {ℓ} : {A : Type ℓ} → Option A → A → A
given_or none default = default
given_or (some a) default = a

-- The default of the flag; `env` is the value of STALE_LOCK_THRESHOLD, which is empty where the
-- variable is not set.
unfoldable pub default_threshold : (String → Option ℤ) → String → ℤ
default_threshold parse_duration env =
    if non_empty env
    then given_or (parse_duration env) (pos 1_800_000_000_000)
    else pos 1_800_000_000_000

unfoldable pub stale_lock_threshold : (String → Option ℤ) → String → CommandLine → ℤ
unfolding default_threshold
stale_lock_threshold parse_duration env line =
    given_or line.stale_lock_threshold (default_threshold parse_duration env)

-- `tls.Config`, with the field that the program sets.
pub record TlsConfig : Type 0 where
  pub next_protos : List String

abbrev pub disable_http2 : TlsConfig → TlsConfig
disable_http2 c = record c { next_protos = "http/1.1" ∷ [] }

unfoldable pub tls_opts : Bool → List (TlsConfig → TlsConfig)
tls_opts enable_http2 = if not enable_http2 then disable_http2 ∷ [] else []

-- `ctrl.Options`
pub record ManagerOptions : Type 0 where
  pub bind_address : String
  pub secure_serving : Bool
  pub tls_opts : List (TlsConfig → TlsConfig)
  pub health_probe_bind_address : String
  pub leader_election : Bool
  pub leader_election_id : String

unfoldable pub manager_options : CommandLine → ManagerOptions
unfolding tls_opts
manager_options line = record {
  bind_address = given_or line.metrics_bind_address "0";
  secure_serving = given_or line.metrics_secure true;
  tls_opts = tls_opts (given_or line.enable_http2 false);
  health_probe_bind_address = given_or line.health_probe_bind_address ":8081";
  leader_election = given_or line.leader_elect false;
  leader_election_id = "restic-backup-operator.backup.resticbackup.io";
}

-- What `SetupWithManager` of a reconciler registers: the kind that it reconciles, and the kind whose
-- changes are led back to the owner.
pub record Watches : Type 0 where
  pub reconciled : Kind
  pub owned : Option Kind

abbrev pub repository_watches : Watches
repository_watches = record { reconciled = repositories; owned = none }

abbrev pub backup_watches : Watches
backup_watches = record { reconciled = backups; owned = some cron_jobs }

abbrev pub restore_watches : Watches
restore_watches = record { reconciled = restores; owned = some jobs }

abbrev pub policy_watches : Watches
policy_watches = record { reconciled = policies; owned = some cron_jobs }

-- A reconciler as `main` sets it up: the name of its recorder, and the threshold of the reconciler of
-- repositories.
pub record Reconciler : Type 0 where
  pub recorder : String
  pub threshold : Option ℤ
  pub watches : Watches

unfoldable pub repository_controller : ℤ → Reconciler
repository_controller threshold = record {
  recorder = "resticrepository-controller";
  threshold = some threshold;
  watches = repository_watches;
}

abbrev pub backup_controller : Reconciler
backup_controller = record {
  recorder = "resticbackup-controller";
  threshold = none;
  watches = backup_watches;
}

abbrev pub restore_controller : Reconciler
restore_controller = record {
  recorder = "resticrestore-controller";
  threshold = none;
  watches = restore_watches;
}

abbrev pub policy_controller : Reconciler
policy_controller = record {
  recorder = "globalretentionpolicy-controller";
  threshold = none;
  watches = policy_watches;
}

-- What `main` asks of controller-runtime.
pub data Action : Type 0 where
  new_manager : ManagerOptions → Action
  set_up_with_manager : Reconciler → Action
  add_healthz_check add_readyz_check : String → Action
  start : Action

-- The end of the process: the function returns, or `os.Exit` after a line of the log.
pub data Exit : Type 0 where
  returned : Exit
  exited : ℕ → String → Exit

-- The actions so far, the first one first, and the end.
abbrev pub Run : Type 0
Run = Exit × List Action

-- `if err := …; err != nil { setupLog.Error(err, message); os.Exit(1) }` before the rest of the run.
abbrev pub after_answer : Option String → Action → String → Run → Run
after_answer (some problem) action message rest = (exited 1 message, action ∷ [])
after_answer none action message rest = (rest.0, action ∷ rest.1)

unfoldable pub attempt : (Action → Option String) → Action → String → Run → Run
attempt refuses action message rest = after_answer (refuses action) action message rest

module _ (refuses : Action → Option String) where
  abbrev set_up : Reconciler → Run → Run
  set_up controller = attempt refuses (set_up_with_manager controller) "unable to create controller"

  unfoldable pub main : (String → Option ℤ) → String → CommandLine → Run
  unfolding attempt manager_options stale_lock_threshold repository_controller
  main parse_duration env line =
      attempt refuses (new_manager (manager_options line)) "unable to start manager" (
        set_up (repository_controller (stale_lock_threshold parse_duration env line)) (
          set_up backup_controller (
            set_up restore_controller (
              set_up policy_controller (
                attempt refuses (add_healthz_check "healthz") "unable to set up health check" (
                  attempt refuses (add_readyz_check "readyz") "unable to set up ready check"
                    (attempt refuses start "problem running manager" (returned, []))))))))

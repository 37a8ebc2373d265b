-- ===== src/Controller/Scheduling/Returns.antt =====
-- The write of a cron job never stops a reconciler: its error is a value.
use restic_backup_operator.Base.{String, List}
use restic_backup_operator.Api.Shared.{ObjectReference}
use restic_backup_operator.Api.Workload.{CronJob}
use restic_backup_operator.Cluster.{Env, Reply, accepted, refused}
use restic_backup_operator.Cluster.Outcomes.{Anything, Guarantees, outcome_rules}
use restic_backup_operator.Controller.Scheduling.{
  after_create, after_update, after_lookup, after_owner,
}

module _ (e : Env) {A : Type 0} (referring : A → ObjectReference → A) where
  after_create-Guarantees :
      (owner : A) (job : CronJob) (reply : Reply CronJob)
      → Guarantees Anything (after_create e referring owner job reply)
  unfolding after_create
  after_create-Guarantees owner job (refused problem) = search outcome_rules
  after_create-Guarantees owner job (accepted created) = search outcome_rules

  after_update-Guarantees :
      (owner : A) (job : CronJob) (reply : Reply CronJob)
      → Guarantees Anything (after_update e referring owner job reply)
  unfolding after_update
  after_update-Guarantees owner job (refused problem) = search outcome_rules
  after_update-Guarantees owner job (accepted updated) = search outcome_rules

  after_lookup-Guarantees :
      (owner : A) (job : CronJob) (reply : Reply CronJob)
      → Guarantees Anything (after_lookup e referring owner job reply)
  unfolding after_lookup
  after_lookup-Guarantees owner job (refused problem) =
      search (outcome_rules, after_create-Guarantees)
  after_lookup-Guarantees owner job (accepted existing) =
      search (outcome_rules, after_update-Guarantees)

  pub after_owner-Guarantees :
      (owner : A) (job : CronJob) (reply : Reply (List (String × String)))
      → Guarantees Anything (after_owner e referring owner job reply)
  unfolding after_owner
  after_owner-Guarantees owner job (refused problem) = search outcome_rules
  after_owner-Guarantees owner job (accepted owners) =
      search (outcome_rules, after_lookup-Guarantees)

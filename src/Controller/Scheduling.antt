-- ===== src/Controller/Scheduling.antt =====
-- `reconcileCronJob` after `buildCronJob`, which the reconcilers of backups and of retention
-- policies write alike: `A` is the owner, and `referring` the assignment to its
-- `Status.CronJobRef`.
pub mod Laws
pub mod Footprint
pub mod Returns
use restic_backup_operator.Base.{String, ◌<>◌, Bool, true, false, List, if◌then◌else◌}
use restic_backup_operator.Api.Meta.{NamespacedName}
use restic_backup_operator.Api.Shared.{ObjectReference}
use restic_backup_operator.Api.Workload.{CronJob}
use restic_backup_operator.Cluster.{
  Env, Handler, Reply, accepted, refused, normal, get, cron_jobs, create_cron_job, update_cron_job,
  ◌>>=◌, ◌>>◌, pure, call, event, wrap,
}

module _ (e : Env) {A : Type 0} (referring : A → ObjectReference → A) where
  unfoldable pub after_create : A → CronJob → Reply CronJob → Handler (Reply A)
  after_create owner job (refused problem) =
      pure (refused (wrap "failed to create CronJob: " problem))
  after_create owner job (accepted created) = do
    event normal "CronJobCreated" ("Created CronJob " <> created.meta.name)
    pure (accepted owner)

  unfoldable pub after_update : A → CronJob → Reply CronJob → Handler (Reply A)
  after_update owner job (refused problem) =
      pure (refused (wrap "failed to update CronJob: " problem))
  after_update owner job (accepted updated) =
      pure (
        accepted
          (referring owner (record { name = job.meta.name; namespace = job.meta.namespace })))

  unfoldable pub after_lookup : A → CronJob → Reply CronJob → Handler (Reply A)
  unfolding after_create after_update
  after_lookup owner job (refused problem) =
      if problem.not_found
      then (call (create_cron_job job) (λ t. e.post_cron_job t job) >>= λ reply.
          after_create owner job reply)
      else pure (refused (wrap "failed to get CronJob: " problem))
  after_lookup owner job (accepted existing) =
      let updated = record existing { spec = job.spec } in
      do
        reply ← call (update_cron_job updated) (λ t. e.put_cron_job t updated)
        after_update owner job reply

  unfoldable pub after_owner : A → CronJob → Reply (List (String × String)) → Handler (Reply A)
  unfolding after_lookup
  after_owner owner job (refused problem) =
      pure (refused (wrap "failed to set owner reference: " problem))
  after_owner owner job (accepted owners) =
      let owned = record job { meta = record job.meta { owner_references = owners } } in
      let name : NamespacedName = record { name = job.meta.name; namespace = job.meta.namespace } in
      do
        reply ← call (get cron_jobs name) (λ t. e.get_cron_job t name)
        after_lookup owner owned reply

-- ===== src/Controller/Backup/Creation.antt =====
-- The first reconciliation of a backup whose repository is ready: the calls where they succeed.
use restic_backup_operator.Base.{
  ℕ, String, ◌<>◌, true, Option, none, some, List, [], ◌∷◌, ◌≡◌, refl,
}
use restic_backup_operator.Conditions.{is_condition_true}
use restic_backup_operator.Conditions.Laws.{ready_write}
use restic_backup_operator.Api.Repository.{ResticRepository}
use restic_backup_operator.Api.Backup.{ResticBackup}
use restic_backup_operator.Api.Workload.{CronJob}
use restic_backup_operator.Cluster.{
  Trace, Env, ApiError, accepted, refused, requeue_after, get, cron_jobs, create_cron_job,
  update_backup_status, record_event, normal, run_handler,
}
use restic_backup_operator.Controller.Scheduling.{after_owner, after_lookup, after_create}
use restic_backup_operator.Controller.Backup.Job.{build_backup_cron_job}
use restic_backup_operator.Controller.Backup.{
  schedule_backup, reconcile_cron_job, after_cron_job, configured_backup, with_next_backup,
  repository_ready,
}

-- Neither the condition nor the time of the next backup touches the reference.
pub configured_backup-cron_job_ref :
    (e : Env) (b : ResticBackup) (now : ℕ)
    → (configured_backup e b now).status.cron_job_ref ≡ b.status.cron_job_ref
unfolding configured_backup with_next_backup
configured_backup-cron_job_ref e b now = by_time (e.next_time b.spec.schedule now)
  where
    by_time :
        (next : Option ℕ) → (with_next_backup e b next).status.cron_job_ref ≡ b.status.cron_job_ref
    by_time none = unfold with_next_backup in refl
    by_time (some n) = unfold with_next_backup in refl

pub configured_backup-is_ready :
    (e : Env) (b : ResticBackup) (now : ℕ)
    → is_condition_true (configured_backup e b now).status.conditions "Ready" ≡ true
unfolding configured_backup
configured_backup-is_ready e b now =
    ready_write now now _ "BackupConfigured" "Backup CronJob is configured and running"

module _ (e : Env) (b : ResticBackup) (repository : ResticRepository) (t : Trace) where
  -- The cron job that is sent, with the owner.
  abbrev pub sent : List (String × String) → CronJob
  sent owners =
      let job = build_backup_cron_job b repository in
      record job { meta = record job.meta { owner_references = owners } }

  abbrev pub looked_up : Trace
  looked_up =
      get cron_jobs (record { name = "resticbackup-" <> b.meta.name; namespace = b.meta.namespace })
      ∷ t

  -- Where the cron job is not found, its creation and the status are accepted, the reconciliation
  -- comes back in five minutes; it has looked for the cron job, created the one that is built for
  -- the backup and the repository, and written a status that is Ready, whose reference to the cron
  -- job is still the one that the backup had before.
  pub schedule_backup-creates :
      (owners : List (String × String)) (created : CronJob) (missing : ApiError)
      → e.controller_reference b.meta (sent []).meta ≡ accepted owners
      → e.get_cron_job t
          (record { name = "resticbackup-" <> b.meta.name; namespace = b.meta.namespace })
        ≡ refused missing
      → missing.not_found ≡ true
      → e.post_cron_job looked_up (sent owners) ≡ accepted created
      → ((t' : Trace) (s : ResticBackup)
          → (a : ResticBackup) × (e.put_backup_status t' s ≡ accepted a))
      → (s : ResticBackup) × (is_condition_true s.status.conditions "Ready" ≡ true)
        × (s.status.cron_job_ref ≡ b.status.cron_job_ref)
        × (run_handler (schedule_backup e b repository) t ≡ (
          requeue_after 300_000_000_000,
          record_event normal "ReconcileSuccess" "Backup reconciled successfully"
              ∷ (update_backup_status s
                  ∷ (record_event normal "CronJobCreated" ("Created CronJob " <> created.meta.name)
                      ∷ (create_cron_job (sent owners) ∷ looked_up))),
        ))
  unfolding schedule_backup reconcile_cron_job after_owner after_lookup after_create after_cron_job
      build_backup_cron_job
  schedule_backup-creates owners created missing ho hl hm hc writes =
      let (a, saved) = writes before started in
      (
        started,
        configured_backup-is_ready e _ _,
        configured_backup-cron_job_ref e _ _,
        rw (ho, hl, hm, hc, saved) refl,
      )
    where
      before : Trace
      before =
          record_event normal "CronJobCreated" ("Created CronJob " <> created.meta.name)
          ∷ (create_cron_job (sent owners) ∷ looked_up)

      started : ResticBackup
      started = configured_backup e (repository_ready e (e.now t) b) (e.now before)

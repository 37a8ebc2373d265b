-- ===== src/Interleaving/BackupTurn/Writes.antt =====
-- A reconciliation of the backup on a server that keeps what is written, where the repository is
-- Ready.
use restic_backup_operator.Base.{
  String, ◌<>◌, false, Option, none, some, List, [], ◌∷◌, ◌≡◌, refl, sym, ap, subst, ℤ, Bool-cases,
  inl, inr, eq_refl,
}
use restic_backup_operator.Api.Meta.{is_deleted}
use restic_backup_operator.Api.Repository.{ResticRepository, ResticRepositoryStatus}
use restic_backup_operator.Api.Backup.{ResticBackup, ResticBackupStatus}
use restic_backup_operator.Api.Workload.{CronJob}
use restic_backup_operator.Cluster.{
  Trace, Env, Outcome, get, repositories, backups, cron_jobs, ◌>>=◌,
}
use restic_backup_operator.Cluster.Logic.{Meets, goes, Meets-continue, Meets-run_handler}
use restic_backup_operator.Controller.Restore.{resolve}
use restic_backup_operator.Controller.Scheduling.{
  after_owner, after_lookup, after_create, after_update,
}
use restic_backup_operator.Controller.Backup.Job.{build_backup_cron_job}
use restic_backup_operator.Controller.Backup.Creation.{
  configured_backup-is_ready, configured_backup-cron_job_ref,
}
use restic_backup_operator.Controller.Backup.{
  backup_finalizer, repository_ready, schedule_backup, reconcile_cron_job, after_cron_job,
  get_repository, after_repository, ensure_finalizer, reconcile_live, reconcile_handler, reconcile,
}
use restic_backup_operator.Interleaving.{
  key_of, repository_status, backup_finalizers, backup_status, cron_job_key, is_its_cron_job,
  cron_job_of,
}
use restic_backup_operator.Interleaving.Server.{Serves}
use restic_backup_operator.Interleaving.RepositoryTurn.{IsReady}
use restic_backup_operator.Interleaving.BackupTurn.{
  version, written, Leaves, Held, cron_job_of-is_its_cron_job,
}

module _ (e : Env) (configured : ℤ) (repository : ResticRepository) (backup : ResticBackup)
    (s : Serves e configured repository backup) where
  abbrev Ends : Option CronJob → ResticBackupStatus → Outcome → Trace → Type 0
  Ends before status o t = Leaves repository backup e before status t

  abbrev marked : List String → ResticBackupStatus → Trace → ResticBackup
  marked finalizers status t =
      repository_ready e (e.now t) (version repository backup finalizers status)

  -- The cron job that is sent, with its owners.
  abbrev sent :
      List String
      → ResticBackupStatus
      → ResticRepositoryStatus
      → Trace
      → List (String × String)
      → CronJob
  sent finalizers status found t owners =
      let job =
        build_backup_cron_job (marked finalizers status t) (record repository { status = found }) in
      record job { meta = record job.meta { owner_references = owners } }

  schedule_backup-creates :
      (finalizers : List String) (status : ResticBackupStatus) (found : ResticRepositoryStatus)
      (t : Trace)
      → cron_job_of backup t ≡ none
      → Meets (Ends none status) (Ends none status) (
          schedule_backup e
            (version repository backup finalizers status)
            (record repository { status = found })
            t)
  unfolding schedule_backup reconcile_cron_job after_owner after_lookup after_create after_cron_job
      build_backup_cron_job backup_status cron_job_of is_its_cron_job
  schedule_backup-creates finalizers status found t none_yet =
      let (owners, ho) =
        s.on_owner (marked finalizers status t).meta (sent finalizers status found t []).meta in
      let (created, hc) =
        s.on_create (get cron_jobs (cron_job_key backup) ∷ t)
          (sent finalizers status found t owners) in
      rw (ho, s.on_get_cron_job t, none_yet, s.is_absent, hc, s.on_put_backup_status _ _)
        (goes (record {
          scheduled = record {
            job = sent finalizers status found t owners;
            kept =
                rw (eq_refl ("resticbackup-" <> backup.meta.name), eq_refl backup.meta.namespace)
                  refl;
            built = refl;
            ready = configured_backup-is_ready e _ _;
          };
          follows = tt;
          finalizers = finalizers;
          marked_at = _;
          written_at = _;
          wrote = refl;
        }))

  schedule_backup-updates :
      (finalizers : List String) (status : ResticBackupStatus) (found : ResticRepositoryStatus)
      (t : Trace) (existing : CronJob)
      → cron_job_of backup t ≡ some existing
      → Meets (Ends (some existing) status) (Ends (some existing) status) (
          schedule_backup e
            (version repository backup finalizers status)
            (record repository { status = found })
            t)
  unfolding schedule_backup reconcile_cron_job after_owner after_lookup after_update after_cron_job
      build_backup_cron_job backup_status cron_job_of is_its_cron_job
  schedule_backup-updates finalizers status found t existing there =
      let (owners, ho) =
        s.on_owner (marked finalizers status t).meta (sent finalizers status found t []).meta in
      let updated = record existing { spec = (sent finalizers status found t owners).spec } in
      let (written, hu) = s.on_update (get cron_jobs (cron_job_key backup) ∷ t) updated in
      rw (ho, s.on_get_cron_job t, there, hu, s.on_put_backup_status _ _)
        (goes (record {
          scheduled = record {
            job = updated;
            kept = rw (cron_job_of-is_its_cron_job backup t existing there) refl;
            built = refl;
            ready = configured_backup-is_ready e _ _;
          };
          follows = configured_backup-cron_job_ref e _ _;
          finalizers = finalizers;
          marked_at = _;
          written_at = _;
          wrote = refl;
        }))

  schedule_backup-Ends :
      (before : Option CronJob) (finalizers : List String) (status : ResticBackupStatus)
      (found : ResticRepositoryStatus) (t : Trace)
      → cron_job_of backup t ≡ before
      → Meets (Ends before status) (Ends before status) (
          schedule_backup e
            (version repository backup finalizers status)
            (record repository { status = found })
            t)
  schedule_backup-Ends none finalizers status found t there =
      schedule_backup-creates finalizers status found t there
  schedule_backup-Ends (some existing) finalizers status found t there =
      schedule_backup-updates finalizers status found t existing there

  ensure_finalizer-Held :
      (before : Option CronJob) (finalizers : List String) (status : ResticBackupStatus) (t : Trace)
      → IsReady repository t
      → cron_job_of backup t ≡ before
      → backup_status backup t ≡ status
      → Meets
          (Ends before status)
          (Held repository backup before status)
          (ensure_finalizer e (version repository backup finalizers status) t)
  unfolding ensure_finalizer repository_status cron_job_of
  ensure_finalizer-Held before finalizers status t ready there now_ =
      elim (Bool-cases (e.contains_finalizer finalizers backup_finalizer)) [
        | inl held ↦
            rw held
              (goes (record { finalizers = finalizers; same = refl; ready = ready; there = there }))
        | inr bare ↦
            rw (bare, s.on_put_backup _ _)
              (goes (record {
                finalizers = e.add_finalizer finalizers backup_finalizer;
                same =
                    ap (version repository backup (e.add_finalizer finalizers backup_finalizer))
                      now_;
                ready = ready;
                there = there;
              }))
      ]

  after_repository-Ends :
      (before : Option CronJob) (status : ResticBackupStatus) (b : ResticBackup) (t : Trace)
      → resolve backup.spec.repository_ref backup.meta.namespace ≡ key_of repository.meta
      → Held repository backup before status b t
      → Meets
          (Ends before status)
          (Ends before status)
          ((get_repository e b >>= after_repository e b) t)
  unfolding get_repository after_repository cron_job_of
  after_repository-Ends before status b t refers k =
      subst
        (λ c.
          Meets (Ends before status) (Ends before status)
            ((get_repository e c >>= after_repository e c) t))
        (sym k.same)
        (rw (refers, s.on_get_repository t, k.ready)
          (schedule_backup-Ends before k.finalizers status (repository_status repository t)
            (get repositories (key_of repository.meta) ∷ t) k.there))

  whole :
      (t : Trace)
      → resolve backup.spec.repository_ref backup.meta.namespace ≡ key_of repository.meta
      → is_deleted backup.meta ≡ false
      → IsReady repository t
      → Meets
          (Ends (cron_job_of backup t) (backup_status backup t))
          (Ends (cron_job_of backup t) (backup_status backup t))
          (reconcile_handler e (key_of backup.meta) t)
  unfolding reconcile_handler reconcile_live cron_job_of repository_status backup_status
  whole t refers live ready =
      rw (s.on_get_backup t, live)
        (Meets-continue {P = Held repository backup (cron_job_of backup t) (backup_status backup t)}
          {f = λ held. get_repository e held >>= after_repository e held}
          (ensure_finalizer-Held (cron_job_of backup t) (backup_finalizers backup t)
            (backup_status backup t) (get backups (key_of backup.meta) ∷ t) ready refl refl)
          (λ b t' k. after_repository-Ends _ _ b t' refers k))

  -- Where the repository is Ready, a reconciliation of a backup that refers to it and is not deleted
  -- leaves it scheduled, with the status that is written; that names the cron job if it was there before.
  pub backup_turn-Leaves :
      (t : Trace)
      → resolve backup.spec.repository_ref backup.meta.namespace ≡ key_of repository.meta
      → is_deleted backup.meta ≡ false
      → IsReady repository t
      → Leaves repository backup e
          (cron_job_of backup t)
          (backup_status backup t)
          (reconcile e (key_of backup.meta) t).1
  unfolding reconcile
  backup_turn-Leaves t refers live ready =
      Meets-run_handler {R = Ends (cron_job_of backup t) (backup_status backup t)}
        (reconcile_handler e (key_of backup.meta)) t (whole t refers live ready)

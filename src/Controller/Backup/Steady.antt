-- ===== src/Controller/Backup/Steady.antt =====
-- A second write of the status of a backup that is scheduled.
use restic_backup_operator.Base.{ℕ, Option, none, some, List, ◌≡◌, refl, sym, subst, ap, ◌∙◌, ℤ}
use restic_backup_operator.Conditions.{
  Condition, set_condition, get_condition, condition_true, ready_condition,
}
use restic_backup_operator.Conditions.Laws.{
  get_condition-set_condition, transition_time, set_condition-stays,
}
use restic_backup_operator.Api.Shared.{ObjectReference, condition_repository_ready}
use restic_backup_operator.Api.Backup.{ResticBackup, ResticBackupStatus}
use restic_backup_operator.Cluster.{Env}
use restic_backup_operator.Controller.Backup.{
  referring, repository_ready, configured_backup, with_next_backup, calculate_next_backup,
}

-- The two conditions of a backup that is scheduled, but for their times.
abbrev pub repository_condition : Condition
repository_condition = record {
  type = condition_repository_ready;
  status = condition_true;
  last_transition_time = 0;
  reason = "RepositoryAccessible";
  message = "Referenced repository is ready";
}

abbrev pub configured_condition : Condition
configured_condition = record {
  type = "Ready";
  status = condition_true;
  last_transition_time = 0;
  reason = "BackupConfigured";
  message = "Backup CronJob is configured and running";
}

-- The status tells that the backup of this generation is scheduled.
pub record IsMarked (generation : ℤ) (status : ResticBackupStatus) : Type 0 where
  pub repository_since : ℕ
  pub ready_since : ℕ
  pub repository :
      get_condition status.conditions condition_repository_ready
      ≡ some (record repository_condition { last_transition_time = repository_since })
  pub ready :
      get_condition status.conditions "Ready"
      ≡ some (record configured_condition { last_transition_time = ready_since })
  pub observed : status.observed_generation ≡ generation

-- The time of the next backup, where the schedule names one.
abbrev pub next_or : Option ℕ → Option ℕ → Option ℕ
next_or none old = old
next_or (some next) old = some next

module _ (e : Env) (b : ResticBackup) where
  -- What `configured_backup` writes.
  abbrev configured_status : ℕ → ResticBackupStatus
  configured_status now = record b.status {
    conditions = set_condition now b.status.conditions configured_condition;
    next_backup = next_or (e.next_time b.spec.schedule now) b.status.next_backup;
    observed_generation = b.meta.generation;
  }

  configured_status_lem : (now : ℕ) → (configured_backup e b now).status ≡ configured_status now
  unfolding configured_backup calculate_next_backup
  configured_status_lem now = by_time (e.next_time b.spec.schedule now)
    where
      by_time :
          (o : Option ℕ)
          → record (with_next_backup e b o).status {
            conditions =
                set_condition now (with_next_backup e b o).status.conditions (
                  ready_condition now "BackupConfigured"
                    "Backup CronJob is configured and running");
            observed_generation = (with_next_backup e b o).meta.generation;
          }
            ≡ record b.status {
              conditions = set_condition now b.status.conditions configured_condition;
              next_backup = next_or o b.status.next_backup;
              observed_generation = b.meta.generation;
            }
      by_time none = unfold with_next_backup ready_condition set_condition in refl
      by_time (some next) = unfold with_next_backup ready_condition set_condition in refl

  -- The first write of both conditions, with a reference or without.
  pub configured_backup-IsMarked :
      (before : List Condition) (marked_at now : ℕ)
      → b.status.conditions ≡ set_condition marked_at before repository_condition
      → IsMarked b.meta.generation (configured_backup e b now).status
  configured_backup-IsMarked before marked_at now conditions =
      subst (IsMarked b.meta.generation) (sym (configured_status_lem now)) (record {
        repository_since =
            transition_time marked_at (get_condition before condition_repository_ready)
              condition_true;
        ready_since =
            transition_time now (get_condition b.status.conditions "Ready") condition_true;
        repository =
            rw
              (
                get_condition-set_condition now b.status.conditions configured_condition
                    condition_repository_ready,
                conditions,
                get_condition-set_condition marked_at before repository_condition
                    condition_repository_ready,
              )
              refl;
        ready =
            rw (get_condition-set_condition now b.status.conditions configured_condition "Ready")
              refl;
        observed = refl;
      })

  repository_ready-stays :
      (now : ℕ) → IsMarked b.meta.generation b.status → repository_ready e now b ≡ b
  repository_ready-stays now m =
      ap (λ cs. record b { status = record b.status { conditions = cs } })
        (set_condition-stays now b.status.conditions repository_condition m.repository_since
          m.repository)

  -- A second write of a status that names the cron job moves the time of the next backup only.
  pub configured_backup-steady :
      (marked_at now : ℕ) (ref : ObjectReference)
      → IsMarked b.meta.generation b.status
      → b.status.cron_job_ref ≡ some ref
      → (configured_backup e (referring (repository_ready e marked_at b) ref) now).status
        ≡ record b.status {
          next_backup = next_or (e.next_time b.spec.schedule now) b.status.next_backup;
        }
  configured_backup-steady marked_at now ref m named =
      ap (λ x. (configured_backup e x now).status) found_again
      ∙ (configured_status_lem now ∙ (same_conditions ∙ same_generation))
    where
      next : Option ℕ
      next = next_or (e.next_time b.spec.schedule now) b.status.next_backup

      found_again : referring (repository_ready e marked_at b) ref ≡ b
      found_again =
          ap (λ x. referring x ref) (repository_ready-stays marked_at m)
          ∙ ap (λ o. record b { status = record b.status { cron_job_ref = o } }) (sym named)

      same_conditions :
          configured_status now
          ≡ record b.status { next_backup = next; observed_generation = b.meta.generation }
      same_conditions =
          ap
            (λ cs. record b.status {
              conditions = cs;
              next_backup = next;
              observed_generation = b.meta.generation;
            })
            (set_condition-stays now b.status.conditions configured_condition m.ready_since m.ready)

      same_generation :
          record b.status { next_backup = next; observed_generation = b.meta.generation }
          ≡ record b.status { next_backup = next }
      same_generation =
          ap (λ g. record b.status { next_backup = next; observed_generation = g }) (sym m.observed)

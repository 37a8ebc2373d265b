-- ===== src/Interleaving/Frames.antt =====
-- What a turn leaves as it is: the objects that its reconciler never writes.
use text.Mathlib.Text.{starts_with}
use text.Mathlib.TextEquality.{starts_with_iff}
use text.Mathlib.TextLemmas.{cons-append}
use Prim.Native.Char.{code}
use restic_backup_operator.Base.{
  ℕ, String, ◌<>◌, Bool, true, false, Option, List, ◌∷◌, ◌==◌, ◌≡◌, refl, sym, ap, ◌∙◌, arith,
  eq_iff, ℤ, Bool-cases, inl, inr,
}
use restic_backup_operator.Api.Meta.{NamespacedName}
use restic_backup_operator.Api.Repository.{ResticRepository}
use restic_backup_operator.Api.Backup.{ResticBackup, ResticBackupStatus}
use restic_backup_operator.Api.Workload.{CronJob}
use restic_backup_operator.Cluster.{
  Trace, Env, Call, update_repository_status, update_backup, update_backup_status, create_cron_job,
  update_cron_job,
}
use restic_backup_operator.Cluster.Calls.{Extends, Extends-induction}
use restic_backup_operator.Controller.Repository.Footprint.{repository_calls, repository_footprint}
use restic_backup_operator.Controller.Backup.Footprint.{backup_calls, backup_footprint}
use restic_backup_operator.Controller.Restore.Footprint.{restore_calls, restore_footprint}
use restic_backup_operator.Controller.Retention.Footprint.{policy_calls, policy_footprint}
use restic_backup_operator.Controller.Scheduling.Footprint.{NamesKept}
use restic_backup_operator.Controller.Repository
use restic_backup_operator.Controller.Backup
use restic_backup_operator.Controller.Restore
use restic_backup_operator.Controller.Retention
use restic_backup_operator.Interleaving.{
  repository_status, backup_finalizers, backup_status, is_its_cron_job, cron_job_of,
}

head_code : String → ℕ
head_code String.[] = 0
head_code (String.◌∷◌ c s) = code c

other_letter : (x y : String) → "globalretention-" <> x ≡ "resticbackup-" <> y → ⊥
unfolding head_code
other_letter x y h = absurd (omega (arith, codes_agree))
  where
    codes_agree : ◌≡◌ {A = ℕ} b'g' b'r'
    codes_agree =
        sym (ap head_code (cons-append "g" "lobalretention-" x))
        ∙ (ap head_code h ∙ ap head_code (cons-append "r" "esticbackup-" y))

-- A cron job of a retention policy is not the one of a backup.
policy_job-foreign :
    (backup : ResticBackup) (job : CronJob)
    → starts_with job.meta.name "globalretention-" ≡ true
    → is_its_cron_job backup job ≡ false
unfolding is_its_cron_job
policy_job-foreign backup job h =
    elim (Bool-cases (job.meta.name == ("resticbackup-" <> backup.meta.name))) [
      | inl same ↦
          let (rest, starts) = (starts_with_iff job.meta.name "globalretention-").0 h in
          absurd (
            other_letter rest backup.meta.name
              (starts ∙ (eq_iff job.meta.name ("resticbackup-" <> backup.meta.name)).0 same))
      | inr other ↦ rw other refl
    ]

-- What the server keeps of the backup.
abbrev pub BackupState : Type 0
BackupState = List String × ResticBackupStatus × Option CronJob

module _ (backup : ResticBackup) where
  abbrev pub backup_state : Trace → BackupState
  backup_state t = (backup_finalizers backup t, backup_status backup t, cron_job_of backup t)

  repository_call-backup_state :
      (c : Call) (t : Trace) → repository_calls c ≡ true → backup_state (c ∷ t) ≡ backup_state t
  unfolding backup_finalizers backup_status cron_job_of
  repository_call-backup_state (update_backup b) t h = cc
  repository_call-backup_state (update_backup_status b) t h = cc
  repository_call-backup_state (create_cron_job job) t h = cc
  repository_call-backup_state (update_cron_job job) t h = cc
  repository_call-backup_state _ t h = refl

  restore_call-backup_state :
      (c : Call) (t : Trace) → restore_calls c ≡ true → backup_state (c ∷ t) ≡ backup_state t
  unfolding backup_finalizers backup_status cron_job_of
  restore_call-backup_state (update_backup b) t h = cc
  restore_call-backup_state (update_backup_status b) t h = cc
  restore_call-backup_state (create_cron_job job) t h = cc
  restore_call-backup_state (update_cron_job job) t h = cc
  restore_call-backup_state _ t h = refl

  policy_call-backup_state :
      (c : Call) (t : Trace) → policy_calls c ≡ true → backup_state (c ∷ t) ≡ backup_state t
  unfolding backup_finalizers backup_status cron_job_of
  policy_call-backup_state (update_backup b) t h = cc
  policy_call-backup_state (update_backup_status b) t h = cc
  policy_call-backup_state (create_cron_job job) t h = rw (policy_job-foreign backup job h) refl
  policy_call-backup_state (update_cron_job job) t h = rw (policy_job-foreign backup job h) refl
  policy_call-backup_state _ t h = refl

  -- Calls that keep the state one by one keep it together.
  keeps_backup_state :
      {allowed : Call → Bool} {t t' : Trace}
      → ((c : Call) (t : Trace) → allowed c ≡ true → backup_state (c ∷ t) ≡ backup_state t)
      → Extends allowed t t'
      → backup_state t' ≡ backup_state t
  keeps_backup_state {t} step extends =
      Extends-induction (λ u. backup_state u ≡ backup_state t) (λ c u ok same. step c u ok ∙ same)
        extends refl

  -- Where the server answers the lookup of a cron job with one of that name, and whatever else is
  -- answered, a reconciliation of a repository, of a restore or of a retention policy leaves what the
  -- server keeps of a backup: its finalizers, its status and its cron job.
  pub others-backup_state :
      (e : Env) (configured : ℤ) (name : NamespacedName) (t : Trace)
      → NamesKept e
      → (backup_state (Repository.reconcile e configured name t).1 ≡ backup_state t)
        × (backup_state (Restore.reconcile e name t).1 ≡ backup_state t)
        × (backup_state (Retention.reconcile e name t).1 ≡ backup_state t)
  others-backup_state e configured name t kept = (
    keeps_backup_state repository_call-backup_state (repository_footprint e configured name t),
    keeps_backup_state restore_call-backup_state (restore_footprint e name t),
    keeps_backup_state policy_call-backup_state (policy_footprint e kept name t),
  )

module _ (repository : ResticRepository) where
  backup_call-status :
      (c : Call) (t : Trace)
      → backup_calls c ≡ true
      → repository_status repository (c ∷ t) ≡ repository_status repository t
  unfolding repository_status
  backup_call-status (update_repository_status r) t h = cc
  backup_call-status _ t h = refl

  restore_call-status :
      (c : Call) (t : Trace)
      → restore_calls c ≡ true
      → repository_status repository (c ∷ t) ≡ repository_status repository t
  unfolding repository_status
  restore_call-status (update_repository_status r) t h = cc
  restore_call-status _ t h = refl

  policy_call-status :
      (c : Call) (t : Trace)
      → policy_calls c ≡ true
      → repository_status repository (c ∷ t) ≡ repository_status repository t
  unfolding repository_status
  policy_call-status (update_repository_status r) t h = cc
  policy_call-status _ t h = refl

  keeps_status :
      {allowed : Call → Bool} {t t' : Trace}
      → ((c : Call) (t : Trace)
          → allowed c ≡ true
          → repository_status repository (c ∷ t) ≡ repository_status repository t)
      → Extends allowed t t'
      → repository_status repository t' ≡ repository_status repository t
  keeps_status {t} step extends =
      Extends-induction (λ u. repository_status repository u ≡ repository_status repository t)
        (λ c u ok same. step c u ok ∙ same) extends refl

  -- Where the server answers the lookup of a cron job with one of that name, a reconciliation of a
  -- backup, of a restore or of a retention policy leaves the status of a repository.
  pub others-repository_status :
      (e : Env) (name : NamespacedName) (t : Trace)
      → NamesKept e
      → (repository_status repository (Backup.reconcile e name t).1
          ≡ repository_status repository t)
        × (repository_status repository (Restore.reconcile e name t).1
            ≡ repository_status repository t)
        × (repository_status repository (Retention.reconcile e name t).1
            ≡ repository_status repository t)
  others-repository_status e name t kept = (
    keeps_status backup_call-status (backup_footprint e kept name t),
    keeps_status restore_call-status (restore_footprint e name t),
    keeps_status policy_call-status (policy_footprint e kept name t),
  )

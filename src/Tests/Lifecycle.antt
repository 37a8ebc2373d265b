-- ===== src/Tests/Lifecycle.antt =====
-- One restore on a server that keeps the phase that was written last.
use restic_backup_operator.Base.{◌≤◌, [], ◌∷◌, ◌≡◌, refl, sym, ◌∙◌, ap}
use restic_backup_operator.Api.Restore.{ResticRestore, RestorePhase, unset, failed}
use restic_backup_operator.Api.Meta.{NamespacedName}
use restic_backup_operator.Cluster.{Trace, Env, Reply, accepted, refused, update_restore_status}
use restic_backup_operator.Controller.Repository
use restic_backup_operator.Controller.Backup
use restic_backup_operator.Controller.Retention
use restic_backup_operator.Controller.Restore
use restic_backup_operator.Controller.Restore.{reconcile}
use restic_backup_operator.Controller.Restore.Lifecycle
use restic_backup_operator.Controller.Restore.Lifecycle.{
  Reaches, IsFaithful, stored, status_writes, reconcile_times,
}
use restic_backup_operator.Tests.Samples.{restore}
use restic_backup_operator.Tests.Services.{services}

abbrev last_phase : RestorePhase → Trace → RestorePhase
last_phase start [] = start
last_phase start (update_restore_status r ∷ t) = r.status.phase
last_phase start (_ ∷ t) = last_phase start t

abbrev with_phase : RestorePhase → ResticRestore → ResticRestore
with_phase p r = record r { status = record r.status { phase = p } }

abbrev keeper : RestorePhase → Env
keeper start = record services {
  get_restore = λ t _. accepted (with_phase (last_phase start t) restore);
  put_restore = λ t r. accepted (with_phase (last_phase start t) r);
}

stored-keeper :
    (start : RestorePhase) (t : Trace) → last_phase start t ≡ stored (keeper start) start t
unfolding stored
stored-keeper start [] = refl
stored-keeper start (update_restore_status r ∷ t) = refl
stored-keeper start (_ ∷ t) = stored-keeper start t

phase_of : Reply ResticRestore → RestorePhase
phase_of (accepted r) = r.status.phase
phase_of (refused problem) = unset

keeper-IsFaithful : (start : RestorePhase) → IsFaithful (keeper start) start
unfolding phase_of
keeper-IsFaithful start = record {
  on_get = λ t name r h. sym (ap phase_of h) ∙ stored-keeper start t;
  on_put = λ t r r' h. sym (ap phase_of h) ∙ stored-keeper start t;
  on_put_status = λ t r r' h. sym (ap phase_of h);
}

abbrev mine : NamespacedName
mine = record { name = "r"; namespace = "default" }

reconcile_times-Reaches_example :
    Reaches unset (stored (keeper unset) unset (reconcile_times (keeper unset) unset 2 mine))
reconcile_times-Reaches_example =
    Lifecycle.reconcile_times-Reaches (keeper unset) unset 2 mine (keeper-IsFaithful unset)

status_writes-bounded_example :
    status_writes (keeper unset) unset (reconcile_times (keeper unset) unset 5 mine) ≤ 3
status_writes-bounded_example =
    Lifecycle.status_writes-bounded (keeper unset) unset 5 mine (keeper-IsFaithful unset)

-- The job is never found: the restore is failed at the second reconciliation.
two_runs : stored (keeper unset) unset (reconcile_times (keeper unset) unset 2 mine) ≡ failed
unfolding stored reconcile_times reconcile
two_runs = refl

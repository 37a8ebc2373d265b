-- ===== src/Controller/Returns.antt =====
-- No reconciler loses an object that it still has to look after: `SetupWithManager` makes the
-- manager watch the object and what it owns, so that for all else, as a repository that becomes
-- Ready, it is the outcome that brings the reconciler back.
use restic_backup_operator.Controller.Repository
use restic_backup_operator.Controller.Backup
use restic_backup_operator.Controller.Restore
use restic_backup_operator.Controller.Retention

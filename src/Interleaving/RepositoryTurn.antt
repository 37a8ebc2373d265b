-- ===== src/Interleaving/RepositoryTurn.antt =====
-- A reconciliation of the repository on a server that keeps what is written.
use restic_backup_operator.Base.{String, ◌<◌, ◌^◌, true, some, ◌∷◌, ◌≡◌, refl, ℤ}
use restic_backup_operator.Conditions.{set_condition, ready_condition, is_condition_true}
use restic_backup_operator.Conditions.Laws.{ready_write}
use restic_backup_operator.Restic.Types.{Credentials, RepoStats}
use restic_backup_operator.Restic.Executor.{Result, ok, err}
use restic_backup_operator.Api.Repository.{ResticRepository}
use restic_backup_operator.Api.Backup.{ResticBackup}
use restic_backup_operator.Api.Workload.{Secret}
use restic_backup_operator.Cluster.{
  Trace, Env, Handler, Outcome, get, repositories, restic_stats, ◌>>=◌, ◌>>◌,
}
use restic_backup_operator.Cluster.Logic.{Meets, goes, Meets-continue, Meets-run_handler}
use restic_backup_operator.Controller.Repository.{
  secret_value, credentials_of, get_credentials, mark_ready, with_statistics, after_format,
  after_stats, publish_stats, report_success, reconcile_with, after_credentials, reconcile_handler,
  reconcile,
}
use restic_backup_operator.Controller.Repository.Laws.{is_ready}
use restic_backup_operator.Controller.Repository.Success.{
  Anything, ensure_accessible-goes, formatted,
}
use restic_backup_operator.Interleaving.{key_of, repository_status, held_repository}
use restic_backup_operator.Interleaving.Server.{Serves}

module _ (repository : ResticRepository) where
  -- The repository that the server keeps is Ready.
  abbrev pub IsReady : Trace → Type 0
  IsReady t = is_ready (held_repository repository t) ≡ true

  abbrev Ends : Outcome → Trace → Type 0
  Ends o t = IsReady t

  -- So is the one in hand.
  abbrev Saved : ResticRepository → Trace → Type 0
  Saved r t = (is_ready r ≡ true) × IsReady t

  abbrev Kept : Unit {0} → Trace → Type 0
  Kept a t = IsReady t

module _ (e : Env) (configured : ℤ) (repository : ResticRepository) (backup : ResticBackup)
    (s : Serves e configured repository backup) where
  mark_ready-Saved :
      (r : ResticRepository) (t : Trace)
      → Meets (Ends repository) (Saved repository) (mark_ready e r t)
  unfolding mark_ready repository_status
  mark_ready-Saved r t = rw (s.on_put_repository_status _ _) (goes (written, written))
    where
      written :
          is_condition_true
            (set_condition (e.now t) r.status.conditions (
              ready_condition
                (e.now t)
                "RepositoryAccessible"
                "Repository is initialized and accessible"))
            "Ready"
          ≡ true
      written =
          ready_write (e.now t) (e.now t) r.status.conditions "RepositoryAccessible"
            "Repository is initialized and accessible"

  after_stats-Kept :
      (r : ResticRepository) (reply : Result RepoStats) (t : Trace)
      → ((found : RepoStats) → reply ≡ ok found → found.total_size < 2 ^ 64)
      → Saved repository r t
      → Meets (Ends repository) (Kept repository) (after_stats e r reply t)
  unfolding after_stats after_format with_statistics repository_status
  after_stats-Kept r (err message) t fit w = goes w.1
  after_stats-Kept r (ok found) t fit w =
      let (size, text) = formatted e.one_decimal found.total_size (fit found refl) in
      rw (text, s.on_put_repository_status _ _) (goes w.0)

  reconcile_with-Kept :
      (r : ResticRepository) (creds : Credentials) (t : Trace)
      → Meets (Ends repository) (Ends repository) (reconcile_with e configured r creds t)
  unfolding reconcile_with publish_stats repository_status
  reconcile_with-Kept r creds t =
      Meets-continue {P = Anything} {f = λ _. mark_ready e r >>= finish}
        (ensure_accessible-goes e configured creds r t (s.on_restic t creds))
        λ _ t1 _. Meets-continue {f = finish} (mark_ready-Saved r t1) λ saved t2 w.
          Meets-continue {P = Kept repository} {f = λ _. report_success e configured}
            (after_stats-Kept saved (e.stats t2 creds _) (restic_stats creds ∷ t2)
              (s.on_sizes creds t2 _) w)
            (λ _ t3 w3. goes w3)
    where
      finish : ResticRepository → Handler Outcome
      finish saved = publish_stats e saved creds >> report_success e configured

  found-Kept :
      (r : ResticRepository) (secret : Secret) (password : String) (t : Trace)
      → secret_value secret.entries "RESTIC_PASSWORD" ≡ some password
      → Meets
          (Ends repository)
          (Ends repository)
          (after_credentials e configured r (credentials_of r secret) t)
  unfolding after_credentials credentials_of
  found-Kept r secret password t h = rw (h, after_credentials) (reconcile_with-Kept _ _ _)

  whole :
      (t : Trace)
      → Meets
          (Ends repository)
          (Ends repository)
          (reconcile_handler e configured (key_of repository.meta) t)
  unfolding reconcile_handler get_credentials after_credentials repository_status
  whole t =
      let (secret, password, read, found) =
        s.on_secret (get repositories (key_of repository.meta) ∷ t) (record {
          name = repository.spec.credentials_secret_ref.name;
          namespace = repository.meta.namespace;
        }) in
      rw (s.on_get_repository t, read) (found-Kept _ secret password _ found)

  -- After a reconciliation of the repository the server keeps it as Ready, whatever was there before.
  pub repository_turn-IsReady :
      (t : Trace) → IsReady repository (reconcile e configured (key_of repository.meta) t).1
  unfolding reconcile
  repository_turn-IsReady t =
      Meets-run_handler {R = Ends repository}
        (reconcile_handler e configured (key_of repository.meta)) t (whole t)

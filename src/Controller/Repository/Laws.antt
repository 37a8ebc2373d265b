-- ===== src/Controller/Repository/Laws.antt =====
-- What the reconciler of repositories promises, for every answer of the services that it calls.
use restic_backup_operator.Base.{
  ℕ, ◌≤◌, String, Bool, true, false, Option, none, some, [], ◌∷◌, ◌≡◌, ◌⊎◌, inl, inr, refl, arith,
  ℤ, contains, leb, Bool-cases, if◌then◌else◌,
}
use restic_backup_operator.Conditions.{is_condition_true}
use restic_backup_operator.Conditions.Laws.{not_ready_write}
use restic_backup_operator.Restic.Types.{Credentials, RepoStats}
use restic_backup_operator.Restic.Executor.{Result, ok, err}
use restic_backup_operator.Api.Meta.{NamespacedName}
use restic_backup_operator.Api.Repository.{ResticRepository}
use restic_backup_operator.Cluster.{
  Trace, Env, Call, Handler, Outcome, update_repository_status, restic_check, restic_unlock,
  restic_init, restic_stats, get, repositories, record_event, warning, requeue_after,
  error_requeue_interval, stop_with, pure, ◌>>=◌, ◌>>◌, accepted, refused,
}
use restic_backup_operator.Cluster.Logic.{
  Meets, stopped, goes, Meets-continue, Meets-or_fail, Meets-or_ignore, Meets-run_handler,
}
use restic_backup_operator.Controller.LockAge.{parse_lock_age}
use restic_backup_operator.Controller.Repository.{
  Credentialed, after_init, after_recheck, after_unlock, after_check, after_stats, after_format,
  after_credentials, get_stale_lock_threshold, reject, initialize, save_status, report_success,
  remove_lock, leave_locked, ensure_accessible, mark_ready, publish_stats, reconcile_with,
  reconcile_handler, get_credentials, reconcile,
}

abbrev pub is_ready : ResticRepository → Bool
is_ready r = is_condition_true r.status.conditions "Ready"

module _ (e : Env) where
  -- A check or an initialization that succeeded.
  abbrev Succeeds : Call → Trace → Type 0
  Succeeds (restic_check creds) t = (e.check t creds).1 ≡ none
  Succeeds (restic_init creds) t = e.init t creds ≡ none
  Succeeds _ t = ⊥

  abbrev pub Accessed : Trace → Type 0
  Accessed [] = ⊥
  Accessed (c ∷ t) = Succeeds c t ⊎ Accessed t

module _ (e : Env) (configured : ℤ) where
  -- The last call was a check that named a lock as old as the threshold or older.
  abbrev pub FoundStaleLock : Trace → Type 0
  FoundStaleLock (restic_check creds ∷ t) =
      (error : String) × ((e.check t creds).1 ≡ some error)
      × (contains error "repository is already locked" ≡ true)
      × (get_stale_lock_threshold configured ≤ parse_lock_age e.fraction error)
  FoundStaleLock _ = ⊥

  abbrev Justified : Call → Trace → Type 0
  Justified (update_repository_status r) t = is_ready r ≡ true → Accessed e t
  Justified (restic_unlock creds) t = FoundStaleLock t
  Justified _ t = Unit

  -- Each call of the trace is justified by the calls before it.
  abbrev pub AllJustified : Trace → Type 0
  AllJustified [] = Unit
  AllJustified (c ∷ t) = Justified c t × AllJustified t

  abbrev Ends : Outcome → Trace → Type 0
  Ends o t = AllJustified t

  abbrev Reaches : {A : Type 0} → A → Trace → Type 0
  Reaches a t = Accessed e t × AllJustified t

  -- A write of the status that is not Ready, and one after the repository was accessed.
  save-Meets :
      (r : ResticRepository) (t : Trace)
      → (is_ready r ≡ true → Accessed e t)
      → AllJustified t
      → Meets Ends
          (λ _ t'. (t' ≡ update_repository_status r ∷ t) × AllJustified t')
          (save_status e r t)
  save-Meets r t backed j =
      Meets-or_fail (e.put_repository_status t r) (update_repository_status r ∷ t)
        (λ o. (backed, j)) (λ a _. (refl, (backed, j)))

  reject-Meets :
      {A : Type 0} {Q : A → Trace → Type 0} (r : ResticRepository) (reason message : String)
      (t : Trace)
      → AllJustified t
      → Meets Ends Q (reject e r reason message t)
  unfolding reject
  reject-Meets r reason message t j =
      Meets-continue {f = λ _. stop_with (requeue_after error_requeue_interval)}
        (save-Meets _ (record_event warning reason message ∷ t)
          (λ h. cc (not_ready_write (e.now t) (e.now t) r.status.conditions reason message))
          (tt, j))
        (λ a t' q. stopped q.1)

  after_init-Meets :
      (r : ResticRepository) (creds : Credentials) (o : Option String) (t : Trace)
      → e.init t creds ≡ o
      → AllJustified t
      → Meets Ends Reaches (after_init e r o (restic_init creds ∷ t))
  unfolding after_init
  after_init-Meets r creds (some m) t h j = reject-Meets r "InitializationFailed" m _ (tt, j)
  after_init-Meets r creds none t h j = goes (inr (inl h), (tt, (tt, j)))

  initialize-Meets :
      (r : ResticRepository) (creds : Credentials) (t : Trace)
      → AllJustified t
      → Meets Ends Reaches (initialize e r creds t)
  unfolding initialize
  initialize-Meets r creds t j = after_init-Meets r creds (e.init t creds) t refl j

  after_recheck-Meets :
      (r : ResticRepository) (creds : Credentials) (o : Option String) (t : Trace)
      → (e.check t creds).1 ≡ o
      → AllJustified t
      → Meets Ends Reaches (after_recheck e r creds o (restic_check creds ∷ t))
  unfolding after_recheck
  after_recheck-Meets r creds none t h j = goes (inl h, (tt, j))
  after_recheck-Meets r creds (some m) t h j = initialize-Meets r creds _ (tt, j)

  after_unlock-Meets :
      (r : ResticRepository) (creds : Credentials) (age : ℕ) (o : Option String) (t : Trace)
      → AllJustified t
      → Meets Ends Reaches (after_unlock e r creds age o t)
  unfolding after_unlock
  after_unlock-Meets r creds age (some m) t j = reject-Meets r "UnlockFailed" m t j
  after_unlock-Meets r creds age none t j = after_recheck-Meets r creds _ _ refl (tt, j)

  leave_locked-Meets :
      (r : ResticRepository) (age threshold : ℕ) (t : Trace)
      → AllJustified t
      → Meets Ends Reaches (leave_locked e r age threshold t)
  unfolding leave_locked
  leave_locked-Meets r age threshold t j =
      Meets-continue {f = λ _. stop_with (requeue_after error_requeue_interval)}
        (save-Meets _ (_ ∷ t)
          (λ h. cc (not_ready_write (e.now t) (e.now t) r.status.conditions "RepositoryLocked" _))
          (tt, j))
        (λ a t' q. stopped q.1)

  locked-Meets :
      (stale : Bool) (r : ResticRepository) (creds : Credentials) (age threshold : ℕ) (t : Trace)
      → (stale ≡ true → FoundStaleLock t)
      → AllJustified t
      → Meets Ends Reaches
          ((if stale then remove_lock e r creds age else leave_locked e r age threshold) t)
  unfolding remove_lock
  locked-Meets true r creds age threshold t found j =
      after_unlock-Meets r creds age _ (restic_unlock creds ∷ t) (found refl, j)
  locked-Meets false r creds age threshold t found j = leave_locked-Meets r age threshold t j

  after_check-Meets :
      (r : ResticRepository) (creds : Credentials) (o : Option String) (t : Trace)
      → (e.check t creds).1 ≡ o
      → AllJustified t
      → Meets Ends Reaches (after_check e configured r creds o (restic_check creds ∷ t))
  unfolding after_check
  after_check-Meets r creds none t h j = goes (inl h, (tt, j))
  after_check-Meets r creds (some error) t h j =
      elim (Bool-cases (contains error "repository is already locked")) [
        | inr other ↦ rw other (initialize-Meets r creds _ (tt, j))
        | inl locked ↦ rw locked (
            locked-Meets (leb threshold age) r creds age threshold _
              (λ old. (error, h, locked, ground arith)) (tt, j))
      ]
    where
      age : ℕ
      age = parse_lock_age e.fraction error

      threshold : ℕ
      threshold = get_stale_lock_threshold configured

  ensure_accessible-Meets :
      (r : ResticRepository) (creds : Credentials) (t : Trace)
      → AllJustified t
      → Meets Ends Reaches (ensure_accessible e configured r creds t)
  unfolding ensure_accessible
  ensure_accessible-Meets r creds t j = after_check-Meets r creds (e.check t creds).1 t refl j

  mark_ready-Meets :
      (r : ResticRepository) (t : Trace)
      → Accessed e t
      → AllJustified t
      → Meets Ends Reaches (mark_ready e r t)
  unfolding mark_ready
  mark_ready-Meets r t a j =
      Meets-or_fail _ _ (λ o. ((λ _. a), j)) (λ saved _. (inr a, ((λ _. a), j)))

  after_format-Meets :
      (r : ResticRepository) (stats : RepoStats) (o : Option String) (t : Trace)
      → Accessed e t
      → AllJustified t
      → Meets Ends Reaches (after_format e r stats o t)
  unfolding after_format
  after_format-Meets r stats none t a j = stopped j
  after_format-Meets r stats (some size) t a j =
      Meets-continue {P = Reaches} {f = λ _. pure tt}
        (Meets-or_fail _ (_ ∷ t) (λ o. ((λ _. a), j)) (λ saved _. (inr a, ((λ _. a), j))))
        (λ saved t' q. goes q)

  after_stats-Meets :
      (r : ResticRepository) (o : Result RepoStats) (t : Trace)
      → Accessed e t
      → AllJustified t
      → Meets Ends Reaches (after_stats e r o t)
  unfolding after_stats
  after_stats-Meets r (err m) t a j = goes (a, j)
  after_stats-Meets r (ok stats) t a j = after_format-Meets r stats _ t a j

  reconcile_with-Meets :
      (r : ResticRepository) (creds : Credentials) (t : Trace)
      → AllJustified t
      → Meets Ends Ends (reconcile_with e configured r creds t)
  unfolding reconcile_with publish_stats
  reconcile_with-Meets r creds t j =
      Meets-continue {f = λ _. mark_ready e r >>= finish} (ensure_accessible-Meets r creds t j)
        λ _ t1 (a1, j1).
          Meets-continue {f = finish} (mark_ready-Meets r t1 a1 j1) λ saved t2 (a2, j2).
            Meets-continue {f = λ _. report_success e configured}
              (after_stats-Meets saved (e.stats t2 creds _) (restic_stats creds ∷ t2) (inr a2)
                (tt, j2))
              λ _ t3 (a3, j3). goes (tt, j3)
    where
      finish : ResticRepository → Handler Outcome
      finish saved = publish_stats e saved creds >> report_success e configured

  after_credentials-Meets :
      (r : ResticRepository) (found : Credentialed) (t : Trace)
      → AllJustified t
      → Meets Ends Ends (after_credentials e configured r found t)
  unfolding after_credentials
  after_credentials-Meets r (refused problem) t j =
      reject-Meets r "CredentialsNotFound" problem.message t j
  after_credentials-Meets r (accepted creds) t j = reconcile_with-Meets r creds t j

  -- Whatever the services answer, a reconciliation writes a repository's status as Ready only after
  -- a check or an initialization of this run has succeeded, and it removes a lock only directly
  -- after a check that failed with a lock at least as old as the threshold.
  pub reconcile-AllJustified :
      (name : NamespacedName) (t : Trace)
      → AllJustified t
      → AllJustified (reconcile e configured name t).1
  unfolding reconcile
  reconcile-AllJustified name t j =
      Meets-run_handler {R = Ends} (reconcile_handler e configured name) t whole
    where
      whole : Meets Ends Ends (reconcile_handler e configured name t)
      whole =
          Meets-continue {P = λ _ t'. AllJustified t'}
            {f = λ r. get_credentials e r >>= after_credentials e configured r}
            (Meets-or_ignore (e.get_repository t name) (get repositories name ∷ t) (λ o. (tt, j))
              (λ r _. (tt, j)))
            λ r t' j'. after_credentials-Meets r _ (_ ∷ t') (tt, j')

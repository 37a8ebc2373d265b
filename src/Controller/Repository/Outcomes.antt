-- ===== src/Controller/Repository/Outcomes.antt =====
-- What the outcome of a reconciliation tells of the repository, whatever the services answer.
use restic_backup_operator.Base.{
  ℕ, ◌^◌, ◌≤◌, arith, ltb, String, Bool, true, false, Option, none, some, [], ◌∷◌, ◌≡◌, ◌⊎◌, inl,
  inr, refl, ℤ, contains, leb, Bool-cases, if◌then◌else◌,
}
use restic_backup_operator.Conditions.Laws.{not_ready_write, ready_write}
use restic_backup_operator.Restic.Types.{Credentials, RepoStats}
use restic_backup_operator.Restic.Executor.{Result, ok, err}
use restic_backup_operator.Api.Meta.{NamespacedName}
use restic_backup_operator.Api.Repository.{ResticRepository}
use restic_backup_operator.Cluster.{
  Trace, Env, ApiError, Handler, Outcome, finished, failed, panicked, requeue_after, Reply,
  accepted, refused, update_repository_status, restic_check, restic_init, restic_stats, get,
  repositories, error_requeue_interval, default_requeue_interval, stop_with, pure, or_fail,
  or_ignore, continue, ◌>>=◌, ◌>>◌,
}
use restic_backup_operator.Cluster.Logic.{Meets, stopped, goes, Meets-continue, Meets-run_handler}
use restic_backup_operator.Controller.Repository.{
  Credentialed, after_init, after_recheck, after_unlock, after_check, after_stats, after_format,
  after_credentials, reject, initialize, report_success, remove_lock, leave_locked,
  ensure_accessible, mark_ready, publish_stats, reconcile_with, reconcile_handler, get_credentials,
  reconcile,
}
use restic_backup_operator.Controller.Repository.Laws.{is_ready}
use restic_backup_operator.Controller.Repository.Success.{WroteReady, formatted}
use restic_backup_operator.Controller.Bytes.{format_bytes}

-- The last status that was written is not Ready.
abbrev pub LastNotReady : Trace → Type 0
LastNotReady [] = ⊥
LastNotReady (update_repository_status r ∷ t) = is_ready r ≡ false
LastNotReady (_ ∷ t) = LastNotReady t

module _ (e : Env) where
  -- The last call looked for the repository and did not find it.
  abbrev pub WasMissing : Trace → Type 0
  WasMissing (get repositories name ∷ t) =
      (problem : ApiError) × (e.get_repository t name ≡ refused problem)
      × (problem.not_found ≡ true)
  WasMissing _ = ⊥

  -- The last call was the read of the repository, or the write of its status, and was refused.
  abbrev pub WasRefused : String → Trace → Type 0
  WasRefused message (get repositories name ∷ t) =
      (problem : ApiError) × (e.get_repository t name ≡ refused problem)
      × (problem.not_found ≡ false)
      × (problem.message ≡ message)
  WasRefused message (update_repository_status r ∷ t) =
      (problem : ApiError) × (e.put_repository_status t r ≡ refused problem)
      × (problem.message ≡ message)
  WasRefused message _ = ⊥

  -- The last call told a size that has more than 64 bits.
  abbrev pub WasTooLarge : Trace → Type 0
  WasTooLarge (restic_stats creds ∷ t) =
      (s : RepoStats) × (e.stats t creds (record { mode = "restore-size" }) ≡ ok s)
      × (2 ^ 64 ≤ s.total_size)
  WasTooLarge _ = ⊥

  abbrev pub Tells : Outcome → Trace → Type 0
  Tells (requeue_after d) t =
      ((d ≡ error_requeue_interval) × LastNotReady t)
      ⊎ ((d ≡ default_requeue_interval) × WroteReady t)
  Tells finished t = WasMissing t
  Tells (failed message) t = WasRefused message t
  Tells panicked t = WasTooLarge t

  abbrev Anything : {A : Type 0} → A → Trace → Type 0
  Anything a t = Unit {0}

  abbrev Ready : {A : Type 0} → A → Trace → Type 0
  Ready a t = WroteReady t

  -- A write that is not Ready before the short interval.
  not_ready-Tells :
      {A : Type 0} {Q : A → Trace → Type 0} (reply : Reply ResticRepository) (r : ResticRepository)
      (t : Trace)
      → e.put_repository_status t r ≡ reply
      → is_ready r ≡ false
      → Meets Tells Q (
          continue
            (or_fail reply (update_repository_status r ∷ t))
            (λ _. stop_with (requeue_after error_requeue_interval)))
  not_ready-Tells (accepted a) r t _ h = stopped (inl (refl, h))
  not_ready-Tells (refused problem) r t answered h = stopped (problem, answered, refl)

  reject-Tells :
      {A : Type 0} {Q : A → Trace → Type 0} (r : ResticRepository) (reason message : String)
      (t : Trace)
      → Meets Tells Q (reject e r reason message t)
  unfolding reject
  reject-Tells r reason message t =
      not_ready-Tells _ _ _ refl
        (not_ready_write (e.now t) (e.now t) r.status.conditions reason message)

  initialize-Tells :
      (r : ResticRepository) (creds : Credentials) (t : Trace)
      → Meets Tells Anything (initialize e r creds t)
  unfolding initialize
  initialize-Tells r creds t = by_answer (e.init t creds)
    where
      by_answer :
          (o : Option String) → Meets Tells Anything (after_init e r o (restic_init creds ∷ t))
      by_answer none = unfold after_init in goes tt
      by_answer (some m) = unfold after_init in reject-Tells r "InitializationFailed" m _

  after_recheck-Tells :
      (r : ResticRepository) (creds : Credentials) (o : Option String) (t : Trace)
      → Meets Tells Anything (after_recheck e r creds o t)
  unfolding after_recheck
  after_recheck-Tells r creds none t = goes tt
  after_recheck-Tells r creds (some m) t = initialize-Tells r creds t

  after_unlock-Tells :
      (r : ResticRepository) (creds : Credentials) (age : ℕ) (o : Option String) (t : Trace)
      → Meets Tells Anything (after_unlock e r creds age o t)
  unfolding after_unlock
  after_unlock-Tells r creds age (some m) t = reject-Tells r "UnlockFailed" m t
  after_unlock-Tells r creds age none t = after_recheck-Tells r creds _ _

  leave_locked-Tells :
      (r : ResticRepository) (age threshold : ℕ) (t : Trace)
      → Meets Tells Anything (leave_locked e r age threshold t)
  unfolding leave_locked
  leave_locked-Tells r age threshold t =
      not_ready-Tells _ _ _ refl
        (not_ready_write (e.now t) (e.now t) r.status.conditions "RepositoryLocked" _)

  locked-Tells :
      (stale : Bool) (r : ResticRepository) (creds : Credentials) (age threshold : ℕ) (t : Trace)
      → Meets Tells Anything
          ((if stale then remove_lock e r creds age else leave_locked e r age threshold) t)
  unfolding remove_lock
  locked-Tells true r creds age threshold t = after_unlock-Tells r creds age _ _
  locked-Tells false r creds age threshold t = leave_locked-Tells r age threshold t

  -- The write of a Ready status.
  mark_ready-Tells : (r : ResticRepository) (t : Trace) → Meets Tells Ready (mark_ready e r t)
  unfolding mark_ready
  mark_ready-Tells r t = at_reply _ _ _ refl (
      ready_write (e.now t) (e.now t) r.status.conditions "RepositoryAccessible"
        "Repository is initialized and accessible")
    where
      at_reply :
          (reply : Reply ResticRepository) (r : ResticRepository) (t : Trace)
          → e.put_repository_status t r ≡ reply
          → is_ready r ≡ true
          → Meets Tells Ready (or_fail reply (update_repository_status r ∷ t))
      at_reply (accepted a) r t _ h = goes (inl h)
      at_reply (refused problem) r t answered h = stopped (problem, answered, refl)

  too_large : (bytes : ℕ) → format_bytes e.one_decimal bytes ≡ none → 2 ^ 64 ≤ bytes
  too_large bytes h = elim (Bool-cases (ltb bytes (2 ^ 64))) [
    | inr large ↦ ground arith
    | inl small ↦ let (size, found) = formatted e.one_decimal bytes (ground arith) in cc
  ]

  after_format-Tells :
      (r : ResticRepository) (stats : RepoStats) (o : Option String) (creds : Credentials)
      (t : Trace)
      → e.stats t creds (record { mode = "restore-size" }) ≡ ok stats
      → format_bytes e.one_decimal stats.total_size ≡ o
      → WroteReady t
      → Meets Tells Ready (after_format e r stats o (restic_stats creds ∷ t))
  unfolding after_format
  after_format-Tells r stats none creds t told unprinted w =
      stopped (stats, told, too_large stats.total_size unprinted)
  after_format-Tells r stats (some size) creds t told _ w =
      Meets-continue {P = Ready} {f = λ _. pure tt} (at_reply _ _ _ refl w) (λ _ _ w'. goes w')
    where
      at_reply :
          (reply : Reply ResticRepository) (r : ResticRepository) (t : Trace)
          → e.put_repository_status t r ≡ reply
          → WroteReady t
          → Meets Tells Ready (or_fail reply (update_repository_status r ∷ t))
      at_reply (accepted a) r t _ w = goes (inr w)
      at_reply (refused problem) r t answered w = stopped (problem, answered, refl)

  after_stats-Tells :
      (r : ResticRepository) (o : Result RepoStats) (creds : Credentials) (t : Trace)
      → e.stats t creds (record { mode = "restore-size" }) ≡ o
      → WroteReady t
      → Meets Tells Ready (after_stats e r o (restic_stats creds ∷ t))
  unfolding after_stats
  after_stats-Tells r (err m) creds t _ w = goes w
  after_stats-Tells r (ok stats) creds t told w = after_format-Tells r stats _ creds t told refl w

module _ (e : Env) (configured : ℤ) where
  after_check-Tells :
      (r : ResticRepository) (creds : Credentials) (o : Option String) (t : Trace)
      → Meets (Tells e) (Anything e) (after_check e configured r creds o t)
  unfolding after_check
  after_check-Tells r creds none t = goes tt
  after_check-Tells r creds (some error) t =
      elim (Bool-cases (contains error "repository is already locked")) [
        | inr other ↦ rw other (initialize-Tells e r creds t)
        | inl locked ↦ rw locked (locked-Tells e (leb _ _) r creds _ _ t)
      ]

  reconcile_with-Tells :
      (r : ResticRepository) (creds : Credentials) (t : Trace)
      → Meets (Tells e) (Tells e) (reconcile_with e configured r creds t)
  unfolding reconcile_with ensure_accessible publish_stats
  reconcile_with-Tells r creds t =
      Meets-continue {P = Anything e} {f = λ _. mark_ready e r >>= finish}
        (after_check-Tells r creds (e.check t creds).1 (restic_check creds ∷ t))
        λ _ t1 _. Meets-continue {f = finish} (mark_ready-Tells e r t1) λ saved t2 w2.
          Meets-continue {f = λ _. report_success e configured}
            (after_stats-Tells e saved _ creds t2 refl w2) λ _ t3 w3. goes (inr (refl, w3))
    where
      finish : ResticRepository → Handler Outcome
      finish saved = publish_stats e saved creds >> report_success e configured

  after_credentials-Tells :
      (r : ResticRepository) (found : Credentialed) (t : Trace)
      → Meets (Tells e) (Tells e) (after_credentials e configured r found t)
  unfolding after_credentials
  after_credentials-Tells r (refused problem) t =
      reject-Tells e r "CredentialsNotFound" problem.message t
  after_credentials-Tells r (accepted creds) t = reconcile_with-Tells r creds t

  -- Whatever the services answer, the outcome of a reconciliation tells what was found: a new run is
  -- asked for in thirty seconds where the last status written is not Ready, or in an hour where the
  -- status was written as Ready, and none is asked for only where the repository was not found. An
  -- error is returned only where the last call was the read of the repository or a write of its
  -- status, and it has the message with which this call was refused. It panics only where the last
  -- call was the read of the statistics, which told a size of more than 64 bits.
  pub reconcile-Tells :
      (name : NamespacedName) (t : Trace)
      → Tells e (reconcile e configured name t).0 (reconcile e configured name t).1
  unfolding reconcile
  reconcile-Tells name t =
      Meets-run_handler {R = Tells e} (reconcile_handler e configured name) t whole
    where
      found :
          (reply : Reply ResticRepository)
          → e.get_repository t name ≡ reply
          → Meets (Tells e) (Anything e) (or_ignore reply (get repositories name ∷ t))
      found (accepted r) h = goes tt
      found (refused problem) h = elim (Bool-cases problem.not_found) [
        | inl missing ↦ rw missing (stopped (problem, h, missing))
        | inr other ↦ rw other (stopped (problem, h, other, refl))
      ]

      whole : Meets (Tells e) (Tells e) (reconcile_handler e configured name t)
      whole =
          Meets-continue {P = Anything e}
            {f = λ r. get_credentials e r >>= after_credentials e configured r}
            (found (e.get_repository t name) refl) λ r t' _. after_credentials-Tells r _ (_ ∷ t')

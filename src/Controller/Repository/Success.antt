-- ===== src/Controller/Repository/Success.antt =====
-- The reconciler of repositories where its calls succeed.
use restic_backup_operator.Base.{
  ℕ, ◌<◌, ◌≤◌, leb, ◌^◌, String, true, false, none, some, [], ◌∷◌, ◌≡◌, ◌⊎◌, inl, inr, refl, arith,
  ℤ, contains, ltb, itoa, ◌<>◌, ◌+◌, Bool-cases,
}
use restic_backup_operator.Conditions.Laws.{ready_write}
use restic_backup_operator.Restic.Types.{Credentials, RepoStats, StatsOptions}
use restic_backup_operator.Restic.Executor.{Result, ok, err}
use restic_backup_operator.Api.Repository.{ResticRepository}
use restic_backup_operator.Cluster.{
  Trace, Env, Handler, Outcome, Reply, accepted, update_repository_status, restic_check,
  restic_unlock, record_event, normal, restic_stats, requeue_after, default_requeue_interval,
  or_fail, pure, ◌>>=◌, ◌>>◌, run_handler,
}
use restic_backup_operator.Cluster.Logic.{Meets, goes, Meets-continue, Meets-run_handler}
use restic_backup_operator.Controller.LockAge.{parse_lock_age}
use restic_backup_operator.Controller.Bytes.{format_bytes, format_bytes_large}
use restic_backup_operator.Controller.Repository.{
  after_init, initialize, remove_lock, after_unlock, after_recheck, get_stale_lock_threshold,
  after_check, handle_check_error, ensure_accessible, mark_ready, after_format, after_stats,
  publish_stats, report_success, reconcile_with,
}
use restic_backup_operator.Controller.Repository.Laws.{is_ready}

-- Every write of a status is accepted.
abbrev pub WritesAccepted : Env → Type 0
WritesAccepted e =
    (t : Trace) (r : ResticRepository)
    → (a : ResticRepository) × (e.put_repository_status t r ≡ accepted a)

-- The sizes that the executor returns are numbers of 64 bits.
abbrev pub StatsFit : Env → Credentials → Type 0
StatsFit e creds =
    (t : Trace) (opts : StatsOptions) (s : RepoStats)
    → e.stats t creds opts ≡ ok s
    → s.total_size < 2 ^ 64

-- The calls up to the removal of a lock of this age.
abbrev pub unlocked : Env → Credentials → ℕ → Trace → Trace
unlocked e creds age t =
    record_event normal "RepositoryUnlocked"
      ("Stale lock (age: " <> (e.duration_text age <> ") was removed from repository"))
    ∷ (restic_unlock creds ∷ (restic_check creds ∷ t))

-- The check fails by a lock that is old enough, the lock can be removed, and then the second check
-- succeeds, or fails before an initialization that succeeds.
abbrev pub Recoverable : Env → ℤ → Credentials → String → Trace → Type 0
Recoverable e configured creds error t =
    let t' = unlocked e creds (parse_lock_age e.fraction error) t in
    (contains error "repository is already locked" ≡ true)
    × (get_stale_lock_threshold configured ≤ parse_lock_age e.fraction error)
    × (e.unlock (restic_check creds ∷ t) creds ≡ none)
    × (((e.check t' creds).1 ≡ none)
        ⊎ ((again : String) × ((e.check t' creds).1 ≡ some again)
            × (e.init (restic_check creds ∷ t') creds ≡ none)))

-- The check succeeds, or it fails without a lock and the initialization after it succeeds, or it
-- fails by a lock that can be recovered from.
abbrev pub Accessible : Env → ℤ → Credentials → Trace → Type 0
Accessible e configured creds t =
    ((e.check t creds).1 ≡ none)
    ⊎ ((error : String) × ((e.check t creds).1 ≡ some error)
        × (((contains error "repository is already locked" ≡ false)
              × (e.init (restic_check creds ∷ t) creds ≡ none))
            ⊎ Recoverable e configured creds error t))

-- Some call wrote the status as Ready.
abbrev pub WroteReady : Trace → Type 0
WroteReady [] = ⊥
WroteReady (update_repository_status r ∷ t) = (is_ready r ≡ true) ⊎ WroteReady t
WroteReady (_ ∷ t) = WroteReady t

abbrev Succeeded : Outcome → Trace → Type 0
Succeeded o t = (o ≡ requeue_after default_requeue_interval) × WroteReady t

abbrev pub Anything : {A : Type 0} → A → Trace → Type 0
Anything a t = Unit {0}

abbrev Ready : {A : Type 0} → A → Trace → Type 0
Ready a t = WroteReady t

accepted-goes :
    {A : Type 0} {R : Outcome → Trace → Type 0} {Q : A → Trace → Type 0} (reply : Reply A)
    (t : Trace)
    → ((a : A) × (reply ≡ accepted a))
    → ((a : A) → Q a t)
    → Meets R Q (or_fail reply t)
accepted-goes reply t (a, h) q = rw h (goes (q a))

pub formatted :
    (one_decimal : ℕ → ℕ → String) (bytes : ℕ)
    → bytes < 2 ^ 64
    → (size : String) × (format_bytes one_decimal bytes ≡ some size)
formatted one_decimal bytes hi = elim (Bool-cases (ltb bytes 1024)) [
  | inl small ↦ (itoa bytes <> " B", unfold format_bytes in rw small refl)
  | inr large ↦
      let (exp, c, _, found, _, _) = format_bytes_large one_decimal bytes (ground arith) hi in
      (one_decimal bytes (1024 ^ (exp + 1)) <> (" " <> (c <> "iB")), found)
]

not_younger : {a b : ℕ} → a ≤ b → leb a b ≡ true
not_younger h = ground arith

module _ (e : Env) (configured : ℤ) (creds : Credentials) where
  pub ensure_accessible-goes :
      {R : Outcome → Trace → Type 0} (r : ResticRepository) (t : Trace)
      → Accessible e configured creds t
      → Meets R Anything (ensure_accessible e configured r creds t)
  unfolding ensure_accessible after_check handle_check_error initialize after_init remove_lock
      after_unlock after_recheck
  ensure_accessible-goes r t (inl checked) = rw checked (goes tt)
  ensure_accessible-goes r t (inr (error, failed_, inl (open_, created))) =
      rw (failed_, open_, created) (goes tt)
  ensure_accessible-goes r t (inr (error, failed_, inr (locked, old, removed, inl checked))) =
      rw (failed_, locked, not_younger old, removed, checked) (goes tt)
  ensure_accessible-goes r t
        (inr (error, failed_, inr (locked, old, removed, inr (again, failing, created)))) =
      rw (failed_, locked, not_younger old, removed, failing, created) (goes tt)

  mark_ready-goes :
      (r : ResticRepository) (t : Trace)
      → WritesAccepted e
      → Meets Succeeded Ready (mark_ready e r t)
  unfolding mark_ready
  mark_ready-goes r t writes = accepted-goes _ _ (writes t _) (λ a. inl (
      ready_write (e.now t) (e.now t) r.status.conditions "RepositoryAccessible"
        "Repository is initialized and accessible"))

  after_stats-goes :
      (r : ResticRepository) (reply : Result RepoStats) (t : Trace)
      → WritesAccepted e
      → ((s : RepoStats) → reply ≡ ok s → s.total_size < 2 ^ 64)
      → WroteReady t
      → Meets Succeeded Ready (after_stats e r reply t)
  unfolding after_stats after_format
  after_stats-goes r (err message) t writes fit w = goes w
  after_stats-goes r (ok s) t writes fit w =
      let (size, found) = formatted e.one_decimal s.total_size (fit s refl) in
      rw found (
        Meets-continue {P = Ready} {f = λ _. pure tt} (accepted-goes _ _ (writes t _) (λ a. inr w))
          (λ a t' w'. goes w'))

  -- Where the check succeeds, or fails without a lock before an initialization that succeeds, or
  -- fails by a lock as old as the threshold before an unlock that succeeds and a second check that
  -- does, or else an initialization, and where the writes of the status are accepted and the sizes fit
  -- 64 bits, the reconciliation ends with a new run in an hour, whatever the statistics are, and the
  -- status was written as Ready.
  pub reconcile_with-Accessible :
      (r : ResticRepository) (t : Trace)
      → Accessible e configured creds t
      → WritesAccepted e
      → StatsFit e creds
      → let ended = run_handler (reconcile_with e configured r creds) t in
        (ended.0 ≡ requeue_after default_requeue_interval) × WroteReady ended.1
  unfolding reconcile_with publish_stats
  reconcile_with-Accessible r t open_ writes fit =
      Meets-run_handler {R = Succeeded} (reconcile_with e configured r creds) t (
        Meets-continue {f = λ _. mark_ready e r >>= finish} (ensure_accessible-goes r t open_)
          λ _ t1 _. Meets-continue {f = finish} (mark_ready-goes r t1 writes) λ saved t2 w2.
            Meets-continue {f = λ _. report_success e configured}
              (after_stats-goes saved (e.stats t2 creds _) (restic_stats creds ∷ t2) writes
                (fit t2 _) w2)
              (λ _ t3 w3. goes (refl, w3)))
    where
      finish : ResticRepository → Handler Outcome
      finish saved = publish_stats e saved creds >> report_success e configured

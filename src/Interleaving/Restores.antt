-- ===== src/Interleaving/Restores.antt =====
-- One restore among the turns of all reconcilers.
use mathlib.Core.List.{append-nil}
use restic_backup_operator.Base.{
  true, false, List, [], ◌∷◌, ◌++◌, ◌≡◌, refl, sym, ◌∙◌, subst, ◌⊎◌, inl, inr, ℤ, Bool,
}
use restic_backup_operator.Api.Meta.{NamespacedName, is_deleted}
use restic_backup_operator.Api.Repository.{ResticRepository}
use restic_backup_operator.Api.Backup.{ResticBackup}
use restic_backup_operator.Api.Restore.{ResticRestore, unset, completed}
use restic_backup_operator.Cluster.{Trace, Env, Call, update_restore, update_restore_status}
use restic_backup_operator.Cluster.Calls.{Extends, Extends-induction}
use restic_backup_operator.Controller.Repository.Footprint.{repository_calls, repository_footprint}
use restic_backup_operator.Controller.Backup.Footprint.{backup_calls, backup_footprint}
use restic_backup_operator.Controller.Retention.Footprint.{policy_calls, policy_footprint}
use restic_backup_operator.Controller.Scheduling.Footprint.{NamesKept}
use restic_backup_operator.Controller.Restore.Completion.{
  GoesWell, held, IsNew, IsRunning, IsDone, new-Running, running-Done, last-Done,
}
use restic_backup_operator.Interleaving.{
  Turn, repository_turn, backup_turn, restore_turn, policy_turn, key_of, take_turn, run_turns,
  turns_keep,
}

module _ (first : ResticRestore) where
  repository_call-held :
      (c : Call) (t : Trace) → repository_calls c ≡ true → held first (c ∷ t) ≡ held first t
  unfolding held
  repository_call-held (update_restore r) t h = cc
  repository_call-held (update_restore_status r) t h = cc
  repository_call-held _ t h = refl

  backup_call-held :
      (c : Call) (t : Trace) → backup_calls c ≡ true → held first (c ∷ t) ≡ held first t
  unfolding held
  backup_call-held (update_restore r) t h = cc
  backup_call-held (update_restore_status r) t h = cc
  backup_call-held _ t h = refl

  policy_call-held :
      (c : Call) (t : Trace) → policy_calls c ≡ true → held first (c ∷ t) ≡ held first t
  unfolding held
  policy_call-held (update_restore r) t h = cc
  policy_call-held (update_restore_status r) t h = cc
  policy_call-held _ t h = refl

  keeps_held :
      {allowed : Call → Bool} {t t' : Trace}
      → ((c : Call) (t : Trace) → allowed c ≡ true → held first (c ∷ t) ≡ held first t)
      → Extends allowed t t'
      → held first t' ≡ held first t
  keeps_held {t} step extends =
      Extends-induction (λ u. held first u ≡ held first t) (λ c u ok same. step c u ok ∙ same)
        extends refl

module _ (e : Env) (configured : ℤ) (repository : ResticRepository) (backup : ResticBackup)
    (first : ResticRestore) (w : GoesWell e first) (kept : NamesKept e) where
  abbrev after : Turn → Trace → Trace
  after = take_turn e configured repository backup

  -- How far a restore is at least.
  abbrev Completed : ResticRestore → Type 0
  Completed r = IsDone e first w r.status × (is_deleted r.meta ≡ false)

  abbrev Started : ResticRestore → Type 0
  Started r = (IsRunning e first w r.status × (is_deleted r.meta ≡ false)) ⊎ Completed r

  abbrev Open : ResticRestore → Type 0
  Open r = (IsNew e first w r.status × (is_deleted r.meta ≡ false)) ⊎ Started r

  -- A turn keeps what the turns of restores keep.
  turn_keeps :
      (P : ResticRestore → Type 0)
      → ((name : NamespacedName) (t : Trace)
          → P (held first t)
          → P (held first (after (restore_turn name) t)))
      → (turn : Turn) (t : Trace) → P (held first t)
      → P (held first (after turn t))
  unfolding take_turn
  turn_keeps P step (restore_turn name) t p = step name t p
  turn_keeps P step repository_turn t p =
      subst P
        (sym (
          keeps_held first (repository_call-held first)
            (repository_footprint e configured (key_of repository.meta) t)))
        p
  turn_keeps P step backup_turn t p =
      subst P
        (sym (
          keeps_held first (backup_call-held first)
            (backup_footprint e kept (key_of backup.meta) t)))
        p
  turn_keeps P step (policy_turn name) t p =
      subst P (sym (keeps_held first (policy_call-held first) (policy_footprint e kept name t))) p

  abbrev Holding : (ResticRestore → Type 0) → Trace → Type 0
  Holding P t = P (held first t)

  turns_hold :
      (P : ResticRestore → Type 0)
      → ((name : NamespacedName) (t : Trace)
          → P (held first t)
          → P (held first (after (restore_turn name) t)))
      → (later earlier : List Turn)
      → P (held first (run_turns e configured repository backup earlier))
      → P (held first (run_turns e configured repository backup (later ++ earlier)))
  turns_hold P step = turns_keep e configured repository backup (Holding P) (turn_keeps P step)

  -- What a turn of the restore makes of each stage.
  again-Completed :
      (name : NamespacedName) (t : Trace)
      → Completed (held first t)
      → Completed (held first (after (restore_turn name) t))
  unfolding take_turn
  again-Completed name t d = last-Done e first w name t d

  completes :
      (name : NamespacedName) (t : Trace)
      → Started (held first t)
      → Completed (held first (after (restore_turn name) t))
  unfolding take_turn
  completes name t (inl r) = running-Done e first w name t r
  completes name t (inr d) = last-Done e first w name t d

  starts :
      (name : NamespacedName) (t : Trace)
      → Open (held first t)
      → Started (held first (after (restore_turn name) t))
  unfolding take_turn
  starts name t (inl n) = inl (new-Running e first w name t n)
  starts name t (inr s) = inr (completes name t s)

  all_Open :
      (turns : List Turn)
      → IsNew e first w first.status × (is_deleted first.meta ≡ false)
      → Open (held first (run_turns e configured repository backup turns))
  unfolding run_turns held
  all_Open turns new =
      subst (λ l. Open (held first (run_turns e configured repository backup l))) (append-nil turns)
        (turns_hold Open (λ name t p. inr (starts name t p)) turns [] (inl new))

  -- On a server that keeps what is written of one restore and answers with it, and answers the
  -- lookup of a cron job with one of that name, where the backup and the repository are there and
  -- jobs are created and succeed, whichever turns of the four reconcilers are taken in whichever
  -- order, a restore that was new and is not deleted is completed once two turns of it were taken,
  -- and stays so.
  pub run_turns-completed :
      (one two : NamespacedName) (last middle earlier : List Turn)
      → first.status.phase ≡ unset
      → is_deleted first.meta ≡ false
      → (held first (
          run_turns e configured repository backup
            (last ++ restore_turn two ∷ (middle ++ restore_turn one ∷ earlier)))).status.phase
        ≡ completed
  unfolding run_turns held
  run_turns-completed one two last middle earlier unset_ live =
      (turns_hold Completed again-Completed last
        (restore_turn two ∷ (middle ++ restore_turn one ∷ earlier))
        (completes two _ (
          turns_hold Started (λ name t p. inr (completes name t p)) middle
            (restore_turn one ∷ earlier) (starts one _ (all_Open earlier (unset_, live)))))).0

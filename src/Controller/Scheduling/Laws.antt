-- ===== src/Controller/Scheduling/Laws.antt =====
-- What the writes of cron jobs promise. `Built` says which specification is built for a repository.
use restic_backup_operator.Base.{
  String, true, Option, none, some, List, [], ◌∷◌, ◌≡◌, refl, sym, subst, Bool-cases, inl, inr,
}
use restic_backup_operator.Conditions.{is_condition_true}
use restic_backup_operator.Api.Meta.{NamespacedName}
use restic_backup_operator.Api.Shared.{ObjectReference}
use restic_backup_operator.Api.Repository.{ResticRepository}
use restic_backup_operator.Api.Workload.{CronJob, CronJobSpec}
use restic_backup_operator.Cluster.{
  Trace, Env, Call, Outcome, Reply, accepted, refused, get, repositories, cron_jobs,
  update_backup_status, update_policy_status, create_cron_job, update_cron_job, record_event,
}
use restic_backup_operator.Cluster.Logic.{Meets, goes}
use restic_backup_operator.Controller.Scheduling.{
  after_create, after_update, after_lookup, after_owner,
}

-- The last answer for a repository, if it was not refused.
abbrev answered : Reply ResticRepository → Option ResticRepository
answered (accepted r) = some r
answered (refused problem) = none

abbrev Accepted : Reply CronJob → Type 0
Accepted (accepted job) = Unit
Accepted (refused problem) = ⊥

-- The specification is built for a repository that is ready.
abbrev pub BuiltFor :
    (CronJobSpec → ResticRepository → Type 0) → CronJobSpec → Option ResticRepository → Type 0
BuiltFor Built spec none = ⊥
BuiltFor Built spec (some r) = (is_condition_true r.status.conditions "Ready" ≡ true) × Built spec r

module _ (e : Env) where
  abbrev seen : Call → Trace → Option ResticRepository → Option ResticRepository
  seen (get repositories name) t old = answered (e.get_repository t name)
  seen _ t old = old

  abbrev pub fetched : Trace → Option ResticRepository
  fetched [] = none
  fetched (c ∷ t) = seen c t (fetched t)

  -- The last call, but for an event, wrote the cron job, and the write was accepted.
  abbrev pub CronJobWritten : Trace → Type 0
  CronJobWritten (create_cron_job job ∷ t) = Accepted (e.post_cron_job t job)
  CronJobWritten (update_cron_job job ∷ t) = Accepted (e.put_cron_job t job)
  CronJobWritten (record_event _ _ _ ∷ t) = CronJobWritten t
  CronJobWritten _ = ⊥

module _ (e : Env) (Built : Trace → CronJobSpec → ResticRepository → Type 0) where
  abbrev pub Justified : Call → Trace → Type 0
  Justified (create_cron_job job) t = BuiltFor (Built t) job.spec (fetched e t)
  Justified (update_cron_job job) t = BuiltFor (Built t) job.spec (fetched e t)
  Justified (update_backup_status b) t =
      is_condition_true b.status.conditions "Ready" ≡ true → CronJobWritten e t
  Justified (update_policy_status p) t =
      is_condition_true p.status.conditions "Ready" ≡ true → CronJobWritten e t
  Justified _ t = Unit

  -- Each call of the trace is justified by the calls before it.
  abbrev pub AllJustified : Trace → Type 0
  AllJustified [] = Unit
  AllJustified (c ∷ t) = Justified c t × AllJustified t

  abbrev pub Ends : Outcome → Trace → Type 0
  Ends o t = AllJustified t

  abbrev pub Kept : {A : Type 0} → A → Trace → Type 0
  Kept a t = AllJustified t

  -- After `reconcileCronJob`: where it gave no error, the cron job was written.
  abbrev pub Written : {A : Type 0} → Reply A → Trace → Type 0
  Written (accepted b) t = CronJobWritten e t × AllJustified t
  Written (refused problem) t = AllJustified t

module _ (e : Env) (Built : Trace → CronJobSpec → ResticRepository → Type 0) {A : Type 0}
    (referring : A → ObjectReference → A) where
  -- A write of the cron job with an answer that is passed on.
  after_create-Meets :
      (owner : A) (job : CronJob) (reply : Reply CronJob) (t : Trace)
      → e.post_cron_job t job ≡ reply
      → BuiltFor (Built t) job.spec (fetched e t)
      → AllJustified e Built t
      → Meets
          (Ends e Built)
          (Written e Built)
          (after_create e referring owner job reply (create_cron_job job ∷ t))
  unfolding after_create
  after_create-Meets owner job (refused problem) t h built j = goes (built, j)
  after_create-Meets owner job (accepted created) t h built j =
      goes (subst Accepted (sym h) tt, (tt, (built, j)))

  after_update-Meets :
      (owner : A) (job sent : CronJob) (reply : Reply CronJob) (t : Trace)
      → e.put_cron_job t sent ≡ reply
      → BuiltFor (Built t) sent.spec (fetched e t)
      → AllJustified e Built t
      → Meets
          (Ends e Built)
          (Written e Built)
          (after_update e referring owner job reply (update_cron_job sent ∷ t))
  unfolding after_update
  after_update-Meets owner job sent (refused problem) t h built j = goes (built, j)
  after_update-Meets owner job sent (accepted updated) t h built j =
      goes (subst Accepted (sym h) tt, (built, j))

  after_lookup-Meets :
      (owner : A) (job : CronJob) (reply : Reply CronJob) (t : Trace)
      → BuiltFor (Built t) job.spec (fetched e t)
      → AllJustified e Built t
      → Meets (Ends e Built) (Written e Built) (after_lookup e referring owner job reply t)
  unfolding after_lookup
  after_lookup-Meets owner job (refused problem) t built j = elim (Bool-cases problem.not_found) [
    | inl missing ↦ rw missing (after_create-Meets owner job (e.post_cron_job t job) t refl built j)
    | inr broken ↦ rw broken (goes j)
  ]
  after_lookup-Meets owner job (accepted existing) t built j =
      after_update-Meets owner job (record existing { spec = job.spec }) _ t refl built j

  -- A lookup of the cron job leaves what is built.
  after_lookup_call :
      (t : Trace) (name : NamespacedName) (spec : CronJobSpec) (o : Option ResticRepository)
      → ((r : ResticRepository) → Built t spec r → Built (get cron_jobs name ∷ t) spec r)
      → BuiltFor (Built t) spec o
      → BuiltFor (Built (get cron_jobs name ∷ t)) spec o
  after_lookup_call t name spec none stable built = elim built [ ]
  after_lookup_call t name spec (some r) stable built = (built.0, stable r built.1)

  pub after_owner-Meets :
      (owner : A) (job : CronJob) (reply : Reply (List (String × String))) (t : Trace)
      → ((name : NamespacedName) (r : ResticRepository)
          → Built t job.spec r
          → Built (get cron_jobs name ∷ t) job.spec r)
      → BuiltFor (Built t) job.spec (fetched e t)
      → AllJustified e Built t
      → Meets (Ends e Built) (Written e Built) (after_owner e referring owner job reply t)
  unfolding after_owner
  after_owner-Meets owner job (refused problem) t stable built j = goes j
  after_owner-Meets owner job (accepted owners) t stable built j =
      after_lookup-Meets owner (record job { meta = record job.meta { owner_references = owners } })
        _ _ (after_lookup_call t _ job.spec (fetched e t) (stable _) built) (tt, j)

-- ===== src/Controller/Scheduling/Footprint.antt =====
-- The calls by which a cron job is created or updated.
use restic_backup_operator.Base.{String, Bool, true, List, ◌≡◌, ◌∙◌, refl}
use restic_backup_operator.Api.Meta.{NamespacedName}
use restic_backup_operator.Api.Shared.{ObjectReference}
use restic_backup_operator.Api.Workload.{CronJob}
use restic_backup_operator.Cluster.{
  Trace, Env, Call, EventType, Reply, accepted, refused, get, cron_jobs, create_cron_job,
  update_cron_job, record_event,
}
use restic_backup_operator.Cluster.Calls.{Within, Within-call_then, within_rules}
use restic_backup_operator.Controller.Scheduling.{
  after_create, after_update, after_lookup, after_owner,
}

-- A server that answers a lookup with the object of that name.
abbrev pub NamesKept : Env → Type 0
NamesKept e =
    (t : Trace) (key : NamespacedName) (job : CronJob)
    → e.get_cron_job t key ≡ accepted job
    → job.meta.name ≡ key.name

-- The calls that the writer of the cron job of this name must be allowed.
pub record MayWrite (allowed : Call → Bool) (name : String) : Type 0 where
  pub may_get : (key : NamespacedName) → allowed (get cron_jobs key) ≡ true
  pub may_create : (job : CronJob) → job.meta.name ≡ name → allowed (create_cron_job job) ≡ true
  pub may_update : (job : CronJob) → job.meta.name ≡ name → allowed (update_cron_job job) ≡ true
  pub may_record :
      (type : EventType) (reason message : String)
      → allowed (record_event type reason message) ≡ true

module _ (e : Env) {A : Type 0} (referring : A → ObjectReference → A) (allowed : Call → Bool)
    (name : String) (may : MayWrite allowed name) where
  after_create-Within :
      (owner : A) (job : CronJob) (reply : Reply CronJob)
      → Within allowed (after_create e referring owner job reply)
  unfolding after_create
  after_create-Within owner job (refused problem) = search within_rules
  after_create-Within owner job (accepted created) = search (within_rules, may.may_record)

  after_update-Within :
      (owner : A) (job : CronJob) (reply : Reply CronJob)
      → Within allowed (after_update e referring owner job reply)
  unfolding after_update
  after_update-Within owner job (refused problem) = search within_rules
  after_update-Within owner job (accepted updated) = search within_rules

  after_lookup-Within :
      (owner : A) (job : CronJob) (reply : Reply CronJob)
      → job.meta.name ≡ name
      → ((existing : CronJob) → reply ≡ accepted existing → existing.meta.name ≡ name)
      → Within allowed (after_lookup e referring owner job reply)
  unfolding after_lookup
  after_lookup-Within owner job (refused problem) h found =
      search (within_rules, may.may_create job h, after_create-Within)
  after_lookup-Within owner job (accepted existing) h found = search (
    within_rules,
    may.may_update (record existing { spec = job.spec }) (found existing refl),
    after_update-Within,
  )

  pub after_owner-Within :
      (owner : A) (job : CronJob) (reply : Reply (List (String × String)))
      → NamesKept e
      → job.meta.name ≡ name
      → Within allowed (after_owner e referring owner job reply)
  unfolding after_owner
  after_owner-Within owner job (refused problem) kept h = search within_rules
  after_owner-Within owner job (accepted owners) kept h =
      let key : NamespacedName = record { name = job.meta.name; namespace = job.meta.namespace } in
      let owned = record job { meta = record job.meta { owner_references = owners } } in
      Within-call_then (get cron_jobs key) (λ t. e.get_cron_job t key)
        (after_lookup e referring owner owned) (may.may_get key)
        (λ t.
          after_lookup-Within owner owned (e.get_cron_job t key) h
            (λ existing found. kept t key existing found ∙ h))

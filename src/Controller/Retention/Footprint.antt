-- ===== src/Controller/Retention/Footprint.antt =====
-- The calls that the reconciler of retention policies makes.
use text.Mathlib.Text.{starts_with}
use text.Mathlib.TextPositions.{starts_with-append}
use restic_backup_operator.Base.{String, ◌<>◌, Bool, true, false, ◌≡◌, refl}
use restic_backup_operator.Api.Meta.{NamespacedName}
use restic_backup_operator.Api.Repository.{ResticRepository}
use restic_backup_operator.Api.Retention.{GlobalRetentionPolicy}
use restic_backup_operator.Cluster.{
  Trace, Env, Call, Reply, accepted, refused, get, repositories, policies, cron_jobs, update_policy,
  update_policy_status, create_cron_job, update_cron_job, record_event,
}
use restic_backup_operator.Cluster.Calls.{Within, Extends, Extends-run_handler, within_rules}
use restic_backup_operator.Controller.Scheduling.Footprint.{MayWrite, NamesKept, after_owner-Within}
use restic_backup_operator.Controller.Retention.Job.{build_retention_cron_job}
use restic_backup_operator.Controller.Retention.{
  Scheduled, referring, reject, reconcile_cron_job, after_cron_job, schedule_policy, get_repository,
  after_repository, ensure_finalizer, handle_deletion, reconcile_live, reconcile_handler, reconcile,
}

-- Reads of its own objects, of repositories and of cron jobs, writes of its own objects and of cron
-- jobs whose names start with "globalretention-", and events.
abbrev pub policy_calls : Call → Bool
policy_calls (get repositories name) = true
policy_calls (get policies name) = true
policy_calls (get cron_jobs name) = true
policy_calls (update_policy x) = true
policy_calls (update_policy_status x) = true
policy_calls (create_cron_job job) = starts_with job.meta.name "globalretention-"
policy_calls (update_cron_job job) = starts_with job.meta.name "globalretention-"
policy_calls (record_event type reason message) = true
policy_calls _ = false

prefixed :
    (name own : String)
    → name ≡ "globalretention-" <> own
    → starts_with name "globalretention-" ≡ true
prefixed name own h = rw h (starts_with-append "globalretention-" own)

may : (own : String) → MayWrite policy_calls ("globalretention-" <> own)
may own = record {
  may_get = λ _. refl;
  may_create = λ job h. prefixed job.meta.name own h;
  may_update = λ job h. prefixed job.meta.name own h;
  may_record = λ _ _ _. refl;
}

module _ (e : Env) (kept : NamesKept e) where
  reject-Within :
      (x : GlobalRetentionPolicy) (reason message : String)
      → Within policy_calls (reject e x reason message)
  unfolding reject
  reject-Within x reason message = search within_rules

  reconcile_cron_job-Within :
      (x : GlobalRetentionPolicy) (r : ResticRepository)
      → Within policy_calls (reconcile_cron_job e x r)
  unfolding reconcile_cron_job build_retention_cron_job
  reconcile_cron_job-Within x r =
      after_owner-Within e referring policy_calls ("globalretention-" <> x.meta.name)
        (may x.meta.name) x (build_retention_cron_job x r) _ kept refl

  after_cron_job-Within :
      (x : GlobalRetentionPolicy) (scheduled : Scheduled)
      → Within policy_calls (after_cron_job e x scheduled)
  unfolding after_cron_job
  after_cron_job-Within x (refused problem) = reject-Within x _ _
  after_cron_job-Within x (accepted scheduled) = search within_rules

  schedule_policy-Within :
      (x : GlobalRetentionPolicy) (r : ResticRepository)
      → Within policy_calls (schedule_policy e x r)
  unfolding schedule_policy
  schedule_policy-Within x r =
      search (within_rules, reconcile_cron_job-Within, after_cron_job-Within)

  get_repository-Within : (x : GlobalRetentionPolicy) → Within policy_calls (get_repository e x)
  unfolding get_repository
  get_repository-Within x = search within_rules

  after_repository-Within :
      (x : GlobalRetentionPolicy) (reply : Reply ResticRepository)
      → Within policy_calls (after_repository e x reply)
  unfolding after_repository
  after_repository-Within x (refused problem) = reject-Within x _ _
  after_repository-Within x (accepted r) = search (within_rules, schedule_policy-Within)

  ensure_finalizer-Within : (x : GlobalRetentionPolicy) → Within policy_calls (ensure_finalizer e x)
  unfolding ensure_finalizer
  ensure_finalizer-Within x = search within_rules

  handle_deletion-Within : (x : GlobalRetentionPolicy) → Within policy_calls (handle_deletion e x)
  unfolding handle_deletion
  handle_deletion-Within x = search within_rules

  reconcile_live-Within : (x : GlobalRetentionPolicy) → Within policy_calls (reconcile_live e x)
  unfolding reconcile_live
  reconcile_live-Within x =
      search (within_rules, ensure_finalizer-Within, get_repository-Within, after_repository-Within)

  reconcile_handler-Within :
      (name : NamespacedName) → Within policy_calls (reconcile_handler e name)
  unfolding reconcile_handler
  reconcile_handler-Within name =
      search (within_rules, handle_deletion-Within, reconcile_live-Within)

  pub policy_footprint :
      (name : NamespacedName) (t : Trace) → Extends policy_calls t (reconcile e name t).1
  unfolding reconcile
  policy_footprint name t = Extends-run_handler _ t (reconcile_handler-Within name)

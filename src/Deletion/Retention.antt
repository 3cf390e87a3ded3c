-- ===== src/Deletion/Retention.antt =====
-- retention.py: the retention step and the scan that creates its operations. Times are
-- microseconds; a horizon is a number of days.
use lifeflow.Prelude.{
  ℕ, ◌+◌, ◌-◌, ◌*◌, ◌/◌, Bool, true, false, ◌&&◌, not, String, List, [], ◌∷◌, ◌++◌, Option, none,
  some, map, select, contains, length, leb, ◌==◌, nat_eq, string_eq, if◌then◌else◌,
}
use lifeflow.Models.{ExecutionOutcome}
use lifeflow.Records.{SourceItem, ActionProposal, ActionExecution}
use lifeflow.Schedule.Run.{ScheduledRunStatus, ScheduledBriefRun}
use lifeflow.Deletion.Operation.{
  retention, DeletionRequesterType, DeletionOperationState, Counts, add, empty_cursor, derived,
  DataDeletionOperation, get_active, retention_key,
}
use lifeflow.Deletion.Tables.{
  without_brief, without_result, MemoryStatus, StoredBrief, MemoryItem, Tables, expired_scope,
  outcome_of,
}
use lifeflow.Deletion.Planner.{is_deletable, delete_proposals, run_derived_cleanup}
use lifeflow.Deletion.Batches.{Run, take, phase_or, staged_batch}

pub record RetentionHorizons : Type 0 where
  pub source_items_days : ℕ
  pub brief_versions_days : ℕ
  pub unapproved_proposals_days : ℕ
  pub scheduled_runs_days : ℕ
  pub memory_evidence_days : ℕ

-- `RetentionHorizons.cutoff`
abbrev pub cutoff : ℕ → ℕ → ℕ
cutoff now days = now - days * 86400000000

abbrev pub is_unresolved : Option ExecutionOutcome → Bool
is_unresolved (some ExecutionOutcome.pending) = true
is_unresolved (some ExecutionOutcome.uncertain) = true
is_unresolved _ = false

abbrev pub is_finished : ScheduledRunStatus → Bool
is_finished ScheduledRunStatus.succeeded = true
is_finished ScheduledRunStatus.failed = true
is_finished ScheduledRunStatus.skipped = true
is_finished _ = false

abbrev pub is_stale : MemoryStatus → Bool
is_stale MemoryStatus.expired = true
is_stale MemoryStatus.dismissed = true
is_stale _ = false

abbrev pub unset : Option ℕ → Bool
unset none = true
unset (some _) = false

abbrev pub passed : ℕ → Option ℕ → Bool
passed limit none = false
passed limit (some at) = leb at limit

-- The rows that match, deleted and counted.
abbrev pub expire {ℓ} : {A : Type ℓ} → String → (A → Bool) → List A → Counts → List A × Counts
expire key old rows counts =
    (select (λ r. not (old r)) rows, add key (length (select old rows)) counts)

-- `created_at` of a proposal, which no other part reads, is a function of the row's id.
module _ (created_at : ℕ → ℕ) (h : RetentionHorizons) (now user_id : ℕ) where
  abbrev pub expired_brief : StoredBrief → Bool
  expired_brief b = b.user_id == user_id && leb b.generated_at (cutoff now h.brief_versions_days)

  -- Not approved, old enough, and without an unresolved execution.
  unfoldable pub expired_proposal : List ActionExecution → ActionProposal → Bool
  expired_proposal executions p =
      p.user_id == user_id
      && is_deletable p.status
      && unset p.approved_at
      && leb (created_at p.id) (cutoff now h.unapproved_proposals_days)
      && not (is_unresolved (outcome_of p.id executions))

  abbrev pub expired_run : ScheduledBriefRun → Bool
  expired_run r =
      r.user_id == user_id
      && passed (cutoff now h.scheduled_runs_days) r.completed_at
      && is_finished r.status

  abbrev pub expired_memory : MemoryItem → Bool
  expired_memory m =
      m.user_id == user_id
      && is_stale m.status
      && leb m.updated_at (cutoff now h.memory_evidence_days)

  -- Proposals: with their executions by `ON DELETE CASCADE`, as in the planner.
  abbrev pub expire_proposals : Tables → Counts → Tables × Counts
  expire_proposals t counts =
      let ids = map (λ p. p.id) (select (expired_proposal t.executions) t.proposals) in
      (delete_proposals user_id ids t, add "action_proposals" (length ids) counts)

  unfoldable pub delete_age_based_categories : Tables → Counts → Tables × Counts
  delete_age_based_categories t counts =
      let (briefs, c1) = expire "briefs" expired_brief t.briefs counts in
      let brief_ids = map (λ b. b.id) (select expired_brief t.briefs) in
      let t1 = record t {
        briefs = briefs;
        proposals = map (without_brief brief_ids) t.proposals;
        runs = map (without_result brief_ids) t.runs;
      } in
      let (t2, c2) = expire_proposals t1 c1 in
      let (runs, c3) = expire "scheduled_brief_runs" expired_run t2.runs c2 in
      let item_ids = map (λ m. m.id) (select expired_memory t2.memory.items) in
      let (items, c4) = expire "memory_items" expired_memory t2.memory.items c3 in
      (
        record t2 {
          runs = runs;
          memory = record {
            items = items;
            evidence = select (λ m. not (contains item_ids m.memory_item_id)) t2.memory.evidence;
          };
        },
        c4,
      )

  abbrev pub retention_cleanup : Tables → Counts → Tables × Counts
  retention_cleanup t counts =
      let scope = expired_scope user_id (cutoff now h.source_items_days) in
      let (t', counts') = run_derived_cleanup user_id scope t counts in
      delete_age_based_categories t' counts'

module _ (created_at : ℕ → ℕ) (h : RetentionHorizons) (now : ℕ) where
  unfoldable pub run_retention_step : ℕ → Run → Bool × Run
  run_retention_step limit r =
      let user_id = r.operation.user_id in
      staged_batch (expired_scope user_id (cutoff now h.source_items_days))
        (retention_cleanup created_at h now user_id) limit
        (phase_or derived r.operation.resume_cursor.phase) r

-- `_users_with_expired_data`: the users in order, each once, up to the limit.
abbrev pub user_ids : List SourceItem → List ℕ
user_ids [] = []
user_ids (s ∷ ss) =
    let rest = user_ids ss in if contains rest s.user_id then rest else s.user_id ∷ rest

unfoldable pub users_with_expired_data : ℕ → ℕ → List SourceItem → List ℕ
users_with_expired_data limit source_cutoff items =
    take limit (user_ids (select (λ s. leb s.created_at source_cutoff) items))

pub record RetentionScan : Type 0 where
  pub operations : List DataDeletionOperation
  pub created : ℕ
  pub reused : ℕ
  pub enqueue_ids : List ℕ

-- The bucket is the date.
abbrev pub bucket_of : ℕ → ℕ
bucket_of now = now / 86400000000

abbrev pub retention_operation : ℕ → (ℕ → ℕ) → ℕ → DataDeletionOperation
retention_operation now new_id user_id = record {
  id = new_id user_id;
  user_id = user_id;
  operation_type = retention;
  requester_type = DeletionRequesterType.system;
  source_account_id = none;
  scope_key = retention_key (bucket_of now);
  snapshot_cutoff = now;
  state = DeletionOperationState.pending;
  typed_confirmation_kind = none;
  preview_counts = [];
  preserved_counts = [];
  deleted_counts = [];
  plan_fingerprint = none;
  plan_policy_version = none;
  resume_cursor = empty_cursor;
  attempt_count = 0;
  preview_expires_at = none;
  enqueued_at = none;
  started_at = none;
  heartbeat_at = none;
  completed_at = none;
  cancellation_requested_at = none;
  safe_error_code = none;
  safe_error_message = none;
  version = 1;
}

module _ (now : ℕ) (new_id : ℕ → ℕ) (created_elsewhere : ℕ → Bool) where
  -- The savepoint fails when another worker has created the operation since the query.
  abbrev pub scan_user : Option DataDeletionOperation → Bool → ℕ → RetentionScan → RetentionScan
  scan_user (some o) taken user_id s = record s { reused = s.reused + 1 }
  scan_user none true user_id s = record s { reused = s.reused + 1 }
  scan_user none false user_id s = record {
    operations = retention_operation now new_id user_id ∷ s.operations;
    created = s.created + 1;
    reused = s.reused;
    enqueue_ids = s.enqueue_ids ++ (new_id user_id ∷ []);
  }

  abbrev pub scan_users : List ℕ → RetentionScan → RetentionScan
  scan_users [] s = s
  scan_users (user_id ∷ ids) s = scan_users ids (
      scan_user (get_active user_id retention (retention_key (bucket_of now)) s.operations)
        (created_elsewhere user_id) user_id s)

  -- `scan_and_create_retention_operations`; its audit event is left out.
  unfoldable pub scan_and_create_retention_operations :
      RetentionHorizons → ℕ → List SourceItem → List DataDeletionOperation → RetentionScan
  scan_and_create_retention_operations h max_operations items operations =
      scan_users (users_with_expired_data max_operations (cutoff now h.source_items_days) items)
        (record { operations = operations; created = 0; reused = 0; enqueue_ids = [] })

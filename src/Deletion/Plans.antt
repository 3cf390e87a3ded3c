-- ===== src/Deletion/Plans.antt =====
-- deletion.py and account_deletion.py: the plan of an operation, its counts and its fingerprint.
use lifeflow.Prelude.{
  ◌∷◌, true, false, ◌&&◌, ltb, codes, if◌then◌else◌, ℕ, ◌+◌, ◌*◌, Bool, ◌||◌, not, String, List, [],
  ◌++◌, Option, none, some, map, select, ◌==◌, nat_eq, string_eq, option_eq,
}
use lifeflow.Records.{SourceItem}
use lifeflow.Deletion.Operation.{
  DeletionOperationType, imported_data, retention, account_deletion, operation_type_eq, ScopeKey,
  Counts, DataDeletionOperation,
}
use lifeflow.Deletion.Tables.{Tables, external_ids, surviving_external_ids, imported_scope}
use lifeflow.Deletion.Planner.{classify_signals, classify_proposals, count_imported_data_plan}
use lifeflow.Deletion.Account.{is_acted_on, owned_execution, count_account_deletion_plan}

-- One line of a plan: what becomes of a row. The text of a line joins these with its kind.
pub data Line : Type 0 where
  source_line : ℕ → Line
  signal_delete : ℕ → Line
  signal_recompute : ℕ → List String → Line
  proposal_delete : ℕ → Line
  proposal_minimise : ℕ → Line
  proposal_preserve : ℕ → Line
  proposal_recompute : ℕ → Line
  execution_minimise : ℕ → Line

-- The lines that a fingerprint is made of: the policy version, the type, the scope and the snapshot,
-- then the rows.
pub record Plan : Type 0 where
  pub policy : String
  pub type : DeletionOperationType
  pub scope : ScopeKey
  pub cutoff : ℕ
  pub lines : List Line

abbrev pub plan_policy_version : String
plan_policy_version = "1"

-- `sorted` on texts, which Python compares by code points.
abbrev pub code_leb : List ℕ → List ℕ → Bool
code_leb [] ys = true
code_leb (x ∷ xs) [] = false
code_leb (x ∷ xs) (y ∷ ys) = ltb x y || (x == y && code_leb xs ys)

abbrev pub insert_text : String → List String → List String
insert_text s [] = s ∷ []
insert_text s (t ∷ ts) =
    let rest = insert_text s ts in if code_leb (codes s) (codes t) then s ∷ t ∷ ts else t ∷ rest

abbrev pub sorted : List String → List String
sorted [] = []
sorted (s ∷ ss) = insert_text s (sorted ss)

-- The tables are in the order of their keys, so the sorted ids are those of the rows in turn.
unfoldable pub imported_data_disposition_lines : ℕ → (SourceItem → Bool) → Tables → List Line
imported_data_disposition_lines user_id scope t =
    let removed = external_ids scope t.source_items in
    let surviving = surviving_external_ids user_id removed t.source_items in
    let (deletes, recompute) = classify_signals user_id removed surviving t.signals in
    let d = classify_proposals user_id removed surviving t.executions t.proposals in
    map (λ s. source_line s.id) (select scope t.source_items)
    ++ map signal_delete deletes
    ++ map (λ r. signal_recompute r.0 (sorted r.1)) recompute
    ++ map proposal_delete d.delete_ids
    ++ map proposal_minimise d.minimise_ids
    ++ map proposal_preserve d.preserve_uncertain_ids
    ++ map proposal_recompute d.recompute_ids

unfoldable pub account_disposition_lines : ℕ → Tables → List Line
account_disposition_lines user_id t =
    map
      (λ p. if is_acted_on t.executions p.id then proposal_minimise p.id else proposal_delete p.id)
      (select (λ p. p.user_id == user_id) t.proposals)
    ++ map (λ e. execution_minimise e.id)
        (select (owned_execution user_id t.proposals) t.executions)

abbrev pub imported_lines_of : Option ℕ → DataDeletionOperation → Tables → List Line
imported_lines_of none o t = []
imported_lines_of (some account) o t =
    imported_data_disposition_lines o.user_id (imported_scope o.user_id account o.snapshot_cutoff) t

abbrev pub lines_of : DeletionOperationType → DataDeletionOperation → Tables → List Line
lines_of imported_data o t = imported_lines_of o.source_account_id o t
lines_of account_deletion o t = account_disposition_lines o.user_id t
lines_of retention o t = []

-- The plan of an operation over the tables as they are.
unfoldable pub plan_of : DataDeletionOperation → Tables → Plan
plan_of o t = record {
  policy = plan_policy_version;
  type = o.operation_type;
  scope = o.scope_key;
  cutoff = o.snapshot_cutoff;
  lines = lines_of o.operation_type o t;
}

-- `digest` is `hash_lines` of a plan's texts, and `audit_events` counts the events of a user.
module _ (digest : Plan → String) (audit_events : ℕ → ℕ) (now ttl_minutes : ℕ) where
  abbrev pub compute_plan_fingerprint : DataDeletionOperation → Tables → String
  compute_plan_fingerprint o t = digest (plan_of o t)

  abbrev pub expiry : ℕ
  expiry = now + ttl_minutes * 60000000

  -- The counts of a plan: what is deleted, and what is preserved.
  abbrev pub imported_counts_of : Option ℕ → DataDeletionOperation → Tables → Counts × Counts
  imported_counts_of none o t = (o.preview_counts, o.preserved_counts)
  imported_counts_of (some account) o t =
      let p =
        count_imported_data_plan o.user_id (imported_scope o.user_id account o.snapshot_cutoff) t in
      (p.plan_preview_counts, p.plan_preserved_counts)

  abbrev pub plan_counts : DeletionOperationType → DataDeletionOperation → Tables → Counts × Counts
  plan_counts imported_data o t = imported_counts_of o.source_account_id o t
  plan_counts account_deletion o t =
      let p = count_account_deletion_plan o.user_id (audit_events o.user_id) t in
      (p.account_preview_counts, p.account_preserved_counts)
  plan_counts retention o t = (o.preview_counts, o.preserved_counts)

  -- A preview, with the counts and the fingerprint of the tables.
  abbrev pub planned : Tables → DataDeletionOperation → DataDeletionOperation
  planned t o =
      let (preview, preserved) = plan_counts o.operation_type o t in
      record o {
        preview_counts = preview;
        preserved_counts = preserved;
        plan_policy_version = some plan_policy_version;
        plan_fingerprint = some (compute_plan_fingerprint o t);
        preview_expires_at = some expiry;
      }

  abbrev pub plan_changed : DataDeletionOperation → Tables → Bool
  plan_changed o t =
      not (o.plan_policy_version == some plan_policy_version)
      || not (o.plan_fingerprint == some (compute_plan_fingerprint o t))

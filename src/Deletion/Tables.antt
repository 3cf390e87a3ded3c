-- ===== src/Deletion/Tables.antt =====
-- The rows of models.py that a deletion reads or removes, and the sets that deletion_planner.py
-- makes of them. A table is a list in the order of its primary key.
use lifeflow.Prelude.{
  ℕ, Bool, ◌&&◌, not, String, List, [], ◌∷◌, Option, none, some, map, select, any, contains, leb,
  ◌==◌, string_eq, nat_eq, option_eq, if◌then◌else◌,
}
use lifeflow.Models.{ExecutionOutcome}
use lifeflow.Records.{SourceItem, ActionProposal, ActionExecution}
use lifeflow.Schedule.Run.{ScheduledBriefRun}
use lifeflow.Deletion.Operation.{UserAccountState, DataDeletionOperation}

pub data MemoryStatus : Type 0 where
  candidate confirmed dismissed expired : MemoryStatus

pub record Signal : Type 0 where
  pub id : ℕ
  pub user_id : ℕ
  pub evidence_refs : List String

pub record StoredBrief : Type 0 where
  pub id : ℕ
  pub user_id : ℕ
  pub generated_at : ℕ

pub record MemoryItem : Type 0 where
  pub id : ℕ
  pub user_id : ℕ
  pub status : MemoryStatus
  pub updated_at : ℕ

pub record MemoryEvidence : Type 0 where
  pub id : ℕ
  pub user_id : ℕ
  pub memory_item_id : ℕ
  pub source_proposal_id : Option ℕ

-- `User`, with the columns that a deletion of the account erases.
pub record User : Type 0 where
  pub id : ℕ
  pub email : String
  pub display_name : String
  pub google_subject : Option String
  pub timezone : String
  pub locale : String
  pub account_state : UserAccountState
  pub deletion_subject_id : Option ℕ
  pub deleted_at : Option ℕ

-- `ConnectedAccount`, with the token that a revocation needs.
pub record LinkedAccount : Type 0 where
  pub id : ℕ
  pub user_id : ℕ
  pub encrypted_refresh_token : Option String

pub record Preference : Type 0 where
  pub id : ℕ
  pub user_id : ℕ

pub record Memory : Type 0 where
  pub items : List MemoryItem
  pub evidence : List MemoryEvidence

pub record Tables : Type 0 where
  pub source_items : List SourceItem
  pub signals : List Signal
  pub proposals : List ActionProposal
  pub executions : List ActionExecution
  pub briefs : List StoredBrief
  pub runs : List ScheduledBriefRun
  pub memory : Memory
  pub preferences : List Preference
  pub users : List User
  pub connected_accounts : List LinkedAccount
  pub operations : List DataDeletionOperation

-- `set(xs)`
abbrev pub as_set : List String → List String
as_set [] = []
as_set (x ∷ xs) = let rest = as_set xs in if contains xs x then rest else x ∷ rest

-- `set(refs) & removed` is not empty.
abbrev pub meets : List String → List String → Bool
meets refs removed = any (contains removed) refs

-- `[r for r in refs if r in surviving]`
abbrev pub survivors : List String → List String → List String
survivors surviving refs = select (contains surviving) refs

-- The scope of imported data: one account, imported at or before the snapshot.
unfoldable pub imported_scope : ℕ → ℕ → ℕ → SourceItem → Bool
imported_scope user_id account cutoff s =
    s.user_id == user_id && s.source_account_id == some account && leb s.created_at cutoff

-- The scope of retention: imported at or before the horizon.
unfoldable pub expired_scope : ℕ → ℕ → SourceItem → Bool
expired_scope user_id cutoff s = s.user_id == user_id && leb s.created_at cutoff

abbrev pub external_ids : (SourceItem → Bool) → List SourceItem → List String
external_ids scope items = map (λ s. s.external_id) (select scope items)

-- `_surviving_external_ids`
abbrev pub surviving_external_ids : ℕ → List String → List SourceItem → List String
surviving_external_ids user_id removed items =
    select (λ r. not (contains removed r)) (external_ids (λ s. s.user_id == user_id) items)

-- `select(ActionExecution.outcome).where(ActionExecution.proposal_id == id)`; the column is unique.
abbrev pub outcome_of : ℕ → List ActionExecution → Option ExecutionOutcome
outcome_of id [] = none
outcome_of id (e ∷ es) = if e.proposal_id == id then some e.outcome else outcome_of id es

-- `ON DELETE SET NULL`: a reference to one of the deleted rows.
abbrev pub forget : List ℕ → Option ℕ → Option ℕ
forget ids none = none
forget ids (some id) = if contains ids id then none else some id

-- The rows that refer to deleted briefs.
abbrev pub without_brief : List ℕ → ActionProposal → ActionProposal
without_brief ids p = record p { origin_brief_id = forget ids p.origin_brief_id }

abbrev pub without_result : List ℕ → ScheduledBriefRun → ScheduledBriefRun
without_result ids r = record r { brief_id = forget ids r.brief_id }

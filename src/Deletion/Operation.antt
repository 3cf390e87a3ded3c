-- ===== src/Deletion/Operation.antt =====
-- deletion_ops.py and the row `DataDeletionOperation` of models.py, with its counts and its events.
use lifeflow.Prelude.{
  ℕ, ◌+◌, Bool, true, false, ◌&&◌, String, List, [], ◌∷◌, Option, none, some, find?, map, ltb, ◌==◌,
  nat_eq, string_eq, Eq, if◌then◌else◌,
}

pub data UserAccountState : Type 0 where
  active deletion_pending deleted : UserAccountState

pub data DeletionOperationType : Type 0 where
  imported_data retention account_deletion : DeletionOperationType

pub data DeletionRequesterType : Type 0 where
  user system : DeletionRequesterType

pub data DeletionOperationState : Type 0 where
  previewed pending running succeeded partially_failed failed cancelled : DeletionOperationState

pub data DeletionConfirmationKind : Type 0 where
  delete_imported_data delete_account : DeletionConfirmationKind

-- `scope_key`: the texts `account:…`, `account` and `retention:…`.
pub data ScopeKey : Type 0 where
  account_key : ℕ → ScopeKey
  whole_account : ScopeKey
  retention_key : ℕ → ScopeKey

DeletionOperationType-discrete : Discrete DeletionOperationType
DeletionOperationType-discrete = hlevel

ScopeKey-discrete : Discrete ScopeKey
unfolding nat_eq
ScopeKey-discrete = hlevel (nat_eq.dec)

instance unfoldable pub operation_type_eq : Eq DeletionOperationType
unfolding DeletionOperationType-discrete
operation_type_eq = record { dec = DeletionOperationType-discrete }

instance unfoldable pub scope_key_eq : Eq ScopeKey
unfolding ScopeKey-discrete
scope_key_eq = record { dec = ScopeKey-discrete }

-- The phases that `resume_cursor_json` names.
pub data Phase : Type 0 where
  derived sources credentials product minimise finalise done : Phase

-- `resume_cursor_json`: `{}` has no phase.
pub record Cursor : Type 0 where
  pub phase : Option Phase
  pub provider_revoke_failed : Bool

abbrev pub empty_cursor : Cursor
empty_cursor = record { phase = none; provider_revoke_failed = false }

-- `Counts`: a count for a category, in the order of first use. `to_json` sorts the keys of an
-- object, which no code reads in order.
abbrev pub Counts : Type 0
Counts = List (String × ℕ)

abbrev pub increase : String → ℕ → Counts → Counts
increase key n [] = (key, n) ∷ []
increase key n ((k, m) ∷ counts) =
    let rest = increase key n counts in if k == key then (k, m + n) ∷ counts else (k, m) ∷ rest

-- `Counts.add`
abbrev pub add : String → ℕ → Counts → Counts
add key n counts = if n == 0 then counts else increase key n counts

-- `values.get(key, 0)`
abbrev pub count_of : String → Counts → ℕ
count_of key [] = 0
count_of key ((k, m) ∷ counts) = if k == key then m else count_of key counts

abbrev pub total : Counts → ℕ
total [] = 0
total ((_, n) ∷ counts) = n + total counts

abbrev pub max_safe_aggregate_count : ℕ
max_safe_aggregate_count = 1000000

-- `_sum_safe_counts`, on counts: a number that is not negative for each category.
unfoldable pub sum_safe_counts : Counts → Option ℕ
sum_safe_counts [] = none
sum_safe_counts (c ∷ counts) =
    let n = total (c ∷ counts) in if ltb max_safe_aggregate_count n then none else some n

pub record DataDeletionOperation : Type 0 where
  pub id : ℕ
  pub user_id : ℕ
  pub operation_type : DeletionOperationType
  pub requester_type : DeletionRequesterType
  pub source_account_id : Option ℕ
  pub scope_key : ScopeKey
  pub snapshot_cutoff : ℕ
  pub state : DeletionOperationState
  pub typed_confirmation_kind : Option DeletionConfirmationKind
  pub preview_counts : Counts
  pub preserved_counts : Counts
  pub deleted_counts : Counts
  pub plan_fingerprint : Option String
  pub plan_policy_version : Option String
  pub resume_cursor : Cursor
  pub attempt_count : ℕ
  pub preview_expires_at : Option ℕ
  pub enqueued_at : Option ℕ
  pub started_at : Option ℕ
  pub heartbeat_at : Option ℕ
  pub completed_at : Option ℕ
  pub cancellation_requested_at : Option ℕ
  pub safe_error_code : Option String
  pub safe_error_message : Option String
  pub version : ℕ

abbrev pub is_previewed : DeletionOperationState → Bool
is_previewed DeletionOperationState.previewed = true
is_previewed _ = false

abbrev pub is_pending : DeletionOperationState → Bool
is_pending DeletionOperationState.pending = true
is_pending _ = false

abbrev pub is_running : DeletionOperationState → Bool
is_running DeletionOperationState.running = true
is_running _ = false

-- CANCELLABLE_DELETION_STATES
abbrev pub is_cancellable : DeletionOperationState → Bool
is_cancellable DeletionOperationState.previewed = true
is_cancellable DeletionOperationState.pending = true
is_cancellable _ = false

-- ACTIVE_DELETION_STATES
abbrev pub is_live : DeletionOperationState → Bool
is_live DeletionOperationState.previewed = true
is_live DeletionOperationState.pending = true
is_live DeletionOperationState.running = true
is_live _ = false

-- TERMINAL_DELETION_STATES
abbrev pub is_terminal : DeletionOperationState → Bool
is_terminal DeletionOperationState.succeeded = true
is_terminal DeletionOperationState.partially_failed = true
is_terminal DeletionOperationState.failed = true
is_terminal DeletionOperationState.cancelled = true
is_terminal _ = false

abbrev pub phrase_for : DeletionConfirmationKind → String
phrase_for delete_imported_data = "DELETE IMPORTED DATA"
phrase_for delete_account = "DELETE MY LIFEFLOW ACCOUNT"

unfoldable pub expected_phrase : Option DeletionConfirmationKind → Option String
expected_phrase none = none
expected_phrase (some kind) = some (phrase_for kind)

-- `none` is a ValueError.
unfoldable pub scope_key_for : DeletionOperationType → Option ℕ → Option ℕ → Option ScopeKey
scope_key_for imported_data none bucket = none
scope_key_for imported_data (some account) bucket = some (account_key account)
scope_key_for account_deletion account bucket = some whole_account
scope_key_for retention account none = none
scope_key_for retention account (some bucket) = some (retention_key bucket)

abbrev pub same_scope : ℕ → DeletionOperationType → ScopeKey → DataDeletionOperation → Bool
same_scope user_id type key o =
    o.user_id == user_id && o.operation_type == type && o.scope_key == key && is_live o.state

-- DataDeletionOperationRepository
unfoldable pub get : ℕ → ℕ → List DataDeletionOperation → Option DataDeletionOperation
get user_id id operations = find? (λ o. o.id == id && o.user_id == user_id) operations

unfoldable pub get_active :
    ℕ → DeletionOperationType → ScopeKey → List DataDeletionOperation → Option DataDeletionOperation
get_active user_id type key operations = find? (same_scope user_id type key) operations

-- A changed row is written under its primary key.
abbrev pub put : DataDeletionOperation → List DataDeletionOperation → List DataDeletionOperation
put o operations = map (λ x. if x.id == o.id then o else x) operations

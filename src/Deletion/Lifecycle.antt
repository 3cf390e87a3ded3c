-- ===== src/Deletion/Lifecycle.antt =====
-- deletion.py: the previews, their confirmation and their cancellation.
use lifeflow.Prelude.{
  ℕ, ◌+◌, Bool, true, false, ◌||◌, not, String, List, [], ◌∷◌, ◌++◌, Option, none, some, map, find?,
  contains, ltb, ◌==◌, nat_eq, string_eq, option_eq, if◌then◌else◌,
}
use lifeflow.Deletion.Operation.{
  UserAccountState, DeletionOperationType, imported_data, retention, account_deletion,
  operation_type_eq, DeletionRequesterType, DeletionOperationState, delete_imported_data,
  delete_account, ScopeKey, account_key, whole_account, Counts, empty_cursor, DataDeletionOperation,
  is_pending, is_running, is_terminal, is_cancellable, expected_phrase, get, get_active, put,
  sum_safe_counts,
}
use lifeflow.Deletion.Tables.{LinkedAccount, Tables}
use lifeflow.Deletion.Plans.{Plan, planned, plan_changed}

-- AuditEvent about an operation.
pub record DeletionEvent : Type 0 where
  pub user_id : ℕ
  pub by_user : Bool
  pub event_type : DeletionOperationType × String
  pub entity_id : ℕ
  pub state : DeletionOperationState
  pub error_code : Option String
  pub deleted_count : Option ℕ
  pub preserved_count : Option ℕ

pub record Store : Type 0 where
  pub tables : Tables
  pub audit : List DeletionEvent

pub data DeletionError : Type 0 where
  not_found invalid_state preview_expired stale_version invalid_confirmation preview_changed :
      DeletionError

pub data Reply : Type 0 where
  replied : DataDeletionOperation → Reply
  refused : DeletionError → Reply

-- _TERMINAL_COUNT_SUFFIXES
abbrev pub with_counts : String → Bool
with_counts suffix = contains ("completed" ∷ "partially_failed" ∷ "failed" ∷ []) suffix

-- `safe_aggregate_counts`, a total where the suffix has one
unfoldable pub safe_total : String → Counts → Option ℕ
unfolding sum_safe_counts
safe_total suffix counts = if with_counts suffix then sum_safe_counts counts else none

-- `_audit`
abbrev pub audit : String → Bool → DataDeletionOperation → List DeletionEvent → List DeletionEvent
audit suffix by_user o events =
    events
    ++ (record {
      user_id = o.user_id;
      by_user = by_user;
      event_type = (o.operation_type, suffix);
      entity_id = o.id;
      state = o.state;
      error_code = o.safe_error_code;
      deleted_count = safe_total suffix o.deleted_counts;
      preserved_count = safe_total suffix o.preserved_counts;
    }
        ∷ [])

abbrev pub store_operation : String → Bool → DataDeletionOperation → Store → Store
store_operation suffix by_user o db = record {
  tables = record db.tables { operations = put o db.tables.operations };
  audit = audit suffix by_user o db.audit;
}

abbrev pub blank : ℕ → ℕ → ℕ → DeletionOperationType → Option ℕ → ScopeKey → DataDeletionOperation
blank now new_id user_id type account key = record {
  id = new_id;
  user_id = user_id;
  operation_type = type;
  requester_type = DeletionRequesterType.user;
  source_account_id = account;
  scope_key = key;
  snapshot_cutoff = now;
  state = DeletionOperationState.previewed;
  typed_confirmation_kind = elim type [
    | imported_data ↦ some delete_imported_data
    | account_deletion ↦ some delete_account
    | retention ↦ none
  ];
  preview_counts = [];
  preserved_counts = [];
  deleted_counts = [];
  plan_fingerprint = none;
  plan_policy_version = none;
  resume_cursor = empty_cursor;
  attempt_count = 0;
  preview_expires_at = none;
  enqueued_at = none;
  started_at = none;
  heartbeat_at = none;
  completed_at = none;
  cancellation_requested_at = none;
  safe_error_code = none;
  safe_error_message = none;
  version = 1;
}

-- `user.account_state = …` for a deletion of the account.
abbrev pub set_account_state : DeletionOperationType → UserAccountState → ℕ → Tables → Tables
set_account_state account_deletion state user_id t = record t {
  users = map (λ u. if u.id == user_id then record u { account_state = state } else u) t.users;
}
set_account_state _ state user_id t = t

abbrev pub confirmed : DataDeletionOperation → DataDeletionOperation
confirmed o = record o { state = DeletionOperationState.pending; version = o.version + 1 }

abbrev pub expired_at : ℕ → Option ℕ → Bool
expired_at now none = false
expired_at now (some at) = ltb at now

abbrev pub cancelled_row : ℕ → DataDeletionOperation → DataDeletionOperation
cancelled_row now o = record o {
  state = DeletionOperationState.cancelled;
  cancellation_requested_at = some now;
  completed_at = some now;
  version = o.version + 1;
}

-- `digest`, `audit_events`, the clock and the life of a preview are as in Plans.
module _ (digest : Plan → String) (audit_events : ℕ → ℕ) (now ttl_minutes : ℕ) where
  module _ (new_id user_id : ℕ) where
    -- The active operation of the scope, or else a new preview.
    abbrev pub reuse_or_create :
        Option DataDeletionOperation
        → DeletionOperationType
        → Option ℕ
        → ScopeKey
        → Store
        → Reply × Store
    reuse_or_create (some o) type account key db = (replied o, db)
    reuse_or_create none type account key db =
        let o =
          planned digest audit_events now ttl_minutes db.tables
            (blank now new_id user_id type account key) in
        (
          replied o,
          record {
            tables = record db.tables { operations = o ∷ db.tables.operations };
            audit = audit "previewed" true o db.audit;
          },
        )

    abbrev pub preview_for : DeletionOperationType → Option ℕ → ScopeKey → Store → Reply × Store
    preview_for type account key db =
        reuse_or_create (get_active user_id type key db.tables.operations) type account key db

    abbrev pub imported_preview_of : Option LinkedAccount → ℕ → Store → Reply × Store
    imported_preview_of none account db = (refused not_found, db)
    imported_preview_of (some a) account db =
        if a.user_id == user_id
        then preview_for imported_data (some account) (account_key account) db
        else (refused not_found, db)

    unfoldable pub create_imported_data_preview : ℕ → Store → Reply × Store
    create_imported_data_preview account db =
        imported_preview_of (find? (λ a. a.id == account) db.tables.connected_accounts) account db

    unfoldable pub create_account_deletion_preview : Store → Reply × Store
    create_account_deletion_preview db = preview_for account_deletion none whole_account db

  -- `_refresh_preview`
  abbrev pub refreshed : Tables → DataDeletionOperation → DataDeletionOperation
  refreshed t o = record (planned digest audit_events now ttl_minutes t o) {
    version = o.version + 1;
  }

  module _ (user_id expected_version : ℕ) (phrase : String) where
    -- On the locked row.
    unfoldable pub confirm_row : DataDeletionOperation → Store → Reply × Store
    confirm_row o db =
        if is_pending o.state || is_running o.state
        then (replied o, db)
        else if is_terminal o.state
        then (refused invalid_state, db)
        else if expired_at now o.preview_expires_at
        then (refused preview_expired, db)
        else if not (o.version == expected_version)
        then (refused stale_version, db)
        else if not (expected_phrase o.typed_confirmation_kind == some phrase)
        then (refused invalid_confirmation, db)
        else if plan_changed digest audit_events now ttl_minutes o db.tables
        then (refused preview_changed, store_operation "previewed" true (refreshed db.tables o) db)
        else (
          replied (confirmed o),
          store_operation "requested" true (confirmed o) (record db {
            tables =
                set_account_state o.operation_type UserAccountState.deletion_pending user_id
                  db.tables;
          }),
        )

    abbrev pub confirm_of : Option DataDeletionOperation → Store → Reply × Store
    confirm_of none db = (refused not_found, db)
    confirm_of (some o) db = confirm_row o db

    unfoldable pub confirm_operation : ℕ → Store → Reply × Store
    confirm_operation id db = confirm_of (get user_id id db.tables.operations) db

  module _ (user_id : ℕ) where
    abbrev pub cancel_row : DataDeletionOperation → Store → Reply × Store
    cancel_row o db =
        if is_cancellable o.state
        then (
          replied (cancelled_row now o),
          store_operation "cancelled" true (cancelled_row now o) (record db {
            tables = set_account_state o.operation_type UserAccountState.active user_id db.tables;
          }),
        )
        else (refused invalid_state, db)

    abbrev pub cancel_of : Option DataDeletionOperation → Store → Reply × Store
    cancel_of none db = (refused not_found, db)
    cancel_of (some o) db = cancel_row o db

    unfoldable pub cancel_operation : ℕ → Store → Reply × Store
    cancel_operation id db = cancel_of (get user_id id db.tables.operations) db

-- ===== src/Deletion/Slots.antt =====
-- The partial unique index of `data_deletion_operations`, and the previews and the scan of deletion.py
-- and retention.py that fill its slots.
use lifeflow.Prelude.{
  ℕ, suc, ◌≤◌, Bool, true, false, ◌≡◌, refl, sym, ap, ◌∙◌, String, List, [], ◌∷◌, Option, none,
  some, arith, ◌==◌, ==→≡, nat_eq, if◌then◌else◌, if-cases,
}
use lifeflow.Records.{SourceItem}
use lifeflow.Deletion.Operation.{
  DeletionOperationType, imported_data, retention, account_deletion, operation_type_eq,
  scope_key_eq, ScopeKey, account_key, whole_account, DataDeletionOperation, retention_key,
  same_scope, get_active,
}
use lifeflow.Deletion.Tables.{LinkedAccount}
use lifeflow.Deletion.Retention.{
  RetentionHorizons, RetentionScan, bucket_of, cutoff, retention_operation, scan_user, scan_users,
  users_with_expired_data, scan_and_create_retention_operations,
}
use lifeflow.Deletion.Plans.{Plan, planned}
use lifeflow.Deletion.Lifecycle.{
  Store, Reply, blank, reuse_or_create, imported_preview_of, create_imported_data_preview,
  create_account_deletion_preview,
}

-- The active operations of a scope.
abbrev pub active_in : ℕ → DeletionOperationType → ScopeKey → List DataDeletionOperation → ℕ
active_in user_id type key [] = 0
active_in user_id type key (o ∷ os) =
    let rest = active_in user_id type key os in
    if same_scope user_id type key o then suc rest else rest

abbrev pub OneActive : List DataDeletionOperation → Type 0
OneActive os =
    (user_id : ℕ) (type : DeletionOperationType) (key : ScopeKey)
    → active_in user_id type key os ≤ 1

abbrev pub AnswerOneActive : Reply × Store → Type 0
AnswerOneActive (reply, db) = OneActive db.tables.operations

get_active-none :
    (user_id : ℕ) (type : DeletionOperationType) (key : ScopeKey) (os : List DataDeletionOperation)
    → get_active user_id type key os ≡ none
    → active_in user_id type key os ≡ 0
unfolding get_active
get_active-none user_id type key [] h = refl
get_active-none user_id type key (o ∷ os) h = ground (arith, get_active-none user_id type key os)

-- A new operation whose own slot is free.
add-OneActive :
    (o : DataDeletionOperation) (os : List DataDeletionOperation)
    → active_in o.user_id o.operation_type o.scope_key os ≡ 0
    → OneActive os
    → OneActive (o ∷ os)
add-OneActive o os free one u t k =
    if-cases (λ n. n ≤ 1) (same_scope u t k o)
      (λ h.
        let users = ==→≡ o.user_id u (ground arith) in
        let types = ==→≡ o.operation_type t (ground arith) in
        let keys = ==→≡ o.scope_key k (ground arith) in
        let none_here : active_in u t k os ≡ 0 =
          sym (
            ap (λ x. active_in x o.operation_type o.scope_key os) users
            ∙ ap (λ x. active_in u x o.scope_key os) types
            ∙ ap (λ x. active_in u t x os) keys)
          ∙ free in
        omega (arith, none_here))
      (λ _. one u t k)

module _ (digest : Plan → String) (audit_events : ℕ → ℕ) (now ttl new_id user_id : ℕ) where
  reuse_or_create-OneActive :
      (o : Option DataDeletionOperation) (type : DeletionOperationType) (account : Option ℕ)
      (key : ScopeKey) (db : Store)
      → get_active user_id type key db.tables.operations ≡ o
      → OneActive db.tables.operations
      → AnswerOneActive
          (reuse_or_create digest audit_events now ttl new_id user_id o type account key db)
  reuse_or_create-OneActive (some o) type account key db h one = one
  reuse_or_create-OneActive none type account key db h one =
      add-OneActive
        (planned digest audit_events now ttl db.tables (blank now new_id user_id type account key))
        db.tables.operations (get_active-none user_id type key db.tables.operations h) one

  imported_preview_of-OneActive :
      (o : Option LinkedAccount) (account : ℕ) (db : Store)
      → OneActive db.tables.operations
      → AnswerOneActive
          (imported_preview_of digest audit_events now ttl new_id user_id o account db)
  imported_preview_of-OneActive none account db one = one
  imported_preview_of-OneActive (some a) account db one =
      if-cases AnswerOneActive (a.user_id == user_id)
        (λ _.
          reuse_or_create-OneActive _ imported_data (some account) (account_key account) db refl
            one)
        (λ _. one)

  create_preview-OneActive :
      (db : Store)
      → OneActive db.tables.operations
      → ((account : ℕ)
          → AnswerOneActive
              (create_imported_data_preview digest audit_events now ttl new_id user_id account db))
        × AnswerOneActive
            (create_account_deletion_preview digest audit_events now ttl new_id user_id db)
  unfolding create_imported_data_preview create_account_deletion_preview
  create_preview-OneActive db one = (
    λ account. imported_preview_of-OneActive _ account db one,
    reuse_or_create-OneActive _ account_deletion none whole_account db refl one,
  )

module _ (now : ℕ) (new_id : ℕ → ℕ) (elsewhere : ℕ → Bool) where
  scan_user-OneActive :
      (o : Option DataDeletionOperation) (taken : Bool) (user_id : ℕ) (s : RetentionScan)
      → get_active user_id retention (retention_key (bucket_of now)) s.operations ≡ o
      → OneActive s.operations
      → OneActive (scan_user now new_id elsewhere o taken user_id s).operations
  scan_user-OneActive (some o) taken user_id s h one = one
  scan_user-OneActive none true user_id s h one = one
  scan_user-OneActive none false user_id s h one =
      add-OneActive (retention_operation now new_id user_id) s.operations
        (get_active-none user_id retention (retention_key (bucket_of now)) s.operations h) one

  scan_users-OneActive :
      (ids : List ℕ) (s : RetentionScan)
      → OneActive s.operations
      → OneActive (scan_users now new_id elsewhere ids s).operations
  scan_users-OneActive [] s one = one
  scan_users-OneActive (u ∷ ids) s one =
      scan_users-OneActive ids _ (scan_user-OneActive _ (elsewhere u) u s refl one)

  scan-OneActive :
      (h : RetentionHorizons) (max_operations : ℕ) (items : List SourceItem)
      (os : List DataDeletionOperation)
      → OneActive os
      → let s =
          scan_and_create_retention_operations now new_id elsewhere h max_operations items os in
        OneActive s.operations
  unfolding scan_and_create_retention_operations
  scan-OneActive h max_operations items os one =
      scan_users-OneActive
        (users_with_expired_data max_operations (cutoff now h.source_items_days) items)
        (record { operations = os; created = 0; reused = 0; enqueue_ids = [] }) one

-- Nothing that creates an operation makes a second active one for a user, type and scope, if there is
-- at most one of each before: neither a request for a preview of imported data, nor one for a preview of
-- the account, nor a scan for expired data, on whatever day and however often.
pub creation-OneActive :
    (digest : Plan → String) (audit_events : ℕ → ℕ) (now ttl new_id user_id : ℕ) (db : Store)
    → OneActive db.tables.operations
    → ((account : ℕ)
        → AnswerOneActive
            (create_imported_data_preview digest audit_events now ttl new_id user_id account db))
      × AnswerOneActive
          (create_account_deletion_preview digest audit_events now ttl new_id user_id db)
      × ((new_ids : ℕ → ℕ) (elsewhere : ℕ → Bool) (h : RetentionHorizons) (max_operations : ℕ)
          → let s =
              scan_and_create_retention_operations now new_ids elsewhere h max_operations
                db.tables.source_items db.tables.operations in
            OneActive s.operations)
creation-OneActive digest audit_events now ttl new_id user_id db one =
    let (imports, account) =
      create_preview-OneActive digest audit_events now ttl new_id user_id db one in
    (
      imports,
      account,
      λ new_ids elsewhere h max_operations.
          scan-OneActive now new_ids elsewhere h max_operations db.tables.source_items
            db.tables.operations one,
    )

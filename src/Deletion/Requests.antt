-- ===== src/Deletion/Requests.antt =====
-- The rows of `data_deletion_operations` through the requests, the scans and the recovery.
use lifeflow.Prelude.{
  ℕ, ◌≤◌, Bool, true, false, not, ◌≡◌, String, List, [], ◌∷◌, Option, none, some, arith, ◌==◌,
  nat_eq, if-cases, ◌||◌, leb, string_eq, option_eq,
}
use lifeflow.Deletion.Operation.{
  UserAccountState, DeletionOperationType, imported_data, account_deletion, retention, ScopeKey,
  account_key, DataDeletionOperation, is_pending, is_running, is_terminal, is_cancellable,
  expected_phrase, get, put,
}
use lifeflow.Deletion.Tables.{LinkedAccount, Tables}
use lifeflow.Deletion.Retention.{RetentionScan, scan_user, scan_users}
use lifeflow.Deletion.Plans.{Plan, plan_changed}
use lifeflow.Deletion.Lifecycle.{
  Store, Reply, reuse_or_create, imported_preview_of, set_account_state, expired_at, confirm_row,
  confirm_of, cancel_of,
}
use lifeflow.Deletion.Worker.{
  Queue, is_stale, requeued, recover_row, never_enqueued, recover_stale_operations,
}
use lifeflow.Deletion.Rows.{All-map, find?-All}
use lifeflow.Deletion.Consistent.{
  IsConsistent, planned-IsConsistent, refreshed-IsConsistent, confirmed-IsConsistent,
  retention_operation-IsConsistent, cancelled_row-IsConsistent, enqueue_on-IsConsistent,
  given_up-IsConsistent, requeued-IsConsistent,
}
use lifeflow.Deletion.Sessions.{AllConsistent}
use lifeflow.Deletion.Steps.{recovered}

module _ (max_attempts : ℕ) (some_tries : 1 ≤ max_attempts) where
  abbrev pub Rows : List DataDeletionOperation → Type 0
  Rows = AllConsistent max_attempts some_tries

  abbrev pub StoreConsistent : Store → Type 0
  StoreConsistent db = Rows db.tables.operations

  pub put-Rows :
      (o : DataDeletionOperation) (os : List DataDeletionOperation)
      → IsConsistent max_attempts o
      → Rows os
      → Rows (put o os)
  put-Rows o os v a =
      All-map (IsConsistent max_attempts) _ _
        (λ x w. if-cases (IsConsistent max_attempts) (x.id == o.id) (λ _. v) (λ _. w)) os a

  set_account_state-Rows :
      (type : DeletionOperationType) (state : UserAccountState) (user_id : ℕ) (t : Tables)
      → Rows t.operations
      → Rows (set_account_state type state user_id t).operations
  set_account_state-Rows account_deletion state user_id t a = a
  set_account_state-Rows imported_data state user_id t a = a
  set_account_state-Rows retention state user_id t a = a

  module _ (digest : Plan → String) (audit_events : ℕ → ℕ) (now ttl : ℕ) where
    module _ (new_id user_id : ℕ) where
      pub reuse_or_create-Rows :
          (o : Option DataDeletionOperation) (type : DeletionOperationType) (account : Option ℕ)
          (key : ScopeKey) (db : Store)
          → StoreConsistent db
          → StoreConsistent
              (reuse_or_create digest audit_events now ttl new_id user_id o type account key db).1
      reuse_or_create-Rows none type account key db a = (
        planned-IsConsistent max_attempts some_tries digest audit_events now ttl db.tables new_id
            user_id type account key,
        a,
      )
      reuse_or_create-Rows (some o) type account key db a = a

      pub imported_preview_of-Rows :
          (o : Option LinkedAccount) (account : ℕ) (db : Store)
          → StoreConsistent db
          → StoreConsistent
              (imported_preview_of digest audit_events now ttl new_id user_id o account db).1
      imported_preview_of-Rows none account db v = v
      imported_preview_of-Rows (some a) account db v =
          if-cases (λ (s : Reply × Store). StoreConsistent s.1) (a.user_id == user_id)
            (λ _. reuse_or_create-Rows _ imported_data (some account) (account_key account) db v)
            (λ _. v)

    module _ (user_id version : ℕ) (phrase : String) where
      confirm_row-Rows :
          (o : DataDeletionOperation) (db : Store)
          → IsConsistent max_attempts o
          → StoreConsistent db
          → StoreConsistent (confirm_row digest audit_events now ttl user_id version phrase o db).1
      unfolding confirm_row
      confirm_row-Rows o db v a =
          let P : Reply × Store → Type 0 = λ s. StoreConsistent s.1 in
          if-cases P (is_pending o.state || is_running o.state) (λ _. a)
            λ not_open.
              if-cases P (is_terminal o.state) (λ _. a)
                λ not_ended.
                  if-cases P (expired_at now o.preview_expires_at) (λ _. a)
                    λ _.
                      if-cases P (not (o.version == version)) (λ _. a)
                        λ _.
                          if-cases P
                            (not (expected_phrase o.typed_confirmation_kind == some phrase))
                            (λ _. a)
                            λ _.
                              if-cases P (plan_changed digest audit_events now ttl o db.tables)
                                (λ _.
                                  put-Rows _ _
                                    (refreshed-IsConsistent max_attempts some_tries digest
                                      audit_events now ttl db.tables o v)
                                    a)
                                (λ _.
                                  put-Rows _ _
                                    (confirmed-IsConsistent max_attempts some_tries o (ground arith)
                                      v)
                                    (set_account_state-Rows o.operation_type _ user_id db.tables a))

      pub confirm_of-Rows :
          (o : Option DataDeletionOperation) (id : ℕ) (db : Store)
          → get user_id id db.tables.operations ≡ o
          → StoreConsistent db
          → StoreConsistent (confirm_of digest audit_events now ttl user_id version phrase o db).1
      unfolding get
      confirm_of-Rows none id db h a = a
      confirm_of-Rows (some o) id db h a =
          confirm_row-Rows o db (find?-All (IsConsistent max_attempts) _ _ a h).0 a

    pub cancel_of-Rows :
        (user_id : ℕ) (o : Option DataDeletionOperation) (id : ℕ) (db : Store)
        → get user_id id db.tables.operations ≡ o
        → StoreConsistent db
        → StoreConsistent (cancel_of digest audit_events now ttl user_id o db).1
    unfolding get
    cancel_of-Rows user_id none id db h a = a
    cancel_of-Rows user_id (some o) id db h a =
        if-cases (λ (s : Reply × Store). StoreConsistent s.1) (is_cancellable o.state)
          (λ _.
            put-Rows _ _
              (cancelled_row-IsConsistent max_attempts some_tries now o
                (find?-All (IsConsistent max_attempts) _ _ a h).0)
              (set_account_state-Rows o.operation_type _ user_id db.tables a))
          (λ _. a)

  scan_user-Rows :
      (now : ℕ) (new_id : ℕ → ℕ) (elsewhere : ℕ → Bool) (o : Option DataDeletionOperation)
      (taken : Bool) (user_id : ℕ) (s : RetentionScan)
      → Rows s.operations
      → Rows (scan_user now new_id elsewhere o taken user_id s).operations
  scan_user-Rows now new_id elsewhere (some o) taken user_id s a = a
  scan_user-Rows now new_id elsewhere none true user_id s a = a
  scan_user-Rows now new_id elsewhere none false user_id s a =
      (retention_operation-IsConsistent max_attempts some_tries now new_id user_id, a)

  pub scan_users-Rows :
      (now : ℕ) (new_id : ℕ → ℕ) (elsewhere : ℕ → Bool) (ids : List ℕ) (s : RetentionScan)
      → Rows s.operations
      → Rows (scan_users now new_id elsewhere ids s).operations
  scan_users-Rows now new_id elsewhere [] s a = a
  scan_users-Rows now new_id elsewhere (u ∷ ids) s a =
      scan_users-Rows now new_id elsewhere ids _
        (scan_user-Rows now new_id elsewhere _ (elsewhere u) u s a)

  module _ (now timeout : ℕ) where
    recover_row-IsConsistent :
        (redis : Option Queue) (o : DataDeletionOperation)
        → IsConsistent max_attempts o
        → IsConsistent max_attempts (recover_row now redis timeout max_attempts o)
    recover_row-IsConsistent redis o v =
        let C = IsConsistent max_attempts in
        if-cases C (is_stale now timeout o)
          (λ s.
            if-cases C (leb max_attempts o.attempt_count)
              (λ _. given_up-IsConsistent max_attempts some_tries now o v)
              (λ lt.
                enqueue_on-IsConsistent max_attempts some_tries now redis (requeued o) (
                  requeued-IsConsistent max_attempts some_tries o (ground arith) (ground arith) v)))
          (λ _. v)

    pub recovered-Rows :
        (redis later : Option Queue) (db : Store)
        → StoreConsistent db
        → StoreConsistent (recovered now timeout max_attempts redis later db)
    unfolding recover_stale_operations
    recovered-Rows redis later db a =
        let C = IsConsistent max_attempts in
        All-map C C _
          (λ o v.
            if-cases C (never_enqueued now redis o)
              (λ _. enqueue_on-IsConsistent max_attempts some_tries now later o v) (λ _. v))
          _ (All-map C C _ (recover_row-IsConsistent redis) db.tables.operations a)

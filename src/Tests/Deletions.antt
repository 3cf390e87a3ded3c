-- ===== src/Tests/Deletions.antt =====
-- A user with two imported messages, the signals and proposals that came from them, and deletions of
-- the messages and of the account.
use lifeflow.Prelude.{
  ℕ, Bool, true, false, ◌≡◌, refl, String, [], ◌∷◌, Option, none, some, arith, nat_eq, string_eq,
  option_eq, ◌⊎◌,
}
use lifeflow.Models.{ExecutionOutcome}
use lifeflow.Records.{SourceItem}
use lifeflow.Proposals.{Work, approve}
use lifeflow.Deletion.Operation.{
  UserAccountState, imported_data, account_deletion, operation_type_eq, scope_key_eq, account_key,
  whole_account, DataDeletionOperation, is_cancellable, expected_phrase,
}
use lifeflow.Deletion.Tables.{
  MemoryStatus, User, Memory, Tables, imported_scope, external_ids, outcome_of,
}
use lifeflow.Deletion.Planner.{
  signal_decisions, proposal_decisions, apply_derived_decisions, minimise_execution,
  run_derived_cleanup, minimise_proposal,
}
use lifeflow.Deletion.Batches.{Run, run_batches, run_imported_data_batch, committed}
use lifeflow.Deletion.Retention.{
  RetentionHorizons, retention_cleanup, scan_and_create_retention_operations,
}
use lifeflow.Deletion.Account.{run_account_deletion_step}
use lifeflow.Deletion.Plans.{Plan, planned}
use lifeflow.Deletion.Lifecycle.{
  Store, invalid_confirmation, preview_changed, blank, confirmed, confirm_row,
  create_account_deletion_preview, create_imported_data_preview, confirm_operation,
}
use lifeflow.Deletion.Worker.{Queue, Engine, claimed}
use lifeflow.Deletion.Histories.{Preserved}
use lifeflow.Deletion.Cleanup.{
  Supported, run_derived_cleanup-Supported, run_derived_cleanup-Preserved,
  run_derived_cleanup_twice,
}
use lifeflow.Deletion.Refinement.{one_stroke}
use lifeflow.Deletion.Resume.{resumed-one_stroke}
use lifeflow.Deletion.Confirmation.{confirm_row-Unspoilt}
use lifeflow.Deletion.Recovery.{RecoveredOnce, recovery-stale}
use lifeflow.Deletion.Slots.{AnswerOneActive, OneActive, creation-OneActive}
use lifeflow.Deletion.Retained.{has_row, retention_cleanup-unresolved}
use lifeflow.Deletion.Erasure.{Ends}
use lifeflow.Deletion.Departure.{run_batches-Erased}
use lifeflow.Deletion.Steps.{
  History, begins, continues, previews_account, confirms, recovers, recovered,
}
use lifeflow.Deletion.Requests.{StoreConsistent}
use lifeflow.Deletion.Upkeep.{History-StoreConsistent}
use lifeflow.Tests.Data.{displayed, boundary, account, message, proposal}
use lifeflow.Tests.Approvals.{attempt}

abbrev second : SourceItem
second = record message { id = 6; external_id = "mail-2"; created_at = 20 }

abbrev owner : User
owner = record {
  id = 1;
  email = "ann@example.com";
  display_name = "Ann";
  google_subject = some "g-1";
  timezone = "Europe/London";
  locale = "en-GB";
  account_state = UserAccountState.active;
  deletion_subject_id = none;
  deleted_at = none;
}

-- The first message's proposal has a pending execution; the second has none.
abbrev tables : Tables
tables = record {
  source_items = message ∷ second ∷ [];
  signals =
      record { id = 1; user_id = 1; evidence_refs = "mail-1" ∷ "mail-2" ∷ [] }
      ∷ record { id = 2; user_id = 1; evidence_refs = "task-3" ∷ [] }
      ∷ [];
  proposals = proposal ∷ record proposal { id = 8; source_refs = "mail-2" ∷ [] } ∷ [];
  executions = attempt ∷ [];
  briefs = record { id = 3; user_id = 1; generated_at = 5 } ∷ [];
  runs = [];
  memory = record { items = []; evidence = [] };
  preferences = [];
  users = owner ∷ [];
  connected_accounts = record { id = 9; user_id = 1; encrypted_refresh_token = some "token" } ∷ [];
  operations = [];
}

abbrev scope : SourceItem → Bool
scope = imported_scope 1 9 100

-- Stands for the digest of a plan's texts.
abbrev digest : Plan → String
digest p = "plan"

abbrev no_events : ℕ → ℕ
no_events user_id = 0

abbrev recompute : ℕ → Tables → Memory
recompute user_id t = t.memory

-- A recomputation that writes its clock into the memory.
abbrev recompute_at : ℕ → ℕ → Tables → Memory
recompute_at now user_id t = record t.memory {
  items =
      record { id = 90; user_id = user_id; status = MemoryStatus.candidate; updated_at = now } ∷ [];
}

-- The preview of the deletion of the messages, and the operation that a worker has claimed.
abbrev preview : DataDeletionOperation
preview =
    planned digest no_events 100 15 tables (blank 100 40 1 imported_data (some 9) (account_key 9))

abbrev session : Run
session = record { operation = claimed 200 (confirmed preview); tables = tables }

run_derived_cleanup-Supported_example :
    Supported 1 (external_ids scope tables.source_items) (run_derived_cleanup 1 scope tables []).0
run_derived_cleanup-Supported_example = run_derived_cleanup-Supported 1 scope tables []

run_derived_cleanup-Preserved_example : Preserved tables (run_derived_cleanup 1 scope tables []).0
run_derived_cleanup-Preserved_example = run_derived_cleanup-Preserved 1 scope tables []

run_derived_cleanup_twice_example :
    let t = (run_derived_cleanup 1 scope tables []).0 in run_derived_cleanup 1 scope t [] ≡ (t, [])
run_derived_cleanup_twice_example = run_derived_cleanup_twice 1 scope tables [] []

resumed-one_stroke_example :
    run_batches
      (run_imported_data_batch (recompute_at 400) 5)
      400
      4
      (committed (run_imported_data_batch (recompute_at 300) 1) 300 2 session)
    ≡ some (one_stroke (recompute_at 300) 9 400 session)
unfolding imported_scope nat_eq option_eq
resumed-one_stroke_example =
    resumed-one_stroke recompute_at 9 300 400 1 5 2 4 session (omega arith) (omega arith) refl
      ((refl, tt), (tt, tt)) (omega arith)

abbrev store : Store
store = record { tables = tables; audit = [] }

confirm_row-Unspoilt_example :
    ((confirm_row digest no_events 120 15 1 1 "delete" preview store).1 ≡ store)
    ⊎ (invalid_confirmation ≡ preview_changed)
unfolding nat_eq option_eq string_eq confirm_row expected_phrase
confirm_row-Unspoilt_example =
    confirm_row-Unspoilt digest no_events 120 15 1 1 "delete" preview store invalid_confirmation
      refl

-- An operation that was enqueued, claimed and left by its worker after a batch.
abbrev left : DataDeletionOperation
left = record session.operation { enqueued_at = some 150; deleted_counts = ("signals", 1) ∷ [] }

recovery-stale_example :
    let o' = RecoveredOnce 900 300 3 (some (λ _. false)) none left in
    ((is_cancellable o'.state ≡ true)
      × (o'.deleted_counts ≡ ("signals", 1) ∷ [])
      × (o'.resume_cursor ≡ left.resume_cursor))
    × ((now timeout max_attempts : ℕ) (redis later : Option Queue)
        → RecoveredOnce now timeout max_attempts redis later o' ≡ o')
recovery-stale_example =
    recovery-stale 900 300 3 (some (λ _. false)) none left refl (omega arith) refl refl

abbrev erased_work : Work
erased_work = record { proposal = minimise_proposal proposal; audit = [] }

-- Its approval is refused, and tried again.
abbrev denied_work : Work
denied_work = (approve 1 boundary 15 (account ∷ []) (message ∷ []) displayed erased_work).1

none_active : OneActive []
none_active user_id type key = omega arith

creation-OneActive_example :
    ((account : ℕ)
      → AnswerOneActive (create_imported_data_preview digest no_events 100 15 40 1 account store))
    × AnswerOneActive (create_account_deletion_preview digest no_events 100 15 40 1 store)
    × ((new_ids : ℕ → ℕ) (elsewhere : ℕ → Bool) (h : RetentionHorizons) (max_operations : ℕ)
        → let s =
            scan_and_create_retention_operations 100 new_ids elsewhere h max_operations
              (message ∷ second ∷ [])
              [] in
          OneActive s.operations)
creation-OneActive_example = creation-OneActive digest no_events 100 15 40 1 store none_active

abbrev horizons : RetentionHorizons
horizons = record {
  source_items_days = 0;
  brief_versions_days = 0;
  unapproved_proposals_days = 0;
  scheduled_runs_days = 0;
  memory_evidence_days = 0;
}

retention_cleanup-unresolved_example :
    let t = (retention_cleanup (λ _. 1) horizons 100 1 tables []).0 in
    (outcome_of 7 t.executions ≡ some ExecutionOutcome.pending) × (has_row 7 t.proposals ≡ true)
unfolding nat_eq
retention_cleanup-unresolved_example =
    retention_cleanup-unresolved (λ _. 1) horizons 100 1 tables [] 7 refl

abbrev leaving : Run
leaving = record {
  operation = claimed 200 (blank 100 41 1 account_deletion none whole_account);
  tables = tables;
}

run_batches-Erased_example :
    Ends 300 77 none 1
      (omega arith)
      (λ _. "deleted")
      owner
      (attempt ∷ [])
      (7 ∷ 8 ∷ [])
      (run_batches (run_account_deletion_step 300 77 none 1 (λ _. "deleted")) 300 6 leaving)
unfolding nat_eq
run_batches-Erased_example =
    run_batches-Erased 300 77 none 1 (omega arith) (λ _. "deleted") owner (attempt ∷ [])
      (7 ∷ 8 ∷ []) 6 leaving refl refl refl refl ((refl, tt), (tt, tt)) refl refl (omega arith)

abbrev engine : Engine
engine = record {
  horizons = horizons;
  batch_size = 1;
  revoker = none;
  recompute = λ _. recompute;
  created_at = λ _. 1;
  new_subject = 77;
  address = λ _. "deleted";
}

abbrev previewed_store : Store
previewed_store = (create_account_deletion_preview digest no_events 100 15 40 1 store).1

abbrev confirmed_store : Store
confirmed_store =
    (confirm_operation digest no_events 120 15 1 1 "DELETE MY LIFEFLOW ACCOUNT" 40
      previewed_store).1

abbrev recovered_store : Store
recovered_store = recovered 150 60 3 (some (λ _. true)) (some (λ _. true)) confirmed_store

abbrev history : History digest no_events engine 3 store recovered_store
history =
    continues
      (continues (continues begins (previews_account 100 15 40 1))
        (confirms 120 15 1 1 "DELETE MY LIFEFLOW ACCOUNT" 40))
      (recovers 150 60 (some (λ _. true)) (some (λ _. true)))

History-StoreConsistent_example : StoreConsistent 3 (omega arith) recovered_store
History-StoreConsistent_example =
    History-StoreConsistent 3 (omega arith) digest no_events engine store recovered_store history tt

-- The end of the deletion of the messages: nothing is imported, the second signal is left, the proposal
-- that was acted on is a tombstone and the other one is gone.
deletion_runs :
    let r = one_stroke recompute 9 300 session in
    (r.tables.source_items ≡ [])
    × (r.tables.signals ≡ record { id = 2; user_id = 1; evidence_refs = "task-3" ∷ [] } ∷ [])
    × (r.tables.proposals ≡ minimise_proposal proposal ∷ [])
    × (r.tables.executions ≡ minimise_execution attempt ∷ [])
    × (r.operation.deleted_counts
        ≡ ("signals", 1)
          ∷ ("preserved_pending_uncertain_executions", 1)
          ∷ ("action_proposals", 1)
          ∷ ("source_items", 2)
          ∷ [])
unfolding imported_scope nat_eq option_eq string_eq run_derived_cleanup apply_derived_decisions
    signal_decisions proposal_decisions
deletion_runs = (refl, refl, refl, refl, refl)

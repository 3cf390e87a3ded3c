-- ===== src/Deletion/Account.antt =====
-- account_deletion.py: the preview of an account's deletion and its phases.
use lifeflow.Prelude.{
  ℕ, ◌+◌, ◌-◌, Bool, true, false, ◌||◌, not, String, List, [], ◌∷◌, ◌++◌, Option, none, some, map,
  find?, select, contains, length, ◌==◌, nat_eq, string_eq, if◌then◌else◌,
}
use lifeflow.Models.{ExecutionOutcome}
use lifeflow.Records.{SourceItem, ActionProposal, ActionExecution}
use lifeflow.Deletion.Operation.{
  UserAccountState, Phase, credentials, product, minimise, finalise, done, Counts, add,
  DataDeletionOperation,
}
use lifeflow.Deletion.Tables.{
  forget, without_brief, without_result, User, LinkedAccount, Tables, outcome_of,
}
use lifeflow.Deletion.Planner.{minimise_rows, delete_proposals}
use lifeflow.Deletion.Batches.{Run, phase_or, delete_source_items_batch}

abbrev pub owned_count {ℓ} : {A : Type ℓ} → (A → Bool) → List A → ℕ
owned_count owned rows = length (select owned rows)

abbrev pub remove_owned {ℓ} : {A : Type ℓ} → String → (A → Bool) → List A → Counts → List A × Counts
remove_owned key owned rows counts =
    (select (λ r. not (owned r)) rows, add key (owned_count owned rows) counts)

abbrev pub is_acted_on : List ActionExecution → ℕ → Bool
is_acted_on es id = elim (outcome_of id es) [ none ↦ false | some _ ↦ true ]

module _ (user_id : ℕ) where
  abbrev pub owned_execution : List ActionProposal → ActionExecution → Bool
  owned_execution proposals e =
      contains (map (λ p. p.id) (select (λ p. p.user_id == user_id) proposals)) e.proposal_id

  pub record AccountDeletionPlan : Type 0 where
    pub account_preview_counts : Counts
    pub account_preserved_counts : Counts

  -- The number of audit events is an argument: their rows are not among the tables.
  unfoldable pub count_account_deletion_plan : ℕ → Tables → AccountDeletionPlan
  count_account_deletion_plan audit_events t =
      let mine = select (λ p. p.user_id == user_id) t.proposals in
      let with_execution = length (select (λ p. is_acted_on t.executions p.id) mine) in
      record {
        account_preview_counts = add "action_proposals" (length mine - with_execution) (
            add "connected_accounts" (owned_count (λ a. a.user_id == user_id) t.connected_accounts)
              (add "memory_evidence" (owned_count (λ m. m.user_id == user_id) t.memory.evidence) (
                add "memory_items" (owned_count (λ m. m.user_id == user_id) t.memory.items) (
                  add "preferences" (owned_count (λ p. p.user_id == user_id) t.preferences) (
                    add "scheduled_brief_runs" (owned_count (λ r. r.user_id == user_id) t.runs) (
                      add "briefs" (owned_count (λ b. b.user_id == user_id) t.briefs) (
                        add "signals" (owned_count (λ s. s.user_id == user_id) t.signals) (
                          add "source_items"
                            (owned_count (λ s. s.user_id == user_id) t.source_items) []))))))));
        account_preserved_counts = add "retained_audit_tombstones" audit_events (
            add "retained_execution_tombstones"
              (owned_count (owned_execution t.proposals) t.executions)
              (add "minimised_proposal_tombstones" with_execution []));
      }

abbrev pub is_deleted : UserAccountState → Bool
is_deleted UserAccountState.deleted = true
is_deleted _ = false

abbrev pub put_user : User → List User → List User
put_user u users = map (λ x. if x.id == u.id then u else x) users

-- `revoker`: whether the provider has revoked the account, where there is one to ask.
module _ (revoker : Option (LinkedAccount → Bool)) where
  abbrev pub asks : Option (LinkedAccount → Bool) → Option String → LinkedAccount → Option Bool
  asks none token a = none
  asks (some revoke) none a = none
  asks (some revoke) (some _) a = some (revoke a)

  abbrev pub revocations : List LinkedAccount → ℕ
  revocations [] = 0
  revocations (a ∷ accounts) = elim (asks revoker a.encrypted_refresh_token a) [
    | some true ↦ 1 + revocations accounts
    | _ ↦ revocations accounts
  ]

  abbrev pub any_refused : List LinkedAccount → Bool
  any_refused [] = false
  any_refused (a ∷ accounts) = elim (asks revoker a.encrypted_refresh_token a) [
    | some false ↦ true
    | _ ↦ any_refused accounts
  ]

-- The rows of the accounts, and the columns that refer to them by `ON DELETE SET NULL`.
unfoldable pub delete_accounts : ℕ → Tables → Tables
delete_accounts user_id t =
    let ids = map (λ a. a.id) (select (λ a. a.user_id == user_id) t.connected_accounts) in
    record t {
      connected_accounts = select (λ a. not (a.user_id == user_id)) t.connected_accounts;
      source_items =
          map (λ (s : SourceItem). record s { source_account_id = forget ids s.source_account_id })
            t.source_items;
      proposals =
          map
            (λ (p : ActionProposal). record p {
              approved_connected_account_id = forget ids p.approved_connected_account_id;
              approved_source_account_id = forget ids p.approved_source_account_id;
            })
            t.proposals;
      operations =
          map
            (λ (o : DataDeletionOperation). record o {
              source_account_id = forget ids o.source_account_id;
            })
            t.operations;
    }

-- The loop over the proposals: those with an execution are minimised, the ids of the others kept.
abbrev pub minimise_if_acted_on :
    Option ExecutionOutcome → ℕ → Tables → Counts → List ℕ × (Tables × Counts)
minimise_if_acted_on none id t counts = (id ∷ [], (t, counts))
minimise_if_acted_on (some _) id t counts = (
  [],
  (minimise_rows id t, add "action_executions" 1 (add "minimised_proposal_tombstones" 1 counts)),
)

abbrev pub minimise_acted_on : List ActionProposal → Tables → Counts → List ℕ × (Tables × Counts)
minimise_acted_on [] t counts = ([], (t, counts))
minimise_acted_on (p ∷ proposals) t counts =
    let (gone, (t', counts')) = minimise_if_acted_on (outcome_of p.id t.executions) p.id t counts in
    let (ids, s) = minimise_acted_on proposals t' counts' in (gone ++ ids, s)

-- The text of a tombstone's address is `deleted+<subject>@deleted.invalid`.
unfoldable pub anonymised : ℕ → ℕ → (ℕ → String) → User → User
anonymised now new_subject address u =
    let subject : ℕ = elim u.deletion_subject_id [ none ↦ new_subject | some s ↦ s ] in
    record {
      id = u.id;
      email = address subject;
      display_name = "Deleted account";
      google_subject = none;
      timezone = "UTC";
      locale = "en-GB";
      account_state = UserAccountState.deleted;
      deletion_subject_id = some subject;
      deleted_at = some now;
    }

module _ (now new_subject : ℕ) (revoker : Option (LinkedAccount → Bool)) (limit : ℕ) where
  abbrev pub moved : Phase → Bool → Counts → Tables → Run → Run
  moved p revoke_failed counts t r = record {
    operation = record r.operation {
      resume_cursor = record { phase = some p; provider_revoke_failed = revoke_failed };
      deleted_counts = counts;
    };
    tables = t;
  }

  abbrev pub credentials_step : ℕ → Run → Run
  credentials_step user_id r =
      let accounts = select (λ a. a.user_id == user_id) r.tables.connected_accounts in
      let refused =
        r.operation.resume_cursor.provider_revoke_failed || any_refused revoker accounts in
      moved product refused
        (add "connected_accounts" (length accounts)
          (add "provider_revocations" (revocations revoker accounts) r.operation.deleted_counts))
        (delete_accounts user_id r.tables) r

  -- What is left of the product data once the source items are gone.
  unfoldable pub clear_product : ℕ → Tables → Counts → Tables × Counts
  clear_product user_id t counts =
      let (signals, c1) = remove_owned "signals" (λ s. s.user_id == user_id) t.signals counts in
      let (briefs, c2) = remove_owned "briefs" (λ b. b.user_id == user_id) t.briefs c1 in
      let brief_ids = map (λ b. b.id) (select (λ b. b.user_id == user_id) t.briefs) in
      let (runs, c3) =
        remove_owned "scheduled_brief_runs" (λ r. r.user_id == user_id)
          (map (without_result brief_ids) t.runs) c2 in
      let (preferences, c4) =
        remove_owned "preferences" (λ p. p.user_id == user_id) t.preferences c3 in
      let (evidence, c5) =
        remove_owned "memory_evidence" (λ m. m.user_id == user_id) t.memory.evidence c4 in
      let (items, c6) = remove_owned "memory_items" (λ m. m.user_id == user_id) t.memory.items c5 in
      (
        record t {
          signals = signals;
          proposals = map (without_brief brief_ids) t.proposals;
          briefs = briefs;
          runs = runs;
          preferences = preferences;
          memory = record { items = items; evidence = evidence };
        },
        c6,
      )

  abbrev pub product_step : ℕ → Run → Run
  product_step user_id r =
      let (n, items) =
        delete_source_items_batch (λ s. s.user_id == user_id) limit r.tables.source_items in
      let (t, counts) = clear_product user_id r.tables r.operation.deleted_counts in
      if n == 0
      then moved minimise r.operation.resume_cursor.provider_revoke_failed counts t r
      else record {
        operation = record r.operation {
          deleted_counts = add "source_items" n r.operation.deleted_counts;
        };
        tables = record r.tables { source_items = items };
      }

  abbrev pub minimise_step : ℕ → Run → Run
  minimise_step user_id r =
      let mine = select (λ p. p.user_id == user_id) r.tables.proposals in
      let (ids, (t, counts)) = minimise_acted_on mine r.tables r.operation.deleted_counts in
      moved finalise r.operation.resume_cursor.provider_revoke_failed
        (add "action_proposals" (length ids) counts) (delete_proposals user_id ids t) r

  module _ (address : ℕ → String) where
    abbrev pub finalise_step : User → Run → Run
    finalise_step u r =
        moved done r.operation.resume_cursor.provider_revoke_failed r.operation.deleted_counts
          (record r.tables {
            users = put_user (anonymised now new_subject address u) r.tables.users;
          })
          r

    abbrev pub account_phase : Phase → User → Run → Bool × Run
    account_phase credentials u r = (false, credentials_step u.id r)
    account_phase product u r = (false, product_step u.id r)
    account_phase minimise u r = (false, minimise_step u.id r)
    account_phase finalise u r = (true, finalise_step u r)
    account_phase _ u r = (true, r)

    abbrev pub account_step_of : Option User → Run → Bool × Run
    account_step_of none r = (true, r)
    account_step_of (some u) r =
        if is_deleted u.account_state
        then (true, r)
        else account_phase (phase_or credentials r.operation.resume_cursor.phase) u r

    unfoldable pub run_account_deletion_step : Run → Bool × Run
    run_account_deletion_step r =
        account_step_of (find? (λ u. u.id == r.operation.user_id) r.tables.users) r

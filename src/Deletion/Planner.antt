-- ===== src/Deletion/Planner.antt =====
-- deletion_planner.py: what a deletion does to the signals, proposals and executions behind which
-- evidence is removed, and the preview of it.
use lifeflow.Prelude.{
  is_nil, ℕ, Bool, true, false, ◌&&◌, not, String, List, [], ◌∷◌, ◌++◌, Option, none, some, map,
  find?, select, contains, length, ◌==◌, string_eq, nat_eq, if◌then◌else◌,
}
use lifeflow.Models.{ExecutionOutcome, ProposalStatus}
use lifeflow.Payloads.{emptied}
use lifeflow.Records.{SourceItem, ActionProposal, ActionExecution}
use lifeflow.Deletion.Operation.{Counts, add}
use lifeflow.Deletion.Tables.{
  Signal, MemoryEvidence, Tables, as_set, meets, survivors, external_ids, surviving_external_ids,
  outcome_of,
}

-- _UNAPPROVED_DELETABLE_STATUSES
abbrev pub is_deletable : ProposalStatus → Bool
is_deletable ProposalStatus.proposed = true
is_deletable ProposalStatus.edited = true
is_deletable ProposalStatus.rejected = true
is_deletable ProposalStatus.expired = true
is_deletable _ = false

pub record ProposalDisposition : Type 0 where
  pub delete_ids : List ℕ
  pub minimise_ids : List ℕ
  pub preserve_uncertain_ids : List ℕ
  pub recompute_ids : List ℕ

pub data Fate : Type 0 where
  preserved minimised deleted recomputed : Fate

-- By the outcome of the execution, `approved_at`, the status and the remaining references.
abbrev pub fate_of : Option ExecutionOutcome → Option ℕ → ProposalStatus → List String → Fate
fate_of (some ExecutionOutcome.pending) approved_at status remaining = preserved
fate_of (some ExecutionOutcome.uncertain) approved_at status remaining = preserved
fate_of (some _) approved_at status remaining = minimised
fate_of none (some _) status remaining = minimised
fate_of none none status remaining =
    if is_deletable status && is_nil remaining then deleted else recomputed

abbrev pub file_under : Fate → ℕ → ProposalDisposition → ProposalDisposition
file_under preserved id d = record d { preserve_uncertain_ids = id ∷ d.preserve_uncertain_ids }
file_under minimised id d = record d { minimise_ids = id ∷ d.minimise_ids }
file_under deleted id d = record d { delete_ids = id ∷ d.delete_ids }
file_under recomputed id d = record d { recompute_ids = id ∷ d.recompute_ids }

abbrev pub minimise_proposal : ActionProposal → ActionProposal
minimise_proposal p = record p {
  rationale = "[minimised: source evidence deleted]";
  payload_json = emptied;
  source_refs = [];
  approved_payload_json = none;
  rejection_reason = none;
}

abbrev pub minimise_execution : ActionExecution → ActionExecution
minimise_execution e = record e { executed_payload_json = emptied; result_json = [] }

module _ (user_id : ℕ) (removed surviving : List String) where
  -- The ids of the signals to delete, and those to keep with their remaining references.
  abbrev pub classify_signals : List Signal → List ℕ × List (ℕ × List String)
  classify_signals [] = ([], [])
  classify_signals (s ∷ signals) =
      let (deletes, recompute) = classify_signals signals in
      let remaining = survivors surviving s.evidence_refs in
      if s.user_id == user_id && meets s.evidence_refs removed
      then if is_nil remaining
        then (s.id ∷ deletes, recompute)
        else (deletes, (s.id, remaining) ∷ recompute)
      else (deletes, recompute)

  abbrev pub classify_proposals : List ActionExecution → List ActionProposal → ProposalDisposition
  classify_proposals executions [] = record {
    delete_ids = [];
    minimise_ids = [];
    preserve_uncertain_ids = [];
    recompute_ids = [];
  }
  classify_proposals executions (p ∷ proposals) =
      let rest = classify_proposals executions proposals in
      if p.user_id == user_id && meets p.source_refs removed
      then file_under
          (fate_of (outcome_of p.id executions) p.approved_at p.status
            (survivors surviving p.source_refs))
          p.id rest
      else rest

-- The loops over the recomputed signals, the minimised proposals and the recomputed ones. A row is
-- fetched and written under its primary key, an execution under its unique proposal.
abbrev pub set_refs : ℕ → List String → List Signal → List Signal
set_refs id refs = map (λ s. if s.id == id then record s { evidence_refs = refs } else s)

-- One round: nothing for a row that is not there.
abbrev pub recompute_signal :
    Option Signal → ℕ → List String → List Signal → Counts → List Signal × Counts
recompute_signal none id refs signals counts = (signals, counts)
recompute_signal (some s) id refs signals counts =
    (set_refs id refs signals, add "source_reference_removed" 1 counts)

abbrev pub recompute_signals : List (ℕ × List String) → List Signal → Counts → List Signal × Counts
recompute_signals [] signals counts = (signals, counts)
recompute_signals ((id, refs) ∷ recompute) signals counts =
    let (signals', counts') =
      recompute_signal (find? (λ s. s.id == id) signals) id refs signals counts in
    recompute_signals recompute signals' counts'

abbrev pub minimise_in : ℕ → List ActionProposal → List ActionProposal
minimise_in id = map (λ p. if p.id == id then minimise_proposal p else p)

abbrev pub minimise_execution_in : ℕ → List ActionExecution → List ActionExecution
minimise_execution_in id = map (λ e. if e.proposal_id == id then minimise_execution e else e)

-- The bucket that a minimised proposal is counted in.
abbrev pub bucket : List ℕ → ℕ → String
bucket uncertain id =
    if contains uncertain id
    then "preserved_pending_uncertain_executions"
    else "minimised_proposal_history"

abbrev pub minimise_rows : ℕ → Tables → Tables
minimise_rows id t = record t {
  proposals = minimise_in id t.proposals;
  executions = minimise_execution_in id t.executions;
}

abbrev pub minimise_one : Option ActionProposal → List ℕ → ℕ → Tables → Counts → Tables × Counts
minimise_one none uncertain id t counts = (t, counts)
minimise_one (some p) uncertain id t counts =
    (minimise_rows id t, add (bucket uncertain id) 1 counts)

abbrev pub minimise_all : List ℕ → List ℕ → Tables → Counts → Tables × Counts
minimise_all uncertain [] t counts = (t, counts)
minimise_all uncertain (id ∷ ids) t counts =
    let (t', counts') = minimise_one (find? (λ p. p.id == id) t.proposals) uncertain id t counts in
    minimise_all uncertain ids t' counts'

abbrev pub prune_in : List String → ℕ → List ActionProposal → List ActionProposal
prune_in surviving id =
    map λ p. if p.id == id then record p { source_refs = survivors surviving p.source_refs } else p

abbrev pub recompute_proposal :
    Option ActionProposal
    → List String
    → ℕ
    → List ActionProposal
    → Counts
    → List ActionProposal × Counts
recompute_proposal none surviving id proposals counts = (proposals, counts)
recompute_proposal (some p) surviving id proposals counts =
    (prune_in surviving id proposals, add "source_reference_removed" 1 counts)

abbrev pub recompute_proposals :
    List String → List ℕ → List ActionProposal → Counts → List ActionProposal × Counts
recompute_proposals surviving [] proposals counts = (proposals, counts)
recompute_proposals surviving (id ∷ ids) proposals counts =
    let (proposals', counts') =
      recompute_proposal (find? (λ p. p.id == id) proposals) surviving id proposals counts in
    recompute_proposals surviving ids proposals' counts'

-- `ON DELETE SET NULL` of `MemoryEvidence.source_proposal_id`
abbrev pub without_source : List ℕ → MemoryEvidence → MemoryEvidence
without_source ids m = elim m.source_proposal_id [
  | none ↦ m
  | some id ↦ if contains ids id then record m { source_proposal_id = none } else m
]

-- The rows of the ids, their executions by `ON DELETE CASCADE`, and the references of the memory.
abbrev pub delete_proposals : ℕ → List ℕ → Tables → Tables
delete_proposals user_id ids t = record t {
  proposals = select (λ p. not (p.user_id == user_id && contains ids p.id)) t.proposals;
  executions = select (λ e. not (contains ids e.proposal_id)) t.executions;
  memory = record t.memory { evidence = map (without_source ids) t.memory.evidence };
}

abbrev pub delete_signals : ℕ → List ℕ → List Signal → List Signal
delete_signals user_id ids = select (λ s. not (s.user_id == user_id && contains ids s.id))

module _ (user_id : ℕ) (removed surviving : List String) where
  unfoldable pub signal_decisions : List Signal → Counts → List Signal × Counts
  signal_decisions signals counts =
      let (deletes, recompute) = classify_signals user_id removed surviving signals in
      let (signals', counts') = recompute_signals recompute signals counts in
      (delete_signals user_id deletes signals', add "signals" (length deletes) counts')

  unfoldable pub proposal_decisions : Tables → Counts → Tables × Counts
  proposal_decisions t counts =
      let d = classify_proposals user_id removed surviving t.executions t.proposals in
      let (t1, c1) =
        minimise_all d.preserve_uncertain_ids (d.minimise_ids ++ d.preserve_uncertain_ids) t
          counts in
      let (ps, c2) = recompute_proposals surviving d.recompute_ids t1.proposals c1 in
      (
        delete_proposals user_id d.delete_ids (record t1 { proposals = ps }),
        add "action_proposals" (length d.delete_ids) c2,
      )

  unfoldable pub apply_derived_decisions : Tables → Counts → Tables × Counts
  apply_derived_decisions t counts =
      let (ss, c) = signal_decisions t.signals counts in
      proposal_decisions (record t { signals = ss }) c

-- `run_derived_cleanup`, and the same step of retention: the sets of the scope, then the decisions.
module _ (user_id : ℕ) (scope : SourceItem → Bool) where
  unfoldable pub run_derived_cleanup : Tables → Counts → Tables × Counts
  unfolding apply_derived_decisions
  run_derived_cleanup t counts =
      let removed = external_ids scope t.source_items in
      apply_derived_decisions user_id removed
        (surviving_external_ids user_id removed t.source_items) t counts

  pub record ImportedDataPlan : Type 0 where
    pub plan_preview_counts : Counts
    pub plan_preserved_counts : Counts

  unfoldable pub count_imported_data_plan : Tables → ImportedDataPlan
  count_imported_data_plan t =
      let removed = external_ids scope t.source_items in
      let surviving = surviving_external_ids user_id removed t.source_items in
      let (deletes, recompute) = classify_signals user_id removed surviving t.signals in
      let d = classify_proposals user_id removed surviving t.executions t.proposals in
      record {
        plan_preview_counts =
            add "action_proposals" (length d.delete_ids)
              (add "signals" (length deletes) (add "source_items" (length (as_set removed)) []));
        plan_preserved_counts = add "source_reference_removed" (length d.recompute_ids) (
            add "preserved_pending_uncertain_executions" (length d.preserve_uncertain_ids) (
              add "minimised_proposal_history" (length d.minimise_ids)
                (add "recomputed_signals" (length recompute) [])));
      }

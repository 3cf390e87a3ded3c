-- ===== src/Deletion/Previewed.antt =====
-- `count_imported_data_plan` of deletion_planner.py against the counts of the deletion itself.
use lifeflow.Prelude.{ℕ, Bool, String, List, ◌==◌, string_eq, nat_eq, if◌then◌else◌}
use lifeflow.Records.{SourceItem}
use lifeflow.Deletion.Operation.{Counts}
use lifeflow.Deletion.Tables.{Tables, external_ids, surviving_external_ids}
use lifeflow.Deletion.Planner.{classify_signals, classify_proposals}

-- What `k` adds to the count of `key`.
abbrev share : String → String → ℕ → ℕ
share key k n = if k == key then n else 0

-- The counts of the cleanup, for the three categories of a preview.
module _ (user_id : ℕ) (scope : SourceItem → Bool) (t : Tables) (c : Counts) where
  abbrev removed_ids : List String
  removed_ids = external_ids scope t.source_items

  abbrev surviving_ids : List String
  surviving_ids = surviving_external_ids user_id removed_ids t.source_items

  abbrev signal_ids : List ℕ
  signal_ids = (classify_signals user_id removed_ids surviving_ids t.signals).0

  abbrev proposal_ids : List ℕ
  proposal_ids =
      (classify_proposals user_id removed_ids surviving_ids t.executions t.proposals).delete_ids

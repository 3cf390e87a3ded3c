-- ===== src/Deletion/Removal.antt =====
-- `delete_source_items_batch` of deletion_planner.py as the removal of the first rows in scope.
use lifeflow.Prelude.{
  ℕ, zero, suc, ◌+◌, min, Bool, false, not, ◌≡◌, refl, List, [], ◌∷◌, select, contains, length,
  arith, ◌==◌, nat_eq, if◌then◌else◌, if-cases,
}
use lifeflow.Records.{SourceItem}
use lifeflow.Deletion.Batches.{batch_ids, delete_source_items_batch}
use lifeflow.Deletion.Rows.{All}

-- The primary key.
abbrev pub DistinctIds : List SourceItem → Type 0
DistinctIds [] = Unit
DistinctIds (s ∷ ss) = All (λ x. (x.id == s.id) ≡ false) ss × DistinctIds ss

module _ (scope : SourceItem → Bool) where
  abbrev pub in_scope : List SourceItem → ℕ
  in_scope ss = length (select scope ss)

  abbrev pub out_of_scope : List SourceItem → List SourceItem
  out_of_scope = select (λ s. not (scope s))

  abbrev pub drop_first : ℕ → List SourceItem → List SourceItem
  drop_first zero ss = ss
  drop_first (suc n) [] = []
  drop_first (suc n) (s ∷ ss) =
      let gone = drop_first n ss in
      let kept = drop_first (suc n) ss in if scope s then gone else s ∷ kept

  abbrev without : List ℕ → List SourceItem → List SourceItem
  without ids = select (λ s. not (contains ids s.id))

  without-nil : (ss : List SourceItem) → without [] ss ≡ ss
  without-nil [] = refl
  without-nil (s ∷ ss) = ground (arith, without-nil ss)

  without-fresh :
      (id : ℕ) (ids : List ℕ) (ss : List SourceItem)
      → All (λ (x : SourceItem). (x.id == id) ≡ false) ss
      → without (id ∷ ids) ss ≡ without ids ss
  without-fresh id ids [] a = refl
  without-fresh id ids (s ∷ ss) (e, a) = ground (arith, without-fresh id ids ss a)

  batch_ids-fresh :
      (id n : ℕ) (ss : List SourceItem)
      → All (λ (x : SourceItem). (x.id == id) ≡ false) ss
      → contains (batch_ids scope n ss) id ≡ false
  batch_ids-fresh id zero ss a = refl
  batch_ids-fresh id (suc n) [] a = refl
  batch_ids-fresh id (suc n) (s ∷ ss) (e, a) =
      ground (arith, batch_ids-fresh id n ss a, batch_ids-fresh id (suc n) ss a)

  batch-drop_first :
      (n : ℕ) (ss : List SourceItem)
      → DistinctIds ss
      → without (batch_ids scope n ss) ss ≡ drop_first n ss
  batch-drop_first zero ss d = without-nil ss
  batch-drop_first (suc n) [] d = refl
  batch-drop_first (suc n) (s ∷ ss) (fresh, d) = ground (
    arith,
    batch-drop_first n ss d,
    batch-drop_first (suc n) ss d,
    without-fresh s.id (batch_ids scope n ss) ss fresh,
    batch_ids-fresh s.id (suc n) ss fresh,
  )

  length-batch_ids :
      (n : ℕ) (ss : List SourceItem) → length (batch_ids scope n ss) ≡ min n (in_scope ss)
  length-batch_ids zero ss = omega arith
  length-batch_ids (suc n) [] = omega arith
  length-batch_ids (suc n) (s ∷ ss) =
      ground (arith, length-batch_ids n ss, length-batch_ids (suc n) ss)

  -- What is still in scope, and what was never in it.
  in_scope-drop_first :
      (n : ℕ) (ss : List SourceItem)
      → in_scope (drop_first n ss) + min n (in_scope ss) ≡ in_scope ss
  in_scope-drop_first zero ss = omega arith
  in_scope-drop_first (suc n) [] = omega arith
  in_scope-drop_first (suc n) (s ∷ ss) =
      ground (arith, in_scope-drop_first n ss, in_scope-drop_first (suc n) ss)

  out_of_scope-drop_first :
      (n : ℕ) (ss : List SourceItem) → out_of_scope (drop_first n ss) ≡ out_of_scope ss
  out_of_scope-drop_first zero ss = refl
  out_of_scope-drop_first (suc n) [] = refl
  out_of_scope-drop_first (suc n) (s ∷ ss) =
      ground (arith, out_of_scope-drop_first n ss, out_of_scope-drop_first (suc n) ss)

  pub out_of_scope-all : (ss : List SourceItem) → in_scope ss ≡ 0 → out_of_scope ss ≡ ss
  out_of_scope-all [] h = refl
  out_of_scope-all (s ∷ ss) h = ground (arith, out_of_scope-all ss)

  drop_first-fresh :
      (id n : ℕ) (ss : List SourceItem)
      → All (λ (x : SourceItem). (x.id == id) ≡ false) ss
      → All (λ (x : SourceItem). (x.id == id) ≡ false) (drop_first n ss)
  drop_first-fresh id zero ss a = a
  drop_first-fresh id (suc n) [] a = tt
  drop_first-fresh id (suc n) (s ∷ ss) (e, a) =
      if-cases (All (λ (x : SourceItem). (x.id == id) ≡ false)) (scope s)
        (λ _. drop_first-fresh id n ss a) (λ _. (e, drop_first-fresh id (suc n) ss a))

  drop_first-DistinctIds :
      (n : ℕ) (ss : List SourceItem) → DistinctIds ss → DistinctIds (drop_first n ss)
  drop_first-DistinctIds zero ss d = d
  drop_first-DistinctIds (suc n) [] d = tt
  drop_first-DistinctIds (suc n) (s ∷ ss) (fresh, d) =
      if-cases DistinctIds (scope s) (λ _. drop_first-DistinctIds n ss d)
        (λ _. (drop_first-fresh s.id (suc n) ss fresh, drop_first-DistinctIds (suc n) ss d))

  -- What one batch does.
  pub record IsBatch (limit : ℕ) (ss : List SourceItem) (n : ℕ) (ss' : List SourceItem)
      : Type 0 where
    pub count : n ≡ min limit (in_scope ss)
    pub remaining : in_scope ss' + n ≡ in_scope ss
    pub others : out_of_scope ss' ≡ out_of_scope ss
    pub distinct : DistinctIds ss'

  pub delete_source_items_batch-IsBatch :
      (limit : ℕ) (ss : List SourceItem)
      → DistinctIds ss
      → let (n, ss') = delete_source_items_batch scope limit ss in IsBatch limit ss n ss'
  unfolding delete_source_items_batch
  delete_source_items_batch-IsBatch limit ss d =
      let same = batch-drop_first limit ss d in
      record {
        count = length-batch_ids limit ss;
        remaining = rw (same, length-batch_ids limit ss) (in_scope-drop_first limit ss);
        others = rw same (out_of_scope-drop_first limit ss);
        distinct = rw same (drop_first-DistinctIds limit ss d);
      }

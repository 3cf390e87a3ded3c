-- ===== src/Deletion/Signals.antt =====
-- What `apply_derived_decisions` of deletion_planner.py does to the signals.
use lifeflow.Prelude.{
  is_nil, ℕ, Bool, true, false, not, ◌≡◌, refl, String, List, [], ◌∷◌, ◌||◌, ◌&&◌, Option, none,
  some, find?, contains, arith, if-cases, ◌==◌, string_eq, nat_eq,
}
use lifeflow.Deletion.Operation.{Counts}
use lifeflow.Deletion.Tables.{Signal, meets, survivors}
use lifeflow.Deletion.Planner.{
  classify_signals, recompute_signal, recompute_signals, delete_signals, signal_decisions,
}
use lifeflow.Deletion.Rows.{
  All, All-imp, All-both, All-map, All-select, find?-none, Apart, survivors-meets,
}

abbrev pub listed : ℕ → List (ℕ × List String) → Bool
listed id [] = false
listed id ((i, refs) ∷ rs) = i == id || listed id rs

module _ (user_id : ℕ) (removed : List String) where
  -- A signal of the user with a reference to removed evidence.
  abbrev pub signal_affected : Signal → Bool
  signal_affected s = s.user_id == user_id && meets s.evidence_refs removed

  abbrev Covered : List ℕ → List (ℕ × List String) → Signal → Type 0
  Covered ds rs s = (not (signal_affected s) || contains ds s.id || listed s.id rs) ≡ true

  module _ (surviving : List String) (apart : Apart removed surviving) where
    abbrev Filed : Signal → List Signal → List ℕ × List (ℕ × List String) → Type 0
    Filed s ss (ds, rs) = Covered ds rs s × All (Covered ds rs) ss

    classify_signals-Covered :
        (ss : List Signal)
        → let (ds, rs) = classify_signals user_id removed surviving ss in All (Covered ds rs) ss
    classify_signals-Covered [] = tt
    classify_signals-Covered (s ∷ ss) =
        let (ds, rs) = classify_signals user_id removed surviving ss in
        let remaining = survivors surviving s.evidence_refs in
        let before = classify_signals-Covered ss in
        if-cases (Filed s ss) (signal_affected s)
          (λ e.
            if-cases (Filed s ss) (is_nil remaining)
              (λ n. (ground arith, All-imp (Covered ds rs) _ (λ x c. ground arith) ss before))
              (λ n. (ground arith, All-imp (Covered ds rs) _ (λ x c. ground arith) ss before)))
          (λ e. (ground arith, before))

    abbrev Pruned : List (ℕ × List String) → Type 0
    Pruned = All (λ r. meets r.1 removed ≡ false)

    abbrev PrunedAfter : List ℕ × List (ℕ × List String) → Type 0
    PrunedAfter (ds, rs) = Pruned rs

    classify_signals-Pruned :
        (ss : List Signal) → Pruned (classify_signals user_id removed surviving ss).1
    classify_signals-Pruned [] = tt
    classify_signals-Pruned (s ∷ ss) =
        let remaining = survivors surviving s.evidence_refs in
        let before = classify_signals-Pruned ss in
        if-cases PrunedAfter (signal_affected s)
          (λ e.
            if-cases PrunedAfter (is_nil remaining) (λ n. before)
              (λ n. (survivors-meets removed surviving apart s.evidence_refs, before)))
          (λ e. before)

  recompute_signal-Covered :
      (o : Option Signal) (ds : List ℕ) (id : ℕ) (refs : List String) (rs : List (ℕ × List String))
      (ss : List Signal) (c : Counts)
      → find? (λ s. s.id == id) ss ≡ o
      → meets refs removed ≡ false
      → All (Covered ds ((id, refs) ∷ rs)) ss
      → All (Covered ds rs) (recompute_signal o id refs ss c).0
  recompute_signal-Covered none ds id refs rs ss c h e a =
      All-both _ _ (Covered ds rs) (λ x p q. ground arith) ss (find?-none _ ss h) a
  recompute_signal-Covered (some s) ds id refs rs ss c h e a =
      All-map _ (Covered ds rs) _ (λ x p. ground arith) ss a

  recompute_signals-Covered :
      (ds : List ℕ) (rs : List (ℕ × List String)) (ss : List Signal) (c : Counts)
      → All (λ r. meets r.1 removed ≡ false) rs
      → All (Covered ds rs) ss
      → All (Covered ds []) (recompute_signals rs ss c).0
  recompute_signals-Covered ds [] ss c apart a = a
  recompute_signals-Covered ds ((id, refs) ∷ rs) ss c (e, apart) a =
      let (ss', c') = recompute_signal (find? (λ s. s.id == id) ss) id refs ss c in
      recompute_signals-Covered ds rs ss' c' apart
        (recompute_signal-Covered _ ds id refs rs ss c refl e a)

  abbrev pub Unaffected : List Signal → Type 0
  Unaffected = All (λ s. signal_affected s ≡ false)

  -- No signal keeps a reference to removed evidence.
  pub signal_decisions-Unaffected :
      (surviving : List String)
      → Apart removed surviving
      → (ss : List Signal) (c : Counts)
      → Unaffected (signal_decisions user_id removed surviving ss c).0
  unfolding signal_decisions
  signal_decisions-Unaffected surviving apart ss c =
      let (ds, rs) = classify_signals user_id removed surviving ss in
      let (ss', c') = recompute_signals rs ss c in
      All-select (Covered ds []) _ _ (λ x k p. ground arith) ss'
        (recompute_signals-Covered ds rs ss c (classify_signals-Pruned surviving apart ss)
          (classify_signals-Covered surviving apart ss))

  classify_signals-Unaffected :
      (surviving : List String) (ss : List Signal)
      → Unaffected ss
      → classify_signals user_id removed surviving ss ≡ ([], [])
  classify_signals-Unaffected surviving [] u = refl
  classify_signals-Unaffected surviving (s ∷ ss) (e, u) =
      rw (e, classify_signals-Unaffected surviving ss u)

  delete_signals-nil : (ss : List Signal) → delete_signals user_id [] ss ≡ ss
  delete_signals-nil [] = refl
  delete_signals-nil (s ∷ ss) = ground (arith, delete_signals-nil ss)

  -- Where no signal has one, nothing is decided.
  pub signal_decisions-same :
      (surviving : List String) (ss : List Signal) (c : Counts)
      → Unaffected ss
      → signal_decisions user_id removed surviving ss c ≡ (ss, c)
  unfolding nat_eq signal_decisions
  signal_decisions-same surviving ss c u =
      rw (classify_signals-Unaffected surviving ss u, delete_signals-nil ss)

-- ===== src/Deletion/Erasure.antt =====
-- `run_account_deletion_step` of account_deletion.py, run to its end.
use lifeflow.Prelude.{
  ℕ, zero, suc, ◌≤◌, Bool, true, false, not, ◌≡◌, refl, sym, ap, subst, ◌∙◌, String, List, [], ◌∷◌,
  Option, none, some, find?, select, arith, ◌==◌, nat_eq, if◌then◌else◌, if-cases,
}
use lifeflow.Records.{SourceItem, ActionExecution}
use lifeflow.Schedule.Run.{ScheduledBriefRun}
use lifeflow.Deletion.Operation.{UserAccountState, Phase, credentials, minimise, finalise}
use lifeflow.Deletion.Tables.{
  User, LinkedAccount, Signal, StoredBrief, MemoryItem, MemoryEvidence, Preference, Tables,
}
use lifeflow.Deletion.Planner.{delete_proposals}
use lifeflow.Deletion.Batches.{Run, phase_or, beat, run_batches}
use lifeflow.Deletion.Account.{
  is_deleted, put_user, minimise_acted_on, anonymised, minimise_step, finalise_step, account_phase,
  account_step_of, run_account_deletion_step,
}
use lifeflow.Deletion.Rows.{All, All-imp, All-map}
use lifeflow.Deletion.Histories.{has_execution, SameHistory, keep-executions}
use lifeflow.Deletion.Tombstones.{minimise_acted_on-rest, minimise_acted_on-Spared}
use lifeflow.Deletion.Scrubbed.{AllErased, AllTombstones, own_ids, minimised-Left}
use lifeflow.Deletion.Removal.{in_scope}
use lifeflow.Deletion.OneStroke.{run_batches-last, run_batches-more}

-- The rows of a user.
abbrev pub owned_by : ℕ → SourceItem → Bool
owned_by user_id s = s.user_id == user_id

-- Nothing of the user's product data is left.
abbrev pub IsCleared : ℕ → Tables → Type 0
IsCleared user_id t =
    (in_scope (owned_by user_id) t.source_items ≡ 0)
    × All (λ (x : Signal). (x.user_id == user_id) ≡ false) t.signals
    × All (λ (x : StoredBrief). (x.user_id == user_id) ≡ false) t.briefs
    × All (λ (x : ScheduledBriefRun). (x.user_id == user_id) ≡ false) t.runs
    × All (λ (x : Preference). (x.user_id == user_id) ≡ false) t.preferences
    × All (λ (x : MemoryEvidence). (x.user_id == user_id) ≡ false) t.memory.evidence
    × All (λ (x : MemoryItem). (x.user_id == user_id) ≡ false) t.memory.items

abbrev pub NoAccounts : ℕ → Tables → Type 0
NoAccounts user_id t =
    All (λ (x : LinkedAccount). (x.user_id == user_id) ≡ false) t.connected_accounts

-- The rows that a delete by owner leaves.
pub select-not {ℓ} :
    {A : Type ℓ} (p : A → Bool) (xs : List A) → All (λ x. p x ≡ false) (select (λ x. not (p x)) xs)
select-not p [] = tt
select-not p (x ∷ xs) =
    if-cases (All (λ y. p y ≡ false)) (not (p x)) (λ e. (ground arith, select-not p xs))
      (λ _. select-not p xs)

module _ (now new_subject : ℕ) (revoker : Option (LinkedAccount → Bool)) (limit : ℕ)
    (positive : 1 ≤ limit) (address : ℕ → String) (u : User) (es : List ActionExecution)
    (mine : List ℕ) where
  abbrev pub step : Run → Bool × Run
  step = run_account_deletion_step now new_subject revoker limit address

  -- The subject that stands for the user after the deletion.
  abbrev subject_of : Option ℕ → ℕ
  subject_of none = new_subject
  subject_of (some s) = s

  -- The user's row is there and not deleted yet.
  pub record IsOpen (p : Phase) (r : Run) : Type 0 where
    pub found : find? (λ x. x.id == r.operation.user_id) r.tables.users ≡ some u
    pub own : u.id ≡ r.operation.user_id
    pub alive : is_deleted u.account_state ≡ false
    pub phase : phase_or credentials r.operation.resume_cursor.phase ≡ p

  pub step-phase :
      (p : Phase) (r : Run)
      → IsOpen p r
      → step r ≡ account_phase now new_subject revoker limit address p u r
  unfolding run_account_deletion_step
  step-phase p r o =
      ap (λ x. account_step_of now new_subject revoker limit address x r) o.found
      ∙ ap
          (λ b.
            if b
            then (true, r)
            else account_phase now new_subject revoker limit address
                (phase_or credentials r.operation.resume_cursor.phase) u r)
          o.alive
      ∙ ap (λ q. account_phase now new_subject revoker limit address q u r) o.phase

  -- A row that tells who the user was by nothing but its id and the subject of its deletion.
  pub record IsAnonymous (x : User) : Type 0 where
    pub same : x.id ≡ u.id
    pub state : x.account_state ≡ UserAccountState.deleted
    pub at : x.deleted_at ≡ some now
    pub subject : x.deletion_subject_id ≡ some (subject_of u.deletion_subject_id)
    pub email : x.email ≡ address (subject_of u.deletion_subject_id)
    pub name : x.display_name ≡ "Deleted account"
    pub unlinked : x.google_subject ≡ none

  anonymised-IsAnonymous : IsAnonymous (anonymised now new_subject address u)
  unfolding anonymised
  anonymised-IsAnonymous = record {
    same = refl;
    state = refl;
    at = refl;
    subject = ground arith;
    email = ground arith;
    name = refl;
    unlinked = refl;
  }

  -- What is left of the user's proposals and of their executions.
  abbrev Scrubs : Tables → Type 0
  Scrubs t = AllErased mine t.executions × AllTombstones u.id es t.proposals

  -- The end: the user's row is anonymised, the accounts and the product data are gone.
  abbrev pub Erased : Run → Type 0
  Erased r =
      ((x : User) × ((find? (λ y. y.id == r.operation.user_id) r.tables.users ≡ some x)
          × IsAnonymous x))
      × IsCleared u.id r.tables
      × NoAccounts u.id r.tables
      × SameHistory es r.tables.executions
      × Scrubs r.tables

  abbrev pub Ends : Option Run → Type 0
  Ends o = (r : Run) × ((o ≡ some r) × Erased r)

  put_user-find :
      (id : ℕ) (users : List User) (x : User)
      → find? (λ y. y.id == id) users ≡ some u
      → x.id ≡ u.id
      → u.id ≡ id
      → find? (λ y. y.id == id) (put_user x users) ≡ some x
  put_user-find id [] x h e i = absurd (ground arith)
  put_user-find id (y ∷ users) x h e i =
      let later : find? (λ z. z.id == id) users ≡ some u
          → find? (λ z. z.id == id) (put_user x users) ≡ some x =
        λ h'. put_user-find id users x h' e i in
      ground (arith, later)

  finalise-Ends :
      (fuel : ℕ) (r : Run)
      → IsOpen finalise r
      → IsCleared u.id r.tables
      → NoAccounts u.id r.tables
      → SameHistory es r.tables.executions
      → Scrubs r.tables
      → Ends (run_batches step now (suc fuel) r)
  unfolding anonymised
  finalise-Ends fuel r o cleared unlinked history scrubs = (
    beat now (finalise_step now new_subject revoker limit address u r),
    (
      run_batches-last step now fuel r (step-phase finalise r o),
      (
        (
          anonymised now new_subject address u,
          (
            put_user-find r.operation.user_id r.tables.users _ o.found refl o.own,
            anonymised-IsAnonymous,
          ),
        ),
        cleared,
        unlinked,
        history,
        scrubs,
      ),
    ),
  )

  delete_proposals-IsCleared :
      (ids : List ℕ) (t : Tables) → IsCleared u.id t → IsCleared u.id (delete_proposals u.id ids t)
  delete_proposals-IsCleared ids t (a1, a2, a3, a4, a5, a6, a7) = (
    a1,
    a2,
    a3,
    a4,
    a5,
    All-map (λ (m : MemoryEvidence). (m.user_id == u.id) ≡ false)
        (λ (m : MemoryEvidence). (m.user_id == u.id) ≡ false) _ (λ m h. ground (arith, h))
        t.memory.evidence a6,
    a7,
  )

  minimise-Ends :
      (fuel : ℕ) (r : Run)
      → IsOpen minimise r
      → IsCleared u.id r.tables
      → NoAccounts u.id r.tables
      → SameHistory es r.tables.executions
      → own_ids u.id r.tables.proposals ≡ mine
      → Ends (run_batches step now (suc (suc fuel)) r)
  minimise-Ends fuel r o cleared unlinked history own =
      let mine = select (λ p. p.user_id == u.id) r.tables.proposals in
      let t = (minimise_acted_on mine r.tables r.operation.deleted_counts).1.0 in
      let rest = minimise_acted_on-rest mine r.tables r.operation.deleted_counts in
      let ((same, outcomes), unused) =
        minimise_acted_on-Spared mine r.tables r.operation.deleted_counts in
      let (before, outcomes_before) = history in
      let ids = (minimise_acted_on mine r.tables r.operation.deleted_counts).0 in
      let t2 = delete_proposals u.id ids t in
      let kept = keep-executions ids t.executions (
        All-imp (λ id. has_execution r.tables.executions id ≡ false) _
          (λ id h. ground (arith, outcomes id, h)) ids unused) in
      let same_users : t.users ≡ r.tables.users = ap (λ x. x.users) rest in
      subst Ends (sym (run_batches-more step now (suc fuel) r (step-phase minimise r o))) (
        finalise-Ends fuel (beat now (minimise_step now new_subject revoker limit u.id r))
          (record {
            found = ap (find? (λ x. x.id == r.operation.user_id)) same_users ∙ o.found;
            own = o.own;
            alive = o.alive;
            phase = refl;
          })
          (delete_proposals-IsCleared _ t (subst (IsCleared u.id) (sym rest) cleared))
          (subst (NoAccounts u.id) (sym rest) unlinked)
          (subst (SameHistory es) (sym kept) (same ∙ before, λ i. outcomes i ∙ outcomes_before i))
          (subst (λ ids'. AllErased ids' t2.executions × AllTombstones u.id es t2.proposals) own
            (minimised-Left u.id es r.tables r.operation.deleted_counts outcomes_before)))

  pub minimise-Ends_enough :
      (fuel : ℕ)
      → 2 ≤ fuel
      → (r : Run) → IsOpen minimise r
      → IsCleared u.id r.tables
      → NoAccounts u.id r.tables
      → SameHistory es r.tables.executions
      → own_ids u.id r.tables.proposals ≡ mine
      → Ends (run_batches step now fuel r)
  minimise-Ends_enough zero enough r o cleared unlinked history own = absurd (omega arith)
  minimise-Ends_enough (suc zero) enough r o cleared unlinked history own = absurd (omega arith)
  minimise-Ends_enough (suc (suc fuel)) enough r o cleared unlinked history own =
      minimise-Ends fuel r o cleared unlinked history own

-- ===== src/Context/Provenance.antt =====
-- `resolve_execution_context` against the accounts that the evidence came from.
use lifeflow.Prelude.{
  ℕ, true, false, ◌≡◌, refl, ◌≢◌, String, List, [], ◌∷◌, Option, none, some, contains, string_eq,
  nat_eq, ◌==◌, arith, length, ◌+◌, ◌<◌, subst,
}
use lifeflow.Models.{ActionType, real, unavailable, is_active}
use lifeflow.Records.{ConnectedAccount, SourceItem}
use lifeflow.Context.{
  simulated_provider, google_provider, required_google_scope, ExecutionContext, add_account_id,
  distinct_account_ids, has_simulated_capability, account_by_id, google_accounts, non_google_ids,
  google_context, resolve_execution_context, context_for,
}

-- Every item that came from an account came from one of these.
abbrev pub AllFrom : List ℕ → List SourceItem → Type 0
AllFrom ids [] = Unit
AllFrom ids (item ∷ items) =
    ((i : ℕ) → item.source_account_id ≡ some i → contains ids i ≡ true) × AllFrom ids items

add_account_id-AllFrom :
    (o : Option ℕ) (ids : List ℕ) (items : List SourceItem)
    → AllFrom ids items
    → AllFrom (add_account_id o ids) items
add_account_id-AllFrom o ids [] h = tt
add_account_id-AllFrom o ids (item ∷ items) (h, rest) =
    (λ j e. ground (arith, h j), add_account_id-AllFrom o ids items rest)

distinct_account_ids-AllFrom :
    (items : List SourceItem) → AllFrom (distinct_account_ids items) items
unfolding distinct_account_ids
distinct_account_ids-AllFrom [] = tt
distinct_account_ids-AllFrom (item ∷ items) = (
  λ i e. rw e (ground arith),
  add_account_id-AllFrom item.source_account_id _ items (distinct_account_ids-AllFrom items),
)

account_by_id-id :
    (accounts : List ConnectedAccount) (i : ℕ) {a : ConnectedAccount}
    → account_by_id accounts i ≡ some a
    → a.id ≡ i
unfolding account_by_id
account_by_id-id [] i h = cc
account_by_id-id (b ∷ accounts) i {a} h = ground (arith, account_by_id-id accounts i {a = a})

module _ (accounts : List ConnectedAccount) where
  none_left :
      (ids : List ℕ)
      → google_accounts accounts ids ≡ []
      → non_google_ids accounts ids ≡ []
      → ids ≡ []
  unfolding google_accounts non_google_ids
  none_left [] g n = refl
  none_left (i ∷ ids) g n = ground arith

  one_left :
      (ids : List ℕ) {a : ConnectedAccount}
      → google_accounts accounts ids ≡ a ∷ []
      → non_google_ids accounts ids ≡ []
      → (ids ≡ a.id ∷ []) × (account_by_id accounts a.id ≡ some a) × (a.provider ≡ google_provider)
  unfolding google_accounts non_google_ids
  one_left [] g n = cc
  one_left (i ∷ ids) {a} g n = ground (arith, none_left ids, account_by_id-id accounts i {a = a})

-- A context names an account that the evidence came from and no other, and that account is a
-- Google account, active now, and holds the scope that the action type needs.
pub record BoundTo (t : ActionType) (accounts : List ConnectedAccount) (sources : List SourceItem)
    (c : ExecutionContext) (a : ConnectedAccount) : Type 0 where
  pub known : account_by_id accounts a.id ≡ some a
  pub is_google : a.provider ≡ google_provider
  pub is_live : is_active a.status ≡ true
  pub account : c.connected_account_id ≡ some a.id
  pub revision : c.account_authorisation_revision ≡ some a.authorisation_revision
  pub source_account : c.source_account_id ≡ some a.id
  pub provider : c.provider ≡ google_provider
  pub evidence : AllFrom (a.id ∷ []) sources
  pub scope :
      (s : String) × (required_google_scope t ≡ some s)
      × (c.required_scope ≡ some s)
      × (contains a.granted_scopes s ≡ true)

google_context_real :
    (s : String) (a : ConnectedAccount)
    → (google_context s a).mode ≡ real
    → (is_active a.status ≡ true)
      × (contains a.granted_scopes s ≡ true)
      × ((google_context s a).connected_account_id ≡ some a.id)
      × ((google_context s a).account_authorisation_revision ≡ some a.authorisation_revision)
      × ((google_context s a).source_account_id ≡ some a.id)
      × ((google_context s a).provider ≡ google_provider)
      × ((google_context s a).required_scope ≡ some s)
unfolding google_context
google_context_real s a h = ground arith

module _ (t : ActionType) (accounts : List ConnectedAccount) (sources : List SourceItem) where
  google_context-BoundTo :
      (s : String) (a : ConnectedAccount)
      → required_google_scope t ≡ some s
      → google_accounts accounts (distinct_account_ids sources) ≡ a ∷ []
      → non_google_ids accounts (distinct_account_ids sources) ≡ []
      → (google_context s a).mode ≡ real
      → BoundTo t accounts sources (google_context s a) a
  google_context-BoundTo s a es eg eo h =
      let (ids, known, is_google) = one_left accounts (distinct_account_ids sources) eg eo in
      let (live, granted, account, revision, source, provider, scope) = google_context_real s a h in
      record {
        known = known;
        is_google = is_google;
        is_live = live;
        account = account;
        revision = revision;
        source_account = source;
        provider = provider;
        evidence = subst (λ l. AllFrom l sources) ids (distinct_account_ids-AllFrom sources);
        scope = (s, es, scope, granted);
      }

  context_for_real :
      (scope : Option String) (googles : List ConnectedAccount) (others : List ℕ)
      → required_google_scope t ≡ scope
      → google_accounts accounts (distinct_account_ids sources) ≡ googles
      → non_google_ids accounts (distinct_account_ids sources) ≡ others
      → let c = context_for scope accounts googles others (distinct_account_ids sources) in
        c.mode ≡ real → (a : ConnectedAccount) × BoundTo t accounts sources c a
  context_for_real none [] others es eg eo h = cc
  context_for_real none (a ∷ googles) others es eg eo h = cc
  context_for_real (some s) [] others es eg eo h = ground arith
  context_for_real (some s) (a ∷ b ∷ more) others es eg eo h = cc
  context_for_real (some s) (a ∷ []) (_ ∷ _) es eg eo h = cc
  context_for_real (some s) (a ∷ []) [] es eg eo h = (a, google_context-BoundTo s a es eg eo h)

  -- When the resolved mode is `real`, there is an account that is known under its identifier, is a
  -- Google account, is active and holds the scope of the action type; the context names it, its
  -- revision and that scope; and every item of evidence that came from an account came from this
  -- one.
  pub resolve_real :
      (resolve_execution_context t accounts sources).mode ≡ real
      → (a : ConnectedAccount) × BoundTo t accounts sources
          (resolve_execution_context t accounts sources)
          a
  unfolding resolve_execution_context
  resolve_real h = context_for_real _ _ _ refl refl refl h

  -- Evidence that spans a Google account and any other account never runs.
  context_for_mixed :
      (scope : String) (googles : List ConnectedAccount) (others : List ℕ)
      → 1 < length googles + length others
      → googles ≢ []
      → (context_for (some scope) accounts googles others (distinct_account_ids sources)).mode
        ≡ unavailable
  context_for_mixed s [] others h n = absurd (n refl)
  context_for_mixed s (a ∷ []) [] h n = absurd (omega arith)
  context_for_mixed s (a ∷ []) (_ ∷ _) h n = refl
  context_for_mixed s (a ∷ b ∷ more) others h n = refl

-- An account that no evidence came from.
module _ (x : ConnectedAccount) (accounts : List ConnectedAccount) where
  account_by_id-cons :
      (i : ℕ) → x.id ≢ i → account_by_id (x ∷ accounts) i ≡ account_by_id accounts i
  unfolding account_by_id
  account_by_id-cons i ne = ground arith

  google_accounts-cons :
      (ids : List ℕ)
      → contains ids x.id ≡ false
      → google_accounts (x ∷ accounts) ids ≡ google_accounts accounts ids
  unfolding google_accounts
  google_accounts-cons [] h = refl
  google_accounts-cons (i ∷ ids) h = ground (arith, account_by_id-cons i, google_accounts-cons ids)

  non_google_ids-cons :
      (ids : List ℕ)
      → contains ids x.id ≡ false
      → non_google_ids (x ∷ accounts) ids ≡ non_google_ids accounts ids
  unfolding non_google_ids
  non_google_ids-cons [] h = refl
  non_google_ids-cons (i ∷ ids) h = ground (arith, account_by_id-cons i, non_google_ids-cons ids)

  has_simulated_capability-cons :
      (x.provider == simulated_provider) ≡ false
      → has_simulated_capability (x ∷ accounts) ≡ has_simulated_capability accounts
  unfolding has_simulated_capability
  has_simulated_capability-cons h = ground arith

  context_for-cons :
      (scope : Option String) (googles : List ConnectedAccount) (others ids : List ℕ)
      → (x.provider == simulated_provider) ≡ false
      → context_for scope (x ∷ accounts) googles others ids
        ≡ context_for scope accounts googles others ids
  context_for-cons none googles others ids h = refl
  context_for-cons (some s) [] others ids h = rw (has_simulated_capability-cons h)
  context_for-cons (some s) (a ∷ []) [] ids h = refl
  context_for-cons (some s) (a ∷ []) (_ ∷ _) ids h = refl
  context_for-cons (some s) (a ∷ b ∷ more) others ids h = refl

  -- Connecting an account that no evidence came from, and that is not a synthetic one, changes no
  -- resolved context.
  pub resolve-connect :
      (t : ActionType) (sources : List SourceItem)
      → contains (distinct_account_ids sources) x.id ≡ false
      → (x.provider == simulated_provider) ≡ false
      → resolve_execution_context t (x ∷ accounts) sources
        ≡ resolve_execution_context t accounts sources
  unfolding resolve_execution_context
  resolve-connect t sources fresh other =
      rw (google_accounts-cons _ fresh, non_google_ids-cons _ fresh)
        (context_for-cons _ _ _ _ other)

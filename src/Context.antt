-- ===== src/Context.antt =====
-- `execution_context.py`: what approving or executing a proposal would do, from the accounts its
-- evidence came from and the accounts that are connected now.
pub mod Provenance
use lifeflow.Prelude.{
  ℕ, Bool, true, false, not, ◌&&◌, ◌||◌, String, List, [], ◌∷◌, Option, none, some, contains, any,
  select, ◌==◌, string_eq, nat_eq, if◌then◌else◌,
}
use lifeflow.Models.{
  ActionType, create_task, create_gmail_draft, create_calendar_event, ExecutionMode, simulation,
  real, unavailable, is_active,
}
use lifeflow.Records.{ConnectedAccount, SourceItem, ActionProposal}
use lifeflow.Payloads.{Boundary, context_document}

abbrev pub simulated_provider : String
simulated_provider = "synthetic"

abbrev pub simulated_scope : String
simulated_scope = "demo"

abbrev pub google_provider : String
google_provider = "google"

abbrev pub gmail_compose_scope : String
gmail_compose_scope = "https://www.googleapis.com/auth/gmail.compose"

abbrev pub calendar_events_scope : String
calendar_events_scope = "https://www.googleapis.com/auth/calendar.events"

-- `REQUIRED_GOOGLE_SCOPE`, which has no entry for `create_task`.
unfoldable pub required_google_scope : ActionType → Option String
required_google_scope create_task = none
required_google_scope create_gmail_draft = some gmail_compose_scope
required_google_scope create_calendar_event = some calendar_events_scope

pub data SourceMode : Type 0 where
  synthetic google incompatible : SourceMode

pub record ExecutionContext : Type 0 where
  pub mode : ExecutionMode
  pub provider : String
  pub connected_account_id : Option ℕ
  pub account_authorisation_revision : Option ℕ
  pub required_scope : Option String
  pub source_mode : SourceMode
  pub source_account_id : Option ℕ

-- Adds to a set, here a list without repetitions; an item with no account adds nothing.
abbrev pub add_account_id : Option ℕ → List ℕ → List ℕ
add_account_id none ids = ids
add_account_id (some i) ids = if contains ids i then ids else i ∷ ids

-- `_distinct_account_ids`
unfoldable pub distinct_account_ids : List SourceItem → List ℕ
distinct_account_ids [] = []
distinct_account_ids (item ∷ items) =
    add_account_id item.source_account_id (distinct_account_ids items)

-- `_has_simulated_capability`
unfoldable pub has_simulated_capability : List ConnectedAccount → Bool
has_simulated_capability accounts =
    any
      (λ a.
        a.provider == simulated_provider
        && is_active a.status
        && contains a.granted_scopes simulated_scope)
      accounts

-- `accounts_by_id.get(i)`: in a dict comprehension the last account of an id stands.
unfoldable pub account_by_id : List ConnectedAccount → ℕ → Option ConnectedAccount
account_by_id [] i = none
account_by_id (a ∷ accounts) i = elim (account_by_id accounts i) [
  | some b ↦ some b
  | none ↦ if a.id == i then some a else none
]

abbrev pub google_account : Option ConnectedAccount → Bool
google_account none = false
google_account (some a) = a.provider == google_provider

-- `google_ids`, each with its account.
unfoldable pub google_accounts : List ConnectedAccount → List ℕ → List ConnectedAccount
google_accounts accounts [] = []
google_accounts accounts (i ∷ ids) = elim (account_by_id accounts i) [
  | none ↦ google_accounts accounts ids
  | some a ↦
      let rest = google_accounts accounts ids in
      if a.provider == google_provider then a ∷ rest else rest
]

unfoldable pub non_google_ids : List ConnectedAccount → List ℕ → List ℕ
non_google_ids accounts = select (λ i. not (google_account (account_by_id accounts i)))

abbrev pub single : List ℕ → Option ℕ
single (i ∷ []) = some i
single _ = none

abbrev pub simulated_context : Bool → Option ℕ → ExecutionContext
simulated_context available source = record {
  mode = if available then simulation else unavailable;
  provider = simulated_provider;
  connected_account_id = none;
  account_authorisation_revision = none;
  required_scope = none;
  source_mode = SourceMode.synthetic;
  source_account_id = source;
}

abbrev pub unavailable_context : String → SourceMode → Option ℕ → ExecutionContext
unavailable_context scope source_mode source = record {
  mode = unavailable;
  provider = google_provider;
  connected_account_id = none;
  account_authorisation_revision = none;
  required_scope = some scope;
  source_mode = source_mode;
  source_account_id = source;
}

-- The branch for evidence from exactly one Google account.
unfoldable pub google_context : String → ConnectedAccount → ExecutionContext
google_context scope a =
    if is_active a.status && contains a.granted_scopes scope
    then record {
      mode = real;
      provider = google_provider;
      connected_account_id = some a.id;
      account_authorisation_revision = some a.authorisation_revision;
      required_scope = some scope;
      source_mode = SourceMode.google;
      source_account_id = some a.id;
    }
    else unavailable_context scope SourceMode.google (some a.id)

abbrev pub task_context : List ConnectedAccount → Option ℕ → ExecutionContext
task_context [] source = simulated_context true source
task_context (_ ∷ _) source = record (simulated_context true source) {
  source_mode = SourceMode.google;
}

abbrev pub external_context :
    String → List ConnectedAccount → List ConnectedAccount → List ℕ → List ℕ → ExecutionContext
external_context scope accounts [] others ids =
    simulated_context (has_simulated_capability accounts) (single ids)
external_context scope accounts (a ∷ []) [] ids = google_context scope a
external_context scope accounts (a ∷ []) (_ ∷ _) ids =
    unavailable_context scope SourceMode.incompatible none
external_context scope accounts (a ∷ b ∷ more) others ids =
    unavailable_context scope SourceMode.incompatible none

abbrev pub context_for :
    Option String
    → List ConnectedAccount
    → List ConnectedAccount
    → List ℕ
    → List ℕ
    → ExecutionContext
context_for none accounts googles others ids = task_context googles (single ids)
context_for (some scope) accounts googles others ids =
    external_context scope accounts googles others ids

unfoldable pub resolve_execution_context :
    ActionType → List ConnectedAccount → List SourceItem → ExecutionContext
resolve_execution_context t accounts sources =
    let ids = distinct_account_ids sources in
    context_for (required_google_scope t) accounts (google_accounts accounts ids)
      (non_google_ids accounts ids) ids

-- `execution_context_hash`; the source mode is not part of it.
unfoldable pub execution_context_hash : Boundary → ExecutionContext → String
execution_context_hash B c = B.sha256 (
    context_document c.mode c.provider c.connected_account_id c.account_authorisation_revision
      c.required_scope c.source_account_id)

pub record ApprovedExecutionAuthorization : Type 0 where
  pub connected_account_id : ℕ
  pub provider : String
  pub authorisation_revision : ℕ
  pub required_scope : String
  pub execution_context_hash : String

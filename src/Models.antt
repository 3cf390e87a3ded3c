-- ===== src/Models.antt =====
-- The closed enumerations of models.py that the proposal lifecycle reads, and their stored values.
use lifeflow.Prelude.{Bool, true, false, String, Eq}

pub data ActionType : Type 0 where
  create_task create_gmail_draft create_calendar_event : ActionType

pub data RiskLevel : Type 0 where
  low medium : RiskLevel

pub data ProposalStatus : Type 0 where
  proposed edited approved rejected executing executed failed expired : ProposalStatus

pub data ExecutionOutcome : Type 0 where
  pending succeeded failed uncertain : ExecutionOutcome

pub data ExecutionMode : Type 0 where
  simulation real unavailable : ExecutionMode

pub data AccountStatus : Type 0 where
  active expired revoked disconnected : AccountStatus

ActionType-discrete : Discrete ActionType
ActionType-discrete = hlevel

RiskLevel-discrete : Discrete RiskLevel
RiskLevel-discrete = hlevel

ExecutionMode-discrete : Discrete ExecutionMode
ExecutionMode-discrete = hlevel

instance unfoldable pub action_type_eq : Eq ActionType
unfolding ActionType-discrete
action_type_eq = record { dec = ActionType-discrete }

instance unfoldable pub risk_level_eq : Eq RiskLevel
unfolding RiskLevel-discrete
risk_level_eq = record { dec = RiskLevel-discrete }

instance unfoldable pub execution_mode_eq : Eq ExecutionMode
unfolding ExecutionMode-discrete
execution_mode_eq = record { dec = ExecutionMode-discrete }

unfoldable pub action_type_value : ActionType → String
action_type_value create_task = "create_task"
action_type_value create_gmail_draft = "create_gmail_draft"
action_type_value create_calendar_event = "create_calendar_event"

unfoldable pub execution_mode_value : ExecutionMode → String
execution_mode_value simulation = "simulation"
execution_mode_value real = "real"
execution_mode_value unavailable = "unavailable"

-- The three statuses from which the owner, or the clock, may still move a proposal. They are
-- also those that fill the one active slot of an action type.
unfoldable pub is_open : ProposalStatus → Bool
is_open ProposalStatus.proposed = true
is_open ProposalStatus.edited = true
is_open ProposalStatus.approved = true
is_open _ = false

abbrev pub is_proposed : ProposalStatus → Bool
is_proposed ProposalStatus.proposed = true
is_proposed _ = false

abbrev pub is_edited : ProposalStatus → Bool
is_edited ProposalStatus.edited = true
is_edited _ = false

abbrev pub is_approved : ProposalStatus → Bool
is_approved ProposalStatus.approved = true
is_approved _ = false

abbrev pub is_pending : ExecutionOutcome → Bool
is_pending ExecutionOutcome.pending = true
is_pending _ = false

abbrev pub is_active : AccountStatus → Bool
is_active AccountStatus.active = true
is_active _ = false

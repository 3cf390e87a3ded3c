-- ===== src/Proposals/Session.antt =====
-- The state of one service call on one locked proposal row: the row and the audit events of the
-- call so far. A call that is refused keeps what it has written; the database session rolls back
-- only when another exception leaves the request (deps.py).
use lifeflow.Prelude.{ℕ, Bool, String, List, [], ◌∷◌, ◌++◌, Option, if◌then◌else◌}
use lifeflow.Models.{ActionType, ExecutionMode}
use lifeflow.Records.{ActionProposal}
use lifeflow.Outcome.{Code, Result, ok, refused, raised}

pub data Actor : Type 0 where
  user : ℕ → Actor
  system : String → Actor

-- A value of an event's metadata.
pub data Detail : Type 0 where
  kind : ActionType → Detail
  text : String → Detail
  number : ℕ → Detail
  optional : Option ℕ → Detail
  flag : Bool → Detail
  mode : ExecutionMode → Detail
  code : Code → Detail

-- `AuditEvent`, without its timestamp and correlation id. Every event here is about a proposal.
pub record AuditEvent : Type 0 where
  pub user_id : ℕ
  pub actor : Actor
  pub event_type : String
  pub entity_id : ℕ
  pub metadata : List (String × Detail)

pub record Work : Type 0 where
  pub proposal : ActionProposal
  pub audit : List AuditEvent

abbrev pub Action : Type 0 → Type 0
Action A = Work → Result A × Work

module _ {A : Type 0} where
  abbrev pub pure : A → Action A
  pure a w = (ok a, w)

  abbrev pub lift : Result A → Action A
  lift r w = (r, w)

infixl 5 ◌>>=◌ ◌>>◌
abbrev pub ◌>>=◌ : {A B : Type 0} → Action A → (A → Action B) → Action B
◌>>=◌ m f w =
    let (r, w') = m w in
    elim r [ ok a ↦ f a w' | refused c ↦ (refused c, w') | raised ↦ (raised, w') ]

abbrev pub ◌>>◌ : {A B : Type 0} → Action A → Action B → Action B
m >> k = m >>= λ _. k

abbrev pub row : Action ActionProposal
row w = (ok w.proposal, w)

-- What a call writes: to the row, or behind the last audit event (`_audit`).
abbrev pub update : (ActionProposal → ActionProposal) → Work → Work
update f w = record w { proposal = f w.proposal }

abbrev pub event : ℕ → Actor → String → List (String × Detail) → Work → Work
event user_id actor event_type metadata w = record w {
  audit =
      w.audit
      ++ (record {
        user_id = user_id;
        actor = actor;
        event_type = event_type;
        entity_id = w.proposal.id;
        metadata = metadata;
      }
          ∷ []);
}

abbrev pub write : (Work → Work) → Action (Unit {0})
write f w = (ok tt, f w)

abbrev pub write_if : Bool → (Work → Work) → Action (Unit {0})
write_if b f w = (ok tt, if b then f w else w)

abbrev pub guard : Bool → Code → Action (Unit {0})
guard b c w = (if b then ok tt else refused c, w)

-- Written before the refusal that follows.
abbrev pub refuse_if_with : Bool → (Work → Work) → Code → Action (Unit {0})
refuse_if_with b f c w = (if b then refused c else ok tt, if b then f w else w)

abbrev pub on_refusal : {A : Type 0} → Result A → (Code → Work → Work) → Work → Work
on_refusal (ok a) f w = w
on_refusal (refused c) f w = f c w
on_refusal raised f w = w

-- `try: … except PolicyViolationError as exc: …; raise ProposalConflictError(exc.code)`
abbrev pub attempt : {A : Type 0} → Result A → (Code → Work → Work) → Action A
attempt r f w = (r, on_refusal r f w)

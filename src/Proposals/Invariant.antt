-- ===== src/Proposals/Invariant.antt =====
-- The invariant of a row of `action_proposals` between two calls of `ActionProposalService`.
use lifeflow.Prelude.{ℕ, ◌≤◌, true, false, ◌≡◌, refl, String, some, arith, nat_eq, string_eq}
use lifeflow.Models.{ExecutionMode, is_approved, action_type_eq}
use lifeflow.Payloads.{Boundary, action_document, binding_document, canonical_payload}
use lifeflow.Records.{ActionProposal}
use lifeflow.Context.{ExecutionContext, execution_context_hash}
use lifeflow.Policy.{approved_context, edited_after, is_unavailable}
use lifeflow.Proposals.Operations.{approve_row}

-- An approval is for exactly the row as it stands, and its hashes fit one another.
pub record Snapshot (B : Boundary) (p : ActionProposal) : Type 0 where
  pub mode : ExecutionMode
  pub provider : String
  pub approved_at : ℕ
  pub action_type : p.approved_action_type ≡ some p.action_type
  pub payload_json : p.approved_payload_json ≡ some p.payload_json
  pub payload_hash : p.approved_payload_hash ≡ some p.payload_hash
  pub version : p.approved_version ≡ some p.version
  pub has_mode : p.approved_execution_mode ≡ some mode
  pub has_provider : p.approved_provider ≡ some provider
  pub approved : p.approved_at ≡ some approved_at
  pub context :
      p.approved_execution_context_hash
      ≡ some (execution_context_hash B (approved_context p mode provider))
  pub binding :
      p.approved_binding_hash
      ≡ some (
          B.sha256 (
            binding_document p.action_type p.payload_json p.version
              (execution_context_hash B (approved_context p mode provider))))
  pub fresh : edited_after p.user_edited_at approved_at ≡ false
  pub available : is_unavailable mode ≡ false

-- At a clock that has reached `now`.
pub record IsValid (B : Boundary) (now : ℕ) (p : ActionProposal) : Type 0 where
  pub canonical : canonical_payload B p.action_type p.payload_json ≡ some p.payload_json
  pub hashed : p.payload_hash ≡ B.sha256 (action_document p.action_type p.payload_json)
  pub positive : 1 ≤ p.version
  pub edited_by : edited_after p.user_edited_at now ≡ false
  pub snapshot : is_approved p.status ≡ true → Snapshot B p

module _ (B : Boundary) (user_id now : ℕ) where
  -- What `approve` writes, for the action type and payload of the row itself.
  abbrev pub approved_row : ExecutionContext → ActionProposal → ActionProposal
  approved_row c p =
      approve_row user_id B now p.action_type p.payload_json
        (B.sha256
          (binding_document p.action_type p.payload_json p.version (execution_context_hash B c)))
        c p

  pub approved_row-IsValid :
      (before : ℕ) (c : ExecutionContext) (p : ActionProposal)
      → before ≤ now
      → IsValid B before p
      → is_unavailable c.mode ≡ false
      → IsValid B now (approved_row c p)
  unfolding approve_row execution_context_hash
  approved_row-IsValid before c p le v a =
      let fresh : edited_after p.user_edited_at now ≡ false = ground (arith, v.edited_by) in
      record {
        canonical = v.canonical;
        hashed = v.hashed;
        positive = v.positive;
        edited_by = fresh;
        snapshot = λ _. record {
          mode = c.mode;
          provider = c.provider;
          approved_at = now;
          action_type = refl;
          payload_json = refl;
          payload_hash = refl;
          version = refl;
          has_mode = refl;
          has_provider = refl;
          approved = refl;
          context = refl;
          binding = refl;
          fresh = fresh;
          available = a;
        };
      }

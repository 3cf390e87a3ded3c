-- ===== src/Payloads/Hashing.antt =====
-- The hashes of action_payloads.py, and the boundary to what the program does not implement.
use lifeflow.Prelude.{ℕ, Bool, String, Option, none, some, ltb, if◌then◌else◌}
use lifeflow.Models.{ActionType, ExecutionMode}
use lifeflow.Payloads.Schema.{Payload, parse_action_payload}

-- What the program feeds to SHA-256, before it is spelled out as canonical JSON or joined with
-- separators. Each constructor is one format.
pub data Document : Type 0 where
  -- mode, provider, connected account, authorisation revision, required scope, source account
  context_document :
      ExecutionMode → String → Option ℕ → Option ℕ → Option String → Option ℕ → Document
  -- `canonical_action_bytes`
  action_document : ActionType → Payload → Document
  -- the action, the proposal's version and the hash of the execution context
  binding_document : ActionType → Payload → ℕ → String → Document
  -- `stage7-exec-v1|proposal|type|version|payload hash`
  execution_document : ℕ → ActionType → ℕ → String → Document

pub record Boundary : Type 0 where
  -- hashlib's SHA-256 in hexadecimal, over the encoding of a document
  pub sha256 : Document → String
  -- whether `ZoneInfo` finds the name in the time zone database
  pub zone_exists : String → Bool

module _ (B : Boundary) where
  -- `canonical_payload`
  abbrev pub canonical_payload : ActionType → Payload → Option Payload
  canonical_payload = parse_action_payload B.zone_exists

  abbrev action_hash_of : ActionType → Option Payload → Option String
  action_hash_of t none = none
  action_hash_of t (some p) = some (B.sha256 (action_document t p))

  unfoldable pub action_payload_hash : ActionType → Payload → Option String
  action_payload_hash t p = action_hash_of t (canonical_payload t p)

  abbrev binding_hash_of : ActionType → ℕ → String → Option Payload → Option String
  binding_hash_of t version context_hash none = none
  binding_hash_of t version context_hash (some p) =
      some (B.sha256 (binding_document t p version context_hash))

  -- `none` is an exception: a version below 1, or an invalid payload.
  unfoldable pub approval_binding_hash : ActionType → Payload → ℕ → String → Option String
  approval_binding_hash t p version context_hash =
      if ltb version 1 then none else binding_hash_of t version context_hash (canonical_payload t p)

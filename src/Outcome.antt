-- ===== src/Outcome.antt =====
-- How a call ends: with a value; with a `ProposalConflictError` (or, inside the policy engine, a
-- `PolicyViolationError`) of a code; or with any other exception. The message that goes with a
-- code is fixed text and left out.
use lifeflow.Prelude.{Bool, true, false, Option, none, some, ◌≡◌, refl, ◌⊎◌, inl, inr}

pub data Code : Type 0 where
  not_found stale_version stale_action_type invalid_transition proposal_expired : Code
  ownership_mismatch risk_mismatch payload_hash_mismatch invalid_due_at invalid_event_time : Code
  stale_preview simulated_scope_missing stale_execution_context : Code
  approval_missing approval_mismatch approval_stale approval_context_changed : Code

pub data Result {ℓ} (A : Type ℓ) : Type ℓ where
  ok : A → Result A
  refused : Code → Result A
  raised : Result A

module _ {A : Type 0} where
  -- `if not test: raise …(code)`
  abbrev pub or_refuse : Option A → Code → Result A
  or_refuse none code = refused code
  or_refuse (some a) code = ok a

  abbrev pub or_raise : Option A → Result A
  or_raise none = raised
  or_raise (some a) = ok a

  abbrev pub is_ok : Result A → Bool
  is_ok (ok a) = true
  is_ok (refused code) = false
  is_ok raised = false

abbrev pub refuse_if : Bool → Code → Result (Unit {0})
refuse_if true code = refused code
refuse_if false code = ok tt

infixl 5 ◌>>=◌ ◌>>◌
abbrev pub ◌>>=◌ {ℓ κ} : {A : Type ℓ} {B : Type κ} → Result A → (A → Result B) → Result B
ok a >>= f = f a
refused code >>= f = refused code
raised >>= f = raised

abbrev pub ◌>>◌ {ℓ} : {B : Type ℓ} → Result (Unit {0}) → Result B → Result B
m >> k = m >>= λ _. k

-- To split on how a call ended and keep the equation.
pub Result-cases {ℓ} :
    {A : Type ℓ} (r : Result A)
    → ((a : A) × (r ≡ ok a)) ⊎ (((c : Code) × (r ≡ refused c)) ⊎ (r ≡ raised))
Result-cases (ok a) = inl (a, refl)
Result-cases (refused c) = inr (inl (c, refl))
Result-cases raised = inr (inr refl)

pub is_ok-value : {A : Type 0} (r : Result A) → is_ok r ≡ true → (a : A) × (r ≡ ok a)
is_ok-value (ok a) h = (a, refl)
is_ok-value (refused c) h = cc
is_ok-value raised h = cc

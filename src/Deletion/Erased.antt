-- ===== src/Deletion/Erased.antt =====
-- A proposal that a deletion has minimised, before the policy engine of action_policy.py and `execute`
-- of action_proposal_service.py.
use lifeflow.Prelude.{Option, String, ℕ, List}
use lifeflow.Payloads.{Boundary}
use lifeflow.Records.{ConnectedAccount, SourceItem, ActionExecution}
use lifeflow.Policy.{Displayed}
use lifeflow.Proposals.{Work, begin, approve, reject, Actor, Reply, finish, expire_if_due}

module _ (B : Boundary) where
  -- Any calls on a row but `edit`, each at its own time and with its own accounts and evidence.
  pub data Unedited (user_id : ℕ) (w : Work) : Work → Type 0 where
    unchanged : Unedited user_id w w
    approves :
        {w' : Work} (now : ℕ) (accounts : List ConnectedAccount) (sources : List SourceItem)
        (d : Displayed)
        → Unedited user_id w w'
        → Unedited user_id w (approve user_id B now accounts sources d w').1
    rejects :
        {w' : Work} (now version : ℕ) (reason : Option String)
        → Unedited user_id w w'
        → Unedited user_id w (reject user_id B now version reason w').1
    begins :
        {w' : Work} (now id started_at : ℕ) (accounts : List ConnectedAccount)
        (sources : List SourceItem)
        → Unedited user_id w w'
        → Unedited user_id w (begin user_id B now id started_at accounts sources w').1
    finishes :
        {w' : Work} (completed_at : ℕ) (e : ActionExecution) (reply : Reply)
        → Unedited user_id w w'
        → Unedited user_id w (finish user_id completed_at e reply w').1
    expires :
        {w' : Work} (now : ℕ) (actor : Actor)
        → Unedited user_id w w'
        → Unedited user_id w (expire_if_due user_id now actor w').1

-- ===== src/Producer/Setting.antt =====
-- What `ProducerManager` (producer/manager.py) works with, and the steps that its methods are made
-- of. The state object is saved as a whole: every version that was saved is kept, the latest
-- first, which is what `repository.load` reads.
use prdcp.Shared.{
  ℕ, suc, String, Bool, Option, List, [], ◌∷◌, ◌++◌, Outcome, ok, raise, index_error, Json, Fields,
}
use prdcp.Revision.Layers.{DateTime}
use prdcp.Revision.External.{External}
use prdcp.Retrieval.Model.{Digests}
use prdcp.Pmp.{PmpMessage}
use prdcp.Exchange.Exec.{Exec}
use prdcp.Exchange.Store.{Repository}
use prdcp.Producer.Model.{ProducerWorkflowState}

-- The settings of a manager, and what is outside of it: the texts of JSON values and times, the
-- identifiers and times that are drawn one after the other, the digests, and the registered agents.
pub record Manager : Type 0 where
  pub x : External
  pub max_revisions : ℕ
  pub demo_safe_mode : Bool
  -- `str` of a JSON value, and the JSON text of a time.
  pub show : Json → String
  pub time_text : DateTime → String
  pub uuid : ℕ → String
  pub now : ℕ → DateTime
  -- `registry.get(agent).execute(request)`, which may answer otherwise each time.
  pub execute : ℕ → String → PmpMessage → Outcome PmpMessage
  -- `canonical_sha256` of an object.
  pub plan_sha256 : Fields → String
  -- `str(uuid5(NAMESPACE_URL, name))` and its `hex`.
  pub uuid5 : String → String
  pub uuid5_hex : String → String
  -- The retrieval coordinator of the general opinion analyst.
  pub coordinator : Option Digests

pub record World : Type 0 where
  pub state : ProducerWorkflowState
  pub saved : List ProducerWorkflowState
  -- The file of the workflow in outbox/researcher.
  pub outbox : Option PmpMessage
  pub exchange : Repository
  -- How many identifiers, times and answers were drawn.
  pub drawn : ℕ

abbrev pub Step : Type 0 → Type 0
Step = Exec World

abbrev pub current : Step ProducerWorkflowState
current w = (ok w.state, w)

abbrev pub put : ProducerWorkflowState → Step (Unit {0})
put s w = (ok tt, record w { state = s })

abbrev pub modify : (ProducerWorkflowState → ProducerWorkflowState) → Step (Unit {0})
modify f w = (ok tt, record w { state = f w.state })

-- `repository.save`
abbrev pub save : Step (Unit {0})
save w = (ok tt, record w { saved = w.state ∷ w.saved })

abbrev pub draw : Step ℕ
draw w = (ok w.drawn, record w { drawn = suc w.drawn })

-- A method of the revision exchange.
abbrev pub exchanging : {A : Type 0} → Exec Repository A → Step A
exchanging m w = let (r, e) = m w.exchange in (r, record w { exchange = e })

-- state.message_history.append
abbrev pub append_message : PmpMessage → Step (Unit {0})
append_message m = modify (λ s. record s { message_history = s.message_history ++ m ∷ [] })

-- xs[-1]
abbrev pub last : List Fields → Outcome Fields
last [] = raise index_error
last (x ∷ []) = ok x
last (x ∷ y ∷ ys) = last (y ∷ ys)

-- `try`: the exception of a step as a value.
abbrev pub attempt : {A : Type 0} → Step A → Step (Outcome A)
attempt m w = let (r, w') = m w in (ok r, w')

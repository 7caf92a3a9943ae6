-- ===== src/Producer/Model.antt =====
-- The data of the producer: `WorkflowStatus` of common/models/workflow.py, the state of
-- producer/state.py, and the order of the agents of producer/workflow.py. The time of the last
-- change of a state, which nothing reads, is left out.
pub use prdcp.Shared.{take, drop}
use prdcp.Shared.{
  ℕ, suc, String, Bool, Option, List, [], ◌∷◌, ◌==◌, text_eq, if◌then◌else◌, Outcome, ok, raise,
  value_error, Fields,
}
use prdcp.Revision.Layers.{DateTime}
use prdcp.Revision.Control.{RevisionControlState}
use prdcp.Pmp.{PmpMessage}

pub data WorkflowStatus : Type 0 where
  created running dispatching collecting integrating generating_positions : WorkflowStatus
  evaluating_positions integrating_decision waiting_agent reviewing revising : WorkflowStatus
  waiting_upstream_revision waiting_human_evidence_review : WorkflowStatus
  waiting_human_selection finalizing partially_completed approved : WorkflowStatus
  completed_revision completed blocked failed : WorkflowStatus

pub record RevisionRecord : Type 0 where
  pub iteration : ℕ
  pub target_agent : String
  pub reason : String
  pub required_action : String
  pub revision_request_id : Option String
  pub source_finding_ids : List String
  pub provider_task_ids : List String
  pub retrieval_reservation_ids : List String
  pub created_at : DateTime

-- `QualityGateDecision`, and `QualityReviewOutput` of producer/schemas/review.py.
pub data QualityGateDecision : Type 0 where
  approved approved_with_conditions revision_required blocked : QualityGateDecision

pub record QualityReviewOutput : Type 0 where
  pub status : QualityGateDecision
  pub revision_target : Option String
  pub reason : String
  pub required_action : Option String
  pub approved_research_plan : Option Fields

pub record ProducerWorkflowState : Type 0 where
  pub workflow_id : String
  pub status : WorkflowStatus
  pub current_agent_id : Option String
  pub initial_request : Fields
  pub topic_candidates : List Fields
  pub selected_topic : Option Fields
  pub general_opinion : Option Fields
  pub research_plan : Option Fields
  pub review_result : Option QualityReviewOutput
  pub revision_count : ℕ
  pub revision_history : List RevisionRecord
  pub revision_control : RevisionControlState
  pub completed_agents : List String
  pub message_history : List PmpMessage
  pub role_definition_usage : List Fields
  pub researcher_sent : Bool
  -- The text at "message".
  pub error : Option String
  pub created_at : DateTime
  pub completed_at : Option DateTime

abbrev pub topic_scout : String
topic_scout = "producer.topic_scout"

abbrev pub topic_selector : String
topic_selector = "producer.topic_selector"

abbrev pub general_opinion_analyst : String
general_opinion_analyst = "producer.general_opinion_analyst"

abbrev pub research_planner : String
research_planner = "producer.research_planner"

abbrev pub quality_reviewer : String
quality_reviewer = "producer.quality_reviewer"

abbrev pub manager_id : String
manager_id = "producer.manager"

abbrev pub agent_order : List String
agent_order =
    topic_scout ∷ topic_selector ∷ general_opinion_analyst ∷ research_planner ∷ quality_reviewer
    ∷ []

-- xs.index(x)
abbrev pub index : List String → String → Outcome ℕ
index [] x = raise (value_error "not in list")
index (y ∷ ys) x =
    let rest = index ys x in
    if y == x then ok 0 else elim rest [ ok n ↦ ok (suc n) | raise e ↦ raise e ]

-- list(dict.fromkeys(xs)): each item where it stands first.
abbrev pub remove : String → List String → List String
remove x [] = []
remove x (y ∷ ys) = let rest = remove x ys in if y == x then rest else y ∷ rest

abbrev pub from_keys : List String → List String
from_keys [] = []
from_keys (x ∷ xs) = x ∷ remove x (from_keys xs)

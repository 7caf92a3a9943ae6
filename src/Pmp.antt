-- ===== src/Pmp.antt =====
-- common/models/pmp.py, the message envelope, and common/validation/pmp_validator.py. The
-- payload of a revision message is the record that it stands for.
pub mod Registry
use prdcp.Shared.{
  ℕ, suc, ◌+◌, String, Bool, true, false, not, Option, none, some, List, [], ◌∷◌, ◌==◌, text_eq,
  if◌then◌else◌, contains, is_agent_id, Outcome, ok, raise, Guard, ◌raises◌, check, ◌>>=◌, ◌>>◌,
  value_error, pmp_validation_error, append, Fields,
}
use prdcp.Revision.Layers.{DateTime, is_naive}
use prdcp.Revision.Request.{RevisionRequest, min_length_1}
use prdcp.Revision.Result.{RevisionResult}

pub data MessageType : Type 0 where
  task result info error review revision_request revision_result status_update : MessageType
  cancellation research_plan research_result research_revision_request : MessageType
  research_revision_result human_evidence_decision : MessageType
  deliberation_task_assignment deliberation_task_result deliberation_result : MessageType
  deliberation_quality_review_assignment deliberation_quality_review_result : MessageType
  position_generation_assignment position_generation_result : MessageType
  decision_evaluation_assignment decision_evaluation_result : MessageType
  decision_integration_assignment decision_integration_result : MessageType
  conclusion_quality_review_assignment conclusion_quality_review_result : MessageType
  conclusion_handoff quality_review_request quality_review_result : MessageType
  final_script_delivery : MessageType

pub data MessageStatus : Type 0 where
  created queued in_progress completed revision_required failed cancelled : MessageStatus

pub data Priority : Type 0 where
  critical high medium low : Priority

pub record PmpContext : Type 0 where
  pub current_stage : String
  pub previous_stage : String
  pub next_stage : String

pub record PmpRouting : Type 0 where
  pub revision_target : Option String
  pub reply_required : Bool

pub record PmpMetadata : Type 0 where
  pub created_at : DateTime
  pub updated_at : DateTime
  pub status : MessageStatus
  pub priority : Priority
  pub retry_count : ℕ
  pub notes : String
  pub extensions : Fields

-- A payload object: with the keys of a revision request or of a revision result, or any other.
pub data Payload : Type 0 where
  request : RevisionRequest → Payload
  result : RevisionResult → Payload
  other : Fields → Payload

pub record PmpMessage : Type 0 where
  pub protocol_version : String
  pub message_id : String
  pub workflow_id : String
  pub parent_message_id : Option String
  pub sender_agent_id : String
  pub receiver_agent_id : String
  pub message_type : MessageType
  pub objective : String
  pub payload : Payload
  pub constraints : Fields
  pub context : PmpContext
  pub routing : PmpRouting
  pub metadata : PmpMetadata

module _ (is_uuid : String → Bool) where
  -- The field constraints, the field validators, and `prevent_self_routing`.
  unfoldable pub message_guards : PmpMessage → List Guard
  message_guards m =
      not (m.protocol_version == "2.0") raises value_error "protocol_version"
      ∷ min_length_1 "message_id" m.message_id
      ∷ min_length_1 "workflow_id" m.workflow_id
      ∷ not (is_uuid m.message_id) raises value_error "message_id must be a UUID string"
      ∷ not (is_uuid m.workflow_id) raises value_error "workflow_id must be a UUID string"
      ∷ elim m.parent_message_id [ none ↦ false | some p ↦ not (is_uuid p) ]
        raises value_error "parent_message_id must be a UUID string or null"
      ∷ not (is_agent_id m.sender_agent_id) raises value_error "sender_agent_id"
      ∷ not (is_agent_id m.receiver_agent_id) raises value_error "receiver_agent_id"
      ∷ min_length_1 "objective" m.objective
      ∷ is_naive m.metadata.created_at raises value_error "PMP timestamps must include a timezone"
      ∷ is_naive m.metadata.updated_at raises value_error "PMP timestamps must include a timezone"
      ∷ (m.sender_agent_id == m.receiver_agent_id)
        raises value_error "sender_agent_id and receiver_agent_id must differ"
      ∷ []

  -- `PMPMessage.model_validate`
  unfoldable pub validate_message : PmpMessage → Outcome PmpMessage
  unfolding message_guards check
  validate_message m = check (message_guards m) >> ok m

  -- `with_retry`, given the new message id and the time.
  unfoldable pub with_retry : String → DateTime → String → PmpMessage → Outcome PmpMessage
  unfolding validate_message
  with_retry new_id now note m =
      let metadata = record m.metadata {
        updated_at = now;
        retry_count = m.metadata.retry_count + 1;
        notes = if note == "" then m.metadata.notes else note;
      } in
      validate_message (record m {
        message_id = new_id;
        parent_message_id = some m.message_id;
        metadata = metadata;
      })

-- The registered agents, and the delivery endpoint that is no agent.
abbrev pub agent_ids : List String → List String
agent_ids registry = "system.final_output" ∷ registry

abbrev pub unknown_target : List String → Option String → Bool
unknown_target registry none = false
unknown_target registry (some t) = not (contains (agent_ids registry) t)

abbrev target_text : Option String → String
target_text none = ""
target_text (some t) = t

-- `PMPValidator.validate` of a message that is a `PMPMessage` already.
unfoldable pub registry_guards : List String → PmpMessage → List Guard
unfolding contains
registry_guards registry m =
    not (contains (agent_ids registry) m.sender_agent_id)
      raises pmp_validation_error (append "Unknown sender_agent_id: " m.sender_agent_id)
    ∷ not (contains (agent_ids registry) m.receiver_agent_id)
      raises pmp_validation_error (append "Unknown receiver_agent_id: " m.receiver_agent_id)
    ∷ unknown_target registry m.routing.revision_target
      raises pmp_validation_error
          (append "Unknown routing.revision_target: " (target_text m.routing.revision_target))
    ∷ []

unfoldable pub pmp_validate : List String → PmpMessage → Outcome PmpMessage
unfolding registry_guards check
pmp_validate registry m = check (registry_guards registry m) >> ok m

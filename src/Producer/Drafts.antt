-- ===== src/Producer/Drafts.antt =====
-- The messages of `ProducerManager` (producer/manager.py) before they have an identifier, and the
-- guards on a response.
use prdcp.Shared.{
  ℕ, zero, suc, String, Bool, true, false, ◌||◌, not, Option, none, some, List, [], ◌∷◌, ◌++◌, ◌==◌,
  text_eq, nat_eq, if◌then◌else◌, Outcome, ok, raise, Error, Guard, ◌raises◌, value_error,
  pmp_validation_error, file_not_found, revision_budget_exhausted, non_retryable_agent_error,
  key_error, type_error, attribute_error, append, Json, Fields, get,
}
use prdcp.Revision.Layers.{DateTime}
use prdcp.Revision.Request.{is_some_of}
use prdcp.Pmp.{PmpMessage, PmpContext, PmpRouting, MessageType, MessageStatus, Priority, Payload}
use prdcp.Producer.Model.{agent_order, quality_reviewer, manager_id}
use prdcp.Producer.Payload.{fields_of}

-- What `PMPMessage.create` is given; the routing and the priority are the defaults here.
pub record Draft : Type 0 where
  pub parent_message_id : Option String
  pub sender_agent_id : String
  pub receiver_agent_id : String
  pub message_type : MessageType
  pub objective : String
  pub payload : Payload
  pub constraints : Fields
  pub context : PmpContext
  pub routing : PmpRouting
  pub status : MessageStatus
  pub extensions : Fields

-- The message of a draft, with its identifier and times.
abbrev pub of_draft : Draft → String → String → DateTime → DateTime → PmpMessage
of_draft d workflow id created updated = record {
  protocol_version = "2.0";
  message_id = id;
  workflow_id = workflow;
  parent_message_id = d.parent_message_id;
  sender_agent_id = d.sender_agent_id;
  receiver_agent_id = d.receiver_agent_id;
  message_type = d.message_type;
  objective = d.objective;
  payload = d.payload;
  constraints = d.constraints;
  context = d.context;
  routing = d.routing;
  metadata = record {
    created_at = created;
    updated_at = updated;
    status = d.status;
    priority = Priority.medium;
    retry_count = 0;
    notes = "";
    extensions = d.extensions;
  };
}

abbrev pub default_routing : PmpRouting
default_routing = record { revision_target = none; reply_required = true }

-- xs[i], or a default
abbrev pub nth : List String → ℕ → String → String
nth [] i default = default
nth (x ∷ xs) zero default = x
nth (x ∷ xs) (suc i) default = nth xs i default

abbrev pub previous_stage : ℕ → String
previous_stage zero = manager_id
previous_stage (suc i) = nth agent_order i manager_id

-- {key: value} if the value is set
abbrev optional : String → Option String → List (String × Json)
optional key none = []
optional key (some t) = (key, Json.string t) ∷ []

-- overrides.get(agent)
abbrev pub override : List (String × String) → String → Option String
override [] agent = none
override ((a, t) ∷ os) agent = if a == agent then some t else override os agent

abbrev pub task_draft : String → ℕ → Fields → Fields → Option String → Option String → Draft
task_draft agent i payload role provider_task retrieval_task = record {
  parent_message_id = none;
  sender_agent_id = manager_id;
  receiver_agent_id = agent;
  message_type = MessageType.task;
  objective = append (append "Execute " agent) " in Producer workflow";
  payload = Payload.other payload;
  constraints = fields_of (("do_not_judge_general_opinion_truth", Json.boolean true) ∷ []);
  context = record {
    current_stage = agent;
    previous_stage = previous_stage i;
    next_stage = nth agent_order (suc i) manager_id;
  };
  routing = default_routing;
  status = MessageStatus.queued;
  extensions = fields_of (
      ("role_definition", Json.object role) ∷ optional "provider_task_id" provider_task
      ++ optional "retrieval_task_id" retrieval_task);
}

-- The exception as the text of an error.
abbrev pub error_text : Error → String
error_text (value_error t) = t
error_text (pmp_validation_error t) = t
error_text (file_not_found t) = t
error_text (revision_budget_exhausted t) = t
error_text (non_retryable_agent_error t) = t
error_text (key_error t) = t
error_text Error.file_exists_error = "file exists"
error_text Error.os_error = "os error"
error_text type_error = "type error"
error_text attribute_error = "attribute error"
error_text Error.index_error = "index error"

-- The payload as an object; one of a revision has none of the keys that the producer reads.
abbrev pub payload_fields : Payload → Fields
payload_fields (Payload.request r) = Fields.end
payload_fields (Payload.result r) = Fields.end
payload_fields (Payload.other fs) = fs

abbrev pub is_error : MessageType → Bool
is_error MessageType.error = true
is_error _ = false

abbrev pub is_review : MessageType → Bool
is_review MessageType.review = true
is_review _ = false

abbrev pub is_result : MessageType → Bool
is_result MessageType.result = true
is_result _ = false

-- message_type == expected
abbrev pub is_expected : String → MessageType → Bool
is_expected agent t = if agent == quality_reviewer then is_review t else is_result t

abbrev error_message : (Json → String) → Option Json → String
error_message show none = "unknown error"
error_message show (some v) = show v

-- `_validate_response` after the PMP validation: the tests in their order, each with its text.
abbrev pub response_guards : (Json → String) → PmpMessage → PmpMessage → String → List Guard
response_guards show request response agent =
    (not (response.workflow_id == request.workflow_id)
      raises value_error (append "Workflow ID mismatch from " agent))
    ∷ (not (is_some_of response.parent_message_id request.message_id)
        raises value_error (append "Parent message ID mismatch from " agent))
    ∷ ((not (response.sender_agent_id == agent) || not (response.receiver_agent_id == manager_id))
        raises value_error (append "Invalid routing in response from " agent))
    ∷ (is_error response.message_type
        raises value_error (
            append (append agent ": ")
              (error_message show (get (payload_fields response.payload) "message"))))
    ∷ (not (is_expected agent response.message_type)
        raises value_error (append "Unexpected message type from " agent))
    ∷ []

abbrev pub error_of : Outcome (Unit {0}) → Option String
error_of (ok u) = none
error_of (raise e) = some (error_text e)

-- ===== src/Producer/Messages.antt =====
-- The messages of `ProducerManager` (producer/manager.py): the task of an agent, the check of its
-- response, and the handoff to the researcher.
use prdcp.Shared.{
  ℕ, String, Option, none, some, List, [], ◌∷◌, text_eq, nat_eq, if◌then◌else◌, all, Outcome, ok,
  raise, check, value_error, attribute_error, append, Json, Fields, has_key, truth_at, value_at,
  items,
}
use prdcp.Pmp.{PmpMessage, MessageType, MessageStatus, Payload, validate_message, pmp_validate}
use prdcp.Exchange.Exec.{lift, ◌>>=◌, ◌>>◌}
use prdcp.Producer.Model.{quality_reviewer, manager_id}
use prdcp.Producer.Setting.{Manager, Step, current, draw, append_message, last}
use prdcp.Producer.Payload.{build_payload, fields_of}
use prdcp.Producer.Drafts.{
  Draft, of_draft, default_routing, task_draft, error_text, response_guards, error_of,
}

module _ (m : Manager) where
  -- `PMPMessage.create`
  unfoldable pub create : Draft → Step PmpMessage
  unfolding validate_message
  create d = do
    s ← current
    id ← draw
    made ← draw
    changed ← draw
    lift (
        validate_message m.x.is_uuid
          (of_draft d s.workflow_id (m.uuid id) (m.now made) (m.now changed)))

  -- `_create_task_message`
  unfoldable pub create_task_message : String → ℕ → Option String → Option String → Step PmpMessage
  unfolding build_payload create
  create_task_message agent i provider_task retrieval_task = do
    s ← current
    payload ← lift (build_payload m.time_text s agent)
    role ← lift (last s.role_definition_usage)
    create (task_draft agent i payload role provider_task retrieval_task)

  -- `_validate_response`
  unfoldable pub validate_response : PmpMessage → PmpMessage → String → Option String
  unfolding pmp_validate check
  validate_response request response agent = elim (pmp_validate m.x.registry response) [
    | raise e ↦
        some (append (append (append "Invalid PMP response from " agent) ": ") (error_text e))
    | ok r ↦ error_of (check (response_guards m.show request response agent))
  ]

-- The keys of a handoff, sorted.
abbrev handoff_keys : List String
handoff_keys =
    "constraints" ∷ "general_opinion" ∷ "general_opinion_id" ∷ "research_plan_id"
    ∷ "research_questions" ∷ "scope" ∷ "topic" ∷ "topic_id" ∷ []

-- One question of a plan.
abbrev pub validate_question : Json → Outcome (Unit {0})
validate_question (Json.object fs) =
    if truth_at fs "research_question_id"
    then ok tt
    else raise (value_error "research_questions is missing research_question_id")
validate_question _ = raise attribute_error

abbrev pub validate_questions : List Json → Outcome (Unit {0})
validate_questions [] = ok tt
validate_questions (q ∷ qs) = elim (validate_question q) [
  | raise e ↦ raise e
  | ok u ↦ validate_questions qs
]

-- `_validate_handoff_payload`
unfoldable pub validate_handoff_payload : Fields → Outcome (Unit {0})
validate_handoff_payload payload =
    if all (has_key payload) handoff_keys
    then elim (value_at payload "research_questions") [
      | raise e ↦ raise e
      | ok v ↦ elim (items v) [ raise e ↦ raise e | ok qs ↦ validate_questions qs ]
    ]
    else raise (value_error "Producer→Researcher handoff is missing")

abbrev pub handoff_draft : Fields → Fields → Draft
handoff_draft plan role = record {
  parent_message_id = none;
  sender_agent_id = manager_id;
  receiver_agent_id = "researcher.manager";
  message_type = MessageType.research_plan;
  objective = "Begin evidence collection from the approved Producer research plan";
  payload = Payload.other plan;
  constraints = Fields.end;
  context = record {
    current_stage = "producer";
    previous_stage = quality_reviewer;
    next_stage = "researcher";
  };
  routing = default_routing;
  status = MessageStatus.completed;
  extensions = fields_of (("role_definition", Json.object role) ∷ []);
}

abbrev pub plan_of : Option Fields → Outcome Fields
plan_of none = raise (value_error "research_plan is missing")
plan_of (some plan) = ok plan

-- `repository.save_researcher_outbox`
abbrev pub save_researcher_outbox : PmpMessage → Step (Unit {0})
save_researcher_outbox message w = (ok tt, record w { outbox = some message })

-- The message of the handoff, in the outbox and in the history.
unfoldable pub deliver : Manager → Fields → Fields → Step (Unit {0})
unfolding create pmp_validate
deliver m plan role = do
  message ← create m (handoff_draft plan role)
  lift (pmp_validate m.x.registry message)
  save_researcher_outbox message
  append_message message

-- `_send_to_researcher`
unfoldable pub send_to_researcher : Manager → Step (Unit {0})
unfolding validate_handoff_payload deliver
send_to_researcher m = do
  s ← current
  plan ← lift (plan_of s.research_plan)
  lift (validate_handoff_payload plan)
  role ← lift (last s.role_definition_usage)
  deliver m plan role

-- ===== src/Examples/Producing.antt =====
-- A run of the producer with sample agents.
use prdcp.Shared.{
  starts_with, ℕ, ◌<◌, ◌↔◌, String, ◌≡◌, refl, Bool, true, false, none, some, [], ◌∷◌, arith,
  Bool-cases, inl, inr, ◌⊎◌, ◌==◌, text_eq, if◌then◌else◌, ok, raise, Error, Json, Fields, Items,
}
use prdcp.Revision.Layers.{aware, RevisionControlPhase}
use prdcp.Revision.Control.{RevisionControlState}
use prdcp.Pmp.{PmpMessage, MessageType, MessageStatus, Priority, Payload}
use prdcp.Producer.Model.{
  WorkflowStatus, ProducerWorkflowState, topic_scout, topic_selector, general_opinion_analyst,
  research_planner, quality_reviewer, manager_id, agent_order, take, from_keys,
}
use prdcp.Producer.Checkpoint.{recovery_start_index}
use prdcp.Producer.Setting.{Manager, World}
use prdcp.Producer.Payload.{fields_of}
use prdcp.Producer.Drafts.{payload_fields, is_result}
use prdcp.Producer.Recovery.{HasArtifacts, recovery_start_index_iff}
use prdcp.Producer.Progress.{IsCheckpoint, brings}
use prdcp.Producer.Steps.{IsAt}
use prdcp.Producer.Asking.{IsFruitful}
use prdcp.Producer.Accounting.{Round}
use prdcp.Producer.Settled.{IsSettled, IsRoundEnd}
use prdcp.Producer.Ending.{run_from-IsRoundEnd}
use prdcp.Producer.Safe.{run_from-finishes}
use prdcp.Producer.{run_from}
use prdcp.Examples.Samples.{x}

abbrev pub text : String → Json
text = Json.string

abbrev one : Json → Json
one v = Json.array (Items.item v Items.nil)

abbrev plan : Fields
plan = fields_of (
    ("research_plan_id", text "plan_1")
    ∷ ("topic_id", text "topic_1")
    ∷ ("topic", text "AI")
    ∷ ("general_opinion_id", text "opinion_1")
    ∷ ("general_opinion", text "mixed")
    ∷ (
      "research_questions",
      one (
          Json.object (
            fields_of (
              ("research_question_id", text "question_1")
              ∷ ("question", text "why?")
              ∷ ("research_targets", one (text "NEWS"))
              ∷ []))),
    )
    ∷ ("scope", one (text "Japan"))
    ∷ ("constraints", one (text "public sources"))
    ∷ [])

abbrev object : Fields
object = fields_of (("id", text "1") ∷ [])

abbrev artifacts : Fields
artifacts = fields_of (
    ("topic_candidates", one (Json.object object))
    ∷ ("selected_topic", Json.object object)
    ∷ ("general_opinion", Json.object object)
    ∷ ("research_plan", Json.object plan)
    ∷ [])

abbrev verdict : String → Fields
verdict status = fields_of (
    ("status", text status)
    ∷ ("reason", text "checked")
    ∷ ("approved_research_plan", Json.object plan)
    ∷ [])

abbrev pub is_last : String → Bool
is_last agent = agent == quality_reviewer

abbrev pub reply : String → String → PmpMessage → PmpMessage
reply status agent q = record {
  protocol_version = "2.0";
  message_id = "reply";
  workflow_id = q.workflow_id;
  parent_message_id = some q.message_id;
  sender_agent_id = agent;
  receiver_agent_id = manager_id;
  message_type = if is_last agent then MessageType.review else MessageType.result;
  objective = "answer";
  payload = Payload.other (if is_last agent then verdict status else artifacts);
  constraints = Fields.end;
  context = record { current_stage = ""; previous_stage = ""; next_stage = "" };
  routing = record { revision_target = none; reply_required = false };
  metadata = record {
    created_at = aware 1;
    updated_at = aware 1;
    status = MessageStatus.completed;
    priority = Priority.medium;
    retry_count = 0;
    notes = "";
    extensions = Fields.end;
  };
}

abbrev pub manager : String → Manager
manager status = record {
  x = record x { registry = "researcher.manager" ∷ manager_id ∷ agent_order };
  max_revisions = 1;
  demo_safe_mode = true;
  show = λ v. "text";
  time_text = λ t. "time";
  uuid = λ n. "uuid";
  now = λ n. aware n;
  execute = λ n agent q. ok (reply status agent q);
  plan_sha256 = λ p. x.sha256 "";
  uuid5 = λ s. s;
  uuid5_hex = λ s. if starts_with s "workflow_1|producer|producer|1|" then "1" else "2";
  coordinator = none;
}

abbrev control : RevisionControlState
control = record {
  phase = RevisionControlPhase.idle;
  revision_epoch = 0;
  active_request_id = none;
  active_request_message_id = none;
  active_result_id = none;
  root_revision_request_id = none;
  parent_revision_request_id = none;
  pending_request_ids = [];
  consumed_request_ids = [];
  consumed_result_ids = [];
  audit_event_ids = [];
}

abbrev fresh : ProducerWorkflowState
fresh = record {
  workflow_id = "workflow_1";
  status = WorkflowStatus.created;
  current_agent_id = none;
  initial_request = fields_of (
      ("topic", text "AI")
      ∷ (
        "search_constraints",
        Json.object (
            fields_of (
              ("sources", one (text "news"))
              ∷ ("language", text "ja")
              ∷ ("max_candidates", Json.number 3)
              ∷ ("required_keywords", one (text "AI"))
              ∷ [])),
      )
      ∷ []);
  topic_candidates = [];
  selected_topic = none;
  general_opinion = none;
  research_plan = none;
  review_result = none;
  revision_count = 0;
  revision_history = [];
  revision_control = control;
  completed_agents = [];
  message_history = [];
  role_definition_usage = object ∷ [];
  researcher_sent = false;
  error = none;
  created_at = aware 0;
  completed_at = none;
}

abbrev pub start : World
start = record {
  state = fresh;
  saved = [];
  outbox = none;
  exchange = record { files = []; budget = [] };
  drawn = 0;
}

abbrev pub whole : Round
whole = record {
  start = 0;
  overrides = record { provider_tasks = []; retrieval_tasks = []; stop_after = none };
}

start-IsAt : IsAt 0 start
start-IsAt = record {
  now = record {
    bound = omega arith;
    completed = refl;
    artifacts = record {
      candidates = λ le. absurd (omega arith);
      topic = λ le. absurd (omega arith);
      opinion = λ le. absurd (omega arith);
      plan = λ le. absurd (omega arith);
    };
  };
  saved = tt;
}

four :
    (a b c d : Bool)
    → (if a then true else if b then true else if c then true else if d then true else true) ≡ true
four a b c d = ground arith

reply-brings :
    (status agent : String) (q : PmpMessage)
    → is_result (reply status agent q).message_type ≡ true
    → brings agent (payload_fields (reply status agent q).payload) ≡ true
reply-brings status agent q h = elim (Bool-cases (is_last agent)) [
  | inl y ↦ let h' = rw y at h in cc
  | inr other ↦ rw other (
      four (agent == topic_scout) (agent == topic_selector) (agent == general_opinion_analyst)
        (agent == research_planner))
]

pub manager-IsFruitful : (status : String) → IsFruitful (manager status)
manager-IsFruitful status n agent q r e h =
    let same : reply status agent q ≡ r = cc in
    rw (← same) (reply-brings status agent q (rw (← same) at h))

run_from-IsRoundEnd_example : IsRoundEnd none (run_from (manager "approved") 1 whole start)
run_from-IsRoundEnd_example =
    run_from-IsRoundEnd (manager "approved") 0 whole start (manager-IsFruitful "approved")
      start-IsAt

run_from-finishes_example :
    ((e : Error) × ((run_from (manager "blocked") 1 whole start).0 ≡ raise e))
    ⊎ (((run_from (manager "blocked") 1 whole start).0 ≡ ok none)
        × IsSettled none (run_from (manager "blocked") 1 whole start).1)
run_from-finishes_example =
    run_from-finishes (manager "blocked") 0 whole start refl (manager-IsFruitful "blocked")
      start-IsAt

-- The state before the review.
abbrev pub planned : ProducerWorkflowState
planned = record fresh {
  completed_agents = take 4 agent_order;
  topic_candidates = object ∷ [];
  selected_topic = some object;
  general_opinion = some object;
  research_plan = some plan;
}

planned-HasArtifacts : (n : ℕ) → HasArtifacts n planned
planned-HasArtifacts n = record {
  candidates = λ le e. cc;
  topic = λ le e. cc;
  opinion = λ le e. cc;
  plan = λ le e. cc;
}

pub planned-IsCheckpoint : IsCheckpoint 4 planned
planned-IsCheckpoint = record {
  bound = omega arith;
  completed = refl;
  artifacts = planned-HasArtifacts 4;
}

recovery_start_index_iff_example :
    (recovery_start_index planned ≡ ok 4)
    ↔ ((from_keys planned.completed_agents ≡ take 4 agent_order) × (4 < 5) × HasArtifacts 4 planned)
recovery_start_index_iff_example = recovery_start_index_iff planned 4

pub recovers : recovery_start_index planned ≡ ok 4
recovers = recovery_start_index_iff_example.1 (refl, omega arith, planned-HasArtifacts 4)

abbrev pub reviewing : World
reviewing = record start { state = planned }

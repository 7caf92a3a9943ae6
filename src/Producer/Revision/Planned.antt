-- ===== src/Producer/Revision/Planned.antt =====
-- What `_plan_internal_revision` of `ProducerManager` (producer/manager.py) writes down.
use Prim.Native.String.{String as NativeString}
use Prim.Native.Char.{code}
use prdcp.Shared.{
  ℕ, String, true, Option, none, some, [], ◌∷◌, ◌++◌, ◌==◌, text_eq, nat_eq, leb, ltb,
  if◌then◌else◌, Outcome, ok, raise, value_error, append, Fields, Json,
}
use prdcp.Revision.Layers.{producer, internal, RevisionControlPhase, HumanSelectionImpact}
use prdcp.Revision.Request.{RevisionRequest, RequestContent}
use prdcp.Revision.Control.{RevisionControlState}
use prdcp.Pmp.{MessageType, MessageStatus, Payload}
use prdcp.Producer.Model.{ProducerWorkflowState, quality_reviewer, manager_id, from_keys}
use prdcp.Producer.Payload.{fields_of}
use prdcp.Producer.Drafts.{Draft}

-- text.replace("-", "")
abbrev pub without_dashes : String → String
without_dashes NativeString.[] = ""
without_dashes (NativeString.◌∷◌ c s) =
    let rest = without_dashes s in if code c == b'-' then rest else NativeString.◌∷◌ c rest

abbrev pub max : ℕ → ℕ → ℕ
max a b = if ltb a b then b else a

-- a or b
abbrev pub text_or : Option String → String → String
text_or none b = b
text_or (some a) b = if a == "" then b else a

abbrev pub reviewed_plan : Option Fields → Outcome Fields
reviewed_plan none = raise (value_error "Producer Revision requires the reviewed research_plan")
reviewed_plan (some plan) = ok plan

abbrev pub planned_content :
    ProducerWorkflowState
    → String
    → ℕ
    → String
    → String
    → String
    → String
    → String
    → ℕ
    → String
    → RequestContent
planned_content s request epoch review finding target plan sha256 i action = record {
  schema_version = "revision.v1";
  revision_request_id = request;
  workflow_id = s.workflow_id;
  route = internal;
  source_layer = producer;
  target_layer = producer;
  revision_epoch = epoch;
  root_revision_request_id = request;
  parent_revision_request_id = none;
  source_review_id = review;
  source_finding_ids = finding ∷ [];
  target_agent_ids = target ∷ [];
  base_artifacts =
      record {
        artifact_type = "producer.research_plan";
        artifact_id = plan;
        sha256 = sha256;
        version = 1;
      }
      ∷ [];
  required_actions = action ∷ [];
  acceptance_conditions = append finding " is explicitly resolved by a new Quality Review" ∷ [];
  evidence_expansion_allowed = leb i 2;
  retrieval_allowed = leb i 2;
  expected_human_selection_impact = HumanSelectionImpact.not_applicable;
}

abbrev pub request_draft : String → RevisionRequest → String → Fields → Draft
request_draft review r target role = record {
  parent_message_id = some review;
  sender_agent_id = manager_id;
  receiver_agent_id = target;
  message_type = MessageType.revision_request;
  objective = "Execute an audited Producer internal revision";
  payload = Payload.request r;
  constraints = Fields.end;
  context = record {
    current_stage = manager_id;
    previous_stage = quality_reviewer;
    next_stage = target;
  };
  routing = record { revision_target = some target; reply_required = true };
  status = MessageStatus.revision_required;
  extensions = fields_of (("role_definition", Json.object role) ∷ []);
}

abbrev pub planned_control : RevisionControlState → ℕ → String → String → RevisionControlState
planned_control c epoch request message = record c {
  phase = RevisionControlPhase.planned;
  revision_epoch = epoch;
  active_request_id = some request;
  active_request_message_id = some message;
  active_result_id = none;
  root_revision_request_id = some request;
  parent_revision_request_id = none;
  pending_request_ids = from_keys (c.pending_request_ids ++ request ∷ []);
}

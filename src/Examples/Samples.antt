-- ===== src/Examples/Samples.antt =====
-- Sample values: an upstream revision request of the conclusion layer, its message, the answer to
-- it, and instances of what the code takes from other packages.
use prdcp.Shared.{
  is_artifact_type, is_sha256, is_safe_component, is_retrieval_id, is_source_id, is_agent_id,
  unique, same_set, read, write, end, FilePath-discrete, String_discrete, ℕ_discrete, String, Bool,
  true, false, not, none, some, [], ◌∷◌, ◌==◌, text_eq,
}
use prdcp.Revision.Layers.{
  LayerId-discrete, HumanSelectionImpact-discrete, deliberation, conclusion, upstream,
  RevisionExecutionStatus, RevisionFindingOutcome, not_applicable, pending, aware,
}
use prdcp.Revision.Identity.{safe_path_component}
use prdcp.Revision.Request.{
  validate_request, valid_artifact, RevisionArtifactRef, RequestContent, RevisionRequest,
}
use prdcp.Revision.Result.{
  validate_result, disposition_guards, RevisionFindingDisposition, ResultContent, RevisionResult,
}
use prdcp.Revision.Control.{
  validate_authorization, RevisionBudgetPolicy, RevisionExecutionAuthorization, cli,
}
use prdcp.Revision.External.{External}
use prdcp.Correlation.{
  validate_request_message, validate_result_message, request_payload, result_payload,
  artifacts-discrete,
}
use prdcp.Pmp.{
  validate_message, pmp_validate, PmpMessage, MessageType, MessageStatus, medium, request, result,
}
use prdcp.Budget.{Claim, consume_slot, consume}
use prdcp.Budget.Race.{advance}
use prdcp.Exchange.Store.{Repository, write_once_or_exact, Content-discrete, strings-discrete}
use prdcp.Retry.Model.{parse, original_task_id}
use prdcp.Retry.{authorize_once, for_original_task, require_pending_retry, write_atomic}
use prdcp.Retry as Retry
use prdcp.Retrieval.{prepare}
use prdcp.Exchange.Messages.{create_request_once, load_request}
use prdcp.Exchange.Authorizations.{create_authorization_once, consume_authorization}

abbrev pub digest : String
digest = "0123456789abcdef0123456789abcdef0123456789abcdef0123456789abcdef"

abbrev pub is_uuid : String → Bool
is_uuid s = not (s == "")

abbrev pub sha256 : String → String
sha256 s = digest

abbrev pub x : External
x = record {
  is_uuid = is_uuid;
  request_key = λ c. digest;
  result_key = λ c. digest;
  sha256 = sha256;
  registry = "conclusion.manager" ∷ "deliberation.manager" ∷ [];
  claim_key = λ c. digest;
}

abbrev pub artifact : RevisionArtifactRef
artifact = record {
  artifact_type = "deliberation_result";
  artifact_id = "artifact_1";
  sha256 = digest;
  version = 1;
}

abbrev pub content : RequestContent
content = record {
  schema_version = "revision.v1";
  revision_request_id = "request_1";
  workflow_id = "workflow_1";
  route = upstream;
  source_layer = conclusion;
  target_layer = deliberation;
  revision_epoch = 1;
  root_revision_request_id = "request_1";
  parent_revision_request_id = none;
  source_review_id = "review_1";
  source_finding_ids = "finding_1" ∷ "finding_2" ∷ [];
  target_agent_ids = "deliberation.manager" ∷ [];
  base_artifacts = artifact ∷ [];
  required_actions = "check the sources" ∷ [];
  acceptance_conditions = "every claim has evidence" ∷ [];
  evidence_expansion_allowed = false;
  retrieval_allowed = false;
  expected_human_selection_impact = not_applicable;
}

abbrev pub revision_request : RevisionRequest
revision_request = record { content = content; idempotency_key = digest; created_at = aware 10 }

abbrev pub request_message : PmpMessage
request_message = record {
  protocol_version = "2.0";
  message_id = "message_1";
  workflow_id = "workflow_1";
  parent_message_id = some "message_0";
  sender_agent_id = "conclusion.manager";
  receiver_agent_id = "deliberation.manager";
  message_type = MessageType.revision_request;
  objective = "revise";
  payload = request revision_request;
  constraints = end;
  context = record { current_stage = ""; previous_stage = ""; next_stage = "" };
  routing = record { revision_target = some "deliberation.manager"; reply_required = true };
  metadata = record {
    created_at = aware 10;
    updated_at = aware 10;
    status = MessageStatus.created;
    priority = medium;
    retry_count = 0;
    notes = "";
    extensions = end;
  };
}

abbrev pub disposition : String → RevisionFindingDisposition
disposition finding = record {
  finding_id = finding;
  outcome = RevisionFindingOutcome.resolved;
  reason = "evidence added";
  result_artifact_ids = "artifact_2" ∷ [];
  child_revision_request_id = none;
}

abbrev pub result_content : ResultContent
result_content = record {
  schema_version = "revision.v1";
  revision_result_id = "result_1";
  revision_request_id = "request_1";
  request_message_id = "message_1";
  workflow_id = "workflow_1";
  requester_layer = conclusion;
  producer_layer = deliberation;
  revision_epoch = 1;
  status = RevisionExecutionStatus.completed;
  base_artifacts = artifact ∷ [];
  result_artifacts = record artifact { artifact_id = "artifact_2"; version = 2 } ∷ [];
  finding_dispositions = disposition "finding_2" ∷ disposition "finding_1" ∷ [];
  human_selection_impact = not_applicable;
  provider_reservation_ids = "reservation_1" ∷ [];
  retrieval_reservation_ids = [];
  provider_call_count = 1;
  retrieval_call_count = 0;
}

abbrev pub revision_result : RevisionResult
revision_result = record {
  content = result_content;
  idempotency_key = digest;
  completed_at = aware 20;
}

abbrev pub result_message : PmpMessage
result_message = record request_message {
  message_id = "message_2";
  parent_message_id = some "message_1";
  sender_agent_id = "deliberation.manager";
  receiver_agent_id = "conclusion.manager";
  message_type = MessageType.revision_result;
  payload = result revision_result;
  routing = record { revision_target = none; reply_required = false };
}

abbrev pub policy : RevisionBudgetPolicy
policy = record { internal_limit = 2; upstream_limit = 1 }

abbrev pub claim : String → Claim
claim name = record {
  workflow_id = "workflow_1";
  layer = conclusion;
  route = upstream;
  request = name;
  now = aware 5;
}

abbrev pub empty_repository : Repository
empty_repository = record { files = []; budget = [] }

abbrev pub grant : RevisionExecutionAuthorization
grant = record {
  authorization_id = "authorization_1";
  workflow_id = "workflow_1";
  revision_request_id = "request_1";
  executing_layer = deliberation;
  actor_id = "operator";
  actor_source = cli;
  reason = "revision approved";
  max_provider_calls = 1;
  max_retrieval_calls = 0;
  status = pending;
  created_at = aware 12;
  consumed_at = none;
  provider_reservation_ids = [];
  retrieval_reservation_ids = [];
}

-- A test that unfolds this computes with all of the model.
unfoldable pub the_model : Unit {0}
unfolding validate_request valid_artifact is_artifact_type is_sha256 is_safe_component
    is_retrieval_id is_source_id is_agent_id unique same_set LayerId-discrete
    HumanSelectionImpact-discrete validate_result disposition_guards validate_authorization
    validate_message pmp_validate validate_request_message validate_result_message request_payload
    result_payload artifacts-discrete safe_path_component consume_slot consume read write
    FilePath-discrete create_request_once load_request create_authorization_once
    consume_authorization write_once_or_exact Content-discrete strings-discrete parse
    original_task_id authorize_once for_original_task require_pending_retry Retry.consume advance
    write_atomic prepare String_discrete ℕ_discrete
the_model = tt

-- ===== src/Producer/Revision/Result.antt =====
-- `_finalize_active_revision` of `ProducerManager` (producer/manager.py).
use prdcp.Shared.{
  String, Bool, false, Option, none, some, List, [], ◌∷◌, ◌++◌, map, ◌==◌, text_eq, length,
  if◌then◌else◌, append, Fields,
}
use prdcp.Revision.Layers.{
  route_value, RevisionControlPhase, RevisionExecutionStatus, RevisionFindingOutcome,
  HumanSelectionImpact,
}
use prdcp.Revision.Request.{RevisionRequest, RevisionArtifactRef, is_internal}
use prdcp.Revision.Result.{ResultContent, RevisionResult, RevisionFindingDisposition}
use prdcp.Revision.Control.{RevisionControlState, validate_control, RevisionAuditEventType}
use prdcp.Revision.Create.{create_result}
use prdcp.Pmp.{PmpMessage, MessageType, MessageStatus, Payload}
use prdcp.Correlation.{request_payload}
use prdcp.Exchange.Exec.{Exec, lift, ◌>>=◌, ◌>>◌}
use prdcp.Exchange.Store.{Repository}
use prdcp.Exchange.Messages.{create_internal_result_once, create_result_once}
use prdcp.Producer.Model.{ProducerWorkflowState, quality_reviewer, manager_id, from_keys, remove}
use prdcp.Producer.Setting.{Manager}
use prdcp.Producer.Drafts.{Draft}
use prdcp.Producer.Ledgers.{Entry, read_ledger, put_control, exchanged, append_message_once}
use prdcp.Producer.Revision.{
  plan_id, Identities, task_ids, active_revision_request_message, record_revision_audit,
  revision_message, audit_event, revision_execution_identities,
}

-- The plan of the state as a reference, if it has an identifier.
abbrev pub plan_artifacts : Manager → Option Fields → List RevisionArtifactRef
plan_artifacts m none = []
plan_artifacts m (some plan) =
    let id = plan_id m.show plan in
    if id == ""
    then []
    else record {
      artifact_type = "producer.research_plan";
      artifact_id = id;
      sha256 = m.plan_sha256 plan;
      version = 1;
    }
      ∷ []

abbrev disposition : Bool → String → List RevisionArtifactRef → String → RevisionFindingDisposition
disposition completed reason artifacts finding = record {
  finding_id = finding;
  outcome =
      if completed then RevisionFindingOutcome.resolved else RevisionFindingOutcome.unresolved;
  reason = reason;
  result_artifact_ids = map (λ a. a.artifact_id) artifacts;
  child_revision_request_id = none;
}

abbrev final_content :
    ProducerWorkflowState
    → RevisionRequest
    → String
    → String
    → List RevisionArtifactRef
    → Identities
    → Bool
    → String
    → ResultContent
final_content s r message id artifacts ids completed reason = record {
  schema_version = "revision.v1";
  revision_result_id = id;
  revision_request_id = r.revision_request_id;
  request_message_id = message;
  workflow_id = s.workflow_id;
  requester_layer = r.source_layer;
  producer_layer = r.target_layer;
  revision_epoch = r.revision_epoch;
  status = if completed then RevisionExecutionStatus.completed else RevisionExecutionStatus.partial;
  base_artifacts = r.base_artifacts;
  result_artifacts = artifacts;
  finding_dispositions = map (disposition completed reason artifacts) r.source_finding_ids;
  human_selection_impact = HumanSelectionImpact.not_applicable;
  provider_reservation_ids = task_ids ids.provider_tasks;
  retrieval_reservation_ids = ids.retrieval_ids;
  provider_call_count = length ids.provider_tasks;
  retrieval_call_count = length ids.retrieval_ids;
}

abbrev result_draft : PmpMessage → RevisionRequest → RevisionResult → Bool → Draft
result_draft request r result completed = record {
  parent_message_id = some request.message_id;
  sender_agent_id = request.receiver_agent_id;
  receiver_agent_id = request.sender_agent_id;
  message_type = MessageType.revision_result;
  objective =
      append (append "Return the audited Producer " (route_value r.route)) " revision result";
  payload = Payload.result result;
  constraints = Fields.end;
  context = record {
    current_stage = manager_id;
    previous_stage = request.receiver_agent_id;
    next_stage = quality_reviewer;
  };
  routing = record { revision_target = none; reply_required = false };
  status = if completed then MessageStatus.completed else MessageStatus.revision_required;
  extensions = Fields.end;
}

abbrev completed_control : RevisionControlState → String → String → RevisionControlState
completed_control c request result = record c {
  phase = RevisionControlPhase.completed;
  active_result_id = some result;
  pending_request_ids = remove request c.pending_request_ids;
  consumed_request_ids = from_keys (c.consumed_request_ids ++ request ∷ []);
  consumed_result_ids = from_keys (c.consumed_result_ids ++ result ∷ []);
}

module _ (m : Manager) where
  abbrev store_result : RevisionRequest → PmpMessage → PmpMessage → Exec Repository (Unit {0})
  store_result r request message =
      if is_internal r.route
      then create_internal_result_once m.x request message
      else create_result_once m.x request message

  -- `_finalize_active_revision`
  unfoldable pub finalize_active_revision :
      PmpMessage → Bool → String → ProducerWorkflowState → Entry (Unit {0})
  unfolding active_revision_request_message request_payload revision_execution_identities
      create_result revision_message create_internal_result_once create_result_once
      append_message_once record_revision_audit validate_control
  finalize_active_revision response completed reason s = do
    request ← active_revision_request_message m s
    r ← lift (request_payload m.x.is_uuid request.payload)
    let artifacts = plan_artifacts m s.research_plan
    ids ← lift (revision_execution_identities m s r)
    let id = append "revision_result_" (m.uuid5_hex (append r.revision_request_id ":result"))
    result ← lift (
        create_result m.x (final_content s r request.message_id id artifacts ids completed reason)
          response.metadata.updated_at)
    message ←
        revision_message m s (result_draft request r result completed)
          (m.uuid5 (append r.revision_request_id ":result-message")) response.metadata.updated_at
    exchanged (store_result r request message)
    append_message_once message
    record_revision_audit m (
        audit_event m s r "result_written" RevisionAuditEventType.result_written manager_id
          (some message.message_id) (map (λ a. a.artifact_id) artifacts)
          (task_ids ids.provider_tasks ++ ids.retrieval_ids) reason response.metadata.updated_at)
    l ← read_ledger
    control ← lift (validate_control (completed_control l.control r.revision_request_id id))
    put_control control

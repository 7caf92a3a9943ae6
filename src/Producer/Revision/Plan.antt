-- ===== src/Producer/Revision/Plan.antt =====
-- `_plan_internal_revision` and `_create_revision_authorization` of `ProducerManager`
-- (producer/manager.py).
use prdcp.Shared.{
  ℕ, ◌+◌, String, Bool, true, false, ◌||◌, not, Option, none, some, List, [], ◌∷◌, ◌==◌, text_eq,
  nat_eq, length, contains, Guard, ◌raises◌, check, value_error, append,
}
use prdcp.Revision.Layers.{producer, RevisionAuthorizationStatus, DateTime}
use prdcp.Revision.Request.{RevisionRequest}
use prdcp.Revision.Control.{
  validate_control, RevisionExecutionAuthorization, validate_authorization, ActorSource,
  RevisionAuditEventType,
}
use prdcp.Revision.Create.{create_request, deterministic_revision_request_id}
use prdcp.Pmp.{PmpMessage}
use prdcp.Exchange.Exec.{pure, lift, guards, ◌>>=◌, ◌>>◌}
use prdcp.Exchange.Messages.{create_internal_request_once}
use prdcp.Exchange.Authorizations.{load_authorization, create_authorization_once}
use prdcp.Producer.Model.{
  ProducerWorkflowState, QualityReviewOutput, agent_order, index, manager_id, take,
}
use prdcp.Producer.Setting.{Manager, last}
use prdcp.Producer.Ledgers.{
  Entry, read_ledger, draw_entry, put_control, exchanged, or_missing, append_message_once,
}
use prdcp.Producer.Revision.{
  plan_id, record_revision_audit, revision_message, audit_event, revision_execution_identities,
}
use prdcp.Producer.Revision.Planned.{
  without_dashes, max, text_or, reviewed_plan, planned_content, request_draft, planned_control,
}

module _ (m : Manager) where
  -- The request, its message, and the control state that waits for its execution.
  unfoldable pub write_plan :
      ProducerWorkflowState
      → PmpMessage
      → QualityReviewOutput
      → RevisionRequest
      → String
      → String
      → Entry RevisionRequest
  unfolding revision_message create_internal_request_once append_message_once validate_control
      record_revision_audit
  write_plan s response review r target plan = do
    role ← lift (last s.role_definition_usage)
    message ←
        revision_message m s (request_draft response.message_id r target role)
          (m.uuid5 (append r.revision_request_id ":request-message")) response.metadata.updated_at
    exchanged (create_internal_request_once m.x message)
    append_message_once message
    l ← read_ledger
    control ← lift (
        validate_control
          (planned_control l.control r.revision_epoch r.revision_request_id message.message_id))
    put_control control
    record_revision_audit m (
        audit_event m s r "request_written" RevisionAuditEventType.request_written manager_id
          (some message.message_id) (plan ∷ []) [] review.reason response.metadata.updated_at)
    pure r

  -- `_plan_internal_revision`, up to its save.
  unfoldable pub plan_internal_revision :
      PmpMessage → QualityReviewOutput → ProducerWorkflowState → Entry RevisionRequest
  unfolding contains deterministic_revision_request_id create_request write_plan
  plan_internal_revision response review s = do
    research_plan ← lift (reviewed_plan s.research_plan)
    let target = text_or review.revision_target ""
    guards (
        (not (contains (take 4 agent_order) target)
          raises value_error "Producer Revision target is not an executable specialist")
        ∷ [])
    l ← read_ledger
    let epoch = max s.revision_count l.control.revision_epoch + 1
    let finding = append "producer_finding_" (without_dashes response.message_id)
    request ← lift (
        deterministic_revision_request_id m.x.is_uuid m.uuid5_hex s.workflow_id producer producer
          epoch response.message_id (finding ∷ []))
    let plan = plan_id m.show research_plan
    guards (
        ((plan == "")
          raises value_error "Producer Revision base research_plan has no research_plan_id")
        ∷ [])
    i ← lift (index agent_order target)
    r ← lift (
        create_request m.x
          (planned_content s request epoch response.message_id finding target plan
            (m.plan_sha256 research_plan) i (text_or review.required_action review.reason))
          response.metadata.updated_at)
    write_plan s response review r target plan

  abbrev new_authorization :
      ProducerWorkflowState
      → RevisionRequest
      → String
      → ActorSource
      → String
      → ℕ
      → ℕ
      → DateTime
      → RevisionExecutionAuthorization
  new_authorization s r actor source reason provider retrieval now = record {
    authorization_id = append "revision_authorization_" (m.uuid5_hex r.revision_request_id);
    workflow_id = s.workflow_id;
    revision_request_id = r.revision_request_id;
    executing_layer = producer;
    actor_id = actor;
    actor_source = source;
    reason = reason;
    max_provider_calls = provider;
    max_retrieval_calls = retrieval;
    status = RevisionAuthorizationStatus.pending;
    created_at = now;
    consumed_at = none;
    provider_reservation_ids = [];
    retrieval_reservation_ids = [];
  }

  abbrev same_source : ActorSource → ActorSource → Bool
  same_source ActorSource.cli ActorSource.cli = true
  same_source ActorSource.discord ActorSource.discord = true
  same_source ActorSource.api ActorSource.api = true
  same_source ActorSource.system ActorSource.system = true
  same_source _ _ = false

  -- Where the request is authorized already.
  abbrev actor_guards : RevisionExecutionAuthorization → String → ActorSource → String → List Guard
  actor_guards a actor source reason =
      ((not (a.actor_id == actor)
          || (not (same_source a.actor_source source) || not (a.reason == reason)))
        raises value_error "Producer Revision is already authorized by a different actor")
      ∷ []

  -- The authorization that the exchange has for a request.
  abbrev existing_authorization :
      ProducerWorkflowState → RevisionRequest → Entry (Option RevisionExecutionAuthorization)
  existing_authorization s r =
      or_missing
        (do
          a ← exchanged (load_authorization m.x producer s.workflow_id r.revision_request_id)
          pure (some a))
        (pure none)

  unfoldable pub authorize_with :
      ProducerWorkflowState
      → RevisionRequest
      → String
      → ActorSource
      → String
      → ℕ
      → ℕ
      → Option RevisionExecutionAuthorization
      → Entry RevisionExecutionAuthorization
  unfolding check validate_authorization create_authorization_once record_revision_audit
  authorize_with s r actor source reason provider retrieval (some a) = do
    guards (actor_guards a actor source reason)
    pure a
  authorize_with s r actor source reason provider retrieval none = do
    n ← draw_entry
    a ← lift (
        validate_authorization
          (new_authorization s r actor source reason provider retrieval (m.now n)))
    exchanged (create_authorization_once m.x a)
    record_revision_audit m (
        audit_event m s r "authorization_created" RevisionAuditEventType.authorization_created actor
          none [] [] reason a.created_at)
    pure a

  -- `_create_revision_authorization`
  unfoldable pub create_revision_authorization :
      RevisionRequest
      → String
      → ActorSource
      → String
      → ProducerWorkflowState
      → Entry RevisionExecutionAuthorization
  unfolding revision_execution_identities load_authorization authorize_with
  create_revision_authorization r actor source reason s = do
    ids ← lift (revision_execution_identities m s r)
    existing ← existing_authorization s r
    authorize_with s r actor source reason (length ids.provider_tasks) (length ids.retrieval_ids)
        existing

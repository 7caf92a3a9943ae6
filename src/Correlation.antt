-- ===== src/Correlation.antt =====
-- common/validation/revision_validator.py: a revision payload together with its envelope.
pub mod Agreement
pub mod Exchange
pub mod Current
use prdcp.Shared.{
  String, Bool, true, false, ◌&&◌, ◌||◌, not, Option, none, some, List, [], ◌∷◌, ◌++◌, map, ◌==◌,
  text_eq, nat_eq, Eq, discrete_eq, String_discrete, ℕ_discrete, any, same_set, append,
  if◌then◌else◌, Outcome, ok, raise, Guard, ◌raises◌, check, ◌>>=◌, ◌>>◌, value_error, is_empty,
}
use prdcp.Revision.Layers.{LayerId, layer_value, layer_eq, HumanSelectionImpact, impact_eq}
use prdcp.Revision.Request.{
  RevisionArtifactRef, RevisionRequest, validate_request, in_layer, is_none, is_some_of,
}
use prdcp.Revision.Result.{RevisionResult, validate_result, is_completed, is_open, is_playwright}
use prdcp.Revision.External.{External}
use prdcp.Pmp
use prdcp.Pmp.{PmpMessage, MessageType, Payload, pmp_validate}

unfoldable pub artifacts-discrete : Discrete (List RevisionArtifactRef)
unfolding String_discrete ℕ_discrete
artifacts-discrete = hlevel (String_discrete, ℕ_discrete)

instance abbrev pub artifacts_eq : Eq (List RevisionArtifactRef)
artifacts_eq = discrete_eq artifacts-discrete

abbrev pub is_revision_request : MessageType → Bool
is_revision_request MessageType.revision_request = true
is_revision_request _ = false

abbrev pub is_revision_result : MessageType → Bool
is_revision_result MessageType.revision_result = true
is_revision_result _ = false

-- `RevisionRequestV1.model_validate(payload)`: an object with other keys is refused.
unfoldable pub request_payload : (String → Bool) → Payload → Outcome RevisionRequest
unfolding validate_request
request_payload is_uuid (Payload.request r) = validate_request is_uuid r
request_payload is_uuid (Payload.result r) = raise (value_error "RevisionRequestV1")
request_payload is_uuid (Payload.other t) = raise (value_error "RevisionRequestV1")

unfoldable pub result_payload : (String → Bool) → Payload → Outcome RevisionResult
unfolding validate_result
result_payload is_uuid (Payload.result r) = validate_result is_uuid r
result_payload is_uuid (Payload.request r) = raise (value_error "RevisionResultV1")
result_payload is_uuid (Payload.other t) = raise (value_error "RevisionResultV1")

-- `_validate_agent_layer`
abbrev pub agent_layer_guard : String → LayerId → String → Guard
agent_layer_guard agent layer field =
    not (in_layer layer agent)
    raises value_error (append field (append " does not belong to " (layer_value layer)))

module _ (x : External) where
  unfoldable pub request_envelope_guards : PmpMessage → List Guard
  request_envelope_guards m =
      not (is_revision_request m.message_type)
        raises value_error "Canonical Revision Request must use revision_request"
      ∷ is_none m.parent_message_id
        raises value_error "Revision Request must reference its source review message"
      ∷ []

  unfoldable pub request_correlation_guards : PmpMessage → RevisionRequest → List Guard
  request_correlation_guards m r =
      not (r.workflow_id == m.workflow_id)
        raises value_error "Revision Request workflow_id does not match PMP workflow_id"
      ∷ agent_layer_guard m.sender_agent_id r.source_layer "sender_agent_id"
      ∷ agent_layer_guard m.receiver_agent_id r.target_layer "receiver_agent_id"
      ∷ not (is_some_of m.routing.revision_target m.receiver_agent_id)
        raises value_error "Revision Request routing target must match its receiver"
      ∷ not m.routing.reply_required raises value_error "Revision Request must require a reply"
      ∷ not (r.idempotency_key == x.request_key r.content)
        raises value_error "Revision payload idempotency_key does not match its content"
      ∷ []

  -- `validate_request_message`
  unfoldable pub validate_request_message : PmpMessage → Outcome RevisionRequest
  unfolding pmp_validate request_envelope_guards request_payload request_correlation_guards check
  validate_request_message m = do
    envelope ← pmp_validate x.registry m
    check (request_envelope_guards envelope)
    r ← request_payload x.is_uuid envelope.payload
    check (request_correlation_guards envelope r)
    ok r

  abbrev pub finding_ids : RevisionResult → List String
  finding_ids r = map (λ d. d.finding_id) r.finding_dispositions

  unfoldable pub result_correlation_guards :
      PmpMessage → RevisionRequest → PmpMessage → RevisionResult → List Guard
  unfolding same_set
  result_correlation_guards qm q m r =
      not (is_some_of m.parent_message_id qm.message_id)
        raises value_error "Revision Result parent_message_id does not match its request"
      ∷ not (r.request_message_id == qm.message_id)
        raises value_error "Revision Result payload does not identify its request message"
      ∷ (not (r.workflow_id == q.workflow_id) || not (m.workflow_id == q.workflow_id))
        raises value_error "Revision Result workflow_id does not match its request"
      ∷ not (r.revision_request_id == q.revision_request_id)
        raises value_error "Revision Result request ID does not match its request"
      ∷ not (r.revision_epoch == q.revision_epoch)
        raises value_error "Revision Result epoch does not match its request"
      ∷ not (r.requester_layer == q.source_layer)
        raises value_error "Revision Result requester_layer does not match its request"
      ∷ not (r.producer_layer == q.target_layer)
        raises value_error "Revision Result producer_layer does not match its request"
      ∷ (is_playwright q.source_layer
          && not (r.human_selection_impact == q.expected_human_selection_impact))
        raises value_error
            "Conclusion Revision Result human-selection impact does not match its request"
      ∷ not (m.sender_agent_id == qm.receiver_agent_id)
        raises value_error "Revision Result sender must be the request receiver"
      ∷ not (m.receiver_agent_id == qm.sender_agent_id)
        raises value_error "Revision Result receiver must be the request sender"
      ∷ m.routing.reply_required
        raises value_error "Revision Result must not require a further direct reply"
      ∷ not (q.base_artifacts == r.base_artifacts)
        raises value_error "Revision Result base artifacts do not match its request"
      ∷ not (same_set (finding_ids r) q.source_finding_ids)
        raises value_error "Revision Result must disposition every source finding exactly once"
      ∷ (is_completed r.status && any is_open r.finding_dispositions)
        raises value_error "Completed Revision Result contains unresolved findings"
      ∷ not (r.idempotency_key == x.result_key r.content)
        raises value_error "Revision payload idempotency_key does not match its content"
      ∷ []

  unfoldable pub result_envelope_guards : PmpMessage → List Guard
  result_envelope_guards m =
      not (is_revision_result m.message_type)
        raises value_error "Canonical Revision Result must use revision_result"
      ∷ []

  -- `validate_result_message`
  unfoldable pub validate_result_message : PmpMessage → PmpMessage → Outcome RevisionResult
  unfolding pmp_validate result_envelope_guards result_payload result_correlation_guards check
      validate_request_message
  validate_result_message qm m = do
    request_envelope ← pmp_validate x.registry qm
    q ← validate_request_message request_envelope
    envelope ← pmp_validate x.registry m
    check (result_envelope_guards envelope)
    r ← result_payload x.is_uuid envelope.payload
    check (result_correlation_guards request_envelope q envelope r)
    ok r

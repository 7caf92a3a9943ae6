-- ===== src/Examples/Requests.antt =====
-- The validators of requests, results and messages on the samples.
use prdcp.Shared.{
  append, Option, All, if◌then◌else◌, ◌==◌, text_eq, String, ◌≡◌, ◌↔◌, ◌≢◌, ◌+◌, eq_iff, arith,
  refl, none, some, [], ◌∷◌, ok, raise, value_error, is_safe_component, is_sha256, true, false,
}
use prdcp.Revision.Layers.{aware}
use prdcp.Revision.Identity.{
  safe_path_component, safe_path_component-is_safe, safe_path_component_iff, SharesComponent,
  names_second,
}
use prdcp.Revision.Request.{RevisionRequest, validate_request}
use prdcp.Revision.Request.Spec.{IsConsistent}
use prdcp.Revision.Request.Fields.{IsWellFormed, validate_request_iff}
use prdcp.Revision.Result.{validate_result}
use prdcp.Revision.Result.Spec.{IsSound}
use prdcp.Revision.Result.Fields
use prdcp.Revision.Result.Fields.{validate_result_iff}
use prdcp.Revision.Layers.{idle}
use prdcp.Revision.Control.{validate_authorization, RevisionControlState, validate_control}
use prdcp.Revision.Control.Spec.{
  IsAuthorized, validate_authorization_iff, IsCoherent, validate_control_iff,
}
use prdcp.Pmp.{PmpMessage, validate_message, with_retry, pmp_validate}
use prdcp.Pmp.Registry.{with_retry_succeeds, IsRegistered, pmp_validate_iff}
use prdcp.Correlation.{validate_request_message, validate_result_message}
use prdcp.Correlation.Agreement.{IsRequestMessage, validate_request_message_iff}
use prdcp.Correlation.Current.{
  validate_current_base_artifacts, IsCurrent, validate_current_base_artifacts_iff,
}
use prdcp.Correlation.Exchange.{IsAnswer, validate_result_message_iff}
use prdcp.Examples.Samples.{
  digest, the_model, x, is_uuid, sha256, revision_request, revision_result, request_message,
  result_message, grant,
}

request_accepted : validate_request is_uuid revision_request ≡ ok revision_request
unfolding the_model
request_accepted = refl

request_out_of_layer :
    validate_request is_uuid (record revision_request {
      content = record revision_request.content { target_agent_ids = "producer.manager" ∷ [] };
    })
    ≡ raise (value_error "target_agent_ids must belong to target_layer")
unfolding the_model
request_out_of_layer = refl

result_accepted : validate_result is_uuid revision_result ≡ ok revision_result
unfolding the_model
result_accepted = refl

pub message_valid : validate_message is_uuid request_message ≡ ok request_message
unfolding the_model
message_valid = refl

pub request_message_accepted : validate_request_message x request_message ≡ ok revision_request
unfolding the_model
request_message_accepted = refl

result_message_accepted :
    validate_result_message x request_message result_message ≡ ok revision_result
unfolding the_model
result_message_accepted = refl

space_is_not_safe : is_safe_component "a b" ≡ false
unfolding the_model
space_is_not_safe = refl

digest_is_sha256 : (s : String) → is_sha256 (sha256 s) ≡ true
unfolding the_model
digest_is_sha256 s = refl

safe_path_component-is_safe_example :
    (is_safe_component (safe_path_component sha256 "a b") ≡ true)
    × (safe_path_component sha256 (safe_path_component sha256 "a b")
        ≡ safe_path_component sha256 "a b")
safe_path_component-is_safe_example = safe_path_component-is_safe sha256 digest_is_sha256 "a b"

-- The text that stands for "a b" in a path, as a value of its own.
abbrev stand_in : String
stand_in = append "id-" (sha256 "a b")

safe_path_component_iff_example :
    (safe_path_component sha256 stand_in ≡ safe_path_component sha256 "a b")
    ↔ SharesComponent sha256 stand_in "a b"
safe_path_component_iff_example = safe_path_component_iff sha256 digest_is_sha256 stand_in "a b"

collides : safe_path_component sha256 stand_in ≡ safe_path_component sha256 "a b"
collides = safe_path_component_iff_example.1 (names_second space_is_not_safe refl)

validate_request_iff_example : (validate_request is_uuid revision_request ≡ ok revision_request) ↔ (
    IsWellFormed is_uuid revision_request
    × IsConsistent revision_request
    × (revision_request ≡ revision_request))
validate_request_iff_example = validate_request_iff is_uuid revision_request revision_request

validate_result_iff_example : (validate_result is_uuid revision_result ≡ ok revision_result) ↔ (
    Fields.IsWellFormed is_uuid revision_result
    × IsSound revision_result
    × (revision_result ≡ revision_result))
validate_result_iff_example = validate_result_iff is_uuid revision_result revision_result

validate_authorization_iff_example :
    (validate_authorization grant ≡ ok grant) ↔ (IsAuthorized grant × (grant ≡ grant))
validate_authorization_iff_example = validate_authorization_iff grant grant

validate_request_message_iff_example :
    (validate_request_message x request_message ≡ ok revision_request)
    ↔ IsRequestMessage x request_message revision_request
validate_request_message_iff_example =
    validate_request_message_iff x request_message revision_request

validate_result_message_iff_example :
    (validate_result_message x request_message result_message ≡ ok revision_result)
    ↔ ((q : RevisionRequest) × IsAnswer x request_message result_message q revision_result)
validate_result_message_iff_example =
    validate_result_message_iff x request_message result_message revision_result

three_is_not_empty : ◌≢◌ {A = String} "message_3" ""
three_is_not_empty = ground (arith, eq_iff "message_3" "")

with_retry_succeeds_example :
    (r : PmpMessage) × (with_retry is_uuid "message_3" (aware 30) "again" request_message ≡ ok r)
    × (r.message_id ≡ "message_3")
    × (r.parent_message_id ≡ some "message_1")
    × (r.metadata.retry_count ≡ 0 + 1)
    × (r.workflow_id ≡ "workflow_1")
    × (r.sender_agent_id ≡ "conclusion.manager")
    × (r.receiver_agent_id ≡ "deliberation.manager")
    × (r.payload ≡ request_message.payload)
with_retry_succeeds_example =
    with_retry_succeeds is_uuid "message_3" (aware 30) "again" request_message message_valid refl
      three_is_not_empty refl

abbrev control : RevisionControlState
control = record {
  phase = idle;
  revision_epoch = 0;
  active_request_id = none;
  active_request_message_id = none;
  active_result_id = none;
  root_revision_request_id = none;
  parent_revision_request_id = none;
  pending_request_ids = "request_1" ∷ [];
  consumed_request_ids = "request_2" ∷ [];
  consumed_result_ids = [];
  audit_event_ids = [];
}

validate_control_iff_example :
    (validate_control control ≡ ok control) ↔ (IsCoherent control × (control ≡ control))
validate_control_iff_example = validate_control_iff control control

pmp_validate_iff_example :
    (pmp_validate ("conclusion.manager" ∷ []) request_message ≡ ok request_message) ↔ (
      IsRegistered ("conclusion.manager" ∷ []) request_message
      × (request_message ≡ request_message))
pmp_validate_iff_example =
    pmp_validate_iff ("conclusion.manager" ∷ []) request_message request_message

-- The artifact of the sample request is current, and nothing else is known.
abbrev current_hashes : String × String → Option String
current_hashes (kind, id) = if id == "artifact_1" then some digest else none

validate_current_base_artifacts_iff_example :
    (validate_current_base_artifacts current_hashes revision_request ≡ ok tt)
    ↔ All (IsCurrent current_hashes) revision_request.base_artifacts
validate_current_base_artifacts_iff_example =
    validate_current_base_artifacts_iff current_hashes revision_request

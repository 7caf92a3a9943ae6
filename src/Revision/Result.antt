-- ===== src/Revision/Result.antt =====
-- `RevisionFindingDisposition` and `RevisionResultV1` of common/models/revision.py. Counts are
-- natural numbers, so the constraint `ge=0` needs no guard.
pub mod Spec
pub mod Fields
use prdcp.Shared.{
  ℕ, String, ◌≡◌, Bool, true, false, ◌&&◌, ◌||◌, not, Option, none, some, List, [], ◌∷◌, map, ltb,
  ◌==◌, text_eq, is_empty, all, any, length, is_sha256, Outcome, ok, Guard, ◌raises◌, check, ◌>>=◌,
  ◌>>◌, value_error,
}
use prdcp.Revision.Layers.{
  LayerId, conclusion, layer_eq, RevisionExecutionStatus, RevisionFindingOutcome,
  HumanSelectionImpact, not_applicable, DateTime, is_naive,
}
use prdcp.Revision.Layers
use prdcp.Revision.Request.{
  RevisionArtifactRef, min_length_1, list_min_length_1, at_least, require_unique, valid_artifact,
  artifact_key, truthy, is_none, is_upstream_of,
}

pub record RevisionFindingDisposition : Type 0 where
  pub finding_id : String
  pub outcome : RevisionFindingOutcome
  pub reason : String
  pub result_artifact_ids : List String
  pub child_revision_request_id : Option String

abbrev pub is_routed_upstream : RevisionFindingOutcome → Bool
is_routed_upstream RevisionFindingOutcome.routed_upstream = true
is_routed_upstream _ = false

-- The field constraints and `require_child_for_upstream`.
unfoldable pub disposition_guards : RevisionFindingDisposition → List Guard
disposition_guards d =
    min_length_1 "finding_id" d.finding_id
    ∷ min_length_1 "reason" d.reason
    ∷ (is_routed_upstream d.outcome && not (truthy d.child_revision_request_id))
      raises value_error "routed_upstream disposition requires child_revision_request_id"
    ∷ (not (is_routed_upstream d.outcome) && not (is_none d.child_revision_request_id))
      raises value_error "child_revision_request_id is valid only for routed_upstream"
    ∷ []

abbrev pub passes : List Guard → Bool
passes = all (λ g. not g.test)

-- What the idempotency key covers: all of the payload but the key and the time.
pub record ResultContent : Type 0 where
  pub schema_version : String
  pub revision_result_id : String
  pub revision_request_id : String
  pub request_message_id : String
  pub workflow_id : String
  pub requester_layer : LayerId
  pub producer_layer : LayerId
  pub revision_epoch : ℕ
  pub status : RevisionExecutionStatus
  pub base_artifacts : List RevisionArtifactRef
  pub result_artifacts : List RevisionArtifactRef
  pub finding_dispositions : List RevisionFindingDisposition
  pub human_selection_impact : HumanSelectionImpact
  pub provider_reservation_ids : List String
  pub retrieval_reservation_ids : List String
  pub provider_call_count : ℕ
  pub retrieval_call_count : ℕ

pub record RevisionResult : Type 0 where
  pub content : ResultContent
  pub open content use *
  pub idempotency_key : String
  pub completed_at : DateTime

-- The field constraints and field validators of `RevisionResultV1`.
module _ (is_uuid : String → Bool) where
  unfoldable pub result_field_guards : RevisionResult → List Guard
  unfolding disposition_guards
  result_field_guards r =
      not (r.schema_version == "revision.v1") raises value_error "schema_version"
      ∷ min_length_1 "revision_result_id" r.revision_result_id
      ∷ min_length_1 "revision_request_id" r.revision_request_id
      ∷ min_length_1 "request_message_id" r.request_message_id
      ∷ min_length_1 "workflow_id" r.workflow_id
      ∷ not (is_uuid r.request_message_id && is_uuid r.workflow_id)
        raises value_error "workflow_id and request_message_id must be UUID strings"
      ∷ at_least "revision_epoch" 1 r.revision_epoch
      ∷ list_min_length_1 "base_artifacts" r.base_artifacts
      ∷ not (all valid_artifact r.base_artifacts) raises value_error "base_artifacts"
      ∷ not (all valid_artifact r.result_artifacts) raises value_error "result_artifacts"
      ∷ list_min_length_1 "finding_dispositions" r.finding_dispositions
      ∷ not (all (λ d. passes (disposition_guards d)) r.finding_dispositions)
        raises value_error "finding_dispositions"
      ∷ not (is_sha256 r.idempotency_key) raises value_error "idempotency_key"
      ∷ is_naive r.completed_at raises value_error "completed_at must include a timezone"
      ∷ []

abbrev pub is_completed : RevisionExecutionStatus → Bool
is_completed RevisionExecutionStatus.completed = true
is_completed _ = false

-- `item.outcome in {UNRESOLVED, ROUTED_UPSTREAM}`
abbrev pub is_open : RevisionFindingDisposition → Bool
is_open d = elim d.outcome [
  | RevisionFindingOutcome.unresolved ↦ true
  | RevisionFindingOutcome.routed_upstream ↦ true
  | _ ↦ false
]

abbrev pub is_playwright : LayerId → Bool
is_playwright LayerId.playwright = true
is_playwright _ = false

abbrev pub is_not_applicable : HumanSelectionImpact → Bool
is_not_applicable not_applicable = true
is_not_applicable _ = false

-- `validate_result`
unfoldable pub result_guards : RevisionResult → List Guard
unfolding is_upstream_of artifact_key
result_guards r =
    require_unique (map artifact_key r.base_artifacts) "base_artifacts"
    ∷ require_unique (map artifact_key r.result_artifacts) "result_artifacts"
    ∷ require_unique (map (λ d. d.finding_id) r.finding_dispositions) "finding_dispositions"
    ∷ require_unique r.provider_reservation_ids "provider_reservation_ids"
    ∷ require_unique r.retrieval_reservation_ids "retrieval_reservation_ids"
    ∷ ltb (length r.provider_reservation_ids) r.provider_call_count
      raises value_error "provider_call_count exceeds recorded reservations"
    ∷ ltb (length r.retrieval_reservation_ids) r.retrieval_call_count
      raises value_error "retrieval_call_count exceeds recorded reservations"
    ∷ (is_completed r.status && any is_open r.finding_dispositions)
      raises value_error "completed result cannot retain unresolved findings"
    ∷ (is_completed r.status && is_empty r.result_artifacts)
      raises value_error "completed result requires result_artifacts"
    ∷ (not (is_upstream_of r.requester_layer r.producer_layer)
        && not (r.requester_layer == r.producer_layer))
      raises value_error "revision result layers are not an internal or adjacent route"
    ∷ (not (is_playwright r.requester_layer) && not (is_not_applicable r.human_selection_impact))
      raises value_error "human_selection_impact applies only to a result returned to Playwright"
    ∷ (is_playwright r.requester_layer
        && (r.producer_layer == conclusion && is_not_applicable r.human_selection_impact))
      raises value_error "Conclusion result returned to Playwright must declare selection impact"
    ∷ []

-- `RevisionResultV1.model_validate`, on the fields of a payload.
module _ (is_uuid : String → Bool) where
  unfoldable pub validate_result : RevisionResult → Outcome RevisionResult
  unfolding result_field_guards result_guards check
  validate_result r = check (result_field_guards is_uuid r) >> (check (result_guards r) >> ok r)

-- ===== src/Revision/Request.antt =====
-- `RevisionArtifactRef` and `RevisionRequestV1` of common/models/revision.py. Pydantic's field
-- constraints and the validators are lists of guards in the source's order; where pydantic collects
-- the failures of several fields in one error, the first stands for it.
pub mod Spec
pub mod Fields
use prdcp.Shared.{
  ℕ, String, ◌≡◌, Bool, true, false, ◌&&◌, ◌||◌, not, Option, none, some, List, [], ◌∷◌, ◌++◌, map,
  nat_beq, ltb, ◌==◌, if◌then◌else◌, text_eq, is_empty, all, any, contains, unique, is_sha256,
  is_artifact_type, append, starts_with, Outcome, ok, Guard, ◌raises◌, check, ◌>>=◌, ◌>>◌,
  value_error, Error,
}
use prdcp.Revision.Layers.{
  LayerId, producer, researcher, layer_value, upstream_layer, layer_eq, RevisionRoute, internal,
  upstream, HumanSelectionImpact, DateTime, is_naive,
}

pub record RevisionArtifactRef : Type 0 where
  pub artifact_type : String
  pub artifact_id : String
  pub sha256 : String
  pub version : ℕ

-- What the idempotency key covers: all of the payload but the key and the time.
pub record RequestContent : Type 0 where
  pub schema_version : String
  pub revision_request_id : String
  pub workflow_id : String
  pub route : RevisionRoute
  pub source_layer : LayerId
  pub target_layer : LayerId
  pub revision_epoch : ℕ
  pub root_revision_request_id : String
  pub parent_revision_request_id : Option String
  pub source_review_id : String
  pub source_finding_ids : List String
  pub target_agent_ids : List String
  pub base_artifacts : List RevisionArtifactRef
  pub required_actions : List String
  pub acceptance_conditions : List String
  pub evidence_expansion_allowed : Bool
  pub retrieval_allowed : Bool
  pub expected_human_selection_impact : HumanSelectionImpact

pub record RevisionRequest : Type 0 where
  pub content : RequestContent
  pub open content use *
  pub idempotency_key : String
  pub created_at : DateTime

-- `Field(min_length=1)` on a text.
abbrev pub min_length_1 : String → String → Guard
min_length_1 field s = (s == "") raises value_error field

abbrev pub list_min_length_1 {ℓ} : {A : Type ℓ} → String → List A → Guard
list_min_length_1 field xs = is_empty xs raises value_error field

-- `Field(ge=n)`
abbrev pub at_least : String → ℕ → ℕ → Guard
at_least field n k = ltb k n raises value_error field

-- `_require_unique`
abbrev pub require_unique : List String → String → Guard
require_unique values field =
    not (unique values) raises value_error (append field " must contain unique values")

unfoldable pub valid_artifact : RevisionArtifactRef → Bool
valid_artifact a =
    is_artifact_type a.artifact_type
    && not (a.artifact_id == "")
    && is_sha256 a.sha256
    && ltb 0 a.version

-- f"{item.artifact_type}:{item.artifact_id}"
unfoldable pub artifact_key : RevisionArtifactRef → String
artifact_key a = append a.artifact_type (append ":" a.artifact_id)

-- The field constraints and field validators of `RevisionRequestV1`.
module _ (is_uuid : String → Bool) where
  unfoldable pub request_field_guards : RevisionRequest → List Guard
  request_field_guards r =
      not (r.schema_version == "revision.v1") raises value_error "schema_version"
      ∷ min_length_1 "revision_request_id" r.revision_request_id
      ∷ min_length_1 "workflow_id" r.workflow_id
      ∷ not (is_uuid r.workflow_id) raises value_error "workflow_id must be a UUID string"
      ∷ at_least "revision_epoch" 1 r.revision_epoch
      ∷ min_length_1 "root_revision_request_id" r.root_revision_request_id
      ∷ min_length_1 "source_review_id" r.source_review_id
      ∷ list_min_length_1 "source_finding_ids" r.source_finding_ids
      ∷ list_min_length_1 "target_agent_ids" r.target_agent_ids
      ∷ list_min_length_1 "base_artifacts" r.base_artifacts
      ∷ not (all valid_artifact r.base_artifacts) raises value_error "base_artifacts"
      ∷ list_min_length_1 "required_actions" r.required_actions
      ∷ list_min_length_1 "acceptance_conditions" r.acceptance_conditions
      ∷ not (is_sha256 r.idempotency_key) raises value_error "idempotency_key"
      ∷ is_naive r.created_at raises value_error "created_at must include a timezone"
      ∷ []

-- A text that is set and not empty.
abbrev pub truthy : Option String → Bool
truthy none = false
truthy (some s) = not (s == "")

abbrev pub is_some_of : Option String → String → Bool
is_some_of none s = false
is_some_of (some t) s = t == s

abbrev pub is_none {ℓ} : {A : Type ℓ} → Option A → Bool
is_none none = true
is_none (some a) = false

-- `UPSTREAM_LAYER.get(source) is target`
unfoldable pub is_upstream_of : LayerId → LayerId → Bool
unfolding upstream_layer
is_upstream_of source target = elim (upstream_layer source) [ none ↦ false | some l ↦ l == target ]

abbrev pub is_internal : RevisionRoute → Bool
is_internal internal = true
is_internal upstream = false

-- agent_id.startswith(f"{target.value}.")
abbrev pub in_layer : LayerId → String → Bool
in_layer l agent = starts_with agent (append (layer_value l) ".")

-- `validate_route_and_identity`
unfoldable pub route_guards : RevisionRequest → List Guard
unfolding is_upstream_of artifact_key
route_guards r =
    require_unique r.source_finding_ids "source_finding_ids"
    ∷ require_unique r.target_agent_ids "target_agent_ids"
    ∷ require_unique r.required_actions "required_actions"
    ∷ require_unique r.acceptance_conditions "acceptance_conditions"
    ∷ require_unique (map artifact_key r.base_artifacts) "base_artifacts"
    ∷ (is_internal r.route && not (r.source_layer == r.target_layer))
      raises value_error "internal revision must remain in its source layer"
    ∷ (not (is_internal r.route) && r.source_layer == producer)
      raises value_error "Producer cannot request an upstream revision"
    ∷ (not (is_internal r.route) && not (is_upstream_of r.source_layer r.target_layer))
      raises value_error "upstream revision must target the immediately preceding layer"
    ∷ not (all (in_layer r.target_layer) r.target_agent_ids)
      raises value_error "target_agent_ids must belong to target_layer"
    ∷ (r.retrieval_allowed && not r.evidence_expansion_allowed)
      raises value_error "retrieval_allowed requires evidence_expansion_allowed"
    ∷ (r.retrieval_allowed && not (r.target_layer == producer || r.target_layer == researcher))
      raises value_error
          "Retrieval is permitted only for Producer discovery or Researcher evidence expansion"
    ∷ is_some_of r.parent_revision_request_id r.revision_request_id
      raises value_error "A revision request cannot be its own parent"
    ∷ (is_none r.parent_revision_request_id
        && not (r.root_revision_request_id == r.revision_request_id))
      raises value_error "A root request must identify itself as root_revision_request_id"
    ∷ (truthy r.parent_revision_request_id && r.root_revision_request_id == "")
      raises value_error "A child revision request must preserve root_revision_request_id"
    ∷ []

-- `RevisionRequestV1.model_validate`, on the fields of a payload.
module _ (is_uuid : String → Bool) where
  unfoldable pub validate_request : RevisionRequest → Outcome RevisionRequest
  unfolding request_field_guards route_guards check
  validate_request r = check (request_field_guards is_uuid r) >> (check (route_guards r) >> ok r)

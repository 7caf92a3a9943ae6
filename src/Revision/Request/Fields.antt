-- ===== src/Revision/Request/Fields.antt =====
-- The field constraints of a revision request, stated without the code's tests, and the acceptance
-- of a whole request.
use prdcp.Shared.{
  String, ◌≡◌, ◌≢◌, ◌↔◌, ◌≤◌, Bool, true, false, [], text_eq, All, is_sha256, ok,
  check-check-ok_iff, Passes, eq-Passes, text-Passes, list-Passes, not-Passes, all-not-Passes,
  ltb-Passes,
}
use prdcp.Revision.Layers.{is_naive}
use prdcp.Revision.Request.{
  RevisionRequest, valid_artifact, route_guards, request_field_guards, validate_request,
}
use prdcp.Revision.Request.Spec.{IsConsistent, route_guards_iff}

pub record IsWellFormed (is_uuid : String → Bool) (r : RevisionRequest) : Type 0 where
  pub version : r.schema_version ≡ "revision.v1"
  pub id : r.revision_request_id ≢ ""
  pub workflow : r.workflow_id ≢ ""
  pub workflow_uuid : is_uuid r.workflow_id ≡ true
  pub epoch : 1 ≤ r.revision_epoch
  pub root : r.root_revision_request_id ≢ ""
  pub review : r.source_review_id ≢ ""
  pub findings : r.source_finding_ids ≢ []
  pub agents : r.target_agent_ids ≢ []
  pub some_artifact : r.base_artifacts ≢ []
  pub artifacts : All (λ a. valid_artifact a ≡ true) r.base_artifacts
  pub actions : r.required_actions ≢ []
  pub conditions : r.acceptance_conditions ≢ []
  pub key : is_sha256 r.idempotency_key ≡ true
  pub time : is_naive r.created_at ≡ false

request_field_guards_iff :
    (is_uuid : String → Bool) (r : RevisionRequest)
    → All Passes (request_field_guards is_uuid r) ↔ IsWellFormed is_uuid r
unfolding request_field_guards
request_field_guards_iff is_uuid r = (
  λ (
    g0,
    (g1, (g2, (g3, (g4, (g5, (g6, (g7, (g8, (g9, (g10, (g11, (g12, (g13, (g14, _)))))))))))))),
  ).
      record {
        version = (eq-Passes r.schema_version "revision.v1").0 g0;
        id = (text-Passes r.revision_request_id).0 g1;
        workflow = (text-Passes r.workflow_id).0 g2;
        workflow_uuid = (not-Passes (is_uuid r.workflow_id)).0 g3;
        epoch = (ltb-Passes r.revision_epoch 1).0 g4;
        root = (text-Passes r.root_revision_request_id).0 g5;
        review = (text-Passes r.source_review_id).0 g6;
        findings = (list-Passes r.source_finding_ids).0 g7;
        agents = (list-Passes r.target_agent_ids).0 g8;
        some_artifact = (list-Passes r.base_artifacts).0 g9;
        artifacts = (all-not-Passes valid_artifact r.base_artifacts).0 g10;
        actions = (list-Passes r.required_actions).0 g11;
        conditions = (list-Passes r.acceptance_conditions).0 g12;
        key = (not-Passes (is_sha256 r.idempotency_key)).0 g13;
        time = g14;
      },
  λ v. (
    (eq-Passes r.schema_version "revision.v1").1 v.version,
    (
      (text-Passes r.revision_request_id).1 v.id,
      (
        (text-Passes r.workflow_id).1 v.workflow,
        (
          (not-Passes (is_uuid r.workflow_id)).1 v.workflow_uuid,
          (
            (ltb-Passes r.revision_epoch 1).1 v.epoch,
            (
              (text-Passes r.root_revision_request_id).1 v.root,
              (
                (text-Passes r.source_review_id).1 v.review,
                (
                  (list-Passes r.source_finding_ids).1 v.findings,
                  (
                    (list-Passes r.target_agent_ids).1 v.agents,
                    (
                      (list-Passes r.base_artifacts).1 v.some_artifact,
                      (
                        (all-not-Passes valid_artifact r.base_artifacts).1 v.artifacts,
                        (
                          (list-Passes r.required_actions).1 v.actions,
                          (
                            (list-Passes r.acceptance_conditions).1 v.conditions,
                            ((not-Passes (is_sha256 r.idempotency_key)).1 v.key, (v.time, tt)),
                          ),
                        ),
                      ),
                    ),
                  ),
                ),
              ),
            ),
          ),
        ),
      ),
    ),
  ),
)

-- A request is accepted, unchanged, exactly when its fields are well formed and it is consistent.
pub validate_request_iff :
    (is_uuid : String → Bool) (r s : RevisionRequest)
    → (validate_request is_uuid r ≡ ok s) ↔ (IsWellFormed is_uuid r × IsConsistent r × (r ≡ s))
unfolding validate_request
validate_request_iff is_uuid r s =
    let both = check-check-ok_iff (request_field_guards is_uuid r) (route_guards r) r s in
    let fields = request_field_guards_iff is_uuid r in
    let consistent = route_guards_iff r in
    (
      λ e. let (f, g, same) = both.0 e in (fields.0 f, consistent.0 g, same),
      λ (f, g, same). both.1 (fields.1 f, consistent.1 g, same),
    )

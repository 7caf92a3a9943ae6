-- ===== src/Revision/Result/Fields.antt =====
-- The field constraints of a revision result and of its dispositions, stated without the code's
-- tests, and the acceptance of a whole result.
use prdcp.Shared.{
  String, ◌≡◌, ◌≢◌, refl, ◌↔◌, ◌≤◌, Bool, true, false, ◌&&◌, not, Option, none, some, List, [], ◌∷◌,
  arith, eq_iff, text_eq, all, All, is_sha256, ok, check-check-ok_iff, Passes, eq-Passes,
  text-Passes, list-Passes, not-Passes, all-not-Passes, ltb-Passes,
}
use prdcp.Revision.Layers.{is_naive, RevisionFindingOutcome, routed_upstream}
use prdcp.Revision.Request.{valid_artifact, truthy, is_none}
use prdcp.Revision.Result.{
  RevisionFindingDisposition, RevisionResult, disposition_guards, passes, is_routed_upstream,
  result_field_guards, result_guards, validate_result,
}
use prdcp.Revision.Result.Spec.{IsSound, result_guards_iff}

-- A disposition names its finding and gives a reason; it names a child request exactly when the
-- finding was routed upstream.
pub record IsDisposition (d : RevisionFindingDisposition) : Type 0 where
  pub finding : d.finding_id ≢ ""
  pub reason : d.reason ≢ ""
  pub child :
      d.outcome ≡ routed_upstream → (c : String) × (d.child_revision_request_id ≡ some c) × (c ≢ "")
  pub no_child : d.outcome ≢ routed_upstream → d.child_revision_request_id ≡ none

child-Passes :
    (o : RevisionFindingOutcome) (child : Option String)
    → ((is_routed_upstream o && not (truthy child)) ≡ false)
      ↔ (o ≡ routed_upstream → (c : String) × (child ≡ some c) × (c ≢ ""))
child-Passes RevisionFindingOutcome.routed_upstream none = (λ h e. cc, λ h. cc (h refl).1)
child-Passes RevisionFindingOutcome.routed_upstream (some c) = (
  λ h e. (c, refl, ground (arith, eq_iff c "")),
  λ h. let (d, same, ne) = h refl in ground (arith, eq_iff c ""),
)
child-Passes o child = (λ h e. cc, λ h. refl)

no_child-Passes :
    (o : RevisionFindingOutcome) (child : Option String)
    → ((not (is_routed_upstream o) && not (is_none child)) ≡ false)
      ↔ (o ≢ routed_upstream → child ≡ none)
no_child-Passes RevisionFindingOutcome.routed_upstream child = (λ h e. absurd (e refl), λ h. refl)
no_child-Passes o none = (λ h e. refl, λ h. ground arith)
no_child-Passes o (some c) = ground arith

disposition_guards_iff :
    (d : RevisionFindingDisposition) → All Passes (disposition_guards d) ↔ IsDisposition d
unfolding disposition_guards
disposition_guards_iff d = (
  λ (g0, (g1, (g2, (g3, _)))). record {
    finding = (text-Passes d.finding_id).0 g0;
    reason = (text-Passes d.reason).0 g1;
    child = (child-Passes d.outcome d.child_revision_request_id).0 g2;
    no_child = (no_child-Passes d.outcome d.child_revision_request_id).0 g3;
  },
  λ v. (
    (text-Passes d.finding_id).1 v.finding,
    (
      (text-Passes d.reason).1 v.reason,
      (
        (child-Passes d.outcome d.child_revision_request_id).1 v.child,
        ((no_child-Passes d.outcome d.child_revision_request_id).1 v.no_child, tt),
      ),
    ),
  ),
)

passes_disposition :
    (d : RevisionFindingDisposition)
    → (passes (disposition_guards d) ≡ true) ↔ All Passes (disposition_guards d)
unfolding disposition_guards
passes_disposition d = ground arith

and-Passes :
    {P Q : Type 0} (a b : Bool)
    → ((a ≡ true) ↔ P)
    → ((not b ≡ false) ↔ Q)
    → (not (a && b) ≡ false) ↔ (P × Q)
and-Passes true b p q = (λ h. (p.0 refl, q.0 h), λ h. q.1 h.1)
and-Passes false b p q = (λ h. cc, λ h. cc (p.1 h.0))

dispositions-Passes :
    (ds : List RevisionFindingDisposition)
    → (not (all (λ d. passes (disposition_guards d)) ds) ≡ false) ↔ All IsDisposition ds
dispositions-Passes [] = (λ h. tt, λ h. refl)
dispositions-Passes (d ∷ ds) =
    let head = passes_disposition d in
    let spec = disposition_guards_iff d in
    and-Passes _ _ (λ h. spec.0 (head.0 h), λ h. head.1 (spec.1 h)) (dispositions-Passes ds)

uuid-Passes : (a b : Bool) → (not (a && b) ≡ false) ↔ ((a ≡ true) × (b ≡ true))
uuid-Passes a b = ground arith

pub record IsWellFormed (is_uuid : String → Bool) (r : RevisionResult) : Type 0 where
  pub version : r.schema_version ≡ "revision.v1"
  pub id : r.revision_result_id ≢ ""
  pub request : r.revision_request_id ≢ ""
  pub message : r.request_message_id ≢ ""
  pub workflow : r.workflow_id ≢ ""
  pub uuids : (is_uuid r.request_message_id ≡ true) × (is_uuid r.workflow_id ≡ true)
  pub epoch : 1 ≤ r.revision_epoch
  pub some_base : r.base_artifacts ≢ []
  pub base : All (λ a. valid_artifact a ≡ true) r.base_artifacts
  pub results : All (λ a. valid_artifact a ≡ true) r.result_artifacts
  pub some_disposition : r.finding_dispositions ≢ []
  pub dispositions : All IsDisposition r.finding_dispositions
  pub key : is_sha256 r.idempotency_key ≡ true
  pub time : is_naive r.completed_at ≡ false

result_field_guards_iff :
    (is_uuid : String → Bool) (r : RevisionResult)
    → All Passes (result_field_guards is_uuid r) ↔ IsWellFormed is_uuid r
unfolding result_field_guards
result_field_guards_iff is_uuid r = (
  λ (g0, (g1, (g2, (g3, (g4, (g5, (g6, (g7, (g8, (g9, (g10, (g11, (g12, (g13, _)))))))))))))).
      record {
        version = (eq-Passes r.schema_version "revision.v1").0 g0;
        id = (text-Passes r.revision_result_id).0 g1;
        request = (text-Passes r.revision_request_id).0 g2;
        message = (text-Passes r.request_message_id).0 g3;
        workflow = (text-Passes r.workflow_id).0 g4;
        uuids = (uuid-Passes (is_uuid r.request_message_id) (is_uuid r.workflow_id)).0 g5;
        epoch = (ltb-Passes r.revision_epoch 1).0 g6;
        some_base = (list-Passes r.base_artifacts).0 g7;
        base = (all-not-Passes valid_artifact r.base_artifacts).0 g8;
        results = (all-not-Passes valid_artifact r.result_artifacts).0 g9;
        some_disposition = (list-Passes r.finding_dispositions).0 g10;
        dispositions = (dispositions-Passes r.finding_dispositions).0 g11;
        key = (not-Passes (is_sha256 r.idempotency_key)).0 g12;
        time = g13;
      },
  λ v. (
    (eq-Passes r.schema_version "revision.v1").1 v.version,
    (
      (text-Passes r.revision_result_id).1 v.id,
      (
        (text-Passes r.revision_request_id).1 v.request,
        (
          (text-Passes r.request_message_id).1 v.message,
          (
            (text-Passes r.workflow_id).1 v.workflow,
            (
              (uuid-Passes (is_uuid r.request_message_id) (is_uuid r.workflow_id)).1 v.uuids,
              (
                (ltb-Passes r.revision_epoch 1).1 v.epoch,
                (
                  (list-Passes r.base_artifacts).1 v.some_base,
                  (
                    (all-not-Passes valid_artifact r.base_artifacts).1 v.base,
                    (
                      (all-not-Passes valid_artifact r.result_artifacts).1 v.results,
                      (
                        (list-Passes r.finding_dispositions).1 v.some_disposition,
                        (
                          (dispositions-Passes r.finding_dispositions).1 v.dispositions,
                          ((not-Passes (is_sha256 r.idempotency_key)).1 v.key, (v.time, tt)),
                        ),
                      ),
                    ),
                  ),
                ),
              ),
            ),
          ),
        ),
      ),
    ),
  ),
)

-- A result is accepted, unchanged, exactly when its fields and dispositions are well formed and it
-- is sound.
pub validate_result_iff :
    (is_uuid : String → Bool) (r s : RevisionResult)
    → (validate_result is_uuid r ≡ ok s) ↔ (IsWellFormed is_uuid r × IsSound r × (r ≡ s))
unfolding validate_result
validate_result_iff is_uuid r s =
    let both = check-check-ok_iff (result_field_guards is_uuid r) (result_guards r) r s in
    let fields = result_field_guards_iff is_uuid r in
    let sound = result_guards_iff r in
    (
      λ e. let (f, g, same) = both.0 e in (fields.0 f, sound.0 g, same),
      λ (f, g, same). both.1 (fields.1 f, sound.1 g, same),
    )

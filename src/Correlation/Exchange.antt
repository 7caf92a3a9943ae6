-- ===== src/Correlation/Exchange.antt =====
-- What acceptance of a result message says about it and the request message that it answers.
use mathlib.Core.Path.{subst}
use prdcp.Shared.{
  ℕ, String, ◌≡◌, refl, sym, ap, ◌↔◌, Bool, false, ◌&&◌, ◌||◌, not, some, List, arith, eq_iff, ◌==◌,
  text_eq, nat_eq, All, Member, same_set, same_set_iff, ok, check-bind_iff, check-ok_iff, Passes,
  not-Passes, eq-Passes,
}
use prdcp.Revision.Layers.{LayerId, playwright, layer_eq, HumanSelectionImpact, impact_eq}
use prdcp.Revision.Request.{RevisionRequest, RevisionArtifactRef}
use prdcp.Revision.Result.{RevisionResult, is_playwright}
use prdcp.Revision.Result.Spec.{IsSound, IsClosed-Passes}
use prdcp.Revision.Result.Fields.{validate_result_iff}
use prdcp.Revision.Result.Fields
use prdcp.Revision.External.{External}
use prdcp.Pmp.{PmpMessage, MessageType, Payload}
use prdcp.Pmp.Registry.{IsRegistered, pmp_validate-bind_iff}
use prdcp.Correlation.{
  artifacts_eq, result_payload, result_envelope_guards, result_correlation_guards, finding_ids,
  validate_request_message, validate_result_message,
}
use prdcp.Correlation.Agreement.{
  IsRequestMessage, validate_request_message_iff, some-Passes, result_type-Passes, payload-bind,
}

-- An accepted pair: the result answers this request, message for message and field for field, and
-- disposes of every finding of the request exactly once.
pub record IsAnswer (x : External) (qm m : PmpMessage) (q : RevisionRequest) (r : RevisionResult)
    : Type 0 where
  pub request : IsRequestMessage x qm q
  pub registered : IsRegistered x.registry m
  pub type : m.message_type ≡ MessageType.revision_result
  pub payload : m.payload ≡ Payload.result r
  pub well_formed : Fields.IsWellFormed x.is_uuid r
  pub sound : IsSound r
  pub parent : m.parent_message_id ≡ some qm.message_id
  pub message : r.request_message_id ≡ qm.message_id
  pub workflow : r.workflow_id ≡ q.workflow_id
  pub envelope_workflow : m.workflow_id ≡ q.workflow_id
  pub request_id : r.revision_request_id ≡ q.revision_request_id
  pub epoch : r.revision_epoch ≡ q.revision_epoch
  pub requester : r.requester_layer ≡ q.source_layer
  pub producer : r.producer_layer ≡ q.target_layer
  pub impact :
      q.source_layer ≡ playwright → r.human_selection_impact ≡ q.expected_human_selection_impact
  pub sender : m.sender_agent_id ≡ qm.receiver_agent_id
  pub receiver : m.receiver_agent_id ≡ qm.sender_agent_id
  pub no_reply : m.routing.reply_required ≡ false
  pub artifacts : q.base_artifacts ≡ r.base_artifacts
  pub no_other_finding : All (λ f. Member f q.source_finding_ids) (finding_ids x r)
  pub every_finding : All (λ f. Member f (finding_ids x r)) q.source_finding_ids
  pub key : r.idempotency_key ≡ x.result_key r.content

result_payload_iff :
    (is_uuid : String → Bool) (p : Payload) (r : RevisionResult)
    → (result_payload is_uuid p ≡ ok r)
      ↔ ((p ≡ Payload.result r) × Fields.IsWellFormed is_uuid r × IsSound r)
unfolding result_payload
result_payload_iff is_uuid (Payload.result q) r =
    let v = validate_result_iff is_uuid q r in
    (
      λ h.
          let (f, c, e) = v.0 h in
          (ap Payload.result e, subst (Fields.IsWellFormed is_uuid) e f, subst IsSound e c),
      λ (e, f, c).
          let q_eq_r : q ≡ r = cc in
          v.1 (
            subst (Fields.IsWellFormed is_uuid) (sym q_eq_r) f,
            subst IsSound (sym q_eq_r) c,
            q_eq_r,
          ),
    )
result_payload_iff is_uuid (Payload.request q) r = (λ h. cc, λ (e, f, c). cc)
result_payload_iff is_uuid (Payload.other t) r = (λ h. cc, λ (e, f, c). cc)

eq_or-Passes : (s t u v : String) → ((not (s == t) || not (u == v)) ≡ false) ↔ ((s ≡ t) × (u ≡ v))
eq_or-Passes s t u v = ground (arith, eq_iff s t, eq_iff u v)

nat-Passes : (a b : ℕ) → (not (a == b) ≡ false) ↔ (a ≡ b)
nat-Passes a b = ground arith

layer-Passes : (a b : LayerId) → (not (a == b) ≡ false) ↔ (a ≡ b)
layer-Passes a b = ground (arith, layer_eq.same_iff a b)

impact-Passes :
    (l : LayerId) (i j : HumanSelectionImpact)
    → ((is_playwright l && not (i == j)) ≡ false) ↔ (l ≡ playwright → i ≡ j)
impact-Passes playwright i j = ground (arith, impact_eq.same_iff i j)
impact-Passes l i j = (λ h e. cc, λ h. refl)

artifacts-Passes : (xs ys : List RevisionArtifactRef) → (not (xs == ys) ≡ false) ↔ (xs ≡ ys)
artifacts-Passes xs ys = ground (arith, artifacts_eq.same_iff xs ys)

set-Passes :
    (xs ys : List String)
    → (not (same_set xs ys) ≡ false) ↔ (All (λ a. Member a ys) xs × All (λ a. Member a xs) ys)
set-Passes xs ys =
    let n = not-Passes (same_set xs ys) in
    let s = same_set_iff xs ys in (λ h. s.0 (n.0 h), λ h. n.1 (s.1 h))

module _ (x : External) (qm m : PmpMessage) (q : RevisionRequest) (r : RevisionResult) where
  IsAnswer-guards :
      IsRequestMessage x qm q
      → IsRegistered x.registry m
      → m.message_type ≡ MessageType.revision_result
      → (m.payload ≡ Payload.result r) × Fields.IsWellFormed x.is_uuid r × IsSound r
      → All Passes (result_correlation_guards x qm q m r)
      → IsAnswer x qm m q r
  unfolding result_correlation_guards
  IsAnswer-guards request registered type (payload, well_formed, sound)
        (
          g0,
          (
            g1,
            (g2, (g3, (g4, (g5, (g6, (g7, (g8, (g9, (g10, (g11, (g12, (g13, (g14, _))))))))))))),
          ),
        ) =
      record {
        request = request;
        registered = registered;
        type = type;
        payload = payload;
        well_formed = well_formed;
        sound = sound;
        parent = (some-Passes m.parent_message_id qm.message_id).0 g0;
        message = (eq-Passes r.request_message_id qm.message_id).0 g1;
        workflow = ((eq_or-Passes r.workflow_id q.workflow_id m.workflow_id q.workflow_id).0 g2).0;
        envelope_workflow =
            ((eq_or-Passes r.workflow_id q.workflow_id m.workflow_id q.workflow_id).0 g2).1;
        request_id = (eq-Passes r.revision_request_id q.revision_request_id).0 g3;
        epoch = (nat-Passes r.revision_epoch q.revision_epoch).0 g4;
        requester = (layer-Passes r.requester_layer q.source_layer).0 g5;
        producer = (layer-Passes r.producer_layer q.target_layer).0 g6;
        impact =
            (impact-Passes q.source_layer r.human_selection_impact
                q.expected_human_selection_impact).0
              g7;
        sender = (eq-Passes m.sender_agent_id qm.receiver_agent_id).0 g8;
        receiver = (eq-Passes m.receiver_agent_id qm.sender_agent_id).0 g9;
        no_reply = g10;
        artifacts = (artifacts-Passes q.base_artifacts r.base_artifacts).0 g11;
        no_other_finding = ((set-Passes (finding_ids x r) q.source_finding_ids).0 g12).0;
        every_finding = ((set-Passes (finding_ids x r) q.source_finding_ids).0 g12).1;
        key = (eq-Passes r.idempotency_key (x.result_key r.content)).0 g14;
      }

  guards-IsAnswer : IsAnswer x qm m q r → All Passes (result_correlation_guards x qm q m r)
  unfolding result_correlation_guards
  guards-IsAnswer v = (
    (some-Passes m.parent_message_id qm.message_id).1 v.parent,
    (
      (eq-Passes r.request_message_id qm.message_id).1 v.message,
      (
        (eq_or-Passes r.workflow_id q.workflow_id m.workflow_id q.workflow_id).1
            (v.workflow, v.envelope_workflow),
        (
          (eq-Passes r.revision_request_id q.revision_request_id).1 v.request_id,
          (
            (nat-Passes r.revision_epoch q.revision_epoch).1 v.epoch,
            (
              (layer-Passes r.requester_layer q.source_layer).1 v.requester,
              (
                (layer-Passes r.producer_layer q.target_layer).1 v.producer,
                (
                  (impact-Passes q.source_layer r.human_selection_impact
                        q.expected_human_selection_impact).1
                      v.impact,
                  (
                    (eq-Passes m.sender_agent_id qm.receiver_agent_id).1 v.sender,
                    (
                      (eq-Passes m.receiver_agent_id qm.sender_agent_id).1 v.receiver,
                      (
                        v.no_reply,
                        (
                          (artifacts-Passes q.base_artifacts r.base_artifacts).1 v.artifacts,
                          (
                            (set-Passes (finding_ids x r) q.source_finding_ids).1
                                (v.no_other_finding, v.every_finding),
                            (
                              (IsClosed-Passes r.status r.finding_dispositions).1 v.sound.closed,
                              ((eq-Passes r.idempotency_key (x.result_key r.content)).1 v.key, tt),
                            ),
                          ),
                        ),
                      ),
                    ),
                  ),
                ),
              ),
            ),
          ),
        ),
      ),
    ),
  )

-- A result message is accepted as the result r to a request message exactly when the request
-- message carries a valid request q, and r answers q: the same workflow, request, epoch, layers and
-- base artifacts, the agents exchanged, each finding of q disposed of and no other, and the
-- idempotency key of r the digest of its content.
pub validate_result_message_iff :
    (x : External) (qm m : PmpMessage) (r : RevisionResult)
    → (validate_result_message x qm m ≡ ok r) ↔ ((q : RevisionRequest) × IsAnswer x qm m q r)
unfolding validate_result_message result_envelope_guards
validate_result_message_iff x qm m r =
    let type = result_type-Passes m.message_type in
    let payload = result_payload_iff x.is_uuid m.payload r in
    (
      λ h.
          let (_, h1) = (pmp_validate-bind_iff x.registry qm _ r).0 h in
          let (q, asked, h2) = (payload-bind (validate_request_message x qm) _ r).0 h1 in
          let (registered, h3) = (pmp_validate-bind_iff x.registry m _ r).0 h2 in
          let ((g0, _), h4) = (check-bind_iff (result_envelope_guards x m) _ r).0 h3 in
          let (s, parsed, h5) = (payload-bind (result_payload x.is_uuid m.payload) _ r).0 h4 in
          let (passed, same) = (check-ok_iff (result_correlation_guards x qm q m s) s r).0 h5 in
          (
            q,
            IsAnswer-guards x qm m q r ((validate_request_message_iff x qm q).0 asked) registered
                (type.0 g0)
                (payload.0 (subst (λ u. result_payload x.is_uuid m.payload ≡ ok u) same parsed))
                (subst (λ u. All Passes (result_correlation_guards x qm q m u)) same passed),
          ),
      λ (q, v). (pmp_validate-bind_iff x.registry qm _ r).1 (
        v.request.registered,
        (payload-bind (validate_request_message x qm) _ r).1 (
          q,
          (validate_request_message_iff x qm q).1 v.request,
          (pmp_validate-bind_iff x.registry m _ r).1 (
            v.registered,
            (check-bind_iff (result_envelope_guards x m) _ r).1 (
              (type.1 v.type, tt),
              (payload-bind (result_payload x.is_uuid m.payload) _ r).1 (
                r,
                payload.1 (v.payload, v.well_formed, v.sound),
                (check-ok_iff (result_correlation_guards x qm q m r) r r).1
                    (guards-IsAnswer x qm m q r v, refl),
              ),
            ),
          ),
        ),
      ),
    )

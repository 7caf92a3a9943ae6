-- ===== src/Correlation/Agreement.antt =====
-- What acceptance of a request message and of a result message says about the two.
use mathlib.Core.Path.{subst}
use prdcp.Shared.{
  String, ◌≡◌, ◌≢◌, refl, sym, ap, ◌↔◌, Bool, true, false, not, Option, none, some, arith, eq_iff,
  text_eq, nat_eq, All, ok, Outcome, check-bind_iff, check-ok_iff, ◌>>=◌, >>=-eq-ok, Passes,
  not-Passes, eq-Passes,
}
use prdcp.Revision.Layers.{layer_eq, impact_eq}
use prdcp.Revision.Request.{RevisionRequest, in_layer, is_none, is_some_of}
use prdcp.Revision.Request.Spec.{IsConsistent}
use prdcp.Revision.Request.Fields.{IsWellFormed, validate_request_iff}
use prdcp.Revision.External.{External}
use prdcp.Pmp.{PmpMessage, MessageType, Payload}
use prdcp.Pmp.Registry.{IsRegistered, pmp_validate-bind_iff}
use prdcp.Correlation.{
  artifacts_eq, is_revision_request, is_revision_result, request_payload, request_envelope_guards,
  request_correlation_guards, validate_request_message,
}

-- An accepted request message: who may send it, and how envelope and payload belong together.
pub record IsRequestMessage (x : External) (m : PmpMessage) (r : RevisionRequest) : Type 0 where
  pub registered : IsRegistered x.registry m
  pub type : m.message_type ≡ MessageType.revision_request
  pub has_parent : m.parent_message_id ≢ none
  pub payload : m.payload ≡ Payload.request r
  pub well_formed : IsWellFormed x.is_uuid r
  pub consistent : IsConsistent r
  pub workflow : r.workflow_id ≡ m.workflow_id
  pub sender : in_layer r.source_layer m.sender_agent_id ≡ true
  pub receiver : in_layer r.target_layer m.receiver_agent_id ≡ true
  pub target : m.routing.revision_target ≡ some m.receiver_agent_id
  pub reply : m.routing.reply_required ≡ true
  pub key : r.idempotency_key ≡ x.request_key r.content

type-Passes :
    (t : MessageType) → (not (is_revision_request t) ≡ false) ↔ (t ≡ MessageType.revision_request)
type-Passes t = ground arith

pub result_type-Passes :
    (t : MessageType) → (not (is_revision_result t) ≡ false) ↔ (t ≡ MessageType.revision_result)
result_type-Passes t = ground arith

none-Passes {ℓ} : {A : Type ℓ} (o : Option A) → (is_none o ≡ false) ↔ (o ≢ none)
none-Passes none = (λ h. cc, λ h. absurd (h refl))
none-Passes (some a) = (λ h e. cc, λ h. refl)

pub some-Passes : (o : Option String) (s : String) → (not (is_some_of o s) ≡ false) ↔ (o ≡ some s)
some-Passes none s = ground arith
some-Passes (some t) s = ground (arith, eq_iff t s)

request_payload_iff :
    (is_uuid : String → Bool) (p : Payload) (r : RevisionRequest)
    → (request_payload is_uuid p ≡ ok r)
      ↔ ((p ≡ Payload.request r) × IsWellFormed is_uuid r × IsConsistent r)
unfolding request_payload
request_payload_iff is_uuid (Payload.request q) r =
    let v = validate_request_iff is_uuid q r in
    (
      λ h.
          let (f, c, e) = v.0 h in
          (ap Payload.request e, subst (IsWellFormed is_uuid) e f, subst IsConsistent e c),
      λ (e, f, c).
          let q_eq_r : q ≡ r = cc in
          v.1 (
            subst (IsWellFormed is_uuid) (sym q_eq_r) f,
            subst IsConsistent (sym q_eq_r) c,
            q_eq_r,
          ),
    )
request_payload_iff is_uuid (Payload.result q) r = (λ h. cc, λ (e, f, c). cc)
request_payload_iff is_uuid (Payload.other t) r = (λ h. cc, λ (e, f, c). cc)

pub payload-bind {ℓ κ} :
    {A : Type ℓ} {B : Type κ} (m : Outcome A) (k : A → Outcome B) (b : B)
    → ((m >>= k) ≡ ok b) ↔ ((a : A) × (m ≡ ok a) × (k a ≡ ok b))
payload-bind m k b = (λ h. >>=-eq-ok m k h, λ (a, e, h). rw e h)

correlation-Passes :
    (x : External) (m : PmpMessage) (r : RevisionRequest)
    → All Passes (request_correlation_guards x m r) ↔ (
        (r.workflow_id ≡ m.workflow_id)
        × (in_layer r.source_layer m.sender_agent_id ≡ true)
        × (in_layer r.target_layer m.receiver_agent_id ≡ true)
        × (m.routing.revision_target ≡ some m.receiver_agent_id)
        × (m.routing.reply_required ≡ true)
        × (r.idempotency_key ≡ x.request_key r.content))
unfolding request_correlation_guards
correlation-Passes x m r =
    let w = eq-Passes r.workflow_id m.workflow_id in
    let s = not-Passes (in_layer r.source_layer m.sender_agent_id) in
    let t = not-Passes (in_layer r.target_layer m.receiver_agent_id) in
    let o = some-Passes m.routing.revision_target m.receiver_agent_id in
    let y = not-Passes m.routing.reply_required in
    let k = eq-Passes r.idempotency_key (x.request_key r.content) in
    (
      λ (g0, (g1, (g2, (g3, (g4, (g5, _)))))). (w.0 g0, s.0 g1, t.0 g2, o.0 g3, y.0 g4, k.0 g5),
      λ (g0, g1, g2, g3, g4, g5). (w.1 g0, (s.1 g1, (t.1 g2, (o.1 g3, (y.1 g4, (k.1 g5, tt)))))),
    )

-- A message is accepted as the request r exactly when it carries r, r is a valid request, its
-- agents are registered and belong to the layers that r names, it answers a review, expects a
-- reply, and the idempotency key of r is the digest of its content.
pub validate_request_message_iff :
    (x : External) (m : PmpMessage) (r : RevisionRequest)
    → (validate_request_message x m ≡ ok r) ↔ IsRequestMessage x m r
unfolding validate_request_message request_envelope_guards
validate_request_message_iff x m r =
    let type = type-Passes m.message_type in
    let parent = none-Passes m.parent_message_id in
    let payload = request_payload_iff x.is_uuid m.payload r in
    (
      λ h.
          let (registered, h1) = (pmp_validate-bind_iff x.registry m _ r).0 h in
          let ((g0, (g1, _)), h2) = (check-bind_iff (request_envelope_guards x m) _ r).0 h1 in
          let (q, parsed, h3) = (payload-bind (request_payload x.is_uuid m.payload) _ r).0 h2 in
          let (passed, same) = (check-ok_iff (request_correlation_guards x m q) q r).0 h3 in
          let (p, f, c) =
            payload.0 (subst (λ u. request_payload x.is_uuid m.payload ≡ ok u) same parsed) in
          let (w, s, t, o, y, k) =
            (correlation-Passes x m r).0
              (subst (λ u. All Passes (request_correlation_guards x m u)) same passed) in
          record {
            registered = registered;
            type = type.0 g0;
            has_parent = parent.0 g1;
            payload = p;
            well_formed = f;
            consistent = c;
            workflow = w;
            sender = s;
            receiver = t;
            target = o;
            reply = y;
            key = k;
          },
      λ v. (pmp_validate-bind_iff x.registry m _ r).1 (
        v.registered,
        (check-bind_iff (request_envelope_guards x m) _ r).1 (
          (type.1 v.type, (parent.1 v.has_parent, tt)),
          (payload-bind (request_payload x.is_uuid m.payload) _ r).1 (
            r,
            payload.1 (v.payload, v.well_formed, v.consistent),
            (check-ok_iff (request_correlation_guards x m r) r r).1 (
              (correlation-Passes x m r).1
                  (v.workflow, v.sender, v.receiver, v.target, v.reply, v.key),
              refl,
            ),
          ),
        ),
      ),
    )

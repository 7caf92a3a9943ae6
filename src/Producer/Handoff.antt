-- ===== src/Producer/Handoff.antt =====
-- The handoff of `ProducerManager` (producer/manager.py) to the researcher.
use prdcp.Shared.{suc, ◌≡◌, refl, sym, ◌∙◌, ap, Option, none, some, ok, check-ok_iff, Fields}
use prdcp.Pmp.{PmpMessage, Payload, message_guards, validate_message, pmp_validate}
use prdcp.Exchange.Exec.{resume-holds}
use prdcp.Producer.Setting.{Manager, World, last}
use prdcp.Producer.Drafts.{Draft, of_draft}
use prdcp.Producer.Messages.{
  create, handoff_draft, plan_of, deliver, validate_handoff_payload, send_to_researcher,
}

-- The outbox has a message with the plan of the state, which passed the validation of a handoff.
pub record IsDelivered (w : World) : Type 0 where
  pub plan : Fields
  pub message : PmpMessage
  pub is_plan : w.state.research_plan ≡ some plan
  pub in_outbox : w.outbox ≡ some message
  pub carries : message.payload ≡ Payload.other plan
  pub valid : validate_handoff_payload plan ≡ ok tt

plan_of-some : (o : Option Fields) (plan : Fields) → plan_of o ≡ ok plan → o ≡ some plan
plan_of-some none plan h = cc
plan_of-some (some p) plan h = cc

module _ (m : Manager) where
  create-payload :
      (d : Draft) (w : World) (message : PmpMessage)
      → (create m d w).0 ≡ ok message
      → message.payload ≡ d.payload
  unfolding create validate_message
  create-payload d w message h =
      let made =
        of_draft d w.state.workflow_id (m.uuid w.drawn) (m.now (suc w.drawn))
          (m.now (suc (suc w.drawn))) in
      let (passed, same) = (check-ok_iff (message_guards m.x.is_uuid made) made message).0 h in
      sym (ap (λ t. t.payload) same)

  create-plan :
      (d : Draft) (w : World) → (create m d w).1.state.research_plan ≡ w.state.research_plan
  unfolding create
  create-plan d w = refl

  deliver-IsDelivered :
      (plan role : Fields) (w : World) (u : Unit {0})
      → w.state.research_plan ≡ some plan
      → validate_handoff_payload plan ≡ ok tt
      → (deliver m plan role w).0 ≡ ok u
      → IsDelivered (deliver m plan role w).1
  unfolding deliver
  deliver-IsDelivered plan role w u e valid h =
      let made = create m (handoff_draft plan role) w in
      resume-holds (λ r. IsDelivered r.1) made.0 _ made.1 u
        (λ message y h2.
          resume-holds (λ r. IsDelivered r.1) (pmp_validate m.x.registry message) _ made.1 u
            (λ passed y2 h3. record {
              plan = plan;
              message = message;
              is_plan = create-plan (handoff_draft plan role) w ∙ e;
              in_outbox = refl;
              carries = create-payload (handoff_draft plan role) w message y;
              valid = valid;
            })
            h2)
        h

  -- A handoff that does not raise leaves the plan in the outbox.
  pub send_to_researcher-IsDelivered :
      (w : World) (u : Unit {0})
      → (send_to_researcher m w).0 ≡ ok u
      → IsDelivered (send_to_researcher m w).1
  unfolding send_to_researcher
  send_to_researcher-IsDelivered w u h =
      resume-holds (λ r. IsDelivered r.1) (plan_of w.state.research_plan) _ w u
        (λ plan found h2.
          resume-holds (λ r. IsDelivered r.1) (validate_handoff_payload plan) _ w u
            (λ v valid h3.
              resume-holds (λ r. IsDelivered r.1) (last w.state.role_definition_usage) _ w u
                (λ role there h4.
                  deliver-IsDelivered plan role w u (plan_of-some _ plan found) valid h4)
                h3)
            h2)
        h

-- ===== src/Producer/Revising.antt =====
-- The steps behind a review of `ProducerManager` (producer/manager.py) keep the checkpoint.
use mathlib.Core.Path.{subst}
use prdcp.Shared.{
  ℕ, ◌≤◌, String, ◌≡◌, refl, Option, some, Outcome, ok, raise, text_eq, Fields,
  revision_budget_exhausted,
}
use prdcp.Revision.Layers.{RevisionControlPhase}
use prdcp.Revision.Request.{RevisionRequest}
use prdcp.Revision.Control.{RevisionExecutionAuthorization, RevisionBudgetConsumption}
use prdcp.Pmp.{pmp_validate}
use prdcp.Exchange.Exec.{pure}
use prdcp.Producer.Model.{agent_order, index}
use prdcp.Producer.Checkpoint.{invalidate_from}
use prdcp.Producer.Setting.{Manager, World, last, put, modify, save, draw, append_message}
use prdcp.Producer.Messages.{
  handoff_draft, plan_of, deliver, create, send_to_researcher, validate_handoff_payload,
}
use prdcp.Producer.Steps.{IsAt, Keeps, same-IsCheckpoint, resume-IsAt}
use prdcp.Producer.Asking.{create-Keeps}
use prdcp.Producer.Ledgers.{on_ledger}
use prdcp.Producer.Revision.{first, Identities, active_revision_request_message}
use prdcp.Correlation.{request_payload}
use prdcp.Correlation.Current.{validate_current_base_artifacts}
use prdcp.Producer.Accounting.{
  round_from, new_record, add_record, count_revision, revising_state, set_error, assign_phase,
  with_owned, current_hashes, budget_for,
}
use prdcp.Producer.Execution.{
  budget_blocked, block_revision, claim_revision, begin_revision, on_budget,
  execute_active_revision, restart,
}
use prdcp.Producer.Settled.{
  by_block, IsRoundEnd, resume-IsRoundEnd, at-IsKept, on_ledger-Keeps, ledger-IsRoundEnd,
}
use prdcp.Producer.Counted.{add_record-IsSame, count_revision-IsSame, invalidated-IsCheckpoint}

module _ (m : Manager) where
  deliver-Keeps : (n : ℕ) (plan role : Fields) → Keeps n (deliver m plan role)
  unfolding deliver
  deliver-Keeps n plan role w p =
      let made = create-Keeps m n (handoff_draft plan role) w p in
      resume-IsAt n (create m (handoff_draft plan role) w).0 _
        (create m (handoff_draft plan role) w).1 made
        (λ message e.
          resume-IsAt n (pmp_validate m.x.registry message) _
            (create m (handoff_draft plan role) w).1 made
            (λ u e2. record {
              now =
                  same-IsCheckpoint n (create m (handoff_draft plan role) w).1.state
                    (append_message message (create m (handoff_draft plan role) w).1).1.state
                    record {
                      completed = refl;
                      candidates = refl;
                      topic = refl;
                      opinion = refl;
                      plan = refl;
                    }
                    made.now;
              saved = made.saved;
            }))

  pub send_to_researcher-Keeps : (n : ℕ) → Keeps n (send_to_researcher m)
  unfolding send_to_researcher
  send_to_researcher-Keeps n w p = resume-IsAt n (plan_of w.state.research_plan) _ w p (λ plan e.
      resume-IsAt n (validate_handoff_payload plan) _ w p (λ u e2.
        resume-IsAt n (last w.state.role_definition_usage) _ w p
          (λ role e3. deliver-Keeps n plan role w p)))

  block_revision-IsRoundEnd :
      (stop : Option ℕ) (n : ℕ) (r : RevisionRequest) (t : String) (w : World)
      → IsAt n w
      → IsRoundEnd stop (block_revision m r t w)
  unfolding block_revision
  block_revision-IsRoundEnd stop n r t w p =
      ledger-IsRoundEnd stop n (assign_phase RevisionControlPhase.blocked) _ w p (λ u v pv.
        let after = (draw (modify (set_error t) v).1).1 in
        let audit = on_ledger (budget_blocked m r t (m.now v.drawn)) in
        let here : IsAt n after = record {
          now =
              same-IsCheckpoint n v.state after.state
                record {
                  completed = refl;
                  candidates = refl;
                  topic = refl;
                  opinion = refl;
                  plan = refl;
                }
                pv.now;
          saved = pv.saved;
        } in
        let kept = on_ledger-Keeps n (budget_blocked m r t (m.now v.drawn)) after here in
        resume-IsRoundEnd stop (audit after).0 _ (audit after).1 (at-IsKept n _ kept) (λ u2 e. (
          ((n, kept.now), ((n, kept.now), kept.saved)),
          record {
            stored = ((audit after).1.saved, refl);
            idle = refl;
            status = by_block;
            delivered = λ e. cc;
          },
        )))

  restart-IsRoundEnd :
      (stop : Option ℕ) (n : ℕ) (target : String) (ids : Identities) (w : World)
      → 4 ≤ n
      → IsAt n w
      → IsRoundEnd stop (restart m target ids w)
  unfolding restart
  restart-IsRoundEnd stop n target ids w four p =
      let s = revising_state w.state in
      let c =
        same-IsCheckpoint n w.state s
          record { completed = refl; candidates = refl; topic = refl; opinion = refl; plan = refl }
          p.now in
      resume-IsRoundEnd stop (invalidate_from s target) _ (modify revising_state w).1
        ((n, c), p.saved)
        (λ after dropped.
          let v = (save (put after (modify revising_state w).1).1).1 in
          let (i, found, there) = invalidated-IsCheckpoint target n s after four c dropped in
          let here : IsAt i v = record { now = there; saved = ((i, there), p.saved) } in
          resume-IsRoundEnd stop (index agent_order target) (λ j. pure (some (round_from ids j))) v
            (at-IsKept i v here)
            (λ j again. let same : i ≡ j = cc in (subst (λ k. IsAt k v) same here, refl)))

  begin_revision-IsRoundEnd :
      (stop : Option ℕ) (n : ℕ) (r : RevisionRequest) (b : RevisionBudgetConsumption)
      (ids : Identities) (w : World)
      → 4 ≤ n
      → IsAt n w
      → IsRoundEnd stop (begin_revision m r b ids w)
  unfolding begin_revision
  begin_revision-IsRoundEnd stop n r b ids w four p =
      let drawn : IsAt n (draw w).1 = record { now = p.now; saved = p.saved } in
      let kept = at-IsKept n (draw w).1 drawn in
      resume-IsRoundEnd stop (first r.target_agent_ids) _ (draw w).1 kept (λ target e.
        resume-IsRoundEnd stop (first r.required_actions) _ (draw w).1 kept (λ action e2.
          let entry = new_record w.state r b.iteration target action ids (m.now w.drawn) in
          resume-IsRoundEnd stop (add_record r entry w.state) _ (draw w).1 kept (λ t added.
            let u = count_revision r b.iteration t in
            let c =
              same-IsCheckpoint n t u (count_revision-IsSame r b.iteration t)
                (same-IsCheckpoint n w.state t (add_record-IsSame r entry w.state t added) p.now) in
            ledger-IsRoundEnd stop n (assign_phase RevisionControlPhase.executing)
              (λ done. restart m target ids) (put u (draw w).1).1
              (record { now = c; saved = p.saved })
              (λ done v pv. restart-IsRoundEnd stop n target ids v four pv))))

  on_budget-IsRoundEnd :
      (stop : Option ℕ) (n : ℕ) (r : RevisionRequest) (message : String)
      (a : RevisionExecutionAuthorization) (b : Outcome RevisionBudgetConsumption) (w : World)
      → 4 ≤ n
      → IsAt n w
      → IsRoundEnd stop (on_budget m r message a b w)
  unfolding on_budget
  on_budget-IsRoundEnd stop n r message a (ok b) w four p =
      ledger-IsRoundEnd stop n (claim_revision m r message a b) (begin_revision m r b) w p
        (λ ids v pv. begin_revision-IsRoundEnd stop n r b ids v four pv)
  on_budget-IsRoundEnd stop n r message a (raise (revision_budget_exhausted t)) w four p =
      block_revision-IsRoundEnd stop n r t w p
  on_budget-IsRoundEnd stop n r message a (raise _) w four p = at-IsKept n w p

  pub execute_active_revision-IsRoundEnd :
      (stop : Option ℕ) (n : ℕ) (a : RevisionExecutionAuthorization) (w : World)
      → 4 ≤ n
      → IsAt n w
      → IsRoundEnd stop (execute_active_revision m a w)
  unfolding execute_active_revision
  execute_active_revision-IsRoundEnd stop n a w four p =
      ledger-IsRoundEnd stop n (active_revision_request_message m) _ w p (λ message v pv.
        resume-IsRoundEnd stop (request_payload m.x.is_uuid message.payload) _ v (at-IsKept n v pv)
          (λ r parsed.
            resume-IsRoundEnd stop
              (validate_current_base_artifacts (current_hashes m v.state) (with_owned r)) _ v
              (at-IsKept n v pv)
              (λ u current.
                let drawn : IsAt n (draw v).1 = record { now = pv.now; saved = pv.saved } in
                let budget = on_ledger (budget_for m r (m.now v.drawn)) in
                on_budget-IsRoundEnd stop n r message.message_id a (budget (draw v).1).0
                  (budget (draw v).1).1 four
                  (on_ledger-Keeps n (budget_for m r (m.now v.drawn)) (draw v).1 drawn))))

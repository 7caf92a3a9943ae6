-- ===== src/Producer/Run.antt =====
-- What `ProducerManager._run_from` (producer/manager.py) promises, with the reviews and revisions
-- that it leads to.
use prdcp.Shared.{
  ℕ, String, ◌≡◌, refl, Bool, true, false, Option, none, Bool-cases, inl, inr, arith, Outcome, ok,
  raise, Fields,
}
use prdcp.Revision.Layers.{RevisionControlPhase}
use prdcp.Revision.Control.{ActorSource}
use prdcp.Pmp.{PmpMessage}
use prdcp.Exchange.Exec.{pure, ◌>>◌}
use prdcp.Producer.Model.{
  WorkflowStatus, ProducerWorkflowState, QualityReviewOutput, quality_reviewer, manager_id,
}
use prdcp.Producer.Checkpoint.{apply_result, mark_complete}
use prdcp.Producer.Setting.{Manager, World, put, modify, save}
use prdcp.Producer.Drafts.{payload_fields}
use prdcp.Producer.Messages.{send_to_researcher}
use prdcp.Producer.Agents.{set_status, fail}
use prdcp.Producer.Review.{parse_review, is_approval, is_revision}
use prdcp.Producer.Progress.{IsCheckpoint, reviewer, accept-IsCheckpoint}
use prdcp.Producer.Steps.{IsAt, Keeps, same-IsCheckpoint}
use prdcp.Producer.Handoff.{IsDelivered, send_to_researcher-IsDelivered}
use prdcp.Producer.Revision.Plan.{plan_internal_revision, create_revision_authorization}
use prdcp.Producer.Revision.Result.{finalize_active_revision}
use prdcp.Producer.Accounting.{assign_phase}
use prdcp.Producer.Settled.{
  by_failure, by_completion, by_block, IsRoundEnd, resume-IsRoundEnd, bind-IsRoundEnd,
  ledger-IsRoundEnd, on_ledger-Keeps, at-IsKept,
}
use prdcp.Producer.Revising.{send_to_researcher-Keeps, execute_active_revision-IsRoundEnd}
use prdcp.Producer.{
  is_executing, with_review, stopped, finalize_if_executing, after_handoff, approve,
  stop_for_operator, revise, reject, handle_review,
}

module _ (m : Manager) where
  finalize_if_executing-Keeps :
      (n : ℕ) (response : PmpMessage) (completed : Bool) (reason : String)
      → Keeps n (finalize_if_executing m response completed reason)
  unfolding finalize_if_executing
  finalize_if_executing-Keeps n response completed reason w p =
      elim (Bool-cases (is_executing w.state.revision_control.phase)) [
        | inl y ↦
            rw y (on_ledger-Keeps n (finalize_active_revision m response completed reason) w p)
        | inr idle ↦ rw idle p
      ]

  fail-IsRoundEnd :
      (stop : Option ℕ) (n : ℕ) (message : String) (w : World)
      → IsAt n w
      → IsRoundEnd stop ((fail m message >> pure none) w)
  unfolding fail
  fail-IsRoundEnd stop n message w p =
      let c =
        same-IsCheckpoint n w.state (fail m message w).1.state
          record { completed = refl; candidates = refl; topic = refl; opinion = refl; plan = refl }
          p.now in
      (
        ((n, c), ((n, c), p.saved)),
        record { stored = (w.saved, refl); idle = refl; status = by_failure; delivered = λ e. cc },
      )

  after_handoff-IsRoundEnd :
      (stop : Option ℕ) (sent : Outcome (Unit {0})) (w : World)
      → IsAt 5 w
      → ((u : Unit {0}) → sent ≡ ok u → IsDelivered w)
      → IsRoundEnd stop (after_handoff m sent w)
  unfolding after_handoff
  after_handoff-IsRoundEnd stop (raise e) w p h = fail-IsRoundEnd stop 5 _ w p
  after_handoff-IsRoundEnd stop (ok u) w p h =
      let c =
        same-IsCheckpoint 5 w.state (after_handoff m (ok u) w).1.state
          record { completed = refl; candidates = refl; topic = refl; opinion = refl; plan = refl }
          p.now in
      let d = h u refl in
      (
        ((5, c), ((5, c), p.saved)),
        record {
          stored = (w.saved, refl);
          idle = refl;
          status = by_completion;
          delivered = λ e. (
            record {
              plan = d.plan;
              message = d.message;
              is_plan = d.is_plan;
              in_outbox = d.in_outbox;
              carries = d.carries;
              valid = d.valid;
            },
            p.now.completed,
          );
        },
      )

  approved-IsCheckpoint :
      (s : ProducerWorkflowState)
      → IsCheckpoint 4 s
      → IsCheckpoint 5 (set_status WorkflowStatus.approved (mark_complete s quality_reviewer))
  unfolding apply_result
  approved-IsCheckpoint s c =
      let d = accept-IsCheckpoint reviewer s s Fields.end c refl refl in
      same-IsCheckpoint 5 (mark_complete s quality_reviewer) _
        record { completed = refl; candidates = refl; topic = refl; opinion = refl; plan = refl } d

  approve-IsRoundEnd :
      (stop : Option ℕ) (response : PmpMessage) (review : QualityReviewOutput) (w : World)
      → IsAt 4 w
      → IsRoundEnd stop (approve m response review w)
  unfolding approve
  approve-IsRoundEnd stop response review w p =
      bind-IsRoundEnd stop 4 (finalize_if_executing m response true review.reason) _ w
        (finalize_if_executing-Keeps 4 response true review.reason) p
        (λ u v pv.
          let c = approved-IsCheckpoint v.state pv.now in
          let t = set_status WorkflowStatus.approved (mark_complete v.state quality_reviewer) in
          let here : IsAt 5 (save (put t v).1).1 = record { now = c; saved = ((5, c), pv.saved) } in
          let sent = send_to_researcher m (save (put t v).1).1 in
          after_handoff-IsRoundEnd stop sent.0 sent.1
            (send_to_researcher-Keeps m 5 (save (put t v).1).1 here)
            (λ done e. send_to_researcher-IsDelivered m (save (put t v).1).1 done e))

  stop_for_operator-IsRoundEnd :
      (stop : Option ℕ) (n : ℕ) (w : World) → IsAt n w → IsRoundEnd stop (stop_for_operator m w)
  unfolding stop_for_operator
  stop_for_operator-IsRoundEnd stop n w p =
      ledger-IsRoundEnd stop n (assign_phase RevisionControlPhase.authorization_required) _ w p
        (λ u v pv.
          let c =
            same-IsCheckpoint n v.state (stopped v.state)
              record {
                completed = refl;
                candidates = refl;
                topic = refl;
                opinion = refl;
                plan = refl;
              }
              pv.now in
          (
            ((n, c), ((n, c), pv.saved)),
            record {
              stored = (v.saved, refl);
              idle = refl;
              status = by_block;
              delivered = λ e. cc;
            },
          ))

  revise-IsRoundEnd :
      (stop : Option ℕ) (response : PmpMessage) (review : QualityReviewOutput) (w : World)
      → IsAt 4 w
      → IsRoundEnd stop (revise m response review w)
  unfolding revise
  revise-IsRoundEnd stop response review w p =
      bind-IsRoundEnd stop 4 (finalize_if_executing m response false review.reason) _ w
        (finalize_if_executing-Keeps 4 response false review.reason) p
        (λ u v pv.
          ledger-IsRoundEnd stop 4 (plan_internal_revision m response review) _ v pv
            (λ request x px.
              let here : IsAt 4 (save x).1 = record {
                now = px.now;
                saved = ((4, px.now), px.saved);
              } in
              elim (Bool-cases m.demo_safe_mode) [
                | inl y ↦ rw y (stop_for_operator-IsRoundEnd stop 4 (save x).1 here)
                | inr n ↦ rw n (
                    ledger-IsRoundEnd stop 4
                      (create_revision_authorization m request manager_id ActorSource.system
                        "Safe Mode is disabled; runtime policy permits one automatic revision")
                      _ (save x).1 here
                      (λ a y py.
                        execute_active_revision-IsRoundEnd m stop 4 a (save y).1 (omega arith)
                          (record { now = py.now; saved = ((4, py.now), py.saved) })))
              ]))

  reject-IsRoundEnd :
      (stop : Option ℕ) (response : PmpMessage) (review : QualityReviewOutput) (w : World)
      → IsAt 4 w
      → IsRoundEnd stop (reject m response review w)
  unfolding reject
  reject-IsRoundEnd stop response review w p =
      bind-IsRoundEnd stop 4 (finalize_if_executing m response false review.reason) _ w
        (finalize_if_executing-Keeps 4 response false review.reason) p
        (λ u v pv. fail-IsRoundEnd stop 4 _ v pv)

  pub handle_review-IsRoundEnd :
      (stop : Option ℕ) (response : PmpMessage) (w : World)
      → IsAt 4 w
      → IsRoundEnd stop (handle_review m response w)
  unfolding handle_review
  handle_review-IsRoundEnd stop response w p =
      resume-IsRoundEnd stop (parse_review (payload_fields response.payload)) _ w (at-IsKept 4 w p)
        (λ review parsed.
          let v = (modify (with_review review) w).1 in
          let here : IsAt 4 v = record {
            now =
                same-IsCheckpoint 4 w.state v.state
                  record {
                    completed = refl;
                    candidates = refl;
                    topic = refl;
                    opinion = refl;
                    plan = refl;
                  }
                  p.now;
            saved = p.saved;
          } in
          elim (Bool-cases (is_approval review.status)) [
            | inl y ↦ rw y (approve-IsRoundEnd stop response review v here)
            | inr n ↦ elim (Bool-cases (is_revision review.status)) [
              | inl y2 ↦ rw (n, y2) (revise-IsRoundEnd stop response review v here)
              | inr n2 ↦ rw (n, n2) (reject-IsRoundEnd stop response review v here)
            ]
          ])

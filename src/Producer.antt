-- ===== src/Producer.antt =====
-- `ProducerManager` of producer/manager.py: the run of the five agents of the producer, the quality
-- review that ends it, and the revisions that a review asks for. Progress messages to a callback
-- are left out.
pub mod Model
pub mod Checkpoint
pub mod Setting
pub mod Payload
pub mod Drafts
pub mod Messages
pub mod Agents
pub mod Recovery
pub mod Progress
pub mod Invalidation
pub mod Steps
pub mod Asking
pub mod LoopEnd
pub mod Loop
pub mod Review
pub mod Ledgers
pub mod Revision
pub mod Accounting
pub mod Execution
pub mod Handoff
pub mod Settled
pub mod Counted
pub mod Revising
pub mod Run
pub mod Ending
pub mod Safe
pub mod Restart
pub mod Recover
use prdcp.Shared.{
  ℕ, zero, suc, String, Bool, true, false, Option, none, some, List, [], ◌∷◌, if◌then◌else◌,
  contains, Outcome, ok, raise, Error, append,
}
use prdcp.Revision.Layers.{RevisionControlPhase}
use prdcp.Revision.Control.{ActorSource}
use prdcp.Pmp.{PmpMessage}
use prdcp.Exchange.Exec.{pure, throw, lift, ◌>>=◌, ◌>>◌}
use prdcp.Producer.Model.{
  WorkflowStatus, ProducerWorkflowState, QualityReviewOutput, agent_order, quality_reviewer,
  manager_id, drop,
}
use prdcp.Producer.Checkpoint.{mark_complete}
use prdcp.Producer.Setting.{Manager, World, Step, current, put, modify, save, draw, attempt}
use prdcp.Producer.Drafts.{payload_fields, error_text}
use prdcp.Producer.Messages.{send_to_researcher}
use prdcp.Producer.Agents.{Reached, returned, review_of, set_status, fail, run_agents}
use prdcp.Producer.Review.{parse_review, is_approval, is_revision}
use prdcp.Producer.Ledgers.{on_ledger}
use prdcp.Producer.Revision.Plan.{plan_internal_revision, create_revision_authorization}
use prdcp.Producer.Revision.Result.{finalize_active_revision}
use prdcp.Producer.Accounting.{Round, assign_phase}
use prdcp.Producer.Execution.{execute_active_revision}

abbrev pub is_executing : RevisionControlPhase → Bool
is_executing RevisionControlPhase.executing = true
is_executing _ = false

abbrev pub with_review : QualityReviewOutput → ProducerWorkflowState → ProducerWorkflowState
with_review review s = record s { review_result = some review }

abbrev pub stopped : ProducerWorkflowState → ProducerWorkflowState
stopped s = record s {
  status = WorkflowStatus.blocked;
  current_agent_id = none;
  error = some (
      append "Demo Safe Mode stopped automatic Producer Revision; "
        "an explicit operator revision command is required");
  completed_at = none;
}

module _ (m : Manager) where
  -- The result of the revision that the review ends, if one is executing.
  unfoldable pub finalize_if_executing : PmpMessage → Bool → String → Step (Unit {0})
  unfolding finalize_active_revision
  finalize_if_executing response completed reason w =
      if is_executing w.state.revision_control.phase
      then on_ledger (finalize_active_revision m response completed reason) w
      else (ok tt, w)

  -- What follows the handoff to the researcher.
  unfoldable pub after_handoff : Outcome (Unit {0}) → Step (Option Round)
  unfolding fail
  after_handoff (raise e) = do
    fail m (append "Researcher Inboxへの送信に失敗しました: " (error_text e))
    pure none
  after_handoff (ok u) = do
    n ← draw
    modify (λ s. record s {
      researcher_sent = true;
      status = WorkflowStatus.completed;
      current_agent_id = none;
      completed_at = some (m.now n);
    })
    save
    pure none

  -- The branch of an approval.
  unfoldable pub approve : PmpMessage → QualityReviewOutput → Step (Option Round)
  unfolding finalize_if_executing mark_complete send_to_researcher after_handoff
  approve response review = do
    finalize_if_executing response true review.reason
    modify (λ s. set_status WorkflowStatus.approved (mark_complete s quality_reviewer))
    save
    sent ← attempt (send_to_researcher m)
    after_handoff sent

  -- Demo Safe Mode leaves a planned revision to an operator.
  unfoldable pub stop_for_operator : Step (Option Round)
  unfolding assign_phase
  stop_for_operator = do
    on_ledger (assign_phase RevisionControlPhase.authorization_required)
    modify stopped
    save
    pure none

  -- The branch of a revision.
  unfoldable pub revise : PmpMessage → QualityReviewOutput → Step (Option Round)
  unfolding finalize_if_executing plan_internal_revision stop_for_operator
      create_revision_authorization execute_active_revision
  revise response review = do
    finalize_if_executing response false review.reason
    request ← on_ledger (plan_internal_revision m response review)
    save
    if m.demo_safe_mode then stop_for_operator else (do
      authorization ← on_ledger (
          create_revision_authorization m request manager_id ActorSource.system
            "Safe Mode is disabled; runtime policy permits one automatic revision")
      save
      execute_active_revision m authorization)

  -- The branch of a review that blocks.
  unfoldable pub reject : PmpMessage → QualityReviewOutput → Step (Option Round)
  unfolding finalize_if_executing fail
  reject response review = do
    finalize_if_executing response false review.reason
    fail m (append "Quality Reviewer blocked workflow: " review.reason)
    pure none

  -- `_handle_review`: it returned, or a revision begins with a run of its own.
  unfoldable pub handle_review : PmpMessage → Step (Option Round)
  unfolding parse_review approve revise reject
  handle_review response = do
    review ← lift (parse_review (payload_fields response.payload))
    modify (with_review review)
    if is_approval review.status
        then approve response review
        else if is_revision review.status
        then revise response review
        else reject response review

  abbrev pub after_loop : Reached → Step (Option Round)
  after_loop returned = pure none
  after_loop (review_of response) = handle_review response

  -- One call of `_run_from` without the calls that a revision makes of it again.
  unfoldable pub run_round : Round → Step (Option Round)
  unfolding run_agents handle_review
  run_round round = do
    modify (set_status WorkflowStatus.running)
    save
    reached ← run_agents m round.overrides (drop round.start agent_order) round.start
    after_loop reached

  -- `_run_from`, with as many revisions as there is fuel; a round is left where it runs out.
  unfoldable pub run_from : ℕ → Round → Step (Option Round)
  unfolding run_round
  run_from zero round = pure (some round)
  run_from (suc fuel) round = do
    next ← run_round round
    elim next [ none ↦ pure none | some again ↦ run_from fuel again ]

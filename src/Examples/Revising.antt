-- ===== src/Examples/Revising.antt =====
-- Runs of the producer by evaluation: an approval, a rejection, and a revision.
use prdcp.Shared.{◌≡◌, refl, false, [], ◌∷◌, if◌then◌else◌, ok, disjoint, decimal}
use prdcp.Pmp.{PmpMessage, Payload}
use prdcp.Revision.Create.{create_request, create_result, deterministic_revision_request_id}
use prdcp.Revision.Control.{validate_control, validate_event}
use prdcp.Correlation.Current.{validate_current_base_artifacts}
use prdcp.Budget.{for_request, budget_directory}
use prdcp.Exchange.Messages.{
  load_internal_request, create_internal_request_once, create_internal_result_once,
  create_result_once,
}
use prdcp.Exchange.Authorizations.{load_authorization, create_audit_event_once}
use prdcp.Producer.Model.{WorkflowStatus, agent_order, take, research_planner}
use prdcp.Producer.Setting.{Manager}
use prdcp.Producer.{
  run_from, finalize_if_executing, after_handoff, approve, stop_for_operator, revise, reject,
  handle_review, run_round,
}
use prdcp.Producer.Agents.{fail, request_agent, await_response, accept, judge, run_agents}
use prdcp.Producer.Checkpoint.{apply_result, mark_complete, invalidate_from}
use prdcp.Producer.Accounting.{current_hashes, assign_phase, budget_for}
use prdcp.Producer.Execution.{
  block_revision, claim_revision, restart, begin_revision, on_budget, execute_active_revision,
}
use prdcp.Producer.Messages.{
  create, create_task_message, validate_response, validate_handoff_payload, deliver,
  send_to_researcher,
}
use prdcp.Producer.Handoff.{IsDelivered, send_to_researcher-IsDelivered}
use prdcp.Producer.Payload.{build_payload, fields_of}
use prdcp.Producer.Review.{is_research_plan, decision_guards, parse_review}
use prdcp.Producer.Ledgers.{PmpMessage-discrete, append_message_once}
use prdcp.Producer.Revision.{
  provider_task, identities_from, revision_execution_identities, active_revision_request_message,
  record_revision_audit, revision_message,
}
use prdcp.Producer.Revision.Plan.{
  write_plan, plan_internal_revision, authorize_with, create_revision_authorization,
}
use prdcp.Producer.Revision.Result.{finalize_active_revision}
use prdcp.Examples.Samples.{the_model}
use prdcp.Examples.Producing.{manager, reviewing, start, whole, reply, text, is_last}

-- A test that unfolds this computes with all of the producer.
unfoldable pub the_producer : Unit {0}
unfolding the_model decimal finalize_if_executing after_handoff approve stop_for_operator revise
    reject handle_review run_round run_from fail request_agent await_response accept judge
    run_agents apply_result mark_complete invalidate_from current_hashes assign_phase budget_for
    block_revision claim_revision restart begin_revision on_budget execute_active_revision create
    create_task_message validate_response validate_handoff_payload deliver send_to_researcher
    build_payload is_research_plan decision_guards parse_review PmpMessage-discrete
    append_message_once provider_task identities_from revision_execution_identities
    active_revision_request_message record_revision_audit revision_message write_plan
    plan_internal_revision authorize_with create_revision_authorization finalize_active_revision
    create_request create_result deterministic_revision_request_id validate_control validate_event
    validate_current_base_artifacts for_request budget_directory load_internal_request
    create_internal_request_once create_internal_result_once create_result_once load_authorization
    create_audit_event_once disjoint
the_producer = tt

approves : (run_from (manager "approved") 1 whole start).1.state.status ≡ WorkflowStatus.completed
unfolding the_producer
approves = refl

rejects : (run_from (manager "blocked") 1 whole start).1.state.status ≡ WorkflowStatus.failed
unfolding the_producer
rejects = refl

abbrev asking : PmpMessage → PmpMessage
asking r = record r {
  payload = Payload.other (
      fields_of (
        ("status", text "revision_required")
        ∷ ("reason", text "too broad")
        ∷ ("revision_target", text research_planner)
        ∷ ("required_action", text "narrow the scope")
        ∷ []));
}

-- The reviewer asks for a revision each time, and revisions run by themselves.
abbrev automatic : Manager
automatic = record (manager "approved") {
  demo_safe_mode = false;
  execute = λ n agent q.
      ok (if is_last agent then asking (reply "approved" agent q) else reply "approved" agent q);
}

-- The first revision runs; the second finds the budget of one exhausted.
blocks : (run_from automatic 3 whole start).1.state.status ≡ WorkflowStatus.blocked
unfolding the_producer
blocks = refl

counts : (run_from automatic 3 whole start).1.state.revision_count ≡ 1
unfolding the_producer
counts = refl

keeps : (run_from automatic 3 whole start).1.state.completed_agents ≡ take 4 agent_order
unfolding the_producer
keeps = refl

sends : (send_to_researcher (manager "approved") reviewing).0 ≡ ok tt
unfolding the_producer
sends = refl

send_to_researcher-IsDelivered_example :
    IsDelivered (send_to_researcher (manager "approved") reviewing).1
send_to_researcher-IsDelivered_example =
    send_to_researcher-IsDelivered (manager "approved") reviewing tt sends

-- ===== src/Producer/Execution.antt =====
-- `_execute_active_revision` of `ProducerManager` (producer/manager.py), up to the run of the agents
-- that it goes on with.
use prdcp.Shared.{
  String, Option, none, some, [], ◌++◌, text_eq, Outcome, ok, raise, value_error, append,
  revision_budget_exhausted, path_eq, decimal,
}
use prdcp.Revision.Layers.{route_value, RevisionControlPhase, DateTime}
use prdcp.Revision.Request.{RevisionRequest}
use prdcp.Revision.Control.{
  RevisionBudgetConsumption, RevisionExecutionAuthorization, RevisionAuditEvent,
  RevisionAuditEventType, validate_event,
}
use prdcp.Correlation.{request_payload}
use prdcp.Correlation.Current.{validate_current_base_artifacts}
use prdcp.Exchange.Exec.{pure, throw, lift, ◌>>=◌, ◌>>◌}
use prdcp.Exchange.Authorizations.{consume_authorization}
use prdcp.Producer.Model.{ProducerWorkflowState, agent_order, index, manager_id}
use prdcp.Producer.Checkpoint.{invalidate_from}
use prdcp.Producer.Setting.{Manager, Step, current, put, modify, save, draw, attempt}
use prdcp.Producer.Ledgers.{Entry, on_ledger, draw_entry, exchanged}
use prdcp.Producer.Revision.{
  first, Identities, task_ids, active_revision_request_message, record_revision_audit, audit_event,
  revision_execution_identities,
}
use prdcp.Producer.Accounting.{
  Round, current_hashes, with_owned, assign_phase, budget_for, set_error, new_record, add_record,
  count_revision, revising_state, round_from,
}

module _ (m : Manager) where
  abbrev pub budget_blocked :
      RevisionRequest → String → DateTime → ProducerWorkflowState → Entry (Unit {0})
  budget_blocked r message now s = record_revision_audit m (
      audit_event m s r "budget_blocked" RevisionAuditEventType.blocked manager_id none [] []
        message now)

  -- Where the budget is exhausted.
  unfoldable pub block_revision : RevisionRequest → String → Step (Option Round)
  unfolding assign_phase record_revision_audit
  block_revision r message = do
    on_ledger (assign_phase RevisionControlPhase.blocked)
    modify (set_error message)
    n ← draw
    on_ledger (budget_blocked r message (m.now n))
    save
    pure none

  abbrev consumption_event :
      ProducerWorkflowState → RevisionRequest → RevisionBudgetConsumption → RevisionAuditEvent
  consumption_event s r budget =
      audit_event m s r "budget_consumed" RevisionAuditEventType.budget_consumed manager_id none []
        []
        (append (append (append "Producer " (route_value r.route)) " revision slot ")
          (decimal budget.iteration))
        budget.consumed_at

  abbrev begin_event :
      ProducerWorkflowState
      → RevisionRequest
      → String
      → RevisionBudgetConsumption
      → RevisionAuditEvent
  begin_event s r message budget =
      audit_event m s r "request_consumed" RevisionAuditEventType.request_consumed manager_id
        (some message) [] []
        (append (append "Producer Manager began the saved " (route_value r.route)) " revision plan")
        budget.consumed_at

  abbrev consumed_time : RevisionExecutionAuthorization → Outcome DateTime
  consumed_time a = elim a.consumed_at [ none ↦ raise (value_error "created_at") | some t ↦ ok t ]

  abbrev authorization_event :
      ProducerWorkflowState
      → RevisionRequest
      → Identities
      → RevisionExecutionAuthorization
      → DateTime
      → RevisionAuditEvent
  authorization_event s r ids a time =
      audit_event m s r "authorization_consumed" RevisionAuditEventType.authorization_consumed
        a.actor_id none [] (task_ids ids.provider_tasks ++ ids.retrieval_ids) a.reason time

  -- The authorization is consumed with the tasks of the revision, and all is recorded.
  unfoldable pub claim_revision :
      RevisionRequest
      → String
      → RevisionExecutionAuthorization
      → RevisionBudgetConsumption
      → ProducerWorkflowState
      → Entry Identities
  unfolding revision_execution_identities consume_authorization record_revision_audit decimal
      validate_event
  claim_revision r message a budget s = do
    ids ← lift (revision_execution_identities m s r)
    n ← draw_entry
    used ←
        exchanged
          (consume_authorization m.x a (task_ids ids.provider_tasks) ids.retrieval_ids (m.now n))
    time ← lift (consumed_time used)
    lift (validate_event (authorization_event s r ids a time))
    lift (validate_event (consumption_event s r budget))
    lift (validate_event (begin_event s r message budget))
    record_revision_audit m (authorization_event s r ids a time)
    record_revision_audit m (consumption_event s r budget)
    record_revision_audit m (begin_event s r message budget)
    pure ids

  -- The work from the target on is thrown away and begins again.
  unfoldable pub restart : String → Identities → Step (Option Round)
  unfolding invalidate_from
  restart target ids = do
    modify revising_state
    s ← current
    after ← lift (invalidate_from s target)
    put after
    save
    i ← lift (index agent_order target)
    pure (some (round_from ids i))

  -- The state of a revision that begins, and the run that it goes on with.
  unfoldable pub begin_revision :
      RevisionRequest → RevisionBudgetConsumption → Identities → Step (Option Round)
  unfolding assign_phase restart
  begin_revision r budget ids = do
    s ← current
    n ← draw
    target ← lift (first r.target_agent_ids)
    action ← lift (first r.required_actions)
    recorded ← lift (add_record r (new_record s r budget.iteration target action ids (m.now n)) s)
    put (count_revision r budget.iteration recorded)
    on_ledger (assign_phase RevisionControlPhase.executing)
    restart target ids

  -- `except RevisionBudgetExhausted`, and the rest of the method.
  unfoldable pub on_budget :
      RevisionRequest
      → String
      → RevisionExecutionAuthorization
      → Outcome RevisionBudgetConsumption
      → Step (Option Round)
  unfolding block_revision claim_revision begin_revision
  on_budget r message a (raise (revision_budget_exhausted t)) = block_revision r t
  on_budget r message a (ok budget) = do
    ids ← on_ledger (claim_revision r message a budget)
    begin_revision r budget ids
  on_budget r message a (raise e) = throw e

  -- `_execute_active_revision`
  unfoldable pub execute_active_revision : RevisionExecutionAuthorization → Step (Option Round)
  unfolding active_revision_request_message request_payload validate_current_base_artifacts
      current_hashes budget_for on_budget
  execute_active_revision a = do
    message ← on_ledger (active_revision_request_message m)
    r ← lift (request_payload m.x.is_uuid message.payload)
    s ← current
    lift (validate_current_base_artifacts (current_hashes m s) (with_owned r))
    n ← draw
    budget ← attempt (on_ledger (budget_for m r (m.now n)))
    on_budget r message.message_id a budget

-- ===== src/Producer/Accounting.antt =====
-- What `_execute_active_revision` of `ProducerManager` (producer/manager.py) reads and records of the
-- revision: the hashes of its artifacts, its slot of the budget, its place in the history.
use prdcp.Shared.{
  ℕ, String, Bool, Option, none, some, List, [], ◌∷◌, ◌++◌, ◌==◌, text_eq, ltb, any, if◌then◌else◌,
  Outcome, ok, raise, value_error, starts_with, revision_budget_exhausted, path_eq, read,
}
use prdcp.Revision.Layers.{LayerId, producer, researcher, RevisionControlPhase, DateTime}
use prdcp.Revision.Request.{RevisionRequest, RevisionArtifactRef, is_internal, is_some_of}
use prdcp.Revision.Control.{RevisionBudgetConsumption, validate_control}
use prdcp.Budget.{Claim, consume, for_request, budget_directory, slots_of}
use prdcp.Exchange.Exec.{lift, ◌>>=◌}
use prdcp.Producer.Model.{
  WorkflowStatus, ProducerWorkflowState, QualityReviewOutput, RevisionRecord,
}
use prdcp.Producer.Setting.{Manager}
use prdcp.Producer.Agents.{Overrides}
use prdcp.Producer.Ledgers.{Entry, read_ledger, put_control}
use prdcp.Producer.Revision.{Identities, task_ids}
use prdcp.Producer.Revision.Result.{plan_artifacts}

-- A run of the agents: where it starts, and what it is called with.
pub record Round : Type 0 where
  pub start : ℕ
  pub overrides : Overrides

-- `_current_revision_artifact_hashes`
abbrev hash_in : List RevisionArtifactRef → String × String → Option String
hash_in [] key = none
hash_in (a ∷ rest) (kind, id) =
    let later = hash_in rest (kind, id) in
    if a.artifact_type == kind
    then (if a.artifact_id == id then some a.sha256 else later)
    else later

unfoldable pub current_hashes : Manager → ProducerWorkflowState → String × String → Option String
current_hashes m s = hash_in (plan_artifacts m s.research_plan)

abbrev owned : List RevisionArtifactRef → List RevisionArtifactRef
owned [] = []
owned (a ∷ rest) =
    let others = owned rest in
    if starts_with a.artifact_type "producer." then a ∷ others else others

-- The request with the base artifacts of the producer alone.
abbrev pub with_owned : RevisionRequest → RevisionRequest
with_owned r = record r { content = record r.content { base_artifacts = owned r.base_artifacts } }

abbrev set_phase : RevisionControlPhase → Entry (Unit {0})
set_phase phase = do
  l ← read_ledger
  control ← lift (validate_control (record l.control { phase = phase }))
  put_control control

-- revision_control.phase = phase, which validates the control state.
unfoldable pub assign_phase : RevisionControlPhase → ProducerWorkflowState → Entry (Unit {0})
unfolding validate_control
assign_phase phase s = set_phase phase

abbrev slot_or_raise : Option RevisionBudgetConsumption → Outcome RevisionBudgetConsumption
slot_or_raise none =
    raise
      (revision_budget_exhausted "Researcher upstream Revision Request has no consumed budget slot")
slot_or_raise (some c) = ok c

abbrev claim_for : ProducerWorkflowState → RevisionRequest → LayerId → DateTime → Claim
claim_for s r layer now = record {
  workflow_id = s.workflow_id;
  layer = layer;
  route = r.route;
  request = r.revision_request_id;
  now = now;
}

-- The slot of the request: consumed here for an internal one, and there already for one that the
-- researcher made.
unfoldable pub budget_for :
    Manager → RevisionRequest → DateTime → ProducerWorkflowState → Entry RevisionBudgetConsumption
unfolding consume for_request budget_directory read
budget_for m r now s l =
    if is_internal r.route
    then (let (result, budget) =
          consume m.x.sha256 (record { internal_limit = m.max_revisions; upstream_limit = 0 })
            (claim_for s r producer now) l.exchange.budget in
        (result, record l { exchange = record l.exchange { budget = budget } }))
    else (
      slot_or_raise (
          for_request r.revision_request_id (
            slots_of l.exchange.budget
              (budget_directory m.x.sha256 (claim_for s r researcher now)))),
      l,
    )

abbrev pub set_error : String → ProducerWorkflowState → ProducerWorkflowState
set_error message s = record s {
  status = WorkflowStatus.blocked;
  current_agent_id = none;
  error = some message;
}

abbrev reason_of : Option QualityReviewOutput → String
reason_of none = ""
reason_of (some r) = r.reason

abbrev pub has_record : String → List RevisionRecord → Bool
has_record id = any (λ r. is_some_of r.revision_request_id id)

abbrev pub new_record :
    ProducerWorkflowState
    → RevisionRequest
    → ℕ
    → String
    → String
    → Identities
    → DateTime
    → RevisionRecord
new_record s r iteration target action ids now = record {
  iteration = iteration;
  target_agent = target;
  reason = reason_of s.review_result;
  required_action = action;
  revision_request_id = some r.revision_request_id;
  source_finding_ids = r.source_finding_ids;
  provider_task_ids = task_ids ids.provider_tasks;
  retrieval_reservation_ids = ids.retrieval_ids;
  created_at = now;
}

-- The revision in the history, once, with the constructor's check of the record.
abbrev pub add_record :
    RevisionRequest → RevisionRecord → ProducerWorkflowState → Outcome ProducerWorkflowState
add_record r entry s =
    if has_record r.revision_request_id s.revision_history
    then ok s
    else if ltb entry.iteration 1
    then raise (value_error "iteration")
    else ok (record s { revision_history = s.revision_history ++ entry ∷ [] })

abbrev pub count_revision : RevisionRequest → ℕ → ProducerWorkflowState → ProducerWorkflowState
count_revision r iteration s =
    if is_internal r.route
    then record s {
      revision_count = if ltb s.revision_count iteration then iteration else s.revision_count;
    }
    else s

abbrev pub revising_state : ProducerWorkflowState → ProducerWorkflowState
revising_state s = record s { status = WorkflowStatus.revising; error = none; completed_at = none }

-- The run with the tasks of a revision, from the agent with index i on.
abbrev pub round_from : Identities → ℕ → Round
round_from ids i = record {
  start = i;
  overrides = record {
    provider_tasks = ids.provider_tasks;
    retrieval_tasks = ids.retrieval_tasks;
    stop_after = none;
  };
}

-- ===== src/Producer/Agents.antt =====
-- The loop of `ProducerManager._run_from` (producer/manager.py) over the agents, up to the review
-- that ends it, and `_fail`. Progress messages to a callback are left out.
use prdcp.Shared.{
  ℕ, suc, String, Bool, false, Option, none, some, List, [], ◌∷◌, ◌==◌, text_eq, nat_eq,
  if◌then◌else◌,
}
use prdcp.Pmp.{PmpMessage}
use prdcp.Exchange.Exec.{pure, lift, ◌>>=◌, ◌>>◌}
use prdcp.Producer.Model.{WorkflowStatus, ProducerWorkflowState, quality_reviewer}
use prdcp.Producer.Checkpoint.{apply_result, mark_complete}
use prdcp.Producer.Setting.{Manager, Step, current, put, modify, save, draw, append_message}
use prdcp.Producer.Drafts.{is_review, payload_fields, override}
use prdcp.Producer.Messages.{create_task_message, validate_response}

-- What a run was called with: the tasks that replace an agent's own, and where to stop.
pub record Overrides : Type 0 where
  pub provider_tasks : List (String × String)
  pub retrieval_tasks : List (String × String)
  pub stop_after : Option ℕ

-- The loop over the agents returned, or it came to the review.
pub data Reached : Type 0 where
  returned : Reached
  review_of : PmpMessage → Reached

-- index == stop_after_index
abbrev pub stops_at : Option ℕ → ℕ → Bool
stops_at none i = false
stops_at (some n) i = i == n

abbrev working_status : String → WorkflowStatus
working_status agent =
    if agent == quality_reviewer then WorkflowStatus.reviewing else WorkflowStatus.waiting_agent

abbrev pub set_status : WorkflowStatus → ProducerWorkflowState → ProducerWorkflowState
set_status status s = record s { status = status }

abbrev pub at_agent : String → ProducerWorkflowState → ProducerWorkflowState
at_agent agent s = record s { current_agent_id = some agent; status = working_status agent }

abbrev pub at_checkpoint : ProducerWorkflowState → ProducerWorkflowState
at_checkpoint s = record s {
  current_agent_id = none;
  status = WorkflowStatus.running;
  error = none;
  completed_at = none;
}

module _ (m : Manager) where
  -- `_fail`
  unfoldable pub fail : String → Step (Unit {0})
  fail message = do
    n ← draw
    modify (λ s. record s {
      status = WorkflowStatus.failed;
      error = some message;
      current_agent_id = none;
      completed_at = some (m.now n);
    })
    save

  -- A message goes into the history, which is saved.
  abbrev pub keep_message : PmpMessage → Step PmpMessage
  keep_message message = do append_message message; save; pure message

  -- The task of an agent with index i.
  abbrev pub task_for : Overrides → String → ℕ → Step PmpMessage
  task_for o agent i =
      create_task_message m agent i (override o.provider_tasks agent)
        (override o.retrieval_tasks agent)

  -- The request of an agent, in the history.
  unfoldable pub request_agent : Overrides → String → ℕ → Step PmpMessage
  unfolding create_task_message
  request_agent o agent i = do
    modify (at_agent agent)
    save
    request ← task_for o agent i
    keep_message request

  -- Its response, in the history.
  unfoldable pub await_response : String → PmpMessage → Step PmpMessage
  await_response agent request = do
    n ← draw
    response ← lift (m.execute n agent request)
    keep_message response

  -- What a valid result of an agent does to the state.
  unfoldable pub accept : String → PmpMessage → Step (Unit {0})
  unfolding apply_result mark_complete
  accept agent response = do
    s ← current
    t ← lift (apply_result s agent (payload_fields response.payload))
    put (set_status WorkflowStatus.running (mark_complete t agent))
    save

  -- The rest of the loop's body behind an accepted result.
  abbrev pub after_result : Overrides → ℕ → Step Reached → Step Reached
  after_result o i rest =
      if stops_at o.stop_after i then modify at_checkpoint >> (save >> pure returned) else rest

  -- The loop's body behind the response.
  unfoldable pub judge :
      Overrides → String → ℕ → PmpMessage → PmpMessage → Step Reached → Step Reached
  unfolding fail accept validate_response
  judge o agent i request response rest = elim (validate_response m request response agent) [
    | some error ↦ fail error >> pure returned
    | none ↦
        if is_review response.message_type
        then pure (review_of response)
        else accept agent response >> after_result o i rest
  ]

  -- The loop, from the agent with index i on.
  unfoldable pub run_agents : Overrides → List String → ℕ → Step Reached
  unfolding fail request_agent await_response judge
  run_agents o [] i = fail "Quality Reviewerを通過せずに処理が終了しました" >> pure returned
  run_agents o (agent ∷ agents) i = do
    request ← request_agent o agent i
    response ← await_response agent request
    judge o agent i request response (run_agents o agents (suc i))

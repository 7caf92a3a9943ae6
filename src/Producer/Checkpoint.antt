-- ===== src/Producer/Checkpoint.antt =====
-- The checkpoints of `ProducerManager` (producer/manager.py): what an agent's result adds to the
-- state, where a recovery goes on, and what a revision throws away.
use prdcp.Shared.{
  ℕ, String, Bool, ◌&&◌, not, Option, none, some, List, [], ◌∷◌, ◌++◌, ◌==◌, text_eq, leb, length,
  is_empty, contains, if◌then◌else◌, Outcome, ok, raise, Guard, ◌raises◌, check, ◌>>=◌, ◌>>◌,
  value_error, Json, Fields, Items, value_at,
}
use prdcp.Revision.Request.{is_none}
use prdcp.Exchange.Store.{strings_eq}
use prdcp.Producer.Model.{
  ProducerWorkflowState, agent_order, topic_scout, topic_selector, general_opinion_analyst,
  research_planner, index, take, drop, from_keys,
}

-- Pydantic's check of a value that is assigned to a field of type `dict[str, Any] | None`.
abbrev pub as_object : Json → Outcome (Option Fields)
as_object (Json.object fs) = ok (some fs)
as_object Json.null = ok none
as_object _ = raise (value_error "ProducerWorkflowState")

-- The same for `list[dict[str, Any]]`.
abbrev objects : Items → Outcome (List Fields)
objects Items.nil = ok []
objects (Items.item (Json.object fs) xs) = do rest ← objects xs; ok (fs ∷ rest)
objects (Items.item _ xs) = raise (value_error "topic_candidates")

abbrev pub as_objects : Json → Outcome (List Fields)
as_objects (Json.array xs) = objects xs
as_objects _ = raise (value_error "topic_candidates")

-- `_apply_result`
unfoldable pub apply_result :
    ProducerWorkflowState → String → Fields → Outcome ProducerWorkflowState
apply_result s agent payload =
    if agent == topic_scout
    then (do
      v ← value_at payload "topic_candidates"
      xs ← as_objects v
      ok (record s { topic_candidates = xs }))
    else if agent == topic_selector
    then (do
      v ← value_at payload "selected_topic"
      o ← as_object v
      ok (record s { selected_topic = o }))
    else if agent == general_opinion_analyst
    then (do
      v ← value_at payload "general_opinion"
      o ← as_object v
      ok (record s { general_opinion = o }))
    else if agent == research_planner
    then (do
      v ← value_at payload "research_plan"
      o ← as_object v
      ok (record s { research_plan = o }))
    else ok s

-- `_mark_complete`
unfoldable pub mark_complete : ProducerWorkflowState → String → ProducerWorkflowState
unfolding contains
mark_complete s agent =
    if contains s.completed_agents agent
    then s
    else record s { completed_agents = s.completed_agents ++ agent ∷ [] }

abbrev pub filter : (String → Bool) → List String → List String
filter p [] = []
filter p (x ∷ xs) = let rest = filter p xs in if p x then x ∷ rest else rest

-- `_invalidate_from`
unfoldable pub invalidate_from : ProducerWorkflowState → String → Outcome ProducerWorkflowState
unfolding contains
invalidate_from s target = do
  i ← index agent_order target
  ok (record s {
    completed_agents = filter (λ a. not (contains (drop i agent_order) a)) s.completed_agents;
    topic_candidates = if leb i 0 then [] else s.topic_candidates;
    selected_topic = if leb i 1 then none else s.selected_topic;
    general_opinion = if leb i 2 then none else s.general_opinion;
    research_plan = if leb i 3 then none else s.research_plan;
    review_result = none;
  })

abbrev missing : ℕ → ℕ → Bool → Guard
missing completed count present =
    (leb count completed && not present)
    raises value_error "Producer checkpoint has no artifact of a completed agent"

-- The guards of `_recovery_start_index`, given the completed agents without repeats.
abbrev pub recovery_guards : ProducerWorkflowState → List String → List Guard
recovery_guards s completed =
    (not (completed == take (length completed) agent_order)
      raises value_error "Producer checkpoint is not a contiguous completed-agent prefix")
    ∷ (leb (length agent_order) (length completed)
        raises value_error "Producer has no incomplete checkpoint to recover")
    ∷ missing (length completed) 1 (not (is_empty s.topic_candidates))
    ∷ missing (length completed) 2 (not (is_none s.selected_topic))
    ∷ missing (length completed) 3 (not (is_none s.general_opinion))
    ∷ missing (length completed) 4 (not (is_none s.research_plan))
    ∷ []

-- `_recovery_start_index`
unfoldable pub recovery_start_index : ProducerWorkflowState → Outcome ℕ
unfolding check
recovery_start_index s =
    let completed = from_keys s.completed_agents in
    check (recovery_guards s completed) >> ok (length completed)

-- ===== src/Producer/Review.antt =====
-- `QualityReviewOutput` of producer/schemas/review.py and `ResearchPlan` of
-- producer/schemas/research_plan.py: reading a payload of a review.
use prdcp.Shared.{
  String, Bool, true, false, ◌&&◌, ◌||◌, not, Option, none, some, List, [], ◌∷◌, ◌==◌, text_eq, leb,
  length, all, is_empty, contains, if◌then◌else◌, Outcome, ok, raise, Guard, ◌raises◌, check, ◌>>=◌,
  ◌>>◌, value_error, Json, Fields, get, list_of,
}
use prdcp.Revision.Request.{is_none, truthy}
use prdcp.Producer.Model.{
  QualityGateDecision, QualityReviewOutput, topic_scout, topic_selector, general_opinion_analyst,
  research_planner,
}

-- `extra="forbid"`
abbrev keys_among : List String → Fields → Bool
keys_among allowed Fields.end = true
keys_among allowed (Fields.field k v fs) = contains allowed k && keys_among allowed fs

-- A text of length 1 at least.
abbrev is_text : Json → Bool
is_text (Json.string t) = not (t == "")
is_text _ = false

abbrev any_text : Json → Bool
any_text (Json.string t) = true
any_text _ = false

abbrev has_at : (Json → Bool) → Fields → String → Bool
has_at test fs key = elim (get fs key) [ none ↦ false | some v ↦ test v ]

-- A list of length 1 at least.
abbrev is_list : (Json → Bool) → Json → Bool
is_list test (Json.array xs) = not (is_empty (list_of xs)) && all test (list_of xs)
is_list test _ = false

abbrev at_most_three : Json → Bool
at_most_three (Json.array xs) = leb (length (list_of xs)) 3
at_most_three _ = false

abbrev research_targets : List String
research_targets =
    "EXPERT" ∷ "ACADEMIC" ∷ "GOVERNMENT" ∷ "NEWS" ∷ "PUBLIC_OPINION" ∷ "POLITICIAN" ∷ "INDUSTRY"
    ∷ []

abbrev is_target : Json → Bool
is_target (Json.string t) = contains research_targets t
is_target _ = false

-- `ResearchQuestion`
abbrev is_question : Json → Bool
is_question (Json.object fs) =
    keys_among ("research_question_id" ∷ "question" ∷ "research_targets" ∷ []) fs
    && has_at is_text fs "research_question_id"
    && has_at is_text fs "question"
    && has_at (is_list is_target) fs "research_targets"
is_question _ = false

abbrev plan_keys : List String
plan_keys =
    "research_plan_id" ∷ "topic_id" ∷ "topic" ∷ "general_opinion_id" ∷ "general_opinion"
    ∷ "research_questions" ∷ "scope" ∷ "constraints" ∷ []

-- `ResearchPlan`
unfoldable pub is_research_plan : Fields → Bool
unfolding contains
is_research_plan fs =
    keys_among plan_keys fs
    && has_at is_text fs "research_plan_id"
    && has_at is_text fs "topic_id"
    && has_at is_text fs "topic"
    && has_at is_text fs "general_opinion_id"
    && has_at is_text fs "general_opinion"
    && has_at (is_list is_question) fs "research_questions"
    && has_at at_most_three fs "research_questions"
    && has_at (is_list any_text) fs "scope"
    && has_at (is_list any_text) fs "constraints"

abbrev decision : Option Json → Outcome QualityGateDecision
decision (some (Json.string t)) =
    if t == "approved"
    then ok QualityGateDecision.approved
    else if t == "approved_with_conditions"
    then ok QualityGateDecision.approved_with_conditions
    else if t == "revision_required"
    then ok QualityGateDecision.revision_required
    else if t == "blocked"
    then ok QualityGateDecision.blocked
    else raise (value_error "status")
decision _ = raise (value_error "status")

abbrev optional_text : Option Json → Outcome (Option String)
optional_text none = ok none
optional_text (some Json.null) = ok none
optional_text (some (Json.string t)) = ok (some t)
optional_text (some _) = raise (value_error "QualityReviewOutput")

abbrev reason_text : Option Json → Outcome String
reason_text (some (Json.string t)) = if t == "" then raise (value_error "reason") else ok t
reason_text _ = raise (value_error "reason")

abbrev optional_plan : Option Json → Outcome (Option Fields)
optional_plan none = ok none
optional_plan (some Json.null) = ok none
optional_plan (some (Json.object fs)) =
    if is_research_plan fs then ok (some fs) else raise (value_error "approved_research_plan")
optional_plan (some _) = raise (value_error "approved_research_plan")

abbrev revision_targets : List String
revision_targets = topic_scout ∷ topic_selector ∷ general_opinion_analyst ∷ research_planner ∷ []

abbrev pub is_approval : QualityGateDecision → Bool
is_approval QualityGateDecision.approved = true
is_approval QualityGateDecision.approved_with_conditions = true
is_approval _ = false

abbrev pub is_revision : QualityGateDecision → Bool
is_revision QualityGateDecision.revision_required = true
is_revision _ = false

abbrev is_valid_target : Option String → Bool
is_valid_target none = false
is_valid_target (some t) = contains revision_targets t

-- `validate_decision_fields`
unfoldable pub decision_guards : QualityReviewOutput → List Guard
unfolding contains
decision_guards r =
    ((is_approval r.status && (not (is_none r.revision_target) || not (is_none r.required_action)))
      raises value_error "approved reviews cannot include revision routing")
    ∷ ((is_approval r.status && is_none r.approved_research_plan)
        raises value_error "approved reviews must include approved_research_plan")
    ∷ ((is_revision r.status && not (is_valid_target r.revision_target))
        raises value_error "revision_required must identify a valid specialist agent")
    ∷ ((is_revision r.status && not (truthy r.required_action))
        raises value_error "revision_required must include required_action")
    ∷ []

abbrev review_keys : List String
review_keys =
    "status" ∷ "revision_target" ∷ "reason" ∷ "required_action" ∷ "approved_research_plan" ∷ []

-- `QualityReviewOutput.model_validate`
unfoldable pub parse_review : Fields → Outcome QualityReviewOutput
unfolding contains is_research_plan check decision_guards
parse_review fs = do
  check ((not (keys_among review_keys fs) raises value_error "QualityReviewOutput") ∷ [])
  status ← decision (get fs "status")
  target ← optional_text (get fs "revision_target")
  reason ← reason_text (get fs "reason")
  action ← optional_text (get fs "required_action")
  plan ← optional_plan (get fs "approved_research_plan")
  let r : QualityReviewOutput = record {
    status = status;
    revision_target = target;
    reason = reason;
    required_action = action;
    approved_research_plan = plan;
  }
  check (decision_guards r)
  ok r

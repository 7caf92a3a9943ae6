-- ===== src/Producer/Payload.antt =====
-- The payloads of the tasks of `ProducerManager` (producer/manager.py).
use prdcp.Shared.{
  String, Option, none, some, List, [], ◌∷◌, ◌==◌, text_eq, nat_eq, if◌then◌else◌, Outcome, ok,
  raise, ◌>>=◌, key_error, type_error, Json, Fields, Items, value_at, truth,
}
use prdcp.Revision.Layers.{DateTime}
use prdcp.Producer.Model.{
  ProducerWorkflowState, RevisionRecord, topic_scout, topic_selector, general_opinion_analyst,
  research_planner, quality_reviewer,
}

-- A JSON object from its entries, an array from its items.
abbrev pub fields_of : List (String × Json) → Fields
fields_of [] = Fields.end
fields_of ((k, v) ∷ es) = Fields.field k v (fields_of es)

abbrev pub texts : List String → Items
texts [] = Items.nil
texts (x ∷ xs) = Items.item (Json.string x) (texts xs)

abbrev objects : List Fields → Items
objects [] = Items.nil
objects (x ∷ xs) = Items.item (Json.object x) (objects xs)

abbrev or_null : Option Fields → Json
or_null none = Json.null
or_null (some fs) = Json.object fs

abbrev text_or_null : Option String → Json
text_or_null none = Json.null
text_or_null (some t) = Json.string t

-- `RevisionRecord.model_dump(mode="json")`
abbrev dump_record : (DateTime → String) → RevisionRecord → Json
dump_record time r = Json.object (
    fields_of (
      ("iteration", Json.number r.iteration)
      ∷ ("target_agent", Json.string r.target_agent)
      ∷ ("reason", Json.string r.reason)
      ∷ ("required_action", Json.string r.required_action)
      ∷ ("revision_request_id", text_or_null r.revision_request_id)
      ∷ ("source_finding_ids", Json.array (texts r.source_finding_ids))
      ∷ ("provider_task_ids", Json.array (texts r.provider_task_ids))
      ∷ ("retrieval_reservation_ids", Json.array (texts r.retrieval_reservation_ids))
      ∷ ("created_at", Json.string (time r.created_at))
      ∷ []))

-- state.revision_history[-1].model_dump(mode="json") if state.revision_history else None
abbrev revision_context : (DateTime → String) → List RevisionRecord → Json
revision_context time [] = Json.null
revision_context time (r ∷ []) = dump_record time r
revision_context time (r ∷ q ∷ rs) = revision_context time (q ∷ rs)

-- value[key]
abbrev value_in : Json → String → Outcome Json
value_in (Json.object fs) key = value_at fs key
value_in _ key = raise type_error

-- `_build_payload`
unfoldable pub build_payload : (DateTime → String) → ProducerWorkflowState → String → Outcome Fields
build_payload time s agent =
    let context = revision_context time s.revision_history in
    if agent == topic_scout
    then (do
      constraints ← value_at s.initial_request "search_constraints"
      topic ← value_at s.initial_request "topic"
      sources ← value_in constraints "sources"
      language ← value_in constraints "language"
      max_candidates ← value_in constraints "max_candidates"
      required_keywords ← value_in constraints "required_keywords"
      ok (
          fields_of (
            ("search_query", topic)
            ∷ ("search_sources", sources)
            ∷ (
              "search_constraints",
              Json.object (
                  fields_of (
                    ("language", language)
                    ∷ ("max_candidates", max_candidates)
                    ∷ ("required_keywords", required_keywords)
                    ∷ [])),
            )
            ∷ ("user_topic", if truth topic then topic else Json.null)
            ∷ ("revision_context", context)
            ∷ [])))
    else if agent == topic_selector
    then ok (
        fields_of (
          ("topic_candidates", Json.array (objects s.topic_candidates))
          ∷ ("revision_context", context)
          ∷ []))
    else if agent == general_opinion_analyst
    then ok (
        fields_of
          (("selected_topic", or_null s.selected_topic) ∷ ("revision_context", context) ∷ []))
    else if agent == research_planner
    then ok (
        fields_of (
          ("selected_topic", or_null s.selected_topic)
          ∷ ("general_opinion", or_null s.general_opinion)
          ∷ ("revision_context", context)
          ∷ []))
    else if agent == quality_reviewer
    then ok (
        fields_of (("research_plan", or_null s.research_plan) ∷ ("revision_context", context) ∷ []))
    else raise (key_error agent)

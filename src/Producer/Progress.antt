-- ===== src/Producer/Progress.antt =====
-- What one accepted result adds to the checkpoint of `ProducerManager` (producer/manager.py).
use prdcp.Shared.{
  ℕ, suc, ◌≤◌, String, ◌≡◌, ◌≢◌, refl, ◌∙◌, ap, Bool, true, false, not, Option, none, some, List,
  [], ◌∷◌, arith, ◌==◌, text_eq, if◌then◌else◌, ok, ◌>>=◌, contains, ◌++◌, >>=-eq-ok, Option-cases,
  inl, inr, Json, Fields, Items, get, value_at, truth, truth_at,
}
use prdcp.Producer.Model.{
  ProducerWorkflowState, agent_order, topic_scout, topic_selector, general_opinion_analyst,
  research_planner, quality_reviewer, take,
}
use prdcp.Producer.Checkpoint.{apply_result, mark_complete, as_object, as_objects}
use prdcp.Producer.Recovery.{HasArtifacts}

-- The first n agents are completed, in their order, and have left their artifacts.
pub record IsCheckpoint (n : ℕ) (s : ProducerWorkflowState) : Type 0 where
  pub bound : n ≤ 5
  pub completed : s.completed_agents ≡ take n agent_order
  pub artifacts : HasArtifacts n s

-- The agents by their places.
pub data IsAgent : ℕ → String → Type 0 where
  scout : IsAgent 0 topic_scout
  selector : IsAgent 1 topic_selector
  analyst : IsAgent 2 general_opinion_analyst
  planner : IsAgent 3 research_planner
  reviewer : IsAgent 4 quality_reviewer

abbrev is_null : Json → Bool
is_null Json.null = true
is_null _ = false

-- The key is there, with a value that is not null.
abbrev pub set_at : Fields → String → Bool
set_at fs key = elim (get fs key) [ none ↦ false | some v ↦ not (is_null v) ]

-- The payload has the artifact of the agent: candidates, or an object.
abbrev pub brings : String → Fields → Bool
brings agent fs =
    if agent == topic_scout
    then truth_at fs "topic_candidates"
    else if agent == topic_selector
    then set_at fs "selected_topic"
    else if agent == general_opinion_analyst
    then set_at fs "general_opinion"
    else if agent == research_planner
    then set_at fs "research_plan"
    else true

-- A test of the value at a key, once the value was found.
test-value_at :
    (f : Json → Bool) (fs : Fields) (key : String) (v : Json)
    → value_at fs key ≡ ok v
    → elim (get fs key) [ none ↦ false | some u ↦ f u ] ≡ true
    → f v ≡ true
test-value_at f fs key v h t = elim (Option-cases (get fs key)) [
  | inl e ↦ let h' = rw e at h in cc
  | inr (u, e) ↦
      let h' : ok u ≡ ok v = rw e at h in
      let t' : f u ≡ true = rw e at t in let same : u ≡ v = cc in rw (← same) t'
]

objects-item : (x : Json) (xs : Items) → ¬ (as_objects (Json.array (Items.item x xs)) ≡ ok [])
objects-item (Json.object fs) xs h =
    let (rest, e, last) = >>=-eq-ok (as_objects (Json.array xs)) _ h in cc
objects-item Json.null xs h = cc
objects-item (Json.boolean b) xs h = cc
objects-item (Json.number n) xs h = cc
objects-item (Json.literal t) xs h = cc
objects-item (Json.string t) xs h = cc
objects-item (Json.array ys) xs h = cc

as_objects-nonempty : (v : Json) → truth v ≡ true → ¬ (as_objects v ≡ ok [])
as_objects-nonempty (Json.array Items.nil) t h = cc
as_objects-nonempty (Json.array (Items.item x xs)) t h = objects-item x xs h
as_objects-nonempty (Json.object fs) t h = cc
as_objects-nonempty Json.null t h = cc
as_objects-nonempty (Json.boolean b) t h = cc
as_objects-nonempty (Json.number n) t h = cc
as_objects-nonempty (Json.literal x) t h = cc
as_objects-nonempty (Json.string x) t h = cc

as_object-set : (v : Json) → is_null v ≡ false → ¬ (as_object v ≡ ok none)
as_object-set Json.null n h = cc
as_object-set (Json.boolean b) n h = cc
as_object-set (Json.number k) n h = cc
as_object-set (Json.literal t) n h = cc
as_object-set (Json.string t) n h = cc
as_object-set (Json.array xs) n h = cc
as_object-set (Json.object fs) n h = cc

-- What an agent's result writes is there afterwards.
candidates-apply :
    (payload : Fields) (xs : List Fields)
    → (value_at payload "topic_candidates" >>= as_objects) ≡ ok xs
    → truth_at payload "topic_candidates" ≡ true
    → xs ≢ []
candidates-apply payload xs h t e =
    let (v, found, done) = >>=-eq-ok (value_at payload "topic_candidates") as_objects h in
    as_objects-nonempty v (test-value_at truth payload "topic_candidates" v found t)
      (done ∙ ap ok e)

object-apply :
    (payload : Fields) (key : String) (o : Option Fields)
    → (value_at payload key >>= as_object) ≡ ok o
    → set_at payload key ≡ true
    → o ≢ none
object-apply payload key o h t e =
    let (v, found, done) = >>=-eq-ok (value_at payload key) as_object h in
    let set = test-value_at (λ u. not (is_null u)) payload key v found t in
    as_object-set v (ground arith) (done ∙ ap ok e)

fresh : {i : ℕ} {a : String} → IsAgent i a → contains (take i agent_order) a ≡ false
unfolding contains
fresh scout = refl
fresh selector = refl
fresh analyst = refl
fresh planner = refl
fresh reviewer = refl

next-take :
    {i : ℕ} {a : String} → IsAgent i a → take i agent_order ++ a ∷ [] ≡ take (suc i) agent_order
next-take scout = refl
next-take selector = refl
next-take analyst = refl
next-take planner = refl
next-take reviewer = refl

place : {i : ℕ} {a : String} → IsAgent i a → suc i ≤ 5
place scout = omega arith
place selector = omega arith
place analyst = omega arith
place planner = omega arith
place reviewer = omega arith

-- Marking the next agent, once its artifact is there.
marked :
    {i : ℕ} {a : String} (p : IsAgent i a) (u : ProducerWorkflowState)
    → u.completed_agents ≡ take i agent_order
    → HasArtifacts (suc i) u
    → IsCheckpoint (suc i) (mark_complete u a)
unfolding mark_complete
marked {i} {a} p u c h =
    let new : contains u.completed_agents a ≡ false = ap (λ l. contains l a) c ∙ fresh p in
    rw new (record {
      bound = place p;
      completed = ap (λ l. l ++ a ∷ []) c ∙ next-take p;
      artifacts = record {
        candidates = h.candidates;
        topic = h.topic;
        opinion = h.opinion;
        plan = h.plan;
      };
    })

-- The result of the next agent, with its artifact, is the next checkpoint.
pub accept-IsCheckpoint :
    {i : ℕ} {a : String} (p : IsAgent i a) (s t : ProducerWorkflowState) (payload : Fields)
    → IsCheckpoint i s
    → brings a payload ≡ true
    → apply_result s a payload ≡ ok t
    → IsCheckpoint (suc i) (mark_complete t a)
unfolding apply_result
accept-IsCheckpoint scout s t payload c b h =
    let (v, found, h2) = >>=-eq-ok (value_at payload "topic_candidates") _ h in
    let (xs, read, h3) = >>=-eq-ok (as_objects v) _ h2 in
    let same : record s { topic_candidates = xs } ≡ t = cc in
    let full = candidates-apply payload xs (rw (found, read) refl) b in
    rw (← same) (
      marked scout (record s { topic_candidates = xs }) c.completed
        (record {
          candidates = λ le. full;
          topic = λ le. absurd (omega arith);
          opinion = λ le. absurd (omega arith);
          plan = λ le. absurd (omega arith);
        }))
accept-IsCheckpoint selector s t payload c b h =
    let (v, found, h2) = >>=-eq-ok (value_at payload "selected_topic") _ h in
    let (o, read, h3) = >>=-eq-ok (as_object v) _ h2 in
    let same : record s { selected_topic = o } ≡ t = cc in
    let set = object-apply payload "selected_topic" o (rw (found, read) refl) b in
    rw (← same) (
      marked selector (record s { selected_topic = o }) c.completed
        (record {
          candidates = λ le. c.artifacts.candidates (omega arith);
          topic = λ le. set;
          opinion = λ le. absurd (omega arith);
          plan = λ le. absurd (omega arith);
        }))
accept-IsCheckpoint analyst s t payload c b h =
    let (v, found, h2) = >>=-eq-ok (value_at payload "general_opinion") _ h in
    let (o, read, h3) = >>=-eq-ok (as_object v) _ h2 in
    let same : record s { general_opinion = o } ≡ t = cc in
    let set = object-apply payload "general_opinion" o (rw (found, read) refl) b in
    rw (← same) (
      marked analyst (record s { general_opinion = o }) c.completed
        (record {
          candidates = λ le. c.artifacts.candidates (omega arith);
          topic = λ le. c.artifacts.topic (omega arith);
          opinion = λ le. set;
          plan = λ le. absurd (omega arith);
        }))
accept-IsCheckpoint planner s t payload c b h =
    let (v, found, h2) = >>=-eq-ok (value_at payload "research_plan") _ h in
    let (o, read, h3) = >>=-eq-ok (as_object v) _ h2 in
    let same : record s { research_plan = o } ≡ t = cc in
    let set = object-apply payload "research_plan" o (rw (found, read) refl) b in
    rw (← same) (
      marked planner (record s { research_plan = o }) c.completed
        (record {
          candidates = λ le. c.artifacts.candidates (omega arith);
          topic = λ le. c.artifacts.topic (omega arith);
          opinion = λ le. c.artifacts.opinion (omega arith);
          plan = λ le. set;
        }))
accept-IsCheckpoint reviewer s t payload c b h =
    let same : s ≡ t = cc in
    rw (← same) (
      marked reviewer s c.completed (record {
        candidates = λ le. c.artifacts.candidates (omega arith);
        topic = λ le. c.artifacts.topic (omega arith);
        opinion = λ le. c.artifacts.opinion (omega arith);
        plan = λ le. c.artifacts.plan (omega arith);
      }))

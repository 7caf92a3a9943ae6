-- ===== src/Producer/Invalidation.antt =====
-- What a revision of `ProducerManager` (producer/manager.py) throws away, and where the work goes
-- on after it.
use prdcp.Shared.{
  ℕ, zero, suc, ◌≤◌, ◌<◌, String, ◌≡◌, refl, ◌∙◌, ap, Bool, true, false, not, ◌||◌, none, List, [],
  ◌∷◌, arith, ◌==◌, leb, ltb, contains, all, all_iff, All-Member, Member, inl, inr, if◌then◌else◌,
  ok, String_discrete, text_eq,
}
use prdcp.Exchange.Store.{strings_eq, strings-discrete}
use prdcp.Producer.Model.{ProducerWorkflowState, agent_order, index, take, drop, from_keys}
use prdcp.Producer.Checkpoint.{invalidate_from, filter, recovery_start_index}
use prdcp.Producer.Recovery.{HasArtifacts, recovery_start_index_iff}
use prdcp.Producer.Progress.{IsCheckpoint, IsAgent, scout, selector, analyst, planner, reviewer}

-- What is left of the first n agents when those from i on are dropped.
abbrev left_of : ℕ → ℕ → List String
left_of i n = filter (λ b. not (contains (drop i agent_order) b)) (take n agent_order)

abbrev counts : List ℕ
counts = 0 ∷ 1 ∷ 2 ∷ 3 ∷ 4 ∷ 5 ∷ []

counts-Member : (n : ℕ) → n ≤ 5 → Member n counts
counts-Member zero h = inl refl
counts-Member (suc zero) h = inr (inl refl)
counts-Member (suc (suc zero)) h = inr (inr (inl refl))
counts-Member (suc (suc (suc zero))) h = inr (inr (inr (inl refl)))
counts-Member (suc (suc (suc (suc zero)))) h = inr (inr (inr (inr (inl refl))))
counts-Member (suc (suc (suc (suc (suc zero))))) h = inr (inr (inr (inr (inr (inl refl)))))
counts-Member (suc (suc (suc (suc (suc (suc n)))))) h = omega arith

abbrev is_prefix : ℕ → ℕ → Bool
is_prefix i n = ltb n i || left_of i n == take i agent_order

-- For every number of completed agents, by evaluation.
prefixes : {i : ℕ} {a : String} → IsAgent i a → all (is_prefix i) counts ≡ true
unfolding contains strings-discrete String_discrete
prefixes scout = refl
prefixes selector = refl
prefixes analyst = refl
prefixes planner = refl
prefixes reviewer = refl

second : (n i : ℕ) (b : Bool) → i ≤ n → (ltb n i || b) ≡ true → b ≡ true
second n i b le h = ground arith

left_of-take :
    {i : ℕ} {a : String} → IsAgent i a → (n : ℕ) → i ≤ n → n ≤ 5 → left_of i n ≡ take i agent_order
left_of-take {i} p n le five =
    let table = (all_iff (is_prefix i) counts).0 (prefixes p) in
    let here = All-Member (λ k. is_prefix i k ≡ true) counts n table (counts-Member n five) in
    (strings_eq.same_iff (left_of i n) (take i agent_order)).0
      (second n i (left_of i n == take i agent_order) le here)

index-order : {i : ℕ} {a : String} → IsAgent i a → index agent_order a ≡ ok i
index-order scout = refl
index-order selector = refl
index-order analyst = refl
index-order planner = refl
index-order reviewer = refl

from_keys-order :
    {i : ℕ} {a : String} → IsAgent i a → from_keys (take i agent_order) ≡ take i agent_order
from_keys-order scout = refl
from_keys-order selector = refl
from_keys-order analyst = refl
from_keys-order planner = refl
from_keys-order reviewer = refl

pub place : {i : ℕ} {a : String} → IsAgent i a → i < 5
place scout = omega arith
place selector = omega arith
place analyst = omega arith
place planner = omega arith
place reviewer = omega arith

-- A checkpoint before an agent is where a recovery starts with the agent.
pub IsCheckpoint-recovery :
    {i : ℕ} {a : String}
    → IsAgent i a
    → (s : ProducerWorkflowState) → IsCheckpoint i s
    → recovery_start_index s ≡ ok i
IsCheckpoint-recovery {i} p s c =
    (recovery_start_index_iff s i).1
      (ap from_keys c.completed ∙ from_keys-order p, place p, c.artifacts)

-- What `_invalidate_from` leaves of a state.
abbrev invalidated : ℕ → ProducerWorkflowState → ProducerWorkflowState
invalidated i s = record s {
  completed_agents = filter (λ a. not (contains (drop i agent_order) a)) s.completed_agents;
  topic_candidates = if leb i 0 then [] else s.topic_candidates;
  selected_topic = if leb i 1 then none else s.selected_topic;
  general_opinion = if leb i 2 then none else s.general_opinion;
  research_plan = if leb i 3 then none else s.research_plan;
  review_result = none;
}

invalidate_from-eq :
    {i : ℕ} {a : String}
    → IsAgent i a
    → (s : ProducerWorkflowState) → invalidate_from s a ≡ ok (invalidated i s)
unfolding invalidate_from
invalidate_from-eq p s = rw (index-order p, invalidate_from) refl

past : (i k : ℕ) → suc k ≤ i → leb i k ≡ false
past i k h = ground arith

invalidated-HasArtifacts :
    (i n : ℕ) (s : ProducerWorkflowState)
    → i ≤ n
    → HasArtifacts n s
    → HasArtifacts i (invalidated i s)
invalidated-HasArtifacts i n s le h = record {
  candidates = λ k. rw (past i 0 k) (h.candidates (omega arith));
  topic = λ k. rw (past i 1 k) (h.topic (omega arith));
  opinion = λ k. rw (past i 2 k) (h.opinion (omega arith));
  plan = λ k. rw (past i 3 k) (h.plan (omega arith));
}

pub invalidate_from-IsCheckpoint :
    {i : ℕ} {a : String} (p : IsAgent i a) (n : ℕ) (s : ProducerWorkflowState)
    → IsCheckpoint n s
    → i ≤ n
    → (t : ProducerWorkflowState) × (invalidate_from s a ≡ ok t)
      × IsCheckpoint i t
      × (recovery_start_index t ≡ ok i)
      × (t.review_result ≡ none)
invalidate_from-IsCheckpoint {i} p n s c le =
    let t = invalidated i s in
    let there : IsCheckpoint i t = record {
      bound = omega (arith, place p);
      completed =
          ap (filter (λ b. not (contains (drop i agent_order) b))) c.completed
          ∙ left_of-take p n le c.bound;
      artifacts = invalidated-HasArtifacts i n s le c.artifacts;
    } in
    (t, invalidate_from-eq p s, there, IsCheckpoint-recovery p t there, refl)

-- ===== src/Producer/LoopEnd.antt =====
-- How the loop over the agents in `ProducerManager._run_from` (producer/manager.py) is left.
use mathlib.Core.Path.{subst}
use prdcp.Shared.{
  ℕ, zero, suc, String, ◌≡◌, ◌≢◌, refl, sym, ◌∙◌, ◌⊎◌, inl, inr, true, Option, none, some, List, [],
  ◌∷◌, All, Outcome, ok, raise, text_eq, check, Guard, Outcome-cases,
}
use prdcp.Pmp.{MessageType}
use prdcp.Exchange.Exec.{resume}
use prdcp.Producer.Model.{WorkflowStatus, ProducerWorkflowState, agent_order, take, drop}
use prdcp.Producer.Setting.{World, Step}
use prdcp.Producer.Drafts.{error_of, is_review, is_result}
use prdcp.Producer.Agents.{Overrides, Reached, returned, review_of, stops_at}
use prdcp.Producer.Progress.{IsAgent, scout, selector, analyst, planner, reviewer}
use prdcp.Producer.Steps.{HasCheckpoint, IsAt}

-- The latest version that was saved is the state.
abbrev pub IsStored : World → Type 0
IsStored w = (older : List ProducerWorkflowState) × (w.saved ≡ w.state ∷ older)

-- How the loop returns without a review: failed, or stopped after the agent that was named.
pub record IsEnded (o : Overrides) (w : World) : Type 0 where
  pub stored : IsStored w
  pub idle : w.state.current_agent_id ≡ none
  pub status :
      (w.state.status ≡ WorkflowStatus.failed)
      ⊎ ((w.state.status ≡ WorkflowStatus.running) × (o.stop_after ≢ none))

abbrev pub IsKept : World → Type 0
IsKept w = HasCheckpoint w.state × All HasCheckpoint w.saved

-- What holds when the loop is left with an exception, without a review, and with one.
abbrev pub IsLoopEnd : Overrides → Outcome Reached × World → Type 0
IsLoopEnd o (raise e, w) = IsKept w
IsLoopEnd o (ok returned, w) = IsKept w × IsEnded o w
IsLoopEnd o (ok (review_of r), w) = IsAt 4 w × (is_review r.message_type ≡ true)

pub kept : {n : ℕ} (w : World) → IsAt n w → IsKept w
kept {n} w p = ((n, p.now), p.saved)

drop-beyond : (i : ℕ) → drop (suc (suc (suc (suc (suc i))))) agent_order ≡ []
drop-beyond zero = refl
drop-beyond (suc i) = refl

pub next-IsAgent :
    (i : ℕ) (a : String) (xs : List String)
    → drop i agent_order ≡ a ∷ xs
    → IsAgent i a × (drop (suc i) agent_order ≡ xs)
next-IsAgent zero a xs h =
    let e : prdcp.Producer.Model.topic_scout ≡ a = cc in (subst (IsAgent 0) e scout, cc)
next-IsAgent (suc zero) a xs h =
    let e : prdcp.Producer.Model.topic_selector ≡ a = cc in (subst (IsAgent 1) e selector, cc)
next-IsAgent (suc (suc zero)) a xs h =
    let e : prdcp.Producer.Model.general_opinion_analyst ≡ a = cc in
    (subst (IsAgent 2) e analyst, cc)
next-IsAgent (suc (suc (suc zero))) a xs h =
    let e : prdcp.Producer.Model.research_planner ≡ a = cc in (subst (IsAgent 3) e planner, cc)
next-IsAgent (suc (suc (suc (suc zero)))) a xs h =
    let e : prdcp.Producer.Model.quality_reviewer ≡ a = cc in (subst (IsAgent 4) e reviewer, cc)
next-IsAgent (suc (suc (suc (suc (suc i))))) a xs h = let h2 = sym (drop-beyond i) ∙ h in cc

pub error_of-none : (gs : List Guard) → error_of (check gs) ≡ none → check gs ≡ ok tt
error_of-none gs h = elim (Outcome-cases (check gs)) [
  | inl y ↦ y
  | inr (e, n) ↦ let h' = rw n at h in cc
]

pub result-review : (t : MessageType) → is_result t ≡ true → ¬ (is_review t ≡ true)
result-review MessageType.result e h = cc
result-review _ e h = cc

pub stops-set : (o : Option ℕ) (i : ℕ) → stops_at o i ≡ true → o ≢ none
stops-set none i h e = cc
stops-set (some n) i h e = cc

pub resume-IsLoopEnd :
    {A : Type 0} (o : Overrides) (r : Outcome A) (f : A → Step Reached) (w : World)
    → IsKept w
    → ((a : A) → r ≡ ok a → IsLoopEnd o (f a w))
    → IsLoopEnd o (resume r f w)
resume-IsLoopEnd o (ok a) f w k h = h a refl
resume-IsLoopEnd o (raise e) f w k h = k

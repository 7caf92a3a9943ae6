-- ===== src/Producer/Recovery.antt =====
-- Where `ProducerManager.recover` (producer/manager.py) goes on.
use mathlib.Core.Path.{subst}
use prdcp.Shared.{
  ℕ, zero, suc, ◌≤◌, ◌<◌, String, ◌≡◌, ◌≢◌, refl, sym, ◌∙◌, ap, ◌↔◌, false, not, ◌&&◌, Option, none,
  some, List, [], ◌∷◌, arith, leb, is_empty, length, All, ok, check-ok_iff, Passes, Fields, ◌==◌,
}
use prdcp.Revision.Request.{is_none}
use prdcp.Exchange.Store.{strings_eq}
use prdcp.Producer.Model.{ProducerWorkflowState, agent_order, take, from_keys}
use prdcp.Producer.Checkpoint.{recovery_start_index, recovery_guards}

-- The first n agents have left their artifacts.
pub record HasArtifacts (n : ℕ) (s : ProducerWorkflowState) : Type 0 where
  pub candidates : 1 ≤ n → s.topic_candidates ≢ []
  pub topic : 2 ≤ n → s.selected_topic ≢ none
  pub opinion : 3 ≤ n → s.general_opinion ≢ none
  pub plan : 4 ≤ n → s.research_plan ≢ none

none-Passes :
    (c n : ℕ) (o : Option Fields)
    → ((leb c n && not (not (is_none o))) ≡ false) ↔ (c ≤ n → o ≢ none)
none-Passes c n none = ground arith
none-Passes c n (some fs) = (λ h le e. cc, λ h. ground arith)

candidates-Passes :
    (n : ℕ) (xs : List Fields) → ((leb 1 n && not (not (is_empty xs))) ≡ false) ↔ (1 ≤ n → xs ≢ [])
candidates-Passes n [] = ground arith
candidates-Passes n (x ∷ xs) = (λ h le e. cc, λ h. ground arith)

prefix-Passes : (xs ys : List String) → (not (xs == ys) ≡ false) ↔ (xs ≡ ys)
prefix-Passes xs ys = ground (arith, strings_eq.same_iff xs ys)

guards_iff :
    (s : ProducerWorkflowState) (completed : List String)
    → All Passes (recovery_guards s completed) ↔ (
        (completed ≡ take (length completed) agent_order)
        × (length completed < 5)
        × HasArtifacts (length completed) s)
guards_iff s completed =
    let n = length completed in
    let p = prefix-Passes completed (take n agent_order) in
    let c = candidates-Passes n s.topic_candidates in
    let t = none-Passes 2 n s.selected_topic in
    let o = none-Passes 3 n s.general_opinion in
    let r = none-Passes 4 n s.research_plan in
    (
      λ (a, (b, (d, (e, (f, (g, u)))))). (
        p.0 a,
        ground arith,
        record { candidates = c.0 d; topic = t.0 e; opinion = o.0 f; plan = r.0 g },
      ),
      λ (a, b, h). (
        p.1 a,
        (ground arith, (c.1 h.candidates, (t.1 h.topic, (o.1 h.opinion, (r.1 h.plan, tt))))),
      ),
    )

pub length-take_order : (n : ℕ) → n < 5 → length (take n agent_order) ≡ n
length-take_order zero h = refl
length-take_order (suc zero) h = refl
length-take_order (suc (suc zero)) h = refl
length-take_order (suc (suc (suc zero))) h = refl
length-take_order (suc (suc (suc (suc zero)))) h = refl
length-take_order (suc (suc (suc (suc (suc n))))) h = omega arith

-- What a recovery at index n needs.
abbrev pub IsReady : ProducerWorkflowState → ℕ → Type 0
IsReady s n = (from_keys s.completed_agents ≡ take n agent_order) × (n < 5) × HasArtifacts n s

pub recovery_start_index_iff :
    (s : ProducerWorkflowState) (n : ℕ)
    → (recovery_start_index s ≡ ok n)
      ↔ ((from_keys s.completed_agents ≡ take n agent_order) × (n < 5) × HasArtifacts n s)
unfolding recovery_start_index
recovery_start_index_iff s n =
    let c = from_keys s.completed_agents in
    let split = check-ok_iff (recovery_guards s c) (length c) n in
    let guards = guards_iff s c in
    (
      λ h. let (g, e) = split.0 h in subst (IsReady s) e (guards.0 g),
      λ (e, l, h).
          let len : length c ≡ n = ap length e ∙ length-take_order n l in
          split.1 (guards.1 (subst (IsReady s) (sym len) (e, l, h)), len),
    )

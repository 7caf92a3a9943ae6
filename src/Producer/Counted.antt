-- ===== src/Producer/Counted.antt =====
-- What `_execute_active_revision` (producer/manager.py) writes when it counts a revision and goes
-- back to its target.
use mathlib.Core.Path.{subst}
use prdcp.Shared.{
  ℕ, suc, ltb, ◌++◌, ◌⊎◌, ◌≤◌, String, ◌≡◌, refl, ap, Bool, true, false, Bool-cases, inl, inr, List,
  [], ◌∷◌, arith, ok, raise, Error, ◌==◌, text_eq, if◌then◌else◌, Outcome-either, eq_iff, >>=-eq-ok,
}
use prdcp.Revision.Request.{RevisionRequest, is_internal}
use prdcp.Producer.Model.{ProducerWorkflowState, RevisionRecord, agent_order, index, drop}
use prdcp.Producer.Checkpoint.{invalidate_from}
use prdcp.Producer.Progress.{IsCheckpoint, IsAgent}
use prdcp.Producer.Invalidation.{invalidate_from-IsCheckpoint, place}
use prdcp.Producer.Steps.{IsSame}
use prdcp.Producer.LoopEnd.{next-IsAgent}
use prdcp.Producer.Accounting.{has_record, add_record, count_revision}

-- The agent that has an index in the order.
index-drop :
    (xs : List String) (a : String) (i : ℕ)
    → index xs a ≡ ok i
    → (rest : List String) × (drop i xs ≡ a ∷ rest)
index-drop [] a i h = cc
index-drop (y ∷ ys) a i h = elim (Bool-cases (y == a)) [
  | inl e ↦
      let h' : ok 0 ≡ ok i = rw e at h in
      let z : 0 ≡ i = cc in
      let same : y ≡ a = (eq_iff y a).0 e in
      (ys, subst (λ k. drop k (y ∷ ys) ≡ a ∷ ys) z (ap (λ b. b ∷ ys) same))
  | inr n ↦ elim (Outcome-either (index ys a)) [
    | inl (k, found) ↦
        let h' : ok (suc k) ≡ ok i = rw (n, found) at h in
        let z : suc k ≡ i = cc in
        let (rest, d) = index-drop ys a k found in
        (rest, subst (λ j. drop j (y ∷ ys) ≡ a ∷ rest) z d)
    | inr (err, lost) ↦ let h' = rw (n, lost) at h in cc
  ]
]

index-IsAgent : (a : String) (i : ℕ) → index agent_order a ≡ ok i → IsAgent i a
index-IsAgent a i h = let (rest, d) = index-drop agent_order a i h in (next-IsAgent i a rest d).0

guarded-cases :
    {A : Type 0} (b c : Bool) (x y z : A) (e : Error)
    → (if b then ok x else if c then raise e else ok y) ≡ ok z
    → (x ≡ z) ⊎ (y ≡ z)
guarded-cases true c x y z e h = inl cc
guarded-cases false true x y z e h = cc
guarded-cases false false x y z e h = inr cc

pub add_record-IsSame :
    (r : RevisionRequest) (entry : RevisionRecord) (s t : ProducerWorkflowState)
    → add_record r entry s ≡ ok t
    → IsSame s t
add_record-IsSame r entry s t h =
    elim (guarded-cases (has_record r.revision_request_id s.revision_history)
      (ltb entry.iteration 1) s (record s { revision_history = s.revision_history ++ entry ∷ [] }) t
      _ h) [
        | inl e ↦ rw (← e) record {
          completed = refl;
          candidates = refl;
          topic = refl;
          opinion = refl;
          plan = refl;
        }
        | inr e ↦ rw (← e) record {
          completed = refl;
          candidates = refl;
          topic = refl;
          opinion = refl;
          plan = refl;
        }
      ]

pub count_revision-IsSame :
    (r : RevisionRequest) (k : ℕ) (s : ProducerWorkflowState) → IsSame s (count_revision r k s)
count_revision-IsSame r k s = elim (Bool-cases (is_internal r.route)) [
  | inl y ↦
      rw y record { completed = refl; candidates = refl; topic = refl; opinion = refl; plan = refl }
  | inr n ↦
      rw n record { completed = refl; candidates = refl; topic = refl; opinion = refl; plan = refl }
]

-- Invalidating from an agent that the checkpoint has passed.
pub invalidated-IsCheckpoint :
    (target : String) (n : ℕ) (s after : ProducerWorkflowState)
    → 4 ≤ n
    → IsCheckpoint n s
    → invalidate_from s target ≡ ok after
    → (i : ℕ) × (index agent_order target ≡ ok i) × IsCheckpoint i after
unfolding invalidate_from
invalidated-IsCheckpoint target n s after four c h =
    let (i, found, rest) = >>=-eq-ok (index agent_order target) _ h in
    let p = index-IsAgent target i found in
    let (t, done, there, start, review) =
      invalidate_from-IsCheckpoint p n s c (omega (arith, place p)) in
    let same : t ≡ after = cc in (i, found, subst (IsCheckpoint i) same there)

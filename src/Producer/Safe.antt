-- ===== src/Producer/Safe.antt =====
-- In Demo Safe Mode `ProducerManager._run_from` (producer/manager.py) never begins a revision by
-- itself, so that one round is the whole run.
use prdcp.Shared.{
  ℕ, suc, ◌≡◌, refl, true, false, Option, none, some, Bool-cases, inl, inr, ◌⊎◌, Outcome, ok, raise,
  Error,
}
use prdcp.Revision.Layers.{RevisionControlPhase}
use prdcp.Pmp.{PmpMessage}
use prdcp.Exchange.Exec.{pure, resume}
use prdcp.Producer.Model.{WorkflowStatus, QualityReviewOutput, agent_order, drop}
use prdcp.Producer.Setting.{Manager, World, Step, modify, save}
use prdcp.Producer.Drafts.{payload_fields}
use prdcp.Producer.Agents.{Reached, returned, review_of, set_status, fail, run_agents}
use prdcp.Producer.Review.{parse_review, is_approval, is_revision}
use prdcp.Producer.Steps.{IsAt}
use prdcp.Producer.Asking.{IsFruitful}
use prdcp.Producer.Ledgers.{on_ledger}
use prdcp.Producer.Revision.Plan.{plan_internal_revision}
use prdcp.Producer.Accounting.{Round, assign_phase}
use prdcp.Producer.Settled.{IsSettled, IsRoundEnd}
use prdcp.Producer.{
  with_review, finalize_if_executing, after_handoff, approve, stop_for_operator, revise, reject,
  handle_review, after_loop, run_round, run_from,
}
use prdcp.Producer.Ending.{run_from-IsRoundEnd}

module _ (m : Manager) where
  -- The outcome asks for no further round.
  abbrev IsOnce : Outcome (Option Round) × World → Type 0
  IsOnce (raise e, w) = Unit
  IsOnce (ok none, w) = Unit
  IsOnce (ok (some r), w) = ⊥

  resume-IsOnce :
      {A : Type 0} (r : Outcome A) (f : A → Step (Option Round)) (w : World)
      → ((a : A) (v : World) → IsOnce (f a v))
      → IsOnce (resume r f w)
  resume-IsOnce (ok a) f w h = h a w
  resume-IsOnce (raise e) f w h = tt

  after_handoff-IsOnce : (sent : Outcome (Unit {0})) (w : World) → IsOnce (after_handoff m sent w)
  unfolding after_handoff fail
  after_handoff-IsOnce (raise e) w = tt
  after_handoff-IsOnce (ok u) w = tt

  approve-IsOnce :
      (response : PmpMessage) (review : QualityReviewOutput) (w : World)
      → IsOnce (approve m response review w)
  unfolding approve
  approve-IsOnce response review w =
      resume-IsOnce (finalize_if_executing m response true review.reason w).0 _ _
        (λ u v. after_handoff-IsOnce _ _)

  reject-IsOnce :
      (response : PmpMessage) (review : QualityReviewOutput) (w : World)
      → IsOnce (reject m response review w)
  unfolding reject fail
  reject-IsOnce response review w =
      resume-IsOnce (finalize_if_executing m response false review.reason w).0 _ _ (λ u v. tt)

  revise-IsOnce :
      (response : PmpMessage) (review : QualityReviewOutput) (w : World)
      → m.demo_safe_mode ≡ true
      → IsOnce (revise m response review w)
  unfolding revise stop_for_operator
  revise-IsOnce response review w safe =
      resume-IsOnce (finalize_if_executing m response false review.reason w).0 _ _ (λ u v.
        resume-IsOnce (on_ledger (plan_internal_revision m response review) v).0 _ _ (λ r x.
          rw safe (
            resume-IsOnce
              (on_ledger (assign_phase RevisionControlPhase.authorization_required) (save x).1).0 _
              _ (λ u2 y. tt))))

  handle_review-IsOnce :
      (response : PmpMessage) (w : World)
      → m.demo_safe_mode ≡ true
      → IsOnce (handle_review m response w)
  unfolding handle_review
  handle_review-IsOnce response w safe =
      resume-IsOnce (parse_review (payload_fields response.payload)) _ w (λ review v.
        elim (Bool-cases (is_approval review.status)) [
          | inl y ↦ rw y (approve-IsOnce response review (modify (with_review review) v).1)
          | inr n ↦ elim (Bool-cases (is_revision review.status)) [
            | inl y2 ↦
                rw (n, y2) (revise-IsOnce response review (modify (with_review review) v).1 safe)
            | inr n2 ↦ rw (n, n2) (reject-IsOnce response review (modify (with_review review) v).1)
          ]
        ])

  run_round-IsOnce :
      (round : Round) (w : World) → m.demo_safe_mode ≡ true → IsOnce (run_round m round w)
  unfolding run_round
  run_round-IsOnce round w safe =
      let v = (save (modify (set_status WorkflowStatus.running) w).1).1 in
      resume-IsOnce (run_agents m round.overrides (drop round.start agent_order) round.start v).0 _
        _ (λ r x. loop_end r x)
    where
      loop_end : (r : Reached) (x : World) → IsOnce (after_loop m r x)
      loop_end returned x = tt
      loop_end (review_of r) x = handle_review-IsOnce r x safe

  -- The rounds after one.
  abbrev pub go_on : ℕ → Option Round → Step (Option Round)
  go_on fuel next = elim next [ none ↦ pure none | some again ↦ run_from m fuel again ]

  -- Either of the two ends.
  abbrev IsDone : Option ℕ → Outcome (Option Round) × World → Type 0
  IsDone stop x = ((e : Error) × (x.0 ≡ raise e)) ⊎ ((x.0 ≡ ok none) × IsSettled stop x.1)

  once-run :
      (fuel : ℕ) (stop : Option ℕ) (x : Outcome (Option Round) × World)
      → IsOnce x
      → IsRoundEnd stop (resume x.0 (go_on fuel) x.1)
      → IsDone stop (resume x.0 (go_on fuel) x.1)
  once-run fuel stop (raise e, w) once h = inl (e, refl)
  once-run fuel stop (ok none, w) once h = inr (refl, h.1)
  once-run fuel stop (ok (some r), w) once h = elim once [ ]

  -- In Demo Safe Mode, and where the agents' results have their artifacts, a run from a checkpoint
  -- either raises or returns in a settled state after one round: fuel for a single round is enough.
  pub run_from-finishes :
      (fuel : ℕ) (round : Round) (w : World)
      → m.demo_safe_mode ≡ true
      → IsFruitful m
      → IsAt round.start w
      → ((e : Error) × ((run_from m (suc fuel) round w).0 ≡ raise e))
        ⊎ (((run_from m (suc fuel) round w).0 ≡ ok none)
            × IsSettled round.overrides.stop_after (run_from m (suc fuel) round w).1)
  unfolding run_from
  run_from-finishes fuel round w safe fruitful p =
      once-run fuel round.overrides.stop_after (run_round m round w) (run_round-IsOnce round w safe)
        (run_from-IsRoundEnd m fuel round w fruitful p)

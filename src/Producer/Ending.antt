-- ===== src/Producer/Ending.antt =====
-- `ProducerManager._run_from` (producer/manager.py) as a whole: where it ends, and that it ends.
use prdcp.Shared.{
  ℕ, zero, suc, ◌≡◌, refl, sym, ◌∙◌, Option, none, some, inl, inr, Outcome, ok, raise,
}
use prdcp.Exchange.Exec.{pure, resume}
use prdcp.Producer.Model.{WorkflowStatus, agent_order, drop}
use prdcp.Producer.Setting.{Manager, World, modify, save}
use prdcp.Producer.Agents.{Overrides, Reached, returned, review_of, set_status, run_agents}
use prdcp.Producer.Steps.{IsAt, same-IsCheckpoint}
use prdcp.Producer.Asking.{IsFruitful}
use prdcp.Producer.LoopEnd.{IsEnded, IsLoopEnd}
use prdcp.Producer.Loop.{run_agents-IsLoopEnd}
use prdcp.Producer.Accounting.{Round}
use prdcp.Producer.Settled.{Settles, by_failure, by_completion, by_block, by_stop, IsRoundEnd}
use prdcp.Producer.Run.{handle_review-IsRoundEnd}
use prdcp.Producer.{after_loop, run_round, run_from}

ended-Settles : (o : Overrides) (w : World) → IsEnded o w → Settles o.stop_after w.state.status
ended-Settles o w e = elim e.status [ inl f ↦ rw f by_failure | inr (r, s) ↦ rw r (by_stop s) ]

-- A run that ended without a review is not completed.
ended-unfinished :
    (o : Overrides) (w : World) → IsEnded o w → ¬ (w.state.status ≡ WorkflowStatus.completed)
ended-unfinished o w e c = elim e.status [
  | inl f ↦ let bad = sym f ∙ c in cc
  | inr (r, s) ↦ let bad = sym r ∙ c in cc
]

-- Another stop, where a round was not told to stop.
weaken-IsRoundEnd :
    (s t : Option ℕ)
    → s ≡ none
    → (r : Outcome (Option Round)) (w : World) → IsRoundEnd s (r, w)
    → IsRoundEnd t (r, w)
weaken-IsRoundEnd s t e (raise error) w h = h
weaken-IsRoundEnd s t e (ok (some r)) w h = h
weaken-IsRoundEnd s t e (ok none) w (k, settled) = (
  k,
  record {
    stored = settled.stored;
    idle = settled.idle;
    status = weaken e settled.status;
    delivered = settled.delivered;
  },
)
  where
    weaken : {s t : Option ℕ} {x : WorkflowStatus} → s ≡ none → Settles s x → Settles t x
    weaken e by_failure = by_failure
    weaken e by_completion = by_completion
    weaken e by_block = by_block
    weaken e (by_stop p) = absurd (p e)

module _ (m : Manager) where
  loop-IsRoundEnd :
      (o : Overrides) (r : Outcome Reached) (w : World)
      → IsLoopEnd o (r, w)
      → IsRoundEnd o.stop_after (resume r (after_loop m) w)
  loop-IsRoundEnd o (raise e) w h = h
  loop-IsRoundEnd o (ok returned) w (k, ended) = (
    k,
    record {
      stored = ended.stored;
      idle = ended.idle;
      status = ended-Settles o w ended;
      delivered = λ e. absurd (ended-unfinished o w ended e);
    },
  )
  loop-IsRoundEnd o (ok (review_of r)) w (p, review) = handle_review-IsRoundEnd m o.stop_after r w p

  run_round-IsRoundEnd :
      (round : Round) (w : World)
      → IsFruitful m
      → IsAt round.start w
      → IsRoundEnd round.overrides.stop_after (run_round m round w)
  unfolding run_round
  run_round-IsRoundEnd round w fruitful p =
      let v = (save (modify (set_status WorkflowStatus.running) w).1).1 in
      let c =
        same-IsCheckpoint round.start w.state v.state
          record { completed = refl; candidates = refl; topic = refl; opinion = refl; plan = refl }
          p.now in
      let here : IsAt round.start v = record { now = c; saved = ((round.start, c), p.saved) } in
      let agents = drop round.start agent_order in
      loop-IsRoundEnd round.overrides (run_agents m round.overrides agents round.start v).0
        (run_agents m round.overrides agents round.start v).1
        (run_agents-IsLoopEnd m round.overrides agents round.start v fruitful refl here)

  next-IsRoundEnd :
      (stop : Option ℕ) (fuel : ℕ) (x : Outcome (Option Round)) (v : World)
      → IsRoundEnd stop (x, v)
      → ((r : Round)
          → IsAt r.start v
          → r.overrides.stop_after ≡ none
          → IsRoundEnd stop (run_from m fuel r v))
      → IsRoundEnd stop
          (resume x (λ next. elim next [ none ↦ pure none | some again ↦ run_from m fuel again ]) v)
  next-IsRoundEnd stop fuel (raise e) v h rest = h
  next-IsRoundEnd stop fuel (ok none) v h rest = h
  next-IsRoundEnd stop fuel (ok (some r)) v h rest = rest r h.0 h.1

  -- A run from a checkpoint, where the agents' results have their artifacts: whether it returns or
  -- raises, the state and every version that was saved are checkpoints. When it returns, the state
  -- is saved, no agent is at work, and the status is failed, completed or blocked, or running where
  -- the run was told after which agent to stop; it is completed only with all agents completed and
  -- the research plan of the state, which passes the validation of a handoff, in the outbox. When
  -- the fuel for revisions runs out, the state is the checkpoint where the next round starts.
  pub run_from-IsRoundEnd :
      (fuel : ℕ) (round : Round) (w : World)
      → IsFruitful m
      → IsAt round.start w
      → IsRoundEnd round.overrides.stop_after (run_from m (suc fuel) round w)
  unfolding run_from
  run_from-IsRoundEnd zero round w fruitful p =
      next-IsRoundEnd round.overrides.stop_after zero (run_round m round w).0
        (run_round m round w).1 (run_round-IsRoundEnd round w fruitful p)
        (λ r there once. (there, once))
  run_from-IsRoundEnd (suc fuel) round w fruitful p =
      next-IsRoundEnd round.overrides.stop_after (suc fuel) (run_round m round w).0
        (run_round m round w).1 (run_round-IsRoundEnd round w fruitful p)
        (λ r there once.
          weaken-IsRoundEnd r.overrides.stop_after round.overrides.stop_after once
            (run_from m (suc fuel) r (run_round m round w).1).0
            (run_from m (suc fuel) r (run_round m round w).1).1
            (run_from-IsRoundEnd fuel r (run_round m round w).1 fruitful there))

-- ===== src/Producer/Recover/Recoverable.antt =====
-- Recovering again what a recovery left behind: `ProducerManager.recover` (producer/manager.py) on
-- the versions that its run saved.
use mathlib.Core.Path.{subst}
use prdcp.Shared.{
  ℕ, suc, ◌≡◌, refl, sym, ◌∙◌, ap, Bool, Bool-cases, inl, inr, String, Option, none, some, List, [],
  ◌∷◌, arith, All, All-Member, Member, false, length, ◌<◌, ◌↔◌, ok, raise, Outcome,
}
use prdcp.Exchange.Exec.{resume}
use prdcp.Retry.Model.{Files}
use prdcp.Producer.Model.{ProducerWorkflowState, agent_order, take, from_keys}
use prdcp.Producer.Checkpoint.{recovery_start_index}
use prdcp.Producer.Progress.{IsCheckpoint}
use prdcp.Producer.Recovery.{recovery_start_index_iff}
use prdcp.Producer.Setting.{Manager, World, Step, modify}
use prdcp.Producer.Drafts.{nth}
use prdcp.Producer.Steps.{HasCheckpoint, IsAt, modify-Keeps, save-Keeps}
use prdcp.Producer.Asking.{IsFruitful}
use prdcp.Producer.Accounting.{Round}
use prdcp.Producer.Ledgers.{on_ledger}
use prdcp.Producer.Settled.{on_ledger-Keeps}
use prdcp.Producer.{is_executing}
use prdcp.Producer.Recovery
use prdcp.Producer.Recover.Starting.{StartsAt, IsPermitted, prepare_recovery-Starts}
use prdcp.Producer.Restart.{from_keys-take, length-take, run_from-HasCheckpoint}
use prdcp.Producer.Safe.{go_on}
use prdcp.Producer.Recover.{
  Provider, cleared, is_completed, active_revision_task_overrides, recovery_tasks, recover_at,
  prepare_recovery, recover,
}

-- A checkpoint is recovered where it stands.
start-IsCheckpoint :
    (s : ProducerWorkflowState) (i : ℕ)
    → HasCheckpoint s
    → recovery_start_index s ≡ ok i
    → IsCheckpoint i s
start-IsCheckpoint s i (n, c) h =
    let (keys, few, artifacts) = (recovery_start_index_iff s i).0 h in
    let same : take n agent_order ≡ take i agent_order =
      sym (ap from_keys c.completed ∙ from_keys-take n c.bound) ∙ keys in
    let e : n ≡ i =
      sym (length-take n c.bound) ∙ ap length same ∙ length-take i (omega (arith, few)) in
    subst (λ j. IsCheckpoint j s) e c

-- What a recovery gives its run.
IsPrepared : Outcome (Option Round) × World → Type 0
IsPrepared (raise e, w) = All HasCheckpoint w.saved
IsPrepared (ok none, w) = All HasCheckpoint w.saved
IsPrepared (ok (some r), w) = IsAt r.start w

module _ (m : Manager) (provider : String → Provider) (files : Files) where
  resume-IsPrepared :
      {A : Type 0} (n : ℕ) (r : Outcome A) (f : A → Step (Option Round)) (w : World)
      → IsAt n w
      → ((a : A) → IsPrepared (f a w))
      → IsPrepared (resume r f w)
  unfolding IsPrepared
  resume-IsPrepared n (ok a) f w p h = h a
  resume-IsPrepared n (raise e) f w p h = p.saved

  recover_at-IsPrepared :
      (s : ProducerWorkflowState) (stop : Bool) (i : ℕ) (w : World)
      → IsAt i w
      → IsPrepared (recover_at m provider files s stop i w)
  unfolding recover_at IsPrepared
  recover_at-IsPrepared s stop i w p =
      let active = active_revision_task_overrides m provider files in
      let v = (on_ledger active w).1 in
      let kept = on_ledger-Keeps i active w p in
      resume-IsPrepared i (on_ledger active w).0 _ v kept (λ o.
        resume-IsPrepared i
          (recovery_tasks m provider files s (nth agent_order i "") o.provider_tasks) _ v kept
          (λ tasks. save-Keeps i (modify cleared v).1 (
            modify-Keeps i cleared
              (λ t. record {
                completed = refl;
                candidates = refl;
                topic = refl;
                opinion = refl;
                plan = refl;
              })
              v kept)))

  from_index-IsPrepared :
      (w : World) (stop : Bool) (r : Outcome ℕ)
      → HasCheckpoint w.state
      → All HasCheckpoint w.saved
      → recovery_start_index w.state ≡ r
      → IsPrepared (resume r (recover_at m provider files w.state stop) w)
  unfolding IsPrepared
  from_index-IsPrepared w stop (raise e) c saved h = saved
  from_index-IsPrepared w stop (ok i) c saved h =
      recover_at-IsPrepared w.state stop i w
        (record { now = start-IsCheckpoint w.state i c h; saved = saved })

  prepare_recovery-IsPrepared :
      (stop : Bool) (w : World) (xs : List ProducerWorkflowState)
      → w.saved ≡ xs
      → All HasCheckpoint xs
      → IsPrepared (prepare_recovery m provider files stop w)
  unfolding prepare_recovery IsPrepared
  prepare_recovery-IsPrepared stop w [] e h = rw e tt
  prepare_recovery-IsPrepared stop w (s ∷ older) e h =
      rw e (elim (Bool-cases (is_completed s.status)) [
        | inl y ↦ rw y h
        | inr n ↦ rw n (
            from_index-IsPrepared (record w { state = s; saved = s ∷ older }) stop
              (recovery_start_index s) h.0 h refl)
      ])

  run-HasCheckpoint :
      (fuel : ℕ) (r : Outcome (Option Round)) (w : World)
      → IsFruitful m
      → IsPrepared (r, w)
      → All HasCheckpoint (resume {B = Option Round} r (go_on m (suc fuel)) w).1.saved
  unfolding IsPrepared
  run-HasCheckpoint fuel (raise e) w fruitful h = h
  run-HasCheckpoint fuel (ok none) w fruitful h = h
  run-HasCheckpoint fuel (ok (some a)) w fruitful h = run_from-HasCheckpoint m fuel a w fruitful h

  recover-HasCheckpoint :
      (fuel : ℕ) (stop : Bool) (w : World)
      → IsFruitful m
      → All HasCheckpoint w.saved
      → All HasCheckpoint (recover m provider files (suc fuel) stop w).1.saved
  unfolding recover
  recover-HasCheckpoint fuel stop w fruitful h =
      run-HasCheckpoint fuel (prepare_recovery m provider files stop w).0
        (prepare_recovery m provider files stop w).1 fruitful
        (prepare_recovery-IsPrepared stop w w.saved refl h)

-- A checkpoint lets a recovery begin exactly where an agent is left.
checkpoint-IsReady :
    (s : ProducerWorkflowState)
    → HasCheckpoint s
    → Recovery.IsReady s (length s.completed_agents) ↔ (length s.completed_agents < 5)
checkpoint-IsReady s (n, c) =
    let e : length s.completed_agents ≡ n = ap length c.completed ∙ length-take n c.bound in
    (
      λ (keys, few, artifacts). few,
      λ few.
          rw e (ap from_keys c.completed ∙ from_keys-take n c.bound, omega (arith, e), c.artifacts),
    )

-- However a recovery ends, where every saved version was a checkpoint and the agents' results have
-- their artifacts: recovering a version that was saved then and runs no revision, with whatever
-- manager, provider and retry files there are by then, begins a run right after the completed agents
-- of that version exactly when it is not completed, an agent is left, and the call for that agent
-- may be made: its provider has no identifier, or the retry store can be read and a retry of the
-- call is pending, or it was not reserved before, or its provider can resume it.
pub recover_again :
    (m m' : Manager) (provider provider' : String → Provider) (files files' : Files) (fuel : ℕ)
    (stop stop' : Bool) (w later : World) (t : ProducerWorkflowState)
    (older : List ProducerWorkflowState)
    → IsFruitful m
    → All HasCheckpoint w.saved
    → Member t (recover m provider files (suc fuel) stop w).1.saved
    → later.saved ≡ t ∷ older
    → is_executing t.revision_control.phase ≡ false
    → StartsAt m' provider' files'
        (length t.completed_agents)
        (prepare_recovery m' provider' files' stop' later).0
      ↔ ((is_completed t.status ≡ false)
          × (length t.completed_agents < 5)
          × IsPermitted m' provider' files' t (nth agent_order (length t.completed_agents) ""))
recover_again m m' provider provider' files files' fuel stop stop' w later t older fruitful h member
      last idle =
    let n = length t.completed_agents in
    let c =
      All-Member HasCheckpoint (recover m provider files (suc fuel) stop w).1.saved t
        (recover-HasCheckpoint m provider files fuel stop w fruitful h) member in
    let starts = (prepare_recovery-Starts m' provider' files' stop' later t older n last idle).0 in
    let ready = checkpoint-IsReady t c in
    (
      λ b. let (u, (r, p)) = starts.0 b in (u, ready.0 r, p),
      λ (u, few, p). starts.1 (u, (ready.1 few, p)),
    )

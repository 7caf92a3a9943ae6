-- ===== src/Producer/Settled.antt =====
-- How a run and a round of `ProducerManager` (producer/manager.py) are left.
use prdcp.Shared.{ℕ, ◌≡◌, ◌≢◌, refl, Option, none, some, Outcome, ok, raise, text_eq}
use prdcp.Exchange.Exec.{resume, ◌>>=◌}
use prdcp.Producer.Model.{WorkflowStatus, ProducerWorkflowState, agent_order}
use prdcp.Producer.Setting.{World, Step}
use prdcp.Producer.Steps.{IsAt, Keeps, same-IsCheckpoint}
use prdcp.Producer.LoopEnd.{IsStored, IsKept}
use prdcp.Producer.Handoff.{IsDelivered}
use prdcp.Producer.Ledgers.{Entry, on_ledger}
use prdcp.Producer.Accounting.{Round}

-- The statuses in which a run returns; it is running only where it was told where to stop.
pub data Settles (stop : Option ℕ) : WorkflowStatus → Type 0 where
  by_failure : Settles stop WorkflowStatus.failed
  by_completion : Settles stop WorkflowStatus.completed
  by_block : Settles stop WorkflowStatus.blocked
  by_stop : stop ≢ none → Settles stop WorkflowStatus.running

-- The run returned: no agent is at work, the status is one of those, and all of it is saved.
pub record IsSettled (stop : Option ℕ) (w : World) : Type 0 where
  pub stored : IsStored w
  pub idle : w.state.current_agent_id ≡ none
  pub status : Settles stop w.state.status
  -- A completed run has every agent completed and the plan in the outbox.
  pub delivered :
      w.state.status ≡ WorkflowStatus.completed
      → IsDelivered w × (w.state.completed_agents ≡ agent_order)

-- How a round is left: with an exception, for good, or for a round that starts at its checkpoint.
abbrev pub IsRoundEnd : Option ℕ → Outcome (Option Round) × World → Type 0
IsRoundEnd stop (raise e, w) = IsKept w
IsRoundEnd stop (ok none, w) = IsKept w × IsSettled stop w
IsRoundEnd stop (ok (some r), w) = IsAt r.start w × (r.overrides.stop_after ≡ none)

pub resume-IsRoundEnd :
    {A : Type 0} (stop : Option ℕ) (r : Outcome A) (f : A → Step (Option Round)) (w : World)
    → IsKept w
    → ((a : A) → r ≡ ok a → IsRoundEnd stop (f a w))
    → IsRoundEnd stop (resume r f w)
resume-IsRoundEnd stop (ok a) f w k h = h a refl
resume-IsRoundEnd stop (raise e) f w k h = k

pub at-IsKept : (n : ℕ) (w : World) → IsAt n w → IsKept w
at-IsKept n w p = ((n, p.now), p.saved)

-- A step that keeps the checkpoint, before the rest of a round.
pub bind-IsRoundEnd :
    {A : Type 0} (stop : Option ℕ) (n : ℕ) (m : Step A) (f : A → Step (Option Round)) (w : World)
    → Keeps n m
    → IsAt n w
    → ((a : A) (v : World) → IsAt n v → IsRoundEnd stop (f a v))
    → IsRoundEnd stop ((m >>= f) w)
bind-IsRoundEnd stop n m f w k p h =
    resume-IsRoundEnd stop (m w).0 f (m w).1 (at-IsKept n (m w).1 (k w p))
      (λ a e. h a (m w).1 (k w p))

pub on_ledger-Keeps :
    {A : Type 0} (n : ℕ) (f : ProducerWorkflowState → Entry A) → Keeps n (on_ledger f)
on_ledger-Keeps n f w p = record {
  now =
      same-IsCheckpoint n w.state (on_ledger f w).1.state
        record { completed = refl; candidates = refl; topic = refl; opinion = refl; plan = refl }
        p.now;
  saved = p.saved;
}

pub ledger-IsRoundEnd :
    {A : Type 0} (stop : Option ℕ) (n : ℕ) (f : ProducerWorkflowState → Entry A)
    (g : A → Step (Option Round)) (w : World)
    → IsAt n w
    → ((a : A) (v : World) → IsAt n v → IsRoundEnd stop (g a v))
    → IsRoundEnd stop ((on_ledger f >>= g) w)
ledger-IsRoundEnd stop n f g w p h =
    bind-IsRoundEnd stop n (on_ledger f) g w (on_ledger-Keeps n f) p h

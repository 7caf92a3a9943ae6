-- ===== src/Producer/Steps.antt =====
-- Steps of `ProducerManager` (producer/manager.py) that keep the checkpoint: what they save, too,
-- is a checkpoint.
use prdcp.Shared.{ℕ, ◌≡◌, refl, All, Outcome, ok, raise}
use prdcp.Pmp.{PmpMessage}
use prdcp.Exchange.Exec.{Exec, lift, resume, ◌>>=◌}
use prdcp.Exchange.Store.{Repository}
use prdcp.Producer.Model.{ProducerWorkflowState}
use prdcp.Producer.Setting.{World, Step, modify, save, draw, append_message, exchanging}
use prdcp.Producer.Progress.{IsCheckpoint}

abbrev pub HasCheckpoint : ProducerWorkflowState → Type 0
HasCheckpoint s = (n : ℕ) × IsCheckpoint n s

-- The state is the checkpoint after n agents, and every saved version is a checkpoint.
pub record IsAt (n : ℕ) (w : World) : Type 0 where
  pub now : IsCheckpoint n w.state
  pub saved : All HasCheckpoint w.saved

abbrev pub Keeps : {A : Type 0} → ℕ → Step A → Type 0
Keeps n m = (w : World) → IsAt n w → IsAt n (m w).1

-- Another state with the same completed agents and artifacts.
pub record IsSame (s t : ProducerWorkflowState) : Type 0 where
  pub completed : s.completed_agents ≡ t.completed_agents
  pub candidates : s.topic_candidates ≡ t.topic_candidates
  pub topic : s.selected_topic ≡ t.selected_topic
  pub opinion : s.general_opinion ≡ t.general_opinion
  pub plan : s.research_plan ≡ t.research_plan

pub same-IsCheckpoint :
    (n : ℕ) (s t : ProducerWorkflowState) → IsSame s t → IsCheckpoint n s → IsCheckpoint n t
same-IsCheckpoint n s t e c = record {
  bound = c.bound;
  completed = rw (← e.completed) c.completed;
  artifacts = record {
    candidates = rw (← e.candidates) c.artifacts.candidates;
    topic = rw (← e.topic) c.artifacts.topic;
    opinion = rw (← e.opinion) c.artifacts.opinion;
    plan = rw (← e.plan) c.artifacts.plan;
  };
}

module _ {A B : Type 0} where
  pub resume-IsAt :
      (n : ℕ) (r : Outcome A) (f : A → Step B) (w : World)
      → IsAt n w
      → ((a : A) → r ≡ ok a → IsAt n (f a w).1)
      → IsAt n (resume r f w).1
  resume-IsAt n (ok a) f w h k = k a refl
  resume-IsAt n (raise e) f w h k = h

  pub bind-Keeps :
      (n : ℕ) (m : Step A) (f : A → Step B)
      → Keeps n m
      → ((a : A) → Keeps n (f a))
      → Keeps n (m >>= f)
  bind-Keeps n m f h k w p = resume-IsAt n (m w).0 f (m w).1 (h w p) (λ a e. k a (m w).1 (h w p))

-- Changing fields that are not part of a checkpoint.
pub modify-Keeps :
    (n : ℕ) (f : ProducerWorkflowState → ProducerWorkflowState)
    → ((s : ProducerWorkflowState) → IsSame s (f s))
    → Keeps n (modify f)
modify-Keeps n f h w p = record {
  now = same-IsCheckpoint n w.state (f w.state) (h w.state) p.now;
  saved = p.saved;
}

pub save-Keeps : (n : ℕ) → Keeps n save
save-Keeps n w p = record { now = p.now; saved = ((n, p.now), p.saved) }

-- A step that changes neither the state nor what is saved.
pub still-Keeps :
    {A : Type 0} (n : ℕ) (m : Step A)
    → ((w : World) → (m w).1.state ≡ w.state)
    → ((w : World) → (m w).1.saved ≡ w.saved)
    → Keeps n m
still-Keeps n m h k w p = record { now = rw (h w) p.now; saved = rw (k w) p.saved }

pub lift-Keeps : {A : Type 0} (n : ℕ) (r : Outcome A) → Keeps n (lift r)
lift-Keeps n r w p = p

pub draw-Keeps : (n : ℕ) → Keeps n draw
draw-Keeps n w p = record { now = p.now; saved = p.saved }

pub append_message-Keeps : (n : ℕ) (m : PmpMessage) → Keeps n (append_message m)
append_message-Keeps n m =
    modify-Keeps n _ (λ s. record {
      completed = refl;
      candidates = refl;
      topic = refl;
      opinion = refl;
      plan = refl;
    })

pub exchanging-Keeps : {A : Type 0} (n : ℕ) (m : Exec Repository A) → Keeps n (exchanging m)
exchanging-Keeps n m w p = record { now = p.now; saved = p.saved }

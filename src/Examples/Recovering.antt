-- ===== src/Examples/Recovering.antt =====
-- Recoveries of the producer by evaluation.
use prdcp.Shared.{
  ◌<◌, ◌↔◌, String, ◌≡◌, refl, false, inl, inr, none, some, [], ◌∷◌, All, Member, length, raise,
  value_error,
}
use prdcp.Retry.{reservation_path}
use prdcp.Retry.Model.{reserved, Files}
use prdcp.Producer.Model.{WorkflowStatus, ProducerWorkflowState, quality_reviewer, agent_order}
use prdcp.Producer.Setting.{Manager, World}
use prdcp.Producer.Drafts.{nth}
use prdcp.Producer.Steps.{HasCheckpoint}
use prdcp.Producer.Asking.{IsFruitful}
use prdcp.Producer.{is_executing}
use prdcp.Producer.Recover.{Provider, is_completed, recover, prepare_recovery}
use prdcp.Producer.Recover.Starting.{
  StartsAt, Starts, IsStartable, IsPermitted, unreserved, prepare_recovery-Starts,
}
use prdcp.Producer.Recover.Recoverable.{recover_again}
use prdcp.Examples.Samples.{sha256}
use prdcp.Examples.Revising.{the_producer}
use prdcp.Examples.Producing.{manager, planned, planned-IsCheckpoint, reviewing}

abbrev providers : String → Provider
providers agent = record { provider_id = some "openrouter"; can_resume = none }

-- The call for the reviewer was reserved.
abbrev calls : Files
calls =
    (
      reservation_path sha256 "openrouter" "workflow_1" quality_reviewer,
      reserved (record {
        workflow_id = some "workflow_1";
        task_id = some quality_reviewer;
        agent_id = some quality_reviewer;
      }),
    )
    ∷ []

abbrev stored : World
stored = record reviewing { saved = planned ∷ [] }

stored-HasCheckpoint : All HasCheckpoint stored.saved
stored-HasCheckpoint = ((4, planned-IsCheckpoint), tt)

-- The reviewer raises.
abbrev broken : Manager
broken = record (manager "approved") { execute = λ n agent q. raise (value_error "no answer") }

broken-IsFruitful : IsFruitful broken
broken-IsFruitful n agent q r e h = cc

abbrev after : World
after = (recover broken providers [] 1 false stored).1

-- What it saved last.
abbrev interrupted : ProducerWorkflowState
interrupted = after.state

stops : interrupted.status ≡ WorkflowStatus.reviewing
unfolding the_producer recover
stops = refl

keeps_four : interrupted.completed_agents ≡ planned.completed_agents
unfolding the_producer recover
keeps_four = refl

interrupted_saved : Member interrupted after.saved
unfolding the_producer recover
interrupted_saved = inl refl

interrupted_idle : is_executing interrupted.revision_control.phase ≡ false
unfolding the_producer recover
interrupted_idle = refl

-- A later world, in which the call for the reviewer may have been reserved.
abbrev later : World
later = record stored { saved = interrupted ∷ [] }

recover_again_example :
    StartsAt
      (manager "approved")
      providers
      calls
      (length interrupted.completed_agents)
      (prepare_recovery (manager "approved") providers calls false later).0
    ↔ ((is_completed interrupted.status ≡ false)
        × (length interrupted.completed_agents < 5)
        × IsPermitted
            (manager "approved")
            providers
            calls
            interrupted
            (nth agent_order (length interrupted.completed_agents) ""))
recover_again_example =
    recover_again broken (manager "approved") providers providers [] calls 0 false false stored
      later interrupted [] broken-IsFruitful stored-HasCheckpoint interrupted_saved refl
      interrupted_idle

prepare_recovery-Starts_example :
    Starts
      (manager "approved")
      providers
      calls
      4
      stored
      (prepare_recovery (manager "approved") providers calls false stored)
      ((is_completed planned.status ≡ false)
        × IsStartable (manager "approved") providers calls planned 4)
prepare_recovery-Starts_example =
    prepare_recovery-Starts (manager "approved") providers calls false stored planned [] 4 refl refl

-- Without the reservation, the recovery begins.
permitted : IsPermitted (manager "approved") providers [] planned quality_reviewer
unfolding the_producer recover
permitted = inr ("openrouter", refl, none, refl, unreserved refl)

-- ===== src/Producer/Recover.antt =====
-- `recover` and `_active_revision_task_overrides` of `ProducerManager` (producer/manager.py), over
-- the files of the provider retries (common/provider_retry.py), which it reads only.
pub mod Recoverable
pub mod Starting
use prdcp.Shared.{
  ℕ, zero, suc, String, Bool, true, false, not, Option, none, some, List, [], ◌∷◌, ◌==◌, text_eq,
  if◌then◌else◌, Outcome, ok, raise, Error, value_error, file_not_found, FilePath, read, path_eq,
  append,
}
use prdcp.Pmp.{PmpMessage}
use prdcp.Correlation.{request_payload}
use prdcp.Exchange.Exec.{pure, throw, lift, ◌>>=◌, ◌>>◌}
use prdcp.Retry.{for_original_task, reservation_path, exists}
use prdcp.Retry.Model.{ProviderRetryAuthorization, Files, is_pending}
use prdcp.Producer.Model.{WorkflowStatus, ProducerWorkflowState, agent_order}
use prdcp.Producer.Checkpoint.{recovery_start_index}
use prdcp.Producer.Setting.{Manager, World, Step, current, put, modify, save}
use prdcp.Producer.Drafts.{override, nth}
use prdcp.Producer.Agents.{Overrides}
use prdcp.Producer.Ledgers.{Entry, on_ledger}
use prdcp.Producer.Revision.{
  Identities, active_revision_request_message, revision_execution_identities,
}
use prdcp.Producer.Accounting.{Round}
use prdcp.Producer.{is_executing, run_from}

-- The provider of an agent: its identifier, if that is a text, and `can_resume_invocation` for the
-- model of the agent, if it has one.
pub record Provider : Type 0 where
  pub provider_id : Option String
  pub can_resume : Option (FilePath → Bool)

abbrev pub is_completed : WorkflowStatus → Bool
is_completed WorkflowStatus.completed = true
is_completed _ = false

abbrev pub no_tasks : Identities
no_tasks = record { provider_tasks = []; retrieval_tasks = []; retrieval_ids = [] }

abbrev pub resumes : Option (FilePath → Bool) → FilePath → Bool
resumes none reservation = false
resumes (some can) reservation = can reservation

abbrev pub task_of : Option String → String → String
task_of none agent = agent
task_of (some task) agent = task

abbrev pub reserved_before : String → Error
reserved_before agent = value_error (
    append "Producer recovery found a prior Provider reservation for the incomplete checkpoint "
      (append agent "; use --producer-provider-retry"))

-- Where no retry is pending: a call that was reserved may only be resumed.
abbrev pub without_retry :
    Provider → String → FilePath → Files → List (String × String) → Outcome (List (String × String))
without_retry p agent reservation files tasks =
    if exists (read files reservation)
    then (if resumes p.can_resume reservation then ok tasks else raise (reserved_before agent))
    else ok tasks

-- The task of a pending retry replaces the agent's own.
abbrev pub choose :
    Option ProviderRetryAuthorization
    → String
    → List (String × String)
    → Outcome (List (String × String))
    → Outcome (List (String × String))
choose none agent tasks otherwise = otherwise
choose (some a) agent tasks otherwise =
    if is_pending a.status then ok ((agent, a.retry_task_id) ∷ tasks) else otherwise

-- `repository.load`
abbrev pub load : Step ProducerWorkflowState
load w = elim w.saved [
  | [] ↦ (raise (file_not_found "Workflow not found"), w)
  | s ∷ older ↦ (ok s, record w { state = s })
]

abbrev pub cleared : ProducerWorkflowState → ProducerWorkflowState
cleared s = record s { error = none; completed_at = none }

module _ (m : Manager) (provider : String → Provider) (files : Files) where
  -- `_active_revision_task_overrides`
  unfoldable pub active_revision_task_overrides : ProducerWorkflowState → Entry Identities
  unfolding active_revision_request_message request_payload revision_execution_identities
  active_revision_task_overrides s =
      if not (is_executing s.revision_control.phase) then pure no_tasks else (do
        message ← active_revision_request_message m s
        r ← lift (request_payload m.x.is_uuid message.payload)
        lift (revision_execution_identities m s r))

  -- The provider tasks of a recovery that starts with the agent.
  unfoldable pub recovery_tasks :
      ProducerWorkflowState → String → List (String × String) → Outcome (List (String × String))
  unfolding for_original_task read
  recovery_tasks s agent tasks = elim (provider agent).provider_id [
    | none ↦ ok tasks
    | some p ↦
        let task = task_of (override tasks agent) agent in
        elim (for_original_task m.x.sha256 s.workflow_id p task files).0 [
          | raise e ↦ raise e
          | ok a ↦ choose a agent tasks (
              without_retry (provider agent) agent
                (reservation_path m.x.sha256 p s.workflow_id task) files tasks)
        ]
  ]

  -- An incomplete workflow, from the index on.
  unfoldable pub recover_at : ProducerWorkflowState → Bool → ℕ → Step (Option Round)
  unfolding active_revision_task_overrides recovery_tasks
  recover_at s stop i = do
    active ← on_ledger active_revision_task_overrides
    tasks ← lift (recovery_tasks s (nth agent_order i "") active.provider_tasks)
    modify cleared
    save
    pure (
        some (record {
          start = i;
          overrides = record {
            provider_tasks = tasks;
            retrieval_tasks = active.retrieval_tasks;
            stop_after = if stop then some i else none;
          };
        }))

  -- `recover` before its run, which a completed workflow has not.
  unfoldable pub prepare_recovery : Bool → Step (Option Round)
  unfolding recovery_start_index recover_at
  prepare_recovery stop = do
    s ← load
    if is_completed s.status
        then pure none
        else (do i ← lift (recovery_start_index s); recover_at s stop i)

  -- `recover`
  unfoldable pub recover : ℕ → Bool → Step (Option Round)
  unfolding prepare_recovery run_from
  recover fuel stop = do
    round ← prepare_recovery stop
    elim round [ none ↦ pure none | some r ↦ run_from m fuel r ]

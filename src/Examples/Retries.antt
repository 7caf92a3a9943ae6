-- ===== src/Examples/Retries.antt =====
-- The authorization of a retry on sample files.
use prdcp.Shared.{
  String, ◌≡◌, refl, [], ◌∷◌, none, some, append, ok, Bool-cases, inl, inr, ◌==◌, path_eq, FilePath,
}
use prdcp.Revision.Layers.{aware}
use prdcp.Retry.{authorize_once, require_pending_retry, consume, reservation_path}
use prdcp.Retry.Model.{
  ProviderRetryAuthorization, RetryTask, RetryFile, reserved, authorized, Files, pending,
  original_task_id,
}
use prdcp.Retry.OneShot.{path_for, consume-is_final}
use prdcp.Retry.Pending.{IsStore, IsGranted, authorize_once-is_pending}
use prdcp.Retry.Store.{retry-IsStore}
use prdcp.Exchange.Exec.{Refuses}
use prdcp.Examples.Samples.{the_model, sha256}

abbrev task : RetryTask
task = record {
  workflow_id = "workflow_1";
  provider_id = "openrouter";
  agent_id = "producer.writer";
  original_task_id = "task_1";
  source_error_message_id = "message_7";
  source_error_class = "RetryableAgentError";
  authorized_by = "cli.operator";
}

abbrev place : String → FilePath
place name = reservation_path sha256 "openrouter" "workflow_1" name

abbrev reserved_call : String → RetryFile
reserved_call name = reserved (record {
  workflow_id = some "workflow_1";
  task_id = some name;
  agent_id = some "producer.writer";
})

-- The call of the task and that of its retry are reserved.
abbrev calls : Files
calls =
    (place "task_1", reserved_call "task_1")
    ∷ (place "task_1_operator_retry_1", reserved_call "task_1_operator_retry_1")
    ∷ []

abbrev granted : ProviderRetryAuthorization
granted = record {
  authorization_id = "authorization_1";
  workflow_id = "workflow_1";
  provider_id = "openrouter";
  agent_id = "producer.writer";
  original_task_id = "task_1";
  retry_task_id = "task_1_operator_retry_1";
  source_error_message_id = "message_7";
  source_error_class = "RetryableAgentError";
  authorized_by = "cli.operator";
  status = pending;
  authorized_at = aware 1;
  consumed_at = none;
  reservation_path = none;
}

abbrev granted_files : Files
granted_files = (authorize_once sha256 "authorization_1" (aware 1) task calls).1

grants : (authorize_once sha256 "authorization_1" (aware 1) task calls).0 ≡ ok granted
unfolding the_model
grants = refl

reservations-IsStore :
    (files : Files) (q : FilePath) (name : String)
    → IsStore files
    → IsStore ((q, reserved_call name) ∷ files)
unfolding the_model
reservations-IsStore files q name store p a h = elim (Bool-cases (q == p)) [
  | inl y ↦ let h' = rw y at h in cc
  | inr n ↦ store p a (rw n at h)
]

empty-IsStore : IsStore []
unfolding the_model
empty-IsStore p a h = cc

calls-IsStore : IsStore calls
calls-IsStore = reservations-IsStore _ (place "task_1") "task_1" (
    reservations-IsStore [] (place "task_1_operator_retry_1") "task_1_operator_retry_1"
      empty-IsStore)

authorize_once-is_pending_example :
    IsGranted task granted (path_for sha256 task) granted_files
    × (require_pending_retry sha256 "workflow_1" "openrouter" "producer.writer"
          "task_1_operator_retry_1" granted_files
        ≡ (ok granted, granted_files))
authorize_once-is_pending_example =
    authorize_once-is_pending sha256 "authorization_1" (aware 1) task calls granted calls-IsStore
      grants

abbrev spent : ProviderRetryAuthorization
spent = record granted {
  status = prdcp.Retry.Model.consumed;
  consumed_at = some (aware 2);
  reservation_path = some (place "task_1_operator_retry_1");
}

abbrev spent_files : Files
spent_files = (consume sha256 granted (place "task_1_operator_retry_1") (aware 2) granted_files).1

spends :
    (consume sha256 granted (place "task_1_operator_retry_1") (aware 2) granted_files).0 ≡ ok spent
unfolding the_model
spends = refl

consume-is_final_example :
    Refuses (authorize_once sha256 "authorization_2" (aware 3) task spent_files) spent_files
    × Refuses
        (require_pending_retry sha256 "workflow_1" "openrouter" "producer.writer"
          (append "task_1" "_operator_retry_1")
          spent_files)
        spent_files
consume-is_final_example =
    consume-is_final sha256 granted spent (place "task_1_operator_retry_1") (aware 2) (aware 3)
      "authorization_2" "producer.writer" task granted_files spends refl refl refl

retry-IsStore_example :
    IsStore (authorize_once sha256 "authorization_1" (aware 1) task calls).1
    × IsStore (consume sha256 granted (place "task_1_operator_retry_1") (aware 1) calls).1
retry-IsStore_example =
    retry-IsStore sha256 "authorization_1" (aware 1) task granted (place "task_1_operator_retry_1")
      calls calls-IsStore refl

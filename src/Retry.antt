-- ===== src/Retry.antt =====
-- `ProviderRetryAuthorizationStore` of common/provider_retry.py: the permission of an operator to
-- repeat, once, the call of a provider that failed. The state is the JSON files below the data
-- directory. The identifier that uuid4 draws, the time of a call and hashlib's digest are
-- arguments.
pub mod Model
pub mod OneShot
pub mod Pending
pub mod Store
use prdcp.Shared.{
  String, Bool, true, false, ◌&&◌, ◌||◌, not, Option, none, some, List, [], ◌∷◌, ◌==◌, text_eq,
  if◌then◌else◌, contains, Outcome, ok, raise, Guard, ◌raises◌, check, value_error,
  file_exists_error, is_provider_id, ends_with, drop_suffix, append, FilePath, dir, json, read,
  write,
}
use prdcp.Revision.Layers.{DateTime}
use prdcp.Revision.Identity.{safe_path_component}
use prdcp.Exchange.Exec.{Exec, pure, throw, lift, guards, resume, ◌>>=◌, ◌>>◌}
use prdcp.Retry.Model.{
  operator_retry_suffix, operator_retryable_error_classes, pending, consumed, is_pending,
  ProviderRetryAuthorization, field_guards, Reservation, RetryFile, reserved, authorized,
  reservation_of, Files, says, RetryTask, parse, original_task_id,
}

abbrev pub is_same_retry : ProviderRetryAuthorization → RetryTask → Bool
is_same_retry a q =
    a.workflow_id == q.workflow_id
    && (a.provider_id == q.provider_id
        && (a.agent_id == q.agent_id
            && (a.original_task_id == q.original_task_id
                && a.source_error_message_id == q.source_error_message_id)))

-- The guards of `authorize_once` before it reads a file.
abbrev pub entry_guards : RetryTask → List Guard
entry_guards q =
    (not (contains operator_retryable_error_classes q.source_error_class)
      raises value_error "Operator provider retry is allowed only for a persisted failure")
    ∷ (ends_with q.original_task_id operator_retry_suffix
        raises value_error "An operator retry task cannot authorize another retry")
    ∷ (not (is_provider_id q.provider_id) raises value_error "Invalid provider_id")
    ∷ []

abbrev pub reservation_guards : RetryTask → Reservation → List Guard
reservation_guards q r =
    ((not (says r.workflow_id q.workflow_id)
        || (not (says r.task_id q.original_task_id) || not (says r.agent_id q.agent_id)))
      raises value_error "Original provider reservation does not match the failed task")
    ∷ []

-- Where an authorization exists: `_validate_identity`, then its status.
abbrev pub existing_guards : RetryTask → ProviderRetryAuthorization → List Guard
existing_guards q a =
    (not (is_same_retry a q)
      raises value_error "Existing provider retry authorization has different identity")
    ∷ (not (is_pending a.status)
        raises value_error "The one-time operator provider retry was already consumed")
    ∷ []

abbrev pub new_authorization : String → DateTime → RetryTask → ProviderRetryAuthorization
new_authorization id now q = record {
  authorization_id = id;
  workflow_id = q.workflow_id;
  provider_id = q.provider_id;
  agent_id = q.agent_id;
  original_task_id = q.original_task_id;
  retry_task_id = append q.original_task_id operator_retry_suffix;
  source_error_message_id = q.source_error_message_id;
  source_error_class = q.source_error_class;
  authorized_by = q.authorized_by;
  status = pending;
  authorized_at = now;
  consumed_at = none;
  reservation_path = none;
}

-- `_read_json` of a file that must be there.
abbrev pub required : Option RetryFile → Outcome RetryFile
required none =
    raise (value_error "Operator provider retry requires the original provider reservation")
required (some f) = ok f

-- `_write_exclusive`
unfoldable pub write_exclusive : FilePath → RetryFile → Exec Files (Unit {0})
unfolding read write
write_exclusive path payload s = elim (read s path) [
  | none ↦ (ok tt, write s path payload)
  | some f ↦ (raise file_exists_error, s)
]

-- `_write_atomic`
unfoldable pub write_atomic : FilePath → RetryFile → Exec Files (Unit {0})
unfolding write
write_atomic path payload s = (ok tt, write s path payload)

-- data_dir / root / provider / safe workflow / f"{safe task}.json"
abbrev pub retry_path : (String → String) → String → String → String → String → FilePath
retry_path sha256 root provider workflow task =
    dir root
    ∷ dir provider
    ∷ dir (safe_path_component sha256 workflow)
    ∷ json (safe_path_component sha256 task)
    ∷ []

abbrev pub found : Option ProviderRetryAuthorization → Outcome ProviderRetryAuthorization
found none = raise (value_error "Operator retry task has no persisted authorization")
found (some a) = ok a

abbrev pub pending_guards : String → String → ProviderRetryAuthorization → List Guard
pending_guards agent retry a =
    ((not (a.retry_task_id == retry) || (not (a.agent_id == agent) || not (is_pending a.status)))
      raises value_error "Operator retry authorization is not pending for this task")
    ∷ []

abbrev pub consumed_with :
    ProviderRetryAuthorization → DateTime → FilePath → ProviderRetryAuthorization
consumed_with a now path = record a {
  status = consumed;
  consumed_at = some now;
  reservation_path = some path;
}

-- `reservation_path.exists()`
abbrev pub exists : Option RetryFile → Bool
exists none = false
exists (some f) = true

unfoldable pub consume_guards : ProviderRetryAuthorization → FilePath → Files → List Guard
unfolding read
consume_guards a reservation s =
    (not (is_pending a.status) raises value_error "Operator retry authorization is not pending")
    ∷ (not (exists (read s reservation))
        raises value_error "Operator retry reservation must exist before authorization use")
    ∷ []

-- What `authorize_once` does at the path of the authorization.
unfoldable pub authorize_at :
    FilePath → String → DateTime → RetryTask → Exec Files ProviderRetryAuthorization
unfolding read parse check write_exclusive
authorize_at path id now q s = elim (read s path) [
  | some f ↦ (do existing ← lift (parse f); guards (existing_guards q existing); pure existing) s
  | none ↦
      (do
        let a = new_authorization id now q
        guards (field_guards a)
        write_exclusive path (authorized a)
        pure a)
        s
]

module _ (sha256 : String → String) where
  -- `_reservation_path`
  abbrev pub reservation_path : String → String → String → FilePath
  reservation_path provider workflow task =
      retry_path sha256 "provider_call_reservations" provider workflow task

  -- `_authorization_path`
  abbrev pub authorization_path : String → String → String → FilePath
  authorization_path provider workflow task =
      retry_path sha256 "provider_retry_authorizations" provider workflow task

  -- `authorize_once`
  unfoldable pub authorize_once :
      String → DateTime → RetryTask → Exec Files ProviderRetryAuthorization
  unfolding contains ends_with is_provider_id read check authorize_at
  authorize_once id now q s =
      (do
        guards (entry_guards q)
        f ←
            lift
              (required (read s (reservation_path q.provider_id q.workflow_id q.original_task_id)))
        guards (reservation_guards q (reservation_of f))
        authorize_at (authorization_path q.provider_id q.workflow_id q.original_task_id) id now q)
        s

  -- `for_original_task`
  unfoldable pub for_original_task :
      String → String → String → Exec Files (Option ProviderRetryAuthorization)
  unfolding read parse
  for_original_task workflow provider task s =
      elim (read s (authorization_path provider workflow task)) [
        | none ↦ (ok none, s)
        | some f ↦ (do a ← lift (parse f); pure (some a)) s
      ]

  -- `require_pending_retry`
  unfoldable pub require_pending_retry :
      String → String → String → String → Exec Files ProviderRetryAuthorization
  unfolding original_task_id for_original_task check
  require_pending_retry workflow provider agent retry = do
    original ← lift (original_task_id retry)
    o ← for_original_task workflow provider original
    a ← lift (found o)
    guards (pending_guards agent retry a)
    pure a

  -- `consume`, with `_write_atomic`
  unfoldable pub consume :
      ProviderRetryAuthorization → FilePath → DateTime → Exec Files ProviderRetryAuthorization
  unfolding consume_guards write_atomic check
  consume a reservation now s =
      (do
        guards (consume_guards a reservation s)
        write_atomic (authorization_path a.provider_id a.workflow_id a.original_task_id)
            (authorized (consumed_with a now reservation))
        pure (consumed_with a now reservation))
        s

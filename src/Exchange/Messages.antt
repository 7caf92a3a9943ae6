-- ===== src/Exchange/Messages.antt =====
-- Requests and results in the repository. The paths that the source returns are determined by the
-- request, and are left out of the results.
use prdcp.Shared.{
  String, Bool, not, Option, none, some, [], ◌∷◌, Outcome, ok, raise, ◌raises◌, value_error,
  file_not_found, FilePath, read,
}
use prdcp.Revision.Layers.{LayerId, DateTime}
use prdcp.Revision.Request.{RevisionRequest, is_internal}
use prdcp.Revision.Control.{RevisionBudgetPolicy}
use prdcp.Revision.External.{External}
use prdcp.Pmp.{PmpMessage, validate_message}
use prdcp.Correlation.{validate_request_message, validate_result_message}
use prdcp.Budget.{Claim, consume}
use prdcp.Exchange.Exec.{Exec, pure, lift, guards, ◌>>=◌, ◌>>◌}
use prdcp.Exchange.Store.{Content, message, Repository, write_once_or_exact}
use prdcp.Exchange.Paths.{request_path, result_path, internal_request_path, internal_result_path}

-- PMPMessage.model_validate(self.read_json(path))
abbrev pub parse_message : (String → Bool) → Content → Outcome PmpMessage
parse_message is_uuid (message m) = validate_message is_uuid m
parse_message is_uuid (Content.authorization a) = raise (value_error "PMPMessage")
parse_message is_uuid (Content.claimed c) = raise (value_error "PMPMessage")
parse_message is_uuid (Content.event e) = raise (value_error "PMPMessage")

unfoldable pub read_message : (String → Bool) → FilePath → String → Exec Repository PmpMessage
unfolding validate_message read
read_message is_uuid path missing s = elim (read s.files path) [
  | none ↦ (raise (file_not_found missing), s)
  | some c ↦ (parse_message is_uuid c, s)
]

-- `budget_store.consume`, if a policy is given.
abbrev pub claim_of : RevisionRequest → DateTime → Claim
claim_of r now = record {
  workflow_id = r.workflow_id;
  layer = r.source_layer;
  route = r.route;
  request = r.revision_request_id;
  now = now;
}

unfoldable pub consume_budget :
    External → Option RevisionBudgetPolicy → RevisionRequest → DateTime → Exec Repository (Unit {0})
unfolding consume
consume_budget x none r now s = (ok tt, s)
consume_budget x (some policy) r now s =
    let (result, budget) = consume x.sha256 policy (claim_of r now) s.budget in
    (elim result [ ok c ↦ ok tt | raise e ↦ raise e ], record s { budget = budget })

module _ (x : External) where
  abbrev internal_only : RevisionRequest → String → Exec Repository (Unit {0})
  internal_only r text = guards (not (is_internal r.route) raises value_error text ∷ [])

  -- `create_request_once`
  unfoldable pub create_request_once :
      PmpMessage → Option RevisionBudgetPolicy → DateTime → Exec Repository (Unit {0})
  unfolding consume_budget write_once_or_exact
  create_request_once m policy now = do
    r ← lift (validate_request_message x m)
    consume_budget x policy r now
    write_once_or_exact (request_path x.sha256 r.target_layer r.workflow_id r.revision_request_id)
        (message m) (value_error "Revision Request identity conflict")

  -- `load_request`
  unfoldable pub load_request : LayerId → String → String → Exec Repository PmpMessage
  unfolding read_message
  load_request layer workflow request = do
    m ←
        read_message x.is_uuid (request_path x.sha256 layer workflow request)
          "Revision Request not found"
    lift (validate_request_message x m)
    pure m

  -- `create_internal_request_once`
  unfoldable pub create_internal_request_once : PmpMessage → Exec Repository (Unit {0})
  unfolding write_once_or_exact
  create_internal_request_once m = do
    r ← lift (validate_request_message x m)
    internal_only r "Internal request storage accepts only internal revisions"
    write_once_or_exact
        (internal_request_path x.sha256 r.source_layer r.workflow_id r.revision_request_id)
        (message m) (value_error "Internal Revision Request identity conflict")

  -- `load_internal_request`
  unfoldable pub load_internal_request : LayerId → String → String → Exec Repository PmpMessage
  unfolding read_message
  load_internal_request layer workflow request = do
    m ←
        read_message x.is_uuid (internal_request_path x.sha256 layer workflow request)
          "Internal Revision Request not found"
    r ← lift (validate_request_message x m)
    internal_only r "Stored internal request has a non-internal route"
    pure m

  -- `create_internal_result_once`
  unfoldable pub create_internal_result_once : PmpMessage → PmpMessage → Exec Repository (Unit {0})
  unfolding write_once_or_exact
  create_internal_result_once request_message result_message = do
    r ← lift (validate_request_message x request_message)
    internal_only r "Internal result storage accepts only internal revisions"
    a ← lift (validate_result_message x request_message result_message)
    write_once_or_exact
        (internal_result_path x.sha256 a.requester_layer a.workflow_id a.revision_request_id)
        (message result_message) (value_error "Internal Revision Result identity conflict")

  -- `create_result_once`
  unfoldable pub create_result_once : PmpMessage → PmpMessage → Exec Repository (Unit {0})
  unfolding write_once_or_exact
  create_result_once request_message result_message = do
    a ← lift (validate_result_message x request_message result_message)
    write_once_or_exact (result_path x.sha256 a.requester_layer a.workflow_id a.revision_request_id)
        (message result_message) (value_error "Revision Result identity conflict")

  -- `load_result`
  unfoldable pub load_result : LayerId → String → String → PmpMessage → Exec Repository PmpMessage
  unfolding read_message
  load_result layer workflow request request_message = do
    m ←
        read_message x.is_uuid (result_path x.sha256 layer workflow request)
          "Revision Result not found"
    lift (validate_result_message x request_message m)
    pure m

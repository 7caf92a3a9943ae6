-- ===== src/Exchange/Authorizations.antt =====
-- Execution authorizations in the repository.
use prdcp.Shared.{
  Error, String, Bool, ◌&&◌, ◌||◌, not, Option, none, some, List, [], ◌∷◌, ◌==◌, text_eq,
  if◌then◌else◌, Outcome, ok, raise, Guard, ◌raises◌, value_error, file_not_found, FilePath, read,
  write,
}
use prdcp.Revision.Layers.{LayerId, layer_eq, consumed, DateTime}
use prdcp.Revision.Control.{
  RevisionExecutionAuthorization, is_pending, validate_authorization, RevisionAuditEvent,
}
use prdcp.Revision.External.{External}
use prdcp.Exchange.Exec.{Exec, pure, lift, guards, ◌>>=◌, ◌>>◌}
use prdcp.Exchange.Store.{
  AuthorizationClaim, Content, authorization, claimed, event, Repository, strings_eq,
  write_once_or_exact, write_claim_once,
}
use prdcp.Exchange.Paths.{authorization_path, claim_path, audit_path}

-- RevisionExecutionAuthorization.model_validate(self.read_json(path))
abbrev pub parse_authorization : Content → Outcome RevisionExecutionAuthorization
parse_authorization (authorization a) = validate_authorization a
parse_authorization (Content.message m) = raise (value_error "RevisionExecutionAuthorization")
parse_authorization (claimed c) = raise (value_error "RevisionExecutionAuthorization")
parse_authorization (event e) = raise (value_error "RevisionExecutionAuthorization")

unfoldable pub read_authorization : FilePath → Exec Repository RevisionExecutionAuthorization
unfolding validate_authorization read
read_authorization path s = elim (read s.files path) [
  | none ↦ (raise (file_not_found "Revision authorization not found"), s)
  | some c ↦ (parse_authorization c, s)
]

-- self.read_json(claim_path)["claimed_at"]
abbrev pub claimed_time : Option Content → Outcome DateTime
claimed_time (some (claimed c)) = ok c.claimed_at
claimed_time _ = raise (value_error "claimed_at")

unfoldable pub read_claimed_at : FilePath → Exec Repository DateTime
unfolding read
read_claimed_at path s = (claimed_time (read s.files path), s)

-- `write_json_atomic`
unfoldable pub replace_file : FilePath → Content → Exec Repository (Unit {0})
unfolding write
replace_file path c s = (ok tt, record s { files = write s.files path c })

abbrev pub same_identity : RevisionExecutionAuthorization → RevisionExecutionAuthorization → Bool
same_identity a b =
    a.authorization_id == b.authorization_id
    && (a.workflow_id == b.workflow_id
        && (a.revision_request_id == b.revision_request_id
            && a.executing_layer == b.executing_layer))

abbrev pub new_claim :
    RevisionExecutionAuthorization → List String → List String → DateTime → AuthorizationClaim
new_claim a provider retrieval now = record {
  claim = record {
    authorization_id = a.authorization_id;
    provider_reservation_ids = provider;
    retrieval_reservation_ids = retrieval;
  };
  claimed_at = now;
}

abbrev pub claim_conflict : Error
claim_conflict = value_error "Revision authorization was consumed with different reservations"

-- Where the authorization is consumed already.
abbrev pub spent_guards : RevisionExecutionAuthorization → List String → List String → List Guard
spent_guards current provider retrieval =
    ((not (current.provider_reservation_ids == provider)
        || not (current.retrieval_reservation_ids == retrieval))
      raises value_error "Revision authorization was already consumed differently")
    ∷ []

module _ (x : External) where
  -- `_authorization_path`
  abbrev pub path_of : RevisionExecutionAuthorization → FilePath
  path_of a = authorization_path x.sha256 a.executing_layer a.workflow_id a.revision_request_id

  abbrev pub claim_path_of : RevisionExecutionAuthorization → FilePath
  claim_path_of a = claim_path x.sha256 a.executing_layer a.workflow_id a.revision_request_id

  -- `create_authorization_once`
  unfoldable pub create_authorization_once :
      RevisionExecutionAuthorization → Exec Repository (Unit {0})
  unfolding write_once_or_exact
  create_authorization_once a = do
    guards (
        not (is_pending a.status) raises value_error "New Revision authorization must be pending"
        ∷ [])
    write_once_or_exact (path_of a) (authorization a)
        (value_error "Revision authorization identity conflict")

  -- `load_authorization`
  unfoldable pub load_authorization :
      LayerId → String → String → Exec Repository RevisionExecutionAuthorization
  unfolding read_authorization
  load_authorization layer workflow request =
      read_authorization (authorization_path x.sha256 layer workflow request)

  abbrev pub consumed_with :
      RevisionExecutionAuthorization
      → DateTime
      → List String
      → List String
      → RevisionExecutionAuthorization
  consumed_with a time provider retrieval = record a {
    status = consumed;
    consumed_at = some time;
    provider_reservation_ids = provider;
    retrieval_reservation_ids = retrieval;
  }

  -- What follows the claim: an authorization that is consumed already must agree, and a pending
  -- one is replaced by its consumed form.
  unfoldable pub finish_consumption :
      RevisionExecutionAuthorization
      → RevisionExecutionAuthorization
      → List String
      → List String
      → DateTime
      → Exec Repository RevisionExecutionAuthorization
  unfolding replace_file validate_authorization
  finish_consumption a current provider retrieval time =
      if is_pending current.status
      then (do
        updated ← lift (validate_authorization (consumed_with current time provider retrieval))
        replace_file (path_of a) (authorization updated)
        pure updated)
      else (do guards (spent_guards current provider retrieval); pure current)

  -- `consume_authorization`, at the time `now`.
  unfoldable pub consume_authorization :
      RevisionExecutionAuthorization
      → List String
      → List String
      → DateTime
      → Exec Repository RevisionExecutionAuthorization
  unfolding read_authorization write_claim_once read_claimed_at finish_consumption
  consume_authorization a provider retrieval now = do
    current ← read_authorization (path_of a)
    guards (
        not (same_identity current a) raises value_error "Revision authorization identity changed"
        ∷ [])
    write_claim_once x.claim_key (claim_path_of a) (new_claim a provider retrieval now)
        claim_conflict
    time ← read_claimed_at (claim_path_of a)
    finish_consumption a current provider retrieval time

  -- `create_audit_event_once`
  unfoldable pub create_audit_event_once : RevisionAuditEvent → Exec Repository (Unit {0})
  unfolding write_once_or_exact
  create_audit_event_once e =
      write_once_or_exact (audit_path x.sha256 e.workflow_id e.revision_request_id e.audit_event_id)
        (event e) (value_error "Revision audit event identity conflict")

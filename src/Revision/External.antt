-- ===== src/Revision/External.antt =====
-- What the revision code takes from other packages and from configuration: the UUID parser, the
-- digests of hashlib over canonical JSON, and the agent registry of config/agents.json.
use prdcp.Shared.{String, Bool, List}
use prdcp.Revision.Request.{RequestContent}
use prdcp.Revision.Result.{ResultContent}

-- What a claim on an authorization says, but for its time.
pub record ClaimContent : Type 0 where
  pub authorization_id : String
  pub provider_reservation_ids : List String
  pub retrieval_reservation_ids : List String

pub record External : Type 0 where
  pub is_uuid : String → Bool
  -- `revision_idempotency_key` of a dumped request and of a dumped result: `canonical_sha256` of
  -- the payload without its key and its time.
  pub request_key : RequestContent → String
  pub result_key : ResultContent → String
  -- `hashlib.sha256(value.encode("utf-8")).hexdigest()`
  pub sha256 : String → String
  pub registry : List String
  -- `canonical_sha256` of a claim on an authorization without its time.
  pub claim_key : ClaimContent → String

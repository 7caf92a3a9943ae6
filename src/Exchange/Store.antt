-- ===== src/Exchange/Store.antt =====
-- The state of `RevisionExchangeRepository` (storage/revision_exchange_repository.py): the JSON
-- files that it reads and writes, by what they hold, and the budget directories.
use prdcp.Shared.{
  String, Bool, false, none, some, List, ◌==◌, text_eq, Eq, discrete_eq, if◌then◌else◌,
  String_discrete, ℕ_discrete, FilePath, read, write, path_eq, ok, raise, Error,
}
use prdcp.Revision.Layers.{DateTime}
use prdcp.Revision.Control.{RevisionExecutionAuthorization, RevisionAuditEvent}
use prdcp.Revision.External.{ClaimContent}
use prdcp.Pmp.{PmpMessage}
use prdcp.Budget.{Slot}
use prdcp.Exchange.Exec.{Exec}

pub record AuthorizationClaim : Type 0 where
  pub claim : ClaimContent
  pub claimed_at : DateTime

pub data Content : Type 0 where
  message : PmpMessage → Content
  authorization : RevisionExecutionAuthorization → Content
  claimed : AuthorizationClaim → Content
  event : RevisionAuditEvent → Content

unfoldable pub Content-discrete : Discrete Content
unfolding String_discrete ℕ_discrete
Content-discrete = hlevel (String_discrete, ℕ_discrete)

instance abbrev pub content_eq : Eq Content
content_eq = discrete_eq Content-discrete

unfoldable pub strings-discrete : Discrete (List String)
unfolding String_discrete
strings-discrete = hlevel String_discrete

instance abbrev pub strings_eq : Eq (List String)
strings_eq = discrete_eq strings-discrete

pub record Repository : Type 0 where
  pub files : List (FilePath × Content)
  pub budget : List (FilePath × List Slot)

-- `_write_json_once_or_exact` with no ignored key: a file is created once, and creating it again
-- is accepted only with the same content.
unfoldable pub write_once_or_exact : FilePath → Content → Error → Exec Repository (Unit {0})
unfolding read write
write_once_or_exact path payload conflict s = elim (read s.files path) [
  | none ↦ (ok tt, record s { files = write s.files path payload })
  | some existing ↦ if existing == payload then (ok tt, s) else (raise conflict, s)
]

-- The same for a claim, where the time is ignored: the digests of the rest are compared. A file
-- with anything else has another digest.
abbrev pub same_claim : (ClaimContent → String) → AuthorizationClaim → Content → Bool
same_claim key c (claimed d) = key d.claim == key c.claim
same_claim key c (message m) = false
same_claim key c (authorization a) = false
same_claim key c (event e) = false

unfoldable pub write_claim_once :
    (ClaimContent → String) → FilePath → AuthorizationClaim → Error → Exec Repository (Unit {0})
unfolding read write
write_claim_once key path c conflict s = elim (read s.files path) [
  | none ↦ (ok tt, record s { files = write s.files path (claimed c) })
  | some existing ↦ if same_claim key c existing then (ok tt, s) else (raise conflict, s)
]

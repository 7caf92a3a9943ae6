-- ===== src/Examples/Storage.antt =====
-- The exchange repository on the samples.
use prdcp.Shared.{
  ◌≡◌, ◌≢◌, refl, some, [], ◌∷◌, ok, raise, Error, read, ap, String, List, Outcome, FilePath,
  eq_iff, arith,
}
use prdcp.Revision.Layers.{deliberation, aware}
use prdcp.Pmp.{MessageType}
use prdcp.Revision.Layers.{consumed}
use prdcp.Revision.Control.{RevisionExecutionAuthorization}
use prdcp.Revision.External.{External}
use prdcp.Exchange.Exec.{Refuses}
use prdcp.Exchange.Authorizations.{
  create_authorization_once, consume_authorization, path_of, claim_path_of,
}
use prdcp.Exchange.Consumption.{consume_authorization_once, consume_authorization-claimed}
use prdcp.Exchange.Store.{authorization, claimed, AuthorizationClaim, message, Repository}
use prdcp.Exchange.Messages.{create_request_once, load_request}
use prdcp.Budget.{slots_of}
use prdcp.Budget.Growth.{Grows}
use prdcp.Exchange.Requests.{
  file_of, load_request-create_request_once, KeepsAll, create_request_once-KeepsAll,
  create_request_once-conflict,
}
use prdcp.Examples.Samples.{
  grant, the_model, x, policy, revision_request, request_message, result_message, empty_repository,
}
use prdcp.Examples.Requests.{request_message_accepted, message_valid}

-- The outbox with the request in it.
abbrev stored : Repository
stored = (create_request_once x request_message (some policy) (aware 15) empty_repository).1

-- An outbox with another message in the place of the request.
abbrev occupied : Repository
occupied = record { files = (file_of x revision_request, message result_message) ∷ []; budget = [] }

stored_once :
    (create_request_once x request_message (some policy) (aware 15) empty_repository).0 ≡ ok tt
unfolding the_model
stored_once = refl

there_already : read occupied.files (file_of x revision_request) ≡ some (message result_message)
unfolding the_model
there_already = refl

messages_differ : result_message ≢ request_message
messages_differ h =
    let kinds : MessageType.revision_result ≡ MessageType.revision_request =
      ap (λ m. m.message_type) h in
    cc

load_request-create_request_once_example :
    load_request x deliberation "workflow_1" "request_1" stored ≡ (ok request_message, stored)
load_request-create_request_once_example =
    load_request-create_request_once x request_message (some policy) (aware 15) empty_repository
      revision_request request_message_accepted message_valid stored_once

-- What is there after the call.
abbrev left_over : Repository
left_over = (create_request_once x request_message (some policy) (aware 15) occupied).1

create_request_once-KeepsAll_example : KeepsAll occupied left_over
create_request_once-KeepsAll_example =
    create_request_once-KeepsAll x request_message (some policy) (aware 15) occupied
      revision_request request_message_accepted

create_request_once-conflict_example :
    (e : Error) × ((create_request_once x request_message (some policy) (aware 15) occupied).0
      ≡ raise e)
    × (left_over.files ≡ occupied.files)
    × ((d : FilePath) → Grows (slots_of occupied.budget d) (slots_of left_over.budget d))
create_request_once-conflict_example =
    create_request_once-conflict x request_message (some policy) (aware 15) occupied
      revision_request request_message_accepted result_message messages_differ there_already

abbrev granted : Repository
granted = (create_authorization_once x grant empty_repository).1

abbrev consumption : List String → Repository → Outcome RevisionExecutionAuthorization × Repository
consumption reservations = consume_authorization x grant reservations [] (aware 20)

abbrev spent : RevisionExecutionAuthorization
spent = record grant {
  status = consumed;
  consumed_at = some (aware 20);
  provider_reservation_ids = "reservation_1" ∷ [];
}

abbrev one_reservation : List String
one_reservation = "reservation_1" ∷ []

abbrev no_reservation : List String
no_reservation = []

consumed_first : (consumption ("reservation_1" ∷ []) granted).0 ≡ ok spent
unfolding the_model
consumed_first = refl

consumed_twice :
    (consumption ("reservation_1" ∷ []) (consumption ("reservation_1" ∷ []) granted).1).0 ≡ ok spent
unfolding the_model
consumed_twice = refl

consume_authorization_once_example :
    (one_reservation ≡ one_reservation) × (no_reservation ≡ no_reservation) × (spent ≡ spent)
consume_authorization_once_example =
    consume_authorization_once x grant one_reservation no_reservation one_reservation no_reservation
      (aware 20) (aware 20) granted spent spent consumed_first consumed_twice

-- Digests that tell one reservation from two.
abbrev y : External
y = record x {
  claim_key = λ c. elim (c.provider_reservation_ids) [
    | [] ↦ "none"
    | id ∷ ids ↦ elim ids [ [] ↦ "one" | other ∷ rest ↦ "more" ]
  ];
}

-- Two reservations exceed the one call that is allowed: the consumption raises, but its claim is
-- there.
abbrev refused : Outcome RevisionExecutionAuthorization × Repository
refused =
    consume_authorization y grant ("reservation_1" ∷ "reservation_2" ∷ []) [] (aware 20) granted

abbrev left_claim : AuthorizationClaim
left_claim = record {
  claim = record {
    authorization_id = "authorization_1";
    provider_reservation_ids = "reservation_1" ∷ "reservation_2" ∷ [];
    retrieval_reservation_ids = [];
  };
  claimed_at = aware 20;
}

claim_is_left : read refused.1.files (claim_path_of y grant) ≡ some (claimed left_claim)
unfolding the_model
claim_is_left = refl

still_pending : read refused.1.files (path_of y grant) ≡ some (authorization grant)
unfolding the_model
still_pending = refl

keys_differ : ◌≢◌ {A = String} "more" "one"
keys_differ = ground (arith, eq_iff "more" "one")

consume_authorization-claimed_example :
    Refuses (consume_authorization y grant ("reservation_1" ∷ []) [] (aware 30) refused.1) refused.1
consume_authorization-claimed_example =
    consume_authorization-claimed y grant ("reservation_1" ∷ []) [] (aware 30) refused.1 left_claim
      claim_is_left keys_differ

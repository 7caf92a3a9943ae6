-- ===== src/Exchange/Consumption.antt =====
-- An authorization is consumed once: the first reservations that are claimed decide.
use prdcp.Shared.{
  String, ◌≡◌, ◌≢◌, sym, ◌∙◌, ap, some, List, [], ◌∷◌, arith, not, text_eq, eq_iff, read, ok, raise,
  check, value_error, ◌raises◌,
}
use prdcp.Revision.Layers.{DateTime}
use prdcp.Revision.Control.{RevisionExecutionAuthorization}
use prdcp.Revision.External.{External}
use prdcp.Exchange.Exec.{Refuses, resume-Refuses_at}
use prdcp.Exchange.Store.{claimed, AuthorizationClaim, Repository, strings_eq, write_claim_once}
use prdcp.Exchange.Authorizations.{
  read_authorization, new_claim, claim_conflict, same_identity, path_of, claim_path_of,
  consume_authorization,
}
use prdcp.Exchange.Spent.{
  consume_authorization-IsSpent, consume_authorization-spent, read_authorization-state,
}

module _ (x : External) (a : RevisionExecutionAuthorization) where
  -- When a consumption of an authorization has succeeded, a later one succeeds only with the same
  -- reservations, and returns the same consumed authorization, whatever the time.
  pub consume_authorization_once :
      (provider retrieval provider' retrieval' : List String) (now later : DateTime)
      (s : Repository) (b c : RevisionExecutionAuthorization)
      → (consume_authorization x a provider retrieval now s).0 ≡ ok b
      → (consume_authorization x a provider' retrieval' later
          (consume_authorization x a provider retrieval now s).1).0
        ≡ ok c
      → (provider' ≡ provider) × (retrieval' ≡ retrieval) × (c ≡ b)
  consume_authorization_once provider retrieval provider' retrieval' now later s b c h k =
      let t = (consume_authorization x a provider retrieval now s).1 in
      let (there, spent, ps, rs) = consume_authorization-IsSpent x a provider retrieval now s b h in
      let (there', spent', ps', rs') =
        consume_authorization-IsSpent x a provider' retrieval' later t c k in
      let same : b ≡ c =
        consume_authorization-spent x a provider' retrieval' later t b c there spent k in
      (
        sym ps' ∙ sym (ap (λ y. y.provider_reservation_ids) same) ∙ ps,
        sym rs' ∙ sym (ap (λ y. y.retrieval_reservation_ids) same) ∙ rs,
        sym same,
      )

  claim-refused :
      (new old : AuthorizationClaim) (s : Repository)
      → read s.files (claim_path_of x a) ≡ some (claimed old)
      → x.claim_key old.claim ≢ x.claim_key new.claim
      → write_claim_once x.claim_key (claim_path_of x a) new claim_conflict s
        ≡ (raise claim_conflict, s)
  unfolding write_claim_once
  claim-refused new old s there ne =
      rw (there, write_claim_once)
        (ground (arith, eq_iff (x.claim_key old.claim) (x.claim_key new.claim)))

  -- While the claim file of an authorization holds a claim with another digest than the one for the
  -- given reservations, consuming it with them raises and leaves the files as they are, whatever
  -- the authorization's own status.
  pub consume_authorization-claimed :
      (provider retrieval : List String) (now : DateTime) (s : Repository)
      (old : AuthorizationClaim)
      → read s.files (claim_path_of x a) ≡ some (claimed old)
      → x.claim_key old.claim ≢ x.claim_key (new_claim a provider retrieval now).claim
      → Refuses (consume_authorization x a provider retrieval now s) s
  unfolding consume_authorization
  consume_authorization-claimed provider retrieval now s old there ne =
      let path = path_of x a in
      let s0 = (read_authorization path s).1 in
      let back : s0 ≡ s = read_authorization-state path s in
      let new = new_claim a provider retrieval now in
      let refused : write_claim_once x.claim_key (claim_path_of x a) new claim_conflict s0
          ≡ (raise claim_conflict, s0) =
        claim-refused new old s0 (ap (λ t. read t.files (claim_path_of x a)) back ∙ there) ne in
      resume-Refuses_at (read_authorization path s).0 _ s s0 back (λ current r.
        resume-Refuses_at
          (check (
            not (same_identity current a)
              raises value_error "Revision authorization identity changed"
            ∷ []))
          _ s s0 back
          (λ u g. (claim_conflict, rw refused (ap (λ t. (raise claim_conflict, t)) back))))

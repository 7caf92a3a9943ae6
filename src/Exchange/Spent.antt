-- ===== src/Exchange/Spent.antt =====
-- What a consumption of an authorization leaves behind, and what it reads.
use mathlib.Core.Path.{subst}
use prdcp.Shared.{
  String, ◌≡◌, ◌≢◌, refl, sym, ◌∙◌, ap, some, List, [], ◌∷◌, ◌++◌, arith, false, not, text_eq,
  append, codes, codes-append, length, length-append, json, FilePath, read, write, read-write_self,
  read-write_ne, Outcome, ok, check, check_iff, Bool-cases, Option-cases, inl, inr, value_error,
  ◌raises◌, Component, Error,
}
use prdcp.Revision.Layers.{DateTime, RevisionAuthorizationStatus, pending, consumed}
use prdcp.Revision.Control.{RevisionExecutionAuthorization, is_pending, validate_authorization}
use prdcp.Revision.Control.Spec.{validate_authorization_iff}
use prdcp.Revision.External.{External, ClaimContent}
use prdcp.Exchange.Exec.{resume, resume-holds, guards-ok, ◌>>◌, pure}
use prdcp.Exchange.Store.{
  authorization, claimed, message, event, AuthorizationClaim, Repository, strings_eq,
  write_claim_once, same_claim,
}
use prdcp.Exchange.Authorizations.{
  read_authorization, read_claimed_at, replace_file, spent_guards, new_claim, claim_conflict,
  same_identity, path_of, claim_path_of, consumed_with, finish_consumption, consume_authorization,
}

longer-ne : (s : String) → append s ".consume" ≢ s
longer-ne s e =
    let l : length (codes s ++ codes ".consume") ≡ length (codes s) =
      ap length (sym (codes-append s ".consume")) ∙ ap (λ t. length (codes t)) e in
    omega (arith, l, length-append (codes s) (codes ".consume"))

leaf-inj :
    {p q r : Component} {s t : String}
    → (p ∷ q ∷ r ∷ json s ∷ []) ≡ (p ∷ q ∷ r ∷ json t ∷ [])
    → s ≡ t
leaf-inj e = cc

read_authorization-ok :
    (path : FilePath) (s : Repository) (b : RevisionExecutionAuthorization)
    → (read_authorization path s).0 ≡ ok b
    → read s.files path ≡ some (authorization b)
unfolding read_authorization
read_authorization-ok path s b h = elim (Option-cases (read s.files path)) [
  | inl e ↦ let h' = rw (e, read_authorization) at h in cc
  | inr (authorization c, e) ↦
      let v = rw (e, read_authorization) at h in
      let (g, same) = (validate_authorization_iff c b).0 v in
      e ∙ ap (λ y. some (authorization y)) same
  | inr (message m, e) ↦ let h' = rw (e, read_authorization) at h in cc
  | inr (claimed c, e) ↦ let h' = rw (e, read_authorization) at h in cc
  | inr (event v, e) ↦ let h' = rw (e, read_authorization) at h in cc
]

pub read_authorization-state :
    (path : FilePath) (s : Repository) → (read_authorization path s).1 ≡ s
unfolding read_authorization
read_authorization-state path s = elim (Option-cases (read s.files path)) [
  | inl e ↦ rw (e, read_authorization) refl
  | inr (c, e) ↦ rw (e, read_authorization) refl
]

-- A claim changes no other file.
claim-other :
    (key : ClaimContent → String) (path other : FilePath) (c : AuthorizationClaim)
    (conflict : Error) (s : Repository)
    → path ≢ other
    → read (write_claim_once key path c conflict s).1.files other ≡ read s.files other
unfolding write_claim_once
claim-other key path other c conflict s ne = elim (Option-cases (read s.files path)) [
  | inl e ↦ rw (e, write_claim_once) (read-write_ne s.files path other (claimed c) ne)
  | inr (d, e) ↦ elim (Bool-cases (same_claim key c d)) [
    | inl y ↦ rw (e, write_claim_once) (rw y refl)
    | inr n ↦ rw (e, write_claim_once) (rw n refl)
  ]
]

pub authorization-inj :
    {b c : RevisionExecutionAuthorization} → some (authorization b) ≡ some (authorization c) → b ≡ c
authorization-inj h = cc

not-pending : (u : RevisionAuthorizationStatus) → is_pending u ≡ false → u ≡ consumed
not-pending pending h = cc
not-pending consumed h = refl

spent_guards-same :
    (c : RevisionExecutionAuthorization) (provider retrieval : List String)
    → check (spent_guards c provider retrieval) ≡ ok tt
    → (c.provider_reservation_ids ≡ provider) × (c.retrieval_reservation_ids ≡ retrieval)
spent_guards-same c provider retrieval g =
    let (u, v) = (check_iff (spent_guards c provider retrieval)).0 g in
    (
      ground (arith, strings_eq.same_iff c.provider_reservation_ids provider),
      ground (arith, strings_eq.same_iff c.retrieval_reservation_ids retrieval),
    )

module _ (x : External) (a : RevisionExecutionAuthorization)
    (provider retrieval : List String) where
  claim-ne : claim_path_of x a ≢ path_of x a
  claim-ne e = longer-ne _ (leaf-inj e)

  -- The file of the authorization holds its consumed form, with these reservations.
  abbrev pub IsSpent : RevisionExecutionAuthorization → Repository → Type 0
  IsSpent b t =
      (read t.files (path_of x a) ≡ some (authorization b))
      × (b.status ≡ consumed)
      × (b.provider_reservation_ids ≡ provider)
      × (b.retrieval_reservation_ids ≡ retrieval)

  finish-IsSpent :
      (current b : RevisionExecutionAuthorization) (time : DateTime) (t : Repository)
      → read t.files (path_of x a) ≡ some (authorization current)
      → (finish_consumption x a current provider retrieval time t).0 ≡ ok b
      → IsSpent b (finish_consumption x a current provider retrieval time t).1
  unfolding finish_consumption replace_file
  finish-IsSpent current b time t there h = elim (Bool-cases (is_pending current.status)) [
    | inl y ↦
        let Q = λ (u : Outcome RevisionExecutionAuthorization × Repository). IsSpent b u.1 in
        let spent = consumed_with x current time provider retrieval in
        let start : finish_consumption x a current provider retrieval time t
            ≡ resume (validate_authorization spent)
                (λ u. replace_file (path_of x a) (authorization u) >> pure u) t =
          rw (y, finish_consumption) refl in
        subst Q (sym start) (
          resume-holds Q (validate_authorization spent) _ t b
            (λ u v d.
              let same = ((validate_authorization_iff spent u).0 v).1 in
              let last : u ≡ b = cc in
              subst
                (λ c.
                  IsSpent c (record t { files = write t.files (path_of x a) (authorization u) }))
                last
                (subst
                  (λ c.
                    IsSpent c (record t { files = write t.files (path_of x a) (authorization c) }))
                  {x = spent} same
                  (read-write_self t.files (path_of x a) (authorization spent), refl, refl, refl)))
            (rw start at h))
    | inr n ↦
        let begin : finish_consumption x a current provider retrieval time t
            ≡ resume (check (spent_guards current provider retrieval)) (λ u. pure current) t =
          rw (n, finish_consumption) refl in
        let (g, d) = guards-ok (spent_guards current provider retrieval) _ t b (rw begin at h) in
        let same : current ≡ b = cc in
        let agree = spent_guards-same current provider retrieval g in
        subst (λ (u : Outcome RevisionExecutionAuthorization × Repository). IsSpent b u.1)
          (sym begin)
          (rw g
            (subst (λ c. IsSpent c t) same (there, not-pending current.status n, agree.0, agree.1)))
  ]

  -- What a consumption that succeeds leaves behind.
  pub consume_authorization-IsSpent :
      (now : DateTime) (s : Repository) (b : RevisionExecutionAuthorization)
      → (consume_authorization x a provider retrieval now s).0 ≡ ok b
      → IsSpent b (consume_authorization x a provider retrieval now s).1
  unfolding consume_authorization read_claimed_at
  consume_authorization-IsSpent now s b h =
      let Q = λ (u : Outcome RevisionExecutionAuthorization × Repository). IsSpent b u.1 in
      let path = path_of x a in
      let claim = new_claim a provider retrieval now in
      let s0 = (read_authorization path s).1 in
      let s1 = (write_claim_once x.claim_key (claim_path_of x a) claim claim_conflict s0).1 in
      resume-holds Q (read_authorization path s).0 _ s0 b
        (λ current r h1.
          resume-holds Q
            (check (
              not (same_identity current a)
                raises value_error "Revision authorization identity changed"
              ∷ []))
            _ s0 b
            (λ u g h2.
              resume-holds Q
                (write_claim_once x.claim_key (claim_path_of x a) claim claim_conflict s0).0 _ s1 b
                (λ v w h3.
                  resume-holds Q (read_claimed_at (claim_path_of x a) s1).0 _ s1 b
                    (λ time c h4.
                      finish-IsSpent current b time s1
                        (claim-other x.claim_key (claim_path_of x a) path claim claim_conflict s0
                            claim-ne
                          ∙ ap (λ t. read t.files path) (read_authorization-state path s)
                          ∙ read_authorization-ok path s current r)
                        h4)
                    h3)
                h2)
            h1)
        h

  finish-spent :
      (current b : RevisionExecutionAuthorization) (time : DateTime) (t : Repository)
      → current.status ≡ consumed
      → (finish_consumption x a current provider retrieval time t).0 ≡ ok b
      → current ≡ b
  unfolding finish_consumption
  finish-spent current b time t c h =
      let n : is_pending current.status ≡ false = ap is_pending c in
      let begin : finish_consumption x a current provider retrieval time t
          ≡ resume (check (spent_guards current provider retrieval)) (λ u. pure current) t =
        rw (n, finish_consumption) refl in
      let (g, d) = guards-ok (spent_guards current provider retrieval) _ t b (rw begin at h) in cc

  -- Consuming what is consumed already can only return it.
  pub consume_authorization-spent :
      (now : DateTime) (s : Repository) (old b : RevisionExecutionAuthorization)
      → read s.files (path_of x a) ≡ some (authorization old)
      → old.status ≡ consumed
      → (consume_authorization x a provider retrieval now s).0 ≡ ok b
      → old ≡ b
  unfolding consume_authorization read_claimed_at
  consume_authorization-spent now s old b there spent h =
      let Q = λ (u : Outcome RevisionExecutionAuthorization × Repository). old ≡ b in
      let path = path_of x a in
      let claim = new_claim a provider retrieval now in
      let s0 = (read_authorization path s).1 in
      let s1 = (write_claim_once x.claim_key (claim_path_of x a) claim claim_conflict s0).1 in
      resume-holds Q (read_authorization path s).0 _ s0 b
        (λ current r h1.
          resume-holds Q
            (check (
              not (same_identity current a)
                raises value_error "Revision authorization identity changed"
              ∷ []))
            _ s0 b
            (λ u g h2.
              resume-holds Q
                (write_claim_once x.claim_key (claim_path_of x a) claim claim_conflict s0).0 _ s1 b
                (λ v w h3.
                  resume-holds Q (read_claimed_at (claim_path_of x a) s1).0 _ s1 b
                    (λ time c h4.
                      let same : old ≡ current =
                        authorization-inj (sym there ∙ read_authorization-ok path s current r) in
                      same
                      ∙ finish-spent current b time s1 (sym (ap (λ y. y.status) same) ∙ spent) h4)
                    h3)
                h2)
            h1)
        h

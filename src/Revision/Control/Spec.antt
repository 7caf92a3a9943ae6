-- ===== src/Revision/Control/Spec.antt =====
-- What the validators of the control state and of an execution authorization ensure, stated without
-- the code's tests.
use prdcp.Shared.{
  ℕ, String, ◌≡◌, ◌≢◌, refl, ◌↔◌, ◌≤◌, ◌<◌, false, ◌&&◌, not, Option, none, some, List, [], ◌∷◌,
  arith, ◌==◌, nat_eq, text_eq, is_empty, length, All, Member, NoRepeat, disjoint, disjoint_iff, ok,
  check-ok_iff, Passes, text-Passes, unique-Passes, ltb-Passes, not-Passes,
}
use prdcp.Revision.Layers.{
  RevisionControlPhase, idle, RevisionAuthorizationStatus, pending, consumed, DateTime,
}
use prdcp.Revision.Request.{is_none}
use prdcp.Revision.Control.{
  RevisionControlState, RevisionExecutionAuthorization, is_idle, is_pending, control_guards,
  validate_control, authorization_guards, validate_authorization,
}

pub record IsCoherent (c : RevisionControlState) : Type 0 where
  pub pending : NoRepeat c.pending_request_ids
  pub consumed : NoRepeat c.consumed_request_ids
  pub results : NoRepeat c.consumed_result_ids
  pub events : NoRepeat c.audit_event_ids
  pub apart : All (λ r. ¬ Member r c.consumed_request_ids) c.pending_request_ids
  pub started : c.phase ≢ idle → 1 ≤ c.revision_epoch

disjoint-Passes :
    (xs ys : List String) → (not (disjoint xs ys) ≡ false) ↔ All (λ x. ¬ Member x ys) xs
disjoint-Passes xs ys =
    let b = not-Passes (disjoint xs ys) in
    let d = disjoint_iff xs ys in (λ h. d.0 (b.0 h), λ h. b.1 (d.1 h))

started-Passes :
    (n : ℕ) (p : RevisionControlPhase) → ((n == 0 && not (is_idle p)) ≡ false) ↔ (p ≢ idle → 1 ≤ n)
started-Passes n p = ground arith

control_guards_iff : (c : RevisionControlState) → All Passes (control_guards c) ↔ IsCoherent c
unfolding control_guards
control_guards_iff c = (
  λ (g0, (g1, (g2, (g3, (g4, (g5, _)))))). record {
    pending = (unique-Passes c.pending_request_ids).0 g0;
    consumed = (unique-Passes c.consumed_request_ids).0 g1;
    results = (unique-Passes c.consumed_result_ids).0 g2;
    events = (unique-Passes c.audit_event_ids).0 g3;
    apart = (disjoint-Passes c.pending_request_ids c.consumed_request_ids).0 g4;
    started = (started-Passes c.revision_epoch c.phase).0 g5;
  },
  λ v. (
    (unique-Passes c.pending_request_ids).1 v.pending,
    (
      (unique-Passes c.consumed_request_ids).1 v.consumed,
      (
        (unique-Passes c.consumed_result_ids).1 v.results,
        (
          (unique-Passes c.audit_event_ids).1 v.events,
          (
            (disjoint-Passes c.pending_request_ids c.consumed_request_ids).1 v.apart,
            ((started-Passes c.revision_epoch c.phase).1 v.started, tt),
          ),
        ),
      ),
    ),
  ),
)

-- A control state is accepted, unchanged, exactly when no id occurs twice in one of its lists, no
-- request is both pending and consumed, and it is idle or has an epoch.
pub validate_control_iff :
    (c d : RevisionControlState) → (validate_control c ≡ ok d) ↔ (IsCoherent c × (c ≡ d))
unfolding validate_control
validate_control_iff c d =
    let guards = check-ok_iff (control_guards c) c d in
    let spec = control_guards_iff c in
    (λ e. let (g, same) = guards.0 e in (spec.0 g, same), λ (s, same). guards.1 (spec.1 s, same))

-- A pending authorization has been used for nothing.
abbrev pub IsUnused : RevisionExecutionAuthorization → Type 0
IsUnused a =
    (a.consumed_at ≡ none) × (a.provider_reservation_ids ≡ []) × (a.retrieval_reservation_ids ≡ [])

-- A consumed authorization shows a reservation for each kind of call that it allows.
abbrev pub IsUsed : RevisionExecutionAuthorization → Type 0
IsUsed a =
    (a.consumed_at ≢ none)
    × (0 < a.max_provider_calls → a.provider_reservation_ids ≢ [])
    × (0 < a.max_retrieval_calls → a.retrieval_reservation_ids ≢ [])

pub record IsAuthorized (a : RevisionExecutionAuthorization) : Type 0 where
  pub id : a.authorization_id ≢ ""
  pub request : a.revision_request_id ≢ ""
  pub actor : a.actor_id ≢ ""
  pub reason : a.reason ≢ ""
  pub provider_ids : NoRepeat a.provider_reservation_ids
  pub retrieval_ids : NoRepeat a.retrieval_reservation_ids
  pub provider_limit : length a.provider_reservation_ids ≤ a.max_provider_calls
  pub retrieval_limit : length a.retrieval_reservation_ids ≤ a.max_retrieval_calls
  pub unused : a.status ≡ pending → IsUnused a
  pub used : a.status ≡ consumed → IsUsed a

time_unused-Passes :
    (s : RevisionAuthorizationStatus) (c : Option DateTime)
    → ((is_pending s && not (is_none c)) ≡ false) ↔ (s ≡ pending → c ≡ none)
time_unused-Passes pending none = (λ h e. refl, λ h. refl)
time_unused-Passes pending (some t) = (λ h e. cc, λ h. cc (h refl))
time_unused-Passes consumed c = (λ h e. cc, λ h. refl)

ids_unused-Passes :
    (s : RevisionAuthorizationStatus) (ps rs : List String)
    → ((is_pending s && not (is_empty ps && is_empty rs)) ≡ false)
      ↔ (s ≡ pending → (ps ≡ []) × (rs ≡ []))
ids_unused-Passes pending [] [] = (λ h e. (refl, refl), λ h. refl)
ids_unused-Passes pending [] (r ∷ rs) = (λ h e. cc, λ h. cc (h refl).1)
ids_unused-Passes pending (p ∷ ps) rs = (λ h e. cc, λ h. cc (h refl).0)
ids_unused-Passes consumed ps rs = (λ h e. cc, λ h. refl)

time_used-Passes :
    (s : RevisionAuthorizationStatus) (c : Option DateTime)
    → ((not (is_pending s) && is_none c) ≡ false) ↔ (s ≡ consumed → c ≢ none)
time_used-Passes consumed none = (λ h e. cc, λ h. absurd (h refl refl))
time_used-Passes consumed (some t) = (λ h e f. cc, λ h. refl)
time_used-Passes pending c = (λ h e. cc, λ h. refl)

ids_used-Passes :
    (s : RevisionAuthorizationStatus) (n : ℕ) (ids : List String)
    → ((not (is_pending s) && (not (n == 0) && is_empty ids)) ≡ false)
      ↔ (s ≡ consumed → 0 < n → ids ≢ [])
ids_used-Passes consumed n [] = (λ h e p. ground arith, λ h. ground (arith, h refl))
ids_used-Passes consumed n (i ∷ ids) = (λ h e p q. cc, λ h. ground arith)
ids_used-Passes pending n ids = (λ h e. cc, λ h. refl)

authorization_guards_iff :
    (a : RevisionExecutionAuthorization) → All Passes (authorization_guards a) ↔ IsAuthorized a
unfolding authorization_guards
authorization_guards_iff a =
    let tu = time_unused-Passes a.status a.consumed_at in
    let iu = ids_unused-Passes a.status a.provider_reservation_ids a.retrieval_reservation_ids in
    let t = time_used-Passes a.status a.consumed_at in
    let p = ids_used-Passes a.status a.max_provider_calls a.provider_reservation_ids in
    let r = ids_used-Passes a.status a.max_retrieval_calls a.retrieval_reservation_ids in
    (
      λ (g0, (g1, (g2, (g3, (g4, (g5, (g6, (g7, (g8, (g9, (g10, (g11, (g12, _))))))))))))). record {
        id = (text-Passes a.authorization_id).0 g0;
        request = (text-Passes a.revision_request_id).0 g1;
        actor = (text-Passes a.actor_id).0 g2;
        reason = (text-Passes a.reason).0 g3;
        provider_ids = (unique-Passes a.provider_reservation_ids).0 g4;
        retrieval_ids = (unique-Passes a.retrieval_reservation_ids).0 g5;
        provider_limit = (ltb-Passes a.max_provider_calls (length a.provider_reservation_ids)).0 g6;
        retrieval_limit =
            (ltb-Passes a.max_retrieval_calls (length a.retrieval_reservation_ids)).0 g7;
        unused = λ e. (tu.0 g8 e, (iu.0 g9 e).0, (iu.0 g9 e).1);
        used = λ e. (t.0 g10 e, p.0 g11 e, r.0 g12 e);
      },
      λ v. (
        (text-Passes a.authorization_id).1 v.id,
        (
          (text-Passes a.revision_request_id).1 v.request,
          (
            (text-Passes a.actor_id).1 v.actor,
            (
              (text-Passes a.reason).1 v.reason,
              (
                (unique-Passes a.provider_reservation_ids).1 v.provider_ids,
                (
                  (unique-Passes a.retrieval_reservation_ids).1 v.retrieval_ids,
                  (
                    (ltb-Passes a.max_provider_calls (length a.provider_reservation_ids)).1
                        v.provider_limit,
                    (
                      (ltb-Passes a.max_retrieval_calls (length a.retrieval_reservation_ids)).1
                          v.retrieval_limit,
                      (
                        tu.1 (λ e. (v.unused e).0),
                        (
                          iu.1 (λ e. ((v.unused e).1, (v.unused e).2)),
                          (
                            t.1 (λ e. (v.used e).0),
                            (p.1 (λ e. (v.used e).1), (r.1 (λ e. (v.used e).2), tt)),
                          ),
                        ),
                      ),
                    ),
                  ),
                ),
              ),
            ),
          ),
        ),
      ),
    )

-- An authorization is accepted, unchanged, exactly when it names who allowed what, claims no more
-- distinct reservations than it allows, and its status agrees with its time and reservations.
pub validate_authorization_iff :
    (a b : RevisionExecutionAuthorization)
    → (validate_authorization a ≡ ok b) ↔ (IsAuthorized a × (a ≡ b))
unfolding validate_authorization
validate_authorization_iff a b =
    let guards = check-ok_iff (authorization_guards a) a b in
    let spec = authorization_guards_iff a in
    (λ e. let (g, same) = guards.0 e in (spec.0 g, same), λ (s, same). guards.1 (spec.1 s, same))

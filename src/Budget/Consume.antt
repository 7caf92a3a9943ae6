-- ===== src/Budget/Consume.antt =====
-- What `consume` promises: a ledger stays one, a request keeps its slot, other slots are never
-- touched, and new requests are served exactly while the limit is not reached.
use mathlib.Core.List.{append-nil}
use prdcp.Shared.{
  ℕ, ◌<◌, ◌≡◌, ◌≢◌, refl, sym, ◌∙◌, ap, ◌↔◌, ◌⊎◌, inl, inr, List, [], ◌∷◌, ◌++◌, arith, text_eq,
  nat_eq, length, Member, All-Member, Member-append_right, Outcome, ok,
}
use prdcp.Revision.Control.{RevisionBudgetConsumption}
use prdcp.Budget.{Slot, holder_id, Claim, new_record, consume_slot}
use prdcp.Budget.Ledger.{IsLedger, created}
use prdcp.Budget.Lookup.{for_request-Member}
use prdcp.Budget.Outcomes.{
  Outcomes, kept, granted, unnamed, refused, Consumed-IsLedger, consume_slot-known,
  consume_slot-Outcomes,
}

-- A call of `consume` on a ledger, whatever its outcome, leaves a ledger: consecutive numbers, each
-- record with the number of its file, and no request with two slots.
pub consume_slot-IsLedger :
    (limit : ℕ) (c : Claim) (ss : List Slot) → IsLedger ss → IsLedger (consume_slot limit c ss).1
consume_slot-IsLedger limit c ss ledger =
    go (consume_slot limit c ss) (consume_slot-Outcomes limit c ss ledger)
  where
    go : (o : Outcome RevisionBudgetConsumption × List Slot) → Outcomes limit c ss o → IsLedger o.1
    go o (kept s m e) = ledger
    go o (granted u absent lt n e) = Consumed-IsLedger c ss _ _ (created n e absent) ledger
    go o (unnamed u absent) = ledger
    go o (refused message absent le) = ledger

-- On a ledger, `consume` succeeds for a request with a name exactly when the request has a slot
-- already or the ledger is below the limit.
pub consume_slot-succeeds_iff :
    (limit : ℕ) (c : Claim) (ss : List Slot)
    → IsLedger ss
    → c.request ≢ ""
    → ((r : RevisionBudgetConsumption) × ((consume_slot limit c ss).0 ≡ ok r))
      ↔ (((s : Slot) × Member s ss × (holder_id s ≡ c.request)) ⊎ (length ss < limit))
consume_slot-succeeds_iff limit c ss ledger named =
    go (consume_slot limit c ss) (consume_slot-Outcomes limit c ss ledger)
  where
    go :
        (o : Outcome RevisionBudgetConsumption × List Slot)
        → Outcomes limit c ss o
        → ((r : RevisionBudgetConsumption) × (o.0 ≡ ok r))
          ↔ (((s : Slot) × Member s ss × (holder_id s ≡ c.request)) ⊎ (length ss < limit))
    go o (kept s m e) = (λ h. inl (s, m, e), λ h. (s.holder, refl))
    go o (granted u absent lt n e) = (λ h. inr lt, λ h. (new_record c n, refl))
    go o (unnamed u absent) = absurd (named u)
    go o (refused message absent le) = (
      λ (r, h). cc,
      λ h. elim h [
        | inl (s, m, e) ↦ absurd (All-Member (λ t. holder_id t ≢ c.request) ss s absent m e)
        | inr lt ↦ absurd (omega arith)
      ],
    )

-- When a call of `consume` on a ledger has returned a record, any later call for the same request,
-- at whatever limit and time, returns the same record and changes nothing.
pub consume_slot_again :
    (limit limit' : ℕ) (c c' : Claim) (ss : List Slot) (r : RevisionBudgetConsumption)
    → IsLedger ss
    → (consume_slot limit c ss).0 ≡ ok r
    → c'.request ≡ c.request
    → consume_slot limit' c' (consume_slot limit c ss).1 ≡ (ok r, (consume_slot limit c ss).1)
consume_slot_again limit limit' c c' ss r ledger done same =
    go (consume_slot limit c ss) (consume_slot-Outcomes limit c ss ledger)
      (consume_slot-IsLedger limit c ss ledger) done
  where
    again :
        (ts : List Slot) (s : Slot)
        → IsLedger ts
        → Member s ts
        → holder_id s ≡ c.request
        → consume_slot limit' c' ts ≡ (ok s.holder, ts)
    again ts s l m e =
        consume_slot-known limit' c' ts s.holder
          (for_request-Member c'.request ts s l.one_each m (e ∙ sym same))

    go :
        (o : Outcome RevisionBudgetConsumption × List Slot)
        → Outcomes limit c ss o
        → IsLedger o.1
        → o.0 ≡ ok r
        → consume_slot limit' c' o.1 ≡ (ok r, o.1)
    go o (kept s m e) l d = again ss s l m e ∙ ap (λ u. (u, ss)) d
    go o (granted u absent lt n e) l d =
        let s : Slot = record { number = n; holder = new_record c n } in
        again (ss ++ s ∷ []) s l (Member-append_right s ss (s ∷ []) (inl refl))
          (unfold new_record in refl)
        ∙ ap (λ u. (u, ss ++ s ∷ [])) d
    go o (unnamed u absent) l d = cc
    go o (refused message absent le) l d = cc

-- What is in a ledger stays as it is, and a call of `consume` adds at most one slot, and that only
-- below the limit.
pub consume_slot_appends :
    (limit : ℕ) (c : Claim) (ss : List Slot)
    → IsLedger ss
    → (added : List Slot) × ((consume_slot limit c ss).1 ≡ ss ++ added)
      × ((added ≡ []) ⊎ ((length added ≡ 1) × (length ss < limit)))
consume_slot_appends limit c ss ledger =
    go (consume_slot limit c ss) (consume_slot-Outcomes limit c ss ledger)
  where
    go :
        (o : Outcome RevisionBudgetConsumption × List Slot)
        → Outcomes limit c ss o
        → (added : List Slot) × (o.1 ≡ ss ++ added)
          × ((added ≡ []) ⊎ ((length added ≡ 1) × (length ss < limit)))
    go o (kept s m e) = ([], sym (append-nil ss), inl refl)
    go o (granted u absent lt n e) = (_, refl, inr (refl, lt))
    go o (unnamed u absent) = ([], sym (append-nil ss), inl refl)
    go o (refused message absent le) = ([], sym (append-nil ss), inl refl)

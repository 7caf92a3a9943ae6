-- ===== src/Budget/Outcomes.antt =====
-- All that a call of `consume` can do to a ledger.
use mathlib.Core.Path.{subst}
use mathlib.Core.List.{map-append}
use prdcp.Shared.{
  ℕ_discrete, String_discrete, ℕ, suc, ◌≤◌, ◌<◌, String, ◌≡◌, ◌≢◌, refl, sym, inl, inr, none, some,
  List, [], ◌∷◌, ◌++◌, map, arith, eq_iff, text_eq, nat_eq, length, Member, Member-map_inv,
  All-Member, NoRepeat-snoc, Outcome, ok, raise, Option-cases, revision_budget_exhausted,
  value_error,
}
use prdcp.Revision.Control.{RevisionBudgetConsumption}
use prdcp.Budget.{Slot, holder_id, for_request, Claim, new_record, try_slots, consume_slot}
use prdcp.Budget.Ledger.{
  Numbered-snoc, IsLedger, Absent, Consumed, found, created, Tried, success, exhausted,
  try_slots-Tried,
}
use prdcp.Budget.Lookup.{for_request-some, for_request-none}

pub Consumed-IsLedger :
    (c : Claim) (ss ss' : List Slot) (r : RevisionBudgetConsumption)
    → Consumed c ss r ss'
    → IsLedger ss
    → IsLedger ss'
Consumed-IsLedger c ss ss' r (found s m e) ledger = ledger
Consumed-IsLedger c ss ss' r (created n e absent) ledger = record {
  numbered = Numbered-snoc ss 1 _ ledger.numbered (omega arith) (unfold new_record in omega arith);
  one_each =
      rw (map-append holder_id ss _)
        (unfold new_record in NoRepeat-snoc (map holder_id ss) c.request ledger.one_each fresh);
}
  where
    fresh : ¬ Member c.request (map holder_id ss)
    fresh m =
        let (s, n, id) = Member-map_inv holder_id ss c.request m in
        All-Member (λ t. holder_id t ≢ c.request) ss s absent n id

-- All that a call of `consume` can do. The state changes only where a slot is created.
pub data Outcomes (limit : ℕ) (c : Claim) (ss : List Slot)
    : Outcome RevisionBudgetConsumption × List Slot → Type 0 where
  kept : (s : Slot) → Member s ss → holder_id s ≡ c.request → Outcomes limit c ss (ok s.holder, ss)
  granted :
      c.request ≢ ""
      → Absent c.request ss
      → length ss < limit
      → (n : ℕ) → n ≡ suc (length ss)
      → Outcomes limit c ss
          (ok (new_record c n), ss ++ record { number = n; holder = new_record c n } ∷ [])
  unnamed :
      c.request ≡ ""
      → Absent c.request ss
      → Outcomes limit c ss (raise (value_error "revision_request_id"), ss)
  refused :
      (message : String)
      → Absent c.request ss
      → limit ≤ length ss
      → Outcomes limit c ss (raise (revision_budget_exhausted message), ss)

Tried-Outcomes :
    (limit : ℕ) (c : Claim) (ss : List Slot) (o : Outcome RevisionBudgetConsumption × List Slot)
    → c.request ≢ ""
    → Absent c.request ss
    → Tried c limit ss o
    → Outcomes limit c ss o
Tried-Outcomes limit c ss o named absent (success r ss' (found s m e) le) = kept s m e
Tried-Outcomes limit c ss o named absent (success r ss' (created n e a) le) =
    granted named absent (unfold new_record in omega arith) n e
Tried-Outcomes limit c ss o named absent (exhausted le) = refused "exhausted" absent le

module _ (limit : ℕ) (c : Claim) (ss : List Slot) where
  pub consume_slot-known :
      (r : RevisionBudgetConsumption)
      → for_request c.request ss ≡ some r
      → consume_slot limit c ss ≡ (ok r, ss)
  unfolding consume_slot
  consume_slot-known r e = rw (e, consume_slot)

  module _ (e : for_request c.request ss ≡ none) where
    consume_slot-disabled :
        limit ≡ 0 → consume_slot limit c ss ≡ (raise (revision_budget_exhausted "disabled"), ss)
    unfolding consume_slot
    consume_slot-disabled z = rw (e, consume_slot) (ground arith)

    consume_slot-unnamed :
        limit ≢ 0
        → c.request ≡ ""
        → consume_slot limit c ss ≡ (raise (value_error "revision_request_id"), ss)
    unfolding consume_slot
    consume_slot-unnamed z u = rw (e, consume_slot) (ground (arith, eq_iff c.request ""))

    consume_slot-tries :
        limit ≢ 0 → c.request ≢ "" → consume_slot limit c ss ≡ try_slots c limit 1 ss
    unfolding consume_slot
    consume_slot-tries z u = rw (e, consume_slot) (ground (arith, eq_iff c.request ""))

-- Every call of `consume` on a ledger has one of the four outcomes.
pub consume_slot-Outcomes :
    (limit : ℕ) (c : Claim) (ss : List Slot)
    → IsLedger ss
    → Outcomes limit c ss (consume_slot limit c ss)
consume_slot-Outcomes limit c ss ledger = elim (Option-cases (for_request c.request ss)) [
  | inr (r, e) ↦
      let (s, m, same, id) = for_request-some c.request ss r e in
      subst (Outcomes limit c ss) (sym (consume_slot-known limit c ss r e))
        (subst (λ u. Outcomes limit c ss (ok u, ss)) same (kept s m id))
  | inl e ↦
      let absent = for_request-none c.request ss e in
      elim (ℕ_discrete limit 0) [
        | yes z ↦
            subst (Outcomes limit c ss) (sym (consume_slot-disabled limit c ss e z))
              (refused "disabled" absent (omega arith))
        | no z ↦ elim (String_discrete c.request "") [
          | yes u ↦
              subst (Outcomes limit c ss) (sym (consume_slot-unnamed limit c ss e z u))
                (unnamed u absent)
          | no u ↦ subst (Outcomes limit c ss) (sym (consume_slot-tries limit c ss e z u)) (
              Tried-Outcomes limit c ss _ u absent (
                try_slots-Tried c limit 1 limit [] ss ss refl (omega arith) (omega arith) tt
                  ledger))
        ]
      ]
]

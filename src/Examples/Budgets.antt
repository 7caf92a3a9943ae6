-- ===== src/Examples/Budgets.antt =====
-- The budget on the samples.
use prdcp.Shared.{
  String, ◌≡◌, ◌≢◌, ◌↔◌, ◌⊎◌, ◌<◌, refl, List, [], ◌++◌, arith, eq_iff, length, Member, ok, raise,
  revision_budget_exhausted,
}
use prdcp.Revision.Control.{RevisionBudgetConsumption}
use prdcp.Budget.{Slot, holder_id, new_record, consume_slot}
use prdcp.Budget.Ledger.{IsLedger}
use prdcp.Budget.Consume.{
  consume_slot-IsLedger, consume_slot-succeeds_iff, consume_slot_again, consume_slot_appends,
}
use prdcp.Examples.Samples.{the_model, claim}

abbrev empty_ledger : List Slot
empty_ledger = []

no_slots : IsLedger empty_ledger
no_slots = record { numbered = tt; one_each = tt }

abbrev first_slot : RevisionBudgetConsumption
first_slot = new_record (claim "request_1") 1

first_granted : (consume_slot 1 (claim "request_1") []).0 ≡ ok first_slot
unfolding the_model
first_granted = refl

second_refused :
    (consume_slot 1 (claim "request_2") (consume_slot 1 (claim "request_1") []).1).0
    ≡ raise (revision_budget_exhausted "exhausted")
unfolding the_model
second_refused = refl

request_is_named : ◌≢◌ {A = String} "request_1" ""
request_is_named = ground (arith, eq_iff "request_1" "")

consume_slot-IsLedger_example : IsLedger (consume_slot 1 (claim "request_1") []).1
consume_slot-IsLedger_example = consume_slot-IsLedger 1 (claim "request_1") [] no_slots

consume_slot-succeeds_iff_example :
    ((r : RevisionBudgetConsumption) × ((consume_slot 1 (claim "request_1") []).0 ≡ ok r))
    ↔ (((s : Slot) × Member s [] × (holder_id s ≡ "request_1")) ⊎ (length empty_ledger < 1))
consume_slot-succeeds_iff_example =
    consume_slot-succeeds_iff 1 (claim "request_1") [] no_slots request_is_named

consume_slot_again_example :
    consume_slot 0 (claim "request_1") (consume_slot 1 (claim "request_1") []).1
    ≡ (ok first_slot, (consume_slot 1 (claim "request_1") []).1)
consume_slot_again_example =
    consume_slot_again 1 0 (claim "request_1") (claim "request_1") [] first_slot no_slots
      first_granted refl

consume_slot_appends_example :
    (added : List Slot) × ((consume_slot 1 (claim "request_1") []).1 ≡ [] ++ added)
    × ((added ≡ []) ⊎ ((length added ≡ 1) × (length empty_ledger < 1)))
consume_slot_appends_example = consume_slot_appends 1 (claim "request_1") [] no_slots

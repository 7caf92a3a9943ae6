-- ===== src/Budget/Growth.antt =====
-- Whatever a call of `RevisionBudgetStore.consume` (storage/revision_exchange_repository.py) answers
-- and whatever is in its directory, no slot file is lost or changed.
use mathlib.Core.List.{append-nil}
use prdcp.Shared.{
  ℕ, zero, suc, ◌≤◌, ◌≡◌, refl, sym, String, List, [], ◌++◌, arith, length, FilePath,
  read-write_self, read-write_ne, path_eq, Bool-cases, inl, inr, ◌==◌, text_eq, nat_eq,
  Option-cases,
}
use prdcp.Revision.Control.{RevisionBudgetPolicy, limit_for}
use prdcp.Budget.{
  Slot, Claim, slot_record, for_request, try_slots, consume_slot, budget_directory, slots_of,
  consume,
}

-- The second directory has the slots of the first one, and at most one more.
abbrev pub Grows : List Slot → List Slot → Type 0
Grows ss ts = (added : List Slot) × (ts ≡ ss ++ added) × (length added ≤ 1)

pub Grows-refl : (ss : List Slot) → Grows ss ss
Grows-refl ss = ([], sym (append-nil ss), omega arith)

try_slots-Grows : (c : Claim) (left n : ℕ) (ss : List Slot) → Grows ss (try_slots c left n ss).1
unfolding try_slots
try_slots-Grows c zero n ss = Grows-refl ss
try_slots-Grows c (suc left) n ss = elim (Option-cases (slot_record n ss)) [
  | inl e ↦ rw (e, try_slots) (_, refl, omega arith)
  | inr (current, e) ↦ elim (Bool-cases (current.revision_request_id == c.request)) [
    | inl y ↦ rw (e, try_slots) (rw y (Grows-refl ss))
    | inr other ↦ rw (e, try_slots) (rw other (try_slots-Grows c left (suc n) ss))
  ]
]

consume_slot-Grows : (limit : ℕ) (c : Claim) (ss : List Slot) → Grows ss (consume_slot limit c ss).1
unfolding consume_slot
consume_slot-Grows limit c ss = elim (Option-cases (for_request c.request ss)) [
  | inr (existing, e) ↦ rw (e, consume_slot) (Grows-refl ss)
  | inl e ↦ elim (Bool-cases (limit == 0)) [
    | inl y ↦ rw (e, consume_slot) (rw y (Grows-refl ss))
    | inr some_slots ↦ elim (Bool-cases (c.request == "")) [
      | inl y ↦ rw (e, consume_slot) (rw (some_slots, y) (Grows-refl ss))
      | inr named ↦ rw (e, consume_slot) (rw (some_slots, named) (try_slots-Grows c limit 1 ss))
    ]
  ]
]

-- Every directory, not only that of the claim.
pub consume-Grows :
    (sha256 : String → String) (policy : RevisionBudgetPolicy) (c : Claim)
    (store : List (FilePath × List Slot)) (d : FilePath)
    → Grows (slots_of store d) (slots_of (consume sha256 policy c store).1 d)
unfolding consume
consume-Grows sha256 policy c store d =
    let own = budget_directory sha256 c in
    let ss = (consume_slot (limit_for policy c.route) c (slots_of store own)).1 in
    elim (Bool-cases (own == d)) [
      | inl y ↦
          let e = (path_eq.same_iff own d).0 y in
          rw (← e) (
            rw (read-write_self store own ss, consume, slots_of)
              (consume_slot-Grows (limit_for policy c.route) c (slots_of store own)))
      | inr n ↦
          rw
            (
              read-write_ne store own d ss (λ q. ground (arith, path_eq.same_iff own d)),
              consume,
              slots_of,
            )
            (Grows-refl (slots_of store d))
    ]

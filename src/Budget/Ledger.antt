-- ===== src/Budget/Ledger.antt =====
-- The sequential behaviour of the budget: an append-only ledger of numbered slots, one to a
-- request, and never more than the limit.
use mathlib.Core.Path.{subst}
use mathlib.Core.List.{append-nil, append_assoc}
use prdcp.Shared.{
  Member-append_right, ℕ, zero, suc, ◌+◌, ◌≤◌, ◌<◌, String, ◌≡◌, ◌≢◌, refl, sym, ◌∙◌, ap, inl, inr,
  none, some, List, [], ◌∷◌, ◌++◌, map, arith, eq_iff, ◌==◌, text_eq, nat_eq, length, length-append,
  Member, NoRepeat, All, Outcome, ok, raise, Bool-cases, revision_budget_exhausted,
}
use prdcp.Revision.Control.{RevisionBudgetConsumption}
use prdcp.Budget.{Slot, holder_id, slot_record, Claim, new_record, try_slots}

-- The slots are numbered from `n` on, and each record has the number of its file.
abbrev pub Numbered : ℕ → List Slot → Type 0
Numbered n [] = Unit
Numbered n (s ∷ ss) = (s.number ≡ n) × (s.holder.iteration ≡ n) × Numbered (suc n) ss

pub record IsLedger (ss : List Slot) : Type 0 where
  pub numbered : Numbered 1 ss
  pub one_each : NoRepeat (map holder_id ss)

-- No slot is held by the request.
abbrev pub Absent : String → List Slot → Type 0
Absent request = All (λ s. holder_id s ≢ request)

pub Numbered-snoc :
    (ss : List Slot) (n : ℕ) (s : Slot)
    → Numbered n ss
    → s.number ≡ n + length ss
    → s.holder.iteration ≡ n + length ss
    → Numbered n (ss ++ s ∷ [])
Numbered-snoc [] n s h p q = (omega arith, omega arith, tt)
Numbered-snoc (t ∷ ss) n s h p q =
    (h.0, h.1, Numbered-snoc ss (suc n) s h.2 (omega arith) (omega arith))

-- In a ledger, a number is taken exactly up to the length.
slot_record-below : (ss : List Slot) (n k : ℕ) → Numbered n ss → k < n → slot_record k ss ≡ none
unfolding slot_record
slot_record-below [] n k h lt = refl
slot_record-below (s ∷ ss) n k h lt = ground (arith, slot_record-below ss (suc n) k)

pub slot_record-at :
    (before : List Slot) (s : Slot) (after : List Slot) (n k : ℕ)
    → k ≡ n + length before
    → Numbered n (before ++ s ∷ after)
    → slot_record k (before ++ s ∷ after) ≡ some s.holder
unfolding slot_record
slot_record-at [] s after n k e h = ground arith
slot_record-at (t ∷ before) s after n k e h =
    ground (arith, slot_record-at before s after (suc n) k)

pub slot_record-end :
    (ss : List Slot) (n k : ℕ) → k ≡ n + length ss → Numbered n ss → slot_record k ss ≡ none
unfolding slot_record
slot_record-end [] n k e h = refl
slot_record-end (t ∷ ss) n k e h = ground (arith, slot_record-end ss (suc n) k)

-- What a call of `consume` has done, when it succeeds.
pub data Consumed (c : Claim) (ss : List Slot)
    : RevisionBudgetConsumption → List Slot → Type 0 where
  found : (s : Slot) → Member s ss → holder_id s ≡ c.request → Consumed c ss s.holder ss
  created :
      (n : ℕ)
      → n ≡ suc (length ss)
      → Absent c.request ss
      → Consumed c ss (new_record c n) (ss ++ record { number = n; holder = new_record c n } ∷ [])

-- The loop, from the slot behind `before`: it finds the request's slot, or takes the first free
-- number if it is within the range, or finds all numbers of the range taken.
pub data Tried (c : Claim) (limit : ℕ) (ss : List Slot)
    : Outcome RevisionBudgetConsumption × List Slot → Type 0 where
  success :
      (r : RevisionBudgetConsumption) (ss' : List Slot)
      → Consumed c ss r ss'
      → r.iteration ≤ limit
      → Tried c limit ss (ok r, ss')
  exhausted :
      limit ≤ length ss → Tried c limit ss (raise (revision_budget_exhausted "exhausted"), ss)

module _ (c : Claim) (left n : ℕ) (ss : List Slot) where
  try_slots-free :
      slot_record n ss ≡ none
      → try_slots c (suc left) n ss
        ≡ (ok (new_record c n), ss ++ record { number = n; holder = new_record c n } ∷ [])
  unfolding try_slots
  try_slots-free e = rw (e, try_slots)

  try_slots-own :
      (r : RevisionBudgetConsumption)
      → slot_record n ss ≡ some r
      → r.revision_request_id ≡ c.request
      → try_slots c (suc left) n ss ≡ (ok r, ss)
  unfolding try_slots
  try_slots-own r e own = rw (e, try_slots) (rw ((eq_iff r.revision_request_id c.request).1 own))

  try_slots-other :
      (r : RevisionBudgetConsumption)
      → slot_record n ss ≡ some r
      → r.revision_request_id ≢ c.request
      → try_slots c (suc left) n ss ≡ try_slots c left (suc n) ss
  unfolding try_slots
  try_slots-other r e other =
      rw (e, try_slots) (ground (arith, eq_iff r.revision_request_id c.request))

Numbered-at :
    (before : List Slot) (s : Slot) (after : List Slot) (n : ℕ)
    → Numbered n (before ++ s ∷ after)
    → s.holder.iteration ≡ n + length before
Numbered-at [] s after n h = omega arith
Numbered-at (t ∷ before) s after n h = omega (arith, Numbered-at before s after (suc n) h.2)

pub Absent-snoc :
    (request : String) (ss : List Slot) (s : Slot)
    → Absent request ss
    → holder_id s ≢ request
    → Absent request (ss ++ s ∷ [])
Absent-snoc request [] s h ne = (ne, tt)
Absent-snoc request (t ∷ ss) s h ne = (h.0, Absent-snoc request ss s h.1 ne)

-- The loop at number `n` has passed the slots `before`, none of which is the request's.
pub try_slots-Tried :
    (c : Claim) (left n limit : ℕ) (before rest ss : List Slot)
    → before ++ rest ≡ ss
    → n ≡ suc (length before)
    → limit ≡ length before + left
    → Absent c.request before
    → IsLedger ss
    → Tried c limit ss (try_slots c left n ss)
try_slots-Tried c zero n limit before rest ss split e m absent ledger =
    unfold try_slots in exhausted (omega (arith, length-append before rest, ap length split))
try_slots-Tried c (suc left) n limit before [] ss split e m absent ledger =
    let all : before ≡ ss = sym (append-nil before) ∙ split in
    let free : slot_record n ss ≡ none =
      slot_record-end ss 1 n (omega (arith, ap length all)) ledger.numbered in
    subst (Tried c limit ss) (sym (try_slots-free c left n ss free)) (
      success _ _ (created n (omega (arith, ap length all)) (subst (Absent c.request) all absent))
        (unfold new_record in omega arith))
try_slots-Tried c (suc left) n limit before (s ∷ rest) ss split e m absent ledger =
    let numbered = subst (Numbered 1) (sym split) ledger.numbered in
    let taken : slot_record n ss ≡ some s.holder =
      subst (λ l. slot_record n l ≡ some s.holder) split
        (slot_record-at before s rest 1 n (omega arith) numbered) in
    elim (Bool-cases (holder_id s == c.request)) [
      | inl own ↦
          let same = (eq_iff (holder_id s) c.request).0 own in
          subst (Tried c limit ss) (sym (try_slots-own c left n ss s.holder taken same)) (
            success _ _
              (found s (subst (Member s) split (Member-append_right s before (s ∷ rest) (inl refl)))
                same)
              (omega (arith, Numbered-at before s rest 1 numbered)))
      | inr no_match ↦
          let other : holder_id s ≢ c.request = ground (arith, eq_iff (holder_id s) c.request) in
          subst (Tried c limit ss) (sym (try_slots-other c left n ss s.holder taken other)) (
            try_slots-Tried c left (suc n) limit (before ++ s ∷ []) rest ss
              (append_assoc before (s ∷ []) rest ∙ split)
              (omega (arith, length-append before (s ∷ [])))
              (omega (arith, length-append before (s ∷ [])))
              (Absent-snoc c.request before s absent other) ledger)
    ]

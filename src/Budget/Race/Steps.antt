-- ===== src/Budget/Race/Steps.antt =====
-- What one step of a process does to a ledger: it leaves one within the limit, and the process at a
-- position that it says something of.
use mathlib.Core.Path.{subst}
use mathlib.Core.List.{append-nil, append_assoc}
use prdcp.Shared.{
  ℕ, suc, ◌≤◌, ◌≡◌, ◌≢◌, refl, sym, ◌∙◌, ap, inl, inr, true, false, none, some, List, [], ◌∷◌, ◌++◌,
  arith, eq_iff, ltb, ◌==◌, text_eq, nat_eq, length, length-append, All, Member, Member-append_left,
  Member-append_right, Bool-cases, Option-cases, revision_budget_exhausted, value_error,
}
use prdcp.Budget.{Slot, holder_id, slot_record, for_request, Claim, new_record}
use prdcp.Budget.Ledger.{
  IsLedger, Absent, Absent-snoc, Numbered, created, slot_record-at, slot_record-end,
}
use prdcp.Budget.Lookup.{for_request-some}
use prdcp.Budget.Outcomes.{Consumed-IsLedger}
use prdcp.Budget.Race.{Process, looking, trying, granted, failed, advance, System}

-- The process has passed the slots below `n`, and none of them is its request's.
pub record HasPassed (c : Claim) (n : ℕ) (ss : List Slot) : Type 0 where
  pub passed : List Slot
  pub rest : List Slot
  pub split : passed ++ rest ≡ ss
  pub count : n ≡ suc (length passed)
  pub absent : Absent c.request passed

-- What the position of a process says of the slots.
abbrev pub IsAt : List Slot → Process → Type 0
IsAt ss (looking c) = Unit
IsAt ss (trying c n) = HasPassed c n ss
IsAt ss (granted c r) = (s : Slot) × Member s ss × (s.holder ≡ r) × (holder_id s ≡ c.request)
IsAt ss (failed c e) = Unit

abbrev pub IsSafe : ℕ → System → Type 0
IsSafe limit t = IsLedger t.slots × (length t.slots ≤ limit) × All (IsAt t.slots) t.processes

-- A slot that another process creates changes no position.
pub IsAt-append : (p : Process) (ss added : List Slot) → IsAt ss p → IsAt (ss ++ added) p
IsAt-append (looking c) ss added h = tt
IsAt-append (failed c e) ss added h = tt
IsAt-append (granted c r) ss added (s, m, e, id) = (s, Member-append_left s ss added m, e, id)
IsAt-append (trying c n) ss added h = record {
  passed = h.passed;
  rest = h.rest ++ added;
  split = sym (append_assoc h.passed h.rest added) ∙ ap (λ l. l ++ added) h.split;
  count = h.count;
  absent = h.absent;
}

-- What a step of a process does: it adds slots, and leaves a ledger within the limit and a process
-- at its position.
abbrev pub IsGood : ℕ → List Slot → Process × List Slot → Type 0
IsGood limit ss (p, ts) =
    ((added : List Slot) × (ts ≡ ss ++ added)) × IsLedger ts × (length ts ≤ limit) × IsAt ts p

unchanged :
    (limit : ℕ) (ss : List Slot) (p : Process)
    → IsLedger ss
    → length ss ≤ limit
    → IsAt ss p
    → IsGood limit ss (p, ss)
unchanged limit ss p ledger le h = (([], sym (append-nil ss)), ledger, le, h)

looking-IsGood :
    (limit : ℕ) (c : Claim) (ss : List Slot)
    → IsLedger ss
    → length ss ≤ limit
    → IsGood limit ss (advance limit (looking c) ss)
unfolding advance
looking-IsGood limit c ss ledger le = elim (Option-cases (for_request c.request ss)) [
  | inr (r, e) ↦
      rw (e, advance)
        (unchanged limit ss (granted c r) ledger le (for_request-some c.request ss r e))
  | inl e ↦ elim (Bool-cases (limit == 0)) [
    | inl z ↦
        rw (e, advance)
          (rw z (unchanged limit ss (failed c (revision_budget_exhausted "disabled")) ledger le tt))
    | inr z ↦ elim (Bool-cases (c.request == "")) [
      | inl u ↦
          rw (e, advance)
            (rw z (
              rw u
                (unchanged limit ss (failed c (value_error "revision_request_id")) ledger le tt)))
      | inr u ↦
          rw (e, advance)
            (rw z (
              rw u (
                unchanged limit ss (trying c 1) ledger le
                  (record { passed = []; rest = ss; split = refl; count = refl; absent = tt }))))
    ]
  ]
]

-- The slot of the number is free: the process creates it.
create-IsGood :
    (limit n : ℕ) (c : Claim) (ss : List Slot)
    → IsLedger ss
    → n ≤ limit
    → n ≡ suc (length ss)
    → Absent c.request ss
    → IsGood limit ss
        (granted c (new_record c n), ss ++ record { number = n; holder = new_record c n } ∷ [])
create-IsGood limit n c ss ledger le e absent =
    let s : Slot = record { number = n; holder = new_record c n } in
    (
      (s ∷ [], refl),
      Consumed-IsLedger c ss _ _ (created n e absent) ledger,
      omega (arith, length-append ss (s ∷ [])),
      (s, Member-append_right s ss (s ∷ []) (inl refl), refl, unfold new_record in refl),
    )

beyond-IsGood :
    (limit : ℕ) (c : Claim) (n : ℕ) (ss : List Slot)
    → IsLedger ss
    → length ss ≤ limit
    → ltb limit n ≡ true
    → IsGood limit ss (advance limit (trying c n) ss)
unfolding advance
beyond-IsGood limit c n ss ledger le out =
    let done : advance limit (trying c n) ss
        ≡ (failed c (revision_budget_exhausted "exhausted"), ss) =
      rw (out, advance) refl in
    subst (IsGood limit ss) (sym done)
      (unchanged limit ss (failed c (revision_budget_exhausted "exhausted")) ledger le tt)

-- At the number behind the slots that it has passed, a process creates that slot, or finds it and
-- stops or goes on.
trying-IsGood :
    (limit : ℕ) (c : Claim) (n : ℕ) (passed rest ss : List Slot)
    → passed ++ rest ≡ ss
    → n ≡ suc (length passed)
    → Absent c.request passed
    → IsLedger ss
    → length ss ≤ limit
    → ltb limit n ≡ false
    → IsGood limit ss (advance limit (trying c n) ss)
unfolding advance
trying-IsGood limit c n passed [] ss split count absent ledger le within =
    let all : passed ≡ ss = sym (append-nil passed) ∙ split in
    let free : slot_record n ss ≡ none =
      slot_record-end ss 1 n (omega (arith, ap length all)) ledger.numbered in
    let done : advance limit (trying c n) ss
        ≡ (granted c (new_record c n), ss ++ record { number = n; holder = new_record c n } ∷ []) =
      rw (within, advance) (rw free refl) in
    subst (IsGood limit ss) (sym done) (
      create-IsGood limit n c ss ledger (ground arith) (omega (arith, ap length all))
        (subst (Absent c.request) all absent))
trying-IsGood limit c n passed (s ∷ rest) ss split count absent ledger le within =
    let numbered = subst (Numbered 1) (sym split) ledger.numbered in
    let taken : slot_record n ss ≡ some s.holder =
      subst (λ l. slot_record n l ≡ some s.holder) split
        (slot_record-at passed s rest 1 n (omega arith) numbered) in
    elim (Bool-cases (holder_id s == c.request)) [
      | inl own ↦
          let done : advance limit (trying c n) ss ≡ (granted c s.holder, ss) =
            rw (within, advance) (rw taken (rw own refl)) in
          let there = subst (Member s) split (Member-append_right s passed (s ∷ rest) (inl refl)) in
          subst (IsGood limit ss) (sym done) (
            unchanged limit ss (granted c s.holder) ledger le
              (s, there, refl, (eq_iff (holder_id s) c.request).0 own))
      | inr other ↦
          let done : advance limit (trying c n) ss ≡ (trying c (suc n), ss) =
            rw (within, advance) (rw taken (rw other refl)) in
          let ne : holder_id s ≢ c.request = ground (arith, eq_iff (holder_id s) c.request) in
          subst (IsGood limit ss) (sym done) (
            unchanged limit ss (trying c (suc n)) ledger le (record {
              passed = passed ++ s ∷ [];
              rest = rest;
              split = append_assoc passed (s ∷ []) rest ∙ split;
              count = omega (arith, length-append passed (s ∷ []));
              absent = Absent-snoc c.request passed s absent ne;
            }))
    ]

pub advance-IsGood :
    (limit : ℕ) (p : Process) (ss : List Slot)
    → IsLedger ss
    → length ss ≤ limit
    → IsAt ss p
    → IsGood limit ss (advance limit p ss)
unfolding advance
advance-IsGood limit (looking c) ss ledger le h = looking-IsGood limit c ss ledger le
advance-IsGood limit (granted c r) ss ledger le h = unchanged limit ss (granted c r) ledger le h
advance-IsGood limit (failed c e) ss ledger le h = unchanged limit ss (failed c e) ledger le tt
advance-IsGood limit (trying c n) ss ledger le h = elim (Bool-cases (ltb limit n)) [
  | inl out ↦ beyond-IsGood limit c n ss ledger le out
  | inr within ↦
      trying-IsGood limit c n h.passed h.rest ss h.split h.count h.absent ledger le within
]

-- ===== src/Budget/Race/Safety.antt =====
-- However the steps of the processes are interleaved, the directory stays a ledger within the
-- limit, and a process that returns holds a slot of it.
use mathlib.Core.Path.{subst}
use prdcp.Shared.{
  ℕ, ◌≡◌, sym, ◌∙◌, List, [], ◌∷◌, ◌++◌, arith, text_eq, nat_eq, All, All-Member, Member,
}
use prdcp.Revision.Control.{RevisionBudgetConsumption}
use prdcp.Budget.{Claim}
use prdcp.Budget.Lookup.{for_request-Member}
use prdcp.Budget.Race.{Process, granted, advance, System, Step, starts, moves, Reach, start, later}
use prdcp.Budget.Race.Steps.{IsAt, IsSafe, IsAt-append, advance-IsGood}

-- One item of a list is replaced, and the others keep what they have.
module _ {A : Type 0} (P Q : A → Type 0) (keeps : (a : A) → P a → Q a) where
  All-kept : (xs : List A) → All P xs → All Q xs
  All-kept [] h = tt
  All-kept (x ∷ xs) (h, hs) = (keeps x h, All-kept xs hs)

  All-replaced :
      (before : List A) (a b : A) (after : List A)
      → All P (before ++ a ∷ after)
      → Q b
      → All Q (before ++ b ∷ after)
  All-replaced [] a b after (h, hs) q = (q, All-kept after hs)
  All-replaced (x ∷ before) a b after (h, hs) q = (keeps x h, All-replaced before a b after hs q)

  All-one : (before : List A) (a : A) (after : List A) → All P (before ++ a ∷ after) → P a
  All-one [] a after h = h.0
  All-one (x ∷ before) a after h = All-one before a after h.1

Step-IsSafe : {limit : ℕ} {t u : System} → Step limit t u → IsSafe limit t → IsSafe limit u
Step-IsSafe (starts t c) (ledger, le, all) = (ledger, le, (tt, all))
Step-IsSafe {limit} (moves t before p after e) (ledger, le, all) =
    let ps = subst (All (IsAt t.slots)) e all in
    let ts = (advance limit p t.slots).1 in
    let at_p = All-one (IsAt t.slots) (IsAt t.slots) (λ q h. h) before p after ps in
    let ((added, grows), ledger', le', at') = advance-IsGood limit p t.slots ledger le at_p in
    let keeps : (q : Process) → IsAt t.slots q → IsAt ts q =
      λ q h. subst (λ l. IsAt l q) (sym grows) (IsAt-append q t.slots added h) in
    (
      ledger',
      le',
      All-replaced (IsAt t.slots) (IsAt ts) keeps before p (advance limit p t.slots).0 after ps at',
    )

-- Whatever processes start and however their steps interleave, from a ledger within the limit and
-- processes at their positions: the slots stay a ledger within the limit, with consecutive numbers
-- and at most one slot for a request, and a process that has returned holds a slot of it.
pub Reach-IsSafe : {limit : ℕ} {s t : System} → IsSafe limit s → Reach limit s t → IsSafe limit t
Reach-IsSafe h start = h
Reach-IsSafe h (later r x) = Step-IsSafe x (Reach-IsSafe h r)

-- In a system that started with no slot and no process, two processes that have returned for the
-- same request have returned the same record.
pub Reach-one_record :
    (limit : ℕ) (t : System) (c c' : Claim) (r r' : RevisionBudgetConsumption)
    → Reach limit (record { slots = []; processes = [] }) t
    → Member (granted c r) t.processes
    → Member (granted c' r') t.processes
    → c.request ≡ c'.request
    → r ≡ r'
Reach-one_record limit t c c' r r' reach m m' same =
    let (ledger, le, all) =
      Reach-IsSafe (record { numbered = tt; one_each = tt }, omega arith, tt) reach in
    let (s, n, e, id) = All-Member (IsAt t.slots) t.processes (granted c r) all m in
    let (s', n', e', id') = All-Member (IsAt t.slots) t.processes (granted c' r') all m' in
    let first = for_request-Member c'.request t.slots s ledger.one_each n (id ∙ same) in
    let second = for_request-Member c'.request t.slots s' ledger.one_each n' id' in
    let holders : s.holder ≡ s'.holder = cc in sym e ∙ holders ∙ e'

-- ===== src/Budget/Race.antt =====
-- Processes that call `RevisionBudgetStore.consume` (storage/revision_exchange_repository.py) on one
-- directory at the same time. A process takes one step at a time: it looks for the slot of its
-- request, then tries slot after slot by exclusive creation. A slot file is created with its
-- record in one step, and the lookup is one step; other processes move in between.
pub mod Steps
pub mod Safety
use prdcp.Shared.{
  ℕ, suc, String, ◌≡◌, Option, none, some, List, [], ◌∷◌, ◌++◌, ltb, ◌==◌, text_eq, nat_eq,
  if◌then◌else◌, Error, revision_budget_exhausted, value_error,
}
use prdcp.Revision.Control.{RevisionBudgetConsumption}
use prdcp.Budget.{Slot, slot_record, for_request, Claim, new_record}

-- Where a call of `consume` stands: before the lookup, before the slot of a number, returned, or
-- raised.
pub data Process : Type 0 where
  looking : Claim → Process
  trying : Claim → ℕ → Process
  granted : Claim → RevisionBudgetConsumption → Process
  failed : Claim → Error → Process

-- The next step of a process.
unfoldable pub advance : ℕ → Process → List Slot → Process × List Slot
unfolding for_request slot_record new_record
advance limit (looking c) ss = elim (for_request c.request ss) [
  | some existing ↦ (granted c existing, ss)
  | none ↦
      if limit == 0
      then (failed c (revision_budget_exhausted "disabled"), ss)
      else if c.request == ""
      then (failed c (value_error "revision_request_id"), ss)
      else (trying c 1, ss)
]
advance limit (trying c n) ss =
    if ltb limit n
    then (failed c (revision_budget_exhausted "exhausted"), ss)
    else elim (slot_record n ss) [
      | none ↦
          (granted c (new_record c n), ss ++ record { number = n; holder = new_record c n } ∷ [])
      | some current ↦
          if current.revision_request_id == c.request
          then (granted c current, ss)
          else (trying c (suc n), ss)
    ]
advance limit (granted c r) ss = (granted c r, ss)
advance limit (failed c e) ss = (failed c e, ss)

pub record System : Type 0 where
  pub slots : List Slot
  pub processes : List Process

-- A process starts, or one of those that run takes its next step.
pub data Step (limit : ℕ) : System → System → Type 0 where
  starts :
      (t : System) (c : Claim)
      → Step limit t (record { slots = t.slots; processes = looking c ∷ t.processes })
  moves :
      (t : System) (before : List Process) (p : Process) (after : List Process)
      → t.processes ≡ before ++ p ∷ after
      → Step limit t (record {
        slots = (advance limit p t.slots).1;
        processes = before ++ (advance limit p t.slots).0 ∷ after;
      })

-- The systems that interleaved steps lead to.
pub data Reach (limit : ℕ) (s : System) : System → Type 0 where
  start : Reach limit s s
  later : {t u : System} → Reach limit s t → Step limit t u → Reach limit s u

-- ===== src/Budget.antt =====
-- `RevisionBudgetStore` of storage/revision_exchange_repository.py. A budget directory, which a
-- layer, a workflow and a route determine, is the list of its slot files: the number of
-- "slot_{number}.json" and the record in it. Only `consume` writes there, so every file holds a
-- record.
pub mod Ledger
pub mod Lookup
pub mod Outcomes
pub mod Consume
pub mod Growth
pub mod Race
use prdcp.Shared.{
  digits, ℕ, zero, suc, ◌+◌, String, Bool, true, false, not, Option, none, some, List, [], ◌∷◌,
  ◌++◌, map, nat_beq, ltb, ◌==◌, text_eq, nat_eq, if◌then◌else◌, find_first, Outcome, ok, raise,
  Guard, check, ◌>>=◌, ◌>>◌, revision_budget_exhausted, value_error, append, FilePath, Component,
  dir, read, write, path_eq,
}
use prdcp.Revision.Layers.{LayerId, layer_value, RevisionRoute, route_value, DateTime}
use prdcp.Revision.Identity.{safe_path_component}
use prdcp.Revision.Control.{RevisionBudgetPolicy, limit_for, RevisionBudgetConsumption}

pub record Slot : Type 0 where
  pub number : ℕ
  pub holder : RevisionBudgetConsumption

abbrev pub holder_id : Slot → String
holder_id s = s.holder.revision_request_id

-- The record of "slot_{n}.json", if there is such a file.
unfoldable pub slot_record : ℕ → List Slot → Option RevisionBudgetConsumption
slot_record n [] = none
slot_record n (s ∷ ss) = if s.number == n then some s.holder else slot_record n ss

-- The order of file names: "slot_10.json" comes before "slot_2.json".
digits_before : List ℕ → List ℕ → Bool
digits_before [] ys = true
digits_before (x ∷ xs) [] = false
digits_before (x ∷ xs) (y ∷ ys) = if x == y then digits_before xs ys else ltb x y

name_before : Slot → Slot → Bool
unfolding digits digits_before
name_before s t = digits_before (digits (suc s.number) s.number) (digits (suc t.number) t.number)

insert_slot : Slot → List Slot → List Slot
insert_slot s [] = s ∷ []
insert_slot s (t ∷ ts) = if name_before s t then s ∷ t ∷ ts else t ∷ insert_slot s ts

-- sorted(directory.glob("slot_*.json"))
pub sorted_slots : List Slot → List Slot
unfolding insert_slot name_before
sorted_slots [] = []
sorted_slots (s ∷ ss) = insert_slot s (sorted_slots ss)

-- `list_consumptions`
unfoldable pub list_consumptions : List Slot → List RevisionBudgetConsumption
unfolding sorted_slots
list_consumptions ss = map (λ s. s.holder) (sorted_slots ss)

-- `for_request`
unfoldable pub for_request : String → List Slot → Option RevisionBudgetConsumption
unfolding list_consumptions
for_request request ss = find_first (λ c. c.revision_request_id == request) (list_consumptions ss)

-- What the caller of `consume` gives, with the time of the call.
pub record Claim : Type 0 where
  pub workflow_id : String
  pub layer : LayerId
  pub route : RevisionRoute
  pub request : String
  pub now : DateTime

unfoldable pub new_record : Claim → ℕ → RevisionBudgetConsumption
new_record c n = record {
  workflow_id = c.workflow_id;
  layer = c.layer;
  route = c.route;
  revision_request_id = c.request;
  iteration = n;
  consumed_at = c.now;
}

-- The `for` loop of `consume`: `left` slots from number `n` on are left to try. A slot is created
-- by mode "x"; where the file is there already, its record decides.
unfoldable pub try_slots : Claim → ℕ → ℕ → List Slot → Outcome RevisionBudgetConsumption × List Slot
unfolding new_record slot_record
try_slots c zero n ss = (raise (revision_budget_exhausted "exhausted"), ss)
try_slots c (suc left) n ss = elim (slot_record n ss) [
  | none ↦ (ok (new_record c n), ss ++ record { number = n; holder = new_record c n } ∷ [])
  | some current ↦
      if current.revision_request_id == c.request
      then (ok current, ss)
      else try_slots c left (suc n) ss
]

-- `consume` in the directory of the claim.
unfoldable pub consume_slot : ℕ → Claim → List Slot → Outcome RevisionBudgetConsumption × List Slot
unfolding for_request try_slots
consume_slot limit c ss = elim (for_request c.request ss) [
  | some existing ↦ (ok existing, ss)
  | none ↦
      if limit == 0
      then (raise (revision_budget_exhausted "disabled"), ss)
      else if c.request == ""
      then (raise (value_error "revision_request_id"), ss)
      else try_slots c limit 1 ss
]

-- data_dir / "artifacts" / "revision_budget" / layer / workflow / route
unfoldable pub budget_directory : (String → String) → Claim → FilePath
unfolding safe_path_component
budget_directory sha256 c =
    dir "artifacts"
    ∷ dir "revision_budget"
    ∷ dir (layer_value c.layer)
    ∷ dir (safe_path_component sha256 c.workflow_id)
    ∷ dir (route_value c.route)
    ∷ []

-- The slots of a directory; one that is not there has none.
abbrev pub slots_of : List (FilePath × List Slot) → FilePath → List Slot
slots_of store d = elim (read store d) [ none ↦ [] | some ss ↦ ss ]

unfoldable pub consume :
    (String → String)
    → RevisionBudgetPolicy
    → Claim
    → List (FilePath × List Slot)
    → Outcome RevisionBudgetConsumption × List (FilePath × List Slot)
unfolding consume_slot budget_directory
consume sha256 policy c store =
    let d = budget_directory sha256 c in
    let (result, ss) = consume_slot (limit_for policy c.route) c (slots_of store d) in
    (result, write store d ss)

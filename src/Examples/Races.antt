-- ===== src/Examples/Races.antt =====
-- Two calls of `consume` for one request, whose steps alternate.
use prdcp.Shared.{◌≡◌, refl, List, [], ◌∷◌, inl, inr, arith}
use prdcp.Revision.Control.{RevisionBudgetConsumption}
use prdcp.Budget.{Slot, Claim}
use prdcp.Budget.Race.{
  Process, looking, trying, granted, System, starts, moves, Reach, start, later,
}
use prdcp.Budget.Race.Steps.{IsSafe}
use prdcp.Budget.Race.Safety.{Reach-IsSafe, Reach-one_record}
use prdcp.Examples.Samples.{the_model, claim}

abbrev call : Claim
call = claim "request_1"

abbrev first : RevisionBudgetConsumption
first = record {
  workflow_id = call.workflow_id;
  layer = call.layer;
  route = call.route;
  revision_request_id = "request_1";
  iteration = 1;
  consumed_at = call.now;
}

abbrev system : List Slot → Process → Process → System
system ss p q = record { slots = ss; processes = p ∷ q ∷ [] }

abbrev quiet : System
quiet = record { slots = []; processes = [] }

abbrev one_slot : List Slot
one_slot = record { number = 1; holder = first } ∷ []

-- Both look, and find no slot; one creates slot 1, and the other finds it there.
abbrev finished : System
finished = system one_slot (granted call first) (granted call first)

both_look : Reach 1 quiet (system [] (trying call 1) (trying call 1))
unfolding the_model
both_look =
    later
      (later
        (later (later start (starts quiet call))
          (starts (record { slots = []; processes = looking call ∷ [] }) call))
        (moves (system [] (looking call) (looking call)) [] (looking call) (looking call ∷ [])
          refl))
      (moves (system [] (trying call 1) (looking call)) (trying call 1 ∷ []) (looking call) [] refl)

both_return : Reach 1 quiet finished
unfolding the_model
both_return =
    later
      (later both_look (
        moves (system [] (trying call 1) (trying call 1)) [] (trying call 1) (trying call 1 ∷ [])
          refl))
      (moves (system one_slot (granted call first) (trying call 1)) (granted call first ∷ [])
        (trying call 1) [] refl)

quiet-IsSafe : IsSafe 1 quiet
quiet-IsSafe = (record { numbered = tt; one_each = tt }, omega arith, tt)

Reach-IsSafe_example : IsSafe 1 finished
Reach-IsSafe_example = Reach-IsSafe quiet-IsSafe both_return

Reach-one_record_example : first ≡ first
Reach-one_record_example =
    Reach-one_record 1 finished call call first first both_return (inl refl) (inr (inl refl)) refl

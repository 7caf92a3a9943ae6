-- ===== src/Producer/Restart.antt =====
-- What a run of `ProducerManager` (producer/manager.py) has saved, however it is left.
use prdcp.Shared.{
  ℕ, zero, suc, ◌≤◌, ◌≡◌, refl, Option, none, some, arith, All, length, ok, raise, Outcome,
}
use prdcp.Producer.Model.{agent_order, take, from_keys}
use prdcp.Producer.Setting.{Manager, World}
use prdcp.Producer.Steps.{HasCheckpoint, IsAt}
use prdcp.Producer.Asking.{IsFruitful}
use prdcp.Producer.LoopEnd.{IsKept}
use prdcp.Producer.Accounting.{Round}
use prdcp.Producer.Settled.{IsRoundEnd, at-IsKept}
use prdcp.Producer.Ending.{run_from-IsRoundEnd}
use prdcp.Producer.{run_from}

pub from_keys-take : (n : ℕ) → n ≤ 5 → from_keys (take n agent_order) ≡ take n agent_order
from_keys-take zero h = refl
from_keys-take (suc zero) h = refl
from_keys-take (suc (suc zero)) h = refl
from_keys-take (suc (suc (suc zero))) h = refl
from_keys-take (suc (suc (suc (suc zero)))) h = refl
from_keys-take (suc (suc (suc (suc (suc zero))))) h = refl
from_keys-take (suc (suc (suc (suc (suc (suc n)))))) h = absurd (omega arith)

pub length-take : (n : ℕ) → n ≤ 5 → length (take n agent_order) ≡ n
length-take zero h = refl
length-take (suc zero) h = refl
length-take (suc (suc zero)) h = refl
length-take (suc (suc (suc zero))) h = refl
length-take (suc (suc (suc (suc zero)))) h = refl
length-take (suc (suc (suc (suc (suc zero))))) h = refl
length-take (suc (suc (suc (suc (suc (suc n)))))) h = omega arith

round-IsKept :
    (stop : Option ℕ) (r : Outcome (Option Round)) (w : World) → IsRoundEnd stop (r, w) → IsKept w
round-IsKept stop (raise e) w h = h
round-IsKept stop (ok none) w h = h.0
round-IsKept stop (ok (some r)) w h = at-IsKept r.start w h.0

-- Every version of the state that a run from a checkpoint saves is a checkpoint, and every older one
-- stays one.
pub run_from-HasCheckpoint :
    (m : Manager) (fuel : ℕ) (round : Round) (w : World)
    → IsFruitful m
    → IsAt round.start w
    → All HasCheckpoint (run_from m (suc fuel) round w).1.saved
run_from-HasCheckpoint m fuel round w fruitful p =
    (round-IsKept round.overrides.stop_after (run_from m (suc fuel) round w).0
      (run_from m (suc fuel) round w).1 (run_from-IsRoundEnd m fuel round w fruitful p)).1

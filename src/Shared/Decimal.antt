-- ===== src/Shared/Decimal.antt =====
-- `str(n)` of a natural number.
use Prim.Native.Nat.{ℕ, zero, suc, ◌/◌, ◌%◌}
use Prim.Native.String.{String}
use mathlib.Core.List.{List, [], ◌∷◌, ◌++◌}
use prdcp.Shared.Tests.{ltb, ◌==◌, nat_eq, if◌then◌else◌}
use prdcp.Shared.Text.{append}

-- The digits of n, with fuel.
unfoldable pub digits : ℕ → ℕ → List ℕ
digits zero n = []
digits (suc fuel) n =
    let rest = digits fuel (n / 10) in if ltb n 10 then n ∷ [] else rest ++ (n % 10) ∷ []

abbrev digit : ℕ → String
digit d =
    if d == 0
    then "0"
    else if d == 1
    then "1"
    else if d == 2
    then "2"
    else if d == 3
    then "3"
    else if d == 4
    then "4"
    else if d == 5
    then "5"
    else if d == 6
    then "6"
    else if d == 7
    then "7"
    else if d == 8
    then "8"
    else "9"

abbrev digits_text : List ℕ → String
digits_text [] = ""
digits_text (d ∷ ds) = append (digit d) (digits_text ds)

unfoldable pub decimal : ℕ → String
unfolding digits
decimal n = digits_text (digits (suc n) n)

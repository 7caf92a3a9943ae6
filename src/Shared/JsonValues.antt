-- ===== src/Shared/JsonValues.antt =====
-- JSON values as the program reads them from an agent: Python's truth of a value, `dict.get`, and
-- `d[key]`. Numbers other than the integers from 0 on stand as their string.
use Prim.Native.Nat.{ℕ}
use Prim.Native.String.{String}
use mathlib.Core.Bool.{Bool, true, false, not}
use mathlib.Core.Option.{Option, none, some}
use mathlib.Core.List.{List, [], ◌∷◌}
use prdcp.Shared.Tests.{◌==◌, text_eq, nat_eq, if◌then◌else◌}
use prdcp.Shared.Errors.{Outcome, ok, raise, key_error, type_error, attribute_error}

mutual
  pub data Json : Type 0 where
    null : Json
    boolean : Bool → Json
    number : ℕ → Json
    literal string : String → Json
    array : Items → Json
    object : Fields → Json

  pub data Items : Type 0 where
    nil : Items
    item : Json → Items → Items

  pub data Fields : Type 0 where
    end : Fields
    field : String → Json → Fields → Fields

-- bool(value)
abbrev pub truth : Json → Bool
truth null = false
truth (boolean b) = b
truth (number n) = not (n == 0)
truth (literal t) = true
truth (string t) = not (t == "")
truth (array nil) = false
truth (array (item x xs)) = true
truth (object end) = false
truth (object (field k v fs)) = true

-- fields.get(key)
abbrev pub get : Fields → String → Option Json
get end key = none
get (field k v fs) key = if k == key then some v else get fs key

abbrev present : String → Option Json → Outcome Json
present key none = raise (key_error key)
present key (some v) = ok v

-- fields[key]
abbrev pub value_at : Fields → String → Outcome Json
value_at fs key = present key (get fs key)

-- key in fields
abbrev pub has_key : Fields → String → Bool
has_key fs key = elim (get fs key) [ none ↦ false | some v ↦ true ]

-- bool(fields.get(key))
abbrev pub truth_at : Fields → String → Bool
truth_at fs key = elim (get fs key) [ none ↦ false | some v ↦ truth v ]

abbrev pub list_of : Items → List Json
list_of nil = []
list_of (item x xs) = x ∷ list_of xs

abbrev keys : Fields → List Json
keys end = []
keys (field k v fs) = string k ∷ keys fs

-- The values over which `for` runs: the keys of an object too. The characters
-- of a string have no `get`, which every loop of the program asks its values for.
abbrev pub items : Json → Outcome (List Json)
items (array xs) = ok (list_of xs)
items (object fs) = ok (keys fs)
items (string t) = if t == "" then ok [] else raise attribute_error
items null = raise type_error
items (boolean b) = raise type_error
items (number n) = raise type_error
items (literal t) = raise type_error

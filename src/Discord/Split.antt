-- ===== src/Discord/Split.antt =====
-- `split_message` of discord_app/message_formatter.py. A text is the list of its code points.
pub mod Bounds
pub mod Content
use prdcp.Shared.{
  ℕ, zero, suc, ◌+◌, ◌-◌, ◌≤◌, ◌<◌, String, ◌≡◌, refl, sym, ◌∙◌, ap, Bool, true, false, ◌&&◌, not,
  Option, none, some, Option-cases, Bool-cases, inl, inr, List, [], ◌∷◌, ◌++◌, map, arith, leb,
  ◌==◌, nat_eq, if◌then◌else◌, length, take, drop, All, codes, length-append,
}

-- "```json\n" and "\n```"
abbrev pub opening : List ℕ
opening = codes "```json\n"

abbrev pub closing : List ℕ
closing = codes "\n```"

abbrev pub newline : ℕ
newline = b'\n'

abbrev starts : List ℕ → List ℕ → Bool
starts [] text = true
starts (p ∷ ps) [] = false
starts (p ∷ ps) (c ∷ cs) = p == c && starts ps cs

abbrev reverse_onto : List ℕ → List ℕ → List ℕ
reverse_onto [] acc = acc
reverse_onto (c ∷ cs) acc = reverse_onto cs (c ∷ acc)

abbrev ends : List ℕ → List ℕ → Bool
ends suffix text = starts (reverse_onto suffix []) (reverse_onto text [])

unfoldable pub is_fenced : List ℕ → Bool
is_fenced text = starts opening text && ends closing text

-- text[len(opening) : -len(closing)]
unfoldable pub body : List ℕ → List ℕ
body text = take (length text - 12) (drop 8 text)

-- text.rfind("\n", 0, n), or none for -1
unfoldable pub last_newline : ℕ → List ℕ → Option ℕ
last_newline zero cs = none
last_newline (suc n) [] = none
last_newline (suc n) (c ∷ cs) = elim (last_newline n cs) [
  | some i ↦ some (suc i)
  | none ↦ if c == newline then some 0 else none
]

abbrev pub place_of : ℕ → Option ℕ → ℕ
place_of limit none = limit
place_of limit (some i) = if i == 0 then limit else i

-- `split_at`
unfoldable pub split_at : ℕ → List ℕ → ℕ
unfolding last_newline
split_at limit text = place_of limit (last_newline limit text)

-- text.lstrip("\n")
unfoldable pub lstrip : List ℕ → List ℕ
lstrip [] = []
lstrip (c ∷ cs) = let rest = lstrip cs in if c == newline then rest else c ∷ cs

-- The loop, with fuel.
unfoldable pub chunks : ℕ → ℕ → List ℕ → List (List ℕ)
unfolding split_at lstrip
chunks zero limit text = []
chunks (suc fuel) limit [] = []
chunks (suc fuel) limit (c ∷ cs) =
    let k = split_at limit (c ∷ cs) in
    let rest = chunks fuel limit (lstrip (drop k (c ∷ cs))) in
    if leb (length (c ∷ cs)) limit then (c ∷ cs) ∷ [] else take k (c ∷ cs) ∷ rest

abbrev pub fence : List ℕ → List ℕ
fence part = opening ++ part ++ closing

-- `split_message`, with fuel for the calls of itself on a body.
unfoldable pub split_message : ℕ → ℕ → List ℕ → List (List ℕ)
unfolding is_fenced body chunks
split_message zero limit text = []
split_message (suc fuel) limit text =
    let inner = split_message fuel (limit - 12) (body text) in
    if leb (length text) limit
    then text ∷ []
    else if is_fenced text
    then map fence inner
    else chunks (length text) limit text

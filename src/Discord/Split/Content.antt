-- ===== src/Discord/Split/Content.antt =====
-- The loop of `split_message` (discord_app/message_formatter.py) ends, and loses line breaks only.
use prdcp.Shared.{
  ℕ, zero, suc, ◌≤◌, ◌<◌, ◌≡◌, refl, sym, ◌∙◌, ap, Bool-cases, inl, inr, List, [], ◌∷◌, ◌++◌, arith,
  leb, ◌==◌, nat_eq, if◌then◌else◌, length, take, drop,
}
use prdcp.Discord.Split.{newline, split_at, lstrip, chunks}
use prdcp.Discord.Split.Bounds.{split_at-bounds, length-lstrip-le, length-drop-le}

-- A text without its line breaks, and the messages one after the other.
abbrev pub without_breaks : List ℕ → List ℕ
without_breaks [] = []
without_breaks (c ∷ cs) = let rest = without_breaks cs in if c == newline then rest else c ∷ rest

abbrev pub joined : List (List ℕ) → List ℕ
joined [] = []
joined (p ∷ ps) = p ++ joined ps

without_breaks-append :
    (xs ys : List ℕ) → without_breaks (xs ++ ys) ≡ without_breaks xs ++ without_breaks ys
without_breaks-append [] ys = refl
without_breaks-append (x ∷ xs) ys = elim (Bool-cases (x == newline)) [
  | inl y ↦ rw y (without_breaks-append xs ys)
  | inr n ↦ rw n (ap (λ l. x ∷ l) (without_breaks-append xs ys))
]

without_breaks-lstrip : (cs : List ℕ) → without_breaks (lstrip cs) ≡ without_breaks cs
unfolding lstrip
without_breaks-lstrip [] = refl
without_breaks-lstrip (c ∷ cs) = elim (Bool-cases (c == newline)) [
  | inl y ↦ rw y (without_breaks-lstrip cs)
  | inr n ↦ rw (n, n) refl
]

append_nil : (xs : List ℕ) → xs ++ [] ≡ xs
append_nil [] = refl
append_nil (x ∷ xs) = ap (λ l. x ∷ l) (append_nil xs)

append-take-drop : (k : ℕ) (xs : List ℕ) → take k xs ++ drop k xs ≡ xs
append-take-drop zero xs = refl
append-take-drop (suc k) [] = refl
append-take-drop (suc k) (x ∷ xs) = ap (λ l. x ∷ l) (append-take-drop k xs)

drop-smaller : (k : ℕ) (c : ℕ) (cs : List ℕ) → 0 < k → length (drop k (c ∷ cs)) ≤ length cs
drop-smaller zero c cs pos = omega arith
drop-smaller (suc k) c cs pos = length-drop-le k cs

-- With a limit that is not 0 the loop comes to its end, however long the text is: fuel for the
-- length of the text, or more, gives all of the text but for line breaks.
pub chunks-without_breaks :
    (fuel limit : ℕ) (text : List ℕ)
    → 0 < limit
    → length text ≤ fuel
    → without_breaks (joined (chunks fuel limit text)) ≡ without_breaks text
unfolding chunks
chunks-without_breaks zero limit [] pos enough = refl
chunks-without_breaks zero limit (c ∷ cs) pos enough = absurd (omega arith)
chunks-without_breaks (suc fuel) limit [] pos enough = refl
chunks-without_breaks (suc fuel) limit (c ∷ cs) pos enough =
    elim (Bool-cases (leb (length (c ∷ cs)) limit)) [
      | inl y ↦ rw y (ap without_breaks (append_nil (c ∷ cs)))
      | inr n ↦
          let k = split_at limit (c ∷ cs) in
          let tail = lstrip (drop k (c ∷ cs)) in
          let rest = chunks-without_breaks fuel limit tail pos (
            omega (
              arith,
              length-lstrip-le (drop k (c ∷ cs)),
              drop-smaller k c cs (split_at-bounds limit (c ∷ cs) pos).0,
            )) in
          rw n (
            without_breaks-append (take k (c ∷ cs)) (joined (chunks fuel limit tail))
            ∙ ap (λ l. without_breaks (take k (c ∷ cs)) ++ l)
                (rest ∙ without_breaks-lstrip (drop k (c ∷ cs)))
            ∙ sym (without_breaks-append (take k (c ∷ cs)) (drop k (c ∷ cs)))
            ∙ ap without_breaks (append-take-drop k (c ∷ cs)))
    ]

-- ===== src/Examples/Splitting.antt =====
-- Splitting sample texts.
use prdcp.Shared.{ℕ, ◌≡◌, refl, false, List, [], ◌∷◌, arith, All, codes, nat_eq}
use prdcp.Discord.Split.{
  is_fenced, body, last_newline, split_at, lstrip, chunks, split_message, fence,
}
use prdcp.Discord.Split.Bounds.{Fits, split_message-Fits}
use prdcp.Discord.Split.Content.{without_breaks, joined, chunks-without_breaks}

abbrev lines : List ℕ
lines = codes "first line\n\nsecond line\nthird"

-- The break of a line ends a message, and the breaks behind it are dropped.
splits : chunks 30 15 lines ≡ codes "first line\n" ∷ codes "second line" ∷ codes "third" ∷ []
unfolding chunks split_at last_newline lstrip
splits = refl

abbrev report : List ℕ
report = codes "```json\n{\"a\": 1,\n\"b\": 22}\n```"

fences : split_message 2 24 report ≡ fence (codes "{\"a\": 1,") ∷ fence (codes "\"b\": 22}") ∷ []
unfolding split_message is_fenced body chunks split_at last_newline lstrip
fences = refl

bare : is_fenced (body report) ≡ false
unfolding is_fenced body
bare = refl

split_message-Fits_example : All (Fits 24) (split_message 2 24 report)
split_message-Fits_example = split_message-Fits 0 24 report (omega arith) bare

chunks-without_breaks_example : without_breaks (joined (chunks 30 15 lines)) ≡ without_breaks lines
chunks-without_breaks_example = chunks-without_breaks 30 15 lines (omega arith) (omega arith)

-- ===== src/Prelude/Splits.antt =====
-- Splitting texts: `split` at a character, the runs that regular expressions match, decimal digits.
use Prim.Native.Nat.{ℕ, zero, suc, ◌+◌, ◌-◌, ◌*◌}
use mathlib.Core.Bool.{Bool, false, ◌&&◌, ◌||◌}
use mathlib.Core.List.{List, [], ◌∷◌}
use nest_langgraph_ai.Prelude.Tests.{leb, ◌==◌, if◌then◌else◌}
use nest_langgraph_ai.Prelude.Lists.{length}
use nest_langgraph_ai.Prelude.Texts.{Text, starts_with}

-- Put a character in front of the first part.
abbrev pub cons_first : ℕ → List Text → List Text
cons_first c [] = (c ∷ []) ∷ []
cons_first c (p ∷ ps) = (c ∷ p) ∷ ps

-- `text.split(c)` for a separator of one character.
unfoldable pub split_on : ℕ → Text → List Text
split_on sep [] = [] ∷ []
split_on sep (c ∷ t) =
    let rest = split_on sep t in if c == sep then [] ∷ rest else cons_first c rest

-- `text.split(separator)` for a separator that is not empty: how many units of a separator are still
-- to skip, and the rest of the text.
unfoldable pub split_from : Text → ℕ → Text → List Text
unfolding starts_with
split_from sep skip [] = [] ∷ []
split_from sep (suc skip) (c ∷ t) = split_from sep skip t
split_from sep zero (c ∷ t) =
    let apart = split_from sep (length sep - 1) t in
    let joined = split_from sep zero t in
    if starts_with sep (c ∷ t) then [] ∷ apart else cons_first c joined

unfoldable pub split : Text → Text → List Text
unfolding split_from
split sep t = split_from sep 0 t

unfoldable pub is_digit : ℕ → Bool
is_digit c = leb b'0' c && leb c b'9'

unfoldable pub to_lower : ℕ → ℕ
to_lower c = if leb b'A' c && leb c b'Z' then c + 32 else c

-- `\w`.
unfoldable pub is_word : ℕ → Bool
unfolding is_digit
is_word c = is_digit c || (leb b'a' c && leb c b'z') || (leb b'A' c && leb c b'Z') || c == b'_'

abbrev begins_with : (ℕ → Bool) → Text → Bool
begins_with p [] = false
begins_with p (c ∷ t) = p c

-- The maximal runs of units that pass a test.
unfoldable pub runs : (ℕ → Bool) → Text → List Text
runs p [] = []
runs p (c ∷ t) =
    let rest = runs p t in
    if p c then (if begins_with p t then cons_first c rest else (c ∷ []) ∷ rest) else rest

-- The text up to the first unit that fails a test, and the text from there.
unfoldable pub span : (ℕ → Bool) → Text → Text × Text
span p [] = ([], [])
span p (c ∷ t) = let rest = span p t in if p c then (c ∷ rest.0, rest.1) else ([], c ∷ t)

-- The number that digits spell.
unfoldable pub number_of : ℕ → Text → ℕ
number_of acc [] = acc
number_of acc (c ∷ t) = number_of (acc * 10 + (c - 48)) t

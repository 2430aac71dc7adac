-- ===== src/Json/Coerce.antt =====
-- Text made into an array of strings: src/common/utils/zod-coerce.util.ts.
use nest_langgraph_ai.Prelude.{
  Text, Bool, false, not, ◌&&◌, ◌||◌, Option, none, some, List, [], ◌∷◌, map, keep_if, ◌==◌,
  if◌then◌else◌, is_empty, is_space, trim, text_eq, split_on, is_digit, is_word, span,
}
use nest_langgraph_ai.Json.{Json, array, strings, Items}

-- Whether a text is a `.` and one word.
is_extension : Text → Bool
is_extension [] = false
is_extension (c ∷ t) = c == b'.' && not (is_empty t) && is_empty (span is_word t).1

-- Whether an extension ends the text, with at least one unit before it.
ends_in_extension : Text → Bool
unfolding is_extension
ends_in_extension [] = false
ends_in_extension (c ∷ t) = is_extension t || ends_in_extension t

-- `:\d+:` at the start of a text.
is_line_number : Text → Bool
is_line_number [] = false
is_line_number (c ∷ t) =
    let after = span is_digit t in c == b':' && not (is_empty after.0) && begins_colon after.1
  where
    begins_colon : Text → Bool
    begins_colon [] = false
    begins_colon (d ∷ u) = d == b':'

begins_plain : Text → Bool
begins_plain [] = false
begins_plain (c ∷ t) = not (is_space c)

-- The path of a line of `grep` output, `/^([^\s:][^:]*\.\w+):\d+:/`: the text before the first
-- colon, if it begins with no space and ends in an extension and a line number follows.
unfoldable pub grep_path : Text → Option Text
unfolding is_line_number ends_in_extension begins_plain
grep_path line =
    let parts = span (λ c. not (c == b':')) line in
    if begins_plain parts.0 && ends_in_extension parts.0 && is_line_number parts.1
    then some (trim parts.0)
    else none

-- A `Set` of texts in insertion order.
unfoldable pub add_once : List Text → Text → List Text
add_once [] t = t ∷ []
add_once (u ∷ us) t = if text_eq u t then u ∷ us else u ∷ add_once us t

unfoldable pub collect_paths : List Text → List Text → List Text
unfolding grep_path add_once
collect_paths found [] = found
collect_paths found (line ∷ lines) =
    collect_paths (elim (grep_path line) [ none ↦ found | some p ↦ add_once found p ]) lines

-- The lines that are not blank, trimmed.
unfoldable pub filled_lines : Text → List Text
filled_lines value = keep_if (λ l. not (is_empty l)) (map trim (split_on 10 value))

abbrev lines_or_paths : List Text → Text → List Text
lines_or_paths [] value = filled_lines value
lines_or_paths (p ∷ ps) value = p ∷ ps

-- `coerceToStringArray`; `JSON.parse` is a parameter.
unfoldable pub coerce_to_string_array : (Text → Option Json) → Text → Items
unfolding collect_paths filled_lines
coerce_to_string_array json_parse value = elim (json_parse value) [
  | some (array xs) ↦ xs
  | _ ↦ strings (lines_or_paths (collect_paths [] (split_on 10 value)) value)
]

-- ===== src/Nodes/Validation/Anchors.antt =====
-- The preflight of `file_patch` steps: the file exists and the first line of `find` occurs in it.
use nest_langgraph_ai.Prelude.{
  Text, ℕ, Bool, true, false, not, ◌&&◌, ◌||◌, Option, none, some, List, [], ◌∷◌, ◌++◌, codes,
  decimal, starts_with, drop, trim, split_on, span, is_digit, number_of, text_eq, some_of, is_empty,
  includes, keep_if, lookup, ltb, ◌==◌, if◌then◌else◌, or_else, Thrown, error, bubble_up, Result,
  ok, err, ◌>>=◌,
}
use nest_langgraph_ai.Json.{
  Json, null, string, array, object, truthy, strict_eq, get_field, array_includes,
}
use nest_langgraph_ai.State.Shape.{PlanStep}
use nest_langgraph_ai.Tools.{Tool, ToolRegistry, get_tool}
use nest_langgraph_ai.Nodes.Services.{Services}
use nest_langgraph_ai.Nodes.Placeholders.{previous_result}
use nest_langgraph_ai.Nodes.Validation.Groups.{Failure}

abbrev is_truthy : Option Json → Bool
is_truthy none = false
is_truthy (some v) = truthy v

-- `v.includes('__PREVIOUS_RESULT__')`, which throws where the value has no such method.
includes_previous : Json → Result Bool
includes_previous (string t) = ok (includes previous_result t)
includes_previous (array xs) = ok (array_includes previous_result xs)
includes_previous _ = err (error (codes "includes is not a function"))

-- `FILE_CREATING_TOOLS`.
creates_file : Text → Bool
creates_file tool =
    some_of (text_eq tool)
      (codes "write_file" ∷ codes "create_file" ∷ codes "move_file" ∷ codes "copy_file" ∷ [])

abbrev same_path : Option Json → Json → Bool
same_path none path = false
same_path (some v) path = strict_eq v path

-- `priorStepCreatesFile`.
unfoldable pub prior_step_creates_file : List PlanStep → PlanStep → Json → Bool
unfolding creates_file
prior_step_creates_file steps step path =
    some_of
      (λ s.
        ltb s.step_id step.step_id
        && creates_file s.tool
        && same_path (lookup (codes "path") s.input) path)
      steps

-- A character that the anchor's regular expression needs behind a backslash.
is_special : ℕ → Bool
is_special c = some_of (λ d. c == d) (codes ".*+?^${}()|[]\\")

unfoldable pub escape_anchor : Text → Text
unfolding is_special
escape_anchor [] = []
escape_anchor (c ∷ t) = if is_special c then b'\\' ∷ c ∷ escape_anchor t else c ∷ escape_anchor t

-- The first line of `find` that is not blank, or the empty text.
unfoldable pub search_anchor : Text → Text
search_anchor find = first (keep_if (λ l. not (is_empty (trim l))) (split_on 10 find))
  where
    first : List Text → Text
    first [] = []
    first (l ∷ ls) = l

-- `/Found (\d+) match/`: the number, or 0 with no match.
count_at : Text → Option ℕ
count_at t =
    let after = span is_digit (drop 6 t) in
    if starts_with (codes "Found ") t
      && not (is_empty after.0)
      && starts_with (codes " match") after.1
    then some (number_of 0 after.0)
    else none

unfoldable pub match_count : Text → ℕ
unfolding count_at
match_count [] = 0
match_count (c ∷ t) =
    let later = match_count t in elim (count_at (c ∷ t)) [ some n ↦ n | none ↦ later ]

tool_or_throw : ToolRegistry → Text → Result Tool
tool_or_throw reg name = elim (get_tool reg name) [
  | some tool ↦ ok tool
  | none ↦ err (error (name ++ codes " tool missing"))
]

abbrev text_or_throw : Json → Result Text
text_or_throw (string t) = ok t
text_or_throw _ = err (error (codes "The value is not a string"))

abbrev parsed_or_throw : Option Json → Result Json
parsed_or_throw (some v) = ok v
parsed_or_throw none = err (error (codes "Unexpected token in JSON"))

-- `stat.exists && stat.type === 'file'`; reading a property of `null` throws.
is_file : Json → Result Bool
is_file null = err (error (codes "Cannot read properties of null"))
is_file (object fs) = ok (
    is_truthy (get_field (codes "exists") fs)
    && same_path (get_field (codes "type") fs) (string (codes "file")))
is_file _ = ok false

require : Bool → Text → Result (Unit {0})
require true message = ok tt
require false message = err (error message)

-- The `try` block: what it throws, or nothing.
unfoldable pub verify_anchor : Services → Json → Json → Result (Unit {0})
unfolding tool_or_throw is_file require
verify_anchor sv path find = do
  stat_tool ← tool_or_throw sv.registry (codes "stat_path")
  stat_text ← (stat_tool.invoke ((codes "path", path) ∷ [])).outcome
  stat ← parsed_or_throw (sv.json_parse stat_text)
  exists ← is_file stat
  _ ← require exists (codes "File not found: " ++ sv.print_value path)
  find_text ← text_or_throw find
  grep_tool ← tool_or_throw sv.registry (codes "grep_search")
  path_text ← text_or_throw path
  grep_text ←
      (grep_tool.invoke (
        (codes "pattern", string (escape_anchor (search_anchor find_text)))
        ∷ (codes "path", string (sv.dirname path_text))
        ∷ (codes "glob", string (sv.basename path_text))
        ∷ [])).outcome
  require (not (match_count grep_text == 0)) (
      codes "Could not find anchor \""
      ++ (search_anchor find_text ++ (codes "\" in " ++ sv.print_value path)))

abbrev message_of : Thrown → Text
message_of (error m) = m
message_of bubble_up = codes "bubble up"

abbrev verified : Result (Unit {0}) → Option Failure
verified (ok u) = none
verified (err e) =
    some (record {
      answer = codes "file_patch plan invalid: " ++ message_of e;
      message = message_of e;
    })

-- Whether a placeholder in `find`, or in a `replace` that is there, defers the check.
uses_placeholder : Json → Option Json → Result Bool
unfolding includes_previous
uses_placeholder find replace = do
  in_find ← includes_previous find
  if in_find then ok true else elim replace [
    | none ↦ ok false
    | some r ↦ if truthy r then includes_previous r else ok false
  ]

-- The two parameters are there.
check_patch : Services → List PlanStep → PlanStep → Json → Json → Result (Option Failure)
unfolding uses_placeholder prior_step_creates_file verify_anchor
check_patch sv steps step path find = do
  deferred ← uses_placeholder find (lookup (codes "replace") step.input)
  ok (
      if deferred || prior_step_creates_file steps step path
      then none
      else verified (verify_anchor sv path find))

missing_params : PlanStep → Failure
missing_params step = record {
  answer = codes "Invalid file_patch params in step " ++ (decimal step.step_id ++ codes ".");
  message = codes "Missing params";
}

-- The body of the loop.
unfoldable pub check_anchor : Services → List PlanStep → PlanStep → Result (Option Failure)
unfolding check_patch missing_params
check_anchor sv steps step =
    let path = or_else (lookup (codes "path") step.input) null in
    let find = or_else (lookup (codes "find") step.input) null in
    if text_eq step.tool (codes "file_patch")
    then (if truthy path && truthy find
        then check_patch sv steps step path find
        else ok (some (missing_params step)))
    else ok none

-- The loop over the steps.
unfoldable pub check_anchors : Services → List PlanStep → List PlanStep → Result (Option Failure)
unfolding check_anchor
check_anchors sv steps [] = ok none
check_anchors sv steps (step ∷ rest) = elim (check_anchor sv steps step) [
  | err e ↦ err e
  | ok (some f) ↦ ok (some f)
  | ok none ↦ check_anchors sv steps rest
]

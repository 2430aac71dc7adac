-- ===== src/Json/Extract.antt =====
-- The JSON object in an LLM's answer: src/common/utils/json.util.ts. `JSON.parse` is a parameter.
pub mod Grammar
pub mod Scanned
pub mod Balanced
use nest_langgraph_ai.Prelude.{
  Text, ℕ, zero, suc, ◌+◌, ◌-◌, Bool, true, false, not, ◌&&◌, ◌||◌, Option, none, some, List, [],
  ◌∷◌, ◌++◌, String, length, take, drop, ◌==◌, if◌then◌else◌, codes, or_else, starts_with, trim,
  Result, ok, err, error,
}

-- The scanner of `extractBalancedJson`, after the first brace: brace depth, inside a string, after
-- a backslash.
pub record Scan : Type 0 where
  pub depth : ℕ
  pub in_string : Bool
  pub escape : Bool

-- One character of the loop. The depth is at least 1 whenever a brace is closed.
unfoldable pub scan_char : Scan → ℕ → Scan
scan_char s ch =
    if s.escape
    then record s { escape = false }
    else (if ch == b'\\' && s.in_string
        then record s { escape = true }
        else (if ch == b'"'
            then record s { in_string = not s.in_string }
            else (if s.in_string
                then s
                else (if ch == b'{'
                    then record s { depth = s.depth + 1 }
                    else (if ch == b'}' then record s { depth = s.depth - 1 } else s)))))

-- Whether this character closes the first brace.
unfoldable pub is_closing : Scan → ℕ → Bool
is_closing s ch = not s.escape && not s.in_string && ch == b'}' && s.depth == 1

-- The loop: the characters up to the one that closes the first brace.
unfoldable pub balanced_from : Scan → Text → Option Text
unfolding scan_char is_closing
balanced_from s [] = none
balanced_from s (ch ∷ t) =
    let rest = balanced_from (scan_char s ch) t in
    if is_closing s ch then some (ch ∷ []) else elim rest [ none ↦ none | some r ↦ some (ch ∷ r) ]

-- `extractBalancedJson`: from the first `{`.
unfoldable pub extract_balanced_json : Text → Option Text
unfolding balanced_from
extract_balanced_json [] = none
extract_balanced_json (ch ∷ t) =
    let later = extract_balanced_json t in
    if ch == b'{'
    then balanced_from (record { depth = 0; in_string = false; escape = false }) (ch ∷ t)
    else later

-- The string literal that the regular expression of `sanitizeJsonNewlines` matches from a position
-- behind its opening quote: the length up to the closing quote, which is counted.
literal_length : Bool → Text → Option ℕ
literal_length pending [] = none
literal_length true (c ∷ t) =
    if c == 10 || c == 13 || c == 0x2028 || c == 0x2029
    then none
    else elim (literal_length false t) [ none ↦ none | some n ↦ some (suc n) ]
literal_length false (c ∷ t) =
    let rest = literal_length (c == b'\\') t in
    if c == b'"' then some 1 else elim rest [ none ↦ none | some n ↦ some (suc n) ]

-- A newline inside a literal becomes its escape.
escape_newline : ℕ → Text
escape_newline c =
    if c == 10 then b'\\' ∷ b'n' ∷ [] else (if c == 13 then b'\\' ∷ b'r' ∷ [] else c ∷ [])

-- `left` counts the units of the literal that are still to come.
sanitize_from : ℕ → Text → Text
sanitize_from left [] = []
sanitize_from zero (c ∷ t) =
    c ∷ sanitize_from (if c == b'"' then or_else (literal_length false t) 0 else 0) t
sanitize_from (suc left) (c ∷ t) = escape_newline c ++ sanitize_from left t

-- `sanitizeJsonNewlines`.
unfoldable pub sanitize_json_newlines : Text → Text
unfolding sanitize_from literal_length escape_newline
sanitize_json_newlines t = sanitize_from 0 t

-- The text before the first occurrence of a pattern, and the text behind it.
unfoldable pub split_at : Text → Text → Option (Text × Text)
split_at p [] = none
split_at p (c ∷ t) =
    let later = split_at p t in
    if starts_with p (c ∷ t)
    then some ([], drop (length p) (c ∷ t))
    else elim later [ none ↦ none | some (before, after) ↦ some (c ∷ before, after) ]

abbrev strip_json : Text → Text
strip_json t = if starts_with (codes "json") t then drop 4 t else t

-- The content of the first markdown fence, trimmed.
unfoldable pub fence_content : Text → Option Text
unfolding split_at
fence_content raw = elim (split_at (codes "```") raw) [
  | none ↦ none
  | some (before, after) ↦ elim (split_at (codes "```") (strip_json after)) [
    | none ↦ none
    | some (content, later) ↦ some (trim content)
  ]
]

-- `a ?? b` on results of `tryParse`. A parsed `null` would be passed over, but then `b`, which parses
-- the same text with newlines escaped, is `null` too.
abbrev pub or_else_try {ℓ} : {A : Type ℓ} → Option A → Option A → Option A
or_else_try none b = b
or_else_try (some a) b = some a

module _ {ℓ} {A : Type ℓ} (json_parse : Text → Option A) where
  unfoldable pub parse_or_sanitized : Text → Option A
  parse_or_sanitized t = or_else_try (json_parse t) (json_parse (sanitize_json_newlines t))

  abbrev parse_part : Option Text → Option A
  parse_part none = none
  parse_part (some t) = parse_or_sanitized t

  -- `extractJson`: the stages in their order.
  unfoldable pub extract_json : Text → Result A
  unfolding parse_or_sanitized
  extract_json raw =
      elim (or_else_try (parse_or_sanitized raw)
        (or_else_try (parse_part (fence_content raw)) (parse_part (extract_balanced_json raw)))) [
          | some v ↦ ok v
          | none ↦ err (error (codes "Could not extract valid JSON from LLM response"))
        ]

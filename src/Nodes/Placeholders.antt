-- ===== src/Nodes/Placeholders.antt =====
-- The placeholders of a step's input: src/modules/agents/nodes/inline-content.util.ts and the
-- substitution that execution.node.ts and parallel-execution.node.ts make.
use nest_langgraph_ai.Prelude.{
  Text, not, Option, none, some, [], ◌∷◌, codes, drop, starts_with, trim, trim_start, is_word, span,
  ◌==◌, if◌then◌else◌,
}
use nest_langgraph_ai.Json.Extract.{split_at}

abbrev pub previous_result : Text
previous_result = codes "__PREVIOUS_RESULT__"

abbrev pub inline_content : Text
inline_content = codes "__INLINE_CONTENT__"

-- `INLINE_NOT_FOUND`.
abbrev pub inline_not_found : Text
inline_not_found = codes "__INLINE_CONTENT_MISSING__"

-- The text behind `[Attached:` or `[File:`, if one of the two stands here.
after_label : Text → Option Text
after_label t =
    if starts_with (codes "[Attached:") t
    then some (drop 10 t)
    else (if starts_with (codes "[File:") t then some (drop 6 t) else none)

-- The text behind the first `]`.
after_bracket : Text → Option Text
after_bracket t = elim (span (λ c. not (c == b']')) t).1 [ [] ↦ none | c ∷ u ↦ some u ]

-- The text behind an opening fence with its language.
after_fence : Text → Option Text
after_fence t =
    if starts_with (codes "```") (trim_start t)
    then some (span is_word (drop 3 (trim_start t))).1
    else none

-- The regular expression of `extractInlineContent` at one position: the trimmed content.
inline_at : Text → Option Text
unfolding after_label after_bracket after_fence
inline_at t = elim (after_label t) [
  | none ↦ none
  | some labelled ↦ elim (after_bracket labelled) [
    | none ↦ none
    | some u ↦ elim (after_fence u) [
      | none ↦ none
      | some body ↦ elim (split_at (codes "```") body) [
        | none ↦ none
        | some (content, later) ↦ some (trim content)
      ]
    ]
  ]
]

first_inline : Text → Option Text
unfolding inline_at
first_inline [] = none
first_inline (c ∷ t) =
    let later = first_inline t in
    elim (inline_at (c ∷ t)) [ some content ↦ some content | none ↦ later ]

-- `extractInlineContent`.
unfoldable pub extract_inline_content : Text → Text
unfolding first_inline
extract_inline_content input = elim (first_inline input) [
  | some content ↦ content
  | none ↦ inline_not_found
]

-- ===== src/Llm/Errors.antt =====
-- What a message says and which errors are fatal: `extractContent` and `isFatalLlmError` of
-- src/modules/llm/llm.provider.ts. The regular expressions ignore the case of ASCII letters.
use nest_langgraph_ai.Prelude.{
  Text, Bool, true, false, not, ◌&&◌, ◌||◌, ◌==◌, Option, none, some, List, [], ◌∷◌, ◌++◌, codes,
  map, or_else, some_of, is_word, is_space, to_lower, span,
}

-- An entry of a message's content: a text, or an object with or without a text.
pub data ContentPart : Type 0 where
  plain : Text → ContentPart
  object : Option Text → ContentPart

-- The content of a message; `other` holds what `String(content)` prints.
pub data Content : Type 0 where
  text : Text → Content
  parts : List ContentPart → Content
  other : Text → Content

abbrev part_text : ContentPart → Text
part_text (plain t) = t
part_text (object t) = or_else t []

-- `join('')`.
unfoldable pub concat : List Text → Text
concat [] = []
concat (t ∷ ts) = t ++ concat ts

-- `extractContent`.
unfoldable pub extract_content : Content → Text
unfolding concat
extract_content (text t) = t
extract_content (parts ps) = concat (map part_text ps)
extract_content (other t) = t

-- What is left behind a word in lower case, whatever the text's case.
unfoldable pub strip_word : Text → Text → Option Text
unfolding to_lower
strip_word [] t = some t
strip_word (a ∷ w) [] = none
strip_word (a ∷ w) (c ∷ t) =
    let rest = strip_word w t in elim (to_lower c == a) [ true ↦ rest | false ↦ none ]

-- `\b` behind a word.
unfoldable pub ends_word : Text → Bool
unfolding is_word
ends_word [] = true
ends_word (c ∷ t) = not (is_word c)

-- `word\b` here.
unfoldable pub phrase_here : Text → Text → Bool
unfolding strip_word ends_word
phrase_here w t = elim (strip_word w t) [ none ↦ false | some rest ↦ ends_word rest ]

-- `[:\s]+401\b` here, for the code 401.
unfoldable pub code_behind : Text → Text → Bool
unfolding is_space span phrase_here
code_behind digits [] = false
code_behind digits (c ∷ t) =
    (c == b':' || is_space c) && phrase_here digits (span (λ d. d == b':' || is_space d) t).1

-- `(?:status|HTTP|code)[:\s]+401\b` here, for the code 401.
unfoldable pub status_here : Text → Text → Bool
unfolding strip_word code_behind
status_here digits t =
    some_of (λ w. elim (strip_word w t) [ none ↦ false | some rest ↦ code_behind digits rest ])
      (codes "status" ∷ codes "http" ∷ codes "code" ∷ [])

-- Somewhere at the start of a word; the Boolean says that the unit before is one of a word.
unfoldable pub at_word : (Text → Bool) → Bool → Text → Bool
unfolding is_word
at_word here inside [] = false
at_word here inside (c ∷ t) = (not inside && here (c ∷ t)) || at_word here (is_word c) t

-- `isFatalLlmError`.
unfoldable pub is_fatal_llm_error : Text → Bool
unfolding at_word status_here phrase_here
is_fatal_llm_error message =
    at_word (status_here (codes "401")) false message
    || at_word (status_here (codes "400")) false message
    || at_word (phrase_here (codes "unauthorized")) false message
    || at_word (phrase_here (codes "forbidden")) false message
    || at_word (phrase_here (codes "invalid api key")) false message

-- ===== src/Tools/Envelope.antt =====
-- The result envelope: src/modules/agents/tools/tool-result.ts.
use nest_langgraph_ai.Prelude.{
  Text, ℕ, Bool, true, false, ◌||◌, Option, none, some, [], ◌∷◌, ◌++◌, length, take, ltb, leb,
  if◌then◌else◌, is_empty, codes, decimal, starts_with, trim, trim_start, some_of,
}
use nest_langgraph_ai.Json.{Json}
use nest_langgraph_ai.State.Shape.{ToolResult, ToolResultKind}

-- `looksLikeToolError`, with `ERROR_PREFIXES`.
unfoldable pub looks_like_tool_error : Text → Bool
looks_like_tool_error text =
    some_of (λ p. starts_with p (trim_start text))
      (codes "ERROR" ∷ codes "error:" ∷ codes "Tool \"" ∷ [])

-- `safePreview`.
unfoldable pub safe_preview : Text → ℕ → Text
safe_preview text max_chars =
    if is_empty text
    then codes "(empty)"
    else (if leb (length text) max_chars
        then text
        else take max_chars text
          ++ (10 ∷ 8230 ∷ codes " [truncated: "
              ++ (decimal (length text) ++ codes " chars total]")))

-- `tryJsonParse`; `JSON.parse` and `JSON.stringify(v, null, 2)` are parameters.
module _ (json_parse : Text → Option Json) (stringify_pretty : Json → Text) where
  unfoldable pub try_json_parse : Text → Option Json
  try_json_parse raw =
      if starts_with (codes "{") (trim raw) || starts_with (codes "[") (trim raw)
      then json_parse (trim raw)
      else none

  -- The envelope of a text that is neither empty nor an error.
  unfoldable pub success_result : Text → Text → Bool → ℕ → Option Json → ToolResult
  success_result tool raw truncated preview_max_chars (some v) = record {
    is_ok = true;
    kind = ToolResultKind.json;
    summary = codes "Tool returned JSON.";
    preview = safe_preview (stringify_pretty v) preview_max_chars;
    raw = raw;
    parsed = some v;
    tool = tool;
    truncated = truncated;
    error_message = none;
  }
  success_result tool raw truncated preview_max_chars none = record {
    is_ok = true;
    kind = ToolResultKind.text;
    summary = codes "Tool returned text.";
    preview = safe_preview raw preview_max_chars;
    raw = raw;
    parsed = none;
    tool = tool;
    truncated = truncated;
    error_message = none;
  }

  -- `toToolResult` behind the truncation.
  unfoldable pub classify_result : Text → Text → Bool → ℕ → ToolResult
  unfolding success_result
  classify_result tool raw truncated preview_max_chars =
      if is_empty (trim raw)
      then record {
        is_ok = false;
        kind = ToolResultKind.empty;
        summary = codes "Tool returned empty output.";
        preview = codes "(empty)";
        raw = raw;
        parsed = none;
        tool = tool;
        truncated = truncated;
        error_message = some (codes "Empty tool output");
      }
      else (if looks_like_tool_error raw
          then record {
            is_ok = false;
            kind = ToolResultKind.text;
            summary = codes "Tool returned an error.";
            preview = safe_preview raw preview_max_chars;
            raw = raw;
            parsed = none;
            tool = tool;
            truncated = truncated;
            error_message = some (safe_preview raw 500);
          }
          else success_result tool raw truncated preview_max_chars (try_json_parse raw))

  -- `toToolResult`. The slice of a text that is short enough is the text.
  unfoldable pub to_tool_result : Text → Text → ℕ → ℕ → ToolResult
  unfolding classify_result
  to_tool_result tool original_raw preview_max_chars raw_max_chars =
      classify_result tool
        (if ltb raw_max_chars (length original_raw)
          then take raw_max_chars original_raw
          else original_raw)
        (ltb raw_max_chars (length original_raw)) preview_max_chars

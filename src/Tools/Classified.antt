-- ===== src/Tools/Classified.antt =====
-- What the envelope of src/modules/agents/tools/tool-result.ts promises of a raw output.
use nest_langgraph_ai.Prelude.{
  Text, ℕ, ◌≤◌, ◌≡◌, refl, ◌↔◌, inl, inr, Bool, true, false, Option, none, some, length, take,
  length-take-le, ltb, if◌then◌else◌, Bool-cases, is_empty, trim, arith,
}
use nest_langgraph_ai.Json.{Json}
use nest_langgraph_ai.State.Shape.{ToolResult, ToolResultKind}
use nest_langgraph_ai.Tools.Envelope.{
  looks_like_tool_error, try_json_parse, success_result, classify_result, to_tool_result,
}

-- `rawMaxChars` characters of the raw output.
abbrev pub kept_raw : Text → ℕ → Text
kept_raw raw n = if ltb n (length raw) then take n raw else raw

length-kept_raw : (raw : Text) (n : ℕ) → length (kept_raw raw n) ≤ n
length-kept_raw raw n = ground (arith, length-take-le n raw)

module _ (json_parse : Text → Option Json) (stringify_pretty : Json → Text) where
  -- What the envelope says of the output that it keeps.
  pub record Describes (name kept : Text) (r : ToolResult) : Type 0 where
    pub is_ok :
        (r.is_ok ≡ true) ↔ ((is_empty (trim kept) ≡ false) × (looks_like_tool_error kept ≡ false))
    pub raw : r.raw ≡ kept
    pub tool : r.tool ≡ name
    pub kind : (r.kind ≡ ToolResultKind.empty) ↔ (is_empty (trim kept) ≡ true)
    pub error_message : (r.error_message ≡ none) ↔ (r.is_ok ≡ true)

  success-Describes :
      (name kept : Text) (b : Bool) (n : ℕ) (o : Option Json)
      → is_empty (trim kept) ≡ false
      → looks_like_tool_error kept ≡ false
      → Describes name kept (success_result json_parse stringify_pretty name kept b n o)
  unfolding success_result
  success-Describes name kept b n none filled fine = record {
    is_ok = (λ h. (filled, fine), λ h. refl);
    raw = refl;
    tool = refl;
    kind = (λ h. absurd (cc), λ h. absurd (cc));
    error_message = (λ h. refl, λ h. refl);
  }
  success-Describes name kept b n (some v) filled fine = record {
    is_ok = (λ h. (filled, fine), λ h. refl);
    raw = refl;
    tool = refl;
    kind = (λ h. absurd (cc), λ h. absurd (cc));
    error_message = (λ h. refl, λ h. refl);
  }

  classify-Describes :
      (name kept : Text) (b : Bool) (n : ℕ)
      → Describes name kept (classify_result json_parse stringify_pretty name kept b n)
  unfolding classify_result
  classify-Describes name kept b n = elim (Bool-cases (is_empty (trim kept))) [
    | inl blank ↦
        rw (blank, classify_result)
          (record {
            is_ok = (λ h. absurd (cc), λ h. absurd (cc (blank, h.0)));
            raw = refl;
            tool = refl;
            kind = (λ h. blank, λ h. refl);
            error_message = (λ h. absurd (cc), λ h. absurd (cc));
          })
    | inr filled ↦ elim (Bool-cases (looks_like_tool_error kept)) [
      | inl bad ↦
          rw (filled, bad, classify_result)
            (record {
              is_ok = (λ h. absurd (cc), λ h. absurd (cc (bad, h.1)));
              raw = refl;
              tool = refl;
              kind = (λ h. absurd (cc), λ h. absurd (cc (filled, h)));
              error_message = (λ h. absurd (cc), λ h. absurd (cc));
            })
      | inr fine ↦
          rw (filled, fine, classify_result)
            (success-Describes name kept b n (try_json_parse json_parse stringify_pretty kept)
              filled fine)
    ]
  ]

  -- The envelope keeps at most `raw_max` characters of the output, describes what it keeps, and is
  -- `ok` exactly when that is neither blank nor begins like an error; it carries an error message
  -- exactly when it is not `ok`.
  pub to_tool_result-Describes :
      (name raw : Text) (preview_max raw_max : ℕ)
      → Describes name
          (kept_raw raw raw_max)
          (to_tool_result json_parse stringify_pretty name raw preview_max raw_max)
        × (length (to_tool_result json_parse stringify_pretty name raw preview_max raw_max).raw
            ≤ raw_max)
  unfolding to_tool_result
  to_tool_result-Describes name raw preview_max raw_max =
      let d =
        classify-Describes name (kept_raw raw raw_max) (ltb raw_max (length raw)) preview_max in
      (d, rw d.raw (length-kept_raw raw raw_max))

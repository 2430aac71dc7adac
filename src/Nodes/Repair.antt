-- ===== src/Nodes/Repair.antt =====
-- Structured answers of the LLM: src/modules/agents/nodes/structured-output.util.ts and
-- parse-with-repair.util.ts.
use nest_langgraph_ai.Prelude.{
  Text, Option, none, some, [], ◌∷◌, ◌++◌, codes, join, Result, ok, err, ◌>>=◌,
}
use nest_langgraph_ai.Json.{Json}
use nest_langgraph_ai.Json.Extract.{extract_json, extract_balanced_json}
use nest_langgraph_ai.Nodes.Services.{Services}

module _ {A : Type 0} (sv : Services) (schema : Json → Result A) where
  -- `parseStructuredNodeOutput`.
  unfoldable pub parse_structured_node_output : Text → Result A
  parse_structured_node_output raw = extract_json sv.json_parse raw >>= schema

  -- The fast path: `tryRegexJsonExtract` has the text of `extractBalancedJson`.
  unfoldable pub parse_extracted : Text → Option A
  unfolding parse_structured_node_output
  parse_extracted raw = elim (extract_balanced_json raw) [
    | none ↦ none
    | some t ↦ elim (parse_structured_node_output t) [ ok a ↦ some a | err e ↦ none ]
  ]

  unfoldable pub repair_prompt : Text → Text → Text
  repair_prompt schema_description raw = join (10 ∷ []) (
      codes "You are a JSON repair utility."
      ∷ codes "Return ONLY a single valid JSON object matching the schema. No prose, no markdown."
      ∷ []
      ∷ (codes "Schema: " ++ schema_description)
      ∷ []
      ∷ codes "Invalid input to repair:"
      ∷ raw
      ∷ [])

  -- `parseWithRepair`: the answer itself, its first balanced object, and one repair by the LLM.
  unfoldable pub parse_with_repair : Text → Text → Result A
  unfolding parse_structured_node_output parse_extracted
  parse_with_repair schema_description raw =
      let repaired : Result A =
        sv.invoke_llm (repair_prompt schema_description raw) >>= parse_structured_node_output in
      elim (parse_structured_node_output raw) [
        | ok a ↦ ok a
        | err e ↦ elim (parse_extracted raw) [ some a ↦ ok a | none ↦ repaired ]
      ]

-- ===== src/Tools.antt =====
-- Tools and their registry: src/modules/agents/tools/tool.registry.ts. A tool itself
-- (`StructuredToolInterface` of LangChain) is a record of what the program reads and calls.
pub mod Envelope
pub mod Registered
pub mod Classified
use nest_langgraph_ai.Prelude.{
  Text, ℕ, Bool, true, false, not, Option, none, some, List, [], ◌∷◌, map, lookup, insert, has,
  if◌then◌else◌, is_empty, Result, ok, err, error, codes, ◌++◌, or_else,
}
use nest_langgraph_ai.State.Shape.{Params}

-- `ToolRiskLevel`.
pub data ToolRiskLevel : Type 0 where
  read_only network_read write network_write execute : ToolRiskLevel

-- `ToolCapabilityMetadata`.
pub record ToolCapabilityMetadata : Type 0 where
  pub risk : ToolRiskLevel
  pub parallel_safe : Bool

-- `DEFAULT_TOOL_CAPABILITY` and `DEFAULT_CAPABILITY` of the plan validator.
abbrev pub default_tool_capability : ToolCapabilityMetadata
default_tool_capability = record { risk = ToolRiskLevel.execute; parallel_safe = false }

-- One call of a tool under its timer: what `invoke` did, and whether the timer had fired by then.
pub record ToolRun : Type 0 where
  pub outcome : Result Text
  pub timed_out : Bool

-- `safe_parse` gives the issues' text where the tool has a schema and the parameters break it;
-- `is_array_field` is `isZodArrayField` of the schema's shape at a key.
pub record Tool : Type 0 where
  pub name : Text
  pub description : Text
  pub safe_parse : Params → Option Text
  pub is_array_field : Text → Bool
  pub invoke : Params → ToolRun

-- The maps of `ToolRegistry`, less the two caches of prompt text.
pub record ToolRegistry : Type 0 where
  pub tools : List (Text × Tool)
  pub param_hints : List (Text × Text)
  pub capabilities : List (Text × ToolCapabilityMetadata)

unfoldable pub empty_registry : ToolRegistry
empty_registry = record { tools = []; param_hints = []; capabilities = [] }

-- `ToolRegistration`.
pub record ToolRegistration : Type 0 where
  pub tool : Tool
  pub param_hint : Option Text
  pub capability : Option ToolCapabilityMetadata

-- `if (paramHint) this.paramHints.set(...)`.
set_hint : Text → Option Text → List (Text × Text) → List (Text × Text)
set_hint name none hints = hints
set_hint name (some hint) hints = if is_empty hint then hints else insert name hint hints

-- The writes of `register`.
unfoldable pub add_registration : ToolRegistry → ToolRegistration → ToolRegistry
unfolding set_hint
add_registration reg r = record {
  tools = insert r.tool.name r.tool reg.tools;
  param_hints = set_hint r.tool.name r.param_hint reg.param_hints;
  capabilities = insert r.tool.name (or_else r.capability default_tool_capability) reg.capabilities;
}

-- `register`: a name that is taken throws.
unfoldable pub register : ToolRegistry → ToolRegistration → Result ToolRegistry
unfolding add_registration
register reg r =
    if has r.tool.name reg.tools
    then err (error (codes "Tool \"" ++ (r.tool.name ++ codes "\" is already registered")))
    else ok (add_registration reg r)

-- `registerAll`, which stops at the first registration that throws.
unfoldable pub register_all : ToolRegistry → List ToolRegistration → Result ToolRegistry
unfolding register
register_all reg [] = ok reg
register_all reg (r ∷ rs) = elim (register reg r) [ ok reg' ↦ register_all reg' rs | err e ↦ err e ]

-- `ToolRegistry.from`.
unfoldable pub from_registrations : List ToolRegistration → Result ToolRegistry
unfolding register_all
from_registrations rs = register_all empty_registry rs

unfoldable pub get_tool : ToolRegistry → Text → Option Tool
get_tool reg name = lookup name reg.tools

unfoldable pub get_names : ToolRegistry → List Text
get_names reg = map (λ entry. entry.0) reg.tools

-- `getCapability(name) ?? DEFAULT_CAPABILITY`.
unfoldable pub get_capability : ToolRegistry → Text → ToolCapabilityMetadata
get_capability reg name = or_else (lookup name reg.capabilities) default_tool_capability

-- ===== src/Tools/Registered.antt =====
-- What src/modules/agents/tools/tool.registry.ts promises of registrations and lookups.
use nest_langgraph_ai.Prelude.{
  some-injective, Text, ℕ, zero, suc, ◌≡◌, refl, sym, ap, ◌∙◌, inl, inr, true, false, some, List,
  [], ◌∷◌, get_elem?, has, lookup-insert, if◌then◌else◌, Bool-cases, arith, ok, ok-injective,
  Result-cases, text_eq, text_eq_iff, text_eq_refl,
}
use nest_langgraph_ai.Tools.{
  Tool, ToolRegistry, ToolRegistration, add_registration, register, register_all, get_tool,
}

abbrev IsTaken : ToolRegistry → ToolRegistration → Type 0
IsTaken reg r = has r.tool.name reg.tools ≡ true

register-free :
    (reg : ToolRegistry) (r : ToolRegistration)
    → has r.tool.name reg.tools ≡ false
    → register reg r ≡ ok (add_registration reg r)
unfolding register
register-free reg r e = rw (e, register) refl

register-ok :
    (reg reg' : ToolRegistry) (r : ToolRegistration)
    → register reg r ≡ ok reg'
    → (has r.tool.name reg.tools ≡ false) × (add_registration reg r ≡ reg')
unfolding register
register-ok reg reg' r h = elim (Bool-cases (has r.tool.name reg.tools)) [
  | inl e ↦ absurd (ground arith)
  | inr e ↦ (e, cc (register-free reg r e, h))
]

get_tool-add_registration :
    (reg : ToolRegistry) (r : ToolRegistration) (name : Text)
    → get_tool (add_registration reg r) name
      ≡ (if text_eq r.tool.name name then some r.tool else get_tool reg name)
unfolding add_registration get_tool
get_tool-add_registration reg r name = lookup-insert r.tool.name name r.tool reg.tools

get_tool-register :
    (reg reg' : ToolRegistry) (r : ToolRegistration) (name : Text)
    → register reg r ≡ ok reg'
    → get_tool reg' name ≡ (if text_eq r.tool.name name then some r.tool else get_tool reg name)
get_tool-register reg reg' r name h =
    ap (λ g. get_tool g name) (sym (register-ok reg reg' r h).1)
    ∙ get_tool-add_registration reg r name

get_tool-registered :
    (reg reg' : ToolRegistry) (r : ToolRegistration)
    → register reg r ≡ ok reg'
    → get_tool reg' r.tool.name ≡ some r.tool
get_tool-registered reg reg' r h =
    get_tool-register reg reg' r r.tool.name h ∙ rw (text_eq_refl r.tool.name) refl

-- A registered tool is not replaced by a later registration.
get_tool-kept :
    (reg reg' : ToolRegistry) (r : ToolRegistration) (name : Text) (tool : Tool)
    → register reg r ≡ ok reg'
    → get_tool reg name ≡ some tool
    → get_tool reg' name ≡ some tool
unfolding get_tool has
get_tool-kept reg reg' r name tool h e = ground (
  arith,
  get_tool-register reg reg' r name h,
  (register-ok reg reg' r h).0,
  text_eq_iff r.tool.name name,
)

register_all-cons :
    (reg reg' : ToolRegistry) (r : ToolRegistration) (rs : List ToolRegistration)
    → register_all reg (r ∷ rs) ≡ ok reg'
    → (mid : ToolRegistry) × ((register reg r ≡ ok mid) × (register_all mid rs ≡ ok reg'))
unfolding register_all
register_all-cons reg reg' r rs h = elim (Result-cases (register reg r)) [
  | inl (mid, e) ↦ (mid, (e, onward e ∙ h))
  | inr (e, failed) ↦ absurd (ground (arith, failed))
]
  where
    onward :
        {mid : ToolRegistry}
        → register reg r ≡ ok mid
        → register_all mid rs ≡ register_all reg (r ∷ rs)
    onward e = rw (e, register_all) refl

get_tool-register_all-kept :
    (reg reg' : ToolRegistry) (rs : List ToolRegistration) (name : Text) (tool : Tool)
    → register_all reg rs ≡ ok reg'
    → get_tool reg name ≡ some tool
    → get_tool reg' name ≡ some tool
unfolding register_all
get_tool-register_all-kept reg reg' [] name tool h e =
    ap (λ g. get_tool g name) (sym (ok-injective reg reg' h)) ∙ e
get_tool-register_all-kept reg reg' (r ∷ rs) name tool h e =
    let (mid, (a, b)) = register_all-cons reg reg' r rs h in
    get_tool-register_all-kept mid reg' rs name tool b (get_tool-kept reg mid r name tool a e)

-- Where a list of registrations is taken without an error, the tool of each of them is found under
-- its name.
pub get_tool-register_all :
    (reg reg' : ToolRegistry) (rs : List ToolRegistration) (i : ℕ) (r : ToolRegistration)
    → register_all reg rs ≡ ok reg'
    → get_elem? rs i ≡ some r
    → get_tool reg' r.tool.name ≡ some r.tool
get_tool-register_all reg reg' [] i r h e = absurd (cc)
get_tool-register_all reg reg' (x ∷ xs) zero r h e =
    let (mid, (a, b)) = register_all-cons reg reg' x xs h in
    get_tool-register_all-kept mid reg' xs r.tool.name r.tool b (
      ap (λ y. get_tool mid y.tool.name) (sym (some-injective x r e))
      ∙ get_tool-registered reg mid x a
      ∙ ap (λ y. some y.tool) (some-injective x r e))
get_tool-register_all reg reg' (x ∷ xs) (suc i) r h e =
    let (mid, (a, b)) = register_all-cons reg reg' x xs h in
    get_tool-register_all mid reg' xs i r b e

-- ===== src/Sandbox.antt =====
-- The directory that tools may touch, `sandboxPath` of src/common/utils/path.util.ts. `resolve` of
-- node:path is a parameter.
use nest_langgraph_ai.Prelude.{
  Text, ◌≡◌, refl, sym, ap, ◌∙◌, ◌⊎◌, inl, inr, true, false, ◌||◌, ◌++◌, codes, drop, length,
  text_eq, text_eq_iff, starts_with, starts_with-append, starts_with-prefix, Bool-cases,
  if◌then◌else◌, Settled, returned, threw, arith,
}
use mathlib.Core.List.{append_assoc}

-- The message of the error that `sandboxPath` throws.
unfoldable pub denied : (input_path target root : Text) → Text
denied input_path target root =
    codes "Access denied: \""
    ++ (input_path
        ++ (codes "\" resolves to \""
            ++ (target
                ++ (codes "\", which is outside the allowed working directory \""
                    ++ (root ++ codes "\". Set AGENT_WORKING_DIR to expand the sandbox.")))))

-- `sandboxPath`, with the configured working directory.
unfoldable pub sandbox_path :
    (resolve : Text → Text) → (working_dir input_path : Text) → Settled Text
unfolding text_eq starts_with denied
sandbox_path resolve working_dir input_path =
    let root = resolve working_dir in
    let target = resolve input_path in
    if text_eq target root || starts_with (root ++ codes "/") target
    then returned target
    else threw (denied input_path target root)

-- The directory itself, or its path with a `/` and a rest behind it.
pub Inside : (root path : Text) → Type 0
Inside root path = (path ≡ root) ⊎ ((rest : Text) × (path ≡ root ++ (codes "/" ++ rest)))

Inside-starts_with :
    (root path : Text)
    → text_eq path root ≡ false
    → starts_with (root ++ codes "/") path ≡ false
    → ¬ Inside root path
unfolding Inside
Inside-starts_with root path h g = λ i. elim i [
  | inl e ↦ let f = (text_eq_iff path root).1 e in ground arith
  | inr (rest, e) ↦
      let f : path ≡ (root ++ codes "/") ++ rest = e ∙ sym (append_assoc root (codes "/") rest) in
      let k : starts_with (root ++ codes "/") path ≡ true =
        ap (starts_with (root ++ codes "/")) f ∙ starts_with-prefix (root ++ codes "/") rest in
      ground arith
]

-- A path that resolves to the working directory, or to its path with a `/` and a rest behind it, gives
-- what it resolves to; every other path is denied with a message that names both.
pub sandbox_path-Inside :
    (resolve : Text → Text) (working_dir input_path : Text)
    → (Inside (resolve working_dir) (resolve input_path)
        × (sandbox_path resolve working_dir input_path ≡ returned (resolve input_path)))
      ⊎ ((¬ Inside (resolve working_dir) (resolve input_path))
          × (sandbox_path resolve working_dir input_path
              ≡ threw (denied input_path (resolve input_path) (resolve working_dir))))
unfolding sandbox_path Inside
sandbox_path-Inside resolve working_dir input_path =
    let root = resolve working_dir in
    let target = resolve input_path in
    elim (Bool-cases (text_eq target root)) [
      | inl e ↦ inl (inl ((text_eq_iff target root).0 e), rw e refl)
      | inr e ↦ elim (Bool-cases (starts_with (root ++ codes "/") target)) [
        | inl f ↦
            let below =
              starts_with-append (root ++ codes "/") target f
              ∙ append_assoc root (codes "/") (drop (length (root ++ codes "/")) target) in
            inl (inr (drop (length (root ++ codes "/")) target, below), rw (e, f) refl)
        | inr f ↦ inr (Inside-starts_with root target e f, rw (e, f) refl)
      ]
    ]

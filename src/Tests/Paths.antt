-- ===== src/Tests/Paths.antt =====
-- The theorem on the directory that tools may touch at concrete paths, and runs of the check.
use nest_langgraph_ai.Prelude.{Text, ◌≡◌, refl, ◌⊎◌, codes, text_eq, if◌then◌else◌, returned, threw}
use nest_langgraph_ai.Sandbox.{sandbox_path, denied, Inside, sandbox_path-Inside}

abbrev work : Text
work = codes "/work"

abbrev climbing : Text
climbing = codes "/work/../etc/passwd"

abbrev secret : Text
secret = codes "/etc/passwd"

-- Absolute paths stay what they are, but for one with a `..`.
abbrev resolve : Text → Text
resolve path = if text_eq path climbing then secret else path

sandbox_path-Inside_example :
    (Inside (resolve work) (resolve climbing)
      × (sandbox_path resolve work climbing ≡ returned (resolve climbing)))
    ⊎ ((¬ Inside (resolve work) (resolve climbing))
        × (sandbox_path resolve work climbing
            ≡ threw (denied climbing (resolve climbing) (resolve work))))
sandbox_path-Inside_example = sandbox_path-Inside resolve work climbing

sandbox_path-climbing : sandbox_path resolve work climbing ≡ threw (denied climbing secret work)
unfolding sandbox_path denied codes text_eq
sandbox_path-climbing = refl

sandbox_path-file : sandbox_path resolve work (codes "/work/a.ts") ≡ returned (codes "/work/a.ts")
unfolding sandbox_path codes text_eq
sandbox_path-file = refl

-- A directory whose name only begins like the working directory's is outside.
sandbox_path-sibling :
    sandbox_path resolve work (codes "/work2/a.ts")
    ≡ threw (denied (codes "/work2/a.ts") (codes "/work2/a.ts") work)
unfolding sandbox_path denied codes text_eq
sandbox_path-sibling = refl

-- With the root of the file system as the working directory, every path below it is denied.
sandbox_path-root :
    sandbox_path resolve (codes "/") (codes "/a.ts")
    ≡ threw (denied (codes "/a.ts") (codes "/a.ts") (codes "/"))
unfolding sandbox_path denied codes text_eq
sandbox_path-root = refl

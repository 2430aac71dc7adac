-- ===== src/Tests/Runs.antt =====
-- Runs of the model at fixed inputs.
use nest_langgraph_ai.Prelude.{◌≡◌, refl, true, some, codes, includes, replace_all}
use nest_langgraph_ai.Nodes.Execution.{resolve_previous}

-- A previous result that holds `$&` is not inserted as it is: the replacement string is expanded.
previous_result-dollar :
    resolve_previous (some (codes "price $& end")) (codes "__PREVIOUS_RESULT__")
    ≡ (codes "price __PREVIOUS_RESULT__ end", true)
unfolding resolve_previous codes includes replace_all
previous_result-dollar = refl

previous_result-plain :
    resolve_previous (some (codes "ok")) (codes "<__PREVIOUS_RESULT__>") ≡ (codes "<ok>", true)
unfolding resolve_previous codes includes replace_all
previous_result-plain = refl

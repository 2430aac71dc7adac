-- ===== src/Topology.antt =====
-- The graph's nodes and edges: src/modules/agents/graph/agent-topology.ts, agent-node-names.ts and
-- agent.graph.ts. LangGraph runs it; what it does with the edges is stated in `Run`.
pub mod Routes
pub mod Listed
use nest_langgraph_ai.Prelude.{
  Text, Bool, true, false, not, ◌&&◌, ◌||◌, Option, none, some, List, [], ◌∷◌, ◌++◌, codes, map,
  some_of, keep_if, if◌then◌else◌, Thrown, error, bubble_up, Result, ok, err,
}
use nest_langgraph_ai.State.Phase.{Phase, phase_eq, routable_agent_phases}
use nest_langgraph_ai.State.Shape.{AgentState, AgentError, ErrorCode}
use nest_langgraph_ai.State.Updates.{Updates}
use nest_langgraph_ai.State.Transitions.{fail_agent_run}
use nest_langgraph_ai.Router.{decision_router_node}
use nest_langgraph_ai.Nodes.Services.{Services}
use nest_langgraph_ai.Nodes.Planning.{
  planner_node, researcher_coordinator_node, research_join_node, await_plan_review_node,
}
use nest_langgraph_ai.Nodes.Validation.{plan_validator_node}
use nest_langgraph_ai.Nodes.Execution.{execution_node}
use nest_langgraph_ai.Nodes.Parallel.{parallel_execution_node}
use nest_langgraph_ai.Nodes.Normalizing.{tool_result_normalizer_node}
use nest_langgraph_ai.Nodes.Judging.{critic_node}
use nest_langgraph_ai.Nodes.Supervising.{supervisor_node}
use nest_langgraph_ai.Nodes.Answering.{generator_node, chat_node}
use nest_langgraph_ai.Nodes.Terminal.{terminal_response_node}
use nest_langgraph_ai.Nodes.Researching.{
  research_fs_node, research_vector_node, memory_persist_node,
}

-- `AGENT_GRAPH_NODES`.
pub data NodeName : Type 0 where
  supervisor researcher_coordinator research_fs research_vector research_join : NodeName
  planner plan_validator await_plan_review execute execute_parallel : NodeName
  tool_result_normalizer critic generator memory_persist chat terminal_response router : NodeName

pub NodeName-discrete : Discrete NodeName
NodeName-discrete = hlevel

unfoldable pub node_text : NodeName → Text
node_text supervisor = codes "supervisor"
node_text researcher_coordinator = codes "researcher_coordinator"
node_text research_fs = codes "research_fs"
node_text research_vector = codes "research_vector"
node_text research_join = codes "research_join"
node_text planner = codes "planner"
node_text plan_validator = codes "plan_validator"
node_text await_plan_review = codes "await_plan_review"
node_text execute = codes "execute"
node_text execute_parallel = codes "execute_parallel"
node_text tool_result_normalizer = codes "tool_result_normalizer"
node_text critic = codes "critic"
node_text generator = codes "generator"
node_text memory_persist = codes "memory_persist"
node_text chat = codes "chat"
node_text terminal_response = codes "terminal_response"
node_text router = codes "router"

abbrev pub node_error : AgentState → Text → AgentError
node_error s message = record {
  code = ErrorCode.unknown;
  message = message;
  at_phase = s.phase;
  missing_capabilities = none;
}

-- `safeNodeHandler`: an error becomes a fatal update, a pause of the graph is thrown on.
unfoldable pub safe_node_handler : NodeName → AgentState → Result Updates → Result Updates
unfolding fail_agent_run
safe_node_handler name s (ok u) = ok u
safe_node_handler name s (err bubble_up) = err bubble_up
safe_node_handler name s (err (error message)) = ok (
    fail_agent_run (codes "Internal error in " ++ (node_text name ++ (codes ": " ++ message)))
      (some (node_error s message)))

-- The handler that a name stands for. `resumed` says whether the graph is being resumed.
unfoldable pub raw_handler : Services → Bool → NodeName → AgentState → Result Updates
raw_handler sv resumed supervisor s = supervisor_node sv s
raw_handler sv resumed researcher_coordinator s = researcher_coordinator_node s
raw_handler sv resumed research_fs s = research_fs_node sv s
raw_handler sv resumed research_vector s = research_vector_node sv s
raw_handler sv resumed research_join s = research_join_node s
raw_handler sv resumed planner s = planner_node sv s
raw_handler sv resumed plan_validator s = plan_validator_node sv s
raw_handler sv resumed await_plan_review s = await_plan_review_node resumed s
raw_handler sv resumed execute s = execution_node sv s
raw_handler sv resumed execute_parallel s = parallel_execution_node sv s
raw_handler sv resumed tool_result_normalizer s = tool_result_normalizer_node sv s
raw_handler sv resumed critic s = critic_node sv s
raw_handler sv resumed generator s = generator_node sv s
raw_handler sv resumed memory_persist s = memory_persist_node sv s
raw_handler sv resumed chat s = chat_node sv s
raw_handler sv resumed terminal_response s = terminal_response_node s
raw_handler sv resumed router s = ok (decision_router_node sv.env s)

-- `AGENT_GRAPH_NODE_HANDLERS`.
unfoldable pub node_handler : Services → Bool → NodeName → AgentState → Result Updates
unfolding raw_handler safe_node_handler
node_handler sv resumed name s = safe_node_handler name s (raw_handler sv resumed name s)

-- `ROUTABLE_PHASE_NODE_MAP`; `none` for the phases that it does not list.
unfoldable pub routable_phase_node_map : Phase → Option NodeName
routable_phase_node_map Phase.supervisor = some supervisor
routable_phase_node_map Phase.research = some researcher_coordinator
routable_phase_node_map Phase.research_join = some research_join
routable_phase_node_map Phase.plan = some planner
routable_phase_node_map Phase.validate_plan = some plan_validator
routable_phase_node_map Phase.await_plan_review = some await_plan_review
routable_phase_node_map Phase.execute = some execute
routable_phase_node_map Phase.normalize_tool_result = some tool_result_normalizer
routable_phase_node_map Phase.judge = some critic
routable_phase_node_map Phase.generate = some generator
routable_phase_node_map Phase.chat = some chat
routable_phase_node_map Phase.fatal_recovery = some terminal_response
routable_phase_node_map Phase.clarification = some terminal_response
routable_phase_node_map Phase.execute_parallel = some execute_parallel
routable_phase_node_map Phase.route = none
routable_phase_node_map Phase.complete = none
routable_phase_node_map Phase.fatal = none

-- The end of a run, or a node.
pub data Target : Type 0 where
  end : Target
  node : NodeName → Target

abbrev node_or_supervisor : Option NodeName → Target
node_or_supervisor none = node supervisor
node_or_supervisor (some n) = node n

-- `resolveRouterTarget`.
unfoldable pub resolve_router_target : Phase → Target
unfolding routable_phase_node_map routable_agent_phases
resolve_router_target p =
    if phase_eq p Phase.complete
    then end
    else (if phase_eq p Phase.fatal
        then node terminal_response
        else (if phase_eq p Phase.route
            then node supervisor
            else (if some_of (phase_eq p) routable_agent_phases
                then node_or_supervisor (routable_phase_node_map p)
                else node supervisor)))

unfoldable pub all_nodes : List NodeName
all_nodes =
    supervisor ∷ researcher_coordinator ∷ research_fs ∷ research_vector ∷ research_join ∷ planner
    ∷ plan_validator ∷ await_plan_review ∷ execute ∷ execute_parallel ∷ tool_result_normalizer
    ∷ critic ∷ generator ∷ memory_persist ∷ chat ∷ terminal_response ∷ router ∷ []

-- `NODES_WITHOUT_ROUTER_EDGE`, as a test.
unfoldable pub is_without_router_edge : NodeName → Bool
is_without_router_edge router = true
is_without_router_edge researcher_coordinator = true
is_without_router_edge research_fs = true
is_without_router_edge research_vector = true
is_without_router_edge generator = true
is_without_router_edge memory_persist = true
is_without_router_edge _ = false

-- `ROUTER_RETURN_NODES`.
unfoldable pub router_return_nodes : List NodeName
unfolding all_nodes is_without_router_edge
router_return_nodes = keep_if (λ n. not (is_without_router_edge n)) all_nodes

-- The static edges of agent.graph.ts, less the entry at the supervisor.
unfoldable pub graph_edges : List (NodeName × Target)
unfolding router_return_nodes
graph_edges =
    map (λ n. (n, node router)) router_return_nodes
    ++ ((researcher_coordinator, node research_fs)
        ∷ (researcher_coordinator, node research_vector)
        ∷ (research_fs, node research_join)
        ∷ (research_vector, node research_join)
        ∷ (generator, node router)
        ∷ (generator, node memory_persist)
        ∷ (memory_persist, end)
        ∷ [])

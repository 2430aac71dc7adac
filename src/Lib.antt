-- ===== src/Lib.antt =====
-- nest-langgraph-ai: the agent of src/modules/agents, a graph of nodes that plan, execute, judge and
-- answer, driven by a deterministic router.
--
-- The program's parts and their files:
--   Prelude        Boolean tests, lists, texts (UTF-16 code units), maps, results that may throw
--   Json           src/common/utils: extraction of JSON from an answer, coercion to arrays
--   State          src/modules/agents/state: the phases, the state record and its channel reducers
--                  (`apply_updates`), the transitions, the initial state
--   Config         src/common/config/env.ts and src/modules/agents/graph/agent.config.ts
--   Tools          src/modules/agents/tools: the registry and the result envelope
--   Nodes          src/modules/agents/nodes: one module for each node or small group of nodes, from
--                  the state to the updates (`Result Updates`); Nodes.Services holds what they call
--   Router         src/modules/agents/nodes/decision-router.node.ts (`decisionRouterNode`)
--   Llm            src/modules/llm: the model router, the cache of instances, the circuit breakers
--                  (`checkCircuitBreaker` and its siblings), retries of calls and streams
--   Http           src/modules/agents/tools/http-*.ts: the guard against private networks, redirects,
--                  the two tools
--   Sandbox        src/common/utils/path.util.ts: the directory that tools may touch
--   Redis          the commands of Redis that the program uses, as an interface with laws
--   Saver          src/modules/agents/utils/redis-saver.ts: checkpoints, memory and ids in Redis
--   Sessions       src/modules/agents/services and the lock of agents.service.ts: locks, memory entries,
--                  reviews of plans by the user
--   Service        src/modules/agents/agents.service.ts: `run` and `streamRun`
--   Topology       src/modules/agents/graph: the handlers, the router's targets, the edges
--   Run            cycles of the graph, `run` on fuel, and what holds of whole runs
--   Tests          test data, runs at fixed inputs and the theorems at concrete inputs
--
-- A node reads the state and returns updates; the reducers make the next state of them; the router
-- reads it and selects the next node by the phase. One node with the router behind it is a cycle of
-- `Run`. The two research branches read the same state, and their updates are applied one after the
-- other.
--
-- Parameters of the model, in Nodes.Services: the LLM, JSON.parse and JSON.stringify, Zod's
-- structural parsing, node:path, the vector store and the prompt builders. A tool is a record of
-- what the program reads of it, with one function for its call; a timer is a Boolean beside the
-- call's outcome. They may answer differently in each cycle of a run.
--
-- Bounds: counters are natural numbers that only grow, so no wrap-around is modelled. The fuel of a
-- run counts cycles; each cycle lowers the measure of Run.Measure, which starts at no more than 1,089
-- for the ranges that the configuration allows (10 turns of weight 100, and 89 for the first phase).
-- LangGraph's own limit of supersteps (`recursionLimit`) is a second argument of `run`: a node and the
-- router are two supersteps, a research cycle four, and a run that needs more than there are ends with
-- a `GraphRecursionError`; what LangGraph saved of the unfinished cycle is not modelled.
--
-- A request to the service (Service) takes the session's lock, starts the graph of Run on the initial
-- state, and remembers the result; the graph itself stands there as a parameter that leaves a saved
-- state. A call of the LLM in a node goes through Llm. Time is a natural number of milliseconds that
-- each operation is given; an operation between two waits reads the clock once. Other requests act in
-- between where the theorems say so: as a list of operations on a lock, or as a function on the
-- breakers while a call is awaited.
--
-- External code as an interface: Redis with its laws (Redis.IsRedis, Redis.ArePipelines), for which
-- Tests.Store has an instance; URL parsing, DNS and fetch (Http.Guard.Platform); the LLM's client
-- library (Llm.Calls.Client); hash functions (Service.Cache.Hashes).
--
-- Not modelled: the controller, the data transfer objects' validation, feedback, listing of sessions
-- and checkpoints, the vector database, health and metrics, the individual tools but for the HTTP
-- tools, logs, and the prompt texts. A pause of the graph is a thrown value. A failure to release a
-- lock, an error of reading the saved state behind a stream's last graph event, and a reader that
-- leaves a stream early are not modelled. In `approve` the acquisition of the lock always
-- reaches Redis; in `run` and `streamRun` its error is modelled.
pub mod Prelude
pub mod Llm
pub mod Http
pub mod Sandbox
pub mod Redis
pub mod Saver
pub mod Sessions
pub mod Service
pub mod Tests
pub mod Json
pub mod State
pub mod Config
pub mod Router
pub mod Tools
pub mod Nodes
pub mod Topology
pub mod Run

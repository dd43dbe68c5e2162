-- ===== src/Lib.antt =====
-- Kelvin Assistant: a model of the server's core, with its theorems.
--
-- The program is a local assistant. Its agent turns a goal into tool calls: a planner proposes a
-- call, a deterministic policy allows it, asks for an approval or denies it, a user decides on the
-- approval, a client executes the call, and the result goes back to the planner. The run of an agent
-- is an immutable value with a status, a step count and a version, and a store keeps the runs by
-- optimistic version checks. Chat turns are kept in sessions in the same way, and every request passes a
-- check of its token's scope. Paths below are under backend/src/kelvin_assistant.
--
-- Prelude: what the model takes of Python. `Texts` is str as the list of its code points, `Strip` is
-- str.strip, `Search` is `in`, startswith, join, replace, split, splitlines and partition; `Regex` is the part of re that the validators use, with
-- derivatives for fullmatch; `Dict` is dict, in insertion order; `Sort` is sorted; `Int` is int and
-- float by exact values; `Result` is exceptions: of an exception only its class is kept.
-- Domain.Json: JsonValue and _freeze_json of domain/agent.py.
-- Domain.Agent: domain/agent.py. `Status` has the enumerations and the table of transitions, `Names` the two
-- patterns (`Names.Shape` describes the texts of the first one), `Run` AgentRun (`run_post_init` is __post_init__, `create_run` is create), `Tools` the other records
-- (`make_x` constructs an x with its __post_init__).
-- Ports.Tools: the ToolRegistry protocol of ports/tools.py, as an interface; Tools.Registry implements it.
-- Tools: tools/registry.py (`make_registry`, `get_tool`, `list_all`) and tools/workspaces.py.
-- Application.ToolPolicy: application/tool_policy.py, over any registry; `Paths` describes the paths that its test on
-- a path lets through.
-- Application.Agent: application/agent.py, over any policy. `Calls` is the relation of its calls in any order.
-- Adapters.MemoryAgentRuns: adapters/memory_agent_runs.py; `cancel_stored` is cancel_run, `add_run`, `get_run` and
-- `update_run` are add, get and update. A method holds one lock throughout, so it is one step on the state.
-- Domain.ContextGuard: domain/context_guard.py, over the input guard, of which only the result is used.
-- Domain.Planner: domain/planner.py. Application.AgentPlanning: application/agent_planning.py, over a planner, a
-- registry and a policy; `apply_action` is the part of apply_decision after its guard.
-- Domain.Chat: domain/chat.py. Ports.Sessions: the SessionStore protocol, with laws that Adapters.MemorySessions
-- (adapters/memory_sessions.py) keeps. Application.Chat: application/chat.py; `prepare_turn` is a turn before the
-- model answers and `persist_turn` after it, since other turns may run while the model works.
-- Domain.Knowledge: domain/knowledge.py. Application.Knowledge: ParagraphChunker of application/knowledge.py; what
-- a chunk keeps of its text is said by `Prelude.Search.Visible`, the characters that are no white space.
-- Domain.Auth: domain/auth.py. Adapters.FileApiTokens: adapters/file_api_tokens.py, with SHA-256 as a parameter
-- and a configuration as its JSON value. Api.Dependencies: require_scope of api/dependencies.py.
-- Api.Program: a handler as a program, in which every call of the run store is one step, so that other requests run
-- between two of them; `run_alone` is a request with no other, `Api.AgentRoutes.System` any number of them, of which
-- a list of moves says who makes the next step. Api.AgentRoutes: api/agent_routes.py, Api.Responses: its responses.
-- `Services` is what the handlers get by Depends, and `run_context` what the policy is told of the workspace of a run; Api.RouteErrors has their except clauses. `StoreInvariant` says what holds of the store between two steps,
-- `Safe` which programs keep it, `Handlers`, `ToolHandlers` and `PlanNext` that the handlers do.
-- Ports.AgentClient: ports/agent_client.py. A client asks questions, of the server, of the executors and of the user,
-- and a world answers them; Application.LocalAgent: application/local_agent.py. `goal_loop` recurs on the number of turns.
-- Adapters.WriteTools: adapters/write_tools.py, over a `Host`, which is what the operating system answers at one time.
-- Domain.Memory, Application.Memory, Api.MemoryRoutes: domain/memory.py, application/memory.py and
-- api/memory_routes.py, over a repository. Adapters.MemorySecurityAudit: adapters/memory_security_audit.py.
-- Tests: small inputs and the theorems at them.
--
-- The clock and fresh identifiers are arguments: `now` is what the clock returns in the call. Times,
-- identifiers and the counters are natural numbers, so the guards against negative numbers have no
-- counterpart. Every loop of the code runs over a list or a dict, but for three: the slices of a long paragraph
-- recur on fuel, the length of the text, which is enough as every slice takes a character at least; the turns of
-- a goal on their number; and `digits`, the decimal text of a number, on fuel that is more than the number, which
-- is enough as every digit divides it by ten.
-- Not modelled: notifications beyond their being sent, the settings, the ingestion and search of documents around
-- the chunker, the read tools, and the searches of the input guard; nor databases, HTTP, the language model, the
-- file system and the command line, which are I/O, and the texts of exceptions and log lines. mask_secrets and
-- should_ignore_path, which search by regular expressions and by file globs, are parameters where they are called.
pub mod Prelude
pub mod Domain
pub mod Ports
pub mod Tools
pub mod Application
pub mod Adapters
pub mod Api
mod Tests

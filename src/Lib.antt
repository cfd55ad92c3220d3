-- ===== src/Lib.antt =====
-- The graph runtime of agent-orchestration-core, which runs conversational flows: a flow is a graph
-- of nodes, compiled to an execution plan; a run starts at a node, executes it, evaluates the
-- conditions on the node's edges in the new context, and goes on to the one node whose edge holds.
--
-- The same step of a node serves two engines. `RuntimeExecutor` loops in the process and keeps the
-- context and the loop counters in memory. `FlowRunWorkflow` is a Temporal workflow: it calls an
-- activity for every step, the activity restores the context from the graph state that the step
-- before has saved, and the workflow counts the loop edges itself.
--
-- The files, with the code that they model (paths from src/):
--   Common, Common/*: names, dictionaries, exceptions as values. A Python call returns `ok` with a
--     value or `err` with an exception, `domain m` for DomainValidationException with message m.
--   Value, Value/*: the Python values of a run, which are JSON without floats, and Python's truth,
--     `==`, `<`, `in` and iteration on them.
--   EdgeEvaluator: EdgeEvaluator._eval and is_true of
--     domain/execution/services/graph_runtime/edge_evaluator.py. EdgeEvaluator/Paths is
--     SubstituteVal.resolve, EdgeEvaluator/Operators the tables of operators and functions.
--     EdgeEvaluator/Logic and EdgeEvaluator/Errors are proofs.
--   Runtime/Types: execution_plan.py and types.py of graph_runtime; the repository as the rows that
--     are read back and the log of all writes.
--   Runtime/Fallback: fallback_reason_resolver.py.
--   Runtime/Edges, Runtime/Records, Runtime/Step: NodeStepRunner of node_step_runner.py, that is
--     _evaluate_edges, the records of a result, and run_step.
--   Runtime/Executor, Runtime/Executor/Gate: RuntimeExecutor of executor.py; run is `run`, its loop
--     is `traverse`.
--   Runtime/Workflow, Runtime/Workflow/*: FlowRunWorkflow of adapters/temporal/workflow.py (run is
--     `run_workflow`, its loop `interpret`) and the activities of adapters/temporal/activities.py.
--   Runtime/Safety, Runtime/Scan, Runtime/Settling, Runtime/Counters, Runtime/Agreement/*: proofs on these.
--   Graph: the depth-first searches that the compiler and the validators share; Graph/Reach,
--     Graph/Cover, Graph/Loops, Graph/Loops/Outcome and Graph/Rank are proofs about them.
--   Compiler: GraphCompiler of domain/execution/services/graph_runtime/graph_compiler.py, from a
--     snapshot to a plan. Compiler/Checks and Compiler/Plans are proofs, Compiler/Bound and
--     Compiler/Bound/Rounds proofs about a plan that is run.
--   FlowGraph: FlowGraphValidator of domain/flows/services/flow_graph_validator.py. FlowGraph/Draft
--     is flow_graph_draft_validator.py, FlowGraph/Snapshots flow_graph_compiler.py, of the same
--     directory. FlowGraph/Walks, FlowGraph/Searches, FlowGraph/Published and
--     FlowGraph/Published/Plans are proofs.
--   Agent: types.py and tool_grant.py of domain/execution/services/agent_runtime/. Agent/Dispatcher is
--     tool_dispatcher.py, with A2ADelegationService.delegate of
--     domain/agents/services/a2a_delegation_service.py; Agent/Loop is AgentCognitiveLoop.run of
--     agent_loop.py. Agent/Service is AgentRunService of
--     domain/execution/services/agent_run_service.py. Agent/Grants has the snapshot of a grant. Agent/Effects,
--     Agent/Service/Settling and the rest of Agent/Grants are proofs.
--   Redis: what is relied on of Redis; Redis/Adapter is adapters/cache/redis_adapter.py, Redis/Memory a
--     server in memory for the tests, Redis/Counters proofs.
--   Limits: domain/governance/services/rate_limit_service.py. Limits/Breaker is
--     domain/llm/services/circuit_breaker.py, Limits/Idempotency
--     domain/execution/adapters/idempotency_service.py, Limits/Guardrails
--     domain/execution/services/guardrails/guardrail_engine.py. Limits/Admission and Limits/Spending
--     are proofs.
--   HumanSla: HumanSLAService and HumanSLARepository of domain/human_sla. HumanSla/Rows,
--     HumanSla/Escalation and HumanSla/Opening are proofs.
--   FlowStart: create_flow_run of domain/execution/services/execution_service.py. FlowStart/Choices is what
--     it chooses, FlowStart/Writes what it writes, FlowStart/Service the whole. FlowStart/Triples,
--     FlowStart/Growth, FlowStart/Once, FlowStart/Owners and FlowStart/Tenancy are proofs.
--   Reconciler: domain/execution/services/flow_run_reconciler.py; Reconciler/Counts and
--     Reconciler/Draining are proofs.
--   Lifecycle: both state machines of domain/execution/services/state_machine.py;
--     Lifecycle/Sweep, Lifecycle/Histories and Lifecycle/Canonical are proofs.
--
-- Both loops are bounded in the source, by a number of steps that the plan and the loop limit give
-- (`max_steps_of`); the model recurs on the rounds that are left of it, and what the source does
-- when none is left is the clause for zero. The searches of a graph recur on fuel, one for each level
-- of Python's recursion: the number of nodes that can be met, and one. The theorems on them show that
-- it is never used up.
--
-- Nodes are a parameter: which types the registry resolves, what constructing and executing a node
-- returns or raises, and which texts are UUIDs. An execution reads the context, so it may answer
-- differently at every step. An exception that leaves a step leaves the traversal and `run`; outputs
-- by node that are a list of pairs, of which Python's dict makes a dictionary, count as unreadable.
-- Object attributes and identity, which a path or `is` may ask for, are a parameter too.
--
-- The parser of conditions, the validation of configurations by pydantic and Python's ast are a
-- parameter of the draft validator.
--
-- The model, the tools, jsonschema and the agents that a task is given to are parameters of a run of
-- an agent, and so are the JSON texts; the loop's iterations are the recursion's argument.
--
-- Redis is a parameter: a record of commands with the laws that its documentation gives. A call of
-- the adapter says at which second it is served and whether its commands get through. The sums and
-- the order of costs, which are floats, are a parameter too.
--
-- Tables that a service writes are lists of rows, the later first where their order is read; rows that
-- it only reads are given. create_flow_run is cut where it stores its response, so that its requests
-- may come in any order between their two calls of Redis; the tables' own transactions are not cut.
--
-- Not modelled: the pyparsing grammar of conditions; the text of SQL; tracing, costs and the
-- identifiers that are constant in a run; retries, time-outs and cancellation by the Temporal server;
-- resume_flow_run; and the services around the runtime, such as the tools' own execution,
-- conversation, memory, governance and LLM providers, which mostly read and write rows or call remote
-- services.
mod Common
pub mod Value
pub mod EdgeEvaluator
pub mod Runtime
pub mod Lifecycle
pub mod Graph
pub mod Compiler
pub mod FlowGraph
pub mod Agent
pub mod Redis
pub mod Limits
pub mod HumanSla
pub mod Reconciler
pub mod FlowStart

-- ===== src/Lib.antt =====
-- langgraph_temporal runs the graphs of langgraph as Temporal workflows. A client starts the workflow
-- `LangGraphWorkflow` with a `WorkflowInput`; the workflow repeats supersteps. A superstep asks
-- langgraph for the tasks that are due, runs each node as an activity (or a subgraph as a child
-- workflow), starts child workflows for the sub-agents that nodes ask for, waits for a person where a
-- node or the input says so, runs the tasks that nodes send or route to, applies all writes, and
-- records stream events. Signals resume it or update its state, queries read it, and after 500 steps it
-- continues as a new run.
--
-- Which file models which part:
-- - Config: the dataclasses of langgraph/temporal/config.py, under their names. Config/Conveyed: what is
--   assumed of Temporal's data converter, through which the input of a workflow goes.
-- - Registry, Registry/Singleton: `GraphRegistry` of langgraph/temporal/converter.py (`get` is `lookup`).
-- - Workflow: the attributes, the constructor and the helpers of langgraph/temporal/workflow.py. The
--   methods follow in Workflow/Routing (`_task_queue_for_node` and its kin, the arguments of an activity),
--   Workflow/Dispatch (`_dispatch_activity`, `_rediscover_worker`, `_execute_single_activity`),
--   Workflow/Tasks (the sorting), Workflow/Nodes (`_execute_nodes`, `_execute_subgraph_as_child_workflow`,
--   `_execute_resumed_nodes`, `_execute_push_tasks`), Workflow/Sends (`_extract_push_sends`,
--   `_extract_command_gotos`), Workflow/Children (`_process_child_workflow_requests`,
--   `_dispatch_child_workflow`), Workflow/Interrupts, Workflow/Stream (`_emit_stream_events` and the
--   queries), Workflow/Signals (the signals),
--   Workflow/Edges (`_resolve_conditional_edges`), and, for `run` itself, Workflow/Start (what comes before the
--   loop), Workflow/Superstep (its body) and Workflow/Run (the loop and the end).
-- - Coroutine, Workflow/Machine: asyncio under Temporal. A coroutine (`Co`) reads and changes the
--   workflow's state and waits for the reply to one request at a time. The main coroutine (`M`) runs
--   against a schedule: the list, in the order of arrival, of the replies, the signals and the moments at
--   which a wait condition is looked at. Each interleaving of the coroutines of a `gather` is a schedule.
--   Workflow/Machine/Keeps, Rules, Triple and Workflow/Frame hold the program logic for it,
--   Workflow/Machine/Promises, Liveness and Quiet what is known of a `gather` whose requests are
--   answered. Workflow/Machine/Runs says what a piece of the main coroutine does with the events that
--   it reads, and composes such pieces; Workflow/Machine/Served, Awaits and Gather do this for a
--   `gather`, Workflow/Machine/Raises and Broken for what ends with an exception,
--   Workflow/Nodes/Batch and Pushes, Workflow/Children/Batch, Workflow/Interrupts/Pauses, Rerun and
--   Reran for the phases of a superstep, Workflow/Nodes/Failures, Workflow/Interrupts/Lost and
--   Workflow/Superstep/Refusals for phases that fail, Workflow/Superstep/Phases, Steps and Failures
--   for a superstep, and
--   Workflow/Run/Begins, Iterations and Rounds for `run`. Workflow/Run/Continued is about continue-as-new.
-- - Activity, Activity/Node, Activity/Edges: langgraph/temporal/activities.py. What a node's callable or
--   one of its writers does is a script, an argument: the calls that it makes of the handlers, and how it
--   ends. Activity/Collects, Activity/Laws and Activity/Edges/Names are about the handlers and the
--   activities.
-- - Streaming: `PollingStreamBackend` of langgraph/temporal/streaming.py.
-- - Codec: langgraph/temporal/_codec.py. The codec takes a `BlobStore`, a record of operations, whose
--   laws (`StoresUnder`) the in-memory store has.
-- - Encryption: langgraph/temporal/encryption.py.
-- - Worker: the queues and workers of langgraph/temporal/worker.py, with Worker/Registration (the
--   registration of the graph) and Worker/Group (`WorkerGroup`).
-- - Graph: the constructor, ids and inputs of `TemporalGraph` in langgraph/temporal/graph.py; Graph/Calls
--   (its calls of the Temporal client, and `extract_graph_metadata`), Graph/Stream (`astream`),
--   Graph/Settings (from the client's settings to the workflow).
-- - Asyncio: event loops outside a workflow. Checkpoint: langgraph/temporal/checkpoint.py. Serde, Hex: langgraph/temporal/_serde.py. Metrics:
--   langgraph/temporal/metrics.py. Tools: langgraph/temporal/tools.py.
-- - Langgraph: what the program uses of the langgraph library, a record that every definition takes as an
--   argument: graphs, nodes, channels, `apply_writes`, `prepare_next_tasks`, `create_checkpoint` and
--   the others. What is assumed of them is among a theorem's hypotheses. Text.Host: what a workflow reads
--   of its surroundings.
-- - Value, Prelude: Python's values, dicts, lists and exceptions. Tests: examples, and a small library
--   to run them on.
--
-- Conventions. A `timedelta` and a number of seconds is a number of microseconds, a backoff coefficient
-- is in millionths. The loop of `run` has fuel for one test more than the steps that are left up to the
-- recursion limit; each round makes one step. Digits of a number n are made on fuel n + 1. Parts of two
-- task paths at one place are both texts or both numbers. A schedule may end before the workflow does: the
-- outcome is then `blocked`.
--
-- Not modelled: the logging of other modules than metrics.py; heartbeats and the context variables of an
-- activity. What is behind the Temporal client and its data converter, OpenTelemetry, and whether a
-- package is installed, is an argument where a definition uses it.
pub mod Prelude
pub mod Value
pub mod Config
pub mod Encryption
pub mod Graph
pub mod Langgraph
pub mod Text
pub mod Tools
pub mod Registry
pub mod Worker
pub mod Workflow
pub mod Coroutine
pub mod Asyncio
pub mod Activity
pub mod Codec
pub mod Serde
pub mod Hex
pub mod Metrics
pub mod Checkpoint
pub mod Streaming
pub mod Tests

-- ===== src/Workflow/Nodes.antt =====
-- The tasks of a superstep: `_is_subgraph_node`, `_execute_subgraph_as_child_workflow`,
-- `_execute_nodes`, `_execute_resumed_nodes` and `_execute_push_tasks`.
pub mod Laws
pub mod Liveness
pub mod Batch
pub mod Pushes
pub mod Sorted
pub mod Failures
use langgraph_temporal.Prelude.{
  ◌+◌, String, ◌<>◌, ◌==◌, Bool, true, false, Option, none, some, List, [], ◌∷◌, map, if◌then◌else◌,
  or_default,
}
use langgraph_temporal.Prelude.Dict
use langgraph_temporal.Prelude.Dict.{Dict}
use langgraph_temporal.Prelude.Result.{child_error, type_error}
use langgraph_temporal.Value.{Value, of_dict}
use langgraph_temporal.Config.{
  NodeActivityInput, NodeActivityOutput, WorkflowInput, default_input, plain_output,
}
use langgraph_temporal.Langgraph.{Langgraph, PregelTask, unbound, runnable, pregel}
use langgraph_temporal.Text.{Host}
use langgraph_temporal.Registry.{register, unregister}
use langgraph_temporal.Coroutine.{
  Co, done, raise, gets, modify, await, Reply, run_child, child_output, child_failed,
}
use langgraph_temporal.Workflow.{Workflow, get_channel_values}
use langgraph_temporal.Workflow.Routing.{ChildCall, typed}
use langgraph_temporal.Workflow.Dispatch.{execute_single_activity}
use langgraph_temporal.Workflow.Tasks.{sorted_tasks}
use langgraph_temporal.Workflow.Sends.{SendDict, push_inputs}
use langgraph_temporal.Workflow.Machine.{M, join, exec, collect_all, pure, asks, lift, ◌>>=◌}

-- The compiled graph that a node is bound to, if it is.
unfoldable pub subgraph_of : (L : Langgraph) → L.Graph → String → Option L.Graph
subgraph_of L graph node = elim (Dict.get (L.nodes graph) node) [
  | none ↦ none
  | some n ↦ elim (L.bound n) [ unbound ↦ none | runnable ↦ none | pregel sub ↦ some sub ]
]

-- `_is_subgraph_node`
unfoldable pub is_subgraph_node : (L : Langgraph) → L.Graph → String → Bool
unfolding subgraph_of
is_subgraph_node L graph node = elim (subgraph_of L graph node) [ none ↦ false | some sub ↦ true ]

-- The `__start__` node gets the value of its channel, any other node the whole state.
unfoldable pub node_state : Dict Value → String → Value
node_state values node =
    if node == "__start__"
    then or_default (Dict.get values "__start__") (of_dict values)
    else of_dict values

unfoldable pub task_input : Dict Value → String → PregelTask → NodeActivityInput
unfolding node_state
task_input values ref t = record {
  node_name = t.name;
  input_state = node_state values t.name;
  graph_definition_ref = ref;
  resume_values = none;
  task_path = t.path;
  send_input = none;
  triggers = [];
}

module _ {L : Langgraph} (H : Host) where
  -- The child's end: the `finally` clause removes the graph from the registry on each path.
  unfoldable pub subgraph_reply : PregelTask → String → Reply → Co (Workflow L) NodeActivityOutput
  subgraph_reply t ref (child_output o) =
      modify (λ w. record w { registry = unregister ref w.registry })
        (done (record (plain_output t.name o.channel_values) { task_path = t.path }))
  subgraph_reply t ref (child_failed m) =
      modify (λ w. record w { registry = unregister ref w.registry }) (raise (child_error m))
  subgraph_reply t ref _ =
      modify (λ w. record w { registry = unregister ref w.registry })
        (raise (type_error "WorkflowOutput"))

  -- The reference of the subgraph, and the state in which it is registered.
  abbrev pub registered_ref : L.Graph → Workflow L → String
  registered_ref sub w = (register (L.graph_name sub) (H.uuid_hex w.uuids) sub w.registry).0

  abbrev pub registered : L.Graph → Workflow L → Workflow L
  registered sub w = record w {
    registry = (register (L.graph_name sub) (H.uuid_hex w.uuids) sub w.registry).1;
    uuids = w.uuids + 1;
  }

  -- The arguments of `execute_child_workflow`.
  abbrev pub subgraph_call : PregelTask → String → Workflow L → ChildCall
  subgraph_call t ref w = record {
    input =
        typed (record (default_input ref) { input_data = some (get_channel_values L w.channels) });
    id = H.workflow_id <> "/" <> t.name;
    task_queue = none;
    execution_timeout = none;
    parent_close_policy = none;
  }

  unfoldable pub execute_subgraph : PregelTask → L.Graph → Co (Workflow L) NodeActivityOutput
  unfolding subgraph_reply
  execute_subgraph t sub = gets λ w.
      let ref = registered_ref sub w in
      modify (registered sub) (await (run_child (subgraph_call t ref w)) (subgraph_reply t ref))

  unfoldable pub task_coroutine :
      L.Graph → Dict Value → String → PregelTask → Co (Workflow L) NodeActivityOutput
  unfolding execute_subgraph task_input
  task_coroutine graph values ref t = elim (subgraph_of L graph t.name) [
    | some sub ↦ execute_subgraph t sub
    | none ↦ execute_single_activity (task_input values ref t) t.name
  ]

  -- One task is awaited by itself and several by `gather`; the result is the same list.
  unfoldable pub execute_nodes : L.Graph → List PregelTask → M L (List NodeActivityOutput)
  unfolding task_coroutine
  execute_nodes graph tasks = do
    w ← asks (λ w. w)
    join collect_all (
        map (task_coroutine graph (get_channel_values L w.channels) w.graph_ref)
          (sorted_tasks tasks))

module _ {L : Langgraph} where
  unfoldable pub resumed_input : Dict Value → NodeActivityOutput → Workflow L → NodeActivityInput
  resumed_input values r w = record {
    node_name = r.node_name;
    input_state = of_dict values;
    graph_definition_ref = w.graph_ref;
    resume_values = some w.resume_values;
    task_path = r.task_path;
    send_input = none;
    triggers = r.triggers;
  }

  -- One node after the other; each gets the resume values of the moment it is started.
  unfoldable pub resumed_loop : Dict Value → List NodeActivityOutput → M L (List NodeActivityOutput)
  unfolding resumed_input
  resumed_loop values [] = pure []
  resumed_loop values (r ∷ rs) = do
    input ← asks (resumed_input values r)
    o ← exec (execute_single_activity input r.node_name)
    os ← resumed_loop values rs
    pure (o ∷ os)

  unfoldable pub execute_resumed_nodes : List NodeActivityOutput → M L (List NodeActivityOutput)
  unfolding resumed_loop
  execute_resumed_nodes rs = do
    values ← asks (λ w. get_channel_values L w.channels)
    resumed_loop values rs

  unfoldable pub push_coroutine : NodeActivityInput → Co (Workflow L) NodeActivityOutput
  push_coroutine input = execute_single_activity input input.node_name

  unfoldable pub execute_push_tasks : List SendDict → M L (List NodeActivityOutput)
  unfolding push_coroutine
  execute_push_tasks sends = do
    w ← asks (λ w. w)
    inputs ← lift (push_inputs (get_channel_values L w.channels) w.graph_ref sends)
    join collect_all (map push_coroutine inputs)

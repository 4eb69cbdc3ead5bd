-- ===== src/Workflow/Start.antt =====
-- The start of `run`: its attributes, the worker's queue, and the channels and checkpoint.
use langgraph_temporal.Prelude.{
  String, not, ◌&&◌, Option, none, some, List, [], ◌∷◌, if◌then◌else◌, or_default,
}
use langgraph_temporal.Prelude.Dict.{Dict}
use langgraph_temporal.Value.{Value, of_dict}
use langgraph_temporal.Config.{WorkflowInput, RestoredState, name}
use langgraph_temporal.Langgraph.{Langgraph, TaskWrites}
use langgraph_temporal.Text.{truthy_text}
use langgraph_temporal.Registry
use langgraph_temporal.Workflow.{Workflow, running, increment}
use langgraph_temporal.Workflow.Dispatch.{discover_worker}
use langgraph_temporal.Workflow.Machine.{M, pure, lift, asks, update_self, exec, ◌>>=◌, ◌>>◌}

-- The attributes that `run` copies from its input.
unfoldable pub configure : {L : Langgraph} → WorkflowInput → L.Graph → Workflow L → Workflow L
configure {L} input graph w = record w {
  graph_ref = input.graph_definition_ref;
  trigger_to_nodes = L.trigger_to_nodes graph;
  node_task_queues = or_default input.node_task_queues [];
  node_activity_options = or_default input.node_activity_options [];
  node_retry_policies = or_default input.node_retry_policies [];
  sticky_task_queue = input.sticky_task_queue;
  use_worker_affinity = input.use_worker_affinity;
  subagent_config = input.subagent_config;
}

-- The user's input, as a write to the input channel.
unfoldable pub input_task : String → Dict Value → TaskWrites
input_task channel d = record {
  path = name "__input__" ∷ [];
  name = "__input__";
  writes = (channel, of_dict d) ∷ [];
  triggers = [];
}

module _ {L : Langgraph} where
  -- `apply_writes(self.checkpoint, self.channels, tasks, increment, self._trigger_to_nodes)`
  unfoldable pub apply_task_writes : List TaskWrites → M L (Unit {0})
  unfolding increment
  apply_task_writes tasks = do
    w ← asks (λ w. w)
    r ← lift (L.apply_writes w.checkpoint w.channels tasks increment w.trigger_to_nodes)
    update_self (λ v. record v { checkpoint = r.0; channels = r.1 })

  -- Worker affinity: a queue is discovered unless the input brings one.
  unfoldable pub discover_if_needed : WorkflowInput → M L (Unit {0})
  discover_if_needed input =
      if input.use_worker_affinity && not (truthy_text input.sticky_task_queue)
      then exec discover_worker
      else pure tt

  unfoldable pub restore : L.Graph → RestoredState → Workflow L → Workflow L
  restore graph state w = record w {
    checkpoint = state.checkpoint;
    step = state.step;
    channels = L.channels_from_checkpoint (L.graph_channels graph) state.checkpoint;
  }

  unfoldable pub reset : L.Graph → Workflow L → Workflow L
  reset graph w = record w {
    checkpoint = L.empty_checkpoint;
    step = 0;
    channels = L.channels_from_checkpoint (L.graph_channels graph) L.empty_checkpoint;
  }

  unfoldable pub write_input : L.Graph → Option (Dict Value) → M L (Unit {0})
  unfolding apply_task_writes input_task
  write_input graph none = pure tt
  write_input graph (some d) = apply_task_writes (input_task (L.input_channel graph) d ∷ [])

  -- Channels and checkpoint: from the restored state, or fresh with the user's input applied.
  unfoldable pub initialise : L.Graph → WorkflowInput → Option RestoredState → M L (Unit {0})
  unfolding restore reset write_input
  initialise graph input (some state) = update_self (restore graph state)
  initialise graph input none = do update_self (reset graph); write_input graph input.input_data

  -- Everything before the loop; the result is the graph.
  unfoldable pub begin : WorkflowInput → M L L.Graph
  unfolding configure discover_if_needed initialise
  begin input = do
    w ← asks (λ w. w)
    graph ← lift (Registry.lookup input.graph_definition_ref w.registry)
    update_self (configure input graph)
    discover_if_needed input
    initialise graph input input.restored_state
    update_self (λ w. record w { status = running })
    pure graph

-- ===== src/Workflow/Nodes/Failures.antt =====
-- `_execute_nodes` and `_execute_push_tasks` when one of their activities or child workflows fails.
use langgraph_temporal.Prelude.{List, [], ◌≡◌, sym, map}
use mathlib.Core.Path.{subst}
use langgraph_temporal.Prelude.Lists.{length}
use langgraph_temporal.Prelude.Result.{Exn, ok, err}
use langgraph_temporal.Config.{NodeActivityInput, NodeActivityOutput}
use langgraph_temporal.Langgraph.{Langgraph, PregelTask}
use langgraph_temporal.Text.{Host}
use langgraph_temporal.Coroutine.{Request, node_output}
use langgraph_temporal.Workflow.{Workflow, get_channel_values}
use langgraph_temporal.Workflow.Tasks.{sorted_tasks}
use langgraph_temporal.Workflow.Sends.{SendDict, push_inputs}
use langgraph_temporal.Workflow.Machine.{Event}
use langgraph_temporal.Workflow.Machine.Flags.{all_true}
use langgraph_temporal.Workflow.Machine.Runs.{Runs-asks, Runs-lift}
use langgraph_temporal.Workflow.Machine.Raises.{Raises, Raises-first, Raises-later, Raises-lift}
use langgraph_temporal.Workflow.Machine.Broken.{Broken, Raises-gather}
use langgraph_temporal.Workflow.Nodes.{
  task_coroutine, execute_nodes, push_coroutine, execute_push_tasks,
}
use langgraph_temporal.Workflow.Nodes.Pushes.{no_effect, node_failing, input_requests, pushes-start}
use langgraph_temporal.Workflow.Nodes.Batch.{
  TaskEnd, end_reply, end_effect, end_output, end_failing, Starts, Starts-Started,
}

module _ {L : Langgraph} (H : Host) where
  pub execute_nodes-Raises :
      (graph : L.Graph) (tasks : List PregelTask) {ends : List TaskEnd} {w w1 w' : Workflow L}
      {es : List Event} {e : Exn} {sent : List Request}
      → Starts H graph
          (get_channel_values L w.channels)
          w.graph_ref
          (sorted_tasks tasks)
          w
          ends
          w1
          sent
      → Broken end_reply end_effect end_failing ends (all_true ends) w1 es e w'
      → Raises (execute_nodes H graph tasks) w es e w' sent
  unfolding execute_nodes
  execute_nodes-Raises graph tasks {ends = ends} {w = w} {w1 = w1} {w' = w'} {es = es} {e = e}
        starts breaks =
      let values = get_channel_values L w.channels in
      let (xs, started, awaits, flags) = Starts-Started H graph values w.graph_ref starts in
      Raises-later _ (Runs-asks (λ w. w) w) (
        Raises-gather end_reply end_effect end_failing end_output
          (map (task_coroutine {L = L} H graph values w.graph_ref) (sorted_tasks tasks)) ends
          started awaits
          (subst (λ flags. Broken end_reply end_effect end_failing ends flags w1 es e w')
            (sym flags) breaks))

module _ {L : Langgraph} where
  pub execute_push_tasks-Raises :
      (sends : List SendDict) (inputs : List NodeActivityInput) (os : List NodeActivityOutput)
      {w w' : Workflow L} {es : List Event} {e : Exn}
      → push_inputs (get_channel_values L w.channels) w.graph_ref sends ≡ ok inputs
      → length os ≡ length inputs
      → Broken node_output no_effect node_failing os (all_true os) w es e w'
      → Raises (execute_push_tasks sends) w es e w' (input_requests w inputs)
  unfolding execute_push_tasks
  execute_push_tasks-Raises sends inputs os {w = w} {w' = w'} {es = es} {e = e} made same breaks =
      let (xs, started, awaits, flags) = pushes-start inputs os w same in
      Raises-later _ (Runs-asks (λ w. w) w) (
        Raises-later _ (Runs-lift _ inputs w made) (
          Raises-gather node_output no_effect node_failing (λ o. o) (map push_coroutine inputs) os
            started awaits
            (subst (λ flags. Broken node_output no_effect node_failing os flags w es e w')
              (sym flags) breaks)))

  -- A send without a node.
  pub execute_push_tasks-malformed :
      (sends : List SendDict) {w : Workflow L} {e : Exn}
      → push_inputs (get_channel_values L w.channels) w.graph_ref sends ≡ err e
      → Raises (execute_push_tasks sends) w [] e w []
  unfolding execute_push_tasks
  execute_push_tasks-malformed sends {w = w} {e = e} unmade =
      Raises-later _ (Runs-asks (λ w. w) w) (Raises-first _ (Raises-lift _ e w unmade))

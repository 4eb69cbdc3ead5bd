-- ===== src/Workflow/Superstep.antt =====
-- One superstep of `run`: the body of its loop.
pub mod Plain
pub mod Phases
pub mod Steps
pub mod Refusals
pub mod Failures
use langgraph_temporal.Prelude.{◌+◌, none, some, List, [], ◌∷◌, ◌++◌, if◌then◌else◌}
use langgraph_temporal.Prelude.Lists.{is_nil}
use langgraph_temporal.Prelude.Dict
use langgraph_temporal.Prelude.Dict.{Dict}
use langgraph_temporal.Config.{WorkflowInput, NodeActivityOutput, name}
use langgraph_temporal.Langgraph.{Langgraph, TaskWrites, PregelTask}
use langgraph_temporal.Text.{Host}
use langgraph_temporal.Workflow.{Workflow, finished}
use langgraph_temporal.Workflow.Machine.{M, pure, lift, asks, update_self, ◌>>=◌, ◌>>◌}
use langgraph_temporal.Workflow.Sends.{extract_push_sends, extract_command_gotos, SendDict}
use langgraph_temporal.Workflow.Nodes.{execute_nodes, execute_push_tasks}
use langgraph_temporal.Workflow.Children.{process_child_workflow_requests}
use langgraph_temporal.Workflow.Stream.{emit_stream_events}
use langgraph_temporal.Workflow.Interrupts.{interrupt_check, handle_interrupted}
use langgraph_temporal.Workflow.Start.{apply_task_writes}

-- `PregelTaskWrites` for a result that has writes.
unfoldable pub task_writes_of : (L : Langgraph) → L.Graph → NodeActivityOutput → TaskWrites
task_writes_of L graph r = record {
  path = if is_nil r.task_path then name r.node_name ∷ [] else r.task_path;
  name = r.node_name;
  writes = r.writes;
  triggers = elim (Dict.get (L.nodes graph) r.node_name) [
    | none ↦ r.triggers
    | some node ↦ L.node_triggers node
  ];
}

unfoldable pub task_writes : (L : Langgraph) → L.Graph → List NodeActivityOutput → List TaskWrites
unfolding task_writes_of
task_writes L graph [] = []
task_writes L graph (r ∷ rs) =
    let rest = task_writes L graph rs in
    if is_nil r.writes then rest else task_writes_of L graph r ∷ rest

-- How a superstep ends: there was nothing to do, or the loop goes on.
pub data Progress : Type 0 where
  no_tasks : Progress
  stepped : Progress

module _ {L : Langgraph} where
  unfoldable pub push_phase :
      (List NodeActivityOutput → List SendDict)
      → List NodeActivityOutput
      → M L (List NodeActivityOutput)
  push_phase extract results =
      if is_nil (extract results)
      then pure results
      else do more ← execute_push_tasks (extract results); pure (results ++ more)

  unfoldable pub apply_results : L.Graph → List NodeActivityOutput → M L (Unit {0})
  unfolding apply_task_writes task_writes
  apply_results graph results =
      if is_nil (task_writes L graph results)
      then pure tt
      else apply_task_writes (task_writes L graph results)

  -- `create_checkpoint`, and the next step.
  unfoldable pub advance_step : Workflow L → Workflow L
  advance_step w = record w {
    checkpoint = L.create_checkpoint w.checkpoint w.channels w.step;
    step = w.step + 1;
  }

  unfoldable pub stop_here : M L Progress
  stop_here = do update_self (λ w. record w { status = finished }); pure no_tasks

module _ {L : Langgraph} (H : Host) where
  -- The nodes of a superstep: all results, those of sent and routed tasks included.
  unfoldable pub run_tasks :
      L.Graph → WorkflowInput → List PregelTask → M L (List NodeActivityOutput)
  unfolding push_phase
  run_tasks graph input tasks = do
    results ← execute_nodes H graph tasks
    results ← process_child_workflow_requests H input results
    results ← handle_interrupted results
    results ← push_phase extract_push_sends results
    push_phase extract_command_gotos results

  -- The body of the loop for the tasks of one superstep.
  unfoldable pub superstep : L.Graph → WorkflowInput → List PregelTask → M L Progress
  unfolding interrupt_check run_tasks apply_results advance_step
  superstep graph input tasks = do
    interrupt_check "before" tasks input.interrupt_before
    results ← run_tasks graph input tasks
    apply_results graph results
    update_self (emit_stream_events results)
    interrupt_check "after" tasks input.interrupt_after
    update_self advance_step
    pure stepped

  unfoldable pub next_tasks : L.Graph → WorkflowInput → M L (List PregelTask)
  next_tasks graph input = do
    w ← asks (λ w. w)
    tasks ← lift (
        L.prepare_next_tasks w.checkpoint [] (L.nodes graph) w.channels H.workflow_id w.step
          input.recursion_limit w.trigger_to_nodes)
    pure (Dict.values tasks)

  unfoldable pub loop_body : L.Graph → WorkflowInput → M L Progress
  unfolding next_tasks superstep stop_here
  loop_body graph input = do
    tasks ← next_tasks graph input
    if is_nil tasks then stop_here else superstep graph input tasks

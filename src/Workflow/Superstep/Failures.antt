-- ===== src/Workflow/Superstep/Failures.antt =====
-- A superstep that fails: one of its activities or child workflows does, a send names no node, or
-- langgraph refuses the writes.
use langgraph_temporal.Prelude.{List, map, ◌++◌, ◌≡◌}
use langgraph_temporal.Prelude.Result.{Exn, err}
use langgraph_temporal.Config.{WorkflowInput, NodeActivityOutput}
use langgraph_temporal.Langgraph.{Langgraph, PregelTask}
use langgraph_temporal.Text.{Host}
use langgraph_temporal.Coroutine.{Request}
use langgraph_temporal.Workflow.{Workflow, get_channel_values}
use langgraph_temporal.Workflow.Sends.{extract_push_sends, extract_command_gotos}
use langgraph_temporal.Workflow.Tasks.{sorted_tasks}
use langgraph_temporal.Workflow.Machine.{Event}
use langgraph_temporal.Workflow.Machine.Flags.{all_true}
use langgraph_temporal.Workflow.Machine.Served.{Served}
use langgraph_temporal.Workflow.Machine.Broken.{Broken}
use langgraph_temporal.Workflow.Machine.Raises.{Raises, Raises-first, Raises-later, Raises-then}
use langgraph_temporal.Workflow.Nodes.Batch.{
  TaskEnd, end_reply, end_effect, end_output, end_failing, Starts, execute_nodes-Runs,
}
use langgraph_temporal.Workflow.Nodes.Failures.{execute_nodes-Raises}
use langgraph_temporal.Workflow.Children.Batch.{Processed, process-Runs}
use langgraph_temporal.Workflow.Superstep.{task_writes, run_tasks, superstep}
use langgraph_temporal.Workflow.Superstep.Plain.{applied}
use langgraph_temporal.Workflow.Superstep.Phases.{
  Checked, Handled, Pushed, interrupt_check-Runs, handle_interrupted-Runs, push_phase-Runs,
}
use langgraph_temporal.Workflow.Superstep.Steps.{Performed, run_tasks-Runs}
use langgraph_temporal.Workflow.Superstep.Refusals.{
  HandlingFails, PushingFails, handle_interrupted-Raises, push_phase-Raises, apply_results-Raises,
}

module _ {L : Langgraph} (H : Host) (graph : L.Graph) (input : WorkflowInput)
    (tasks : List PregelTask) where
  -- The tasks of a superstep, up to the failure in one of their phases.
  pub data TasksFail (w : Workflow L) : List Event → Exn → Workflow L → List Request → Type 0 where
    nodes_fail :
        {w1 w' : Workflow L} {ends : List TaskEnd} {es : List Event} {e : Exn} {sent : List Request}
        → Starts H graph
            (get_channel_values L w.channels)
            w.graph_ref
            (sorted_tasks tasks)
            w
            ends
            w1
            sent
        → Broken end_reply end_effect end_failing ends (all_true ends) w1 es e w'
        → TasksFail w es e w' sent
    handling_fails :
        {w1 w2 w3 w' : Workflow L} {ends : List TaskEnd} {os : List NodeActivityOutput}
        {es1 es2 es3 : List Event} {e : Exn} {sent1 sent2 sent3 : List Request}
        → Starts H graph
            (get_channel_values L w.channels)
            w.graph_ref
            (sorted_tasks tasks)
            w
            ends
            w1
            sent1
        → Served end_reply end_effect ends (all_true ends) w1 es1 w2
        → Processed H input w2 (map end_output ends) es2 os w3 sent2
        → HandlingFails os w3 es3 e w' sent3
        → TasksFail w (es1 ++ (es2 ++ es3)) e w' (sent1 ++ (sent2 ++ sent3))
    pushing_fails :
        {w1 w2 w3 w4 w' : Workflow L} {ends : List TaskEnd} {os os' : List NodeActivityOutput}
        {es1 es2 es3 es4 : List Event} {e : Exn} {sent1 sent2 sent3 sent4 : List Request}
        → Starts H graph
            (get_channel_values L w.channels)
            w.graph_ref
            (sorted_tasks tasks)
            w
            ends
            w1
            sent1
        → Served end_reply end_effect ends (all_true ends) w1 es1 w2
        → Processed H input w2 (map end_output ends) es2 os w3 sent2
        → Handled os w3 es3 os' w4 sent3
        → PushingFails extract_push_sends os' w4 es4 e w' sent4
        → TasksFail w (es1 ++ (es2 ++ (es3 ++ es4))) e w' (sent1 ++ (sent2 ++ (sent3 ++ sent4)))
    routing_fails :
        {w1 w2 w3 w4 w5 w' : Workflow L} {ends : List TaskEnd}
        {os os' os'' : List NodeActivityOutput} {es1 es2 es3 es4 es5 : List Event} {e : Exn}
        {sent1 sent2 sent3 sent4 sent5 : List Request}
        → Starts H graph
            (get_channel_values L w.channels)
            w.graph_ref
            (sorted_tasks tasks)
            w
            ends
            w1
            sent1
        → Served end_reply end_effect ends (all_true ends) w1 es1 w2
        → Processed H input w2 (map end_output ends) es2 os w3 sent2
        → Handled os w3 es3 os' w4 sent3
        → Pushed extract_push_sends os' w4 es4 os'' w5 sent4
        → PushingFails extract_command_gotos os'' w5 es5 e w' sent5
        → TasksFail w
            (es1 ++ (es2 ++ (es3 ++ (es4 ++ es5))))
            e
            w'
            (sent1 ++ (sent2 ++ (sent3 ++ (sent4 ++ sent5))))

  run_tasks-Raises :
      {w w' : Workflow L} {es : List Event} {e : Exn} {sent : List Request}
      → TasksFail w es e w' sent
      → Raises (run_tasks H graph input tasks) w es e w' sent
  unfolding run_tasks
  run_tasks-Raises (nodes_fail starts breaks) =
      Raises-first _ (execute_nodes-Raises H graph tasks starts breaks)
  run_tasks-Raises (handling_fails starts served children fails) =
      Raises-later _ (execute_nodes-Runs H graph tasks starts served) (
        Raises-later _ (process-Runs H input children)
          (Raises-first _ (handle_interrupted-Raises fails)))
  run_tasks-Raises (pushing_fails starts served children interrupts fails) =
      Raises-later _ (execute_nodes-Runs H graph tasks starts served) (
        Raises-later _ (process-Runs H input children) (
          Raises-later _ (handle_interrupted-Runs interrupts)
            (Raises-first _ (push_phase-Raises fails))))
  run_tasks-Raises (routing_fails starts served children interrupts pushes fails) =
      Raises-later _ (execute_nodes-Runs H graph tasks starts served) (
        Raises-later _ (process-Runs H input children) (
          Raises-later _ (handle_interrupted-Runs interrupts)
            (Raises-later _ (push_phase-Runs pushes) (push_phase-Raises fails))))

  -- A superstep that fails with its tasks, or when langgraph refuses their writes.
  pub data StepFails (w : Workflow L) : List Event → Exn → Workflow L → List Request → Type 0 where
    tasks_fail :
        {w1 w' : Workflow L} {before during : List Event} {e : Exn} {sent : List Request}
        → Checked "before" tasks input.interrupt_before w before w1
        → TasksFail w1 during e w' sent
        → StepFails w (before ++ during) e w' sent
    writes_refused :
        {w1 w' : Workflow L} {os : List NodeActivityOutput} {before during : List Event} {e : Exn}
        {sent : List Request}
        → Checked "before" tasks input.interrupt_before w before w1
        → Performed H graph input tasks w1 during os w' sent
        → applied L (task_writes L graph os) w' ≡ err e
        → StepFails w (before ++ during) e w' sent

  pub superstep-Raises :
      {w w' : Workflow L} {es : List Event} {e : Exn} {sent : List Request}
      → StepFails w es e w' sent
      → Raises (superstep H graph input tasks) w es e w' sent
  unfolding superstep
  superstep-Raises (tasks_fail before fails) =
      Raises-later _ (interrupt_check-Runs before) (Raises-first _ (run_tasks-Raises fails))
  superstep-Raises
        (writes_refused {w' = w'} {os = os} {during = during} {e = e} before nodes writes) =
      Raises-later _ (interrupt_check-Runs before) (
        Raises-then _ (run_tasks-Runs H graph input tasks nodes)
          (Raises-first _ (apply_results-Raises graph os w' e writes)))

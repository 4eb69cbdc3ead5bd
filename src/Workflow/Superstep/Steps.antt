-- ===== src/Workflow/Superstep/Steps.antt =====
-- A superstep in full: interrupts before and after its nodes, the nodes, their sub-agents, interrupted
-- nodes, and sent and routed tasks.
use langgraph_temporal.Prelude.{List, [], map, ◌++◌, ◌≡◌, ◌∙◌, ap, ℕ, ◌+◌}
use langgraph_temporal.Prelude.Result.{ok}
use langgraph_temporal.Config.{WorkflowInput, NodeActivityOutput}
use langgraph_temporal.Langgraph.{Langgraph, PregelTask}
use langgraph_temporal.Text.{Host}
use langgraph_temporal.Coroutine.{Request}
use langgraph_temporal.Workflow.{Workflow, get_channel_values}
use langgraph_temporal.Workflow.Sends.{extract_push_sends, extract_command_gotos}
use langgraph_temporal.Workflow.Tasks.{sorted_tasks}
use langgraph_temporal.Workflow.Machine.{Event}
use langgraph_temporal.Workflow.Machine.Flags.{all_true}
use langgraph_temporal.Workflow.Machine.Served.{Served, Served-step}
use langgraph_temporal.Workflow.Machine.Runs.{
  machine, Runs, Runs-pure, Runs-update_self, Runs-bind, Runs-then, Runs-reads, Runs-still,
}
use langgraph_temporal.Workflow.Nodes.Batch.{
  TaskEnd, end_reply, end_effect, end_output, Starts, execute_nodes-Runs, Starts-step,
  end_effect-step,
}
use langgraph_temporal.Workflow.Children.Batch.{Processed, process-Runs, Processed-step}
use langgraph_temporal.Workflow.Stream.{emit_stream_events}
use langgraph_temporal.Workflow.Superstep.{
  task_writes, stepped, apply_results, advance_step, run_tasks, superstep,
}
use langgraph_temporal.Workflow.Superstep.Plain.{applied, applied-step, apply_results-applied}
use langgraph_temporal.Workflow.Superstep.Phases.{
  Checked, Handled, Pushed, Checked-step, Handled-step, Pushed-step, interrupt_check-Runs,
  handle_interrupted-Runs, push_phase-Runs,
}

module _ {L : Langgraph} (H : Host) (graph : L.Graph) (input : WorkflowInput)
    (tasks : List PregelTask) where
  -- The tasks of a superstep: their start in the order of their paths, the replies to their activities
  -- and the ends of their child workflows in any order, the ends of the sub-agents of each result, the
  -- second runs of interrupted nodes, the replies to the tasks that the results send, and to the
  -- tasks that they route to. Signals may come while something is waited for.
  pub data Performed (w : Workflow L)
      : List Event → List NodeActivityOutput → Workflow L → List Request → Type 0 where
    performed :
        {w1 w2 w3 w4 w5 w6 : Workflow L} {ends : List TaskEnd}
        {os2 os3 os4 os5 : List NodeActivityOutput} {es1 es2 es3 es4 es5 : List Event}
        {sent1 sent2 sent3 sent4 sent5 : List Request}
        → Starts H graph
            (get_channel_values L w.channels)
            w.graph_ref
            (sorted_tasks tasks)
            w
            ends
            w1
            sent1
        → Served end_reply end_effect ends (all_true ends) w1 es1 w2
        → Processed H input w2 (map end_output ends) es2 os2 w3 sent2
        → Handled os2 w3 es3 os3 w4 sent3
        → Pushed extract_push_sends os3 w4 es4 os4 w5 sent4
        → Pushed extract_command_gotos os4 w5 es5 os5 w6 sent5
        → Performed w
            (es1 ++ (es2 ++ (es3 ++ (es4 ++ es5))))
            os5
            w6
            (sent1 ++ (sent2 ++ (sent3 ++ (sent4 ++ sent5))))

  pub run_tasks-Runs :
      {w w' : Workflow L} {es : List Event} {os : List NodeActivityOutput} {sent : List Request}
      → Performed w es os w' sent
      → Runs (run_tasks H graph input tasks) w es os w' sent
  unfolding run_tasks
  run_tasks-Runs (performed starts served children interrupts pushes gotos) =
      Runs-bind _ (execute_nodes-Runs H graph tasks starts served) (
        Runs-bind _ (process-Runs H input children) (
          Runs-bind _ (handle_interrupted-Runs interrupts)
            (Runs-bind _ (push_phase-Runs pushes) (push_phase-Runs gotos))))

  -- The check before the nodes, the nodes, and, in the state with all results' writes and events, the
  -- check after them.
  pub data Superstep (w : Workflow L) : List Event → Workflow L → List Request → Type 0 where
    superstep_of :
        {w1 w2 w3 w4 : Workflow L} {os : List NodeActivityOutput} {before during after : List Event}
        {sent : List Request}
        → Checked "before" tasks input.interrupt_before w before w1
        → Performed w1 during os w2 sent
        → applied L (task_writes L graph os) w2 ≡ ok w3
        → Checked "after" tasks input.interrupt_after (emit_stream_events os w3) after w4
        → Superstep w (before ++ (during ++ after)) (advance_step w4) sent

  apply_results-Runs :
      (os : List NodeActivityOutput) (w w' : Workflow L)
      → applied L (task_writes L graph os) w ≡ ok w'
      → Runs (apply_results graph os) w [] tt w' []
  apply_results-Runs os w w' h =
      Runs-still (λ es rs. apply_results-applied graph os (machine w es rs) w' h)

  -- What a superstep does: if the check before the nodes passes or pauses, the tasks perform as
  -- described above, langgraph takes the writes of all results in one application, and the check
  -- after the nodes passes or pauses in the state with these writes and events, then the superstep
  -- reads just these events, makes just these requests, and leaves that state with its checkpoint
  -- made and its step counted.
  pub superstep-Superstep :
      {w w' : Workflow L} {es : List Event} {sent : List Request}
      → Superstep w es w' sent
      → Runs (superstep H graph input tasks) w es stepped w' sent
  unfolding superstep
  superstep-Superstep
        (superstep_of {w2 = w2} {w3 = w3} {w4 = w4} {os = os} before nodes writes after) =
      Runs-bind _ (interrupt_check-Runs before) (
        Runs-reads _ (run_tasks-Runs nodes) (
          Runs-bind _ (apply_results-Runs os w2 w3 writes) (
            Runs-bind _ (Runs-update_self (emit_stream_events os) w3) (
              Runs-then _ (interrupt_check-Runs after) (
                Runs-then _ (Runs-update_self advance_step w4)
                  (Runs-pure stepped (advance_step w4)))))))

  Performed-step :
      {w w' : Workflow L} {es : List Event} {os : List NodeActivityOutput} {sent : List Request}
      → Performed w es os w' sent
      → w'.step ≡ w.step
  Performed-step (performed starts served children interrupts pushes gotos) =
      Pushed-step gotos
      ∙ Pushed-step pushes
      ∙ Handled-step interrupts
      ∙ Processed-step H input children
      ∙ Served-step end_reply end_effect end_effect-step served
      ∙ Starts-step H graph _ _ starts

  pub Superstep-step :
      {w w' : Workflow L} {es : List Event} {sent : List Request}
      → Superstep w es w' sent
      → w'.step ≡ w.step + 1
  unfolding advance_step emit_stream_events
  Superstep-step (superstep_of {w1 = w1} {w2 = w2} {os = os} before nodes writes after) =
      ap (λ (n : ℕ). n + 1)
        (Checked-step after
          ∙ applied-step (task_writes L graph os) w2 _ writes
          ∙ Performed-step nodes
          ∙ Checked-step before)

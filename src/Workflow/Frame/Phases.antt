-- ===== src/Workflow/Frame/Phases.antt =====
-- What the phases of a superstep do to the step counter and the status: only a pause changes the
-- status, and it is `running` again when the pause ends. None of them continues as new.
use langgraph_temporal.Prelude.{ℕ, String, Option, List, [], ◌∷◌, ◌≡◌}
use langgraph_temporal.Prelude.Lists.{is_nil, select}
use langgraph_temporal.Prelude.Dict.{Dict}
use langgraph_temporal.Value.{Value}
use langgraph_temporal.Config.{NodeActivityOutput, WorkflowInput, InterruptNodes}
use langgraph_temporal.Langgraph.{Langgraph, PregelTask, TaskWrites}
use langgraph_temporal.Text.{Host}
use langgraph_temporal.Workflow.{Workflow, running}
use langgraph_temporal.Workflow.Sends.{SendDict}
use langgraph_temporal.Workflow.Nodes.{
  execute_nodes, resumed_loop, execute_resumed_nodes, execute_push_tasks,
}
use langgraph_temporal.Workflow.Children.{process_result, process_child_workflow_requests}
use langgraph_temporal.Workflow.Interrupts.{
  pause, interrupt_check, interrupt_here, handle_interrupted, is_interrupted,
}
use langgraph_temporal.Workflow.Start.{apply_task_writes}
use langgraph_temporal.Workflow.Superstep.{push_phase, apply_results}
use langgraph_temporal.Workflow.Machine.Triple.{
  Quiet, quiet_rules, Quiet-pure, Quiet-bind, Quiet-asks, Quiet-exec, Triple, Triple-bind,
  Triple-if, Triple-pure, Triple-keeps, Triple-update_self, Triple-wait_for_resume,
}
use langgraph_temporal.Workflow.Frame.{IsFramed, SignalsKeep_of_IsFramed}
use langgraph_temporal.Workflow.Frame.Pieces.{
  nodes-Keeps, resumed-Keeps, push_phase-Keeps, process_children-Keeps, apply_results-Keeps,
}

module _ {L : Langgraph} where
  nodes-Quiet :
      (H : Host) (graph : L.Graph) (ts : List PregelTask) → Quiet (execute_nodes {L = L} H graph ts)
  unfolding execute_nodes
  nodes-Quiet H graph ts = search quiet_rules

  resumed_loop-Quiet :
      (values : Dict Value) (rs : List NodeActivityOutput) → Quiet (resumed_loop {L = L} values rs)
  unfolding resumed_loop
  resumed_loop-Quiet values [] = search quiet_rules
  resumed_loop-Quiet values (r ∷ rs) = Quiet-bind _ _ (Quiet-asks _) λ i.
      Quiet-bind _ _ (Quiet-exec _)
        λ o. Quiet-bind _ _ (resumed_loop-Quiet values rs) λ os. Quiet-pure (o ∷ os)

  resumed-Quiet : (rs : List NodeActivityOutput) → Quiet (execute_resumed_nodes {L = L} rs)
  unfolding execute_resumed_nodes
  resumed-Quiet rs = search (quiet_rules, resumed_loop-Quiet)

  pushes-Quiet : (sends : List SendDict) → Quiet (execute_push_tasks {L = L} sends)
  unfolding execute_push_tasks
  pushes-Quiet sends = search quiet_rules

  push_phase-Quiet :
      (extract : List NodeActivityOutput → List SendDict) (rs : List NodeActivityOutput)
      → Quiet (push_phase {L = L} extract rs)
  unfolding push_phase
  push_phase-Quiet extract rs = search (quiet_rules, pushes-Quiet)

  process_result-Quiet :
      (H : Host) (input : WorkflowInput) (r : NodeActivityOutput)
      → Quiet (process_result {L = L} H input r)
  unfolding process_result
  process_result-Quiet H input r = search quiet_rules

  process_children-Quiet :
      (H : Host) (input : WorkflowInput) (rs : List NodeActivityOutput)
      → Quiet (process_child_workflow_requests {L = L} H input rs)
  unfolding process_child_workflow_requests
  process_children-Quiet H input [] = search quiet_rules
  process_children-Quiet H input (r ∷ rs) =
      Quiet-bind _ _ (process_result-Quiet H input r)
        λ r'. Quiet-bind _ _ (process_children-Quiet H input rs) λ rs'. Quiet-pure (r' ∷ rs')

  pub apply_task_writes-Quiet : (tasks : List TaskWrites) → Quiet (apply_task_writes {L = L} tasks)
  unfolding apply_task_writes
  apply_task_writes-Quiet tasks = search quiet_rules

  apply_results-Quiet :
      (graph : L.Graph) (rs : List NodeActivityOutput) → Quiet (apply_results {L = L} graph rs)
  unfolding apply_results
  apply_results-Quiet graph rs = search (quiet_rules, apply_task_writes-Quiet)

module _ {L : Langgraph} where
  abbrev pub AtStep : ℕ → Workflow L → Type 0
  AtStep n w = w.step ≡ n

  -- In the loop, between two waits.
  abbrev pub Running : ℕ → Workflow L → Type 0
  Running n w = (w.step ≡ n) × (w.status ≡ running)

  pub AtStep-framed : (n : ℕ) → IsFramed (AtStep n)
  AtStep-framed n = record {
    sticky = λ w q h. h;
    graphs = λ w r k h. h;
    state = λ w c ch h. h;
    resuming = λ w vs b h. h;
  }

  pub Running-framed : (n : ℕ) → IsFramed (Running n)
  Running-framed n = record {
    sticky = λ w q h. h;
    graphs = λ w r k h. h;
    state = λ w c ch h. h;
    resuming = λ w vs b h. h;
  }

module _ {L : Langgraph} (C : WorkflowInput → Type 0) (n : ℕ) where
  pub Triple-nodes :
      (H : Host) (graph : L.Graph) (ts : List PregelTask)
      → Triple (Running n) (execute_nodes {L = L} H graph ts) (λ _. Running n) C
  Triple-nodes H graph ts =
      Triple-keeps _ (nodes-Keeps (Running-framed n) H graph ts) (nodes-Quiet H graph ts)
        (λ _ _ h. h)

  pub Triple-children :
      (H : Host) (input : WorkflowInput) (rs : List NodeActivityOutput)
      → Triple (Running {L = L} n) (process_child_workflow_requests H input rs) (λ _. Running n) C
  Triple-children H input rs =
      Triple-keeps _ (process_children-Keeps (Running-framed n) H input rs)
        (process_children-Quiet H input rs) (λ _ _ h. h)

  pub Triple-pushes :
      (extract : List NodeActivityOutput → List SendDict) (rs : List NodeActivityOutput)
      → Triple (Running {L = L} n) (push_phase extract rs) (λ _. Running n) C
  Triple-pushes extract rs =
      Triple-keeps _ (push_phase-Keeps (Running-framed n) extract rs) (push_phase-Quiet extract rs)
        (λ _ _ h. h)

  pub Triple-apply :
      (graph : L.Graph) (rs : List NodeActivityOutput)
      → Triple (Running n) (apply_results {L = L} graph rs) (λ _. Running n) C
  Triple-apply graph rs =
      Triple-keeps _ (apply_results-Keeps (Running-framed n) graph rs)
        (apply_results-Quiet graph rs) (λ _ _ h. h)

  pub Triple-pause :
      (entries : List (Dict Value)) → Triple (Running {L = L} n) (pause entries) (λ _. Running n) C
  unfolding pause
  Triple-pause entries =
      Triple-bind {Q = λ _. AtStep n} _ _ (Triple-update_self _ (λ w h. h.0)) λ _.
        Triple-wait_for_resume (SignalsKeep_of_IsFramed (AtStep-framed n)) (λ w h. h) (λ w h. h)

  pub Triple-check :
      (kind : String) (ts : List PregelTask) (nodes : Option InterruptNodes)
      → Triple (Running {L = L} n) (interrupt_check kind ts nodes) (λ _. Running n) C
  unfolding interrupt_check
  Triple-check kind ts nodes =
      Triple-if (interrupt_here ts nodes) _ _ (Triple-pause _) (Triple-pure tt (λ w h. h))

  pub Triple-interrupted :
      (rs : List NodeActivityOutput)
      → Triple (Running {L = L} n) (handle_interrupted rs) (λ _. Running n) C
  unfolding handle_interrupted
  Triple-interrupted rs =
      Triple-if (is_nil (select is_interrupted rs)) _ _ (Triple-pure rs (λ w h. h)) (
        Triple-bind {Q = λ _. Running n} _ _ (Triple-pause _) λ _.
          Triple-bind {Q = λ _. Running n} _ _
            (Triple-keeps _ (resumed-Keeps (Running-framed n) _) (resumed-Quiet _) (λ _ _ h. h))
            λ resumed. Triple-pure _ (λ w h. h))

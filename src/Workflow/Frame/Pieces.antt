-- ===== src/Workflow/Frame/Pieces.antt =====
-- The pieces of a superstep that start activities keep every framed property.
use langgraph_temporal.Prelude.{List, [], ◌∷◌, ◌++◌, or_default}
use langgraph_temporal.Prelude.Dict.{Dict}
use langgraph_temporal.Value.{Value}
use langgraph_temporal.Config.{NodeActivityOutput, WorkflowInput}
use langgraph_temporal.Langgraph.{Langgraph, PregelTask, TaskWrites}
use langgraph_temporal.Text.{Host}
use langgraph_temporal.Workflow.{Workflow, get_channel_values}
use langgraph_temporal.Workflow.Tasks.{sorted_tasks}
use langgraph_temporal.Workflow.Sends.{SendDict}
use langgraph_temporal.Workflow.Nodes.{
  execute_nodes, resumed_loop, execute_resumed_nodes, execute_push_tasks,
}
use langgraph_temporal.Workflow.Children.{process_result, process_child_workflow_requests}
use langgraph_temporal.Workflow.Start.{apply_task_writes}
use langgraph_temporal.Workflow.Superstep.{push_phase, apply_results}
use langgraph_temporal.Workflow.Machine.{collect_all, collect_settled}
use langgraph_temporal.Workflow.Machine.Keeps.{Keeps, Keeps-join, Keeps-exec}
use langgraph_temporal.Workflow.Machine.Rules.{
  Keeps-pure, Keeps-bind, Keeps-asks, Keeps-lift, Keeps-if, Keeps-update_self,
}
use langgraph_temporal.Workflow.Frame.{
  IsFramed, SignalsKeep_of_IsFramed, activity-CoKeeps, tasks-AllKeep, children-AllKeep,
  pushes-AllKeep,
}

module _ {L : Langgraph} {P : Workflow L → Type 0} (F : IsFramed P) where
  pub nodes-Keeps :
      (H : Host) (graph : L.Graph) (ts : List PregelTask) → Keeps P (execute_nodes H graph ts)
  unfolding execute_nodes
  nodes-Keeps H graph ts = Keeps-bind _ _ (Keeps-asks _) λ w.
      Keeps-join P (SignalsKeep_of_IsFramed F) collect_all _
        (tasks-AllKeep H P F graph (get_channel_values L w.channels) w.graph_ref (sorted_tasks ts))

  resumed_loop-Keeps :
      (values : Dict Value) (rs : List NodeActivityOutput) → Keeps P (resumed_loop values rs)
  unfolding resumed_loop
  resumed_loop-Keeps values [] = Keeps-pure []
  resumed_loop-Keeps values (r ∷ rs) = Keeps-bind _ _ (Keeps-asks _) λ i.
      Keeps-bind _ _
        (Keeps-exec P (SignalsKeep_of_IsFramed F) _ (activity-CoKeeps P F i r.node_name))
        λ o. Keeps-bind _ _ (resumed_loop-Keeps values rs) λ os. Keeps-pure (o ∷ os)

  pub resumed-Keeps : (rs : List NodeActivityOutput) → Keeps P (execute_resumed_nodes rs)
  unfolding execute_resumed_nodes
  resumed-Keeps rs = Keeps-bind _ _ (Keeps-asks _) λ values. resumed_loop-Keeps values rs

  pushes-Keeps : (sends : List SendDict) → Keeps P (execute_push_tasks sends)
  unfolding execute_push_tasks
  pushes-Keeps sends = Keeps-bind _ _ (Keeps-asks _) λ w.
      Keeps-bind _ _ (Keeps-lift _)
        λ is. Keeps-join P (SignalsKeep_of_IsFramed F) collect_all _ (pushes-AllKeep P F is)

  pub push_phase-Keeps :
      (extract : List NodeActivityOutput → List SendDict) (rs : List NodeActivityOutput)
      → Keeps P (push_phase extract rs)
  unfolding push_phase
  push_phase-Keeps extract rs =
      Keeps-if _ _ _ (Keeps-pure rs)
        (Keeps-bind _ _ (pushes-Keeps (extract rs)) λ more. Keeps-pure (rs ++ more))

  process_result-Keeps :
      (H : Host) (input : WorkflowInput) (r : NodeActivityOutput)
      → Keeps P (process_result H input r)
  unfolding process_result
  process_result-Keeps H input r = Keeps-if _ _ _ (Keeps-pure r) (
      Keeps-bind _ _
        (Keeps-join P (SignalsKeep_of_IsFramed F) collect_settled _
          (children-AllKeep H P F input (or_default r.child_workflow_requests []) 0))
        λ outputs. Keeps-bind _ _ (Keeps-lift _) λ ws. Keeps-pure _)

  pub process_children-Keeps :
      (H : Host) (input : WorkflowInput) (rs : List NodeActivityOutput)
      → Keeps P (process_child_workflow_requests H input rs)
  unfolding process_child_workflow_requests
  process_children-Keeps H input [] = Keeps-pure []
  process_children-Keeps H input (r ∷ rs) =
      Keeps-bind _ _ (process_result-Keeps H input r)
        λ r'. Keeps-bind _ _ (process_children-Keeps H input rs) λ rs'. Keeps-pure (r' ∷ rs')

  pub apply_task_writes-Keeps : (tasks : List TaskWrites) → Keeps P (apply_task_writes tasks)
  unfolding apply_task_writes
  apply_task_writes-Keeps tasks =
      Keeps-bind _ _ (Keeps-asks _)
        λ w. Keeps-bind _ _ (Keeps-lift _) λ r. Keeps-update_self _ λ v h. F.state v r.0 r.1 h

  pub apply_results-Keeps :
      (graph : L.Graph) (rs : List NodeActivityOutput) → Keeps P (apply_results graph rs)
  unfolding apply_results
  apply_results-Keeps graph rs = Keeps-if _ _ _ (Keeps-pure tt) (apply_task_writes-Keeps _)

-- ===== src/Workflow/Nodes/Batch.antt =====
-- `_execute_nodes` reads the replies to its tasks' activities and child workflows, and no more.
use langgraph_temporal.Prelude.{
  Option, List, [], ◌∷◌, true, none, some, ◌≡◌, refl, ap, sym, arith, map, String,
}
use mathlib.Core.Path.{subst}
use langgraph_temporal.Prelude.Dict.{Dict}
use langgraph_temporal.Prelude.Result.{Exn, child_error, ok}
use langgraph_temporal.Value.{Value}
use langgraph_temporal.Config.{NodeActivityOutput, WorkflowOutput, plain_output}
use langgraph_temporal.Langgraph.{Langgraph, PregelTask}
use langgraph_temporal.Text.{Host}
use langgraph_temporal.Registry.{unregister}
use langgraph_temporal.Coroutine.{
  Slot, Request, Reply, run_activity, run_child, node_output, child_output, queue_name,
  activity_failed, child_failed, edge_targets, failed, advance, parked,
}
use langgraph_temporal.Workflow.{Workflow, get_channel_values}
use langgraph_temporal.Workflow.Routing.{activity_call}
use langgraph_temporal.Workflow.Tasks.{sorted_tasks}
use langgraph_temporal.Workflow.Machine.{Event, start_all}
use langgraph_temporal.Workflow.Machine.Flags.{all_true, waiting}
use langgraph_temporal.Workflow.Machine.Served.{Served}
use langgraph_temporal.Workflow.Machine.Awaits.{AllAwait}
use langgraph_temporal.Workflow.Machine.Gather.{Runs-gather}
use langgraph_temporal.Workflow.Machine.Runs.{Runs, Runs-asks, Runs-bind}
use langgraph_temporal.Workflow.Nodes.{
  subgraph_of, task_input, registered, registered_ref, subgraph_call, subgraph_reply,
  execute_subgraph, task_coroutine, execute_nodes,
}
use langgraph_temporal.Workflow.Nodes.Pushes.{activity_failing, single_activity-starts}

-- How a task ends: with its activity's output, or, for a subgraph's task with the reference of its
-- graph, with its child workflow's output.
pub data TaskEnd : Type 0 where
  node_end : NodeActivityOutput → TaskEnd
  child_end : PregelTask → String → WorkflowOutput → TaskEnd

abbrev pub end_reply : TaskEnd → Reply
end_reply (node_end o) = node_output o
end_reply (child_end t ref o) = child_output o

abbrev pub end_output : TaskEnd → NodeActivityOutput
end_output (node_end o) = o
end_output (child_end t ref o) = record (plain_output t.name o.channel_values) {
  task_path = t.path;
}

-- A subgraph's graph is removed from the registry when its child workflow has ended.
abbrev pub end_effect : {L : Langgraph} → TaskEnd → Workflow L → Workflow L
end_effect (node_end o) w = w
end_effect (child_end t ref o) w = record w { registry = unregister ref w.registry }

-- How a reply breaks a task: its activity fails, or its child workflow, whose graph is removed too.
abbrev pub end_failing : {L : Langgraph} → TaskEnd → Reply → Workflow L → Option (Exn × Workflow L)
end_failing (node_end o) r w = activity_failing r w
end_failing (child_end t ref o) (child_failed m) w =
    some (child_error m, record w { registry = unregister ref w.registry })
end_failing (child_end t ref o) r w = none

subgraph-fails :
    {L : Langgraph} (H : Host) (t : PregelTask) (ref : String) (o : WorkflowOutput) (r : Reply)
    (w w1 : Workflow L) (e : Exn)
    → end_failing (child_end t ref o) r w ≡ some (e, w1)
    → advance (subgraph_reply H t ref r) w ≡ (failed e, w1)
unfolding subgraph_reply advance
subgraph-fails H t ref o (node_output x) w w1 e h = absurd (cc)
subgraph-fails H t ref o (queue_name q) w w1 e h = absurd (cc)
subgraph-fails H t ref o (child_output x) w w1 e h = absurd (cc)
subgraph-fails H t ref o (activity_failed m) w w1 e h = absurd (cc)
subgraph-fails H t ref o (edge_targets ts) w w1 e h = absurd (cc)
subgraph-fails H t ref o (child_failed m) w w1 e h = ground (arith, h)

pub end_effect-step :
    {L : Langgraph} (e : TaskEnd) (w : Workflow L) → (end_effect {L = L} e w).step ≡ w.step
end_effect-step (node_end o) w = refl
end_effect-step (child_end t ref o) w = refl

module _ {L : Langgraph} (H : Host) (graph : L.Graph) (values : Dict Value) (ref : String) where
  -- The start of the tasks, one after the other: a node's activity is requested, and a subgraph is
  -- registered and its child workflow requested. The ends are those of these tasks.
  pub data Starts
      : List PregelTask → Workflow L → List TaskEnd → Workflow L → List Request → Type 0 where
    all_started : {w : Workflow L} → Starts [] w [] w []
    node_started :
        {ts : List PregelTask} {w w' : Workflow L} {ends : List TaskEnd} {sent : List Request}
        (t : PregelTask) (o : NodeActivityOutput)
        → subgraph_of L graph t.name ≡ none
        → Starts ts w ends w' sent
        → Starts
            (t ∷ ts)
            w
            (node_end o ∷ ends)
            w'
            (run_activity (activity_call w (task_input values ref t) t.name) ∷ sent)
    child_started :
        {ts : List PregelTask} {w w' : Workflow L} {ends : List TaskEnd} {sent : List Request}
        (t : PregelTask) (sub : L.Graph) (o : WorkflowOutput)
        → subgraph_of L graph t.name ≡ some sub
        → Starts ts (registered H sub w) ends w' sent
        → Starts
            (t ∷ ts)
            w
            (child_end t (registered_ref H sub w) o ∷ ends)
            w'
            (run_child (subgraph_call H t (registered_ref H sub w) w) ∷ sent)

  pub Starts-step :
      {ts : List PregelTask} {w w' : Workflow L} {ends : List TaskEnd} {sent : List Request}
      → Starts ts w ends w' sent
      → w'.step ≡ w.step
  Starts-step all_started = refl
  Starts-step (node_started t o none_sub rest) = Starts-step rest
  Starts-step (child_started t sub o a_sub rest) = Starts-step rest

  abbrev pub Started :
      List PregelTask → Workflow L → List TaskEnd → Workflow L → List Request → Type 0
  Started ts w ends w' sent =
      (xs : List (Slot (Workflow L) NodeActivityOutput)) × (start_all
          (map (task_coroutine H graph values ref) ts) w
        ≡ (xs, w', sent))
      × AllAwait end_reply (λ e. ok (end_output e)) end_effect end_failing xs ends
      × (waiting xs ≡ all_true ends)

  pub Starts-Started :
      {ts : List PregelTask} {w w' : Workflow L} {ends : List TaskEnd} {sent : List Request}
      → Starts ts w ends w' sent
      → Started ts w ends w' sent
  unfolding start_all task_coroutine execute_subgraph subgraph_reply advance
  Starts-Started all_started = ([], refl, tt, refl)
  Starts-Started (node_started {w = w} t o none_sub rest) =
      let (k, first, answers, fails) = single_activity-starts (task_input values ref t) t.name w in
      let (xs, later, awaits, flags) = Starts-Started rest in
      (
        parked (run_activity (activity_call w (task_input values ref t) t.name)) k ∷ xs,
        ground (arith, none_sub, first, later),
        ((answers o, fails), awaits),
        ap (λ bs. true ∷ bs) flags,
      )
  Starts-Started (child_started {w = w} t sub o a_sub rest) =
      let (xs, later, awaits, flags) = Starts-Started rest in
      let sub_ref = registered_ref H sub w in
      (
        parked (run_child (subgraph_call H t sub_ref w)) (subgraph_reply H t sub_ref) ∷ xs,
        ground (arith, a_sub, later),
        (((λ w'. refl), subgraph-fails H t sub_ref o), awaits),
        ap (λ bs. true ∷ bs) flags,
      )

module _ {L : Langgraph} (H : Host) where
  pub execute_nodes-Runs :
      (graph : L.Graph) (tasks : List PregelTask) {ends : List TaskEnd} {w w1 w' : Workflow L}
      {es : List Event} {sent : List Request}
      → Starts H graph
          (get_channel_values L w.channels)
          w.graph_ref
          (sorted_tasks tasks)
          w
          ends
          w1
          sent
      → Served end_reply end_effect ends (all_true ends) w1 es w'
      → Runs (execute_nodes H graph tasks) w es (map end_output ends) w' sent
  unfolding execute_nodes
  execute_nodes-Runs graph tasks {ends = ends} {w = w} {w1 = w1} {w' = w'} {es = es} starts served =
      let values = get_channel_values L w.channels in
      let (xs, started, awaits, flags) = Starts-Started H graph values w.graph_ref starts in
      Runs-bind _ (Runs-asks (λ w. w) w) (
        Runs-gather end_reply end_effect end_failing end_output
          (map (task_coroutine {L = L} H graph values w.graph_ref) (sorted_tasks tasks)) ends
          started awaits
          (subst (λ flags. Served end_reply end_effect ends flags w1 es w') (sym flags) served))

-- ===== src/Workflow/Nodes/Sorted.antt =====
-- The order in which `_execute_nodes` starts its tasks.
use mathlib.Core.List.{Permᴰ}
use langgraph_temporal.Prelude.{
  List, [], ◌∷◌, ◌++◌, map, Option-cases, inl, inr, false, ◌≡◌, refl, ap, ◌∙◌, arith,
}
use langgraph_temporal.Prelude.Lists.{any}
use langgraph_temporal.Config.{NodeActivityOutput}
use langgraph_temporal.Langgraph.{Langgraph, PregelTask}
use langgraph_temporal.Text.{Host}
use langgraph_temporal.Coroutine.{Slot, Request, parked, run_activity}
use langgraph_temporal.Workflow.{Workflow, get_channel_values}
use langgraph_temporal.Workflow.Routing.{activity_call}
use langgraph_temporal.Workflow.Tasks.{sorted_tasks}
use langgraph_temporal.Workflow.Tasks.Laws.{IsSorted, sorted_tasks-IsSorted}
use langgraph_temporal.Workflow.Machine.{start_all, collect_all, join_loop, join, asks, ◌>>=◌}
use langgraph_temporal.Workflow.Machine.Runs.{machine}
use langgraph_temporal.Workflow.Nodes.{
  is_subgraph_node, subgraph_of, task_input, task_coroutine, execute_nodes,
}
use langgraph_temporal.Workflow.Nodes.Pushes.{single_activity-starts}
use langgraph_temporal.Workflow.Nodes.Liveness.{or_false, any-sorted_tasks}

module _ {L : Langgraph} (H : Host) (graph : L.Graph) where
  -- The requests for the activities of these tasks, in this order.
  abbrev pub task_requests : Workflow L → List PregelTask → List Request
  task_requests w ts =
      map
        (λ t.
          run_activity
            (activity_call w (task_input (get_channel_values L w.channels) w.graph_ref t) t.name))
        ts

  tasks-start :
      (w : Workflow L) (ts : List PregelTask)
      → any (λ t. is_subgraph_node L graph t.name) ts ≡ false
      → (xs : List (Slot (Workflow L) NodeActivityOutput)) × (start_all
            (map (task_coroutine H graph (get_channel_values L w.channels) w.graph_ref) ts)
            w
          ≡ (xs, w, task_requests w ts))
  unfolding start_all task_coroutine is_subgraph_node
  tasks-start w [] h = ([], refl)
  tasks-start w (t ∷ ts) h =
      let (here, later) =
        or_false (is_subgraph_node L graph t.name)
          (any (λ (t : PregelTask). is_subgraph_node L graph t.name) ts) h in
      let input = task_input (get_channel_values L w.channels) w.graph_ref t in
      let (k, first, answers, fails) = single_activity-starts input t.name w in
      let (xs, rest) = tasks-start w ts later in
      elim (Option-cases (subgraph_of L graph t.name)) [
        | inl e ↦ (
          parked (run_activity (activity_call w input t.name)) k ∷ xs,
          ground (arith, e, first, rest),
        )
        | inr (sub, e) ↦ absurd (ground (arith, here, e))
      ]

  -- If nothing has arrived yet, the requests that are out are those of the start.
  join_loop-issued :
      (xs : List (Slot (Workflow L) NodeActivityOutput)) (w : Workflow L) (rs : List Request)
      → (join_loop collect_all [] xs w rs).1.issued ≡ rs
  unfolding join_loop
  join_loop-issued xs w rs = ground arith

  -- If none of the tasks of a superstep is a subgraph's, then before any reply arrives the activities
  -- of all of them have been requested, each once, in an order in which no task comes after one with a
  -- larger path, whatever the order in which langgraph named them.
  pub execute_nodes-IsSorted :
      (tasks : List PregelTask) (w : Workflow L) (issued : List Request)
      → any (λ t. is_subgraph_node L graph t.name) tasks ≡ false
      → (ts : List PregelTask) × IsSorted ts
        × Permᴰ ts tasks
        × ((execute_nodes H graph tasks (machine w [] issued)).1.issued
            ≡ issued ++ task_requests w ts)
  unfolding execute_nodes join asks ◌>>=◌
  execute_nodes-IsSorted tasks w issued none_sub =
      let (sorted, perm) = sorted_tasks-IsSorted tasks in
      let (xs, starts) = tasks-start w (sorted_tasks tasks) (any-sorted_tasks _ tasks ∙ none_sub) in
      (
        sorted_tasks tasks,
        sorted,
        perm,
        ap (λ (xs, v, rs). (join_loop collect_all [] xs v (issued ++ rs)).1.issued) starts
            ∙ join_loop-issued xs w (issued ++ task_requests w (sorted_tasks tasks)),
      )

-- ===== src/Workflow/Edges.antt =====
-- `_resolve_conditional_edges`. Neither `run` nor another method calls it.
pub mod Laws
use langgraph_temporal.Prelude.{String, Bool, true, false, List, [], ◌∷◌, ◌++◌, if◌then◌else◌}
use langgraph_temporal.Prelude.Dict.{Dict}
use langgraph_temporal.Prelude.Result.{activity_error, type_error}
use langgraph_temporal.Value.{Value}
use langgraph_temporal.Config.{seconds}
use langgraph_temporal.Langgraph.{Langgraph, PregelTask}
use langgraph_temporal.Coroutine.{
  Co, done, raise, gets, await, Reply, run_edge, edge_targets, activity_failed,
}
use langgraph_temporal.Workflow.{Workflow, get_channel_values}
use langgraph_temporal.Workflow.Interrupts.{elem}

module _ {L : Langgraph} where
  -- The result is not used: whether it is None or not, the task is kept.
  unfoldable pub edge_reply :
      Co (Workflow L) (List PregelTask) → Reply → Co (Workflow L) (List PregelTask)
  edge_reply rest (edge_targets targets) = rest
  edge_reply rest (activity_failed m) = raise (activity_error m)
  edge_reply rest _ = raise (type_error "list[str]")

  unfoldable pub evaluate_edge :
      Dict Value
      → PregelTask
      → Co (Workflow L) (List PregelTask)
      → Co (Workflow L) (List PregelTask)
  unfolding edge_reply
  evaluate_edge values t rest = gets λ w.
      await
        (run_edge
          (record {
            source_node = t.name;
            graph_definition_ref = w.graph_ref;
            channel_state = values;
          })
          (seconds 10))
        (edge_reply rest)

  -- `branches` has the names of the nodes with conditional edges.
  unfoldable pub resolve_loop :
      List String
      → Dict Value
      → List PregelTask
      → List PregelTask
      → Co (Workflow L) (List PregelTask)
  unfolding evaluate_edge
  resolve_loop branches values resolved [] = done resolved
  resolve_loop branches values resolved (t ∷ ts) =
      let rest = resolve_loop branches values (resolved ++ (t ∷ [])) ts in
      if elem t.name branches then evaluate_edge values t rest else rest

  -- `graph.branches` is an argument, empty for a graph without that attribute.
  unfoldable pub resolve_conditional_edges :
      List String → List PregelTask → Co (Workflow L) (List PregelTask)
  unfolding resolve_loop
  resolve_conditional_edges [] tasks = done tasks
  resolve_conditional_edges (b ∷ branches) tasks =
      gets λ w. resolve_loop (b ∷ branches) (get_channel_values L w.channels) [] tasks

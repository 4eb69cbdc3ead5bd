-- ===== src/Workflow/Edges/Laws.antt =====
-- What `_resolve_conditional_edges` changes.
use langgraph_temporal.Prelude.{
  ◌≤◌, String, List, [], ◌∷◌, ◌++◌, map, append-nil, append_assoc, ◌≡◌, refl, ap, sym, arith,
}
use langgraph_temporal.Prelude.Lists.{length, select}
use langgraph_temporal.Prelude.Dict.{Dict}
use langgraph_temporal.Value.{Value}
use langgraph_temporal.Langgraph.{Langgraph, PregelTask}
use langgraph_temporal.Coroutine.{edge_targets, returned, solo}
use langgraph_temporal.Workflow.{Workflow, get_channel_values}
use langgraph_temporal.Workflow.Interrupts.{elem}
use langgraph_temporal.Workflow.Edges.{
  evaluate_edge, edge_reply, resolve_loop, resolve_conditional_edges,
}

module _ {L : Langgraph} where
  resolve_loop-same :
      (branches : List String) (values : Dict Value) (resolved tasks : List PregelTask)
      (w : Workflow L) (targets : List (List String))
      → length (select (λ t. elem t.name branches) tasks) ≤ length targets
      → solo (resolve_loop branches values resolved tasks) w (map edge_targets targets)
        ≡ (returned (resolved ++ tasks), w)
  unfolding resolve_loop evaluate_edge edge_reply solo
  resolve_loop-same branches values resolved [] w targets h =
      ap (λ ts. (returned ts, w)) (sym (append-nil resolved))
  resolve_loop-same branches values resolved (t ∷ ts) w [] h = ground (
    arith,
    h,
    resolve_loop-same branches values (resolved ++ (t ∷ [])) ts w [],
    append_assoc resolved (t ∷ []) ts,
  )
  resolve_loop-same branches values resolved (t ∷ ts) w (x ∷ targets) h = ground (
    arith,
    h,
    resolve_loop-same branches values (resolved ++ (t ∷ [])) ts w targets,
    resolve_loop-same branches values (resolved ++ (t ∷ [])) ts w (x ∷ targets),
    append_assoc resolved (t ∷ []) ts,
  )

  -- If the evaluation of each conditional edge ends with a list of targets, whatever these are, the
  -- tasks stay as they are, and so does the workflow.
  pub resolve_conditional_edges-same :
      (branches : List String) (tasks : List PregelTask) (w : Workflow L)
      (targets : List (List String))
      → length (select (λ t. elem t.name branches) tasks) ≤ length targets
      → solo (resolve_conditional_edges branches tasks) w (map edge_targets targets)
        ≡ (returned tasks, w)
  unfolding resolve_conditional_edges solo
  resolve_conditional_edges-same [] tasks w targets h = refl
  resolve_conditional_edges-same (b ∷ branches) tasks w targets h =
      resolve_loop-same (b ∷ branches) (get_channel_values L w.channels) [] tasks w targets h

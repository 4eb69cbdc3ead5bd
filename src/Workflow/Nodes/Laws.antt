-- ===== src/Workflow/Nodes/Laws.antt =====
-- `_execute_subgraph_as_child_workflow` and the registry.
use langgraph_temporal.Prelude.{◌≡◌, refl, arith, [], ◌∷◌, eq_refl, ◌∙◌, String, ap}
use langgraph_temporal.Prelude.Result.{ok, err, key_error}
use langgraph_temporal.Langgraph.{Langgraph, PregelTask}
use langgraph_temporal.Text.{Host}
use langgraph_temporal.Registry.{lookup, make_ref, register, unregister}
use langgraph_temporal.Registry.Laws.{unregister-register, lookup-register}
use langgraph_temporal.Coroutine.{
  Reply, solo, node_output, queue_name, child_output, activity_failed, child_failed, edge_targets,
}
use langgraph_temporal.Workflow.{Workflow}
use langgraph_temporal.Workflow.Nodes.{execute_subgraph, subgraph_reply}

module _ {L : Langgraph} (H : Host) (t : PregelTask) (sub : L.Graph) (w : Workflow L) where
  -- The reference that the subgraph gets.
  abbrev pub sub_ref : String
  sub_ref = make_ref (L.graph_name sub) (H.uuid_hex w.uuids)

  subgraph_reply-registry :
      (reply : Reply) (r : String) (w' : Workflow L)
      → (solo (subgraph_reply {L = L} H t r reply) w' []).1.registry ≡ unregister r w'.registry
  unfolding subgraph_reply solo
  subgraph_reply-registry (node_output o) r w' = refl
  subgraph_reply-registry (queue_name q) r w' = refl
  subgraph_reply-registry (child_output o) r w' = refl
  subgraph_reply-registry (activity_failed m) r w' = refl
  subgraph_reply-registry (child_failed m) r w' = refl
  subgraph_reply-registry (edge_targets ts) r w' = refl

  -- While the child workflow of a subgraph runs, the subgraph is registered under its reference.
  -- When the child ends, in whatever way, every lookup in the registry gives what it gave before,
  -- provided that the reference was not in use.
  pub execute_subgraph-registry :
      (reply : Reply) (ref : String)
      → lookup sub_ref w.registry ≡ err (key_error sub_ref)
      → (lookup sub_ref (solo (execute_subgraph H t sub) w []).1.registry ≡ ok sub)
        × (lookup ref (solo (execute_subgraph H t sub) w (reply ∷ [])).1.registry
            ≡ lookup ref w.registry)
  unfolding solo execute_subgraph register
  execute_subgraph-registry reply ref fresh = (
    ground (
      arith,
      lookup-register (L.graph_name sub) (H.uuid_hex w.uuids) sub w.registry sub_ref,
      eq_refl sub_ref,
    ),
    ap (lookup ref) (subgraph_reply-registry reply sub_ref _)
        ∙ unregister-register (L.graph_name sub) (H.uuid_hex w.uuids) sub w.registry ref fresh,
  )

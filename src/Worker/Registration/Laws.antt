-- ===== src/Worker/Registration/Laws.antt =====
-- Where a graph that a client has registered can be looked up (`TemporalGraph.__init__`,
-- `TemporalGraph.create_worker` and `GraphRegistry.get`).
use langgraph_temporal.Prelude.{ℕ, String, ◌==◌, ◌≡◌, arith, Bool, false, Option, ap, eq_refl}
use langgraph_temporal.Prelude.Dict.{Dict}
use langgraph_temporal.Prelude.Result.{ok, err, key_error}
use langgraph_temporal.Config.{ActivityOptions}
use langgraph_temporal.Registry.{Registry, lookup, make_ref, register}
use langgraph_temporal.Registry.Laws.{lookup-register}
use langgraph_temporal.Graph.{CompiledGraph, new_graph}
use langgraph_temporal.Worker.Registration.{Process, create_graph_worker, create_own_worker}

module _ (strip : String → String) (ref_hex queue_hex : String) where
  -- A client makes a TemporalGraph in the process p, and then a worker of it. In the same process, the
  -- graph is found under the client's reference. If the worker is made in another process q, where
  -- this reference is not known, from a TemporalGraph with the same graph, it is not found there,
  -- provided that the worker's digits give another reference: each registration makes a new one.
  pub create_own_worker-lookup :
      (graph : CompiledGraph) (task_queue : String) (queues : Option (Dict String))
      (options : Option (Dict ActivityOptions)) (execution run : Option ℕ) (hex : String)
      (r : Registry CompiledGraph) (p q : Process) (affinity : Bool) (path : Option String)
      → let (g, r') = new_graph graph task_queue queues options execution run hex r in
        p.registry ≡ r'
        → lookup g.graph_ref q.registry ≡ err (key_error g.graph_ref)
        → (make_ref graph.name ref_hex == g.graph_ref) ≡ false
        → (lookup g.graph_ref
              (create_own_worker strip ref_hex queue_hex g affinity path p).1.registry
            ≡ ok graph)
          × (lookup g.graph_ref
                (create_own_worker strip ref_hex queue_hex g affinity path q).1.registry
              ≡ err (key_error g.graph_ref))
  unfolding new_graph register create_own_worker create_graph_worker
  create_own_worker-lookup graph task_queue queues options execution run hex r p q affinity path
        same unknown other =
      let ref = make_ref graph.name hex in
      (
        ground (
          arith,
          lookup-register graph.name ref_hex graph p.registry ref,
          lookup-register graph.name hex graph r ref,
          eq_refl ref,
          ap (lookup ref) same,
          other,
        ),
        ground (arith, lookup-register graph.name ref_hex graph q.registry ref, unknown, other),
      )

-- ===== src/Worker/Registration.antt =====
-- langgraph/temporal/worker.py: the whole of `create_worker`, and `TemporalGraph.create_worker` of
-- langgraph/temporal/graph.py.
pub mod Laws
use langgraph_temporal.Prelude.{String, Bool, Option, List}
use langgraph_temporal.Prelude.Dict.{Dict}
use langgraph_temporal.Registry.{Registry, register}
use langgraph_temporal.Graph.{CompiledGraph, TemporalGraph}
use langgraph_temporal.Worker.{Worker, create_worker}

-- What a worker's creation reads and changes in its process: the graphs, the worker's queue, and the
-- file system.
pub record Process : Type 0 where
  pub registry : Registry CompiledGraph
  pub worker_queue : Option String
  pub files : Dict String

-- The digits for the graph's reference and those for the queue's name are arguments.
module _ (strip : String → String) (ref_hex queue_hex : String) where
  unfoldable pub create_graph_worker :
      CompiledGraph → String → Bool → Option String → Process → List Worker × Process
  unfolding register create_worker
  create_graph_worker graph task_queue use_worker_affinity path p =
      let (_, registry) = register graph.name ref_hex graph p.registry in
      let (workers, queue, files) =
        create_worker strip task_queue use_worker_affinity path queue_hex p.worker_queue p.files in
      (workers, record { registry = registry; worker_queue = queue; files = files })

  unfoldable pub create_own_worker :
      TemporalGraph → Bool → Option String → Process → List Worker × Process
  unfolding create_graph_worker
  create_own_worker g use_worker_affinity path p =
      create_graph_worker g.graph g.task_queue use_worker_affinity path p

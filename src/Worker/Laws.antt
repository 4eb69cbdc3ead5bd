-- ===== src/Worker/Laws.antt =====
-- The queues of langgraph/temporal/worker.py.
use langgraph_temporal.Prelude.{
  String, ◌==◌, ◌≡◌, ◌&&◌, refl, arith, Bool, true, false, Option, some, eq_refl,
}
use langgraph_temporal.Prelude.Dict
use langgraph_temporal.Prelude.Dict.{Dict}
use langgraph_temporal.Prelude.Lists.{any}
use langgraph_temporal.Prelude.Result.{ok}
use langgraph_temporal.Activity.Node
use langgraph_temporal.Worker.{
  Worker, Activity, execute_node, dynamic_execute_node, evaluate_conditional_edge,
  get_available_task_queue, resolve_worker_queue, create_worker, new_queue,
}

abbrev is_node_activity : Activity → Bool
is_node_activity execute_node = true
is_node_activity dynamic_execute_node = true
is_node_activity evaluate_conditional_edge = false
is_node_activity get_available_task_queue = false

abbrev is_discovery : Activity → Bool
is_discovery get_available_task_queue = true
is_discovery _ = false

-- Whether a worker runs the activities of nodes, or the discovery.
abbrev pub runs_nodes : Worker → Bool
runs_nodes w = any is_node_activity w.activities

abbrev pub runs_discovery : Worker → Bool
runs_discovery w = any is_discovery w.activities

module _ (strip : String → String) where
  -- If stripping leaves the new queue's name as it is and that name is not empty, a worker that is
  -- started again with the same file gets the queue it had before, whatever hex digits are drawn, and
  -- leaves the files as they are.
  pub resolve_worker_queue-restart :
      (task_queue path hex hex' : String) (files : Dict String)
      → strip (new_queue task_queue hex) ≡ new_queue task_queue hex
      → (new_queue task_queue hex == "") ≡ false
      → let (queue, files') = resolve_worker_queue strip task_queue (some path) hex files in
        resolve_worker_queue strip task_queue (some path) hex' files' ≡ (queue, files')
  unfolding resolve_worker_queue
  resolve_worker_queue-restart task_queue path hex hex' files strips full =
      let queue = new_queue task_queue hex in
      ground (arith, strips, full, Dict.get-put files path path queue, eq_refl path)

  -- With worker affinity, the discovery activity then names the queue of a worker that runs the
  -- nodes' activities, and it runs on the shared queue, as do the workflows.
  pub create_worker-discovery :
      (task_queue hex : String) (path current : Option String) (files : Dict String)
      → let (workers, current', files') =
          create_worker strip task_queue true path hex current files in
        (queue : String) × (Node.get_available_task_queue current' ≡ ok queue)
        × (any (λ w. w.task_queue == queue && runs_nodes w) workers ≡ true)
        × (any (λ w. w.task_queue == task_queue && w.runs_workflows && runs_discovery w) workers
            ≡ true)
  unfolding create_worker Node.get_available_task_queue Node.set_worker_task_queue
  create_worker-discovery task_queue hex path current files =
      let queue = (resolve_worker_queue strip task_queue path hex files).0 in
      (queue, refl, ground (arith, eq_refl queue), ground (arith, eq_refl task_queue))

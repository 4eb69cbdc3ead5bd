-- ===== src/Worker.antt =====
-- langgraph/temporal/worker.py: the queue of a worker, and the workers that `create_worker` makes.
-- A file system is a dict from paths to contents; making a file's directory has no state here.
pub mod Laws
pub mod Group
pub mod Registration
use langgraph_temporal.Prelude.{
  ℕ, String, ◌<>◌, ◌==◌, Bool, true, false, Option, none, some, List, [], ◌∷◌, ◌++◌, map,
  if◌then◌else◌,
}
use langgraph_temporal.Prelude.Dict
use langgraph_temporal.Prelude.Dict.{Dict}
use langgraph_temporal.Text.{first_chars}
use langgraph_temporal.Activity.Node.{set_worker_task_queue}

-- The types that are registered with a worker.
pub data Activity : Type 0 where
  execute_node dynamic_execute_node evaluate_conditional_edge get_available_task_queue : Activity

-- A `Worker`: its queue, whether it runs `LangGraphWorkflow`, its activities, and whether it gets the
-- caller's further arguments.
pub record Worker : Type 0 where
  pub task_queue : String
  pub runs_workflows : Bool
  pub activities : List Activity
  pub has_kwargs : Bool

-- f"{task_queue}-worker-{uuid.uuid4().hex[:12]}"
unfoldable pub new_queue : String → String → String
new_queue task_queue hex = task_queue <> ("-worker-" <> first_chars 12 hex)

module _ (strip : String → String) where
  -- `str.strip` is an argument. The queue, and the files after the call.
  unfoldable pub resolve_worker_queue :
      String → Option String → String → Dict String → String × Dict String
  unfolding new_queue
  resolve_worker_queue task_queue none hex files = (new_queue task_queue hex, files)
  resolve_worker_queue task_queue (some path) hex files =
      let queue = new_queue task_queue hex in
      let generated : String × Dict String = (queue, Dict.put files path queue) in
      elim (Dict.get files path) [
        | none ↦ generated
        | some text ↦ if strip text == "" then generated else (strip text, files)
      ]

  abbrev node_activities : List Activity
  node_activities = execute_node ∷ dynamic_execute_node ∷ evaluate_conditional_edge ∷ []

  -- The workers; the process's `_worker_task_queue` and the files after the call.
  unfoldable pub create_worker :
      String
      → Bool
      → Option String
      → String
      → Option String
      → Dict String
      → List Worker × Option String × Dict String
  unfolding resolve_worker_queue set_worker_task_queue
  create_worker task_queue false path hex current files = (
    record {
      task_queue = task_queue;
      runs_workflows = true;
      activities = node_activities;
      has_kwargs = true;
    }
        ∷ [],
    current,
    files,
  )
  create_worker task_queue true path hex current files =
      let (queue, files') = resolve_worker_queue task_queue path hex files in
      (
        record {
          task_queue = task_queue;
          runs_workflows = true;
          activities = get_available_task_queue ∷ [];
          has_kwargs = true;
        }
            ∷ record {
              task_queue = queue;
              runs_workflows = false;
              activities = node_activities;
              has_kwargs = false;
            }
            ∷ [],
        set_worker_task_queue queue current,
        files',
      )

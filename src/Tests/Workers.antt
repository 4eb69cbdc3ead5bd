-- ===== src/Tests/Workers.antt =====
-- Workers and their queues, at concrete inputs.
use langgraph_temporal.Prelude.{String, ◌≡◌, ◌==◌, ◌&&◌, refl, true, none, some, [], ◌∷◌}
use langgraph_temporal.Prelude.Lists.{any}
use langgraph_temporal.Prelude.Dict.{Dict}
use langgraph_temporal.Prelude.Result.{ok}
use langgraph_temporal.Text.{first_chars}
use langgraph_temporal.Activity.Node
use langgraph_temporal.Worker.{new_queue, resolve_worker_queue, create_worker}
use langgraph_temporal.Worker.Laws.{
  runs_nodes, runs_discovery, resolve_worker_queue-restart, create_worker-discovery,
}

-- The names in these tests have no blanks at their ends.
abbrev same_text : String → String
same_text s = s

abbrev blank_file : Dict String
blank_file = ("queue.txt", "") ∷ []

resolve_worker_queue-restart_example :
    let (queue, files') =
      resolve_worker_queue same_text "main" (some "queue.txt") "0123456789abcdef" blank_file in
    resolve_worker_queue same_text "main" (some "queue.txt") "fedcba9876543210" files'
    ≡ (queue, files')
unfolding new_queue first_chars
resolve_worker_queue-restart_example =
    resolve_worker_queue-restart same_text "main" "queue.txt" "0123456789abcdef" "fedcba9876543210"
      blank_file refl refl

create_worker-discovery_example :
    let (workers, current', files') =
      create_worker same_text "main" true none "0123456789abcdef" none [] in
    (queue : String) × (Node.get_available_task_queue current' ≡ ok queue)
    × (any (λ w. w.task_queue == queue && runs_nodes w) workers ≡ true)
    × (any (λ w. w.task_queue == "main" && w.runs_workflows && runs_discovery w) workers ≡ true)
create_worker-discovery_example =
    create_worker-discovery same_text "main" "0123456789abcdef" none none []

-- ===== src/Tests/Activities.antt =====
-- A run, and the dispatch of activities, at concrete inputs.
use langgraph_temporal.Prelude.{String, ◌≡◌, ◌≤◌, refl, none, some, [], ◌∷◌}
use langgraph_temporal.Prelude.Lists.{length}
use langgraph_temporal.Prelude.Dict
use langgraph_temporal.Prelude.Result.{activity_error}
use langgraph_temporal.Value.{str, null}
use langgraph_temporal.Config.{NodeActivityInput, WorkflowInput, default_input}
use langgraph_temporal.Registry.{lookup}
use langgraph_temporal.Coroutine
use langgraph_temporal.Coroutine.{
  advance, Co, Slot, Reply, requests, failed, node_output, queue_name, activity_failed,
  child_failed,
}
use langgraph_temporal.Workflow.{new_workflow, Workflow, get_channel_values}
use langgraph_temporal.Workflow.Dispatch.{execute_single_activity}
use langgraph_temporal.Workflow.Dispatch.Fallback.{requests_bound}
use langgraph_temporal.Workflow.Dispatch.Race.{parallel_failures_raise}
use langgraph_temporal.Workflow.Machine
use langgraph_temporal.Workflow.Machine.{
  join_loop, Machine, Event, complete, resume, wake, ended, raised, join, collect_all,
  collect_settled, failure, wait_for_resume,
}
use langgraph_temporal.Workflow.Machine.Triple.{Post}
use langgraph_temporal.Workflow.Interrupts.{handle_interrupted}
use langgraph_temporal.Workflow.Machine.Runs.{machine}
use langgraph_temporal.Workflow.Nodes.{execute_nodes, subgraph_of}
use langgraph_temporal.Workflow.Children.{process_child_workflow_requests}
use langgraph_temporal.Workflow.Tasks.{sorted_tasks}
use langgraph_temporal.Workflow.Sends.{extract_push_sends, extract_command_gotos}
use langgraph_temporal.Workflow.Stream.{emit_stream_events}
use langgraph_temporal.Workflow.Run.{run}
use langgraph_temporal.Workflow.Run.Buffer.{Extends, run-Extends}
use langgraph_temporal.Workflow.Run.Bounds.{Returned, IsCarried, start_step, run_lem}
use langgraph_temporal.Tests.Toy.{toy, host, fresh, pinned, output_of}

-- ------------------------------------------------------------------ a run

abbrev first_input : WorkflowInput
first_input = record (default_input "ref0") { input_data = some (("q", str "hello") ∷ []) }

-- Nodes "a" and "b" run side by side, and their replies come in the other order; then "c" runs.
abbrev first_machine : Machine toy
first_machine =
    machine {L = toy} fresh
      (complete 1 (node_output (output_of "b" "y"))
        ∷ complete 0 (node_output (output_of "a" "x"))
        ∷ complete 0 (node_output (output_of "c" "x"))
        ∷ [])
      []

-- What the run returns.
run_returns :
    (run host first_input first_machine).0
    ≡ ended (record { channel_values = ("x", str "c") ∷ ("y", str "b") ∷ []; step = 2 })
unfolding run Machine.◌>>=◌ lookup Dict.get new_workflow Dict.values execute_nodes join join_loop
    collect_all sorted_tasks advance subgraph_of execute_single_activity Coroutine.◌>>=◌
    process_child_workflow_requests handle_interrupted extract_push_sends extract_command_gotos
    get_channel_values Dict.put emit_stream_events
run_returns = refl

run_lem_example :
    Post
      (Returned first_input)
      (IsCarried first_input (start_step first_input))
      (run host first_input first_machine).0
      (run host first_input first_machine).1.self
run_lem_example = run_lem host first_input first_machine

run-Extends_example :
    Extends first_machine.self.stream_buffer (run host first_input first_machine).1.self
run-Extends_example = run-Extends host first_input first_machine

-- ------------------------------------------------------------------ activities

abbrev input_of : String → NodeActivityInput
input_of node = record {
  node_name = node;
  input_state = null;
  graph_definition_ref = "ref0";
  resume_values = none;
  task_path = [];
  send_input = none;
  triggers = [];
}

requests_bound_example :
    length (
      requests
        (execute_single_activity {L = toy} (input_of "a") "a")
        pinned
        (activity_failed "gone" ∷ queue_name "w2" ∷ activity_failed "gone" ∷ []))
    ≤ 3
requests_bound_example =
    requests_bound {L = toy} pinned (input_of "a") "a"
      (activity_failed "gone" ∷ queue_name "w2" ∷ activity_failed "gone" ∷ [])

abbrev moved : Workflow toy
moved = record pinned { sticky_task_queue = some "w2" }

parallel_failures_raise_example :
    (join {L = toy} collect_all
      (execute_single_activity (input_of "a") "a" ∷ execute_single_activity (input_of "b") "b" ∷ [])
      (record {
        self = pinned;
        schedule =
            complete 0 (activity_failed "m1")
            ∷ complete 1 (activity_failed "m2")
            ∷ complete 0 (queue_name "w2")
            ∷ [];
        issued = [];
      })).0
    ≡ raised (activity_error "m2")
parallel_failures_raise_example =
    parallel_failures_raise {L = toy} pinned (input_of "a") (input_of "b") "a" "b" "m1" "m2"
      (complete 0 (queue_name "w2") ∷ []) [] refl

-- ===== src/Tests/Runs.antt =====
-- A whole run with a discovered worker, an interrupted node that sends a task, and an interrupt before a
-- node, at a concrete schedule.
use langgraph_temporal.Prelude.{String, ◌++◌, none, some, true, false, ◌≡◌, refl, List, [], ◌∷◌}
use langgraph_temporal.Prelude.Dict
use langgraph_temporal.Prelude.Dict.{Dict}
use langgraph_temporal.Value.{Value, num, str, of_dict}
use langgraph_temporal.Config.{
  WorkflowInput, default_input, name, these_nodes, NodeActivityInput, NodeActivityOutput,
  plain_output, StateUpdatePayload, seconds,
}
use langgraph_temporal.Prelude.Result.{activity_error}
use langgraph_temporal.Registry.{lookup, unregister}
use langgraph_temporal.Workflow.Signals.{resume_signal}
use langgraph_temporal.Langgraph.{PregelTask}
use langgraph_temporal.Coroutine.{
  Request, run_activity, run_child, run_discovery, child_output, node_output, queue_name,
  activity_failed,
}
use langgraph_temporal.Workflow.{
  Workflow, increment, new_workflow, running, finished, get_channel_values,
}
use langgraph_temporal.Workflow.Machine.{Event, complete, resume, update, wake, ended, raised}
use langgraph_temporal.Workflow.Machine.Runs.{machine, Runs}
use langgraph_temporal.Workflow.Nodes.{is_subgraph_node, subgraph_of}
use langgraph_temporal.Workflow.Routing.{activity_call}
use langgraph_temporal.Workflow.Nodes.{task_input, registered, registered_ref, subgraph_call}
use langgraph_temporal.Workflow.Nodes.Batch.{node_started, child_started, all_started}
use langgraph_temporal.Workflow.Machine.Served.{all_served, replied, resumed, woken}
use langgraph_temporal.Workflow.Nodes.Pushes.{input_requests}
use langgraph_temporal.Workflow.Tasks.{sorted_tasks, insert_task}
use langgraph_temporal.Workflow.Start.{configure, reset}
use langgraph_temporal.Workflow.Sends.{push_inputs, extract_push_sends, extract_command_gotos}
use langgraph_temporal.Workflow.Run.{run}
use langgraph_temporal.Workflow.Run.Begins.{Begins, begins, discovered, known, empty}
use langgraph_temporal.Workflow.Run.Rounds.{Rounds, round, idle, failing, run-Rounds}
use langgraph_temporal.Workflow.Children.Batch.{all_processed, no_requests}
use langgraph_temporal.Workflow.Interrupts.{
  interrupt_here, is_interrupted, all_interrupts, interrupt_entries,
}
use langgraph_temporal.Workflow.Interrupts.Pauses.{paused}
use langgraph_temporal.Workflow.Interrupts.Reran.{reran, all_reran}
use langgraph_temporal.Workflow.Interrupts.Rerun.{rerun_requests}
use langgraph_temporal.Workflow.Stream.{emit_stream_events}
use langgraph_temporal.Workflow.Superstep.{superstep, stepped, advance_step, task_writes}
use langgraph_temporal.Workflow.Superstep.Phases.{
  passes, pauses, none_interrupted, run_again, none_sent, sends,
}
use langgraph_temporal.Workflow.Superstep.Steps.{
  Superstep, superstep_of, performed, superstep-Superstep,
}
use langgraph_temporal.Workflow.Machine.Broken.{broken, replied_before, resumed_before}
use langgraph_temporal.Workflow.Superstep.Failures.{tasks_fail, nodes_fail}
use langgraph_temporal.Tests.Toy.{toy, host, fresh, output_of}

abbrev pulled : String → PregelTask
pulled n = record { name = n; path = name "__pregel_pull" ∷ name n ∷ [] }

abbrev run_input : WorkflowInput
run_input = record (default_input "ref0") {
  use_worker_affinity = true;
  interrupt_before = some (these_nodes ("c" ∷ []));
}

-- The worker's queue.
abbrev found_queue : List Event
found_queue = complete 0 (queue_name "w1") ∷ []

abbrev begun : Workflow toy
begun = record fresh {
  channels = ("x", none) ∷ ("y", none) ∷ [];
  status = running;
  graph_ref = "ref0";
  sticky_task_queue = some "w1";
  use_worker_affinity = true;
}

begun-Begins :
    Begins {L = toy} run_input 0 fresh found_queue begun (run_discovery (seconds 10) ∷ [])
unfolding lookup Dict.get new_workflow configure reset
begun-Begins = begins refl (discovered "w1" refl) (empty refl refl)

-- The first superstep: "a" interrupts; the workflow is woken, resumed, and woken again; then "a" sends
-- a task to "b".
abbrev interrupted_a : NodeActivityOutput
interrupted_a = record (plain_output "a" []) {
  interrupts = some ((("value", str "sure?") ∷ []) ∷ []);
}

abbrev sending_a : NodeActivityOutput
sending_a = record (output_of "a" "x") {
  push_sends = some ((("node", str "b") ∷ ("arg", num 1) ∷ []) ∷ []);
}

abbrev first_tasks : List PregelTask
first_tasks = pulled "b" ∷ pulled "a" ∷ []

-- A resume signal comes too early.
abbrev first_replies : List Event
first_replies =
    complete 1 (node_output (output_of "b" "y"))
    ∷ resume (str "early")
    ∷ complete 0 (node_output interrupted_a)
    ∷ []

abbrev signalled : Workflow toy
signalled = record begun { resume_values = str "early" ∷ []; resume_event = true }

abbrev first_pause : List Event
first_pause = wake ∷ resume (str "yes") ∷ wake ∷ []

abbrev first_events : List Event
first_events =
    first_replies
    ++ first_pause
    ++ (complete 0 (node_output sending_a) ∷ complete 0 (node_output (output_of "b" "y")) ∷ [])

abbrev after_pause : Workflow toy
after_pause =
    paused {L = toy} ((("value", str "sure?") ∷ []) ∷ []) first_pause
      (begun.checkpoint, begun.channels) signalled

abbrev first_results : List NodeActivityOutput
first_results = output_of "b" "y" ∷ sending_a ∷ output_of "b" "y" ∷ []

abbrev sent_input : NodeActivityInput
sent_input = record {
  node_name = "b";
  input_state = of_dict [];
  graph_definition_ref = "ref0";
  resume_values = none;
  task_path = name "b" ∷ name "push" ∷ [];
  send_input = some (num 1);
  triggers = [];
}

-- The request of a task's activity.
abbrev request_for : Workflow toy → Dict Value → String → Request
request_for w values n =
    run_activity (activity_call {L = toy} w (task_input values "ref0" (pulled n)) n)

abbrev first_requests : List Request
first_requests =
    (request_for begun [] "a" ∷ request_for begun [] "b" ∷ [])
    ++ rerun_requests {L = toy} after_pause [] (interrupted_a ∷ [])
    ++ input_requests {L = toy} after_pause (sent_input ∷ [])

abbrev first_writes : Workflow toy
first_writes = record after_pause {
  checkpoint = ("version", num 1) ∷ [];
  channels = ("x", some (str "a")) ∷ ("y", some (str "b")) ∷ [];
}

abbrev after_first : Workflow toy
after_first = advance_step {L = toy} (emit_stream_events {L = toy} first_results first_writes)

first-Superstep :
    Superstep {L = toy} host 0 run_input first_tasks begun first_events after_first first_requests
unfolding Dict.get new_workflow is_subgraph_node subgraph_of interrupt_here is_interrupted
    task_writes Dict.put increment get_channel_values sorted_tasks insert_task extract_push_sends
    push_inputs extract_command_gotos all_interrupts resume_signal
first-Superstep =
    superstep_of {w3 = first_writes} (passes refl)
      (performed
        (node_started (pulled "a") interrupted_a refl
          (node_started (pulled "b") (output_of "b" "y") refl all_started))
        (replied 1 _ refl refl
          (resumed (str "early") refl (replied 0 _ refl refl (all_served refl))))
        (no_requests interrupted_a refl (no_requests (output_of "b" "y") refl all_processed))
        (run_again first_pause (begun.checkpoint, begun.channels) refl refl refl
          (reran interrupted_a sending_a (replied 0 _ refl refl (all_served refl)) all_reran))
        (sends (sent_input ∷ []) (output_of "b" "y" ∷ []) refl refl refl
          (replied 0 _ refl refl (all_served refl)))
        (none_sent refl))
      refl (passes refl)

-- The second superstep: a pause before "c", during which the state is updated.
abbrev update_y : StateUpdatePayload
update_y = record { writes = ("y", str "new") ∷ [] }

abbrev second_pause : List Event
second_pause = resume (num 1) ∷ update update_y ∷ wake ∷ []

abbrev second_events : List Event
second_events = second_pause ++ (complete 0 (node_output (output_of "c" "x")) ∷ [])

abbrev resumed_again : Workflow toy
resumed_again =
    paused {L = toy} ((("node", str "c") ∷ ("type", str "before") ∷ []) ∷ []) second_pause
      (("version", num 1) ∷ [], ("x", some (str "a")) ∷ ("y", some (str "new")) ∷ []) after_first

abbrev second_writes : Workflow toy
second_writes = record resumed_again {
  checkpoint = ("version", num 1) ∷ [];
  channels = ("x", some (str "c")) ∷ ("y", some (str "new")) ∷ [];
}

abbrev after_second : Workflow toy
after_second =
    advance_step {L = toy} (emit_stream_events {L = toy} (output_of "c" "x" ∷ []) second_writes)

abbrev second_requests : List Request
second_requests = request_for resumed_again (("x", str "a") ∷ ("y", str "new") ∷ []) "c" ∷ []

second-Superstep :
    Superstep {L = toy} host 0 run_input
      (pulled "c" ∷ [])
      after_first
      second_events
      after_second
      second_requests
unfolding Dict.get new_workflow is_subgraph_node subgraph_of interrupt_here is_interrupted
    task_writes Dict.put increment sorted_tasks insert_task extract_push_sends extract_command_gotos
    emit_stream_events advance_step interrupt_entries get_channel_values
second-Superstep =
    superstep_of {w3 = second_writes}
      (pauses second_pause
        (("version", num 1) ∷ [], ("x", some (str "a")) ∷ ("y", some (str "new")) ∷ []) refl refl
        refl)
      (performed (node_started (pulled "c") (output_of "c" "x") refl all_started)
        (replied 0 _ refl refl (all_served refl))
        (no_requests (output_of "c" "x") refl all_processed) (none_interrupted refl)
        (none_sent refl) (none_sent refl))
      refl (passes refl)

two-Rounds :
    Rounds {L = toy} host 0 run_input 0 begun
      (first_events ++ second_events)
      (ended tt)
      (record after_second { status = finished })
      (first_requests ++ second_requests)
unfolding Dict.get new_workflow Dict.values advance_step emit_stream_events
two-Rounds =
    round first_tasks refl refl refl first-Superstep refl
      (round (pulled "c" ∷ []) refl refl refl second-Superstep refl (idle refl refl))

run-Rounds_example :
    run {L = toy} host run_input
      (machine {L = toy} fresh (found_queue ++ (first_events ++ second_events ++ (wake ∷ []))) [])
    ≡ (
      ended (record { channel_values = ("x", str "c") ∷ ("y", str "new") ∷ []; step = 2 }),
      machine {L = toy}
          (record after_second { status = finished })
          (wake ∷ [])
          ((run_discovery (seconds 10) ∷ []) ++ (first_requests ++ second_requests)),
    )
unfolding get_channel_values advance_step emit_stream_events new_workflow
run-Rounds_example = run-Rounds {L = toy} host run_input 0 (wake ∷ []) [] begun-Begins two-Rounds

-- ------------------------------------------------------------------ a subgraph's superstep

abbrev sub_start : Workflow toy
sub_start = record begun { graph_ref = "ref1" }

abbrev sub_events : List Event
sub_events =
    wake
    ∷ complete 0 (child_output (record { channel_values = ("y", str "in") ∷ []; step = 2 }))
    ∷ []

abbrev sub_ref : String
sub_ref = registered_ref {L = toy} host 0 sub_start

abbrev in_child : Workflow toy
in_child = registered {L = toy} host 0 sub_start

abbrev child_done : Workflow toy
child_done = record in_child {
  registry = unregister sub_ref in_child.registry;
  checkpoint = ("version", num 1) ∷ [];
  channels = ("x", none) ∷ ("y", some (str "in")) ∷ [];
}

abbrev sub_output : NodeActivityOutput
sub_output = record (plain_output "sub" (("y", str "in") ∷ [])) {
  task_path = name "__pregel_pull" ∷ name "sub" ∷ [];
}

abbrev after_sub : Workflow toy
after_sub = advance_step {L = toy} (emit_stream_events {L = toy} (sub_output ∷ []) child_done)

superstep-Superstep_example :
    Runs {L = toy}
      (superstep {L = toy} host 1 (default_input "ref1") (pulled "sub" ∷ []))
      sub_start
      sub_events
      stepped
      after_sub
      (run_child (subgraph_call {L = toy} host (pulled "sub") sub_ref sub_start) ∷ [])
unfolding Dict.get new_workflow subgraph_of interrupt_here is_interrupted task_writes Dict.put
    increment get_channel_values sorted_tasks insert_task extract_push_sends extract_command_gotos
superstep-Superstep_example =
    superstep-Superstep {L = toy} host 1 (default_input "ref1") (pulled "sub" ∷ []) (
      superstep_of {w3 = child_done} (passes refl)
        (performed
          (child_started (pulled "sub") 0
            (record { channel_values = ("y", str "in") ∷ []; step = 2 }) refl all_started)
          (woken refl (replied 0 _ refl refl (all_served refl)))
          (no_requests sub_output refl all_processed) (none_interrupted refl) (none_sent refl)
          (none_sent refl))
        refl (passes refl))

-- ------------------------------------------------------------------ a failing run

abbrev plain_begun : Workflow toy
plain_begun = record begun { sticky_task_queue = none; use_worker_affinity = false }

-- "a" ends, a signal arrives, and the activity of "b" fails; there is no sticky queue to replace.
abbrev failing_events : List Event
failing_events =
    complete 0 (node_output (output_of "a" "x"))
    ∷ resume (str "early")
    ∷ complete 1 (activity_failed "lost")
    ∷ []

abbrev failing_request : String → Request
failing_request n = run_activity (
    activity_call {L = toy} plain_begun
      (task_input (get_channel_values toy plain_begun.channels) "ref0" (pulled n)) n)

failing_run :
    run {L = toy} host
      (default_input "ref0")
      (machine {L = toy} fresh (failing_events ++ (wake ∷ [])) [])
    ≡ (
      raised (activity_error "lost"),
      machine {L = toy}
          (resume_signal (str "early") plain_begun)
          (wake ∷ [])
          (failing_request "a" ∷ failing_request "b" ∷ []),
    )
unfolding lookup Dict.get new_workflow configure reset get_channel_values sorted_tasks insert_task
    interrupt_here Dict.values subgraph_of resume_signal
failing_run =
    run-Rounds {L = toy} host (default_input "ref0") 0 {w0 = plain_begun} (wake ∷ []) []
      (begins refl (known refl) (empty refl refl))
      (failing first_tasks refl refl refl (
        tasks_fail (passes refl) (
          nodes_fail
            (node_started (pulled "a") (output_of "a" "x") refl
              (node_started (pulled "b") (output_of "b" "y") refl all_started))
            (replied_before 0 _ refl refl
              (resumed_before (str "early") refl (broken 1 (activity_failed "lost") refl refl))))))

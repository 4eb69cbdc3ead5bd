-- ===== src/Tests/Nodes.antt =====
-- Nodes in activities, and conditional edges, at concrete inputs.
use langgraph_temporal.Prelude.{
  String, ◌==◌, ◌≡◌, refl, Bool, true, false, none, some, List, [], ◌∷◌, ◌++◌,
}
use langgraph_temporal.Prelude.Dict
use langgraph_temporal.Prelude.Dict.{Dict}
use langgraph_temporal.Prelude.Result.{Exn, Result, ok, value_error}
use langgraph_temporal.Value.{null, str, num, dict, end, field, of_dict}
use langgraph_temporal.Config.{
  NodeActivityInput, NodeActivityOutput, ConditionalEdgeInput, default_input,
}
use langgraph_temporal.Registry.{Registry, lookup}
use langgraph_temporal.Activity.{
  finishes, interrupts, throws, send, Sent, packet, plain, one_channel, Interrupt, Collected,
  nothing_yet, send_handler, read_handler, tasks_channel, play, packet_dict, sent_value,
}
use langgraph_temporal.Activity.Collects.{send_handler-splits, read_handler-written}
use langgraph_temporal.Activity.Node.{
  ActivityGraph, ActivityNode, plain_result, output, execute_node_impl, play_node,
}
use langgraph_temporal.Activity.Edges.{
  Branch, one_name, names, more_targets, evaluate_conditional_edge,
}
use langgraph_temporal.Activity.Laws.{
  tracked, execute_node_impl-tracked, execute_node_impl-interrupted, written_to,
}
use langgraph_temporal.Activity.Edges.Names.{AllNames, evaluate_conditional_edge-names}
use langgraph_temporal.Workflow.Machine.{Machine, ended}
use langgraph_temporal.Workflow.Children.{process_result}
use langgraph_temporal.Workflow.Interrupts.{is_interrupted}
use langgraph_temporal.Workflow.Sends.{extract_push_sends, extract_command_gotos}
use langgraph_temporal.Workflow.Superstep.{task_writes}
use langgraph_temporal.Workflow.Stream.{all_result_events}
use langgraph_temporal.Tests.Toy.{toy, host, output_of}

abbrev question : Interrupt
question = record { value = str "sure?"; id = "i1" }

-- It writes to a channel, to an untracked channel and to TASKS, and finishes.
abbrev writing : ActivityNode
writing = record {
  ainvoke = λ input resume.
      send
        (("x", plain (num 1))
          ∷ ("secret", plain (num 2))
          ∷ (tasks_channel, packet "b" (num 3))
          ∷ [])
        (finishes (plain_result null));
  writers = [];
  retry_policy = none;
}

-- It writes and then asks a person.
abbrev asking : ActivityNode
asking = record {
  ainvoke = λ input resume. send (("x", plain (num 1)) ∷ []) (interrupts (question ∷ []));
  writers = [];
  retry_policy = none;
}

-- It fails, and its policy retries errors other than this one.
abbrev is_value_error : Exn → Result Bool
is_value_error (value_error m) = ok false
is_value_error _ = ok true

abbrev failing : ActivityNode
failing = record {
  ainvoke = λ input resume. throws (value_error "bad");
  writers = [];
  retry_policy = some (record { retry_on = some is_value_error });
}

abbrev small_graph : ActivityGraph
small_graph = record {
  nodes = ("w", writing) ∷ ("q", asking) ∷ ("f", failing) ∷ [];
  is_untracked = λ c. c == "secret";
  retry_policies = [];
}

abbrev graphs : Registry ActivityGraph
graphs = record { graphs = ("g", small_graph) ∷ [] }

abbrev node_call : String → NodeActivityInput
node_call node = record {
  node_name = node;
  input_state = of_dict [];
  graph_definition_ref = "g";
  resume_values = none;
  task_path = [];
  send_input = none;
  triggers = [];
}

abbrev written : Collected
written = record nothing_yet {
  push_sends = (("node", str "b") ∷ ("arg", num 3) ∷ []) ∷ [];
  all_writes = ("x", num 1) ∷ ("secret", num 2) ∷ [];
}

execute_node_impl-tracked_example :
    (o : NodeActivityOutput) × (execute_node_impl graphs (node_call "w") ≡ output o)
    × (tracked small_graph o.writes ≡ true)
    × (written_to "x" o.writes ≡ num 1 ∷ [])
    × (elim o.command [ none ↦ none | some fields ↦ Dict.get fields "update" ] ≡ none)
unfolding lookup Dict.get play play_node
execute_node_impl-tracked_example =
    execute_node_impl-tracked graphs small_graph writing (node_call "w") (plain_result null) written
      "x" refl refl refl refl

abbrev asked : Collected
asked = record nothing_yet { all_writes = ("x", num 1) ∷ [] }

execute_node_impl-interrupted_example :
    (o : NodeActivityOutput) × (execute_node_impl graphs (node_call "q") ≡ output o)
    × (is_interrupted o ≡ true)
    × (task_writes toy 0 (o ∷ output_of "a" "x" ∷ []) ≡ task_writes toy 0 (output_of "a" "x" ∷ []))
    × ((m : Machine toy) → process_result {L = toy} host (default_input "g") o m ≡ (ended o, m))
    × (extract_push_sends (o ∷ output_of "a" "x" ∷ [])
        ≡ extract_push_sends (output_of "a" "x" ∷ []))
    × (extract_command_gotos (o ∷ output_of "a" "x" ∷ [])
        ≡ extract_command_gotos (output_of "a" "x" ∷ []))
    × (all_result_events 4 (o ∷ output_of "a" "x" ∷ [])
        ≡ all_result_events 4 (output_of "a" "x" ∷ []))
unfolding lookup Dict.get play play_node
execute_node_impl-interrupted_example =
    execute_node_impl-interrupted toy graphs (node_call "q") small_graph asking (question ∷ [])
      asked 0 (output_of "a" "x" ∷ []) 4 host (default_input "g") refl refl refl

abbrev sent_list : List (String × Sent)
sent_list =
    ("x", plain (num 1)) ∷ (tasks_channel, packet "b" null) ∷ (tasks_channel, plain null) ∷ []

send_handler-splits_example : send_handler sent_list asked ≡ record asked {
  push_sends = (("node", str "b") ∷ ("arg", null) ∷ []) ∷ [];
  all_writes = ("x", num 1) ∷ ("x", num 1) ∷ [];
}
unfolding packet_dict sent_value
send_handler-splits_example = send_handler-splits sent_list asked

read_handler-written_example :
    read_handler
      (dict (field "x" (num 0) end))
      (one_channel "x")
      (record asked { all_writes = asked.all_writes ++ (("x", num 5) ∷ []) })
    ≡ ok (num 5)
read_handler-written_example = read_handler-written (field "x" (num 0) end) asked "x" "x" (num 5)

-- Two branches: one names a node through its map, the other a list of nodes.
abbrev two_branches : Dict Branch
two_branches =
    (
      "p",
      record { path = some (λ state. ok (one_name "yes")); path_map = ("yes", one_name "b") ∷ [] },
    )
    ∷ ("q", record { path = some (λ state. ok (names ("c" ∷ "d" ∷ []))); path_map = [] })
    ∷ []

abbrev branching : Registry (Dict (Dict Branch))
branching = record { graphs = ("g", ("a", two_branches) ∷ []) ∷ [] }

abbrev edge_input : ConditionalEdgeInput
edge_input = record { source_node = "a"; graph_definition_ref = "g"; channel_state = [] }

evaluate_conditional_edge-names_example :
    AllNames [] (Dict.values two_branches) ("b" ∷ "c" ∷ "d" ∷ [])
unfolding evaluate_conditional_edge lookup Dict.get Dict.values
evaluate_conditional_edge-names_example =
    evaluate_conditional_edge-names branching edge_input (("a", two_branches) ∷ []) two_branches
      (more_targets ("b" ∷ "c" ∷ "d" ∷ [])) refl refl refl

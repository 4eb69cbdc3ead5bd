-- ===== src/Activity/Node.antt =====
-- `_execute_node_impl`, `_get_node_retry_policy`, `_filter_untracked_writes`, `execute_node`,
-- `set_worker_task_queue` and `get_available_task_queue`.
use langgraph_temporal.Prelude.{
  String, Bool, true, false, not, Option, none, some, List, [], ◌∷◌, map, or_default,
}
use langgraph_temporal.Prelude.Lists.{select, nonempty}
use langgraph_temporal.Prelude.Dict
use langgraph_temporal.Prelude.Dict.{Dict}
use langgraph_temporal.Prelude.Result.{Exn, Result, ok, err, key_error, index_error, final_error}
use langgraph_temporal.Value.{Value, Values, null, str, list, nil, cons, of_dict}
use langgraph_temporal.Config.{NodeActivityInput, NodeActivityOutput, Write, plain_output}
use langgraph_temporal.Registry.{Registry, lookup}
use langgraph_temporal.Activity.{
  Script, Interrupt, Collected, nothing_yet, packet_dict, End, returned, interrupted, threw, play,
}

-- One element of `Command.goto`.
pub data Target : Type 0 where
  to_send : String → Value → Target
  to_node : Value → Target

pub data Goto : Type 0 where
  several : List Target → Goto
  single : Value → Goto

-- What a node returns: a `Command`, or another value.
pub data NodeResult : Type 0 where
  command : Goto → Option Value → Value → NodeResult
  plain_result : Value → NodeResult

-- langgraph's `RetryPolicy`: `retry_on`, if it is callable.
pub record RetryPolicy : Type 0 where
  pub retry_on : Option (Exn → Result Bool)

-- A node: its callable, from its input and the resume values; its writers; and its own policy.
pub record ActivityNode : Type 0 where
  pub ainvoke : Value → List Value → Script NodeResult
  pub writers : List (NodeResult → Script (Unit {0}))
  pub retry_policy : Option RetryPolicy

-- A graph as activities see it. `is_untracked`: whether the graph has an `UntrackedValue` channel of
-- that name.
pub record ActivityGraph : Type 0 where
  pub nodes : Dict ActivityNode
  pub is_untracked : String → Bool
  pub retry_policies : Dict RetryPolicy

unfoldable pub get_node_retry_policy : ActivityGraph → String → Option RetryPolicy
get_node_retry_policy graph node = elim (Dict.get graph.retry_policies node) [
  | some policy ↦ some policy
  | none ↦ elim (Dict.get graph.nodes node) [ none ↦ none | some n ↦ n.retry_policy ]
]

unfoldable pub filter_untracked_writes : ActivityGraph → List Write → List Write
filter_untracked_writes graph ws = select (λ (c, v). not (graph.is_untracked c)) ws

unfoldable pub target_value : Target → Value
target_value (to_send node arg) = of_dict (packet_dict node arg)
target_value (to_node v) = v

target_values : List Target → Values
target_values [] = nil
target_values (t ∷ ts) = cons (target_value t) (target_values ts)

unfoldable pub goto_value : Goto → Value
unfolding target_values
goto_value (several ts) = list (target_values ts)
goto_value (single v) = v

unfoldable pub command_data : NodeResult → Option (Dict Value)
unfolding goto_value
command_data (command goto update graph) =
    some (("goto", goto_value goto) ∷ ("update", or_default update null) ∷ ("graph", graph) ∷ [])
command_data (plain_result v) = none

-- The writers that run: all of them, but none for a `Command` without an update.
unfoldable pub writers_for :
    NodeResult → List (NodeResult → Script (Unit {0})) → List (NodeResult → Script (Unit {0}))
writers_for (command goto none graph) writers = []
writers_for (command goto (some update) graph) writers = writers
writers_for (plain_result v) writers = writers

unfoldable pub run_writers :
    Value
    → NodeResult
    → List (NodeResult → Script (Unit {0}))
    → Collected
    → End (Unit {0}) × Collected
run_writers state result [] c = (returned tt, c)
run_writers state result (w ∷ ws) c =
    let (end, c') = play state (w result) c in
    elim end [
      | returned _ ↦ run_writers state result ws c'
      | interrupted is ↦ (interrupted is, c')
      | threw e ↦ (threw e, c')
    ]

-- `send_input` if it is given, else the input state.
unfoldable pub node_input : NodeActivityInput → Value
node_input input = or_default input.send_input input.input_state

-- The callable and then the writers.
unfoldable pub play_node : ActivityNode → NodeActivityInput → End NodeResult × Collected
unfolding run_writers writers_for node_input
play_node node input =
    let (end, c) =
      play input.input_state (node.ainvoke (node_input input) (or_default input.resume_values []))
        nothing_yet in
    elim end [
      | interrupted is ↦ (interrupted is, c)
      | threw e ↦ (threw e, c)
      | returned result ↦
          let (end', c') =
            run_writers input.input_state result (writers_for result node.writers) c in
          elim end' [
            | interrupted is ↦ (interrupted is, c')
            | threw e ↦ (threw e, c')
            | returned _ ↦ (returned result, c')
          ]
    ]

-- How an activity ends: with an output, with an exception as it was raised, or with an
-- `ApplicationError` that the activity makes of an exception, with `non_retryable=True`. Temporal retries
-- an exception as its own type and the retry policy of the call say.
pub data ActivityEnd : Type 0 where
  output : NodeActivityOutput → ActivityEnd
  reraised : Exn → ActivityEnd
  non_retryable : Exn → ActivityEnd

unfoldable pub finished_output :
    ActivityGraph → NodeActivityInput → NodeResult → Collected → NodeActivityOutput
unfolding filter_untracked_writes command_data
finished_output graph input result c = record {
  node_name = input.node_name;
  writes = filter_untracked_writes graph c.all_writes;
  triggers = input.triggers;
  task_path = input.task_path;
  interrupts = none;
  push_sends = nonempty c.push_sends;
  command = command_data result;
  custom_data = nonempty c.custom_data;
  child_workflow_requests = nonempty c.child_requests;
}

-- {"value": i.value, "id": i.id}
unfoldable pub interrupt_dict : Interrupt → Dict Value
interrupt_dict i = ("value", i.value) ∷ ("id", str i.id) ∷ []

unfoldable pub interrupted_output : NodeActivityInput → List Interrupt → NodeActivityOutput
unfolding interrupt_dict
interrupted_output input is = record (plain_output input.node_name []) {
  triggers = input.triggers;
  task_path = input.task_path;
  interrupts = some (map interrupt_dict is);
}

-- `except Exception`: an error that the node's policy does not want retried is made final; an error of the
-- policy's predicate takes its place; every other one is raised again as it is.
unfoldable pub error_end : Option RetryPolicy → Exn → ActivityEnd
error_end none e = reraised e
error_end (some policy) e = elim policy.retry_on [
  | none ↦ reraised e
  | some retry_on ↦ elim (retry_on e) [
    | ok true ↦ reraised e
    | ok false ↦ non_retryable e
    | err e' ↦ reraised e'
  ]
]

unfoldable pub end_of : ActivityGraph → NodeActivityInput → End NodeResult × Collected → ActivityEnd
unfolding finished_output interrupted_output error_end get_node_retry_policy
end_of graph input (returned result, c) = output (finished_output graph input result c)
end_of graph input (interrupted is, c) = output (interrupted_output input is)
end_of graph input (threw e, c) = error_end (get_node_retry_policy graph input.node_name) e

-- The look-ups stand before the `try`.
unfoldable pub execute_node_impl : Registry ActivityGraph → NodeActivityInput → ActivityEnd
unfolding play_node end_of
execute_node_impl r input = elim (lookup input.graph_definition_ref r) [
  | err e ↦ reraised e
  | ok graph ↦ elim (Dict.get graph.nodes input.node_name) [
    | none ↦ reraised (key_error input.node_name)
    | some node ↦ end_of graph input (play_node node input)
  ]
]

-- The named activity, and the one for every other name: it takes what the payload converter makes of its
-- first argument.
unfoldable pub execute_node : Registry ActivityGraph → NodeActivityInput → ActivityEnd
unfolding execute_node_impl
execute_node r input = execute_node_impl r input

unfoldable pub dynamic_execute_node :
    {A : Type 0} → (A → Result NodeActivityInput) → Registry ActivityGraph → List A → ActivityEnd
unfolding execute_node_impl
dynamic_execute_node from_payload r [] = reraised (index_error "list index out of range")
dynamic_execute_node from_payload r (arg ∷ args) = elim (from_payload arg) [
  | err e ↦ reraised e
  | ok input ↦ execute_node_impl r input
]

-- The module's variable `_worker_task_queue`.
unfoldable pub set_worker_task_queue : String → Option String → Option String
set_worker_task_queue queue current = some queue

unfoldable pub get_available_task_queue : Option String → Result String
get_available_task_queue none = err (
    final_error "Worker task queue not configured. Call set_worker_task_queue() at worker startup.")
get_available_task_queue (some queue) = ok queue

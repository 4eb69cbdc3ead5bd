-- ===== src/Tests/Client.antt =====
-- The client's side, the workers of a graph and the checkpoint saver, at concrete inputs.
use langgraph_temporal.Prelude.{
  ℕ, String, ◌==◌, ◌≡◌, refl, true, false, none, some, List, [], ◌∷◌, eqb, if◌then◌else◌,
}
use langgraph_temporal.Prelude.Dict
use langgraph_temporal.Prelude.Dict.{Dict}
use langgraph_temporal.Prelude.Result.{Result, ok, err, key_error, value_error}
use langgraph_temporal.Value.{Value, null, bool, num, str, of_dict}
use langgraph_temporal.Config.{
  WorkflowInput, every_node, these_nodes, NodeActivityInput, StreamEvent, seconds,
}
use langgraph_temporal.Langgraph.{PregelTask}
use langgraph_temporal.Text.{show, first_chars}
use langgraph_temporal.Registry.{lookup, make_ref, register}
use langgraph_temporal.Streaming.{timed_out}
use langgraph_temporal.Streaming.Laws.{answers}
use langgraph_temporal.Workflow.{Workflow, get_channel_values, running}
use langgraph_temporal.Workflow.Stream.{get_current_state}
use langgraph_temporal.Workflow.Interrupts.{interrupt_here}
use langgraph_temporal.Graph.{
  CompiledGraph, TemporalGraph, GraphRetryPolicy, RunConfig, Configurable, no_subagent, new_graph,
  build_workflow_input, retry_config,
}
use langgraph_temporal.Workflow.Run.Begins.{Begins}
use langgraph_temporal.Graph.Settings.{star-lost}
use langgraph_temporal.Graph.Stream.{astream, as_object, as_dict, astream-objects, astream-dicts}
use langgraph_temporal.Worker.Registration.{Process, create_own_worker}
use langgraph_temporal.Worker.Registration.Laws.{create_own_worker-lookup}
use langgraph_temporal.Worker.Group.{entered, aenter, async_with}
use langgraph_temporal.Worker.Group.Laws.{async_with-leak}
use langgraph_temporal.Asyncio.{running_loop}
use langgraph_temporal.Checkpoint.{
  Answer, state, not_found, RunnableConfig, CheckpointTuple, list, thread_id, alist,
}
use langgraph_temporal.Checkpoint.Laws.{list-current}
use langgraph_temporal.Tests.Toy.{toy, fresh}

abbrev policy : GraphRetryPolicy
policy = record {
  initial_interval = none;
  backoff_factor = none;
  max_interval = some (seconds 5);
  max_attempts = some 3;
}

-- It is compiled to interrupt before every node.
abbrev compiled : CompiledGraph
compiled = record {
  name = "g";
  interrupt_before_nodes = every_node;
  interrupt_after_nodes = these_nodes [];
  retry_policies = ("b", policy) ∷ [];
  node_names = "a" ∷ "b" ∷ [];
  channel_types = [];
  trigger_to_nodes = [];
  input_channels = null;
  output_channels = null;
  stream_channels = null;
}

abbrev client_graph : TemporalGraph
client_graph = record {
  graph = compiled;
  task_queue = "main";
  node_task_queues = ("b", "gpu") ∷ [];
  node_activity_options = [];
  workflow_execution_timeout = none;
  workflow_run_timeout = none;
  graph_ref = "g_01234567";
}

abbrev settings : Configurable
settings = record {
  thread_id = some (str "t1");
  recursion_limit = none;
  sticky_task_queue = none;
  use_worker_affinity = none;
  subagent_config = no_subagent;
}

abbrev config : RunConfig
config = record { configurable = some settings; recursion_limit = some 7 }

abbrev due : List PregelTask
due = record { name = "a"; path = [] } ∷ record { name = "b"; path = [] } ∷ []

star-lost_example :
    interrupt_here due (build_workflow_input client_graph null config none none).interrupt_before
    ≡ false
star-lost_example = star-lost client_graph null config none due refl refl

abbrev call_input : NodeActivityInput
call_input = record {
  node_name = "b";
  input_state = null;
  graph_definition_ref = "g_01234567";
  resume_values = none;
  task_path = [];
  send_input = none;
  triggers = [];
}

-- With worker affinity, and without a sticky queue of its own.
abbrev affine_settings : Configurable
affine_settings = record settings { use_worker_affinity = some (bool true) }

abbrev affine_config : RunConfig
affine_config = record { configurable = some affine_settings; recursion_limit = none }

abbrev arrived : WorkflowInput
arrived = record (build_workflow_input client_graph null affine_config none none) {
  node_activity_options = none;
}

abbrev worker_state : Workflow toy
worker_state = record fresh { registry = record { graphs = ("g_01234567", 0) ∷ [] } }

abbrev worker_begun : Workflow toy
worker_begun = record worker_state {
  checkpoint = ("version", num 1) ∷ [];
  channels = ("x", some (of_dict (("__root__", null) ∷ []))) ∷ ("y", none) ∷ [];
  status = running;
  graph_ref = "g_01234567";
  node_task_queues = ("b", "gpu") ∷ [];
  node_retry_policies = ("b", retry_config policy) ∷ [];
  sticky_task_queue = some "w9";
  use_worker_affinity = true;
}

-- ------------------------------------------------------------------ streams

abbrev event_in : String → String → StreamEvent
event_in mode node = record { mode = mode; payload = str node; node_name = some node; step = 0 }

abbrev seen : List StreamEvent → Workflow toy
seen events = record fresh { stream_buffer = events }

abbrev polls : List (ℕ × Workflow toy)
polls =
    (10, seen (event_in "values" "a" ∷ []))
    ∷ (20, seen (event_in "values" "a" ∷ event_in "updates" "b" ∷ event_in "values" "c" ∷ []))
    ∷ []

astream-objects_example :
    astream as_object "values" (answers {L = toy} polls) ≡ str "a" ∷ str "c" ∷ []
unfolding timed_out
astream-objects_example =
    astream-objects toy "values" polls
      (
        (event_in "values" "a" ∷ [], refl),
        ((event_in "updates" "b" ∷ event_in "values" "c" ∷ [], refl), tt),
      )
      (refl, (refl, tt))

abbrev to_dict : StreamEvent → Value
to_dict e = of_dict (("mode", str e.mode) ∷ ("data", e.payload) ∷ [])

astream-dicts_example :
    astream (as_dict to_dict) "values" (answers {L = toy} polls)
    ≡ to_dict (event_in "values" "a")
      ∷ to_dict (event_in "updates" "b")
      ∷ to_dict (event_in "values" "c")
      ∷ []
unfolding timed_out
astream-dicts_example =
    astream-dicts toy to_dict "values" polls
      (
        (event_in "values" "a" ∷ [], refl),
        ((event_in "updates" "b" ∷ event_in "values" "c" ∷ [], refl), tt),
      )
      (refl, (refl, tt))

-- ------------------------------------------------------------------ workers

abbrev client_process : Process
client_process = record {
  registry = record { graphs = ("g_01234567", compiled) ∷ [] };
  worker_queue = none;
  files = [];
}

abbrev worker_process : Process
worker_process = record client_process { registry = record { graphs = [] } }

create_own_worker-lookup_example :
    let (g, r') =
      new_graph compiled "main" none none none none "0123456789" (record { graphs = [] }) in
    (lookup g.graph_ref
        (create_own_worker (λ s. s) "fedcba9876" "00" g false none client_process).1.registry
      ≡ ok compiled)
    × (lookup g.graph_ref
          (create_own_worker (λ s. s) "fedcba9876" "00" g false none worker_process).1.registry
        ≡ err (key_error g.graph_ref))
unfolding new_graph lookup register Dict.put make_ref first_chars Dict.get
create_own_worker-lookup_example =
    create_own_worker-lookup (λ s. s) "fedcba9876" "00" compiled "main" none none none none
      "0123456789" (record { graphs = [] }) client_process worker_process false none refl refl refl

-- The worker 3 cannot be entered.
abbrev enter : ℕ → Result (Unit {0})
enter n = if eqb n 3 then err (value_error "no server") else ok tt

abbrev body : Result ℕ
body = ok 0

async_with-leak_example :
    async_with enter (λ n. ok tt) (1 ∷ 2 ∷ 3 ∷ 4 ∷ []) body
    ≡ (err (value_error "no server"), entered 1 ∷ entered 2 ∷ [])
unfolding aenter
async_with-leak_example =
    async_with-leak enter (λ n. ok tt) (1 ∷ 2 ∷ []) (4 ∷ []) 3 body (value_error "no server") refl
      refl

-- ------------------------------------------------------------------ checkpoints

abbrev thread_config : RunnableConfig
thread_config = ("configurable", ("thread_id", "t1") ∷ []) ∷ []

abbrev query : String → Answer
query id = if id == "t1" then state (get_current_state {L = toy} fresh) else not_found

list-current_example :
    (t : CheckpointTuple) × (alist query "now" (some thread_config) ≡ t ∷ [])
    × (list query "now" running_loop (some thread_config) ≡ [])
    × (t.checkpoint.channel_values ≡ get_channel_values toy fresh.channels)
    × (t.metadata.step ≡ fresh.step)
    × (t.checkpoint.id ≡ show fresh.step)
    × (t.config ≡ thread_config)
unfolding thread_id Dict.get
list-current_example =
    list-current {L = toy} query "now" "t1" running_loop thread_config fresh refl refl

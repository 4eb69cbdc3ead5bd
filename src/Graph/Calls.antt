-- ===== src/Graph/Calls.antt =====
-- The methods of `TemporalGraph` that call the Temporal client, and `extract_graph_metadata`. A method
-- makes one call and gives back what it makes of the answer.
use langgraph_temporal.Prelude.{ℕ, String, Option, List, [], ◌∷◌}
use langgraph_temporal.Prelude.Dict.{Dict}
use langgraph_temporal.Prelude.Result.{Result, ok, err}
use langgraph_temporal.Value.{Value}
use langgraph_temporal.Config.{
  WorkflowInput, WorkflowOutput, InterruptNodes, StateQueryResult, StateUpdatePayload,
}
use langgraph_temporal.Text.{Host}
use langgraph_temporal.Asyncio.{EventLoop, run_until_complete}
use langgraph_temporal.Graph.{
  TemporalGraph, CompiledGraph, RunConfig, get_workflow_id, build_workflow_input, list_of_nodes,
}

-- The arguments of `execute_workflow` and `start_workflow`.
pub record StartCall : Type 0 where
  pub input : WorkflowInput
  pub id : String
  pub task_queue : String
  pub execution_timeout : Option ℕ
  pub run_timeout : Option ℕ

-- A call of the client, and what becomes of its answer.
pub data Client (A : Type 0) : Type 0 where
  execute_workflow : StartCall → (Result WorkflowOutput → Result A) → Client A
  start_workflow : StartCall → (Result String → Result A) → Client A
  query_state : String → (Result StateQueryResult → Result A) → Client A
  signal_update : String → StateUpdatePayload → (Result (Unit {0}) → Result A) → Client A
  signal_resume : String → Value → (Result (Unit {0}) → Result A) → Client A

abbrev pub on_ok {ℓ κ} : {A : Type ℓ} {B : Type κ} → (A → B) → Result A → Result B
on_ok f (ok a) = ok (f a)
on_ok f (err e) = err e

-- What `get_state` gives.
pub record StateSummary : Type 0 where
  pub values : Dict Value
  pub step : ℕ
  pub status : String
  pub interrupts : List (Dict Value)

module _ (H : Host) (g : TemporalGraph) (config : RunConfig) (hex : String) where
  unfoldable pub start_call : Value → Option InterruptNodes → Option InterruptNodes → StartCall
  start_call input before after = record {
    input = build_workflow_input g input config before after;
    id = get_workflow_id H config hex;
    task_queue = g.task_queue;
    execution_timeout = g.workflow_execution_timeout;
    run_timeout = g.workflow_run_timeout;
  }

  unfoldable pub ainvoke :
      Value → Option InterruptNodes → Option InterruptNodes → Client (Dict Value)
  unfolding start_call
  ainvoke input before after =
      execute_workflow (start_call input before after) (on_ok λ o. o.channel_values)

  -- It runs `ainvoke` to its end.
  unfoldable pub invoke :
      EventLoop
      → Value
      → Option InterruptNodes
      → Option InterruptNodes
      → Result (Client (Dict Value))
  unfolding ainvoke run_until_complete
  invoke loop input before after = run_until_complete loop (ainvoke input before after)

  -- The result is the workflow's handle, here its id.
  unfoldable pub astart : Value → Option InterruptNodes → Option InterruptNodes → Client String
  unfolding start_call
  astart input before after = start_workflow (start_call input before after) (on_ok λ id. id)

  unfoldable pub get_state : Client StateSummary
  get_state = query_state (get_workflow_id H config hex) (
      on_ok λ r. record {
        values = r.channel_values;
        step = r.step;
        status = r.status;
        interrupts = r.interrupts;
      })

  unfoldable pub get_state_history : Client (List StateSummary)
  get_state_history = query_state (get_workflow_id H config hex) (
      on_ok λ r.
        record {
          values = r.channel_values;
          step = r.step;
          status = r.status;
          interrupts = r.interrupts;
        }
        ∷ [])

  unfoldable pub update_state : Dict Value → Client (Unit {0})
  update_state values =
      signal_update (get_workflow_id H config hex) (record { writes = values }) (on_ok λ u. u)

  unfoldable pub resume : Value → Client (Unit {0})
  resume value = signal_resume (get_workflow_id H config hex) value (on_ok λ u. u)

-- `extract_graph_metadata`: the dict's entries as a record.
pub record GraphMetadata : Type 0 where
  pub node_names : List String
  pub channel_specs : Dict String
  pub trigger_to_nodes : Dict (List String)
  pub interrupt_before_nodes : List String
  pub interrupt_after_nodes : List String
  pub input_channels : Value
  pub output_channels : Value
  pub stream_channels : Value

unfoldable pub extract_graph_metadata : CompiledGraph → GraphMetadata
extract_graph_metadata g = record {
  node_names = g.node_names;
  channel_specs = g.channel_types;
  trigger_to_nodes = g.trigger_to_nodes;
  interrupt_before_nodes = list_of_nodes g.interrupt_before_nodes;
  interrupt_after_nodes = list_of_nodes g.interrupt_after_nodes;
  input_channels = g.input_channels;
  output_channels = g.output_channels;
  stream_channels = g.stream_channels;
}

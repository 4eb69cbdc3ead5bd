-- ===== src/Config.antt =====
-- The dataclasses of langgraph/temporal/config.py. A `timedelta`, and a number of seconds given
-- as a float, is a number of microseconds; a backoff coefficient is in millionths.
pub mod Conveyed
use langgraph_temporal.Prelude.{ℕ, ◌*◌, String, Bool, false, Option, none, List, []}
use langgraph_temporal.Prelude.Dict.{Dict}
use langgraph_temporal.Value.{Value}

-- `timedelta(seconds=n)`
abbrev pub seconds : ℕ → ℕ
seconds n = n * 1000000

pub record ActivityOptions : Type 0 where
  pub start_to_close_timeout : ℕ
  pub heartbeat_timeout : Option ℕ
  pub schedule_to_close_timeout : Option ℕ

-- `ActivityOptions()`
abbrev pub default_options : ActivityOptions
default_options = record {
  start_to_close_timeout = seconds 300;
  heartbeat_timeout = none;
  schedule_to_close_timeout = none;
}

pub record SubAgentConfig : Type 0 where
  pub task_queue : Option String
  pub sticky_task_queue : Option String
  pub execution_timeout_seconds : ℕ

-- A `Checkpoint` is a TypedDict.
abbrev pub Checkpoint : Type 0
Checkpoint = Dict Value

pub record RestoredState : Type 0 where
  pub checkpoint : Checkpoint
  pub step : ℕ
  pub sticky_task_queue : Option String

pub record RetryPolicyConfig : Type 0 where
  pub initial_interval_seconds : ℕ
  pub backoff_coefficient : ℕ
  pub max_interval_seconds : ℕ
  pub max_attempts : ℕ
  pub non_retryable_error_types : Option (List String)

-- `list[str] | All`: node names, or `"*"`.
pub data InterruptNodes : Type 0 where
  every_node : InterruptNodes
  these_nodes : List String → InterruptNodes

pub record WorkflowInput : Type 0 where
  pub graph_definition_ref : String
  pub input_data : Option (Dict Value)
  pub recursion_limit : ℕ
  pub interrupt_before : Option InterruptNodes
  pub interrupt_after : Option InterruptNodes
  pub restored_state : Option RestoredState
  pub node_task_queues : Option (Dict String)
  pub node_activity_options : Option (Dict ActivityOptions)
  pub node_retry_policies : Option (Dict RetryPolicyConfig)
  pub sticky_task_queue : Option String
  pub use_worker_affinity : Bool
  pub subagent_config : Option SubAgentConfig

-- `WorkflowInput(graph_definition_ref=ref)`: every other field at its default.
abbrev pub default_input : String → WorkflowInput
default_input ref = record {
  graph_definition_ref = ref;
  input_data = none;
  recursion_limit = 25;
  interrupt_before = none;
  interrupt_after = none;
  restored_state = none;
  node_task_queues = none;
  node_activity_options = none;
  node_retry_policies = none;
  sticky_task_queue = none;
  use_worker_affinity = false;
  subagent_config = none;
}

pub record WorkflowOutput : Type 0 where
  pub channel_values : Dict Value
  pub step : ℕ

-- One part of a task path, `str | int`.
pub data PathPart : Type 0 where
  name : String → PathPart
  index : ℕ → PathPart

-- `(channel, value)`
abbrev pub Write : Type 0
Write = String × Value

pub record NodeActivityInput : Type 0 where
  pub node_name : String
  pub input_state : Value
  pub graph_definition_ref : String
  pub resume_values : Option (List Value)
  pub task_path : List PathPart
  pub send_input : Option Value
  pub triggers : List String

pub record NodeActivityOutput : Type 0 where
  pub node_name : String
  pub writes : List Write
  pub triggers : List String
  pub task_path : List PathPart
  pub interrupts : Option (List (Dict Value))
  pub push_sends : Option (List (Dict Value))
  pub command : Option (Dict Value)
  pub custom_data : Option (List Value)
  pub child_workflow_requests : Option (List (Dict Value))

-- `NodeActivityOutput(node_name, writes)`: every other field at its default.
abbrev pub plain_output : String → List Write → NodeActivityOutput
plain_output node ws = record {
  node_name = node;
  writes = ws;
  triggers = [];
  task_path = [];
  interrupts = none;
  push_sends = none;
  command = none;
  custom_data = none;
  child_workflow_requests = none;
}

pub record ConditionalEdgeInput : Type 0 where
  pub source_node : String
  pub graph_definition_ref : String
  pub channel_state : Dict Value

pub record StateQueryResult : Type 0 where
  pub channel_values : Dict Value
  pub channel_versions : Dict Value
  pub versions_seen : Dict Value
  pub step : ℕ
  pub status : String
  pub interrupts : List (Dict Value)

pub record StateUpdatePayload : Type 0 where
  pub writes : List Write

pub record StreamEvent : Type 0 where
  pub mode : String
  pub payload : Value
  pub node_name : Option String
  pub step : ℕ

pub record StreamQueryResult : Type 0 where
  pub events : List StreamEvent
  pub next_cursor : ℕ

-- ===== src/Workflow.antt =====
-- langgraph/temporal/workflow.py: the state of `LangGraphWorkflow`, its constructor, and the two
-- helpers on channels. The methods are in the modules below.
pub mod Routing
pub mod Edges
pub mod Dispatch
pub mod Signals
pub mod Machine
pub mod Sends
pub mod Tasks
pub mod Nodes
pub mod Children
pub mod Stream
pub mod Interrupts
pub mod Start
pub mod Superstep
pub mod Run
pub mod Frame
use langgraph_temporal.Prelude.{
  ℕ, zero, ◌+◌, String, Bool, false, Option, none, some, List, [], ◌∷◌,
}
use langgraph_temporal.Prelude.{or_default}
use langgraph_temporal.Prelude.Dict
use langgraph_temporal.Prelude.Dict.{Dict}
use langgraph_temporal.Value.{Value}
use langgraph_temporal.Config.{
  Checkpoint, ActivityOptions, RetryPolicyConfig, SubAgentConfig, StreamEvent,
}
use langgraph_temporal.Langgraph.{Langgraph, Reading, missing_value, read_failed, got}
use langgraph_temporal.Registry.{Registry}

-- CONTINUE_AS_NEW_THRESHOLD
abbrev pub continue_as_new_threshold : ℕ
continue_as_new_threshold = 500

-- `increment(current, channel)`; `None` and 0 count alike.
unfoldable pub increment : Option ℕ → ℕ
increment current = or_default current 0 + 1

-- The attribute `status`: the four texts that the code assigns.
pub data Status : Type 0 where
  pending running interrupted finished : Status

abbrev pub status_text : Status → String
status_text pending = "pending"
status_text running = "running"
status_text interrupted = "interrupted"
status_text finished = "done"

-- The attributes of `LangGraphWorkflow`. `_managed` is always empty and left out. The last two are
-- not attributes: the process's `GraphRegistry`, and how many uuids have been drawn.
pub record Workflow (L : Langgraph) : Type 0 where
  pub channels : Dict L.Channel
  pub checkpoint : Checkpoint
  pub step : ℕ
  pub status : Status
  pub interrupts : List (Dict Value)
  pub resume_values : List Value
  pub stream_buffer : List StreamEvent
  pub resume_event : Bool
  pub graph_ref : String
  pub trigger_to_nodes : Dict (List String)
  pub node_task_queues : Dict String
  pub node_activity_options : Dict ActivityOptions
  pub node_retry_policies : Dict RetryPolicyConfig
  pub sticky_task_queue : Option String
  pub use_worker_affinity : Bool
  pub subagent_config : Option SubAgentConfig
  pub registry : Registry L.Graph
  pub uuids : ℕ

-- `__init__`, in a process with the given registry.
unfoldable pub new_workflow : (L : Langgraph) → Registry L.Graph → Workflow L
new_workflow L r = record {
  channels = [];
  checkpoint = L.empty_checkpoint;
  step = 0;
  status = pending;
  interrupts = [];
  resume_values = [];
  stream_buffer = [];
  resume_event = false;
  graph_ref = "";
  trigger_to_nodes = [];
  node_task_queues = [];
  node_activity_options = [];
  node_retry_policies = [];
  sticky_task_queue = none;
  use_worker_affinity = false;
  subagent_config = none;
  registry = r;
  uuids = 0;
}

-- A channel that is empty, or whose `get` raises, has no entry.
abbrev note_reading : String → Reading → Dict Value → Dict Value
note_reading name missing_value rest = rest
note_reading name read_failed rest = rest
note_reading name (got v) rest = (name, v) ∷ rest

-- `_get_channel_values`. The names of a dict differ, so each `result[name] = val` adds an entry.
unfoldable pub get_channel_values : (L : Langgraph) → Dict L.Channel → Dict Value
get_channel_values L [] = []
get_channel_values L ((name, channel) ∷ channels) =
    note_reading name (L.channel_get channel) (get_channel_values L channels)

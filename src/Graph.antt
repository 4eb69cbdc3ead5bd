-- ===== src/Graph.antt =====
-- langgraph/temporal/graph.py: `TemporalGraph`, the client's side. `extract_graph_metadata` of
-- langgraph/temporal/converter.py reads the same compiled graph. The values of a config have the
-- documented types; a key that is missing, and one whose value is None, is `none`.
pub mod Calls
pub mod Stream
pub mod Settings
use langgraph_temporal.Prelude.{
  ℕ, String, ◌<>◌, Bool, true, false, Option, none, some, List, [], ◌∷◌, map, if◌then◌else◌,
  or_default,
}
use langgraph_temporal.Prelude.Lists.{is_nil}
use langgraph_temporal.Prelude.Dict
use langgraph_temporal.Prelude.Dict.{Dict}
use langgraph_temporal.Prelude.Result.{Result, ok, ◌>>=◌}
use langgraph_temporal.Value.{Value, dict, entries, truthy}
use langgraph_temporal.Config.{
  ActivityOptions, RetryPolicyConfig, SubAgentConfig, InterruptNodes, every_node, these_nodes,
  WorkflowInput, seconds,
}
use langgraph_temporal.Text.{Host, format, first_chars}
use langgraph_temporal.Registry.{Registry, register}

-- What the code reads of langgraph's `RetryPolicy`; an attribute that is missing is `none`.
pub record GraphRetryPolicy : Type 0 where
  pub initial_interval : Option ℕ
  pub backoff_factor : Option ℕ
  pub max_interval : Option ℕ
  pub max_attempts : Option ℕ

-- What the code reads of a compiled graph. `channel_types`: the name of each channel's class.
pub record CompiledGraph : Type 0 where
  pub name : String
  pub interrupt_before_nodes : InterruptNodes
  pub interrupt_after_nodes : InterruptNodes
  pub retry_policies : Dict GraphRetryPolicy
  pub node_names : List String
  pub channel_types : Dict String
  pub trigger_to_nodes : Dict (List String)
  pub input_channels : Value
  pub output_channels : Value
  pub stream_channels : Value

-- `config["configurable"].get("subagent_config")`: nothing of use, a `SubAgentConfig`, or a dict.
pub data RawSubagent : Type 0 where
  no_subagent : RawSubagent
  subagent_object : SubAgentConfig → RawSubagent
  subagent_dict : Option String → Option String → Option ℕ → RawSubagent

pub record Configurable : Type 0 where
  pub thread_id : Option Value
  pub recursion_limit : Option ℕ
  pub sticky_task_queue : Option String
  pub use_worker_affinity : Option Value
  pub subagent_config : RawSubagent

-- A config. An empty one and None have neither key.
pub record RunConfig : Type 0 where
  pub configurable : Option Configurable
  pub recursion_limit : Option ℕ

-- `TemporalGraph`, with its compiled graph; `client` and `stream_backend` are the caller's.
pub record TemporalGraph : Type 0 where
  pub graph : CompiledGraph
  pub task_queue : String
  pub node_task_queues : Dict String
  pub node_activity_options : Dict ActivityOptions
  pub workflow_execution_timeout : Option ℕ
  pub workflow_run_timeout : Option ℕ
  pub graph_ref : String

-- The constructor: it registers the graph. `hex` is what `uuid4().hex` gives.
unfoldable pub new_graph :
    CompiledGraph
    → String
    → Option (Dict String)
    → Option (Dict ActivityOptions)
    → Option ℕ
    → Option ℕ
    → String
    → Registry CompiledGraph
    → TemporalGraph × Registry CompiledGraph
new_graph graph task_queue queues options execution run hex r =
    let (ref, r') = register graph.name hex graph r in
    (
      record {
        graph = graph;
        task_queue = task_queue;
        node_task_queues = or_default queues [];
        node_activity_options = or_default options [];
        workflow_execution_timeout = execution;
        workflow_run_timeout = run;
        graph_ref = ref;
      },
      r',
    )

-- `local`: the same on a test server, if this starts.
unfoldable pub local :
    {A : Type 0}
    → Result A
    → CompiledGraph
    → String
    → Option (Dict String)
    → Option (Dict ActivityOptions)
    → Option ℕ
    → Option ℕ
    → String
    → Registry CompiledGraph
    → Result (TemporalGraph × Registry CompiledGraph)
unfolding new_graph
local start graph task_queue queues options execution run hex r =
    start >>= λ server. ok (new_graph graph task_queue queues options execution run hex r)

-- `config["configurable"]`, asked for one of its keys.
abbrev setting {ℓ} : {A : Type ℓ} → RunConfig → (Configurable → Option A) → Option A
setting config key = elim config.configurable [ none ↦ none | some c ↦ key c ]

unfoldable pub get_workflow_id : Host → RunConfig → String → String
get_workflow_id H config hex =
    let generated = "langgraph-" <> first_chars 12 hex in
    elim (setting config (λ c. c.thread_id)) [
      | none ↦ generated
      | some v ↦ if truthy v then format H v else generated
    ]

-- The config's own limit, else that of "configurable", else 25.
unfoldable pub choose_limit : RunConfig → ℕ
choose_limit config =
    or_default config.recursion_limit (or_default (setting config (λ c. c.recursion_limit)) 25)

-- `list(nodes)`: of the text "*", its characters.
unfoldable pub list_of_nodes : InterruptNodes → List String
list_of_nodes every_node = "*" ∷ []
list_of_nodes (these_nodes names) = names

-- The argument, else the graph's nodes, if there are any.
unfoldable pub choose_interrupts : Option InterruptNodes → InterruptNodes → Option InterruptNodes
unfolding list_of_nodes
choose_interrupts (some nodes) graph_nodes = some nodes
choose_interrupts none graph_nodes =
    let names = list_of_nodes graph_nodes in if is_nil names then none else some (these_nodes names)

-- `RetryPolicyConfig` from a policy of the graph, with the defaults of `getattr`.
unfoldable pub retry_config : GraphRetryPolicy → RetryPolicyConfig
retry_config p = record {
  initial_interval_seconds = or_default p.initial_interval (seconds 1);
  backoff_coefficient = or_default p.backoff_factor 2000000;
  max_interval_seconds = or_default p.max_interval (seconds 100);
  max_attempts = or_default p.max_attempts 0;
  non_retryable_error_types = none;
}

unfoldable pub retry_configs : Dict GraphRetryPolicy → Dict RetryPolicyConfig
unfolding retry_config
retry_configs [] = []
retry_configs ((node, p) ∷ ps) = (node, retry_config p) ∷ retry_configs ps

-- `d if d else None`
unfoldable pub none_if_empty {ℓ} : {V : Type ℓ} → Dict V → Option (Dict V)
none_if_empty [] = none
none_if_empty (x ∷ d) = some (x ∷ d)

unfoldable pub choose_subagent : RawSubagent → Option SubAgentConfig
choose_subagent no_subagent = none
choose_subagent (subagent_object c) = some c
choose_subagent (subagent_dict queue sticky timeout) = some (record {
  task_queue = queue;
  sticky_task_queue = sticky;
  execution_timeout_seconds = or_default timeout (seconds 1800);
})

-- A dict is the input data as it is; anything else is put under "__root__".
unfoldable pub root_data : Value → Dict Value
root_data (dict fs) = entries fs
root_data v = ("__root__", v) ∷ []

unfoldable pub truthy_setting : Option Value → Bool
truthy_setting none = false
truthy_setting (some v) = truthy v

unfoldable pub build_workflow_input :
    TemporalGraph
    → Value
    → RunConfig
    → Option InterruptNodes
    → Option InterruptNodes
    → WorkflowInput
unfolding choose_limit choose_interrupts retry_configs none_if_empty choose_subagent root_data
    truthy_setting
build_workflow_input g input config before after = record {
  graph_definition_ref = g.graph_ref;
  input_data = some (root_data input);
  recursion_limit = choose_limit config;
  interrupt_before = choose_interrupts before g.graph.interrupt_before_nodes;
  interrupt_after = choose_interrupts after g.graph.interrupt_after_nodes;
  restored_state = none;
  node_task_queues = none_if_empty g.node_task_queues;
  node_activity_options = none_if_empty g.node_activity_options;
  node_retry_policies = none_if_empty (retry_configs g.graph.retry_policies);
  sticky_task_queue = setting config (λ c. c.sticky_task_queue);
  use_worker_affinity = truthy_setting (setting config (λ c. c.use_worker_affinity));
  subagent_config = elim config.configurable [
    | none ↦ none
    | some c ↦ choose_subagent c.subagent_config
  ];
}

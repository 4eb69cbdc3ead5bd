-- ===== src/Tests/Toy.antt =====
-- A small graph library and a small host, for the tests. Graph 0 runs the nodes "b" and "a" at step
-- 0 and "c" at step 1; graph 1 has one node, which is bound to graph 0.
use langgraph_temporal.Prelude.{
  ℕ, zero, suc, ◌%◌, String, ◌<>◌, true, Option, none, some, List, [], ◌∷◌, eqb, ltb, if◌then◌else◌,
}
use langgraph_temporal.Prelude.Dict
use langgraph_temporal.Prelude.Dict.{Dict}
use langgraph_temporal.Prelude.Result.{ok}
use langgraph_temporal.Value.{Value, str, num}
use langgraph_temporal.Config.{Write, name, NodeActivityOutput, plain_output}
use langgraph_temporal.Langgraph.{
  Langgraph, PregelTask, TaskWrites, Reading, got, missing_value, unbound, pregel,
}
use langgraph_temporal.Text.{Host, show}
use langgraph_temporal.Workflow.{Workflow, new_workflow}

abbrev nodes_of : ℕ → Dict ℕ
nodes_of zero = ("b", 0) ∷ ("a", 0) ∷ ("c", 1) ∷ []
nodes_of (suc g) = ("sub", 10) ∷ []

abbrev store_writes : Dict (Option Value) → List Write → Dict (Option Value)
store_writes channels [] = channels
store_writes channels ((c, v) ∷ ws) = store_writes (Dict.put channels c (some v)) ws

abbrev store_all : Dict (Option Value) → List TaskWrites → Dict (Option Value)
store_all channels [] = channels
store_all channels (t ∷ ts) = store_all (store_writes channels t.writes) ts

abbrev tasks_at : ℕ → Dict ℕ → Dict PregelTask
tasks_at step [] = []
tasks_at step ((n, s) ∷ ns) =
    let rest = tasks_at step ns in
    if eqb (s % 10) step
    then (n, record { name = n; path = name "__pregel_pull" ∷ name n ∷ [] }) ∷ rest
    else rest

-- The values of the channels that have one, and the channels again.
abbrev present : Dict (Option Value) → Dict Value
present [] = []
present ((c, none) ∷ cs) = present cs
present ((c, some v) ∷ cs) = (c, v) ∷ present cs

abbrev stored_channels : Dict (Option Value) → Dict Value → Dict (Option Value)
stored_channels [] checkpoint = []
stored_channels ((c, v) ∷ cs) checkpoint =
    (c, Dict.get checkpoint c) ∷ stored_channels cs checkpoint

abbrev reading_of : Option Value → Reading
reading_of none = missing_value
reading_of (some v) = got v

abbrev pub toy : Langgraph
toy = record {
  Graph = ℕ;
  Node = ℕ;
  Channel = Option Value;
  graph_name = λ g. "toy";
  nodes = nodes_of;
  node_triggers = λ n. [];
  bound = λ n. if ltb n 10 then unbound else pregel 0;
  graph_channels = λ g. ("x", none) ∷ ("y", none) ∷ [];
  trigger_to_nodes = λ g. [];
  input_channel = λ g. "x";
  channel_get = reading_of;
  empty_checkpoint = [];
  channels_from_checkpoint = stored_channels;
  apply_writes = λ checkpoint channels tasks version triggers.
      ok (("version", num (version none)) ∷ [], store_all channels tasks);
  prepare_next_tasks =
      λ checkpoint pending nodes channels thread step stop triggers. ok (tasks_at step nodes);
  create_checkpoint = λ checkpoint channels step. ("step", num step) ∷ present channels;
}

abbrev pub host : Host
host = record {
  workflow_id = "wf";
  task_queue = "main";
  uuid_hex = λ n. show n <> "0123456789abcdef";
  str_value = λ v. "value";
  str_exn = λ e. "error";
}

-- A workflow in a process in which both graphs are registered.
abbrev pub fresh : Workflow toy
fresh = new_workflow toy (record { graphs = ("ref0", 0) ∷ ("ref1", 1) ∷ [] })

-- One whose activities are pinned to a worker.
abbrev pub pinned : Workflow toy
pinned = record fresh { sticky_task_queue = some "w1"; use_worker_affinity = true }

-- The outputs of the three nodes.
abbrev pub output_of : String → String → NodeActivityOutput
output_of node channel = plain_output node ((channel, str node) ∷ [])

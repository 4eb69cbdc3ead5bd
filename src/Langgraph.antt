-- ===== src/Langgraph.antt =====
-- What the program uses of the langgraph library, as an interface: the compiled graph, channels,
-- and the functions of `langgraph.pregel._algo` and `langgraph.pregel._checkpoint`.
use langgraph_temporal.Prelude.{ℕ, String, Option, List}
use langgraph_temporal.Prelude.Dict.{Dict}
use langgraph_temporal.Prelude.Result.{Result}
use langgraph_temporal.Value.{Value}
use langgraph_temporal.Config.{Checkpoint, PathPart, Write}

-- What `channel.get()` does: it gives a value, gives the sentinel `MISSING`, or raises.
pub data Reading : Type 0 where
  missing_value read_failed : Reading
  got : Value → Reading

-- The attribute `bound` of a node: none, a runnable, or a compiled graph.
pub data Bound (Graph : Type 0) : Type 0 where
  unbound : Bound Graph
  runnable : Bound Graph
  pregel : Graph → Bound Graph

-- `PregelTask`: what `prepare_next_tasks` gives for each task, for_execution=False.
pub record PregelTask : Type 0 where
  pub name : String
  pub path : List PathPart

-- `PregelTaskWrites`
pub record TaskWrites : Type 0 where
  pub path : List PathPart
  pub name : String
  pub writes : List Write
  pub triggers : List String

pub record Langgraph : Type 1 where
  pub Graph : Type 0
  pub Node : Type 0
  pub Channel : Type 0
  pub graph_name : Graph → String
  pub nodes : Graph → Dict Node
  pub node_triggers : Node → List String
  pub bound : Node → Bound Graph
  pub graph_channels : Graph → Dict Channel
  pub trigger_to_nodes : Graph → Dict (List String)
  pub input_channel : Graph → String
  pub channel_get : Channel → Reading
  pub empty_checkpoint : Checkpoint
  pub channels_from_checkpoint : Dict Channel → Checkpoint → Dict Channel
  -- The version function is handed over; the checkpoint and the channels are changed.
  pub apply_writes :
      Checkpoint
      → Dict Channel
      → List TaskWrites
      → (Option ℕ → ℕ)
      → Dict (List String)
      → Result (Checkpoint × Dict Channel)
  -- checkpoint, pending_writes, nodes, channels, thread_id, step, stop, trigger_to_nodes
  pub prepare_next_tasks :
      Checkpoint
      → List (String × Write)
      → Dict Node
      → Dict Channel
      → String
      → ℕ
      → ℕ
      → Dict (List String)
      → Result (Dict PregelTask)
  pub create_checkpoint : Checkpoint → Dict Channel → ℕ → Checkpoint

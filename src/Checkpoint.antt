-- ===== src/Checkpoint.antt =====
-- langgraph/temporal/checkpoint.py: `TemporalCheckpointSaver`, which reads a workflow's state by a
-- query. A config is a dict of dicts, of which "configurable" and its "thread_id" are read.
pub mod Laws
use langgraph_temporal.Prelude.{ℕ, String, Option, none, some, List, [], ◌∷◌}
use langgraph_temporal.Prelude.Dict
use langgraph_temporal.Prelude.Dict.{Dict}
use langgraph_temporal.Prelude.Result.{
  Exn, Result, ok, err, ◌>>=◌, key_error, library_error, runtime_error, not_implemented_error,
}
use langgraph_temporal.Value.{Value}
use langgraph_temporal.Config.{StateQueryResult}
use langgraph_temporal.Text.{show}
use langgraph_temporal.Asyncio.{EventLoop, no_loop, running_loop, idle_loop}

-- How a query ends: with a state, an `RPCError` with the status NOT_FOUND, one with another status,
-- or another exception.
pub data Answer : Type 0 where
  state : StateQueryResult → Answer
  not_found : Answer
  rpc_error : String → Answer
  other_error : Exn → Answer

abbrev pub RunnableConfig : Type 0
RunnableConfig = Dict (Dict String)

-- langgraph's `Checkpoint`, `CheckpointMetadata` and `CheckpointTuple`, with the fields that the code
-- gives.
pub record SavedCheckpoint : Type 0 where
  pub v : ℕ
  pub id : String
  pub ts : String
  pub channel_values : Dict Value
  pub channel_versions : Dict Value
  pub versions_seen : Dict Value

pub record CheckpointMetadata : Type 0 where
  pub source : String
  pub step : ℕ

pub record CheckpointTuple : Type 0 where
  pub config : RunnableConfig
  pub checkpoint : SavedCheckpoint
  pub metadata : CheckpointMetadata

-- `config["configurable"]["thread_id"]`
unfoldable pub thread_id : RunnableConfig → Result String
thread_id config = elim (Dict.get config "configurable") [
  | none ↦ err (key_error "configurable")
  | some c ↦ elim (Dict.get c "thread_id") [ none ↦ err (key_error "thread_id") | some t ↦ ok t ]
]

-- `except RuntimeError: return None`; a `NotImplementedError` is a `RuntimeError`.
unfoldable pub none_if_runtime_error :
    Result (Option CheckpointTuple) → Result (Option CheckpointTuple)
none_if_runtime_error (ok t) = ok t
none_if_runtime_error (err (runtime_error m)) = ok none
none_if_runtime_error (err (not_implemented_error m)) = ok none
none_if_runtime_error (err e) = err e

-- What a generator yields that stops at an exception; a tuple is true.
unfoldable pub yields : Result (Option CheckpointTuple) → List CheckpointTuple
yields (ok none) = []
yields (ok (some t)) = t ∷ []
yields (err e) = []

-- `query` answers for a workflow's id, and `now` is the text of the time.
module _ (query : String → Answer) (now : String) where
  unfoldable pub checkpoint_tuple : RunnableConfig → StateQueryResult → CheckpointTuple
  checkpoint_tuple config s = record {
    config = config;
    checkpoint = record {
      v = 4;
      id = show s.step;
      ts = now;
      channel_values = s.channel_values;
      channel_versions = s.channel_versions;
      versions_seen = s.versions_seen;
    };
    metadata = record { source = "loop"; step = s.step };
  }

  unfoldable pub read_answer : RunnableConfig → Answer → Result (Option CheckpointTuple)
  unfolding checkpoint_tuple
  read_answer config (state s) = ok (some (checkpoint_tuple config s))
  read_answer config not_found = ok none
  read_answer config (rpc_error m) = err (library_error m)
  read_answer config (other_error e) = err e

  unfoldable pub aget_tuple : RunnableConfig → Result (Option CheckpointTuple)
  unfolding thread_id read_answer
  aget_tuple config = do t ← thread_id config; read_answer config (query t)

  unfoldable pub get_tuple : EventLoop → RunnableConfig → Result (Option CheckpointTuple)
  unfolding none_if_runtime_error aget_tuple
  get_tuple no_loop config =
      none_if_runtime_error (err (runtime_error "There is no current event loop"))
  get_tuple running_loop config =
      none_if_runtime_error (err (runtime_error "Use aget_tuple in async context"))
  get_tuple idle_loop config = none_if_runtime_error (aget_tuple config)

  unfoldable pub list : EventLoop → Option RunnableConfig → List CheckpointTuple
  unfolding yields get_tuple
  list loop none = []
  list loop (some config) = yields (get_tuple loop config)

  unfoldable pub alist : Option RunnableConfig → List CheckpointTuple
  unfolding yields aget_tuple
  alist none = []
  alist (some config) = yields (aget_tuple config)

-- `put` and `aput`: the server keeps the state, and the config is given back.
unfoldable pub put : RunnableConfig → SavedCheckpoint → CheckpointMetadata → RunnableConfig
put config checkpoint metadata = config

-- ===== src/Checkpoint/Laws.antt =====
-- What a reader of checkpoints gets of a workflow (langgraph/temporal/checkpoint.py and the query
-- `get_current_state`).
use langgraph_temporal.Prelude.{String, ◌≡◌, refl, ap, ◌∙◌, some, List, [], ◌∷◌}
use langgraph_temporal.Prelude.Result.{ok, ◌>>=◌}
use langgraph_temporal.Config.{StateQueryResult}
use langgraph_temporal.Langgraph.{Langgraph}
use langgraph_temporal.Text.{show}
use langgraph_temporal.Workflow.{Workflow, get_channel_values}
use langgraph_temporal.Workflow.Stream.{get_current_state}
use langgraph_temporal.Asyncio.{EventLoop, no_loop, running_loop, idle_loop}
use langgraph_temporal.Checkpoint.{
  Answer, state, RunnableConfig, CheckpointTuple, thread_id, checkpoint_tuple, aget_tuple, list,
  alist, none_if_runtime_error, read_answer, yields,
}

-- What is listed where the event loop runs no code.
abbrev pub if_idle : EventLoop → List CheckpointTuple → List CheckpointTuple
if_idle idle_loop ts = ts
if_idle running_loop ts = []
if_idle no_loop ts = []

aget_tuple-state :
    (query : String → Answer) (now id : String) (config : RunnableConfig) (s : StateQueryResult)
    → thread_id config ≡ ok id
    → query id ≡ state s
    → aget_tuple query now config ≡ ok (some (checkpoint_tuple query now config s))
unfolding aget_tuple
aget_tuple-state query now id config s named answered =
    ap (λ r. r >>= λ t. read_answer query now config (query t)) named
    ∙ ap (read_answer query now config) answered

list-get_tuple :
    (query : String → Answer) (now : String) (loop : EventLoop) (config : RunnableConfig)
    (t : CheckpointTuple)
    → aget_tuple query now config ≡ ok (some t)
    → list query now loop (some config) ≡ if_idle loop (t ∷ [])
unfolding list
list-get_tuple query now idle_loop config t read = ap (λ r. yields (none_if_runtime_error r)) read
list-get_tuple query now running_loop config t read = refl
list-get_tuple query now no_loop config t read = refl

module _ {L : Langgraph} where
  -- For a config that names a workflow which answers its query, `alist` gives one checkpoint: it has
  -- the values of the workflow's channels and the workflow's step, which is also its id, and the given
  -- config. `list` gives the same if there is an event loop that does not run, and otherwise
  -- nothing, without an error.
  pub list-current :
      (query : String → Answer) (now id : String) (loop : EventLoop) (config : RunnableConfig)
      (w : Workflow L)
      → thread_id config ≡ ok id
      → query id ≡ state (get_current_state w)
      → (t : CheckpointTuple) × (alist query now (some config) ≡ t ∷ [])
        × (list query now loop (some config) ≡ if_idle loop (t ∷ []))
        × (t.checkpoint.channel_values ≡ get_channel_values L w.channels)
        × (t.metadata.step ≡ w.step)
        × (t.checkpoint.id ≡ show w.step)
        × (t.config ≡ config)
  unfolding alist get_current_state checkpoint_tuple
  list-current query now id loop config w named answered =
      let t = checkpoint_tuple query now config (get_current_state w) in
      let read = aget_tuple-state query now id config (get_current_state w) named answered in
      (t, ap yields read, list-get_tuple query now loop config t read, refl, refl, refl, refl)

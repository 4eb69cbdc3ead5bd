-- ===== src/Workflow/Stream.antt =====
-- `_emit_stream_events`, and the query handlers `get_stream_buffer` and `get_current_state`.
pub mod Laws
use langgraph_temporal.Prelude.{
  ℕ, String, Option, none, some, List, [], ◌∷◌, ◌++◌, map, if◌then◌else◌, or_default,
}
use langgraph_temporal.Prelude.Lists.{is_nil, length, drop}
use langgraph_temporal.Prelude.Dict
use langgraph_temporal.Prelude.Dict.{Dict}
use langgraph_temporal.Value.{Value, dict, of_dict, entries}
use langgraph_temporal.Config.{NodeActivityOutput, StreamEvent, StreamQueryResult, StateQueryResult}
use langgraph_temporal.Langgraph.{Langgraph}
use langgraph_temporal.Workflow.{Workflow, get_channel_values, status_text}

-- The events of one result: its updates, then its custom data.
unfoldable pub updates_event : ℕ → NodeActivityOutput → List StreamEvent
updates_event step r =
    if is_nil r.writes
    then []
    else record {
      mode = "updates";
      payload = of_dict (Dict.update [] r.writes);
      node_name = some r.node_name;
      step = step;
    }
      ∷ []

unfoldable pub custom_event : ℕ → String → Value → StreamEvent
custom_event step node v = record {
  mode = "custom";
  payload = v;
  node_name = some node;
  step = step;
}

unfoldable pub result_events : ℕ → NodeActivityOutput → List StreamEvent
unfolding updates_event custom_event
result_events step r =
    updates_event step r ++ map (custom_event step r.node_name) (or_default r.custom_data [])

unfoldable pub all_result_events : ℕ → List NodeActivityOutput → List StreamEvent
unfolding result_events
all_result_events step [] = []
all_result_events step (r ∷ rs) = result_events step r ++ all_result_events step rs

module _ {L : Langgraph} where
  unfoldable pub values_event : Workflow L → StreamEvent
  values_event w = record {
    mode = "values";
    payload = of_dict (get_channel_values L w.channels);
    node_name = none;
    step = w.step;
  }

  unfoldable pub emit_stream_events : List NodeActivityOutput → Workflow L → Workflow L
  unfolding all_result_events values_event
  emit_stream_events results w = record w {
    stream_buffer = w.stream_buffer ++ (values_event w ∷ all_result_events w.step results);
  }

  -- A cursor is a position that an earlier query gave out, or 0; so it is not negative.
  unfoldable pub get_stream_buffer : ℕ → Workflow L → StreamQueryResult
  get_stream_buffer cursor w = record {
    events = drop cursor w.stream_buffer;
    next_cursor = length w.stream_buffer;
  }

  -- `dict(self.checkpoint.get(key, {}))`
  unfoldable pub checkpoint_entry : String → Workflow L → Dict Value
  checkpoint_entry key w = elim (Dict.get w.checkpoint key) [
    | none ↦ []
    | some (dict fs) ↦ entries fs
    | some _ ↦ []
  ]

  unfoldable pub get_current_state : Workflow L → StateQueryResult
  unfolding checkpoint_entry
  get_current_state w = record {
    channel_values = get_channel_values L w.channels;
    channel_versions = checkpoint_entry "channel_versions" w;
    versions_seen = checkpoint_entry "versions_seen" w;
    step = w.step;
    status = status_text w.status;
    interrupts = w.interrupts;
  }

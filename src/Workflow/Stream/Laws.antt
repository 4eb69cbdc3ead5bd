-- ===== src/Workflow/Stream/Laws.antt =====
-- `_emit_stream_events` and `get_stream_buffer`, one after the other.
use langgraph_temporal.Prelude.{ℕ, ◌≡◌, refl, List, ◌∷◌}
use langgraph_temporal.Prelude.Lists.{length, drop-append}
use langgraph_temporal.Config.{NodeActivityOutput}
use langgraph_temporal.Langgraph.{Langgraph}
use langgraph_temporal.Workflow.{Workflow}
use langgraph_temporal.Workflow.Stream.{
  emit_stream_events, get_stream_buffer, values_event, all_result_events,
}

module _ {L : Langgraph} where
  -- A query whose cursor came from an earlier query of the same run, with some superstep's events
  -- emitted in between, returns just those events, the "values" event first; the new cursor is the
  -- end of the buffer.
  pub get_stream_buffer-emit :
      (w : Workflow L) (cursor : ℕ) (results : List NodeActivityOutput)
      → let w' = emit_stream_events results w in
        let q = get_stream_buffer (get_stream_buffer cursor w).next_cursor w' in
        (q.events ≡ values_event w ∷ all_result_events w.step results)
        × (q.next_cursor ≡ length w'.stream_buffer)
  unfolding emit_stream_events get_stream_buffer
  get_stream_buffer-emit w cursor results = (drop-append w.stream_buffer _, refl)

-- ===== src/Workflow/Signals.antt =====
-- The signal handlers `resume_signal` and `update_state_signal`. Neither awaits anything, so a
-- handler is one step.
use langgraph_temporal.Prelude.{◌++◌, true, [], ◌∷◌}
use langgraph_temporal.Prelude.Result.{Result, ok, ◌>>=◌}
use langgraph_temporal.Value.{Value}
use langgraph_temporal.Config.{StateUpdatePayload, name}
use langgraph_temporal.Langgraph.{Langgraph, TaskWrites}
use langgraph_temporal.Workflow.{Workflow, increment}

-- The writes of the signal, as one task.
abbrev pub update_task : StateUpdatePayload → TaskWrites
update_task u = record {
  path = name "__update__" ∷ [];
  name = "__update__";
  writes = u.writes;
  triggers = [];
}

module _ {L : Langgraph} where
  unfoldable pub resume_signal : Value → Workflow L → Workflow L
  resume_signal v w = record w { resume_values = w.resume_values ++ (v ∷ []); resume_event = true }

  unfoldable pub update_state_signal : StateUpdatePayload → Workflow L → Result (Workflow L)
  update_state_signal u w =
      L.apply_writes w.checkpoint w.channels (update_task u ∷ []) increment w.trigger_to_nodes
      >>= λ r. ok (record w { checkpoint = r.0; channels = r.1 })

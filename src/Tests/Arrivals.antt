-- ===== src/Tests/Arrivals.antt =====
-- A data converter for the tests.
use langgraph_temporal.Prelude.{none, refl}
use mathlib.Core.Path.{subst}
use langgraph_temporal.Prelude.Result.{Result, ok, ok-injective}
use langgraph_temporal.Config.{WorkflowInput}
use langgraph_temporal.Config.Conveyed.{Conveyed, Conveys}

-- It leaves out the timeouts.
abbrev pub without_timeouts : WorkflowInput → Result WorkflowInput
without_timeouts i = ok (record i { node_activity_options = none })

pub without_timeouts-Conveys : Conveys without_timeouts
without_timeouts-Conveys sent got h = subst (Conveyed sent) (ok-injective h) (record {
  graph_ref = refl;
  limit = refl;
  queues = refl;
  policies = refl;
  sticky = refl;
  affinity = refl;
  subagent = refl;
  fresh = λ e. e;
  restored = λ s e. (s.checkpoint, e);
})

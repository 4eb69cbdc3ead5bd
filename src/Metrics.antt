-- ===== src/Metrics.antt =====
-- langgraph/temporal/metrics.py: `MetricsReporter`. A duration is a number of microseconds, and an
-- average is a sum with the number it is divided by. What goes to the log and to OpenTelemetry is a list
-- of records; whether OpenTelemetry can be imported is an argument.
pub mod Laws
pub mod Measured
use langgraph_temporal.Prelude.{
  ℕ, zero, suc, ◌+◌, ◌-◌, String, Bool, true, false, ◌&&◌, Option, none, some, List, [], ◌∷◌, ◌++◌,
  or_default, if◌then◌else◌, ltb,
}
use langgraph_temporal.Prelude.Lists.{length}
use langgraph_temporal.Prelude.Dict
use langgraph_temporal.Prelude.Dict.{Dict}
use langgraph_temporal.Prelude.Result.{Result}
use langgraph_temporal.Value.{Value, str, num, bool}

-- `node_durations` is a `defaultdict(list)`. `meter` is `_meter` as a test: None is false.
pub record MetricsReporter : Type 0 where
  pub workflow_id : String
  pub node_durations : Dict (List ℕ)
  pub step_count : ℕ
  pub interrupt_count : ℕ
  pub enable_otel : Bool
  pub meter : Bool

-- `logger.info(message, extra=...)` and `logger.warning(message)`
pub data LogRecord : Type 0 where
  info : String → Dict Value → LogRecord
  warning : String → LogRecord

-- What is asked of a meter: `create_histogram` with name, description and unit, `create_counter`, and
-- measurements with their attributes.
pub data Measurement : Type 0 where
  create_histogram : String → String → String → Measurement
  create_counter : String → String → Measurement
  node_duration : ℕ → Dict String → Measurement
  steps_total : ℕ → Dict String → Measurement
  interrupts_total : ℕ → Dict String → Measurement

pub record Sinks : Type 0 where
  pub logged : List LogRecord
  pub measured : List Measurement

abbrev pub Reporting : Type 0
Reporting = MetricsReporter × Sinks

unfoldable pub log : LogRecord → Sinks → Sinks
log r s = record s { logged = s.logged ++ (r ∷ []) }

-- `if self._enable_otel and self._meter: ...`
unfoldable pub emit : MetricsReporter → Measurement → Sinks → Sinks
emit m x s = if m.enable_otel && m.meter then record s { measured = s.measured ++ (x ∷ []) } else s

-- The import fails, or gives a meter, which is true or not as a test.
abbrev pub Otel : Type 0
Otel = Option Bool

unfoldable pub setup_otel : Otel → Reporting → Reporting
unfolding log
setup_otel none (m, s) = (
  record m { enable_otel = false },
  log
      (warning
        "OpenTelemetry not available. Install with: pip install opentelemetry-api opentelemetry-sdk")
      s,
)
setup_otel (some meter) (m, s) = (
  record m { meter = meter },
  record s {
    measured =
        s.measured
        ++ (create_histogram "langgraph.node.duration" "Node execution duration in milliseconds"
              "ms"
            ∷ create_counter "langgraph.steps.total" "Total workflow steps executed"
            ∷ create_counter "langgraph.interrupts.total" "Total interrupts encountered"
            ∷ []);
  },
)

-- `MetricsReporter(workflow_id=..., enable_otel=...)`
unfoldable pub new_reporter : Otel → String → Bool → Sinks → Reporting
unfolding setup_otel
new_reporter otel workflow_id enable_otel s =
    let m : MetricsReporter = record {
      workflow_id = workflow_id;
      node_durations = [];
      step_count = 0;
      interrupt_count = 0;
      enable_otel = enable_otel;
      meter = false;
    } in
    if enable_otel then setup_otel otel (m, s) else (m, s)

-- `str(success)`
abbrev pub bool_text : Bool → String
bool_text b = if b then "True" else "False"

unfoldable pub record_node_execution : String → ℕ → Bool → Reporting → Reporting
unfolding log emit
record_node_execution node duration success (m, s) =
    let m' : MetricsReporter = record m {
      node_durations =
          Dict.put m.node_durations node
            (or_default (Dict.get m.node_durations node) [] ++ (duration ∷ []));
    } in
    (
      m',
      emit m'
          (node_duration duration (
            ("node_name", node)
            ∷ ("workflow_id", m.workflow_id)
            ∷ ("success", bool_text success)
            ∷ []))
          (log
            (info "node_execution" (
              ("workflow_id", str m.workflow_id)
              ∷ ("node_name", str node)
              ∷ ("duration_ms", num duration)
              ∷ ("success", bool success)
              ∷ []))
            s),
    )

unfoldable pub record_step_completion : ℕ → ℕ → Reporting → Reporting
unfolding log emit
record_step_completion step channel_count (m, s) =
    let m' : MetricsReporter = record m { step_count = step } in
    (
      m',
      emit m' (steps_total 1 (("workflow_id", m.workflow_id) ∷ [])) (
          log
            (info "step_completion" (
              ("workflow_id", str m.workflow_id)
              ∷ ("step", num step)
              ∷ ("channel_count", num channel_count)
              ∷ []))
            s),
    )

unfoldable pub record_interrupt : String → String → Reporting → Reporting
unfolding log emit
record_interrupt node interrupt_type (m, s) =
    let m' : MetricsReporter = record m { interrupt_count = m.interrupt_count + 1 } in
    (
      m',
      emit m'
          (interrupts_total 1 (
            ("workflow_id", m.workflow_id)
            ∷ ("node_name", node)
            ∷ ("interrupt_type", interrupt_type)
            ∷ []))
          (log
            (info "interrupt" (
              ("workflow_id", str m.workflow_id)
              ∷ ("node_name", str node)
              ∷ ("interrupt_type", str interrupt_type)
              ∷ []))
            s),
    )

-- The body of the `with` statement gives a result, or raises; the time is that before and after it.
unfoldable pub measure_node :
    {A : Type 0} → String → ℕ → ℕ → Result A → Reporting → Result A × Reporting
unfolding record_node_execution
measure_node node start end_time body r =
    (body, record_node_execution node (end_time - start) true r)

-- `sum`, `max` and `min` of durations.
unfoldable pub total : List ℕ → ℕ
total [] = 0
total (d ∷ ds) = d + total ds

unfoldable pub largest : ℕ → List ℕ → ℕ
largest d [] = d
largest d (e ∷ ds) = if ltb d e then largest e ds else largest d ds

unfoldable pub smallest : ℕ → List ℕ → ℕ
smallest d [] = d
smallest d (e ∷ ds) = if ltb e d then smallest e ds else smallest d ds

-- A quotient.
pub record Ratio : Type 0 where
  pub num : ℕ
  pub den : ℕ

pub record NodeSummary : Type 0 where
  pub count : ℕ
  pub avg_duration : Ratio
  pub max_duration : ℕ
  pub min_duration : ℕ

unfoldable pub node_summary : List ℕ → NodeSummary
unfolding total largest smallest
node_summary [] = record {
  count = 0;
  avg_duration = record { num = 0; den = 1 };
  max_duration = 0;
  min_duration = 0;
}
node_summary (d ∷ ds) = record {
  count = length (d ∷ ds);
  avg_duration = record { num = total (d ∷ ds); den = length (d ∷ ds) };
  max_duration = largest d ds;
  min_duration = smallest d ds;
}

pub record Summary : Type 0 where
  pub workflow_id : String
  pub step_count : ℕ
  pub interrupt_count : ℕ
  pub nodes : Dict NodeSummary

unfoldable pub node_summaries : Dict (List ℕ) → Dict NodeSummary
unfolding node_summary
node_summaries [] = []
node_summaries ((node, ds) ∷ rest) = (node, node_summary ds) ∷ node_summaries rest

unfoldable pub get_summary : MetricsReporter → Summary
unfolding node_summaries
get_summary m = record {
  workflow_id = m.workflow_id;
  step_count = m.step_count;
  interrupt_count = m.interrupt_count;
  nodes = node_summaries m.node_durations;
}

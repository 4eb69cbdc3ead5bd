-- ===== src/Metrics/Measured.antt =====
-- What langgraph/temporal/metrics.py gives to OpenTelemetry, against what it counts itself.
use langgraph_temporal.Prelude.{
  ℕ, suc, ◌+◌, String, ◌==◌, ◌≡◌, refl, ap, sym, ◌∙◌, arith, Bool, true, false, ◌&&◌, none, some,
  List, [], ◌∷◌, ◌++◌, map, append_assoc, append-nil, if◌then◌else◌,
}
use langgraph_temporal.Prelude.Dict
use langgraph_temporal.Prelude.Dict.{Dict}
use langgraph_temporal.Metrics.{
  Otel, Sinks, Reporting, MetricsReporter, Measurement, node_duration, steps_total,
  interrupts_total, emit, log, setup_otel, new_reporter, record_node_execution,
  record_step_completion, record_interrupt, bool_text,
}
use langgraph_temporal.Metrics.Laws.{
  Call, executed, stepped, interrupted, after, durations_of, interrupts_of, recorded,
  recorded-after, interrupts-after,
}

-- The measured durations of a node.
abbrev pub measured_durations : String → List Measurement → List ℕ
measured_durations node [] = []
measured_durations node (node_duration d attributes ∷ ms) =
    let rest = measured_durations node ms in
    elim (Dict.get attributes "node_name") [
      | none ↦ rest
      | some n ↦ if n == node then d ∷ rest else rest
    ]
measured_durations node (_ ∷ ms) = measured_durations node ms

-- What the counters have been increased by.
abbrev pub measured_interrupts : List Measurement → ℕ
measured_interrupts [] = 0
measured_interrupts (interrupts_total n attributes ∷ ms) = n + measured_interrupts ms
measured_interrupts (_ ∷ ms) = measured_interrupts ms

abbrev pub measured_steps : List Measurement → ℕ
measured_steps [] = 0
measured_steps (steps_total n attributes ∷ ms) = n + measured_steps ms
measured_steps (_ ∷ ms) = measured_steps ms

abbrev pub steps_of : List Call → ℕ
steps_of [] = 0
steps_of (executed n d b ∷ calls) = steps_of calls
steps_of (stepped step c ∷ calls) = suc (steps_of calls)
steps_of (interrupted n t ∷ calls) = steps_of calls

-- The last step that was reported, if any.
abbrev pub last_step : ℕ → List Call → ℕ
last_step n [] = n
last_step n (executed node d b ∷ calls) = last_step n calls
last_step n (stepped step c ∷ calls) = last_step step calls
last_step n (interrupted node t ∷ calls) = last_step n calls

step_count-after :
    (calls : List Call) (r : Reporting)
    → (after calls r).0.step_count ≡ last_step r.0.step_count calls
unfolding record_node_execution record_step_completion record_interrupt emit log
step_count-after [] r = refl
step_count-after (executed n d b ∷ calls) r = step_count-after calls (record_node_execution n d b r)
step_count-after (stepped step c ∷ calls) r =
    step_count-after calls (record_step_completion step c r)
step_count-after (interrupted n t ∷ calls) r = step_count-after calls (record_interrupt n t r)

-- The measurement that a call makes.
abbrev measurement : String → Call → Measurement
measurement id (executed n d b) =
    node_duration d (("node_name", n) ∷ ("workflow_id", id) ∷ ("success", bool_text b) ∷ [])
measurement id (stepped step c) = steps_total 1 (("workflow_id", id) ∷ [])
measurement id (interrupted n t) =
    interrupts_total 1 (("workflow_id", id) ∷ ("node_name", n) ∷ ("interrupt_type", t) ∷ [])

abbrev live : MetricsReporter → Bool
live m = m.enable_otel && m.meter

emitted-after :
    (calls : List Call) (b : Bool) (r : Reporting)
    → live r.0 ≡ b
    → (after calls r).1.measured
      ≡ r.1.measured ++ (if b then map (measurement r.0.workflow_id) calls else [])
unfolding record_node_execution record_step_completion record_interrupt emit log
emitted-after [] true r h = sym (append-nil r.1.measured)
emitted-after [] false r h = sym (append-nil r.1.measured)
emitted-after (executed n d b ∷ calls) true r h = ground (
  arith,
  h,
  emitted-after calls true (record_node_execution n d b r) h,
  append_assoc r.1.measured (measurement r.0.workflow_id (executed n d b) ∷ [])
      (map (measurement r.0.workflow_id) calls),
)
emitted-after (executed n d b ∷ calls) false r h =
    ground (arith, h, emitted-after calls false (record_node_execution n d b r) h)
emitted-after (stepped step c ∷ calls) true r h = ground (
  arith,
  h,
  emitted-after calls true (record_step_completion step c r) h,
  append_assoc r.1.measured (measurement r.0.workflow_id (stepped step c) ∷ [])
      (map (measurement r.0.workflow_id) calls),
)
emitted-after (stepped step c ∷ calls) false r h =
    ground (arith, h, emitted-after calls false (record_step_completion step c r) h)
emitted-after (interrupted n t ∷ calls) true r h = ground (
  arith,
  h,
  emitted-after calls true (record_interrupt n t r) h,
  append_assoc r.1.measured (measurement r.0.workflow_id (interrupted n t) ∷ [])
      (map (measurement r.0.workflow_id) calls),
)
emitted-after (interrupted n t ∷ calls) false r h =
    ground (arith, h, emitted-after calls false (record_interrupt n t r) h)

durations-measurements :
    (id node : String) (calls : List Call)
    → measured_durations node (map (measurement id) calls) ≡ durations_of node calls
unfolding Dict.get
durations-measurements id node [] = refl
durations-measurements id node (executed n d b ∷ calls) =
    ground (arith, durations-measurements id node calls)
durations-measurements id node (stepped step c ∷ calls) = durations-measurements id node calls
durations-measurements id node (interrupted n t ∷ calls) = durations-measurements id node calls

interrupts-measurements :
    (id : String) (calls : List Call)
    → measured_interrupts (map (measurement id) calls) ≡ interrupts_of calls
interrupts-measurements id [] = refl
interrupts-measurements id (executed n d b ∷ calls) = interrupts-measurements id calls
interrupts-measurements id (stepped step c ∷ calls) = interrupts-measurements id calls
interrupts-measurements id (interrupted n t ∷ calls) =
    omega (arith, interrupts-measurements id calls)

steps-measurements :
    (id : String) (calls : List Call) → measured_steps (map (measurement id) calls) ≡ steps_of calls
steps-measurements id [] = refl
steps-measurements id (executed n d b ∷ calls) = steps-measurements id calls
steps-measurements id (stepped step c ∷ calls) = omega (arith, steps-measurements id calls)
steps-measurements id (interrupted n t ∷ calls) = steps-measurements id calls

abbrev pub no_records : Sinks
no_records = record { logged = []; measured = [] }

-- OpenTelemetry is in use.
abbrev pub in_use : Otel → Bool → Bool
in_use none on = false
in_use (some meter) on = on && meter

-- From a reporter that has recorded nothing and, but for the creation of instruments, measured nothing.
agrees :
    (node : String) (calls : List Call) (b : Bool) (start : Reporting)
    → live start.0 ≡ b
    → recorded node start ≡ []
    → start.0.interrupt_count ≡ 0
    → ((ms : List Measurement)
        → measured_durations node (start.1.measured ++ ms) ≡ measured_durations node ms)
    → ((ms : List Measurement)
        → measured_interrupts (start.1.measured ++ ms) ≡ measured_interrupts ms)
    → ((ms : List Measurement) → measured_steps (start.1.measured ++ ms) ≡ measured_steps ms)
    → let r = after calls start in
      (measured_durations node r.1.measured ≡ (if b then recorded node r else []))
      × (measured_interrupts r.1.measured ≡ (if b then r.0.interrupt_count else 0))
      × (measured_steps r.1.measured ≡ (if b then steps_of calls else 0))
      × (r.0.step_count ≡ last_step start.0.step_count calls)
agrees node calls true start h none_yet no_interrupts ds is ss =
    let ms = map (measurement start.0.workflow_id) calls in
    let all = emitted-after calls true start h in
    (
      ap (measured_durations node) all
          ∙ ds ms
          ∙ durations-measurements start.0.workflow_id node calls
          ∙ sym
              (recorded-after calls node start ∙ ap (λ ds. ds ++ durations_of node calls) none_yet),
      ap measured_interrupts all
          ∙ is ms
          ∙ interrupts-measurements start.0.workflow_id calls
          ∙ omega (arith, interrupts-after calls start, no_interrupts),
      ap measured_steps all ∙ ss ms ∙ steps-measurements start.0.workflow_id calls,
      step_count-after calls start,
    )
agrees node calls false start h none_yet no_interrupts ds is ss =
    let all = emitted-after calls false start h in
    (
      ap (measured_durations node) all ∙ ds [],
      ap measured_interrupts all ∙ is [],
      ap measured_steps all ∙ ss [],
      step_count-after calls start,
    )

-- After any calls on a new reporter: if OpenTelemetry is enabled, can be imported, and gives a meter that
-- is true as a test, then the measurements of a node's duration are the durations that the
-- reporter has recorded for it, in order, the interrupts counter agrees with the reporter's, and the
-- steps counter is the number of calls that reported a completed step. Otherwise nothing is
-- measured. The reporter's own `step_count` is another number: the last step that was reported, or 0.
pub measured-Agrees :
    (otel : Otel) (id node : String) (on : Bool) (calls : List Call)
    → let r = after calls (new_reporter otel id on no_records) in
      let used = in_use otel on in
      (measured_durations node r.1.measured ≡ (if used then recorded node r else []))
      × (measured_interrupts r.1.measured ≡ (if used then r.0.interrupt_count else 0))
      × (measured_steps r.1.measured ≡ (if used then steps_of calls else 0))
      × (r.0.step_count ≡ last_step 0 calls)
unfolding new_reporter setup_otel log Dict.get
measured-Agrees none id node false calls =
    agrees node calls false (new_reporter none id false no_records) refl refl refl (λ xs. refl)
      (λ xs. refl) (λ xs. refl)
measured-Agrees none id node true calls =
    agrees node calls false (new_reporter none id true no_records) refl refl refl (λ xs. refl)
      (λ xs. refl) (λ xs. refl)
measured-Agrees (some meter) id node false calls =
    agrees node calls false (new_reporter (some meter) id false no_records) refl refl refl
      (λ xs. refl) (λ xs. refl) (λ xs. refl)
measured-Agrees (some meter) id node true calls =
    agrees node calls meter (new_reporter (some meter) id true no_records) refl refl refl
      (λ xs. refl) (λ xs. refl) (λ xs. refl)

-- ===== src/Tests/Libraries.antt =====
-- Serialization and metrics, at concrete inputs.
use mathlib.Core.List.Memᴰ.{head, tail}
use langgraph_temporal.Prelude.{true, false, String, ◌≡◌, refl, some, List, [], ◌∷◌, arith}
use langgraph_temporal.Prelude.Dict
use langgraph_temporal.Prelude.Result.{Result, ok, err, type_error}
use langgraph_temporal.Value.{Value, null, num}
use langgraph_temporal.Codec.{Bytes}
use langgraph_temporal.Serde.{
  Serializer, serialize_state, deserialize_state, serialize_writes, deserialize_writes,
}
use langgraph_temporal.Serde.RoundTrip.{deserialize-serialize}
use langgraph_temporal.Metrics.{
  new_reporter, NodeSummary, get_summary, record_node_execution, record_step_completion,
  record_interrupt,
}
use langgraph_temporal.Metrics.Measured.{
  measured_durations, measured_interrupts, measured_steps, last_step, no_records, measured-Agrees,
}
use langgraph_temporal.Metrics.Laws.{
  executed, stepped, interrupted, Call, after, Describes, get_summary-Describes,
}

-- A serializer of numbers below 256; anything else is null.
abbrev dumps : Value → String × Bytes
dumps (num n) = ("num", n ∷ [])
dumps v = ("null", [])

abbrev loads : Value → Bytes → Result Value
loads tag (n ∷ []) = ok (num n)
loads tag [] = ok null
loads tag bytes = err (type_error "loads")

abbrev serializer : Serializer
serializer = record { dumps_typed = dumps; loads_typed = loads }

deserialize-serialize_example :
    (deserialize_state serializer (serialize_state serializer (("x", num 200) ∷ ("y", null) ∷ []))
      ≡ ok (("x", num 200) ∷ ("y", null) ∷ []))
    × (deserialize_writes serializer
          (serialize_writes serializer (("x", num 200) ∷ ("y", null) ∷ []))
        ≡ ok (("x", num 200) ∷ ("y", null) ∷ []))
deserialize-serialize_example =
    deserialize-serialize serializer (("x", num 200) ∷ ("y", null) ∷ [])
      (((omega arith, tt), refl), ((tt, refl), tt))

abbrev calls : List Call
calls =
    executed "a" 30 true
    ∷ executed "b" 5 false
    ∷ stepped 1 2
    ∷ interrupted "b" "node"
    ∷ executed "a" 10 true
    ∷ []

get_summary-Describes_example :
    let summary = get_summary (after calls (new_reporter (some true) "wf" true no_records)).0 in
    (s : NodeSummary) × (Dict.get summary.nodes "a" ≡ some s)
    × Describes 10 (30 ∷ 10 ∷ []) s
    × (summary.interrupt_count ≡ 1)
get_summary-Describes_example =
    get_summary-Describes (some true) "wf" "a" true no_records calls 10 (tail (head refl))

measured-Agrees_example :
    let r = after calls (new_reporter (some true) "wf" true no_records) in
    (measured_durations "a" r.1.measured ≡ 30 ∷ 10 ∷ [])
    × (measured_interrupts r.1.measured ≡ 1)
    × (measured_steps r.1.measured ≡ 1)
    × (r.0.step_count ≡ last_step 0 calls)
unfolding new_reporter record_node_execution record_step_completion record_interrupt Dict.get
    Dict.put
measured-Agrees_example = measured-Agrees (some true) "wf" "a" true calls

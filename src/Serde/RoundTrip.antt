-- ===== src/Serde/RoundTrip.antt =====
-- States and writes through `StateSerializer` and back.
use langgraph_temporal.Prelude.{String, ◌≡◌, refl, arith, List, [], ◌∷◌}
use langgraph_temporal.Prelude.Dict
use langgraph_temporal.Prelude.Dict.{Dict}
use langgraph_temporal.Prelude.Result.{ok}
use langgraph_temporal.Value.{Value, str}
use langgraph_temporal.Hex.{AreBytes, from_hex-hex}
use langgraph_temporal.Serde.{
  Serializer, serialize_value, deserialize_value, deserialize_fields, data_bytes, serialize_state,
  deserialize_state, serialize_writes, deserialize_writes,
}

module _ (Z : Serializer) where
  -- langgraph's serializer makes bytes of the values, and reads back what it made.
  abbrev pub Loads : List (String × Value) → Type 0
  Loads [] = Unit
  Loads ((k, v) ∷ d) =
      (AreBytes (Z.dumps_typed v).1
        × (Z.loads_typed (str (Z.dumps_typed v).0) (Z.dumps_typed v).1 ≡ ok v))
      × Loads d

  value-back :
      (v : Value)
      → AreBytes (Z.dumps_typed v).1
      → Z.loads_typed (str (Z.dumps_typed v).0) (Z.dumps_typed v).1 ≡ ok v
      → deserialize_value Z (serialize_value Z v) ≡ ok v
  unfolding deserialize_value serialize_value deserialize_fields data_bytes Dict.get
  value-back v bytes loads = ground (arith, from_hex-hex (Z.dumps_typed v).1 bytes, loads)

  -- If langgraph's serializer makes bytes of each value and reads back what it made, then
  -- deserializing what was serialized gives every state, and every list of writes, back.
  pub deserialize-serialize :
      (d : List (String × Value))
      → Loads d
      → (deserialize_state Z (serialize_state Z d) ≡ ok d)
        × (deserialize_writes Z (serialize_writes Z d) ≡ ok d)
  unfolding deserialize_state serialize_state deserialize_writes serialize_writes
  deserialize-serialize [] h = (refl, refl)
  deserialize-serialize ((k, v) ∷ d) ((bytes, loads), h) =
      let here = value-back v bytes loads in
      let rest = deserialize-serialize d h in
      (ground (arith, here, rest.0), ground (arith, here, rest.1))

-- ===== src/Serde.antt =====
-- langgraph/temporal/_serde.py: values are encoded by langgraph's `JsonPlusSerializer`, an argument, and
-- their bytes written as hexadecimal digits.
pub mod RoundTrip
use langgraph_temporal.Prelude.{
  String, Bool, true, false, not, Option, none, some, List, [], ◌∷◌, if◌then◌else◌,
}
use langgraph_temporal.Prelude.Lists.{select}
use langgraph_temporal.Prelude.Dict
use langgraph_temporal.Prelude.Dict.{Dict}
use langgraph_temporal.Prelude.Result.{Result, ok, err, type_error, ◌>>=◌}
use langgraph_temporal.Value.{Value, str, dict, of_dict, entries, truthy}
use langgraph_temporal.Config.{Write}
use langgraph_temporal.Codec.{Bytes}
use langgraph_temporal.Hex.{hex, from_hex}

-- `dumps_typed` and `loads_typed`.
pub record Serializer : Type 0 where
  pub dumps_typed : Value → String × Bytes
  pub loads_typed : Value → Bytes → Result Value

-- `bytes.fromhex(value["data"]) if value["data"] else b""`
unfoldable pub data_bytes : Value → Result Bytes
data_bytes (str s) = from_hex s
data_bytes v = if truthy v then err (type_error "fromhex") else ok []

module _ (Z : Serializer) where
  -- {"type": type_tag, "data": data.hex() if data else ""}; no bytes have no digits.
  unfoldable pub serialize_value : Value → Value
  serialize_value v =
      let (tag, bytes) = Z.dumps_typed v in
      of_dict (("type", str tag) ∷ ("data", str (hex bytes)) ∷ [])

  -- A dict with both keys is decoded; any other value stays as it is.
  unfoldable pub deserialize_fields : Value → Option Value → Option Value → Result Value
  unfolding data_bytes
  deserialize_fields value (some tag) (some v) = data_bytes v >>= λ bytes. Z.loads_typed tag bytes
  deserialize_fields value _ _ = ok value

  unfoldable pub deserialize_value : Value → Result Value
  unfolding deserialize_fields
  deserialize_value (dict fs) =
      deserialize_fields (dict fs) (Dict.get (entries fs) "type") (Dict.get (entries fs) "data")
  deserialize_value v = ok v

  -- The keys of a dict differ, so that `result[key] = ...` adds an entry.
  unfoldable pub serialize_state : Dict Value → Dict Value
  unfolding serialize_value
  serialize_state [] = []
  serialize_state ((k, v) ∷ d) = (k, serialize_value v) ∷ serialize_state d

  unfoldable pub deserialize_state : Dict Value → Result (Dict Value)
  unfolding deserialize_value
  deserialize_state [] = ok []
  deserialize_state ((k, v) ∷ d) =
      deserialize_value v >>= λ v'. deserialize_state d >>= λ d'. ok ((k, v') ∷ d')

  unfoldable pub serialize_writes : List Write → List Write
  unfolding serialize_value
  serialize_writes [] = []
  serialize_writes ((c, v) ∷ ws) = (c, serialize_value v) ∷ serialize_writes ws

  unfoldable pub deserialize_writes : List Write → Result (List Write)
  unfolding deserialize_value
  deserialize_writes [] = ok []
  deserialize_writes ((c, v) ∷ ws) =
      deserialize_value v >>= λ v'. deserialize_writes ws >>= λ ws'. ok ((c, v') ∷ ws')

-- A channel without a spec is tracked. `is_untracked_spec`: whether it is an `UntrackedValue`.
module _ {Spec : Type 0} (is_untracked_spec : Spec → Bool) where
  unfoldable pub is_untracked_channel : String → Dict Spec → Bool
  is_untracked_channel c specs = elim (Dict.get specs c) [
    | none ↦ false
    | some spec ↦ is_untracked_spec spec
  ]

  unfoldable pub filter_untracked_writes : List Write → Dict Spec → List Write
  unfolding is_untracked_channel
  filter_untracked_writes ws specs = select (λ (c, v). not (is_untracked_channel c specs)) ws

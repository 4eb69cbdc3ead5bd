-- ===== src/Registry.antt =====
-- langgraph/temporal/converter.py: the registry of compiled graphs. Each method holds the lock
-- for its whole access to the dict, so a method is one step. The 32 digits of `uuid4().hex` are
-- an argument of `register`.
pub mod Singleton
pub mod Laws
use langgraph_temporal.Prelude.{String, ◌<>◌, none, some, []}
use langgraph_temporal.Prelude.Dict
use langgraph_temporal.Prelude.Dict.{Dict}
use langgraph_temporal.Prelude.Result.{Result, ok, err, key_error}
use langgraph_temporal.Text.{first_chars}

-- `GraphRegistry`: the field `_graphs`.
pub record Registry (G : Type 0) : Type 0 where
  pub graphs : Dict G

-- f"{graph.name}_{uuid.uuid4().hex[:8]}"
unfoldable pub make_ref : String → String → String
make_ref name hex = name <> "_" <> first_chars 8 hex

module _ {G : Type 0} where
  abbrev pub empty_registry : Registry G
  empty_registry = record { graphs = [] }

  unfoldable pub register : String → String → G → Registry G → String × Registry G
  register name hex graph r =
      let ref = make_ref name hex in (ref, record { graphs = Dict.put r.graphs ref graph })

  unfoldable pub lookup : String → Registry G → Result G
  lookup ref r = elim (Dict.get r.graphs ref) [ none ↦ err (key_error ref) | some g ↦ ok g ]

  unfoldable pub unregister : String → Registry G → Registry G
  unregister ref r = record { graphs = Dict.remove r.graphs ref }

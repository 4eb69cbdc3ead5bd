-- ===== src/Activity/Edges.antt =====
-- `evaluate_conditional_edge` of langgraph/temporal/activities.py.
pub mod Names
use langgraph_temporal.Prelude.{String, Option, none, some, List, [], ◌∷◌, ◌++◌, or_default}
use langgraph_temporal.Prelude.Dict
use langgraph_temporal.Prelude.Dict.{Dict}
use langgraph_temporal.Prelude.Result.{Result, ok, ◌>>=◌}
use langgraph_temporal.Value.{Value}
use langgraph_temporal.Config.{ConditionalEdgeInput}
use langgraph_temporal.Registry.{Registry, lookup}

-- What a branch's `path` returns: a node name, a list of names, or something else.
pub data EdgeTarget : Type 0 where
  one_name : String → EdgeTarget
  names : List String → EdgeTarget
  other_target : EdgeTarget

-- A branch: its `path`, if it has one, and its `path_map`, empty if it has none.
pub record Branch : Type 0 where
  pub path : Option (Dict Value → Result EdgeTarget)
  pub path_map : Dict EdgeTarget

-- `str | list[str] | None`
pub data EdgeResult : Type 0 where
  no_target : EdgeResult
  one_target : String → EdgeResult
  more_targets : List String → EdgeResult

-- A name is looked up in the branch's `path_map`.
unfoldable pub map_target : Dict EdgeTarget → EdgeTarget → EdgeTarget
map_target path_map (one_name s) = or_default (Dict.get path_map s) (one_name s)
map_target path_map (names ss) = names ss
map_target path_map other_target = other_target

unfoldable pub target_names : EdgeTarget → List String
target_names (one_name s) = s ∷ []
target_names (names ss) = ss
target_names other_target = []

unfoldable pub branch_targets : Dict Value → Branch → Result (List String)
unfolding map_target target_names
branch_targets state branch = elim branch.path [
  | none ↦ ok []
  | some path_fn ↦ path_fn state >>= λ target. ok (target_names (map_target branch.path_map target))
]

unfoldable pub all_targets : Dict Value → List Branch → Result (List String)
unfolding branch_targets
all_targets state [] = ok []
all_targets state (b ∷ bs) =
    branch_targets state b >>= λ here. all_targets state bs >>= λ more. ok (here ++ more)

unfoldable pub edge_result : List String → EdgeResult
edge_result [] = no_target
edge_result (s ∷ []) = one_target s
edge_result (s ∷ t ∷ ss) = more_targets (s ∷ t ∷ ss)

-- The branches of each source node; a graph without branches has none.
unfoldable pub evaluate_conditional_edge :
    Registry (Dict (Dict Branch)) → ConditionalEdgeInput → Result EdgeResult
unfolding all_targets edge_result
evaluate_conditional_edge r input = lookup input.graph_definition_ref r >>= λ branches.
    elim (Dict.get branches input.source_node) [
      | none ↦ ok no_target
      | some node_branches ↦
          all_targets input.channel_state (Dict.values node_branches) >>= λ results.
          ok (edge_result results)
    ]

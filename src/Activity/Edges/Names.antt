-- ===== src/Activity/Edges/Names.antt =====
-- The names that `evaluate_conditional_edge` gives.
use langgraph_temporal.Prelude.{
  String, ◌++◌, or_default, ◌≡◌, refl, arith, none, some, Option, List, [], ◌∷◌, inl, inr, sym,
}
use langgraph_temporal.Prelude.Dict
use langgraph_temporal.Prelude.Dict.{Dict}
use langgraph_temporal.Prelude.Result
use langgraph_temporal.Prelude.Result.{Result-cases, Exn, Result, ok, >>=-eq-ok, ok-injective}
use langgraph_temporal.Value.{Value}
use mathlib.Core.Path.{subst}
use langgraph_temporal.Config.{ConditionalEdgeInput}
use langgraph_temporal.Registry.{Registry, lookup}
use langgraph_temporal.Activity.Edges.{
  Branch, EdgeTarget, one_name, names, other_target, target_names, map_target, branch_targets,
  EdgeResult, no_target, one_target, more_targets, edge_result, all_targets,
  evaluate_conditional_edge,
}

-- The names in a result.
abbrev pub result_names : EdgeResult → List String
result_names no_target = []
result_names (one_target s) = s ∷ []
result_names (more_targets ss) = ss

edge_result-names : (ss : List String) → result_names (edge_result ss) ≡ ss
unfolding edge_result
edge_result-names [] = refl
edge_result-names (s ∷ []) = refl
edge_result-names (s ∷ t ∷ ss) = refl

-- What a map that has this for a name makes of the name.
abbrev pub MapsTo : String → Option EdgeTarget → List String → Type 0
MapsTo s none ss = ss ≡ s ∷ []
MapsTo s (some (one_name t)) ss = ss ≡ t ∷ []
MapsTo s (some (names ts)) ss = ss ≡ ts
MapsTo s (some other_target) ss = ss ≡ []

-- The names that a target stands for where a branch has this map: a name that the map has is
-- replaced by what the map gives for it.
abbrev pub MeansNames : Dict EdgeTarget → EdgeTarget → List String → Type 0
MeansNames path_map (one_name s) ss = MapsTo s (Dict.get path_map s) ss
MeansNames path_map (names ts) ss = ss ≡ ts
MeansNames path_map other_target ss = ss ≡ []

abbrev pub PathNames :
    Dict Value → Option (Dict Value → Result EdgeTarget) → Dict EdgeTarget → List String → Type 0
PathNames state none path_map ss = ss ≡ []
PathNames state (some path) path_map ss =
    (t : EdgeTarget) × (path state ≡ ok t) × MeansNames path_map t ss

-- The names of a branch in a state, and those of several branches, one after the other.
abbrev pub BranchNames : Dict Value → Branch → List String → Type 0
BranchNames state branch ss = PathNames state branch.path branch.path_map ss

pub data AllNames (state : Dict Value) : List Branch → List String → Type 0 where
  no_branch : AllNames state [] []
  next_branch :
      {b : Branch} {bs : List Branch} (here later : List String)
      → BranchNames state b here
      → AllNames state bs later
      → AllNames state (b ∷ bs) (here ++ later)

maps-target_names :
    (s : String) (found : Option EdgeTarget)
    → MapsTo s found (target_names (or_default found (one_name s)))
unfolding target_names
maps-target_names s none = refl
maps-target_names s (some (one_name t)) = refl
maps-target_names s (some (names ts)) = refl
maps-target_names s (some other_target) = refl

means-target_names :
    (path_map : Dict EdgeTarget) (t : EdgeTarget)
    → MeansNames path_map t (target_names (map_target path_map t))
unfolding target_names map_target
means-target_names path_map (one_name s) = maps-target_names s (Dict.get path_map s)
means-target_names path_map (names ts) = refl
means-target_names path_map other_target = refl

path-names :
    (state : Dict Value) (path : Option (Dict Value → Result EdgeTarget))
    (path_map : Dict EdgeTarget) (ss : List String)
    → (elim path [
      | none ↦ ok []
      | some path_fn ↦
          Result.◌>>=◌ (path_fn state) λ target. ok (target_names (map_target path_map target))
    ])
      ≡ ok ss
    → PathNames state path path_map ss
path-names state none path_map ss h = sym (ok-injective h)
path-names state (some f) path_map ss h =
    let (t, e1, e2) = >>=-eq-ok (f state) (λ t. ok (target_names (map_target path_map t))) h in
    (t, e1, subst (MeansNames path_map t) (ok-injective e2) (means-target_names path_map t))

branch_targets-BranchNames :
    (state : Dict Value) (b : Branch) (ss : List String)
    → branch_targets state b ≡ ok ss
    → BranchNames state b ss
unfolding branch_targets
branch_targets-BranchNames state b ss h = path-names state b.path b.path_map ss h

all_targets-AllNames :
    (state : Dict Value) (bs : List Branch) (ss : List String)
    → all_targets state bs ≡ ok ss
    → AllNames state bs ss
unfolding all_targets
all_targets-AllNames state [] ss h = subst (AllNames state []) (ok-injective h) no_branch
all_targets-AllNames state (b ∷ bs) ss h =
    let (here, e1, e2) =
      >>=-eq-ok (branch_targets state b)
        (λ here. Result.◌>>=◌ (all_targets state bs) λ more. ok (here ++ more)) h in
    let (more, e3, e4) = >>=-eq-ok (all_targets state bs) (λ more. ok (here ++ more)) e2 in
    subst (AllNames state (b ∷ bs)) (ok-injective e4) (
      next_branch here more (branch_targets-BranchNames state b here e1)
        (all_targets-AllNames state bs more e3))

-- If the edges of a source node are evaluated, the result names the targets of all its branches, in
-- order, however many there are: of each branch with a path what this path gives in the state, a
-- single name replaced by what the branch's map has for it, if anything.
pub evaluate_conditional_edge-names :
    (r : Registry (Dict (Dict Branch))) (input : ConditionalEdgeInput)
    (branches : Dict (Dict Branch)) (node_branches : Dict Branch) (result : EdgeResult)
    → lookup input.graph_definition_ref r ≡ ok branches
    → Dict.get branches input.source_node ≡ some node_branches
    → evaluate_conditional_edge r input ≡ ok result
    → AllNames input.channel_state (Dict.values node_branches) (result_names result)
unfolding evaluate_conditional_edge
evaluate_conditional_edge-names r input branches node_branches result found known h =
    elim (Result-cases (all_targets input.channel_state (Dict.values node_branches))) [
      | inl (ss, e) ↦
          let same : ss ≡ result_names result =
            ground (arith, found, known, h, e, edge_result-names ss) in
          subst (AllNames input.channel_state (Dict.values node_branches)) same
            (all_targets-AllNames input.channel_state (Dict.values node_branches) ss e)
      | inr (x, e) ↦ absurd (ground (arith, found, known, h, e))
    ]

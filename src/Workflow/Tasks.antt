-- ===== src/Workflow/Tasks.antt =====
-- `sorted(tasks, key=lambda t: t.path)`. Parts of two paths at one place are both texts or both
-- numbers (langgraph's paths begin with the kind of the task), so that Python can compare them.
pub mod Laws
use Prim.Native.Nat.{compare as compare_ℕ, Ordering}
use Prim.Native.String.{compare}
use langgraph_temporal.Prelude.{String, Bool, true, false, List, [], ◌∷◌, if◌then◌else◌}
use langgraph_temporal.Config.{PathPart, name, index}
use langgraph_temporal.Langgraph.{PregelTask}

unfoldable pub compare_parts : PathPart → PathPart → Ordering
compare_parts (name s) (name t) = compare s t
compare_parts (index i) (index j) = compare_ℕ i j
compare_parts (name s) (index j) = Ordering.lt
compare_parts (index i) (name t) = Ordering.gt

-- `p < q` on tuples.
unfoldable pub path_lt : List PathPart → List PathPart → Bool
unfolding compare_parts
path_lt p [] = false
path_lt [] (y ∷ q) = true
path_lt (x ∷ p) (y ∷ q) =
    let rest = path_lt p q in
    elim (compare_parts x y) [ Ordering.lt ↦ true | Ordering.gt ↦ false | Ordering.eq ↦ rest ]

unfoldable pub insert_task : PregelTask → List PregelTask → List PregelTask
insert_task t [] = t ∷ []
insert_task t (u ∷ us) =
    let rest = insert_task t us in if path_lt u.path t.path then u ∷ rest else t ∷ u ∷ us

-- Stable, as Python's sort is.
unfoldable pub sorted_tasks : List PregelTask → List PregelTask
unfolding insert_task path_lt
sorted_tasks [] = []
sorted_tasks (t ∷ ts) = insert_task t (sorted_tasks ts)

-- ===== src/Workflow/Tasks/Laws.antt =====
-- `sorted(tasks, key=lambda t: t.path)` in `_execute_nodes`.
use Prim.Native.Nat.{compare as compare_ℕ, Ordering}
use Prim.Native.Char.{code}
use Prim.Native.String.{compare, then as then_compare}
use Prim.Native.String.compare
use mathlib.Core.List.Permᴰ
use mathlib.Core.List.{Permᴰ}
use langgraph_temporal.Prelude.{
  ◌≡◌, refl, sym, ap, ◌∙◌, ℕ, String, true, false, arith, List, [], ◌∷◌, Bool, if◌then◌else◌,
}
use langgraph_temporal.Config.{PathPart, name, index}
use langgraph_temporal.Langgraph.{PregelTask}
use langgraph_temporal.Workflow.Tasks.{sorted_tasks, insert_task, path_lt, compare_parts}

abbrev flip : Ordering → Ordering
flip Ordering.lt = Ordering.gt
flip Ordering.eq = Ordering.eq
flip Ordering.gt = Ordering.lt

compare_ℕ-flip : (m n : ℕ) → compare_ℕ n m ≡ flip (compare_ℕ m n)
compare_ℕ-flip m n = ground arith

abbrev then_flip : (o p : Ordering) → then_compare (flip o) (flip p) ≡ flip (then_compare o p)
then_flip Ordering.lt p = refl
then_flip Ordering.eq p = refl
then_flip Ordering.gt p = refl

compare-flip : (s t : String) → compare t s ≡ flip (compare s t)
compare-flip String.[] String.[] = refl
compare-flip String.[] (String.◌∷◌ d t) =
    compare.cons-nil d t ∙ sym (ap flip (compare.nil-cons d t))
compare-flip (String.◌∷◌ c s) String.[] =
    compare.nil-cons c s ∙ sym (ap flip (compare.cons-nil c s))
compare-flip (String.◌∷◌ c s) (String.◌∷◌ d t) =
    compare.cons-cons d c t s
    ∙ ap (λ o. then_compare o (compare t s)) (compare_ℕ-flip (code c) (code d))
    ∙ ap (then_compare (flip (compare_ℕ (code c) (code d)))) (compare-flip s t)
    ∙ then_flip (compare_ℕ (code c) (code d)) (compare s t)
    ∙ sym (ap flip (compare.cons-cons c d s t))

compare_parts-flip : (x y : PathPart) → compare_parts y x ≡ flip (compare_parts x y)
unfolding compare_parts
compare_parts-flip (name s) (name t) = compare-flip s t
compare_parts-flip (name s) (index j) = refl
compare_parts-flip (index i) (name t) = refl
compare_parts-flip (index i) (index j) = compare_ℕ-flip i j

path_lt-asym : (p q : List PathPart) → path_lt p q ≡ true → path_lt q p ≡ false
unfolding path_lt
path_lt-asym [] [] h = ground arith
path_lt-asym [] (y ∷ q) h = refl
path_lt-asym (x ∷ p) [] h = ground arith
path_lt-asym (x ∷ p) (y ∷ q) h = ground (arith, compare_parts-flip x y, path_lt-asym p q)

-- No task comes before one with a smaller path.
abbrev pub IsSorted : List PregelTask → Type 0
IsSorted [] = Unit
IsSorted (t ∷ []) = Unit
IsSorted (t ∷ u ∷ us) = (path_lt u.path t.path ≡ false) × IsSorted (u ∷ us)

if-perm :
    (b : Bool) {xs ys zs : List PregelTask}
    → Permᴰ xs zs
    → Permᴰ ys zs
    → Permᴰ (if b then xs else ys) zs
if-perm true p q = p
if-perm false p q = q

module _ (t : PregelTask) where
  insert_task-perm : (us : List PregelTask) → Permᴰ (insert_task t us) (t ∷ us)
  unfolding insert_task
  insert_task-perm [] = Permᴰ.refl _
  insert_task-perm (u ∷ us) =
      if-perm (path_lt u.path t.path)
        (Permᴰ.trans (Permᴰ.cons refl (insert_task-perm us)) (Permᴰ.swap refl refl)) (Permᴰ.refl _)

  insert_task-IsSorted : (us : List PregelTask) → IsSorted us → IsSorted (insert_task t us)
  unfolding insert_task
  insert_task-IsSorted [] h = tt
  insert_task-IsSorted (u ∷ []) h = ground (arith, path_lt-asym u.path t.path)
  insert_task-IsSorted (u ∷ v ∷ us) h = ground (
    arith,
    path_lt-asym u.path t.path,
    path_lt-asym v.path t.path,
    insert_task-IsSorted (v ∷ us) h.1,
  )

-- In the sorted list no task comes before one with a smaller path, and each task is there once.
pub sorted_tasks-IsSorted :
    (ts : List PregelTask) → IsSorted (sorted_tasks ts) × Permᴰ (sorted_tasks ts) ts
unfolding sorted_tasks
sorted_tasks-IsSorted [] = (tt, Permᴰ.nil)
sorted_tasks-IsSorted (t ∷ ts) =
    let (sorted, perm) = sorted_tasks-IsSorted ts in
    (
      insert_task-IsSorted t (sorted_tasks ts) sorted,
      Permᴰ.trans (insert_task-perm t (sorted_tasks ts)) (Permᴰ.cons refl perm),
    )

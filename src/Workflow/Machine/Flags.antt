-- ===== src/Workflow/Machine/Flags.antt =====
-- Which coroutines of a `gather` wait.
use langgraph_temporal.Prelude.{ℕ, zero, suc, List, [], ◌∷◌, Bool, true, false, ◌≡◌, refl}
use langgraph_temporal.Coroutine.{Slot, returned, failed, parked}

-- `flags` with the i-th set to false, and n times true.
abbrev pub cleared : ℕ → List Bool → List Bool
cleared i [] = []
cleared zero (b ∷ flags) = false ∷ flags
cleared (suc i) (b ∷ flags) = b ∷ cleared i flags

abbrev pub all_true : {A : Type 0} → List A → List Bool
all_true [] = []
all_true (a ∷ results) = true ∷ all_true results

-- Which slots wait.
abbrev pub waiting : {S A : Type 0} → List (Slot S A) → List Bool
waiting [] = []
waiting (returned a ∷ xs) = false ∷ waiting xs
waiting (failed e ∷ xs) = false ∷ waiting xs
waiting (parked q k ∷ xs) = true ∷ waiting xs

pub cleared_first :
    {S A : Type 0} (x : Slot S A) (xs : List (Slot S A))
    → false ∷ waiting xs ≡ cleared 0 (waiting (x ∷ xs))
cleared_first (returned a) xs = refl
cleared_first (failed e) xs = refl
cleared_first (parked q k) xs = refl

-- ===== src/Worker/Group/Laws.antt =====
-- The order in which a `WorkerGroup` enters and exits its workers.
use langgraph_temporal.Prelude.{List, [], ◌∷◌, ◌++◌, map, ◌≡◌, refl, arith}
use mathlib.Core.List.{reverse}
use langgraph_temporal.Prelude.Result.{Exn, Result, ok, err}
use langgraph_temporal.Worker.Group.{entered, exited, aenter, exit_all, aexit, async_with}

module _ {W : Type 0} (enter : W → Result (Unit {0})) (exit : W → Result (Unit {0})) where
  aenter-stops :
      (ws rest : List W) (w : W) (e : Exn)
      → (aenter enter exit ws).0 ≡ ok tt
      → enter w ≡ err e
      → aenter enter exit (ws ++ (w ∷ rest)) ≡ (err e, map entered ws)
  unfolding aenter
  aenter-stops [] rest w e h k = ground (arith, k)
  aenter-stops (v ∷ ws) rest w e h k = ground (arith, h, aenter-stops ws rest w e)

  aenter-actions :
      (ws : List W) → (aenter enter exit ws).0 ≡ ok tt → (aenter enter exit ws).1 ≡ map entered ws
  unfolding aenter
  aenter-actions [] h = refl
  aenter-actions (w ∷ ws) h = ground (arith, h, aenter-actions ws)

  exit_all-actions :
      (ws : List W)
      → (exit_all enter exit ws).0 ≡ ok tt
      → (exit_all enter exit ws).1 ≡ map exited ws
  unfolding exit_all
  exit_all-actions [] h = refl
  exit_all-actions (w ∷ ws) h = ground (arith, h, exit_all-actions ws)

  -- If no entry and no exit raises, all workers are entered in order, and exited in the reverse order
  -- after the body, whether the body returns or raises; the body's end is that of the whole.
  pub async_with-order {ℓ} :
      {A : Type ℓ} (ws : List W) (body : Result A)
      → (aenter enter exit ws).0 ≡ ok tt
      → (aexit enter exit ws).0 ≡ ok tt
      → async_with enter exit ws body ≡ (body, map entered ws ++ map exited (reverse ws))
  unfolding async_with aexit
  async_with-order ws body h k =
      ground (arith, h, k, aenter-actions ws h, exit_all-actions (reverse ws) k)

  -- If a worker's entry raises, the workers before it, which were entered, are not exited, and those
  -- after it are not entered.
  pub async_with-leak {ℓ} :
      {A : Type ℓ} (ws rest : List W) (w : W) (body : Result A) (e : Exn)
      → (aenter enter exit ws).0 ≡ ok tt
      → enter w ≡ err e
      → async_with enter exit (ws ++ (w ∷ rest)) body ≡ (err e, map entered ws)
  unfolding async_with
  async_with-leak ws rest w body e h k = ground (arith, h, k, aenter-stops ws rest w e h k)

-- ===== src/Worker/Group.antt =====
-- langgraph/temporal/worker.py: `WorkerGroup`, the workers of a graph as one context manager.
pub mod Laws
use langgraph_temporal.Prelude.{List, [], ◌∷◌, ◌++◌}
use mathlib.Core.List.{reverse}
use langgraph_temporal.Prelude.Result.{Result, ok, err}
use langgraph_temporal.Coroutine.{Slot}
use langgraph_temporal.Workflow.Machine.{Collected, collect_all}

-- What has been done: a worker was entered, or exited.
pub data Action (W : Type 0) : Type 0 where
  entered : W → Action W
  exited : W → Action W

-- The workers' own `__aenter__` and `__aexit__` are arguments; each may raise.
module _ {W : Type 0} (enter : W → Result (Unit {0})) (exit : W → Result (Unit {0})) where
  -- The `for` loops: how they end, and what was done.
  unfoldable pub aenter : List W → Result (Unit {0}) × List (Action W)
  aenter [] = (ok tt, [])
  aenter (w ∷ ws) =
      let (result, actions) = aenter ws in
      elim (enter w) [ err e ↦ (err e, []) | ok _ ↦ (result, entered w ∷ actions) ]

  unfoldable pub exit_all : List W → Result (Unit {0}) × List (Action W)
  exit_all [] = (ok tt, [])
  exit_all (w ∷ ws) =
      let (result, actions) = exit_all ws in
      elim (exit w) [ err e ↦ (err e, []) | ok _ ↦ (result, exited w ∷ actions) ]

  unfoldable pub aexit : List W → Result (Unit {0}) × List (Action W)
  unfolding exit_all
  aexit workers = exit_all (reverse workers)

  -- `async with group:` and a body that returns or raises; `__aexit__` returns nothing, so the
  -- body's exception goes on, unless another one is raised.
  unfoldable pub async_with {ℓ} : {A : Type ℓ} → List W → Result A → Result A × List (Action W)
  unfolding aenter aexit
  async_with workers body =
      let (entry, before) = aenter workers in
      let (leave, after) = aexit workers in
      elim entry [
        | err e ↦ (err e, before)
        | ok _ ↦ elim leave [ err e ↦ (err e, before ++ after) | ok _ ↦ (body, before ++ after) ]
      ]

-- `run`: the workers' own `run` coroutines, gathered.
unfoldable pub run_group : {S : Type 0} → List (Slot S (Unit {0})) → Collected (List (Unit {0}))
run_group workers = collect_all workers

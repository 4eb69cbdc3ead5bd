-- ===== src/Asyncio.antt =====
-- What langgraph/temporal/graph.py and checkpoint.py use of asyncio outside a workflow.
use langgraph_temporal.Prelude.Result.{Result, ok, err, runtime_error}

-- `asyncio.get_event_loop()`: it raises `RuntimeError`, or gives a loop, which runs or does not.
pub data EventLoop : Type 0 where
  no_loop running_loop idle_loop : EventLoop

-- `asyncio.get_event_loop().run_until_complete(...)`, with what the coroutine comes to.
unfoldable pub run_until_complete {ℓ} : {A : Type ℓ} → EventLoop → A → Result A
run_until_complete no_loop a = err (runtime_error "There is no current event loop")
run_until_complete running_loop a = err (runtime_error "This event loop is already running")
run_until_complete idle_loop a = ok a

-- ===== src/Coroutine.antt =====
-- Coroutines: what an `async` method does between two waits. A coroutine reads and changes the
-- shared state, and waits for the reply to one request to the Temporal server at a time. Other
-- code runs only while it waits.
pub mod Laws
use langgraph_temporal.Prelude.{String, Option, none, some, List, [], ◌∷◌, ℕ, zero, suc}
use langgraph_temporal.Prelude.Result.{Exn}
use langgraph_temporal.Config.{ConditionalEdgeInput, NodeActivityOutput, WorkflowOutput}
use langgraph_temporal.Workflow.Routing.{ActivityCall, ChildCall}

-- `execute_activity` of a node, of `get_available_task_queue` (with its timeout),
-- `execute_child_workflow`, and `execute_local_activity` of a conditional edge (with its timeout).
pub data Request : Type 0 where
  run_activity : ActivityCall → Request
  run_discovery : ℕ → Request
  run_child : ChildCall → Request
  run_edge : ConditionalEdgeInput → ℕ → Request

-- How a request ends: with a result of the asked type, or with an `ActivityError` or a
-- `ChildWorkflowError`.
pub data Reply : Type 0 where
  node_output : NodeActivityOutput → Reply
  queue_name : String → Reply
  child_output : WorkflowOutput → Reply
  activity_failed : String → Reply
  child_failed : String → Reply
  edge_targets : List String → Reply

pub data Co (S A : Type 0) : Type 0 where
  done : A → Co S A
  raise : Exn → Co S A
  gets : (S → Co S A) → Co S A
  modify : (S → S) → Co S A → Co S A
  await : Request → (Reply → Co S A) → Co S A

infixl 10 ◌>>=◌ ◌>>◌
unfoldable pub ◌>>=◌ : {S A B : Type 0} → Co S A → (A → Co S B) → Co S B
done a >>= f = f a
raise e >>= f = raise e
gets k >>= f = gets (λ s. k s >>= f)
modify g c >>= f = modify g (c >>= f)
await r k >>= f = await r (λ reply. k reply >>= f)

abbrev pub ◌>>◌ : {S A B : Type 0} → Co S A → Co S B → Co S B
c >> d = c >>= λ _. d

-- A coroutine that has run as far as it can: returned, raised, or waiting.
pub data Slot (S A : Type 0) : Type 0 where
  returned : A → Slot S A
  failed : Exn → Slot S A
  parked : Request → (Reply → Co S A) → Slot S A

module _ {S A : Type 0} where
  -- Runs a coroutine up to its next wait.
  unfoldable pub advance : Co S A → S → Slot S A × S
  advance (done a) s = (returned a, s)
  advance (raise e) s = (failed e, s)
  advance (gets k) s = advance (k s) s
  advance (modify g c) s = advance c (g s)
  advance (await r k) s = (parked r k, s)

  -- The request that a coroutine has sent and waits for.
  abbrev pub request_of : Slot S A → List Request
  request_of (returned a) = []
  request_of (failed e) = []
  request_of (parked r k) = r ∷ []

  -- A run of one coroutine with nothing else running: each request takes the next reply. It ends
  -- early, still waiting, if the replies run out.
  unfoldable pub solo : Co S A → S → List Reply → Slot S A × S
  solo (done a) s rs = (returned a, s)
  solo (raise e) s rs = (failed e, s)
  solo (gets k) s rs = solo (k s) s rs
  solo (modify g c) s rs = solo c (g s) rs
  solo (await r k) s [] = (parked r k, s)
  solo (await r k) s (reply ∷ rs) = solo (k reply) s rs

  -- The requests of that run, in order.
  unfoldable pub requests : Co S A → S → List Reply → List Request
  requests (done a) s rs = []
  requests (raise e) s rs = []
  requests (gets k) s rs = requests (k s) s rs
  requests (modify g c) s rs = requests c (g s) rs
  requests (await r k) s [] = r ∷ []
  requests (await r k) s (reply ∷ rs) = r ∷ requests (k reply) s rs

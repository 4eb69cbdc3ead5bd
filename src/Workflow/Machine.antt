-- ===== src/Workflow/Machine.antt =====
-- The event loop under `run`. A schedule lists, in the order in which they reach the workflow, the
-- completions of its requests, the signals, and the moments at which wait conditions are looked
-- at; a code segment between two waits is one step. All interleavings are schedules.
pub mod Keeps
pub mod Rules
pub mod Triple
pub mod Promises
pub mod Liveness
pub mod Quiet
pub mod Flags
pub mod Runs
pub mod Served
pub mod Awaits
pub mod Gather
pub mod Raises
pub mod Broken
use langgraph_temporal.Prelude.{ℕ, zero, suc, List, [], ◌∷◌, ◌++◌, true, false, if◌then◌else◌}
use langgraph_temporal.Prelude.Result.{Exn, Result, ok, err}
use langgraph_temporal.Value.{Value}
use langgraph_temporal.Config.{StateUpdatePayload, WorkflowInput}
use langgraph_temporal.Langgraph.{Langgraph}
use langgraph_temporal.Coroutine.{
  Co, Slot, Request, Reply, returned, failed, parked, advance, request_of,
}
use langgraph_temporal.Workflow.{Workflow, running}
use langgraph_temporal.Workflow.Signals.{resume_signal, update_state_signal}

-- `complete i r`: the request of the i-th coroutine that is being awaited ends with the reply r.
pub data Event : Type 0 where
  complete : ℕ → Reply → Event
  resume : Value → Event
  update : StateUpdatePayload → Event
  wake : Event

-- How a piece of the workflow's main coroutine ends. `blocked`: the schedule ended first.
-- `exhausted`: the fuel of the main loop ran out.
pub data Outcome {ℓ} (A : Type ℓ) : Type ℓ where
  ended : A → Outcome A
  raised : Exn → Outcome A
  continued : WorkflowInput → Outcome A
  blocked : Outcome A
  exhausted : Outcome A

pub record Machine (L : Langgraph) : Type 0 where
  pub self : Workflow L
  pub schedule : List Event
  pub issued : List Request

module _ {S A : Type 0} where
  -- Starts the coroutines in order, each up to its first wait.
  unfoldable pub start_all : List (Co S A) → S → List (Slot S A) × S × List Request
  start_all [] s = ([], s, [])
  start_all (c ∷ cs) s =
      let (slot, s1) = advance c s in
      let (slots, s2, rs) = start_all cs s1 in (slot ∷ slots, s2, request_of slot ++ rs)

  -- A reply wakes a coroutine that waits; it then runs up to its next wait.
  unfoldable pub resume_slot : Slot S A → Reply → S → Slot S A × S × List Request
  resume_slot (parked q k) r s = let (slot, s') = advance (k r) s in (slot, s', request_of slot)
  resume_slot slot r s = (slot, s, [])

  unfoldable pub deliver : ℕ → Reply → List (Slot S A) → S → List (Slot S A) × S × List Request
  unfolding resume_slot
  deliver i r [] s = ([], s, [])
  deliver zero r (slot ∷ rest) s =
      let (slot', s', rs) = resume_slot slot r s in (slot' ∷ rest, s', rs)
  deliver (suc i) r (slot ∷ rest) s =
      let (rest', s', rs) = deliver i r rest s in (slot ∷ rest', s', rs)

-- What is known of a group of coroutines: its result, an exception to raise, or neither yet.
pub data Collected (B : Type 0) : Type 0 where
  ready : B → Collected B
  failure : Exn → Collected B
  unsettled : Collected B

module _ {A : Type 0} where
  abbrev add_result : A → Collected (List A) → Collected (List A)
  add_result a (ready rest) = ready (a ∷ rest)
  add_result a (failure e) = failure e
  add_result a unsettled = unsettled

  abbrev add_waiting : Collected (List A) → Collected (List A)
  add_waiting (failure e) = failure e
  add_waiting _ = unsettled

  abbrev add_settled : Result A → Collected (List (Result A)) → Collected (List (Result A))
  add_settled a (ready rest) = ready (a ∷ rest)
  add_settled a (failure e) = failure e
  add_settled a unsettled = unsettled

module _ {S A : Type 0} where
  -- `asyncio.gather(*coroutines)`: the results in the order of the coroutines, or the exception
  -- of the first that fails.
  unfoldable pub collect_all : List (Slot S A) → Collected (List A)
  collect_all [] = ready []
  collect_all (returned a ∷ slots) = add_result a (collect_all slots)
  collect_all (failed e ∷ slots) = failure e
  collect_all (parked q k ∷ slots) = add_waiting (collect_all slots)

  -- `asyncio.gather(*coroutines, return_exceptions=True)`
  unfoldable pub collect_settled : List (Slot S A) → Collected (List (Result A))
  collect_settled [] = ready []
  collect_settled (returned a ∷ slots) = add_settled (ok a) (collect_settled slots)
  collect_settled (failed e ∷ slots) = add_settled (err e) (collect_settled slots)
  collect_settled (parked q k ∷ slots) = unsettled

  -- `await coroutine`
  unfoldable pub collect_one : List (Slot S A) → Collected A
  collect_one (returned a ∷ slots) = ready a
  collect_one (failed e ∷ slots) = failure e
  collect_one _ = unsettled

abbrev pub M {ℓ} : Langgraph → Type ℓ → Type ℓ
M L A = Machine L → Outcome A × Machine L

module _ {L : Langgraph} where
  -- Waits for a group of coroutines. A signal that arrives meanwhile is handled at once.
  unfoldable pub join_loop :
      {A B : Type 0}
      → (List (Slot (Workflow L) A) → Collected B)
      → List Event
      → List (Slot (Workflow L) A)
      → Workflow L
      → List Request
      → Outcome B × Machine L
  unfolding deliver resume_signal update_state_signal
  join_loop collect [] slots w issued =
      let m : Machine L = record { self = w; schedule = []; issued = issued } in
      elim (collect slots) [
        | ready b ↦ (ended b, m)
        | failure e ↦ (raised e, m)
        | unsettled ↦ (blocked, m)
      ]
  join_loop collect (event ∷ events) slots w issued =
      let m : Machine L = record { self = w; schedule = event ∷ events; issued = issued } in
      elim (collect slots) [
        | ready b ↦ (ended b, m)
        | failure e ↦ (raised e, m)
        | unsettled ↦ elim event [
          | complete i r ↦
              let (slots', w', rs) = deliver i r slots w in
              join_loop collect events slots' w' (issued ++ rs)
          | resume v ↦ join_loop collect events slots (resume_signal v w) issued
          | update u ↦ elim (update_state_signal u w) [
            | ok w' ↦ join_loop collect events slots w' issued
            | err e ↦ (raised e, record { self = w; schedule = events; issued = issued })
          ]
          | wake ↦ join_loop collect events slots w issued
        ]
      ]

  unfoldable pub join :
      {A B : Type 0} → (List (Slot (Workflow L) A) → Collected B) → List (Co (Workflow L) A) → M L B
  unfolding start_all
  join collect cs m =
      let (slots, w, rs) = start_all cs m.self in
      join_loop collect m.schedule slots w (m.issued ++ rs)

  -- `await coroutine`, from the main coroutine.
  unfoldable pub exec : {A : Type 0} → Co (Workflow L) A → M L A
  unfolding join
  exec c = join collect_one (c ∷ [])

  -- `_wait_for_resume`: a fresh event and no resume values, then a wait until the event is set. A
  -- completion that arrives meanwhile belongs to nothing that is awaited.
  unfoldable pub wait_loop : List Event → Workflow L → List Request → Outcome (Unit {0}) × Machine L
  unfolding resume_signal update_state_signal
  wait_loop [] w issued = (blocked, record { self = w; schedule = []; issued = issued })
  wait_loop (complete i r ∷ events) w issued = wait_loop events w issued
  wait_loop (resume v ∷ events) w issued = wait_loop events (resume_signal v w) issued
  wait_loop (update u ∷ events) w issued = elim (update_state_signal u w) [
    | ok w' ↦ wait_loop events w' issued
    | err e ↦ (raised e, record { self = w; schedule = events; issued = issued })
  ]
  wait_loop (wake ∷ events) w issued = elim w.resume_event [
    | true ↦ (
      ended tt,
      record { self = record w { status = running }; schedule = events; issued = issued },
    )
    | false ↦ wait_loop events w issued
  ]

  unfoldable pub wait_for_resume : M L (Unit {0})
  unfolding wait_loop
  wait_for_resume m =
      wait_loop m.schedule (record m.self { resume_event = false; resume_values = [] }) m.issued

module _ {L : Langgraph} where
  unfoldable pub pure {ℓ} : {A : Type ℓ} → A → M L A
  pure a m = (ended a, m)

  unfoldable pub raise_exn {ℓ} : {A : Type ℓ} → Exn → M L A
  raise_exn e m = (raised e, m)

  unfoldable pub continue_as_new {ℓ} : {A : Type ℓ} → WorkflowInput → M L A
  continue_as_new input m = (continued input, m)

  unfoldable pub run_out {ℓ} : {A : Type ℓ} → M L A
  run_out m = (exhausted, m)

  unfoldable pub lift {ℓ} : {A : Type ℓ} → Result A → M L A
  lift (ok a) m = (ended a, m)
  lift (err e) m = (raised e, m)

  unfoldable pub asks {ℓ} : {A : Type ℓ} → (Workflow L → A) → M L A
  asks f m = (ended (f m.self), m)

  unfoldable pub update_self : (Workflow L → Workflow L) → M L (Unit {0})
  update_self f m = (ended tt, record m { self = f m.self })

  -- What follows an outcome.
  abbrev pub follow {ℓ κ} :
      {A : Type ℓ} {B : Type κ} → Outcome A → (A → M L B) → Machine L → Outcome B × Machine L
  follow (ended a) f m = f a m
  follow (raised e) f m = (raised e, m)
  follow (continued input) f m = (continued input, m)
  follow blocked f m = (blocked, m)
  follow exhausted f m = (exhausted, m)

  infixl 10 ◌>>=◌ ◌>>◌
  -- To open this is to open the operations above too.
  unfoldable pub ◌>>=◌ {ℓ κ} : {A : Type ℓ} {B : Type κ} → M L A → (A → M L B) → M L B
  unfolding pure raise_exn continue_as_new run_out lift asks update_self
  ◌>>=◌ c f m = let (o, m') = c m in follow o f m'

  abbrev pub ◌>>◌ {ℓ κ} : {A : Type ℓ} {B : Type κ} → M L A → M L B → M L B
  c >> d = c >>= λ _. d

-- ===== src/Workflow/Run/Iterations.antt =====
-- One iteration of the loop of `run`, for each way that its body ends.
use langgraph_temporal.Prelude.{
  ℕ, suc, ◌+◌, List, [], true, false, ◌≡◌, refl, ap, ◌∙◌, arith, ltb, leb, inl, inr,
}
use langgraph_temporal.Prelude.Lists.{is_nil}
use langgraph_temporal.Prelude.Dict
use langgraph_temporal.Prelude.Result
use langgraph_temporal.Prelude.Result.{Exn, Result, ok, err, Result-cases}
use langgraph_temporal.Config.{WorkflowInput}
use langgraph_temporal.Langgraph.{Langgraph, PregelTask}
use langgraph_temporal.Text.{Host}
use langgraph_temporal.Coroutine.{Request}
use langgraph_temporal.Workflow.{Workflow, finished, continue_as_new_threshold}
use langgraph_temporal.Workflow.Machine.{
  Event, Machine, ended, raised, continued, pure, lift, asks, update_self, continue_as_new, ◌>>=◌,
}
use langgraph_temporal.Workflow.Machine.Runs.{machine, Runs, Runs-bind, Runs-still, Runs-false}
use langgraph_temporal.Workflow.Superstep.{stepped, no_tasks, next_tasks, loop_body, stop_here}
use langgraph_temporal.Workflow.Superstep.Plain.{bind-ended, bind-follow, if_false}
use langgraph_temporal.Workflow.Superstep.Steps.{Superstep, superstep-Superstep}
use langgraph_temporal.Workflow.Run.{carried_input, after_step, loop}
use langgraph_temporal.Workflow.Superstep.Failures.{StepFails, superstep-Raises}
use langgraph_temporal.Workflow.Machine.Raises.{
  Raises, Raises-first, Raises-later, Raises-false, Raises-still,
}

module _ {L : Langgraph} (H : Host) (graph : L.Graph) (input : WorkflowInput) where
  -- The tasks that langgraph names in a state.
  abbrev pub due : Workflow L → Result (List PregelTask)
  due w =
      Result.◌>>=◌
        (L.prepare_next_tasks w.checkpoint [] (L.nodes graph) w.channels H.workflow_id w.step
          input.recursion_limit w.trigger_to_nodes)
        λ tasks. ok (Dict.values tasks)

  next_tasks-due :
      (m : Machine L) (tasks : List PregelTask)
      → due m.self ≡ ok tasks
      → next_tasks H graph input m ≡ (ended tasks, m)
  unfolding next_tasks ◌>>=◌ asks lift pure
  next_tasks-due m tasks h =
      let call =
        L.prepare_next_tasks m.self.checkpoint [] (L.nodes graph) m.self.channels H.workflow_id
          m.self.step input.recursion_limit m.self.trigger_to_nodes in
      elim (Result-cases call) [
        | inl (d, e) ↦ ground (arith, h, e)
        | inr (x, e) ↦ ground (arith, h, e)
      ]

  pub loop_body-idle :
      (m : Machine L)
      → due m.self ≡ ok []
      → loop_body H graph input m
        ≡ (ended no_tasks, record m { self = record m.self { status = finished } })
  unfolding loop_body stop_here update_self pure
  loop_body-idle m h = bind-ended _ _ m (next_tasks-due m [] h) ∙ bind-ended _ _ m refl

  pub loop_body-round :
      {w w' : Workflow L} {es : List Event} {sent : List Request} (tasks : List PregelTask)
      → due w ≡ ok tasks
      → is_nil tasks ≡ false
      → Superstep H graph input tasks w es w' sent
      → Runs (loop_body H graph input) w es stepped w' sent
  unfolding loop_body
  loop_body-round {w = w} tasks is_due some_task step =
      Runs-bind _ (Runs-still (λ es rs. next_tasks-due (machine w es rs) tasks is_due))
        (Runs-false _ (is_nil tasks) some_task (superstep-Superstep H graph input tasks step))

  next_tasks-raises :
      (m : Machine L) (e : Exn) → due m.self ≡ err e → next_tasks H graph input m ≡ (raised e, m)
  unfolding next_tasks ◌>>=◌ asks lift pure
  next_tasks-raises m e h =
      let call =
        L.prepare_next_tasks m.self.checkpoint [] (L.nodes graph) m.self.channels H.workflow_id
          m.self.step input.recursion_limit m.self.trigger_to_nodes in
      elim (Result-cases call) [
        | inl (d, same) ↦ ground (arith, h, same)
        | inr (x, same) ↦ ground (arith, h, same)
      ]

  pub loop_body-unprepared :
      {w : Workflow L} {e : Exn} → due w ≡ err e → Raises (loop_body H graph input) w [] e w []
  unfolding loop_body
  loop_body-unprepared {w = w} {e = e} h =
      Raises-first _ (Raises-still (λ es rs. next_tasks-raises (machine w es rs) e h))

  pub loop_body-failing :
      {w w' : Workflow L} {es : List Event} {e : Exn} {sent : List Request}
      (tasks : List PregelTask)
      → due w ≡ ok tasks
      → is_nil tasks ≡ false
      → StepFails H graph input tasks w es e w' sent
      → Raises (loop_body H graph input) w es e w' sent
  unfolding loop_body
  loop_body-failing {w = w} tasks is_due some_task fails =
      Raises-later _ (Runs-still (λ es rs. next_tasks-due (machine w es rs) tasks is_due))
        (Raises-false _ (is_nil tasks) some_task (superstep-Raises H graph input tasks fails))

  -- One iteration of the loop.
  pub loop-stops :
      (fuel k : ℕ) (m : Machine L)
      → ltb m.self.step input.recursion_limit ≡ false
      → loop H (suc fuel) graph input k m ≡ (ended tt, m)
  unfolding loop asks pure
  loop-stops fuel k m stop = bind-ended _ _ m (ap (λ b. (ended b, m)) stop)

  pub loop-raises :
      (fuel k : ℕ) (m m1 : Machine L) (e : Exn)
      → ltb m.self.step input.recursion_limit ≡ true
      → loop_body H graph input m ≡ (raised e, m1)
      → loop H (suc fuel) graph input k m ≡ (raised e, m1)
  unfolding loop asks pure
  loop-raises fuel k m m1 e more body =
      bind-ended _ _ m (ap (λ b. (ended b, m)) more) ∙ bind-follow _ _ m body

  pub loop-idle :
      (fuel k : ℕ) (m m1 : Machine L)
      → ltb m.self.step input.recursion_limit ≡ true
      → loop_body H graph input m ≡ (ended no_tasks, m1)
      → loop H (suc fuel) graph input k m ≡ (ended tt, m1)
  unfolding loop asks pure
  loop-idle fuel k m m1 more body =
      bind-ended _ _ m (ap (λ b. (ended b, m)) more) ∙ bind-ended _ _ m body

  pub loop-goes_on :
      (fuel k : ℕ) (m m1 : Machine L)
      → ltb m.self.step input.recursion_limit ≡ true
      → loop_body H graph input m ≡ (ended stepped, m1)
      → leb continue_as_new_threshold (k + 1) ≡ false
      → loop H (suc fuel) graph input k m ≡ loop H fuel graph input (k + 1) m1
  unfolding loop asks after_step pure
  loop-goes_on fuel k m m1 more body few =
      bind-ended _ _ m (ap (λ b. (ended b, m)) more)
      ∙ bind-ended _ _ m body
      ∙ bind-ended _ _ m1 (if_false (leb continue_as_new_threshold (k + 1)) _ _ m1 few)

  pub loop-renews :
      (fuel k : ℕ) (m m1 : Machine L)
      → ltb m.self.step input.recursion_limit ≡ true
      → loop_body H graph input m ≡ (ended stepped, m1)
      → leb continue_as_new_threshold (k + 1) ≡ true
      → loop H (suc fuel) graph input k m ≡ (continued (carried_input input m1.self), m1)
  unfolding loop asks after_step continue_as_new ◌>>=◌
  loop-renews fuel k m m1 more body enough = ground (arith, more, body, enough)

-- ===== src/Workflow/Superstep/Phases.antt =====
-- The phases of a superstep: the check for interrupts, interrupted nodes, and sent and routed tasks.
-- The relations below say which events a phase reads, which results and which state it leaves, and
-- which requests it makes.
use langgraph_temporal.Prelude.{List, [], ◌++◌, String, Option, true, false, not, ◌≡◌, refl}
use langgraph_temporal.Prelude.Lists.{length, is_nil, select}
use langgraph_temporal.Prelude.Dict.{Dict}
use langgraph_temporal.Prelude.Result.{ok}
use langgraph_temporal.Config.{Checkpoint, InterruptNodes, NodeActivityInput, NodeActivityOutput}
use langgraph_temporal.Langgraph.{Langgraph, PregelTask}
use langgraph_temporal.Coroutine.{Request, node_output}
use langgraph_temporal.Workflow.{Workflow, get_channel_values}
use langgraph_temporal.Workflow.Sends.{SendDict, push_inputs}
use langgraph_temporal.Workflow.Machine.{Event}
use langgraph_temporal.Workflow.Machine.Flags.{all_true}
use langgraph_temporal.Workflow.Machine.Served.{Served, Served-step}
use langgraph_temporal.Workflow.Machine.Runs.{Runs, Runs-pure, Runs-returns, Runs-true, Runs-false}
use langgraph_temporal.Workflow.Nodes.Pushes.{no_effect, input_requests, execute_push_tasks-Runs}
use langgraph_temporal.Workflow.Interrupts.{
  interrupt_here, interrupt_entries, interrupt_check, is_interrupted, all_interrupts,
  handle_interrupted,
}
use langgraph_temporal.Workflow.Interrupts.Pauses.{is_pause, updated, paused, pause-Runs}
use langgraph_temporal.Workflow.Interrupts.Rerun.{handle_interrupted-Reran}
use langgraph_temporal.Workflow.Interrupts.Reran.{Reran, Reran-step}
use langgraph_temporal.Workflow.Superstep.{push_phase}

module _ {L : Langgraph} where
  -- A check for interrupts: nothing, or a pause.
  pub data Checked (kind : String) (tasks : List PregelTask) (nodes : Option InterruptNodes)
      (w : Workflow L) : List Event → Workflow L → Type 0 where
    passes : interrupt_here tasks nodes ≡ false → Checked kind tasks nodes w [] w
    pauses :
        (es : List Event) (s : Checkpoint × Dict L.Channel)
        → interrupt_here tasks nodes ≡ true
        → is_pause es false ≡ true
        → updated L w.trigger_to_nodes es (w.checkpoint, w.channels) ≡ ok s
        → Checked kind tasks nodes w es (paused (interrupt_entries kind tasks) es s w)

  pub interrupt_check-Runs :
      {kind : String} {tasks : List PregelTask} {nodes : Option InterruptNodes} {w w' : Workflow L}
      {es : List Event}
      → Checked kind tasks nodes w es w'
      → Runs (interrupt_check kind tasks nodes) w es tt w' []
  unfolding interrupt_check
  interrupt_check-Runs {w = w} (passes h) = Runs-false _ _ h (Runs-pure tt w)
  interrupt_check-Runs {w = w} (pauses es s h p u) = Runs-true _ _ h (pause-Runs _ es w s p u)

  pub Checked-step :
      {kind : String} {tasks : List PregelTask} {nodes : Option InterruptNodes} {w w' : Workflow L}
      {es : List Event}
      → Checked kind tasks nodes w es w'
      → w'.step ≡ w.step
  Checked-step (passes h) = refl
  Checked-step (pauses es s h p u) = refl

  -- Interrupted nodes: there are none, or they are run again after a pause.
  pub data Handled (results : List NodeActivityOutput) (w : Workflow L)
      : List Event → List NodeActivityOutput → Workflow L → List Request → Type 0 where
    none_interrupted :
        is_nil (select is_interrupted results) ≡ true → Handled results w [] results w []
    run_again :
        {w' : Workflow L} {later : List Event} {os : List NodeActivityOutput} {sent : List Request}
        (es : List Event) (s : Checkpoint × Dict L.Channel)
        → is_nil (select is_interrupted results) ≡ false
        → is_pause es false ≡ true
        → updated L w.trigger_to_nodes es (w.checkpoint, w.channels) ≡ ok s
        → Reran
            (get_channel_values L s.1)
            (select is_interrupted results)
            (paused (all_interrupts (select is_interrupted results)) es s w)
            later
            os
            w'
            sent
        → Handled results w
            (es ++ later)
            (select (λ r. not (is_interrupted r)) results ++ os)
            w'
            sent

  pub handle_interrupted-Runs :
      {results results' : List NodeActivityOutput} {w w' : Workflow L} {es : List Event}
      {sent : List Request}
      → Handled results w es results' w' sent
      → Runs (handle_interrupted results) w es results' w' sent
  unfolding handle_interrupted
  handle_interrupted-Runs {results = results} {w = w} (none_interrupted h) =
      Runs-true _ _ h (Runs-pure results w)
  handle_interrupted-Runs {results = results} {w = w} (run_again es s h p u again) =
      handle_interrupted-Reran results es s h p u again

  pub Handled-step :
      {results results' : List NodeActivityOutput} {w w' : Workflow L} {es : List Event}
      {sent : List Request}
      → Handled results w es results' w' sent
      → w'.step ≡ w.step
  Handled-step (none_interrupted h) = refl
  Handled-step (run_again es s h p u again) = Reran-step (get_channel_values L s.1) again

  -- Tasks that the results ask for: none, or one for each send, which are answered in any order.
  pub data Pushed (extract : List NodeActivityOutput → List SendDict)
      (results : List NodeActivityOutput) (w : Workflow L)
      : List Event → List NodeActivityOutput → Workflow L → List Request → Type 0 where
    none_sent : is_nil (extract results) ≡ true → Pushed extract results w [] results w []
    sends :
        {w' : Workflow L} {es : List Event} (inputs : List NodeActivityInput)
        (os : List NodeActivityOutput)
        → is_nil (extract results) ≡ false
        → push_inputs (get_channel_values L w.channels) w.graph_ref (extract results) ≡ ok inputs
        → length os ≡ length inputs
        → Served node_output no_effect os (all_true os) w es w'
        → Pushed extract results w es (results ++ os) w' (input_requests w inputs)

  pub push_phase-Runs :
      {extract : List NodeActivityOutput → List SendDict}
      {results results' : List NodeActivityOutput} {w w' : Workflow L} {es : List Event}
      {sent : List Request}
      → Pushed extract results w es results' w' sent
      → Runs (push_phase extract results) w es results' w' sent
  unfolding push_phase
  push_phase-Runs {results = results} {w = w} (none_sent h) = Runs-true _ _ h (Runs-pure results w)
  push_phase-Runs {extract = extract} {results = results} (sends inputs os h made same served) =
      Runs-false _ _ h (
        Runs-returns (λ more. results ++ more)
          (execute_push_tasks-Runs (extract results) inputs os made same served))

  pub Pushed-step :
      {extract : List NodeActivityOutput → List SendDict}
      {results results' : List NodeActivityOutput} {w w' : Workflow L} {es : List Event}
      {sent : List Request}
      → Pushed extract results w es results' w' sent
      → w'.step ≡ w.step
  Pushed-step (none_sent h) = refl
  Pushed-step (sends inputs os h made same served) =
      Served-step node_output no_effect (λ o w. refl) served

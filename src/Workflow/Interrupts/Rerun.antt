-- ===== src/Workflow/Interrupts/Rerun.antt =====
-- Nodes that called `interrupt()`, after the resume.
use langgraph_temporal.Prelude.{◌≡◌, refl, true, false, not, List, [], ◌∷◌, ◌++◌, arith, map}
use langgraph_temporal.Prelude.Lists.{is_nil, select, length}
use langgraph_temporal.Prelude.Dict.{Dict}
use langgraph_temporal.Prelude.Result.{ok}
use langgraph_temporal.Value.{Value}
use langgraph_temporal.Config.{Checkpoint, NodeActivityOutput}
use langgraph_temporal.Langgraph.{Langgraph}
use langgraph_temporal.Coroutine.{Request, node_output, run_activity}
use langgraph_temporal.Workflow.{Workflow, get_channel_values}
use langgraph_temporal.Workflow.Routing.{activity_call}
use langgraph_temporal.Workflow.Nodes.{resumed_input, execute_resumed_nodes}
use langgraph_temporal.Workflow.Interrupts.{handle_interrupted, is_interrupted, all_interrupts}
use langgraph_temporal.Workflow.Interrupts.Pauses.{is_pause, updated, paused, pause-Runs}
use langgraph_temporal.Workflow.Machine.{Event, complete}
use langgraph_temporal.Workflow.Machine.Served.{replied, all_served}
use langgraph_temporal.Workflow.Interrupts.Reran.{Reran, all_reran, reran, resumed_loop-Runs}
use langgraph_temporal.Workflow.Machine.Runs.{Runs, Runs-asks, Runs-bind, Runs-returns, Runs-false}

-- The completions of activities that are awaited one after the other.
abbrev pub completions : List NodeActivityOutput → List Event
completions [] = []
completions (o ∷ os) = complete 0 (node_output o) ∷ completions os

-- The requests of nodes that are run again with these channel values.
abbrev pub rerun_requests :
    {L : Langgraph} → Workflow L → Dict Value → List NodeActivityOutput → List Request
rerun_requests w values stopped =
    map (λ r. run_activity (activity_call w (resumed_input values r w) r.node_name)) stopped

module _ {L : Langgraph} where
  completions-Reran :
      (values : Dict Value) (stopped os : List NodeActivityOutput) (w : Workflow L)
      → length stopped ≡ length os
      → Reran values stopped w (completions os) os w (rerun_requests w values stopped)
  completions-Reran values [] [] w h = all_reran
  completions-Reran values [] (o ∷ os) w h = absurd (omega arith)
  completions-Reran values (r ∷ stopped) [] w h = absurd (omega arith)
  completions-Reran values (r ∷ stopped) (o ∷ os) w h =
      reran r o (replied 0 (node_output o) refl refl (all_served refl))
        (completions-Reran values stopped os w (omega arith))

  -- The pause and the second runs.
  pub handle_interrupted-Reran :
      (results : List NodeActivityOutput) (es : List Event) {w w' : Workflow L}
      (s : Checkpoint × Dict L.Channel) {later : List Event} {os : List NodeActivityOutput}
      {sent : List Request}
      → is_nil (select is_interrupted results) ≡ false
      → is_pause es false ≡ true
      → updated L w.trigger_to_nodes es (w.checkpoint, w.channels) ≡ ok s
      → Reran
          (get_channel_values L s.1)
          (select is_interrupted results)
          (paused (all_interrupts (select is_interrupted results)) es s w)
          later
          os
          w'
          sent
      → Runs
          (handle_interrupted results)
          w
          (es ++ later)
          (select (λ r. not (is_interrupted r)) results ++ os)
          w'
          sent
  unfolding handle_interrupted execute_resumed_nodes
  handle_interrupted-Reran results es {w = w} s some_stopped is_a_pause writes again =
      let stopped = select is_interrupted results in
      let w1 = paused (all_interrupts stopped) es s w in
      Runs-false _ (is_nil stopped) some_stopped (
        Runs-bind _ (pause-Runs (all_interrupts stopped) es w s is_a_pause writes) (
          Runs-returns (λ os. select (λ r. not (is_interrupted r)) results ++ os)
            (Runs-bind _ (Runs-asks (λ w. get_channel_values L w.channels) w1)
              (resumed_loop-Runs (get_channel_values L s.1) again))))

  -- If some results are interrupted, the workflow pauses, and after the events of the pause it runs
  -- each interrupted node once more, one after the other and in order. The outputs of these second
  -- runs are taken as they are, whether or not they are interrupted again; they follow the results
  -- that were not interrupted. The state is the one after the pause, with its updates, the values
  -- of its resume signals and the status "running", and the requests are just the activities of
  -- these nodes, each with the resume values.
  pub handle_interrupted-completions :
      (results os : List NodeActivityOutput) (es : List Event) (w : Workflow L)
      (s : Checkpoint × Dict L.Channel)
      → is_nil (select is_interrupted results) ≡ false
      → is_pause es false ≡ true
      → updated L w.trigger_to_nodes es (w.checkpoint, w.channels) ≡ ok s
      → length (select is_interrupted results) ≡ length os
      → let stopped = select is_interrupted results in
        let w' = paused (all_interrupts stopped) es s w in
        Runs
          (handle_interrupted results)
          w
          (es ++ completions os)
          (select (λ r. not (is_interrupted r)) results ++ os)
          w'
          (rerun_requests w' (get_channel_values L s.1) stopped)
  handle_interrupted-completions results os es w s some_stopped is_a_pause writes same =
      let stopped = select is_interrupted results in
      handle_interrupted-Reran results es s some_stopped is_a_pause writes (
        completions-Reran (get_channel_values L s.1) stopped os
          (paused (all_interrupts stopped) es s w) same)

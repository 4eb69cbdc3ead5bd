-- ===== src/Workflow/Superstep/Refusals.antt =====
-- The phases of a superstep that fail: a second run does, a send names no node or its activity fails, or
-- langgraph refuses the writes.
use langgraph_temporal.Prelude.{
  List, [], ◌∷◌, ◌++◌, if◌then◌else◌, true, false, ◌≡◌, arith, inl, inr,
}
use langgraph_temporal.Prelude.Lists.{length, is_nil, select}
use langgraph_temporal.Prelude.Dict.{Dict}
use langgraph_temporal.Prelude.Result.{Exn, Result-cases, ok, err}
use langgraph_temporal.Config.{Checkpoint, NodeActivityInput, NodeActivityOutput}
use langgraph_temporal.Langgraph.{Langgraph, TaskWrites}
use langgraph_temporal.Coroutine.{Request, node_output}
use langgraph_temporal.Workflow.{Workflow, get_channel_values, increment}
use langgraph_temporal.Workflow.Sends.{SendDict, push_inputs}
use langgraph_temporal.Workflow.Machine.{
  Event, Machine, raised, pure, ◌>>=◌, lift, asks, update_self,
}
use langgraph_temporal.Workflow.Machine.Flags.{all_true}
use langgraph_temporal.Workflow.Machine.Broken.{Broken}
use langgraph_temporal.Workflow.Machine.Runs.{machine, Runs-asks}
use langgraph_temporal.Workflow.Machine.Raises.{
  Raises, Raises-first, Raises-later, Raises-false, Raises-still,
}
use langgraph_temporal.Workflow.Nodes.Pushes.{no_effect, node_failing, input_requests}
use langgraph_temporal.Workflow.Nodes.Failures.{
  execute_push_tasks-Raises, execute_push_tasks-malformed,
}
use langgraph_temporal.Workflow.Nodes.{execute_resumed_nodes}
use langgraph_temporal.Workflow.Interrupts.{is_interrupted, all_interrupts, handle_interrupted}
use langgraph_temporal.Workflow.Interrupts.Lost.{RerunFails, resumed_loop-Raises}
use langgraph_temporal.Workflow.Interrupts.Pauses.{is_pause, updated, paused, pause-Runs}
use langgraph_temporal.Workflow.Start.{apply_task_writes}
use langgraph_temporal.Workflow.Superstep.{task_writes, apply_results, push_phase}
use langgraph_temporal.Workflow.Superstep.Plain.{applied}

module _ {L : Langgraph} where
  -- langgraph refuses writes.
  refused :
      (ts : List TaskWrites) (m : Machine L) (e : Exn)
      → applied L ts m.self ≡ err e
      → (if is_nil ts then pure tt else apply_task_writes ts) m ≡ (raised e, m)
  unfolding apply_task_writes ◌>>=◌ pure lift asks update_self
  refused [] m e h = absurd (cc)
  refused (t ∷ ts) m e h =
      let call =
        L.apply_writes m.self.checkpoint m.self.channels (t ∷ ts) increment
          m.self.trigger_to_nodes in
      elim (Result-cases call) [
        | inl (r, same) ↦ ground (arith, h, same)
        | inr (x, same) ↦ ground (arith, h, same)
      ]

  -- The second run of an interrupted node fails, after those of the nodes before it.
  pub data HandlingFails (results : List NodeActivityOutput) (w : Workflow L)
      : List Event → Exn → Workflow L → List Request → Type 0 where
    rerun_fails :
        {w' : Workflow L} {later : List Event} {e : Exn} {sent : List Request} (es : List Event)
        (s : Checkpoint × Dict L.Channel)
        → is_nil (select is_interrupted results) ≡ false
        → is_pause es false ≡ true
        → updated L w.trigger_to_nodes es (w.checkpoint, w.channels) ≡ ok s
        → RerunFails
            (get_channel_values L s.1)
            (select is_interrupted results)
            (paused (all_interrupts (select is_interrupted results)) es s w)
            later
            e
            w'
            sent
        → HandlingFails results w (es ++ later) e w' sent

  pub handle_interrupted-Raises :
      {results : List NodeActivityOutput} {w w' : Workflow L} {es : List Event} {e : Exn}
      {sent : List Request}
      → HandlingFails results w es e w' sent
      → Raises (handle_interrupted results) w es e w' sent
  unfolding handle_interrupted execute_resumed_nodes
  handle_interrupted-Raises {results = results} {w = w}
        (rerun_fails es s some_stopped is_a_pause writes fails) =
      let stopped = select is_interrupted results in
      let w1 = paused (all_interrupts stopped) es s w in
      Raises-false _ (is_nil stopped) some_stopped (
        Raises-later _ (pause-Runs (all_interrupts stopped) es w s is_a_pause writes) (
          Raises-first _ (
            Raises-later _ (Runs-asks (λ w. get_channel_values L w.channels) w1)
              (resumed_loop-Raises (get_channel_values L s.1) fails))))

  -- Tasks that the results ask for are malformed, or one of their activities fails.
  pub data PushingFails (extract : List NodeActivityOutput → List SendDict)
      (results : List NodeActivityOutput) (w : Workflow L)
      : List Event → Exn → Workflow L → List Request → Type 0 where
    malformed :
        {e : Exn}
        → is_nil (extract results) ≡ false
        → push_inputs (get_channel_values L w.channels) w.graph_ref (extract results) ≡ err e
        → PushingFails extract results w [] e w []
    push_fails :
        {w' : Workflow L} {es : List Event} {e : Exn} (inputs : List NodeActivityInput)
        (os : List NodeActivityOutput)
        → is_nil (extract results) ≡ false
        → push_inputs (get_channel_values L w.channels) w.graph_ref (extract results) ≡ ok inputs
        → length os ≡ length inputs
        → Broken node_output no_effect node_failing os (all_true os) w es e w'
        → PushingFails extract results w es e w' (input_requests w inputs)

  pub push_phase-Raises :
      {extract : List NodeActivityOutput → List SendDict} {results : List NodeActivityOutput}
      {w w' : Workflow L} {es : List Event} {e : Exn} {sent : List Request}
      → PushingFails extract results w es e w' sent
      → Raises (push_phase extract results) w es e w' sent
  unfolding push_phase
  push_phase-Raises {extract = extract} {results = results} (malformed some_send unmade) =
      Raises-false _ (is_nil (extract results)) some_send
        (Raises-first _ (execute_push_tasks-malformed (extract results) unmade))
  push_phase-Raises {extract = extract} {results = results}
        (push_fails inputs os some_send made same breaks) =
      Raises-false _ (is_nil (extract results)) some_send
        (Raises-first _ (execute_push_tasks-Raises (extract results) inputs os made same breaks))

  pub apply_results-Raises :
      (graph : L.Graph) (os : List NodeActivityOutput) (w : Workflow L) (e : Exn)
      → applied L (task_writes L graph os) w ≡ err e
      → Raises (apply_results graph os) w [] e w []
  unfolding apply_results
  apply_results-Raises graph os w e h =
      Raises-still (λ es rs. refused (task_writes L graph os) (machine w es rs) e h)

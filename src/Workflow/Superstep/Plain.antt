-- ===== src/Workflow/Superstep/Plain.antt =====
-- A superstep whose nodes only write: `run` between `prepare_next_tasks` and the next step.
use langgraph_temporal.Prelude.{
  ℕ, ◌<◌, String, List, [], ◌∷◌, Option, none, Bool, true, false, ◌≡◌, refl, ap, sym, ◌∙◌, arith,
  if◌then◌else◌, inl, inr,
}
use langgraph_temporal.Prelude.Lists.{length, any, select, is_nil}
use langgraph_temporal.Prelude.Result
use langgraph_temporal.Prelude.Result.{Result, ok, err, Result-cases, ok-injective}
use langgraph_temporal.Config.{InterruptNodes, WorkflowInput, NodeActivityOutput}
use langgraph_temporal.Langgraph.{Langgraph, PregelTask, TaskWrites}
use langgraph_temporal.Text.{Host}
use langgraph_temporal.Coroutine.{node_output}
use langgraph_temporal.Workflow.{Workflow, increment}
use langgraph_temporal.Workflow.Machine.{
  Machine, M, Outcome, ended, follow, pure, lift, asks, update_self, ◌>>=◌,
}
use langgraph_temporal.Workflow.Machine.Liveness.{completes, Answers}
use langgraph_temporal.Workflow.Machine.Quiet.{is_quiet}
use langgraph_temporal.Workflow.Sends.{
  SendDict, extract_push_sends, extract_command_gotos, command_gotos,
}
use langgraph_temporal.Workflow.Nodes.{is_subgraph_node, execute_nodes}
use langgraph_temporal.Workflow.Nodes.Liveness.{execute_nodes-ends, execute_nodes_self}
use langgraph_temporal.Workflow.Children.{process_result, process_child_workflow_requests}
use langgraph_temporal.Workflow.Interrupts.{
  is_interrupted, interrupt_here, interrupt_check, handle_interrupted,
}
use langgraph_temporal.Workflow.Start.{apply_task_writes}
use langgraph_temporal.Workflow.Stream.{emit_stream_events}
use langgraph_temporal.Workflow.Superstep.{
  task_writes, stepped, push_phase, apply_results, advance_step, run_tasks, superstep,
}

-- A result with writes and custom data only.
abbrev pub IsPlain : NodeActivityOutput → Type 0
IsPlain o =
    (o.interrupts ≡ none)
    × (o.push_sends ≡ none)
    × (o.command ≡ none)
    × (o.child_workflow_requests ≡ none)

abbrev pub AllPlain : List NodeActivityOutput → Type 0
AllPlain [] = Unit
AllPlain (o ∷ os) = IsPlain o × AllPlain os

pub bind-ended :
    {L : Langgraph} {A B : Type 0} (c : M L A) (f : A → M L B) (m : Machine L) {a : A}
    {m' : Machine L}
    → c m ≡ (ended a, m')
    → (c >>= f) m ≡ f a m'
unfolding ◌>>=◌
bind-ended c f m e = ap (λ (o, m1). follow o f m1) e

pub bind-follow :
    {L : Langgraph} {A B : Type 0} (c : M L A) (f : A → M L B) (m : Machine L) {o : Outcome A}
    {m' : Machine L}
    → c m ≡ (o, m')
    → (c >>= f) m ≡ follow o f m'
unfolding ◌>>=◌
bind-follow c f m e = ap (λ (o, m1). follow o f m1) e

interrupted-none : (os : List NodeActivityOutput) → AllPlain os → select is_interrupted os ≡ []
unfolding is_interrupted
interrupted-none [] h = refl
interrupted-none (o ∷ os) h = ground (arith, h.0, interrupted-none os h.1)

push_sends-none : (os : List NodeActivityOutput) → AllPlain os → extract_push_sends os ≡ []
unfolding extract_push_sends
push_sends-none [] h = refl
push_sends-none (o ∷ os) h = ground (arith, h.0, push_sends-none os h.1)

command_gotos-none : (os : List NodeActivityOutput) → AllPlain os → extract_command_gotos os ≡ []
unfolding extract_command_gotos command_gotos
command_gotos-none [] h = refl
command_gotos-none (o ∷ os) h = ground (arith, h.0, command_gotos-none os h.1)

if_nil :
    {L : Langgraph} {A B : Type 0} (xs : List B) (c d : M L A) (m : Machine L)
    → xs ≡ []
    → (if is_nil xs then c else d) m ≡ c m
if_nil xs c d m h = ap (λ xs. (if is_nil xs then c else d) m) h

pub if_false :
    {L : Langgraph} {A : Type 0} (b : Bool) (c d : M L A) (m : Machine L)
    → b ≡ false
    → (if b then c else d) m ≡ d m
if_false b c d m h = ap (λ b. (if b then c else d) m) h

module _ {L : Langgraph} (H : Host) where
  process-plain :
      (input : WorkflowInput) (os : List NodeActivityOutput) (m : Machine L)
      → AllPlain os
      → process_child_workflow_requests H input os m ≡ (ended os, m)
  unfolding process_child_workflow_requests process_result ◌>>=◌ pure
  process-plain input [] m h = refl
  process-plain input (o ∷ os) m h = ground (arith, h.0, process-plain input os m h.1)

  handle-plain :
      (os : List NodeActivityOutput) (m : Machine L)
      → AllPlain os
      → handle_interrupted os m ≡ (ended os, m)
  unfolding handle_interrupted pure
  handle-plain os m h = if_nil (select is_interrupted os) _ _ m (interrupted-none os h)

  push_phase-plain :
      (extract : List NodeActivityOutput → List SendDict) (os : List NodeActivityOutput)
      (m : Machine L)
      → extract os ≡ []
      → push_phase extract os m ≡ (ended os, m)
  unfolding push_phase pure
  push_phase-plain extract os m h = if_nil (extract os) _ _ m h

  interrupt_check-no :
      (kind : String) (tasks : List PregelTask) (nodes : Option InterruptNodes) (m : Machine L)
      → interrupt_here tasks nodes ≡ false
      → interrupt_check kind tasks nodes m ≡ (ended tt, m)
  unfolding interrupt_check pure
  interrupt_check-no kind tasks nodes m h = if_false (interrupt_here tasks nodes) _ _ m h

-- What `apply_writes` makes of the state, for the writes of the results; it is not called for none.
abbrev pub applied : (L : Langgraph) → List TaskWrites → Workflow L → Result (Workflow L)
applied L [] w = ok w
applied L (t ∷ ts) w =
    Result.◌>>=◌ (L.apply_writes w.checkpoint w.channels (t ∷ ts) increment w.trigger_to_nodes)
      λ r. ok (record w { checkpoint = r.0; channels = r.1 })

module _ {L : Langgraph} where
  pub applied-step :
      (ts : List TaskWrites) (w w1 : Workflow L) → applied L ts w ≡ ok w1 → w1.step ≡ w.step
  applied-step [] w w1 h = ap (λ (w : Workflow L). w.step) (sym (ok-injective h))
  applied-step (t ∷ ts) w w1 h =
      let call = L.apply_writes w.checkpoint w.channels (t ∷ ts) increment w.trigger_to_nodes in
      elim (Result-cases call) [
        | inl (r, e) ↦ ground (arith, h, e)
        | inr (x, e) ↦ ground (arith, h, e)
      ]

  pub apply_list-applied :
      (ts : List TaskWrites) (m : Machine L) (w' : Workflow L)
      → applied L ts m.self ≡ ok w'
      → (if is_nil ts then pure tt else apply_task_writes ts) m ≡ (ended tt, record m { self = w' })
  unfolding apply_task_writes ◌>>=◌ pure lift asks update_self
  apply_list-applied [] m w' h = ap (λ w. (ended tt, record m { self = w })) (ok-injective h)
  apply_list-applied (t ∷ ts) m w' h =
      let call =
        L.apply_writes m.self.checkpoint m.self.channels (t ∷ ts) increment
          m.self.trigger_to_nodes in
      elim (Result-cases call) [
        | inl (r, e) ↦ ground (arith, h, e)
        | inr (x, e) ↦ ground (arith, h, e)
      ]

  pub apply_results-applied :
      (graph : L.Graph) (os : List NodeActivityOutput) (m : Machine L) (w' : Workflow L)
      → applied L (task_writes L graph os) m.self ≡ ok w'
      → apply_results graph os m ≡ (ended tt, record m { self = w' })
  unfolding apply_results
  apply_results-applied graph os m w' h = apply_list-applied (task_writes L graph os) m w' h

module _ {L : Langgraph} (H : Host) where
  run_tasks-plain :
      (graph : L.Graph) (input : WorkflowInput) (tasks : List PregelTask)
      (os : List NodeActivityOutput) (m m' : Machine L)
      → AllPlain os
      → execute_nodes H graph tasks m ≡ (ended os, m')
      → run_tasks H graph input tasks m ≡ (ended os, m')
  unfolding run_tasks
  run_tasks-plain graph input tasks os m m' plain executed =
      bind-ended _ _ m executed
      ∙ bind-ended _ _ m' (process-plain H input os m' plain)
      ∙ bind-ended _ _ m' (handle-plain H os m' plain)
      ∙ bind-ended _ _ m' (push_phase-plain H extract_push_sends os m' (push_sends-none os plain))
      ∙ push_phase-plain H extract_command_gotos os m' (command_gotos-none os plain)

  pub superstep-run :
      (graph : L.Graph) (input : WorkflowInput) (tasks : List PregelTask)
      (os : List NodeActivityOutput) (m m1 : Machine L) (w' : Workflow L)
      → AllPlain os
      → interrupt_here tasks input.interrupt_before ≡ false
      → interrupt_here tasks input.interrupt_after ≡ false
      → execute_nodes H graph tasks m ≡ (ended os, m1)
      → applied L (task_writes L graph os) m1.self ≡ ok w'
      → superstep H graph input tasks m
        ≡ (ended stepped, record m1 { self = advance_step (emit_stream_events os w') })
  unfolding superstep update_self pure
  superstep-run graph input tasks os m m1 w' plain no_before no_after executed writes =
      let m2 : Machine L = record m1 { self = w' } in
      let m3 : Machine L = record m1 { self = emit_stream_events os w' } in
      bind-ended _ _ m (interrupt_check-no H "before" tasks input.interrupt_before m no_before)
      ∙ bind-ended _ _ m (run_tasks-plain graph input tasks os m m1 plain executed)
      ∙ bind-ended _ _ m1 (apply_results-applied graph os m1 w' writes)
      ∙ bind-ended _ _ m2 (refl {a = (ended tt, m3)})
      ∙ bind-ended _ _ m3 (interrupt_check-no H "after" tasks input.interrupt_after m3 no_after)
      ∙ bind-ended (update_self advance_step) _ m3 refl

  -- A superstep whose tasks are no subgraphs, with no interrupt before or after it: if the schedule
  -- completes each task's request with its output, an output with writes and custom data only, no
  -- signal arrives, and langgraph takes the writes, then the superstep ends, and leaves the state
  -- that one application of the outputs' writes makes, with their events added and the step
  -- counted, whatever the order in which the activities end.
  superstep-plain :
      (graph : L.Graph) (input : WorkflowInput) (tasks : List PregelTask)
      (outputs : List NodeActivityOutput) (m : Machine L) (w' : Workflow L)
      → any (λ t. is_subgraph_node L graph t.name) tasks ≡ false
      → length outputs ≡ length tasks
      → AllPlain outputs
      → interrupt_here tasks input.interrupt_before ≡ false
      → interrupt_here tasks input.interrupt_after ≡ false
      → Answers node_output outputs m.schedule
      → ((i : ℕ) → i < length outputs → completes m.schedule i ≡ true)
      → is_quiet m.schedule ≡ true
      → applied L (task_writes L graph outputs) m.self ≡ ok w'
      → let (o, m') = superstep H graph input tasks m in
        (o ≡ ended stepped) × (m'.self ≡ advance_step (emit_stream_events outputs w'))
  superstep-plain graph input tasks os m w' none_sub same plain no_before no_after answers all quiet
        writes =
      let m1 = (execute_nodes H graph tasks m).1 in
      let unchanged = execute_nodes_self H graph tasks os m none_sub same answers quiet in
      let whole =
        superstep-run graph input tasks os m m1 w' plain no_before no_after
          (ap (λ o. (o, m1)) (execute_nodes-ends H graph tasks os m none_sub same answers all))
          (ap (applied L (task_writes L graph os)) unchanged ∙ writes) in
      (ap (λ p. p.0) whole, ap (λ p. p.1.self) whole)

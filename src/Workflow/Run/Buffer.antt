-- ===== src/Workflow/Run/Buffer.antt =====
-- The stream buffer of langgraph/temporal/workflow.py, over a whole run.
use langgraph_temporal.Prelude.{
  ℕ, zero, suc, ◌+◌, ◌-◌, String, Option, none, some, List, [], ◌∷◌, ◌++◌, ◌≡◌, sym, ap, ◌∙◌,
  append-nil, append_assoc, true, false,
}
use langgraph_temporal.Prelude.Dict.{Dict}
use langgraph_temporal.Value.{Value}
use langgraph_temporal.Config.{
  WorkflowInput, InterruptNodes, NodeActivityOutput, RestoredState, StreamEvent,
}
use langgraph_temporal.Langgraph.{Langgraph, PregelTask}
use langgraph_temporal.Text.{Host}
use langgraph_temporal.Workflow.{Workflow}
use langgraph_temporal.Workflow.Sends.{extract_push_sends, extract_command_gotos}
use langgraph_temporal.Workflow.Stream.{emit_stream_events, values_event, all_result_events}
use langgraph_temporal.Workflow.Interrupts.{pause, interrupt_check, handle_interrupted}
use langgraph_temporal.Workflow.Start.{
  begin, configure, discover_if_needed, initialise, restore, reset, write_input,
}
use langgraph_temporal.Workflow.Superstep.{
  no_tasks, stepped, run_tasks, superstep, stop_here, next_tasks, loop_body, advance_step,
}
use langgraph_temporal.Workflow.Run.{after_step, loop, finish, run}
use langgraph_temporal.Workflow.Machine.{Machine, run_out}
use langgraph_temporal.Workflow.Machine.Keeps.{Keeps, Keeps-exec, Keeps-wait_for_resume}
use langgraph_temporal.Workflow.Machine.Rules.{
  Keeps-pure, Keeps-bind, Keeps-asks, Keeps-lift, Keeps-if, Keeps-update_self,
  Keeps-continue_as_new,
}
use langgraph_temporal.Workflow.Frame.{IsFramed, SignalsKeep_of_IsFramed, discover-CoKeeps}
use langgraph_temporal.Workflow.Frame.Pieces.{
  nodes-Keeps, resumed-Keeps, push_phase-Keeps, process_children-Keeps, apply_task_writes-Keeps,
  apply_results-Keeps,
}

module _ {L : Langgraph} (buffer : List StreamEvent) where
  -- The buffer begins with the given events.
  abbrev pub Extends : Workflow L → Type 0
  Extends w = (more : List StreamEvent) × (w.stream_buffer ≡ buffer ++ more)

  framed : IsFramed Extends
  framed = record {
    sticky = λ w q h. h;
    graphs = λ w r n h. h;
    state = λ w c ch h. h;
    resuming = λ w vs b h. h;
  }

  pause-Keeps : (entries : List (Dict Value)) → Keeps Extends (pause entries)
  unfolding pause
  pause-Keeps entries =
      Keeps-bind _ _ (Keeps-update_self _ (λ w h. h))
        λ _. Keeps-wait_for_resume Extends (SignalsKeep_of_IsFramed framed) (λ w h. h) (λ w h. h)

  check-Keeps :
      (kind : String) (tasks : List PregelTask) (nodes : Option InterruptNodes)
      → Keeps Extends (interrupt_check kind tasks nodes)
  unfolding interrupt_check
  check-Keeps kind tasks nodes = Keeps-if _ _ _ (pause-Keeps _) (Keeps-pure tt)

  interrupted-Keeps :
      (results : List NodeActivityOutput) → Keeps Extends (handle_interrupted results)
  unfolding handle_interrupted
  interrupted-Keeps results = Keeps-if _ _ _ (Keeps-pure results) (
      Keeps-bind _ _ (pause-Keeps _)
        λ _. Keeps-bind _ _ (resumed-Keeps framed _) λ resumed. Keeps-pure _)

  emit-Extends :
      (results : List NodeActivityOutput) (w : Workflow L)
      → Extends w
      → Extends (emit_stream_events results w)
  unfolding emit_stream_events
  emit-Extends results w (more, e) = (
    more ++ (values_event w ∷ all_result_events w.step results),
    ap (λ b. b ++ (values_event w ∷ all_result_events w.step results)) e
        ∙ append_assoc buffer more (values_event w ∷ all_result_events w.step results),
  )

  run_tasks-Keeps :
      (H : Host) (graph : L.Graph) (input : WorkflowInput) (tasks : List PregelTask)
      → Keeps Extends (run_tasks H graph input tasks)
  unfolding run_tasks
  run_tasks-Keeps H graph input tasks = Keeps-bind _ _ (nodes-Keeps framed H graph tasks) λ r1.
      Keeps-bind _ _ (process_children-Keeps framed H input r1) λ r2.
        Keeps-bind _ _ (interrupted-Keeps r2) λ r3.
          Keeps-bind _ _ (push_phase-Keeps framed extract_push_sends r3)
            λ r4. push_phase-Keeps framed extract_command_gotos r4

  superstep-Keeps :
      (H : Host) (graph : L.Graph) (input : WorkflowInput) (tasks : List PregelTask)
      → Keeps Extends (superstep H graph input tasks)
  unfolding superstep advance_step
  superstep-Keeps H graph input tasks = Keeps-bind _ _ (check-Keeps _ tasks _) λ _.
      Keeps-bind _ _ (run_tasks-Keeps H graph input tasks) λ results.
        Keeps-bind _ _ (apply_results-Keeps framed graph results) λ _.
          Keeps-bind _ _ (Keeps-update_self _ (emit-Extends results)) λ _.
            Keeps-bind _ _ (check-Keeps _ tasks _)
              λ _. Keeps-bind _ _ (Keeps-update_self _ (λ w h. h)) λ _. Keeps-pure stepped

  body-Keeps :
      (H : Host) (graph : L.Graph) (input : WorkflowInput) → Keeps Extends (loop_body H graph input)
  unfolding loop_body next_tasks stop_here
  body-Keeps H graph input =
      Keeps-bind _ _
        (Keeps-bind _ _ (Keeps-asks _) λ w. Keeps-bind _ _ (Keeps-lift _) λ tasks. Keeps-pure _)
        λ tasks.
          Keeps-if _ _ _ (Keeps-bind _ _ (Keeps-update_self _ (λ w h. h)) λ _. Keeps-pure no_tasks)
            (superstep-Keeps H graph input tasks)

  after_step-Keeps : (input : WorkflowInput) (n : ℕ) → Keeps Extends (after_step {L = L} input n)
  unfolding after_step
  after_step-Keeps input n =
      Keeps-if _ _ _ (Keeps-bind _ _ (Keeps-asks _) λ next. Keeps-continue_as_new next)
        (Keeps-pure tt)

  loop-Keeps :
      (H : Host) (graph : L.Graph) (input : WorkflowInput) (fuel n : ℕ)
      → Keeps Extends (loop H fuel graph input n)
  unfolding loop run_out
  loop-Keeps H graph input zero n = record { at = λ m h. h }
  loop-Keeps H graph input (suc fuel) n = Keeps-bind _ _ (Keeps-asks _) (elim [
    | false ↦ Keeps-pure tt
    | true ↦ Keeps-bind _ _ (body-Keeps H graph input) (elim [
      | no_tasks ↦ Keeps-pure tt
      | stepped ↦
          Keeps-bind _ _ (after_step-Keeps input (n + 1)) λ _. loop-Keeps H graph input fuel (n + 1)
    ])
  ])

  input-Keeps :
      (graph : L.Graph) (d : Option (Dict Value)) → Keeps Extends (write_input {L = L} graph d)
  unfolding write_input
  input-Keeps graph none = Keeps-pure tt
  input-Keeps graph (some d) = apply_task_writes-Keeps framed _

  initialise-Keeps :
      (graph : L.Graph) (input : WorkflowInput) (r : Option RestoredState)
      → Keeps Extends (initialise graph input r)
  unfolding initialise restore reset
  initialise-Keeps graph input (some state) = Keeps-update_self _ (λ w h. h)
  initialise-Keeps graph input none =
      Keeps-bind _ _ (Keeps-update_self _ (λ w h. h)) λ _. input-Keeps graph input.input_data

  begin-Keeps : (input : WorkflowInput) → Keeps Extends (begin {L = L} input)
  unfolding begin configure discover_if_needed
  begin-Keeps input = Keeps-bind _ _ (Keeps-asks _) λ w. Keeps-bind _ _ (Keeps-lift _) λ graph.
      Keeps-bind _ _ (Keeps-update_self _ (λ w h. h)) λ _.
        Keeps-bind _ _
          (Keeps-if _ _ _
            (Keeps-exec Extends (SignalsKeep_of_IsFramed framed) _
              (discover-CoKeeps Extends framed))
            (Keeps-pure tt))
          λ _.
            Keeps-bind _ _ (initialise-Keeps graph input input.restored_state)
              λ _. Keeps-bind _ _ (Keeps-update_self _ (λ w h. h)) λ _. Keeps-pure graph

  run-Keeps : (H : Host) (input : WorkflowInput) → Keeps Extends (run H input)
  unfolding run finish
  run-Keeps H input = Keeps-bind _ _ (begin-Keeps input) λ graph.
      Keeps-bind _ _ (Keeps-asks _) λ step.
        Keeps-bind _ _ (loop-Keeps H graph input (suc (input.recursion_limit - step)) 0)
          λ _. Keeps-bind _ _ (Keeps-update_self _ (λ w h. h)) λ _. Keeps-asks _

-- A run only ever appends to the stream buffer: wherever it is when its schedule ends, and however it
-- ends, the buffer begins with all the events that were there when the run began.
pub run-Extends :
    {L : Langgraph} (H : Host) (input : WorkflowInput) (m : Machine L)
    → Extends m.self.stream_buffer (run H input m).1.self
run-Extends H input m =
    Keeps.at (run-Keeps m.self.stream_buffer H input) m ([], sym (append-nil m.self.stream_buffer))

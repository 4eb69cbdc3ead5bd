-- ===== src/Workflow/Run/Bounds.antt =====
-- The main loop: its step counter, its end, and what a run that continues as new hands over.
use Prim.Native.Nat.{max}
use langgraph_temporal.Prelude.{
  ℕ, zero, suc, ◌+◌, ◌-◌, ◌≤◌, ◌<◌, true, false, Option, none, some, List, ◌≡◌, refl, ap, ◌∙◌, ◌⊎◌,
  arith, ltb,
}
use langgraph_temporal.Prelude.Lists.{is_nil}
use langgraph_temporal.Prelude.Dict.{Dict}
use langgraph_temporal.Value.{Value}
use langgraph_temporal.Config.{WorkflowInput, WorkflowOutput, RestoredState}
use langgraph_temporal.Langgraph.{Langgraph, PregelTask}
use langgraph_temporal.Text.{Host}
use langgraph_temporal.Workflow.{
  Workflow, running, finished, get_channel_values, continue_as_new_threshold,
}
use langgraph_temporal.Workflow.Sends.{extract_push_sends, extract_command_gotos}
use langgraph_temporal.Workflow.Stream.{emit_stream_events}
use langgraph_temporal.Workflow.Start.{
  begin, discover_if_needed, initialise, write_input, restore, reset,
}
use langgraph_temporal.Workflow.Superstep.{
  Progress, no_tasks, stepped, stop_here, run_tasks, superstep, next_tasks, loop_body, advance_step,
}
use langgraph_temporal.Workflow.Run.{carried_input, after_step, finish, loop, run}
use langgraph_temporal.Workflow.Machine.{M, Machine, continue_as_new, ◌>>=◌}
use langgraph_temporal.Workflow.Machine.Keeps.{Keeps-exec, SignalsKeep}
use langgraph_temporal.Workflow.Machine.Triple.{
  Quiet-exec, Post, Triple, Triple-bind, Triple-if, Triple-pure, Triple-lift, Triple-asks,
  Triple-keeps, Triple-update_self,
}
use langgraph_temporal.Workflow.Frame.{IsFramed, SignalsKeep_of_IsFramed, discover-CoKeeps}
use langgraph_temporal.Workflow.Frame.Pieces.{apply_task_writes-Keeps}
use langgraph_temporal.Workflow.Frame.Phases.{
  Running, AtStep, AtStep-framed, apply_task_writes-Quiet, Triple-nodes, Triple-children,
  Triple-pushes, Triple-apply, Triple-check, Triple-interrupted,
}

-- A fact among the precondition's parts may be used to choose the proof.
Triple-assume {ℓ} :
    {L : Langgraph} {A : Type ℓ} (P : Workflow L → Type 0) (F : Type 0) (c : M L A)
    (Q : A → Workflow L → Type 0) (C : WorkflowInput → Type 0)
    → (F → Triple P c Q C)
    → Triple (λ w. P w × F) c Q C
Triple-assume P F c Q C k = record { at = λ m h. (k h.1).at m h.0 }

Triple-weaken {ℓ} :
    {L : Langgraph} {A : Type ℓ} {P P' : Workflow L → Type 0} {c : M L A}
    {Q : A → Workflow L → Type 0} {C : WorkflowInput → Type 0}
    → ((w : Workflow L) → P w → P' w)
    → Triple P' c Q C
    → Triple P c Q C
Triple-weaken k t = record { at = λ m h. t.at m (k m.self h) }

-- The step at which a run starts.
abbrev pub start_step : WorkflowInput → ℕ
start_step input = elim input.restored_state [ none ↦ 0 | some state ↦ state.step ]

-- What the next run's input has of this one's, `start` being the step at which this one began.
pub record IsCarried (input : WorkflowInput) (start : ℕ) (next : WorkflowInput) : Type 0 where
  pub resumes_at : start_step next ≡ start + continue_as_new_threshold
  pub within_limit : start + continue_as_new_threshold ≤ next.recursion_limit
  pub same_limit : next.recursion_limit ≡ input.recursion_limit
  pub same_graph : next.graph_definition_ref ≡ input.graph_definition_ref
  pub no_input : next.input_data ≡ none
  pub same_before : next.interrupt_before ≡ input.interrupt_before
  pub same_after : next.interrupt_after ≡ input.interrupt_after
  pub same_queues : next.node_task_queues ≡ input.node_task_queues
  pub same_options : next.node_activity_options ≡ input.node_activity_options
  pub same_policies : next.node_retry_policies ≡ input.node_retry_policies
  pub same_affinity : next.use_worker_affinity ≡ input.use_worker_affinity

-- How an iteration leaves the state that it found at step n.
abbrev After : {L : Langgraph} → ℕ → Progress → Workflow L → Type 0
After n no_tasks w = (w.step ≡ n) × (w.status ≡ finished)
After n stepped w = Running (n + 1) w

module _ {L : Langgraph} (H : Host) (graph : L.Graph) (input : WorkflowInput)
    (C : WorkflowInput → Type 0) (n : ℕ) where
  Triple-run_tasks :
      (ts : List PregelTask)
      → Triple (Running n) (run_tasks {L = L} H graph input ts) (λ _. Running n) C
  unfolding run_tasks
  Triple-run_tasks ts = Triple-bind _ _ (Triple-nodes C n H graph ts) λ r1.
      Triple-bind _ _ (Triple-children C n H input r1) λ r2.
        Triple-bind _ _ (Triple-interrupted C n r2) λ r3.
          Triple-bind _ _ (Triple-pushes C n extract_push_sends r3)
            λ r4. Triple-pushes C n extract_command_gotos r4

  Triple-superstep :
      (ts : List PregelTask) → Triple (Running n) (superstep {L = L} H graph input ts) (After n) C
  unfolding superstep advance_step emit_stream_events
  Triple-superstep ts = Triple-bind _ _ (Triple-check C n "before" ts input.interrupt_before) λ _.
      Triple-bind _ _ (Triple-run_tasks ts) λ results.
        Triple-bind _ _ (Triple-apply C n graph results) λ _.
          Triple-bind {Q = λ _. Running n} _ _ (Triple-update_self _ (λ w h. h)) λ _.
            Triple-bind _ _ (Triple-check C n "after" ts input.interrupt_after) λ _.
              Triple-bind {Q = λ _. Running (n + 1)} _ _
                (Triple-update_self _ (λ w h. (ap (λ (k : ℕ). k + 1) h.0, h.1)))
                λ _. Triple-pure stepped (λ w h. h)

  Triple-next_tasks : Triple (Running n) (next_tasks {L = L} H graph input) (λ _. Running n) C
  unfolding next_tasks
  Triple-next_tasks = Triple-bind {Q = λ _. Running n} _ _ (Triple-asks _ (λ w h. h)) λ w.
      Triple-bind {Q = λ _. Running n} _ _ (Triple-lift _ (λ a v e h. h))
        λ ts. Triple-pure _ (λ v h. h)

  Triple-stop_here : Triple (Running n) (stop_here {L = L}) (After n) C
  unfolding stop_here
  Triple-stop_here =
      Triple-bind {Q = λ _. After n no_tasks} _ _ (Triple-update_self _ (λ w h. (h.0, refl)))
        λ _. Triple-pure no_tasks (λ w h. h)

  Triple-loop_body : Triple (Running n) (loop_body {L = L} H graph input) (After n) C
  unfolding loop_body
  Triple-loop_body =
      Triple-bind _ _ Triple-next_tasks
        λ ts. Triple-if (is_nil ts) _ _ Triple-stop_here (Triple-superstep ts)

-- The end of an iteration that was the (k + 1)-st of its run.
module _ {L : Langgraph} (input : WorkflowInput) (start k : ℕ) where
  Triple-after_step :
      k + 1 ≤ continue_as_new_threshold
      → start + k < input.recursion_limit
      → Triple {L = L}
          (Running (start + k + 1))
          (after_step input (k + 1))
          (λ _ w. Running (start + (k + 1)) w × (k + 1 < continue_as_new_threshold))
          (IsCarried input start)
  unfolding after_step continue_as_new carried_input ◌>>=◌
  Triple-after_step few more = record { at = λ m h. ground arith }

-- What the loop leaves.
abbrev Looped : {L : Langgraph} → WorkflowInput → ℕ → Workflow L → Type 0
Looped input n w =
    (n ≤ w.step)
    × (w.step ≤ max n input.recursion_limit)
    × ((w.status ≡ running) ⊎ (w.status ≡ finished))

module _ {L : Langgraph} (H : Host) (graph : L.Graph) (input : WorkflowInput) (start : ℕ) where
  Triple-loop :
      (fuel k : ℕ)
      → k < continue_as_new_threshold
      → input.recursion_limit < start + k + fuel
      → 0 < fuel
      → start + k ≤ max start input.recursion_limit
      → Triple
          (Running (start + k))
          (loop {L = L} H fuel graph input k)
          (λ _. Looped input start)
          (IsCarried input start)
  unfolding loop
  Triple-loop zero k few enough some_fuel within = absurd (omega arith)
  Triple-loop (suc fuel) k few enough some_fuel within =
      Triple-bind {Q = λ b w. Running (start + k) w × (b ≡ ltb (start + k) input.recursion_limit)} _
        _ (Triple-asks _ (λ w h. (h, ap (λ (n : ℕ). ltb n input.recursion_limit) h.0)))
        (elim [
          | false ↦ Triple-pure tt (λ w h. ground arith)
          | true ↦ Triple-assume (Running (start + k)) _ _ _ _ λ more.
              Triple-bind {Q = After (start + k)} _ _ (Triple-loop_body H graph input _ (start + k))
                (elim [
                  | no_tasks ↦ Triple-pure tt (λ w h. ground arith)
                  | stepped ↦
                      Triple-bind _ _ (Triple-after_step input start k (omega arith) (ground arith))
                        λ _. Triple-assume (Running (start + (k + 1))) _ _ _ _ λ below.
                          Triple-loop fuel (k + 1) below (omega arith) (ground arith) (ground arith)
                ])
        ])

-- Before the loop.
module _ {L : Langgraph} (input : WorkflowInput) (C : WorkflowInput → Type 0) where
  Triple-write_input :
      (graph : L.Graph) (d : Option (Dict Value))
      → Triple (AtStep 0) (write_input {L = L} graph d) (λ _. AtStep 0) C
  unfolding write_input
  Triple-write_input graph none = Triple-pure tt (λ w h. h)
  Triple-write_input graph (some d) =
      Triple-keeps _ (apply_task_writes-Keeps (AtStep-framed 0) _) (apply_task_writes-Quiet _)
        (λ _ _ h. h)

  Triple-initialise :
      (graph : L.Graph) (r : Option RestoredState)
      → Triple
          (λ _. Unit {0})
          (initialise {L = L} graph input r)
          (λ _. AtStep (elim r [ none ↦ 0 | some state ↦ state.step ]))
          C
  unfolding initialise restore reset
  Triple-initialise graph none =
      Triple-bind {Q = λ _. AtStep 0} _ _ (Triple-update_self _ (λ w h. refl))
        λ _. Triple-write_input graph input.input_data
  Triple-initialise graph (some state) = Triple-update_self _ (λ w h. refl)

  Triple-discover : Triple {L = L} (λ _. Unit {0}) (discover_if_needed input) (λ _ _. Unit {0}) C
  unfolding discover_if_needed
  Triple-discover =
      Triple-if _ _ _
        (Triple-keeps _ (Keeps-exec _ anything-signals _ (discover-CoKeeps _ anything))
          (Quiet-exec _) (λ _ _ _. tt))
        (Triple-pure tt (λ _ _. tt))
    where
      anything : IsFramed {L = L} (λ _. Unit {0})
      anything = record {
        sticky = λ _ _ _. tt;
        graphs = λ _ _ _ _. tt;
        state = λ _ _ _ _. tt;
        resuming = λ _ _ _ _. tt;
      }

      anything-signals : SignalsKeep {L = L} (λ _. Unit {0})
      anything-signals = SignalsKeep_of_IsFramed anything

  Triple-begin : Triple {L = L} (λ _. Unit {0}) (begin input) (λ _. Running (start_step input)) C
  unfolding begin
  Triple-begin = Triple-bind {Q = λ _ _. Unit {0}} _ _ (Triple-asks _ (λ _ _. tt)) λ w.
      Triple-bind {Q = λ _ _. Unit {0}} _ _ (Triple-lift _ (λ _ _ _ _. tt)) λ graph.
        Triple-bind {Q = λ _ _. Unit {0}} _ _ (Triple-update_self _ (λ _ _. tt)) λ _.
          Triple-bind _ _ Triple-discover λ _.
            Triple-bind _ _ (Triple-initialise graph input.restored_state) λ _.
              Triple-bind {Q = λ _. Running (start_step input)} _ _
                (Triple-update_self _ (λ w h. (h, refl))) λ _. Triple-pure graph (λ w h. h)

-- What `run` returns: the final state's values and step.
abbrev pub Returned : {L : Langgraph} → WorkflowInput → WorkflowOutput → Workflow L → Type 0
Returned {L} input o w =
    (o.step ≡ w.step)
    × (o.channel_values ≡ get_channel_values L w.channels)
    × (w.status ≡ finished)
    × (start_step input ≤ w.step)
    × (w.step ≤ max (start_step input) input.recursion_limit)

module _ {L : Langgraph} (H : Host) (input : WorkflowInput) where
  Triple-finish :
      (C : WorkflowInput → Type 0)
      → Triple (Looped {L = L} input (start_step input)) finish (Returned input) C
  unfolding finish ◌>>=◌
  Triple-finish C = record { at = λ m h. ground arith }

  Triple-run :
      Triple {L = L}
        (λ _. Unit {0})
        (run H input)
        (Returned input)
        (IsCarried input (start_step input))
  unfolding run
  Triple-run = Triple-bind _ _ (Triple-begin input _) λ graph.
      Triple-bind {Q = λ s w. Running (start_step input) w × (s ≡ start_step input)} _ _
        (Triple-asks _ (λ w h. (h, h.0)))
        λ s. Triple-assume (Running (start_step input)) _ _ _ _ λ e.
          Triple-bind _ _
            (Triple-weaken (λ w h. (h.0 ∙ omega arith, h.1))
              (Triple-loop H graph input (start_step input) (suc (input.recursion_limit - s)) 0
                (omega arith) (omega arith) (omega arith) (omega arith)))
            λ _. Triple-finish _

  -- A run never runs out of the fuel of its loop. When it ends, its output is the state's values
  -- and step, its status is "done", and the step lies between the step at which it started and the
  -- larger of that and the recursion limit. When it continues as new, it does so after exactly 500
  -- steps, within the limit, and the new run has the same graph, limit, interrupts and per-node
  -- settings, no input data, and starts at the step reached.
  pub run_lem :
      (m : Machine L)
      → let (o, m') = run H input m in
        Post (Returned input) (IsCarried input (start_step input)) o m'.self
  run_lem m = Triple-run.at m tt

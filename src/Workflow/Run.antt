-- ===== src/Workflow/Run.antt =====
-- `run`: the main loop, and what comes before and after it.
pub mod Bounds
pub mod Buffer
pub mod Begins
pub mod Rounds
pub mod Iterations
pub mod Continued
use langgraph_temporal.Prelude.{
  ℕ, zero, suc, ◌+◌, ◌-◌, true, false, none, some, if◌then◌else◌, ltb, leb,
}
use langgraph_temporal.Config.{WorkflowInput, WorkflowOutput}
use langgraph_temporal.Langgraph.{Langgraph}
use langgraph_temporal.Text.{Host}
use langgraph_temporal.Workflow.{
  Workflow, running, finished, get_channel_values, continue_as_new_threshold,
}
use langgraph_temporal.Workflow.Machine.{
  M, run_out, pure, continue_as_new, asks, update_self, ◌>>=◌, ◌>>◌,
}
use langgraph_temporal.Workflow.Start.{begin}
use langgraph_temporal.Workflow.Superstep.{no_tasks, stepped, loop_body}

module _ {L : Langgraph} where
  -- The input of the next run.
  unfoldable pub carried_input : WorkflowInput → Workflow L → WorkflowInput
  carried_input input w = record {
    graph_definition_ref = input.graph_definition_ref;
    input_data = none;
    recursion_limit = input.recursion_limit;
    interrupt_before = input.interrupt_before;
    interrupt_after = input.interrupt_after;
    restored_state = some (record {
      checkpoint = L.create_checkpoint w.checkpoint w.channels w.step;
      step = w.step;
      sticky_task_queue = w.sticky_task_queue;
    });
    node_task_queues = input.node_task_queues;
    node_activity_options = input.node_activity_options;
    node_retry_policies = input.node_retry_policies;
    sticky_task_queue = w.sticky_task_queue;
    use_worker_affinity = input.use_worker_affinity;
    subagent_config = w.subagent_config;
  }

  -- The end of an iteration: continue as new after the threshold's number of steps.
  unfoldable pub after_step : WorkflowInput → ℕ → M L (Unit {0})
  unfolding carried_input
  after_step input steps_in_this_run =
      if leb continue_as_new_threshold steps_in_this_run
      then (do next ← asks (carried_input input); continue_as_new next)
      else pure tt

  -- What `run` returns.
  unfoldable pub finish : M L WorkflowOutput
  finish = do
    update_self (λ w. record w { status = elim w.status [ running ↦ finished | other ↦ other ] })
    asks (λ w. record { channel_values = get_channel_values L w.channels; step = w.step })

module _ {L : Langgraph} (H : Host) where
  -- `while self.step < max_steps`, on fuel, with the number of steps of this run.
  unfoldable pub loop : ℕ → L.Graph → WorkflowInput → ℕ → M L (Unit {0})
  unfolding loop_body after_step
  loop zero graph input steps = run_out
  loop (suc fuel) graph input steps = asks (λ w. ltb w.step input.recursion_limit) >>= elim [
    | false ↦ pure tt
    | true ↦ loop_body H graph input >>= elim [
      | no_tasks ↦ pure tt
      | stepped ↦ after_step input (steps + 1) >> loop fuel graph input (steps + 1)
    ]
  ]

  -- The loop makes at most `recursion_limit - step` rounds and one more test.
  unfoldable pub run : WorkflowInput → M L WorkflowOutput
  unfolding begin loop finish
  run input = do
    graph ← begin input
    step ← asks (λ w. w.step)
    loop (suc (input.recursion_limit - step)) graph input 0
    finish

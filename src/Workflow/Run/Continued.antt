-- ===== src/Workflow/Run/Continued.antt =====
-- Continue-as-new: what `run` carries over, and what the new run makes of what arrives.
use langgraph_temporal.Prelude.{
  [], false, not, some, ◌&&◌, ◌≡◌, refl, ap, ◌∙◌, or_default, append-nil, List,
}
use langgraph_temporal.Prelude.Result.{Result, ok}
use langgraph_temporal.Config.{WorkflowInput, RestoredState}
use langgraph_temporal.Config.Conveyed.{Conveys}
use langgraph_temporal.Langgraph.{Langgraph}
use langgraph_temporal.Text.{truthy_text}
use langgraph_temporal.Registry.{lookup}
use langgraph_temporal.Coroutine.{Request}
use langgraph_temporal.Workflow.{Workflow, running}
use langgraph_temporal.Workflow.Machine.{Machine, ended}
use langgraph_temporal.Workflow.Machine.Runs.{machine}
use langgraph_temporal.Workflow.Start.{begin, configure, restore}
use langgraph_temporal.Workflow.Run.{carried_input}
use langgraph_temporal.Workflow.Run.Begins.{begins, known, restored, begin-Runs}

module _ {L : Langgraph} where
  -- The state in which a run with this input begins, if it restores this state.
  abbrev pub continued : WorkflowInput → L.Graph → RestoredState → Workflow L → Workflow L
  continued input graph s v = record (restore graph s (configure input graph v)) {
    status = running;
  }

  begin-restored :
      (input : WorkflowInput) (graph : L.Graph) (s : RestoredState) (m : Machine L)
      → input.restored_state ≡ some s
      → lookup input.graph_definition_ref m.self.registry ≡ ok graph
      → (input.use_worker_affinity && not (truthy_text input.sticky_task_queue)) ≡ false
      → begin input m ≡ (ended graph, record m { self = continued input graph s m.self })
  begin-restored input graph s m restores found pinned =
      (begin-Runs input (begins found (known pinned) (restored restores))).at m.schedule m.issued
      ∙ ap
          (λ (rs : List Request).
            (ended graph, machine (continued input graph s m.self) m.schedule rs))
          (append-nil m.issued)

  -- A run that is continued as new goes on where the old one (w) was, if Temporal's data converter takes
  -- its input and keeps texts, numbers and the like: if langgraph gives the channels back from what
  -- arrives of the checkpoint made of them, the graph is registered in the new process, and with
  -- worker affinity the old run had a worker's queue, then the new run begins with the old one's
  -- channels, step, queue and sub-agent settings, with the task queues, retry policies and affinity of
  -- the old run's input, with the activity options that arrive, and without asking the server for
  -- anything.
  pub begin-carried_input :
      (convey : WorkflowInput → Result WorkflowInput) (input received : WorkflowInput)
      (graph : L.Graph) (w : Workflow L) (m : Machine L)
      → Conveys convey
      → convey (carried_input input w) ≡ ok received
      → ((s : RestoredState)
          → received.restored_state ≡ some s
          → L.channels_from_checkpoint (L.graph_channels graph) s.checkpoint ≡ w.channels)
      → lookup input.graph_definition_ref m.self.registry ≡ ok graph
      → (input.use_worker_affinity && not (truthy_text w.sticky_task_queue)) ≡ false
      → let (o, m') = begin received m in
        (o ≡ ended graph)
        × (m'.self.channels ≡ w.channels)
        × (m'.self.step ≡ w.step)
        × (m'.self.sticky_task_queue ≡ w.sticky_task_queue)
        × (m'.self.subagent_config ≡ w.subagent_config)
        × (m'.self.node_task_queues ≡ or_default input.node_task_queues [])
        × (m'.self.node_retry_policies ≡ or_default input.node_retry_policies [])
        × (m'.self.use_worker_affinity ≡ input.use_worker_affinity)
        × (m'.self.node_activity_options ≡ or_default received.node_activity_options [])
        × (m'.issued ≡ m.issued)
        × (m'.schedule ≡ m.schedule)
  unfolding configure carried_input restore
  begin-carried_input convey input received graph w m laws arrives law found pinned =
      let kept = laws (carried_input input w) received arrives in
      let (cp, restores) = kept.restored _ refl in
      let begun =
        begin-restored received graph _ m restores
          (ap (λ r. lookup r m.self.registry) kept.graph_ref ∙ found)
          (ap (λ b. b && not (truthy_text received.sticky_task_queue)) kept.affinity
            ∙ ap (λ q. input.use_worker_affinity && not (truthy_text q)) kept.sticky
            ∙ pinned) in
      (
        ap (λ p. p.0) begun,
        ap (λ p. p.1.self.channels) begun ∙ law _ restores,
        ap (λ p. p.1.self.step) begun,
        ap (λ p. p.1.self.sticky_task_queue) begun ∙ kept.sticky,
        ap (λ p. p.1.self.subagent_config) begun ∙ kept.subagent,
        ap (λ p. p.1.self.node_task_queues) begun ∙ ap (λ q. or_default q []) kept.queues,
        ap (λ p. p.1.self.node_retry_policies) begun ∙ ap (λ q. or_default q []) kept.policies,
        ap (λ p. p.1.self.use_worker_affinity) begun ∙ kept.affinity,
        ap (λ p. p.1.self.node_activity_options) begun,
        ap (λ p. p.1.issued) begun,
        ap (λ p. p.1.schedule) begun,
      )

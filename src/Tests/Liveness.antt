-- ===== src/Tests/Liveness.antt =====
-- The end of a superstep's tasks, at a concrete schedule.
use langgraph_temporal.Prelude.{none, some, true, ◌≡◌, refl, arith, List, [], ◌∷◌}
use langgraph_temporal.Prelude.Dict
use langgraph_temporal.Value.{num, str}
use langgraph_temporal.Config.{WorkflowInput, default_input, name}
use langgraph_temporal.Registry.{lookup}
use langgraph_temporal.Tests.Arrivals.{without_timeouts, without_timeouts-Conveys}
use langgraph_temporal.Prelude.{ap, sym}
use langgraph_temporal.Config.{RestoredState}
use mathlib.Core.Option.{some-injective}
use langgraph_temporal.Langgraph.{PregelTask}
use langgraph_temporal.Coroutine.{node_output}
use langgraph_temporal.Workflow.Nodes.{execute_nodes, is_subgraph_node, subgraph_of}
use langgraph_temporal.Workflow.Nodes.Liveness.{execute_nodes-ends}
use langgraph_temporal.Workflow.Machine.{Machine, complete, resume, wake, ended}
use langgraph_temporal.Workflow.{Workflow, new_workflow}
use langgraph_temporal.Workflow.Start.{begin}
use langgraph_temporal.Workflow.Run.{carried_input}
use langgraph_temporal.Workflow.Run.Continued.{begin-carried_input}
use langgraph_temporal.Tests.Toy.{toy, host, fresh, pinned, output_of}

abbrev two_tasks : List PregelTask
two_tasks =
    record { name = "b"; path = name "b" ∷ [] } ∷ record { name = "a"; path = name "a" ∷ [] } ∷ []

-- The second request ends first, and a resume signal comes between.
abbrev out_of_order : Machine toy
out_of_order = record {
  self = pinned;
  schedule =
      complete 1 (node_output (output_of "b" "y"))
      ∷ wake
      ∷ resume (num 1)
      ∷ complete 0 (node_output (output_of "a" "x"))
      ∷ [];
  issued = [];
}

execute_nodes-ends_example :
    (execute_nodes {L = toy} host 0 two_tasks out_of_order).0
    ≡ ended (output_of "a" "x" ∷ output_of "b" "y" ∷ [])
unfolding is_subgraph_node subgraph_of Dict.get
execute_nodes-ends_example =
    execute_nodes-ends {L = toy} host 0 two_tasks (output_of "a" "x" ∷ output_of "b" "y" ∷ [])
      out_of_order refl refl (refl, (refl, tt)) (λ i h. ground (arith, h))

-- ------------------------------------------------------------------ a continued run

abbrev next_process : Machine toy
next_process = record { self = fresh; schedule = wake ∷ []; issued = [] }

-- A run with channel values that has reached step 500, continued in a new process.
abbrev long_run : Workflow toy
long_run = record fresh {
  channels = ("x", some (str "a")) ∷ ("y", none) ∷ [];
  step = 500;
  sticky_task_queue = some "w1";
}

abbrev long_input : WorkflowInput
long_input = record (default_input "ref0") { recursion_limit = 1000; use_worker_affinity = true }

begin-carried_input_example :
    let (o, m') = begin {L = toy} (carried_input {L = toy} long_input long_run) next_process in
    (o ≡ ended 0)
    × (m'.self.channels ≡ ("x", some (str "a")) ∷ ("y", none) ∷ [])
    × (m'.self.step ≡ 500)
    × (m'.self.sticky_task_queue ≡ some "w1")
    × (m'.self.subagent_config ≡ none)
    × (m'.self.node_task_queues ≡ [])
    × (m'.self.node_retry_policies ≡ [])
    × (m'.self.use_worker_affinity ≡ true)
    × (m'.self.node_activity_options ≡ [])
    × (m'.issued ≡ [])
    × (m'.schedule ≡ wake ∷ [])
unfolding Dict.get lookup new_workflow carried_input
begin-carried_input_example =
    begin-carried_input {L = toy} without_timeouts long_input
      (carried_input {L = toy} long_input long_run) 0 long_run next_process without_timeouts-Conveys
      refl
      (λ s e.
        ap (λ (s : RestoredState). toy.channels_from_checkpoint (toy.graph_channels 0) s.checkpoint)
          (some-injective s _ (sym e)))
      refl refl

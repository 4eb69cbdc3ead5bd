-- ===== src/Graph/Settings.antt =====
-- From the client's settings to the workflow: `_build_workflow_input` and what `run` makes of it.
use langgraph_temporal.Prelude.{
  String, zero, ◌==◌, ◌≡◌, refl, arith, false, Option, none, some, List, [], ◌∷◌,
}
use langgraph_temporal.Prelude.Lists.{any}
use langgraph_temporal.Prelude.Dict
use langgraph_temporal.Prelude.Dict.{Dict}
use langgraph_temporal.Value.{Value}
use langgraph_temporal.Config.{every_node, InterruptNodes}
use langgraph_temporal.Langgraph.{Langgraph, PregelTask}
use langgraph_temporal.Workflow.{Workflow}
use langgraph_temporal.Prelude.Result.{Result}
use langgraph_temporal.Coroutine.{queue_name}
use langgraph_temporal.Workflow.Machine.{Event, complete}
use langgraph_temporal.Workflow.Run.Begins.{Begins}
use langgraph_temporal.Workflow.Interrupts.{interrupt_here, should_interrupt_nodes, elem}
use langgraph_temporal.Graph.{
  TemporalGraph, RunConfig, build_workflow_input, choose_interrupts, list_of_nodes,
}

no_star :
    (tasks : List PregelTask)
    → any (λ t. t.name == "*") tasks ≡ false
    → any (λ t. elem t.name ("*" ∷ [])) tasks ≡ false
no_star [] h = refl
no_star (t ∷ ts) h = ground (arith, no_star ts)

-- A graph that was compiled to interrupt before every node runs without these interrupts, if the
-- caller names none and no node is called "*": the workflow gets the list of the one name "*".
pub star-lost :
    (g : TemporalGraph) (input : Value) (config : RunConfig) (after : Option InterruptNodes)
    (tasks : List PregelTask)
    → g.graph.interrupt_before_nodes ≡ every_node
    → any (λ t. t.name == "*") tasks ≡ false
    → interrupt_here tasks (build_workflow_input g input config none after).interrupt_before ≡ false
unfolding build_workflow_input choose_interrupts list_of_nodes interrupt_here should_interrupt_nodes
star-lost g input config after tasks star names = ground (arith, star, no_star tasks names)

-- The queue that a discovery names as the first event.
abbrev pub named : List Event → Option String
named (complete zero (queue_name q) ∷ es) = some q
named _ = none

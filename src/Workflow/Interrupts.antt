-- ===== src/Workflow/Interrupts.antt =====
-- Interrupts before and after nodes, and the handling of nodes that called `interrupt()`.
pub mod Laws
pub mod Rerun
pub mod Reran
pub mod Lost
pub mod Pauses
use langgraph_temporal.Prelude.{
  String, ◌==◌, Bool, true, false, not, ◌||◌, Option, none, some, List, [], ◌∷◌, ◌++◌, map,
  or_default, if◌then◌else◌,
}
use langgraph_temporal.Prelude.Lists.{is_nil, any, select}
use langgraph_temporal.Prelude.Dict.{Dict}
use langgraph_temporal.Value.{Value, str}
use langgraph_temporal.Config.{InterruptNodes, every_node, these_nodes, NodeActivityOutput}
use langgraph_temporal.Langgraph.{Langgraph, PregelTask}
use langgraph_temporal.Workflow.{Workflow, interrupted}
use langgraph_temporal.Workflow.Machine.{M, pure, update_self, wait_for_resume, ◌>>=◌, ◌>>◌}
use langgraph_temporal.Workflow.Nodes.{execute_resumed_nodes}

-- `name in names`
abbrev pub elem : String → List String → Bool
elem x names = any (λ y. x == y) names

-- `_should_interrupt_nodes`
unfoldable pub should_interrupt_nodes : List PregelTask → InterruptNodes → Bool
should_interrupt_nodes tasks every_node = true
should_interrupt_nodes tasks (these_nodes names) = any (λ t. elem t.name names) tasks

-- `configured and self._should_interrupt_nodes(tasks, configured)`; an empty list is false.
unfoldable pub interrupt_here : List PregelTask → Option InterruptNodes → Bool
unfolding should_interrupt_nodes
interrupt_here tasks none = false
interrupt_here tasks (some nodes) = should_interrupt_nodes tasks nodes

-- [{"node": t.name, "type": kind} for t in tasks]
unfoldable pub interrupt_entries : String → List PregelTask → List (Dict Value)
interrupt_entries kind tasks = map (λ t. ("node", str t.name) ∷ ("type", str kind) ∷ []) tasks

-- `r.interrupts`, as a test.
unfoldable pub is_interrupted : NodeActivityOutput → Bool
is_interrupted r = not (is_nil (or_default r.interrupts []))

unfoldable pub all_interrupts : List NodeActivityOutput → List (Dict Value)
all_interrupts [] = []
all_interrupts (r ∷ rs) = or_default r.interrupts [] ++ all_interrupts rs

module _ {L : Langgraph} where
  -- Records the interrupts and waits for a resume signal.
  unfoldable pub pause : List (Dict Value) → M L (Unit {0})
  pause entries = do
    update_self (λ w. record w { status = interrupted; interrupts = entries })
    wait_for_resume

  -- The check before, or after, the nodes of a superstep.
  unfoldable pub interrupt_check : String → List PregelTask → Option InterruptNodes → M L (Unit {0})
  unfolding pause interrupt_here
  interrupt_check kind tasks nodes =
      if interrupt_here tasks nodes then pause (interrupt_entries kind tasks) else pure tt

  -- Interrupted nodes are run again once, after a resume; the other results stay as they are, and
  -- come first.
  unfoldable pub handle_interrupted : List NodeActivityOutput → M L (List NodeActivityOutput)
  unfolding pause is_interrupted
  handle_interrupted results =
      let stopped = select is_interrupted results in
      if is_nil stopped then pure results else do
        pause (all_interrupts stopped)
        resumed ← execute_resumed_nodes stopped
        pure (select (λ r. not (is_interrupted r)) results ++ resumed)

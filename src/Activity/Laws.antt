-- ===== src/Activity/Laws.antt =====
-- `_execute_node_impl`, and what the workflow does with its results.
use langgraph_temporal.Prelude.{
  ℕ, String, ◌==◌, eq_iff, if◌then◌else◌, or_default, ◌≡◌, refl, arith, Bool, true, false, not,
  none, some, Option, List, [], ◌∷◌, Bool-cases, inl, inr, ap,
}
use langgraph_temporal.Prelude.Lists.{is_nil, any}
use langgraph_temporal.Prelude.Dict
use langgraph_temporal.Prelude.Dict.{Dict}
use langgraph_temporal.Prelude.Result.{Exn, Result, ok}
use langgraph_temporal.Value.{Value, null}
use langgraph_temporal.Text.{Host}
use langgraph_temporal.Workflow.Machine.{Machine, ended, pure}
use langgraph_temporal.Workflow.Children.{process_result}
use langgraph_temporal.Config.{NodeActivityInput, NodeActivityOutput, Write, WorkflowInput}
use langgraph_temporal.Langgraph.{Langgraph}
use langgraph_temporal.Registry.{Registry, lookup}
use langgraph_temporal.Activity.{Interrupt, Collected, returned, interrupted}
use langgraph_temporal.Activity.Node.{
  ActivityGraph, ActivityNode, RetryPolicy, output, execute_node_impl, end_of, play_node,
  interrupted_output, finished_output, filter_untracked_writes, get_node_retry_policy, NodeResult,
  command, plain_result, command_data,
}
use langgraph_temporal.Workflow.Interrupts.{is_interrupted}
use langgraph_temporal.Workflow.Sends.{extract_push_sends, extract_command_gotos, command_gotos}
use langgraph_temporal.Workflow.Superstep.{task_writes}
use langgraph_temporal.Workflow.Stream.{all_result_events, result_events, updates_event}

-- No write goes to an untracked channel.
abbrev pub tracked : ActivityGraph → List Write → Bool
tracked graph ws = not (any (λ (c, v). graph.is_untracked c) ws)

filter-tracked :
    (graph : ActivityGraph) (ws : List Write)
    → tracked graph (filter_untracked_writes graph ws) ≡ true
unfolding filter_untracked_writes
filter-tracked graph [] = refl
filter-tracked graph ((c, v) ∷ ws) = ground (arith, filter-tracked graph ws)

-- The values written to a channel, in order.
abbrev pub written_to : String → List Write → List Value
written_to k [] = []
written_to k ((c, v) ∷ ws) = let rest = written_to k ws in if c == k then v ∷ rest else rest

filter-keeps :
    (graph : ActivityGraph) (k : String) (ws : List Write)
    → graph.is_untracked k ≡ false
    → written_to k (filter_untracked_writes graph ws) ≡ written_to k ws
unfolding filter_untracked_writes
filter-keeps graph k [] h = refl
filter-keeps graph k ((c, v) ∷ ws) h = elim (Bool-cases (c == k)) [
  | inl same ↦
      ground
        (arith, filter-keeps graph k ws h, same, h, ap graph.is_untracked ((eq_iff c k).0 same))
  | inr other ↦ ground (arith, filter-keeps graph k ws h, other)
]

-- The update of a command that a node returns, if it has one.
abbrev pub command_update : NodeResult → Option Value
command_update (command goto update graph) = some (or_default update null)
command_update (plain_result v) = none

command_data-update :
    (result : NodeResult)
    → (elim (command_data result) [ none ↦ none | some fields ↦ Dict.get fields "update" ])
      ≡ command_update result
unfolding command_data Dict.get
command_data-update (command goto update graph) = refl
command_data-update (plain_result v) = refl

-- An activity whose node and writers finish puts out, of the writes that they made, just those to
-- tracked channels: none to an untracked channel, and for each tracked channel its writes in order. This
-- is about the writes alone: the update of a `Command` that the node returns is part of the
-- output as it is, whichever channels it names.
pub execute_node_impl-tracked :
    (r : Registry ActivityGraph) (graph : ActivityGraph) (node : ActivityNode)
    (input : NodeActivityInput) (result : NodeResult) (c : Collected) (k : String)
    → lookup input.graph_definition_ref r ≡ ok graph
    → Dict.get graph.nodes input.node_name ≡ some node
    → play_node node input ≡ (returned result, c)
    → graph.is_untracked k ≡ false
    → (o : NodeActivityOutput) × (execute_node_impl r input ≡ output o)
      × (tracked graph o.writes ≡ true)
      × (written_to k o.writes ≡ written_to k c.all_writes)
      × (elim o.command [ none ↦ none | some fields ↦ Dict.get fields "update" ]
          ≡ command_update result)
unfolding execute_node_impl end_of finished_output
execute_node_impl-tracked r graph node input result c k found known played is_tracked = (
  finished_output graph input result c,
  ground (arith, found, known, played),
  filter-tracked graph c.all_writes,
  filter-keeps graph k c.all_writes is_tracked,
  command_data-update result,
)

-- Where the policy's predicate says no.
abbrev pub Refused : ActivityGraph → NodeActivityInput → Exn → Type 0
Refused graph input e =
    (policy : RetryPolicy) × (retry_on : Exn → Result Bool) × (get_node_retry_policy graph
        input.node_name
      ≡ some policy)
    × (policy.retry_on ≡ some retry_on)
    × (retry_on e ≡ ok false)

module _ (L : Langgraph) where
  -- A node that raised `GraphInterrupt` has no effect on the superstep besides the interrupt: its
  -- output is seen as interrupted just if the exception carried an interrupt, and adds no writes, no
  -- sub-agents, no sends, no routed tasks and no stream events, whatever the node had sent before.
  pub execute_node_impl-interrupted :
      (r : Registry ActivityGraph) (input : NodeActivityInput) (graph : ActivityGraph)
      (node : ActivityNode) (is : List Interrupt) (c : Collected) (g : L.Graph)
      (rs : List NodeActivityOutput) (step : ℕ) (H : Host) (wf_input : WorkflowInput)
      → lookup input.graph_definition_ref r ≡ ok graph
      → Dict.get graph.nodes input.node_name ≡ some node
      → play_node node input ≡ (interrupted is, c)
      → (o : NodeActivityOutput) × (execute_node_impl r input ≡ output o)
        × (is_interrupted o ≡ not (is_nil is))
        × (task_writes L g (o ∷ rs) ≡ task_writes L g rs)
        × ((m : Machine L) → process_result H wf_input o m ≡ (ended o, m))
        × (extract_push_sends (o ∷ rs) ≡ extract_push_sends rs)
        × (extract_command_gotos (o ∷ rs) ≡ extract_command_gotos rs)
        × (all_result_events step (o ∷ rs) ≡ all_result_events step rs)
  unfolding execute_node_impl end_of interrupted_output is_interrupted task_writes
      extract_push_sends extract_command_gotos command_gotos all_result_events result_events
      updates_event process_result pure
  execute_node_impl-interrupted r input graph node [] c g rs step H wf_input found known played = (
    interrupted_output input [],
    ground (arith, found, known, played),
    refl,
    refl,
    (λ m. refl),
    refl,
    refl,
    refl,
  )
  execute_node_impl-interrupted r input graph node (i ∷ is) c g rs step H wf_input found known
        played =
      (
        interrupted_output input (i ∷ is),
        ground (arith, found, known, played),
        refl,
        refl,
        (λ m. refl),
        refl,
        refl,
        refl,
      )

-- ===== src/Workflow/Routing/Laws.antt =====
-- The precedence of task queues and the fallbacks of the per-node settings.
use langgraph_temporal.Prelude.{String, ◌≡◌, none, some, arith, or_default, if◌then◌else◌}
use langgraph_temporal.Prelude.Dict
use langgraph_temporal.Config.{default_options, NodeActivityInput}
use langgraph_temporal.Langgraph.{Langgraph}
use langgraph_temporal.Text.{truthy_text}
use langgraph_temporal.Workflow.{Workflow}
use langgraph_temporal.Workflow.Routing.{
  task_queue_for_node, activity_options_for_node, retry_policy_for_node, to_temporal_retry_policy,
  activity_call,
}

module _ {L : Langgraph} (w : Workflow L) where
  -- A node's call goes to the sticky queue if that is set and not empty, and otherwise to the
  -- queue that the node has in `node_task_queues`, if any; its timeouts are those of its entry in
  -- `node_activity_options`, or the defaults; and it has a retry policy just if
  -- `node_retry_policies` has an entry for it, which is that entry converted.
  pub activity_call_settings :
      (input : NodeActivityInput) (node : String)
      → let call = activity_call w input node in
        let opts = or_default (Dict.get w.node_activity_options node) default_options in
        (call.task_queue ≡ (
          if truthy_text w.sticky_task_queue
          then w.sticky_task_queue
          else Dict.get w.node_task_queues node))
        × (call.start_to_close_timeout ≡ opts.start_to_close_timeout)
        × (call.heartbeat_timeout ≡ opts.heartbeat_timeout)
        × (call.schedule_to_close_timeout ≡ opts.schedule_to_close_timeout)
        × (call.retry_policy ≡ elim (Dict.get w.node_retry_policies node) [
          | none ↦ none
          | some config ↦ some (to_temporal_retry_policy config)
        ])
  unfolding activity_call task_queue_for_node activity_options_for_node retry_policy_for_node
      Dict.get
  activity_call_settings input node =
      (ground arith, ground arith, ground arith, ground arith, ground arith)

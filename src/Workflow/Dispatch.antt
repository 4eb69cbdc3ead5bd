-- ===== src/Workflow/Dispatch.antt =====
-- `_dispatch_activity`, `_rediscover_worker` and `_execute_single_activity`.
pub mod Fallback
pub mod Race
use langgraph_temporal.Prelude.{String, ◌<>◌, Option, none, some, ◌&&◌, if◌then◌else◌}
use langgraph_temporal.Prelude.Result.{activity_error, type_error, runtime_error}
use langgraph_temporal.Config.{NodeActivityInput, NodeActivityOutput, seconds}
use langgraph_temporal.Langgraph.{Langgraph}
use langgraph_temporal.Text.{truthy_text}
use langgraph_temporal.Coroutine.{
  Co, done, raise, gets, modify, await, ◌>>=◌, ◌>>◌, Reply, node_output, activity_failed,
  queue_name, child_output, child_failed, run_activity, run_discovery,
}
use langgraph_temporal.Workflow.{Workflow}
use langgraph_temporal.Workflow.Routing.{activity_call}

module _ {L : Langgraph} where
  -- `except ActivityError`: None if worker affinity is on and a sticky queue is set at that
  -- moment, and the error otherwise. A result of another type does not decode.
  unfoldable pub dispatch_reply : Reply → Co (Workflow L) (Option NodeActivityOutput)
  dispatch_reply (node_output o) = done (some o)
  dispatch_reply (activity_failed m) = gets λ w.
      if w.use_worker_affinity && truthy_text w.sticky_task_queue
      then done none
      else raise (activity_error m)
  dispatch_reply _ = raise (type_error "NodeActivityOutput")

  unfoldable pub dispatch_activity :
      NodeActivityInput → String → Co (Workflow L) (Option NodeActivityOutput)
  unfolding dispatch_reply
  dispatch_activity input node =
      gets λ w. await (run_activity (activity_call w input node)) dispatch_reply

  unfoldable pub discovery_reply : Reply → Co (Workflow L) (Unit {0})
  discovery_reply (queue_name q) = modify (λ w. record w { sticky_task_queue = some q }) (done tt)
  discovery_reply (activity_failed m) = raise (activity_error m)
  discovery_reply _ = raise (type_error "str")

  -- `execute_activity(get_available_task_queue)`, its result stored as the sticky queue.
  unfoldable pub discover_worker : Co (Workflow L) (Unit {0})
  unfolding discovery_reply
  discover_worker = await (run_discovery (seconds 10)) discovery_reply

  unfoldable pub rediscover_worker : Co (Workflow L) (Unit {0})
  unfolding discover_worker
  rediscover_worker = modify (λ w. record w { sticky_task_queue = none }) discover_worker

  -- The result of the second attempt.
  unfoldable pub second_result :
      String → Option NodeActivityOutput → Co (Workflow L) NodeActivityOutput
  second_result node none =
      raise (runtime_error ("Activity '" <> node <> "' failed after worker re-discovery"))
  second_result node (some o) = done o

  -- The result of the first attempt, or the fallback.
  unfoldable pub first_result :
      NodeActivityInput → String → Option NodeActivityOutput → Co (Workflow L) NodeActivityOutput
  unfolding rediscover_worker second_result dispatch_activity
  first_result input node none = do
    rediscover_worker
    result ← dispatch_activity input node
    second_result node result
  first_result input node (some o) = done o

  unfoldable pub execute_single_activity :
      NodeActivityInput → String → Co (Workflow L) NodeActivityOutput
  unfolding dispatch_activity first_result
  execute_single_activity input node = dispatch_activity input node >>= first_result input node

-- ===== src/Workflow/Dispatch/Fallback.antt =====
-- What one activity does, run by itself, for every sequence of replies.
use langgraph_temporal.Prelude.{String, ◌<>◌, ◌≡◌, ◌≤◌, ◌&&◌, Bool, false, List, [], ◌∷◌, arith}
use langgraph_temporal.Prelude.Lists.{length}
use langgraph_temporal.Prelude.Result.{activity_error, runtime_error, type_error}
use langgraph_temporal.Config.{NodeActivityInput, NodeActivityOutput}
use langgraph_temporal.Langgraph.{Langgraph}
use langgraph_temporal.Text.{truthy_text}
use langgraph_temporal.Coroutine.{
  Reply, Slot, node_output, activity_failed, returned, failed, solo, requests, run_activity, ◌>>=◌,
}
use langgraph_temporal.Workflow.{Workflow}
use langgraph_temporal.Workflow.Routing.{activity_call}
use langgraph_temporal.Workflow.Dispatch.{execute_single_activity}

module _ {L : Langgraph} (w : Workflow L) (input : NodeActivityInput) (node : String) where
  abbrev affine : Bool
  affine = w.use_worker_affinity && truthy_text w.sticky_task_queue

  -- Whatever the replies, at most three requests are made: two calls of the node's activity and
  -- one discovery.
  pub requests_bound :
      (rs : List Reply) → length (requests (execute_single_activity input node) w rs) ≤ 3
  unfolding execute_single_activity requests ◌>>=◌
  requests_bound [] = ground arith
  requests_bound (a ∷ []) = ground arith
  requests_bound (a ∷ b ∷ []) = ground arith
  requests_bound (a ∷ b ∷ c ∷ rs) = ground arith

  -- Without worker affinity, or with no sticky queue, an activity error is raised as it is, after
  -- one request, and the state is unchanged.
  error_without_affinity :
      (m : String) (rs : List Reply)
      → affine ≡ false
      → (solo (execute_single_activity input node) w (activity_failed m ∷ rs)
          ≡ (failed (activity_error m), w))
        × (requests (execute_single_activity input node) w (activity_failed m ∷ rs)
            ≡ run_activity (activity_call w input node) ∷ [])
  unfolding execute_single_activity requests solo ◌>>=◌
  error_without_affinity m rs h = (ground arith, ground arith)

  -- How an activity ends whose second call is answered in this way.
  abbrev pub second_end : Reply → Slot (Workflow L) NodeActivityOutput
  second_end (node_output o) = returned o
  second_end (activity_failed m) =
      failed (runtime_error ("Activity '" <> node <> "' failed after worker re-discovery"))
  second_end _ = failed (type_error "NodeActivityOutput")

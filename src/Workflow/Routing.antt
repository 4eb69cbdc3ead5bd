-- ===== src/Workflow/Routing.antt =====
-- How a node's activity is dispatched: `_to_temporal_retry_policy`, `_task_queue_for_node`,
-- `_activity_options_for_node`, `_retry_policy_for_node`, and the arguments of `execute_activity`.
pub mod Laws
use langgraph_temporal.Prelude.{ℕ, String, Option, none, some, List, [], if◌then◌else◌, or_default}
use langgraph_temporal.Prelude.Lists.{is_nil}
use langgraph_temporal.Prelude.Dict
use langgraph_temporal.Config.{
  ActivityOptions, default_options, RetryPolicyConfig, NodeActivityInput, WorkflowInput,
}
use langgraph_temporal.Value.{Value}
use langgraph_temporal.Langgraph.{Langgraph}
use langgraph_temporal.Text.{truthy_text}
use langgraph_temporal.Workflow.{Workflow}

-- Temporal's `RetryPolicy`.
pub record TemporalRetryPolicy : Type 0 where
  pub initial_interval : ℕ
  pub backoff_coefficient : ℕ
  pub maximum_interval : ℕ
  pub maximum_attempts : ℕ
  pub non_retryable_error_types : List String

unfoldable pub to_temporal_retry_policy : RetryPolicyConfig → TemporalRetryPolicy
to_temporal_retry_policy config = record {
  initial_interval = config.initial_interval_seconds;
  backoff_coefficient = config.backoff_coefficient;
  maximum_interval = config.max_interval_seconds;
  maximum_attempts = config.max_attempts;
  non_retryable_error_types = or_default config.non_retryable_error_types [];
}

module _ {L : Langgraph} where
  unfoldable pub task_queue_for_node : Workflow L → String → Option String
  task_queue_for_node w node =
      if truthy_text w.sticky_task_queue
      then w.sticky_task_queue
      else if is_nil w.node_task_queues
      then none
      else Dict.get w.node_task_queues node

  unfoldable pub activity_options_for_node : Workflow L → String → ActivityOptions
  activity_options_for_node w node =
      if is_nil w.node_activity_options
      then default_options
      else or_default (Dict.get w.node_activity_options node) default_options

  unfoldable pub retry_policy_for_node : Workflow L → String → Option TemporalRetryPolicy
  unfolding to_temporal_retry_policy
  retry_policy_for_node w node =
      if is_nil w.node_retry_policies then none else elim (Dict.get w.node_retry_policies node) [
        | none ↦ none
        | some config ↦ some (to_temporal_retry_policy config)
      ]

-- The arguments of `workflow.execute_activity`; a keyword that is not given is `none`.
pub record ActivityCall : Type 0 where
  pub activity : String
  pub input : NodeActivityInput
  pub start_to_close_timeout : ℕ
  pub heartbeat_timeout : Option ℕ
  pub schedule_to_close_timeout : Option ℕ
  pub task_queue : Option String
  pub retry_policy : Option TemporalRetryPolicy

-- The one member of temporalio's enumeration that the code names.
pub data ParentClosePolicy : Type 0 where
  terminate : ParentClosePolicy

-- The `WorkflowInput` of a child workflow. That of a sub-agent is made of the reference and the initial
-- state that a request has, which may be any values (the child's data converter may refuse them), of the
-- recursion limit and the sticky queue, and has defaults otherwise.
pub data ChildInput : Type 0 where
  typed : WorkflowInput → ChildInput
  requested : Value → Value → ℕ → Option String → ChildInput

-- The arguments of `workflow.execute_child_workflow`; a keyword that is not given is `none`.
pub record ChildCall : Type 0 where
  pub input : ChildInput
  pub id : String
  pub task_queue : Option String
  pub execution_timeout : Option ℕ
  pub parent_close_policy : Option ParentClosePolicy

-- The keywords that `_dispatch_activity` collects.
unfoldable pub activity_call :
    {L : Langgraph} → Workflow L → NodeActivityInput → String → ActivityCall
activity_call w input node =
    let opts = activity_options_for_node w node in
    record {
      activity = node;
      input = input;
      start_to_close_timeout = opts.start_to_close_timeout;
      heartbeat_timeout = opts.heartbeat_timeout;
      schedule_to_close_timeout = opts.schedule_to_close_timeout;
      task_queue = task_queue_for_node w node;
      retry_policy = retry_policy_for_node w node;
    }

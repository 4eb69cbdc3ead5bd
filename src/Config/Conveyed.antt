-- ===== src/Config/Conveyed.antt =====
-- Temporal's data converter, which `client.start_workflow`, `client.execute_workflow` and
-- `workflow.continue_as_new` put a `WorkflowInput` through. It is not the program's: a function here, which
-- may refuse an input.
use langgraph_temporal.Prelude.{◌≡◌, none, some}
use langgraph_temporal.Prelude.Result.{Result, ok}
use langgraph_temporal.Config.{WorkflowInput, RestoredState, Checkpoint}

-- What JSON keeps of an input: texts, numbers, truth values, and lists, dicts and dataclasses of these.
-- Nothing is said of values of type `Any` (the input data, and the content of a checkpoint) or of
-- timeouts (the activity options).
pub record Conveyed (sent got : WorkflowInput) : Type 0 where
  pub graph_ref : got.graph_definition_ref ≡ sent.graph_definition_ref
  pub limit : got.recursion_limit ≡ sent.recursion_limit
  pub queues : got.node_task_queues ≡ sent.node_task_queues
  pub policies : got.node_retry_policies ≡ sent.node_retry_policies
  pub sticky : got.sticky_task_queue ≡ sent.sticky_task_queue
  pub affinity : got.use_worker_affinity ≡ sent.use_worker_affinity
  pub subagent : got.subagent_config ≡ sent.subagent_config
  pub fresh : sent.restored_state ≡ none → got.restored_state ≡ none
  pub restored :
      (s : RestoredState)
      → sent.restored_state ≡ some s
      → (cp : Checkpoint) × (got.restored_state ≡ some (record s { checkpoint = cp }))

-- A converter that keeps this of all inputs that it takes.
abbrev pub Conveys : (WorkflowInput → Result WorkflowInput) → Type 0
Conveys convey = (sent got : WorkflowInput) → convey sent ≡ ok got → Conveyed sent got

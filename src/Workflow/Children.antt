-- ===== src/Workflow/Children.antt =====
-- Sub-agents: `_dispatch_child_workflow` and `_process_child_workflow_requests`.
pub mod Laws
pub mod Batch
use Prim.Native.String
use langgraph_temporal.Prelude.{
  ℕ, ◌+◌, String, ◌<>◌, ◌==◌, Bool, true, false, Option, none, some, List, [], ◌∷◌, ◌++◌,
  if◌then◌else◌, or_default, eqb,
}
use langgraph_temporal.Prelude.Lists.{is_nil, last?}
use langgraph_temporal.Prelude.Dict
use langgraph_temporal.Prelude.Dict.{Dict}
use langgraph_temporal.Prelude.Result.{
  Exn, Result, ok, err, child_error, type_error, key_error, value_error, ◌>>=◌,
}
use langgraph_temporal.Value.{
  Value, null, str, list, dict, nil, end, items, entries, fields, truthy,
}
use langgraph_temporal.Config.{
  NodeActivityOutput, SubAgentConfig, WorkflowInput, WorkflowOutput, Write, default_input, seconds,
}
use langgraph_temporal.Langgraph.{Langgraph}
use langgraph_temporal.Text.{Host, format, show, truthy_text}
use langgraph_temporal.Coroutine.{
  Co, done, raise, gets, await, Reply, run_child, child_output, child_failed,
}
use langgraph_temporal.Workflow.{Workflow}
use langgraph_temporal.Workflow.Routing.{ChildCall, requested, terminate}
use langgraph_temporal.Workflow.Machine
use langgraph_temporal.Workflow.Machine.{M, join, collect_settled, pure, lift}

-- A request is a dict, `dict[str, Any]`.
abbrev pub ChildRequest : Type 0
ChildRequest = Dict Value

-- f"{parent_wf_id}/subagent/{subagent_type}/{self.step}_{index}"
unfoldable pub child_id : Host → String → ℕ → ℕ → String
child_id H subagent_type step index =
    H.workflow_id <> "/subagent/" <> subagent_type <> "/" <> show step <> "_" <> show index

-- The queue and the timeout, from the sub-agent configuration if there is one.
unfoldable pub child_queue : Host → Option SubAgentConfig → String
child_queue H none = H.task_queue
child_queue H (some c) =
    if truthy_text c.task_queue then or_default c.task_queue "" else H.task_queue

unfoldable pub child_timeout : Option SubAgentConfig → ℕ
child_timeout none = seconds 1800
child_timeout (some c) =
    if eqb c.execution_timeout_seconds 0 then seconds 1800 else c.execution_timeout_seconds

unfoldable pub child_sticky_queue : Option SubAgentConfig → Option String
child_sticky_queue none = none
child_sticky_queue (some c) = c.sticky_task_queue

module _ {L : Langgraph} (H : Host) where
  unfoldable pub child_call : WorkflowInput → ChildRequest → ℕ → Workflow L → ChildCall
  unfolding child_id child_queue child_timeout child_sticky_queue
  child_call wf_input req index w =
      let subagent_type = format H (or_default (Dict.get req "subagent_type") (str "unknown")) in
      record {
        input =
            requested
              (or_default (Dict.get req "graph_definition_ref") (str wf_input.graph_definition_ref))
              (or_default (Dict.get req "initial_state") (dict end)) wf_input.recursion_limit
              (child_sticky_queue w.subagent_config);
        id = child_id H subagent_type w.step index;
        task_queue = some (child_queue H w.subagent_config);
        execution_timeout = some (child_timeout w.subagent_config);
        parent_close_policy = some terminate;
      }

  unfoldable pub child_reply : Reply → Co (Workflow L) WorkflowOutput
  child_reply (child_output o) = done o
  child_reply (child_failed m) = raise (child_error m)
  child_reply _ = raise (type_error "WorkflowOutput")

  unfoldable pub dispatch_child_workflow :
      WorkflowInput → ChildRequest → ℕ → Co (Workflow L) WorkflowOutput
  unfolding child_call child_reply
  dispatch_child_workflow wf_input req index =
      gets λ w. await (run_child (child_call wf_input req index w)) child_reply

  -- `enumerate(result.child_workflow_requests)`, from `index` on.
  unfoldable pub dispatch_all :
      WorkflowInput → List ChildRequest → ℕ → List (Co (Workflow L) WorkflowOutput)
  unfolding dispatch_child_workflow
  dispatch_all wf_input [] index = []
  dispatch_all wf_input (req ∷ reqs) index =
      dispatch_child_workflow wf_input req index ∷ dispatch_all wf_input reqs (index + 1)

-- The last character of a text, as a text.
unfoldable pub last_char : String → String
last_char String.[] = ""
last_char (String.◌∷◌ c String.[]) = String.◌∷◌ c String.[]
last_char (String.◌∷◌ c (String.◌∷◌ d s)) = last_char (String.◌∷◌ d s)

unfoldable pub last_item : Option Value → Value
last_item none = null
last_item (some v) = v

-- `messages[-1]` where `messages` is true: of a list or a text the last element. The keys of a dict are
-- texts, and nothing else has elements.
unfoldable pub last_message : Value → Result Value
unfolding last_char last_item
last_message (list vs) = ok (last_item (last? (items vs)))
last_message (str s) = ok (str (last_char s))
last_message (dict fs) = err (key_error "-1")
last_message _ = err (type_error "not subscriptable")

module _ (H : Host) where
  -- The text of a child's result: its last message, or what went wrong.
  unfoldable pub child_content : ChildRequest → Result WorkflowOutput → Result String
  unfolding last_message format
  child_content req (err e) =
      let subagent_type = format H (or_default (Dict.get req "subagent_type") (str "unknown")) in
      ok ("Sub-agent '" <> subagent_type <> "' failed: " <> H.str_exn e)
  child_content req (ok o) =
      let messages = or_default (Dict.get o.channel_values "messages") (list nil) in
      if truthy messages then (last_message messages >>= λ v. ok (format H v)) else ok ""

  -- The write that carries it back to the agent.
  unfoldable pub tool_write : ChildRequest → String → Write
  tool_write req content = (
    "messages",
    dict (
        fields (
          ("type", str "tool")
          ∷ ("content", str content)
          ∷ ("tool_call_id", or_default (Dict.get req "tool_call_id") (str ""))
          ∷ [])),
  )

  -- The writes for the requests and outputs, pair by pair (`zip(..., strict=True)`).
  unfoldable pub child_writes :
      List ChildRequest → List (Result WorkflowOutput) → Result (List Write)
  unfolding child_content tool_write
  child_writes [] [] = ok []
  child_writes [] (o ∷ outputs) = err (value_error "zip() argument 2 is longer than argument 1")
  child_writes (req ∷ reqs) [] = err (value_error "zip() argument 2 is shorter than argument 1")
  child_writes (req ∷ reqs) (o ∷ outputs) = child_content req o >>= λ content.
      child_writes reqs outputs >>= λ ws. ok (tool_write req content ∷ ws)

module _ {L : Langgraph} (H : Host) where
  -- The requests of one result.
  unfoldable pub process_result : WorkflowInput → NodeActivityOutput → M L NodeActivityOutput
  unfolding dispatch_all child_writes
  process_result wf_input r =
      let requests = or_default r.child_workflow_requests [] in
      if is_nil requests
      then pure r
      else Machine.◌>>=◌ (join collect_settled (dispatch_all H wf_input requests 0)) λ outputs.
        Machine.◌>>=◌ (lift (child_writes H requests outputs))
          λ ws. pure (record r { writes = r.writes ++ ws })

  -- `_process_child_workflow_requests`: the list of results, with the writes added.
  unfoldable pub process_child_workflow_requests :
      WorkflowInput → List NodeActivityOutput → M L (List NodeActivityOutput)
  unfolding process_result
  process_child_workflow_requests wf_input [] = pure []
  process_child_workflow_requests wf_input (r ∷ rs) =
      Machine.◌>>=◌ (process_result wf_input r)
        λ r'. Machine.◌>>=◌ (process_child_workflow_requests wf_input rs) λ rs'. pure (r' ∷ rs')

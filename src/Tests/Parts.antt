-- ===== src/Tests/Parts.antt =====
-- Interrupts, children, tasks, streams and the codec, at concrete inputs.
use mathlib.Core.List.{Permᴰ}
use langgraph_temporal.Prelude.{
  ℕ, String, ◌<>◌, ◌≡◌, refl, true, none, some, List, [], ◌∷◌, ◌++◌, arith, or_default,
}
use langgraph_temporal.Prelude.Lists.{length, get_elem?}
use langgraph_temporal.Prelude.Dict
use langgraph_temporal.Prelude.Result.{Result, ok, err, child_error, ◌>>=◌}
use langgraph_temporal.Value.{truthy, of_dict, str, null, num, list, nil, cons}
use langgraph_temporal.Config.{
  Write, StreamEvent, NodeActivityInput, NodeActivityOutput, WorkflowOutput, name, index,
  plain_output,
}
use langgraph_temporal.Langgraph.{PregelTask}
use langgraph_temporal.Registry.{lookup, make_ref}
use langgraph_temporal.Coroutine.{solo, child_failed}
use langgraph_temporal.Workflow.{get_channel_values, new_workflow, Workflow, running, increment}
use langgraph_temporal.Workflow.Machine.{Event, resume, update, wake, wait_for_resume}
use langgraph_temporal.Workflow.Interrupts.{handle_interrupted, is_interrupted, all_interrupts}
use langgraph_temporal.Workflow.Interrupts.Pauses.{paused, wait_for_resume-pause}
use langgraph_temporal.Workflow.Interrupts.Rerun.{
  completions, rerun_requests, handle_interrupted-completions,
}
use langgraph_temporal.Workflow.Machine.Runs.{Runs}
use langgraph_temporal.Workflow.Nodes.{execute_subgraph}
use langgraph_temporal.Workflow.Nodes.Laws.{sub_ref, execute_subgraph-registry}
use langgraph_temporal.Workflow.Children.{ChildRequest, child_writes, tool_write}
use langgraph_temporal.Workflow.Children.Laws.{Answers, child_writes-Answers}
use langgraph_temporal.Workflow.Tasks.Laws.{IsSorted}
use langgraph_temporal.Workflow.Nodes.Sorted.{task_requests, execute_nodes-IsSorted}
use langgraph_temporal.Workflow.Nodes.{execute_nodes, is_subgraph_node, subgraph_of}
use langgraph_temporal.Workflow.Machine.Runs.{machine}
use langgraph_temporal.Workflow.Sends.{push_inputs, SendDict}
use langgraph_temporal.Workflow.Sends.Laws.{Matches, push_inputs-Matches}
use langgraph_temporal.Workflow.Stream.{
  emit_stream_events, get_stream_buffer, values_event, all_result_events,
}
use langgraph_temporal.Workflow.Stream.Laws.{get_stream_buffer-emit}
use langgraph_temporal.Text.{first_chars, show, format}
use langgraph_temporal.Streaming.{timed_out, poll_loop, poll_stream}
use langgraph_temporal.Streaming.Laws.{answers, poll_stream-Grows, poll_loop-new_run}
use langgraph_temporal.Codec.{
  blob_key, Payload, Bytes, Protobuf, InMemoryBlobStore, in_memory, LargePayloadCodec, encode,
  decode,
}
use langgraph_temporal.Codec.RoundTrip.{in_memory-StoresUnder, decode-encode}
use langgraph_temporal.Tests.Toy.{toy, host, fresh, output_of}

-- ------------------------------------------------------------------ interrupts

-- A look at the condition, a resume signal, an update of the state, a second signal, and a look.
abbrev long_pause : List Event
long_pause =
    wake
    ∷ resume (str "yes")
    ∷ update (record { writes = ("x", num 1) ∷ [] })
    ∷ resume (str "no")
    ∷ wake
    ∷ []

wait_for_resume-pause_example :
    Runs {L = toy} wait_for_resume fresh long_pause tt
      (record fresh {
        checkpoint = ("version", num 1) ∷ [];
        channels = ("x", some (num 1)) ∷ [];
        resume_event = true;
        resume_values = str "yes" ∷ str "no" ∷ [];
        status = running;
      })
      []
unfolding new_workflow increment Dict.put
wait_for_resume-pause_example =
    wait_for_resume-pause {L = toy} long_pause fresh
      (("version", num 1) ∷ [], ("x", some (num 1)) ∷ []) refl refl

-- The result of a node that called `interrupt()`.
abbrev asking : NodeActivityOutput
asking = record (plain_output "b" []) { interrupts = some ((("value", str "sure?") ∷ []) ∷ []) }

abbrev short_pause : List Event
short_pause = resume (str "yes") ∷ wake ∷ []

-- The state after it.
abbrev asked_state : Workflow toy
asked_state =
    paused {L = toy} ((("value", str "sure?") ∷ []) ∷ []) short_pause
      (fresh.checkpoint, fresh.channels) fresh

handle_interrupted-completions_example :
    Runs {L = toy}
      (handle_interrupted (output_of "a" "x" ∷ asking ∷ []))
      fresh
      (short_pause ++ completions (asking ∷ []))
      (output_of "a" "x" ∷ asking ∷ [])
      asked_state
      (rerun_requests {L = toy} asked_state (get_channel_values toy fresh.channels) (asking ∷ []))
unfolding is_interrupted all_interrupts
handle_interrupted-completions_example =
    handle_interrupted-completions {L = toy} (output_of "a" "x" ∷ asking ∷ []) (asking ∷ [])
      short_pause fresh (fresh.checkpoint, fresh.channels) refl refl refl refl

-- ------------------------------------------------------------------ children and tasks

abbrev sub_task : PregelTask
sub_task = record { name = "sub"; path = name "__pregel_pull" ∷ name "sub" ∷ [] }

execute_subgraph-registry_example :
    (lookup
        (sub_ref host sub_task 0 fresh)
        (solo (execute_subgraph {L = toy} host sub_task 0) fresh []).1.registry
      ≡ ok 0)
    × (lookup "ref1"
          (solo
            (execute_subgraph {L = toy} host sub_task 0)
            fresh
            (child_failed "m" ∷ [])).1.registry
        ≡ lookup "ref1" fresh.registry)
unfolding lookup Dict.get new_workflow make_ref first_chars show
execute_subgraph-registry_example =
    execute_subgraph-registry {L = toy} host sub_task 0 fresh (child_failed "m") "ref1" refl

abbrev child_requests : List ChildRequest
child_requests =
    (("subagent_type", str "search") ∷ ("tool_call_id", str "c1") ∷ [])
    ∷ (("subagent_type", str "write") ∷ ("tool_call_id", str "c2") ∷ [])
    ∷ []

abbrev child_results : List (Result WorkflowOutput)
child_results =
    err (child_error "m")
    ∷ ok (record {
      channel_values = ("messages", list (cons (str "one") (cons (str "two") nil))) ∷ [];
      step = 3;
    })
    ∷ []

abbrev child_answers : List Write
child_answers =
    tool_write host (or_default (get_elem? child_requests 0) []) "Sub-agent 'search' failed: error"
    ∷ tool_write host (or_default (get_elem? child_requests 1) []) "two"
    ∷ []

child_writes-Answers_example : Answers host child_requests child_results child_answers
unfolding child_writes Dict.get format truthy
child_writes-Answers_example =
    child_writes-Answers host child_requests child_results child_answers refl

abbrev three_tasks : List PregelTask
three_tasks =
    record { name = "b"; path = name "__pregel_pull" ∷ name "b" ∷ [] }
    ∷ record { name = "a"; path = name "__pregel_pull" ∷ name "a" ∷ [] }
    ∷ record { name = "p"; path = name "__pregel_push" ∷ index 0 ∷ [] }
    ∷ []

execute_nodes-IsSorted_example :
    (ts : List PregelTask) × IsSorted ts
    × Permᴰ ts three_tasks
    × ((execute_nodes {L = toy} host 0 three_tasks (machine {L = toy} fresh [] [])).1.issued
        ≡ task_requests {L = toy} host 0 fresh ts)
unfolding is_subgraph_node subgraph_of Dict.get
execute_nodes-IsSorted_example = execute_nodes-IsSorted {L = toy} host 0 three_tasks fresh [] refl

-- ------------------------------------------------------------------ sends, the registry

abbrev one_send : List SendDict
one_send = (("node", str "a") ∷ ("arg", num 7) ∷ []) ∷ []

abbrev one_input : NodeActivityInput
one_input = record {
  node_name = "a";
  input_state = of_dict [];
  graph_definition_ref = "ref0";
  resume_values = none;
  task_path = name "a" ∷ name "push" ∷ [];
  send_input = some (num 7);
  triggers = [];
}

push_inputs-Matches_example : Matches [] "ref0" one_send (one_input ∷ [])
unfolding push_inputs Dict.get
push_inputs-Matches_example = push_inputs-Matches [] "ref0" one_send (one_input ∷ []) refl

-- ------------------------------------------------------------------ streams

get_stream_buffer-emit_example :
    let w' = emit_stream_events {L = toy} (output_of "a" "x" ∷ []) fresh in
    let q = get_stream_buffer (get_stream_buffer {L = toy} 0 fresh).next_cursor w' in
    (q.events
      ≡ values_event {L = toy} fresh ∷ all_result_events fresh.step (output_of "a" "x" ∷ []))
    × (q.next_cursor ≡ length w'.stream_buffer)
get_stream_buffer-emit_example = get_stream_buffer-emit {L = toy} fresh 0 (output_of "a" "x" ∷ [])

abbrev event_of : String → StreamEvent
event_of node = record { mode = "custom"; payload = null; node_name = some node; step = 0 }

abbrev with_events : List StreamEvent → Workflow toy
with_events events = record fresh { stream_buffer = events }

abbrev polled : List (ℕ × Workflow toy)
polled =
    (10, with_events (event_of "a" ∷ []))
    ∷ (20, with_events (event_of "a" ∷ []))
    ∷ (30, with_events (event_of "a" ∷ event_of "b" ∷ event_of "c" ∷ []))
    ∷ []

poll_stream-Grows_example :
    poll_stream (some 30) (answers {L = toy} polled)
    ≡ event_of "a" ∷ event_of "b" ∷ event_of "c" ∷ []
unfolding timed_out
poll_stream-Grows_example =
    poll_stream-Grows {L = toy} (some 30) polled
      ((event_of "a" ∷ [], refl), (([], refl), ((event_of "b" ∷ event_of "c" ∷ [], refl), tt)))
      (refl, (refl, (refl, tt)))

-- The client saw two events of the old run, and the new one has emitted "c" before the next poll.
poll_loop-new_run_example :
    let w = with_events (event_of "c" ∷ []) in
    let later : List (ℕ × Workflow toy) =
      (20, with_events (event_of "c" ∷ event_of "d" ∷ [])) ∷ [] in
    w.stream_buffer ++ poll_loop none 2 (answers {L = toy} ((10, w) ∷ later))
    ≡ event_of "c" ∷ event_of "d" ∷ []
unfolding timed_out
poll_loop-new_run_example =
    poll_loop-new_run {L = toy} 2 10 (with_events (event_of "c" ∷ []))
      ((20, with_events (event_of "c" ∷ event_of "d" ∷ [])) ∷ []) (omega arith)
      ((event_of "d" ∷ [], refl), tt) (refl, tt)

-- ------------------------------------------------------------------ the codec

-- Payloads with no metadata; the bytes are those of the data.
abbrev plain_bytes : Protobuf
plain_bytes = record {
  serialize = λ p. p.payload_data;
  parse = λ s. ok (record { metadata = []; payload_data = s });
  sha256_hex = λ s. "abcdefabcdefabcdef";
  uuid_hex = λ n. show n <> "0123456789abcdef";
}

abbrev small_codec : LargePayloadCodec
small_codec = record { size_threshold = 3; prefix = "langgraph-temporal" }

abbrev payload_of : Bytes → Payload
payload_of s = record { metadata = []; payload_data = s }

abbrev payloads : List Payload
payloads =
    payload_of (1 ∷ 2 ∷ 3 ∷ 4 ∷ 5 ∷ [])
    ∷ payload_of (1 ∷ 2 ∷ 3 ∷ [])
    ∷ payload_of (1 ∷ 2 ∷ 3 ∷ 4 ∷ [])
    ∷ []

abbrev no_blobs : InMemoryBlobStore
no_blobs = record { store = [] }

decode-encode_example :
    (encode plain_bytes small_codec in_memory payloads (no_blobs, 0) >>= λ (qs, (s', n')).
    decode plain_bytes small_codec in_memory qs s')
    ≡ ok payloads
unfolding blob_key show Dict.get first_chars
decode-encode_example =
    decode-encode plain_bytes small_codec in_memory in_memory-StoresUnder payloads no_blobs 0
      (refl, (refl, tt)) (refl, refl, (refl, refl, (refl, refl, tt)))

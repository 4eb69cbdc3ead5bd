-- ===== src/Workflow/Nodes/Pushes.antt =====
-- `_execute_push_tasks` reads the replies to its tasks' activities, and no more.
use langgraph_temporal.Prelude.{
  if◌then◌else◌, ◌&&◌, Option, none, some, String, List, [], ◌∷◌, true, ◌≡◌, refl, ap, sym, arith,
  map,
}
use mathlib.Core.Path.{subst}
use langgraph_temporal.Prelude.Lists.{length}
use langgraph_temporal.Prelude.Result.{Exn, activity_error, ok}
use langgraph_temporal.Config.{NodeActivityInput, NodeActivityOutput}
use langgraph_temporal.Langgraph.{Langgraph}
use langgraph_temporal.Text.{truthy_text}
use langgraph_temporal.Coroutine
use langgraph_temporal.Coroutine.{
  Co, Slot, Request, Reply, run_activity, node_output, queue_name, child_output, activity_failed,
  child_failed, edge_targets, advance, parked, returned, failed,
}
use langgraph_temporal.Workflow.{Workflow, get_channel_values}
use langgraph_temporal.Workflow.Dispatch.{
  execute_single_activity, dispatch_activity, dispatch_reply, first_result,
}
use langgraph_temporal.Workflow.Routing.{activity_call}
use langgraph_temporal.Workflow.Sends.{SendDict, push_inputs}
use langgraph_temporal.Workflow.Machine.{Event, start_all, collect_all, join}
use langgraph_temporal.Workflow.Machine.Flags.{all_true, waiting}
use langgraph_temporal.Workflow.Machine.Served.{Served}
use langgraph_temporal.Workflow.Machine.Awaits.{AllAwait}
use langgraph_temporal.Workflow.Machine.Gather.{Runs-gather}
use langgraph_temporal.Workflow.Machine.Runs.{Runs, Runs-asks, Runs-lift, Runs-bind}
use langgraph_temporal.Workflow.Nodes.{push_coroutine, execute_push_tasks}

-- The requests of tasks with the given inputs.
abbrev pub input_requests : {L : Langgraph} → Workflow L → List NodeActivityInput → List Request
input_requests w inputs = map (λ input. run_activity (activity_call w input input.node_name)) inputs

-- How a reply breaks an activity's coroutine: it is the activity's failure, and there is no sticky
-- queue to fall back from.
abbrev pub activity_failing : {L : Langgraph} → Reply → Workflow L → Option (Exn × Workflow L)
activity_failing (activity_failed m) w =
    if w.use_worker_affinity && truthy_text w.sticky_task_queue
    then none
    else some (activity_error m, w)
activity_failing r w = none

failing_raises :
    {L : Langgraph} (input : NodeActivityInput) (node : String) (r : Reply) (w w1 : Workflow L)
    (e : Exn)
    → activity_failing r w ≡ some (e, w1)
    → advance (Coroutine.◌>>=◌ (dispatch_reply r) (first_result input node)) w ≡ (failed e, w1)
unfolding dispatch_reply first_result advance langgraph_temporal.Coroutine.◌>>=◌
failing_raises input node (node_output o) w w1 e h = absurd (cc)
failing_raises input node (queue_name q) w w1 e h = absurd (cc)
failing_raises input node (child_output o) w w1 e h = absurd (cc)
failing_raises input node (child_failed m) w w1 e h = absurd (cc)
failing_raises input node (edge_targets ts) w w1 e h = absurd (cc)
failing_raises input node (activity_failed m) w w1 e h = ground (arith, h)

-- An activity's coroutine makes its request, and returns the output that it is answered with, or raises
-- the activity's failure.
pub single_activity-starts :
    {L : Langgraph} (input : NodeActivityInput) (node : String) (w : Workflow L)
    → (k : Reply → Co (Workflow L) NodeActivityOutput) × (advance
          (execute_single_activity {L = L} input node)
          w
        ≡ (parked (run_activity (activity_call w input node)) k, w))
      × ((o : NodeActivityOutput) (w' : Workflow L)
          → advance (k (node_output o)) w' ≡ (returned o, w'))
      × ((r : Reply) (w' w1 : Workflow L) (e : Exn)
          → activity_failing r w' ≡ some (e, w1)
          → advance (k r) w' ≡ (failed e, w1))
unfolding execute_single_activity dispatch_activity dispatch_reply first_result advance
    langgraph_temporal.Coroutine.◌>>=◌
single_activity-starts input node w = (
  λ r. Coroutine.◌>>=◌ (dispatch_reply r) (first_result input node),
  refl,
  (λ o w'. refl),
  failing_raises input node,
)

abbrev pub node_failing :
    {L : Langgraph} → NodeActivityOutput → Reply → Workflow L → Option (Exn × Workflow L)
node_failing o r w = activity_failing r w

abbrev pub no_effect : {L : Langgraph} {B : Type 0} → B → Workflow L → Workflow L
no_effect b w = w

map-same : {A : Type 0} (xs : List A) → map (λ x. x) xs ≡ xs
map-same [] = refl
map-same (x ∷ xs) = ap (λ xs. x ∷ xs) (map-same xs)

module _ {L : Langgraph} where
  -- The slots of the tasks, once they are started.
  pub pushes-start :
      (inputs : List NodeActivityInput) (os : List NodeActivityOutput) (w : Workflow L)
      → length os ≡ length inputs
      → (xs : List (Slot (Workflow L) NodeActivityOutput)) × (start_all
            (map push_coroutine inputs)
            w
          ≡ (xs, w, input_requests w inputs))
        × AllAwait node_output (λ o. ok o) no_effect node_failing xs os
        × (waiting xs ≡ all_true os)
  unfolding start_all push_coroutine
  pushes-start [] [] w e = ([], refl, tt, refl)
  pushes-start [] (o ∷ os) w e = absurd (omega (arith, e))
  pushes-start (i ∷ inputs) [] w e = absurd (omega (arith, e))
  pushes-start (i ∷ inputs) (o ∷ os) w e =
      let (k, first, answers, fails) = single_activity-starts i i.node_name w in
      let (xs, later, awaits, flags) = pushes-start inputs os w (omega (arith, e)) in
      (
        parked (run_activity (activity_call w i i.node_name)) k ∷ xs,
        ground (arith, first, later),
        ((answers o, fails), awaits),
        ap (λ bs. true ∷ bs) flags,
      )

  pub execute_push_tasks-Runs :
      (sends : List SendDict) (inputs : List NodeActivityInput) (os : List NodeActivityOutput)
      {w w' : Workflow L} {es : List Event}
      → push_inputs (get_channel_values L w.channels) w.graph_ref sends ≡ ok inputs
      → length os ≡ length inputs
      → Served node_output no_effect os (all_true os) w es w'
      → Runs (execute_push_tasks sends) w es os w' (input_requests w inputs)
  unfolding execute_push_tasks
  execute_push_tasks-Runs sends inputs os {w = w} {w' = w'} {es = es} made same served =
      let (xs, started, awaits, flags) = pushes-start inputs os w same in
      Runs-bind _ (Runs-asks (λ w. w) w) (
        Runs-bind _ (Runs-lift _ inputs w made) (
          subst
            (λ r.
              Runs (join collect_all (map push_coroutine inputs)) w es r w'
                (input_requests w inputs))
            (map-same os)
            (Runs-gather node_output no_effect node_failing (λ o. o) (map push_coroutine inputs) os
              started awaits
              (subst (λ flags. Served node_output no_effect os flags w es w') (sym flags) served))))

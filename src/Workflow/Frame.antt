-- ===== src/Workflow/Frame.antt =====
-- The parts of the state that coroutines and signals may change, and that each of them keeps what
-- does not depend on those parts.
pub mod Pieces
pub mod Phases
use langgraph_temporal.Prelude.{
  ℕ, zero, suc, ◌+◌, String, Bool, true, false, Option, none, some, List, [], ◌∷◌, ◌≡◌, refl, map,
  arith, ◌++◌, inl, inr, Option-cases,
}
use langgraph_temporal.Prelude.Dict.{Dict}
use langgraph_temporal.Prelude.Result.{Result, ok, err, >>=-eq-ok, ok-injective}
use mathlib.Core.Path.{subst}
use langgraph_temporal.Value.{Value}
use langgraph_temporal.Config.{
  Checkpoint, NodeActivityInput, NodeActivityOutput, StateUpdatePayload, WorkflowInput,
}
use langgraph_temporal.Langgraph.{Langgraph, PregelTask}
use langgraph_temporal.Text.{Host}
use langgraph_temporal.Registry.{Registry}
use langgraph_temporal.Coroutine.{
  Co, Reply, node_output, queue_name, child_output, activity_failed, child_failed,
}
use langgraph_temporal.Workflow.{Workflow, increment}
use langgraph_temporal.Workflow.Signals.{resume_signal, update_state_signal, update_task}
use langgraph_temporal.Workflow.Routing.{ChildCall}
use langgraph_temporal.Workflow.Dispatch.{
  execute_single_activity, dispatch_activity, dispatch_reply, discover_worker, discovery_reply,
  rediscover_worker, first_result, second_result,
}
use langgraph_temporal.Workflow.Nodes.{
  execute_subgraph, subgraph_reply, task_coroutine, subgraph_of, push_coroutine, task_input,
}
use langgraph_temporal.Workflow.Children.{
  ChildRequest, dispatch_child_workflow, child_reply, dispatch_all,
}
use langgraph_temporal.Workflow.Machine.Keeps.{CoKeeps, CoKeeps-bind, AllKeep, SignalsKeep}

-- P survives a new sticky queue, new registered graphs, new channels and a new checkpoint, and
-- what signals do to the resume values.
pub record IsFramed {L : Langgraph} (P : Workflow L → Type 0) : Type 0 where
  pub sticky : (w : Workflow L) (q : Option String) → P w → P (record w { sticky_task_queue = q })
  pub graphs :
      (w : Workflow L) (r : Registry L.Graph) (n : ℕ)
      → P w
      → P (record w { registry = r; uuids = n })
  pub state :
      (w : Workflow L) (c : Checkpoint) (ch : Dict L.Channel)
      → P w
      → P (record w { checkpoint = c; channels = ch })
  pub resuming :
      (w : Workflow L) (vs : List Value) (b : Bool)
      → P w
      → P (record w { resume_values = vs; resume_event = b })

module _ {L : Langgraph} {P : Workflow L → Type 0} (F : IsFramed P) where
  update_signal-keeps :
      (u : StateUpdatePayload) (w w' : Workflow L) → update_state_signal u w ≡ ok w' → P w → P w'
  unfolding update_state_signal
  update_signal-keeps u w w' e h =
      let f : Checkpoint × Dict L.Channel → Result (Workflow L) =
        λ r. ok (record w { checkpoint = r.0; channels = r.1 }) in
      let (r, applied, same) =
        >>=-eq-ok
          (L.apply_writes w.checkpoint w.channels (update_task u ∷ []) increment w.trigger_to_nodes)
          f e in
      subst P (ok-injective same) (F.state w r.0 r.1 h)

  pub SignalsKeep_of_IsFramed : SignalsKeep P
  unfolding resume_signal
  SignalsKeep_of_IsFramed = record {
    on_resume = λ v w h. F.resuming w (w.resume_values ++ (v ∷ [])) true h;
    on_update = update_signal-keeps;
  }

module _ {L : Langgraph} (P : Workflow L → Type 0) (F : IsFramed P) where
  dispatch_reply-CoKeeps : (r : Reply) → CoKeeps P (dispatch_reply {L = L} r)
  unfolding dispatch_reply
  dispatch_reply-CoKeeps (node_output o) = tt
  dispatch_reply-CoKeeps (activity_failed m) = λ w. ground arith
  dispatch_reply-CoKeeps _ = tt

  dispatch-CoKeeps :
      (i : NodeActivityInput) (node : String) → CoKeeps P (dispatch_activity {L = L} i node)
  unfolding dispatch_activity
  dispatch-CoKeeps i node = λ w r. dispatch_reply-CoKeeps r

  discovery_reply-CoKeeps : (r : Reply) → CoKeeps P (discovery_reply {L = L} r)
  unfolding discovery_reply
  discovery_reply-CoKeeps (queue_name q) = (λ w h. F.sticky w (some q) h, tt)
  discovery_reply-CoKeeps _ = tt

  pub discover-CoKeeps : CoKeeps P (discover_worker {L = L})
  unfolding discover_worker
  discover-CoKeeps = λ r. discovery_reply-CoKeeps r

  second-CoKeeps :
      (node : String) (o : Option NodeActivityOutput) → CoKeeps P (second_result {L = L} node o)
  unfolding second_result
  second-CoKeeps node none = tt
  second-CoKeeps node (some o) = tt

  first-CoKeeps :
      (i : NodeActivityInput) (node : String) (o : Option NodeActivityOutput)
      → CoKeeps P (first_result {L = L} i node o)
  unfolding first_result rediscover_worker
  first-CoKeeps i node none =
      CoKeeps-bind P rediscover_worker _ (λ w h. F.sticky w none h, discover-CoKeeps)
        λ _.
          CoKeeps-bind P (dispatch_activity i node) (second_result node) (dispatch-CoKeeps i node)
            (second-CoKeeps node)
  first-CoKeeps i node (some o) = tt

  pub activity-CoKeeps :
      (i : NodeActivityInput) (node : String) → CoKeeps P (execute_single_activity {L = L} i node)
  unfolding execute_single_activity
  activity-CoKeeps i node =
      CoKeeps-bind P (dispatch_activity i node) (first_result i node) (dispatch-CoKeeps i node)
        (first-CoKeeps i node)

module _ {L : Langgraph} (H : Host) (P : Workflow L → Type 0) (F : IsFramed P) where
  subgraph_reply-CoKeeps :
      (t : PregelTask) (ref : String) (r : Reply) → CoKeeps P (subgraph_reply {L = L} H t ref r)
  unfolding subgraph_reply
  subgraph_reply-CoKeeps t ref (child_output o) = (λ w h. F.graphs w _ w.uuids h, tt)
  subgraph_reply-CoKeeps t ref (child_failed m) = (λ w h. F.graphs w _ w.uuids h, tt)
  subgraph_reply-CoKeeps t ref _ = (λ w h. F.graphs w _ w.uuids h, tt)

  subgraph-CoKeeps : (t : PregelTask) (sub : L.Graph) → CoKeeps P (execute_subgraph {L = L} H t sub)
  unfolding execute_subgraph
  subgraph-CoKeeps t sub =
      λ w. (λ v h. F.graphs v _ (v.uuids + 1) h, λ r. subgraph_reply-CoKeeps t _ r)

  task-CoKeeps :
      (graph : L.Graph) (values : Dict Value) (ref : String) (t : PregelTask)
      → CoKeeps P (task_coroutine {L = L} H graph values ref t)
  unfolding task_coroutine
  task-CoKeeps graph values ref t = elim (Option-cases (subgraph_of L graph t.name)) [
    | inl e ↦ ground (arith, activity-CoKeeps P F (task_input values ref t) t.name)
    | inr (sub, e) ↦ ground (arith, subgraph-CoKeeps t sub)
  ]

  pub tasks-AllKeep :
      (graph : L.Graph) (values : Dict Value) (ref : String) (ts : List PregelTask)
      → AllKeep P (map (task_coroutine {L = L} H graph values ref) ts)
  tasks-AllKeep graph values ref [] = tt
  tasks-AllKeep graph values ref (t ∷ ts) =
      (task-CoKeeps graph values ref t, tasks-AllKeep graph values ref ts)

  child_reply-CoKeeps : (r : Reply) → CoKeeps P (child_reply {L = L} H r)
  unfolding child_reply
  child_reply-CoKeeps (child_output o) = tt
  child_reply-CoKeeps (child_failed m) = tt
  child_reply-CoKeeps _ = tt

  pub children-AllKeep :
      (input : WorkflowInput) (reqs : List ChildRequest) (index : ℕ)
      → AllKeep P (dispatch_all {L = L} H input reqs index)
  unfolding dispatch_all
  children-AllKeep input [] index = tt
  children-AllKeep input (req ∷ reqs) index =
      ((λ w r. child_reply-CoKeeps r), children-AllKeep input reqs (index + 1))

module _ {L : Langgraph} (P : Workflow L → Type 0) (F : IsFramed P) where
  pub pushes-AllKeep : (is : List NodeActivityInput) → AllKeep P (map (push_coroutine {L = L}) is)
  unfolding push_coroutine
  pushes-AllKeep [] = tt
  pushes-AllKeep (i ∷ is) = (activity-CoKeeps P F i i.node_name, pushes-AllKeep is)

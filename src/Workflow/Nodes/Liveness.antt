-- ===== src/Workflow/Nodes/Liveness.antt =====
-- When the tasks of a superstep come to an end (`_execute_nodes`).
use mathlib.Core.Path.{subst}
use langgraph_temporal.Prelude.{
  Option-cases, inl, inr, ℕ, suc, ◌<◌, List, [], ◌∷◌, Bool, true, false, ◌≡◌, refl, ap, sym, ◌∙◌,
  arith, none, some, map, String, ◌||◌,
}
use langgraph_temporal.Prelude.Lists.{length, any}
use langgraph_temporal.Prelude.Dict.{Dict}
use langgraph_temporal.Value.{Value}
use langgraph_temporal.Config.{NodeActivityInput, NodeActivityOutput}
use langgraph_temporal.Langgraph.{Langgraph, PregelTask}
use langgraph_temporal.Text.{Host}
use langgraph_temporal.Coroutine.{Co, done, node_output, advance}
use langgraph_temporal.Workflow.{get_channel_values}
use langgraph_temporal.Workflow.Dispatch.{execute_single_activity, dispatch_activity}
use langgraph_temporal.Workflow.Tasks.{sorted_tasks, insert_task}
use langgraph_temporal.Workflow.Nodes.{
  subgraph_of, is_subgraph_node, execute_subgraph, task_input, task_coroutine, execute_nodes,
}
use langgraph_temporal.Workflow.Machine.{Machine, ended, ◌>>=◌}
use langgraph_temporal.Workflow.Machine.Liveness.{completes, Answers, join-ends}
use langgraph_temporal.Workflow.Machine.Promises.{Promises, Settles, AllSettle}
use langgraph_temporal.Workflow.Machine.Quiet.{is_quiet, Reads, AllRead, join_self}

pub or_false : (a b : Bool) → (a || b) ≡ false → (a ≡ false) × (b ≡ false)
or_false a b h = (ground (arith, h), ground (arith, h))

any-insert_task :
    (p : PregelTask → Bool) (t : PregelTask) (ts : List PregelTask)
    → any p (insert_task t ts) ≡ any p (t ∷ ts)
unfolding insert_task
any-insert_task p t [] = refl
any-insert_task p t (u ∷ us) = ground (arith, any-insert_task p t us)

pub any-sorted_tasks :
    (p : PregelTask → Bool) (ts : List PregelTask) → any p (sorted_tasks ts) ≡ any p ts
unfolding sorted_tasks
any-sorted_tasks p [] = refl
any-sorted_tasks p (t ∷ ts) =
    ground (arith, any-insert_task p t (sorted_tasks ts), any-sorted_tasks p ts)

length-insert_task :
    (t : PregelTask) (ts : List PregelTask) → length (insert_task t ts) ≡ suc (length ts)
unfolding insert_task
length-insert_task t [] = refl
length-insert_task t (u ∷ us) = ground (arith, length-insert_task t us)

pub length-sorted_tasks : (ts : List PregelTask) → length (sorted_tasks ts) ≡ length ts
unfolding sorted_tasks
length-sorted_tasks [] = refl
length-sorted_tasks (t ∷ ts) =
    length-insert_task t (sorted_tasks ts) ∙ ap suc (length-sorted_tasks ts)

pub single_activity-Settles :
    {L : Langgraph} (input : NodeActivityInput) (node : String) (o : NodeActivityOutput)
    → Settles node_output (execute_single_activity {L = L} input node) o
unfolding execute_single_activity dispatch_activity advance langgraph_temporal.Coroutine.◌>>=◌
single_activity-Settles input node o w = refl

module _ (L : Langgraph) (H : Host) (graph : L.Graph) (values : Dict Value) (ref : String) where
  task_coroutine-Settles :
      (t : PregelTask) (o : NodeActivityOutput)
      → is_subgraph_node L graph t.name ≡ false
      → Settles node_output (task_coroutine {L = L} H graph values ref t) o
  unfolding task_coroutine is_subgraph_node
  task_coroutine-Settles t o h w = elim (Option-cases (subgraph_of L graph t.name)) [
    | inl e ↦
        subst
          (λ s.
            Promises node_output
              (advance
                (elim s [
                  | some sub ↦ execute_subgraph {L = L} H t sub
                  | none ↦ execute_single_activity (task_input values ref t) t.name
                ])
                w).0
              o)
          (sym e) (single_activity-Settles {L = L} (task_input values ref t) t.name o w)
    | inr (sub, e) ↦ ground (arith, h, e)
  ]

  pub task_coroutines-AllSettle :
      (ts : List PregelTask) (os : List NodeActivityOutput)
      → any (λ t. is_subgraph_node L graph t.name) ts ≡ false
      → length os ≡ length ts
      → AllSettle node_output (map (task_coroutine {L = L} H graph values ref) ts) os
  task_coroutines-AllSettle [] [] h e = tt
  task_coroutines-AllSettle [] (o ∷ os) h e = omega (arith, e)
  task_coroutines-AllSettle (t ∷ ts) [] h e = omega (arith, e)
  task_coroutines-AllSettle (t ∷ ts) (o ∷ os) h e = (
    task_coroutine-Settles t o (or_false _ _ h).0,
    task_coroutines-AllSettle ts os (or_false _ _ h).1 (omega (arith, e)),
  )

pub single_activity-Reads :
    (L : Langgraph) (input : NodeActivityInput) (node : String)
    → Reads (execute_single_activity {L = L} input node)
unfolding execute_single_activity dispatch_activity advance langgraph_temporal.Coroutine.◌>>=◌
single_activity-Reads L input node w = refl

module _ (L : Langgraph) (H : Host) (graph : L.Graph) (values : Dict Value) (ref : String) where
  pub task_coroutine-Reads :
      (t : PregelTask)
      → is_subgraph_node L graph t.name ≡ false
      → Reads (task_coroutine {L = L} H graph values ref t)
  unfolding task_coroutine is_subgraph_node
  task_coroutine-Reads t h w =
      ground (arith, h, single_activity-Reads L (task_input values ref t) t.name w)

  pub task_coroutines-AllRead :
      (ts : List PregelTask)
      → any (λ t. is_subgraph_node L graph t.name) ts ≡ false
      → AllRead (map (task_coroutine {L = L} H graph values ref) ts)
  task_coroutines-AllRead [] h = tt
  task_coroutines-AllRead (t ∷ ts) h =
      (task_coroutine-Reads t (or_false _ _ h).0, task_coroutines-AllRead ts (or_false _ _ h).1)

module _ {L : Langgraph} (H : Host) where
  -- The tasks of a superstep all end, if none is a subgraph's, the schedule completes the first request
  -- of each with its node's output and no other request, and no update of the state arrives
  -- meanwhile: the i-th result is the output that the i-th request was completed with, whatever the
  -- order of the completions, and whether or not the activities are pinned to a worker.
  pub execute_nodes-ends :
      (graph : L.Graph) (tasks : List PregelTask) (outputs : List NodeActivityOutput)
      (m : Machine L)
      → any (λ t. is_subgraph_node L graph t.name) tasks ≡ false
      → length outputs ≡ length tasks
      → Answers node_output outputs m.schedule
      → ((i : ℕ) → i < length outputs → completes m.schedule i ≡ true)
      → (execute_nodes H graph tasks m).0 ≡ ended outputs
  unfolding execute_nodes ◌>>=◌
  execute_nodes-ends graph tasks outputs m none_sub same answers all =
      join-ends node_output
        (map
          (task_coroutine {L = L} H graph (get_channel_values L m.self.channels) m.self.graph_ref)
          (sorted_tasks tasks))
        outputs m
        (task_coroutines-AllSettle L H graph (get_channel_values L m.self.channels) m.self.graph_ref
          (sorted_tasks tasks) outputs (any-sorted_tasks _ tasks ∙ none_sub)
          (same ∙ sym (length-sorted_tasks tasks)))
        answers all

  -- Under the same conditions, and if no signal arrives, the tasks leave the workflow as it is.
  pub execute_nodes_self :
      (graph : L.Graph) (tasks : List PregelTask) (outputs : List NodeActivityOutput)
      (m : Machine L)
      → any (λ t. is_subgraph_node L graph t.name) tasks ≡ false
      → length outputs ≡ length tasks
      → Answers node_output outputs m.schedule
      → is_quiet m.schedule ≡ true
      → (execute_nodes H graph tasks m).1.self ≡ m.self
  unfolding execute_nodes ◌>>=◌
  execute_nodes_self graph tasks outputs m none_sub same answers quiet =
      let values = get_channel_values L m.self.channels in
      join_self node_output
        (map (task_coroutine {L = L} H graph values m.self.graph_ref) (sorted_tasks tasks)) outputs
        m
        (task_coroutines-AllSettle L H graph values m.self.graph_ref (sorted_tasks tasks) outputs
          (any-sorted_tasks _ tasks ∙ none_sub) (same ∙ sym (length-sorted_tasks tasks)))
        (task_coroutines-AllRead L H graph values m.self.graph_ref (sorted_tasks tasks)
          (any-sorted_tasks _ tasks ∙ none_sub))
        answers quiet

-- ===== src/Workflow/Run/Begins.antt =====
-- What a run does before its loop: the graph, the worker's queue, and the channels.
use langgraph_temporal.Prelude.{
  List, [], ◌∷◌, ◌++◌, ◌≡◌, ap, sym, true, false, not, ◌&&◌, some, none, String, append-nil, ◌∙◌,
}
use mathlib.Core.Path.{subst}
use langgraph_temporal.Prelude.Result.{ok}
use langgraph_temporal.Config.{WorkflowInput, seconds}
use langgraph_temporal.Langgraph.{Langgraph}
use langgraph_temporal.Text.{truthy_text}
use langgraph_temporal.Registry.{lookup}
use langgraph_temporal.Coroutine.{Request, run_discovery, queue_name, advance}
use langgraph_temporal.Workflow.{Workflow, running}
use langgraph_temporal.Workflow.Dispatch.{discover_worker, discovery_reply}
use langgraph_temporal.Workflow.Machine.{
  Event, complete, ended, exec, join, join_loop, start_all, collect_one,
}
use langgraph_temporal.Workflow.Machine.Runs.{
  machine, one_returned, Runs, Runs-pure, Runs-asks, Runs-lift, Runs-update_self, Runs-bind,
  Runs-then, Runs-true, Runs-false, Runs-still,
}
use langgraph_temporal.Workflow.Start.{
  begin, configure, discover_if_needed, initialise, restore, reset, write_input, input_task,
}
use langgraph_temporal.Workflow.Superstep.Plain.{applied, apply_list-applied}

discover_worker-Runs :
    {L : Langgraph} (queue : String) (w : Workflow L)
    → Runs
        (exec discover_worker)
        w
        (complete 0 (queue_name queue) ∷ [])
        tt
        (record w { sticky_task_queue = some queue })
        (run_discovery (seconds 10) ∷ [])
unfolding exec join start_all join_loop collect_one advance discover_worker discovery_reply
discover_worker-Runs queue w = record {
  at = λ rest issued.
      let w' = record w { sticky_task_queue = some queue } in
      let sent = issued ++ (run_discovery (seconds 10) ∷ []) in
      one_returned rest tt w' (sent ++ [])
      ∙ ap (λ rs. (ended tt, machine w' rest rs)) (append-nil sent);
}

module _ {L : Langgraph} (input : WorkflowInput) where
  -- The worker's queue: it is not needed or known, or the server names it.
  pub data Pinned (w : Workflow L) : List Event → Workflow L → List Request → Type 0 where
    known :
        (input.use_worker_affinity && not (truthy_text input.sticky_task_queue)) ≡ false
        → Pinned w [] w []
    discovered :
        (queue : String)
        → (input.use_worker_affinity && not (truthy_text input.sticky_task_queue)) ≡ true
        → Pinned w
            (complete 0 (queue_name queue) ∷ [])
            (record w { sticky_task_queue = some queue })
            (run_discovery (seconds 10) ∷ [])

  -- The channels and the checkpoint: the restored ones, fresh ones, or fresh ones with the input.
  pub data Initial (graph : L.Graph) (w : Workflow L) : Workflow L → Type 0 where
    restored :
        {state : _} → input.restored_state ≡ some state → Initial graph w (restore graph state w)
    empty : input.restored_state ≡ none → input.input_data ≡ none → Initial graph w (reset graph w)
    given :
        {d : _} {w' : Workflow L}
        → input.restored_state ≡ none
        → input.input_data ≡ some d
        → applied L (input_task (L.input_channel graph) d ∷ []) (reset graph w) ≡ ok w'
        → Initial graph w w'

  -- A run begins: its graph is registered, it gets the settings of its input, a queue, channels and a
  -- checkpoint, and the status "running".
  pub data Begins (graph : L.Graph) (w : Workflow L)
      : List Event → Workflow L → List Request → Type 0 where
    begins :
        {w1 w2 : Workflow L} {es : List Event} {sent : List Request}
        → lookup input.graph_definition_ref w.registry ≡ ok graph
        → Pinned (configure input graph w) es w1 sent
        → Initial graph w1 w2
        → Begins graph w es (record w2 { status = running }) sent

  discover-Runs :
      {w w' : Workflow L} {es : List Event} {sent : List Request}
      → Pinned w es w' sent
      → Runs (discover_if_needed input) w es tt w' sent
  unfolding discover_if_needed
  discover-Runs {w = w} (known h) = Runs-false _ _ h (Runs-pure tt w)
  discover-Runs {w = w} (discovered queue h) = Runs-true _ _ h (discover_worker-Runs queue w)

  initialise-Runs :
      {graph : L.Graph} {w w' : Workflow L}
      → Initial graph w w'
      → Runs (initialise graph input input.restored_state) w [] tt w' []
  unfolding initialise write_input
  initialise-Runs {graph = graph} {w = w} (restored {state = state} e) =
      subst (λ r. Runs (initialise graph input r) w [] tt (restore graph state w) []) (sym e)
        (Runs-update_self (restore graph state) w)
  initialise-Runs {graph = graph} {w = w} (empty e none_given) =
      subst (λ r. Runs (initialise graph input r) w [] tt (reset graph w) []) (sym e)
        (Runs-then _ (Runs-update_self (reset graph) w) (
          subst (λ d. Runs (write_input graph d) (reset graph w) [] tt (reset graph w) [])
            (sym none_given) (Runs-pure tt (reset graph w))))
  initialise-Runs {graph = graph} {w = w} {w' = w'} (given {d = d} e d_given writes) =
      subst (λ r. Runs (initialise graph input r) w [] tt w' []) (sym e)
        (Runs-then _ (Runs-update_self (reset graph) w) (
          subst (λ d. Runs (write_input graph d) (reset graph w) [] tt w' []) (sym d_given)
            (Runs-still (λ es rs.
              apply_list-applied (input_task (L.input_channel graph) d ∷ [])
                (machine (reset graph w) es rs) w' writes))))

  pub begin-Runs :
      {graph : L.Graph} {w w' : Workflow L} {es : List Event} {sent : List Request}
      → Begins graph w es w' sent
      → Runs (begin input) w es graph w' sent
  unfolding begin
  begin-Runs {graph = graph} {w = w} (begins {w1 = w1} {w2 = w2} found queue init) =
      Runs-bind _ (Runs-asks (λ w. w) w) (
        Runs-bind _ (Runs-lift _ graph w found) (
          Runs-bind _ (Runs-update_self (configure input graph) w) (
            Runs-then _ (discover-Runs queue) (
              Runs-then _ (initialise-Runs init)
                (Runs-then _ (Runs-update_self _ w2) (Runs-pure graph _))))))

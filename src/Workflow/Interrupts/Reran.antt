-- ===== src/Workflow/Interrupts/Reran.antt =====
-- `_execute_resumed_nodes`: the second runs of nodes, one after the other, with signals between the
-- replies, up to the last or to one that fails.
use langgraph_temporal.Prelude.{List, [], ◌∷◌, ◌++◌, true, false, ◌≡◌, refl, ◌∙◌, arith, String}
use langgraph_temporal.Prelude.Dict.{Dict}
use langgraph_temporal.Prelude.Result.{ok}
use langgraph_temporal.Value.{Value}
use langgraph_temporal.Config.{NodeActivityInput, NodeActivityOutput}
use langgraph_temporal.Langgraph.{Langgraph}
use langgraph_temporal.Coroutine.{
  Slot, Request, node_output, run_activity, returned, failed, parked,
}
use langgraph_temporal.Workflow.{Workflow}
use langgraph_temporal.Workflow.Routing.{activity_call}
use langgraph_temporal.Workflow.Dispatch.{execute_single_activity}
use langgraph_temporal.Workflow.Machine.{Event, exec, start_all, collect_one, unsettled, ready}
use langgraph_temporal.Workflow.Machine.Flags.{waiting}
use langgraph_temporal.Workflow.Machine.Served.{some_wait, Served, Served-step}
use langgraph_temporal.Workflow.Machine.Awaits.{AllAwait, Runs-serve}
use langgraph_temporal.Workflow.Machine.Runs.{Runs, Runs-pure, Runs-asks, Runs-bind, Runs-returns}
use langgraph_temporal.Workflow.Nodes.{resumed_input, resumed_loop}
use langgraph_temporal.Workflow.Nodes.Pushes.{no_effect, node_failing, single_activity-starts}

module _ {L : Langgraph} where
  -- The slot of one activity, which ends with o.
  AwaitsOne : List (Slot (Workflow L) NodeActivityOutput) → NodeActivityOutput → Type 0
  AwaitsOne xs o = AllAwait node_output (λ o. ok o) no_effect node_failing xs (o ∷ [])

  one-waits :
      (o : NodeActivityOutput) (xs : List (Slot (Workflow L) NodeActivityOutput))
      → AwaitsOne xs o
      → some_wait (waiting xs) ≡ true
      → collect_one xs ≡ unsettled
  unfolding AwaitsOne collect_one
  one-waits o [] h n = refl
  one-waits o (x ∷ y ∷ xs) h n = elim h.1 [ ]
  one-waits o (returned a ∷ []) h n = ground (arith, n)
  one-waits o (failed e ∷ []) h n = ground (arith, n)
  one-waits o (parked q k ∷ []) h n = refl

  one-ends :
      (o : NodeActivityOutput) (xs : List (Slot (Workflow L) NodeActivityOutput))
      → AwaitsOne xs o
      → some_wait (waiting xs) ≡ false
      → collect_one xs ≡ ready o
  unfolding AwaitsOne collect_one
  one-ends o [] h n = elim h [ ]
  one-ends o (x ∷ y ∷ xs) h n = elim h.1 [ ]
  one-ends o (returned a ∷ []) h n = ground (arith, h.0)
  one-ends o (failed e ∷ []) h n = ground (arith, h.0)
  one-ends o (parked q k ∷ []) h n = ground (arith, n)

  -- An activity that is awaited by itself.
  pub exec-Served :
      (input : NodeActivityInput) (node : String) (o : NodeActivityOutput) {w w' : Workflow L}
      {es : List Event}
      → Served node_output no_effect (o ∷ []) (true ∷ []) w es w'
      → Runs
          (exec (execute_single_activity input node))
          w
          es
          o
          w'
          (run_activity (activity_call w input node) ∷ [])
  unfolding exec AwaitsOne start_all
  exec-Served input node o {w = w} served =
      let (k, first, answers, fails) = single_activity-starts input node w in
      Runs-serve node_output (λ o. ok o) no_effect node_failing collect_one (o ∷ []) o (one-waits o)
        (one-ends o) (execute_single_activity input node ∷ [])
        {xs = parked (run_activity (activity_call w input node)) k ∷ []} (ground (arith, first))
        ((answers o, fails), tt) served

  -- The second runs of these nodes with these channel values: each gets the resume values of the moment
  -- at which it starts, and is awaited before the next one starts.
  pub data Reran (values : Dict Value)
      : List NodeActivityOutput
        → Workflow L
        → List Event
        → List NodeActivityOutput
        → Workflow L
        → List Request
        → Type 0 where
    all_reran : {w : Workflow L} → Reran values [] w [] [] w []
    reran :
        {rs os : List NodeActivityOutput} {w w1 w' : Workflow L} {es later : List Event}
        {sent : List Request} (r o : NodeActivityOutput)
        → Served node_output no_effect (o ∷ []) (true ∷ []) w es w1
        → Reran values rs w1 later os w' sent
        → Reran values
            (r ∷ rs)
            w
            (es ++ later)
            (o ∷ os)
            w'
            (run_activity (activity_call w (resumed_input values r w) r.node_name) ∷ sent)

  pub resumed_loop-Runs :
      (values : Dict Value) {rs os : List NodeActivityOutput} {w w' : Workflow L} {es : List Event}
      {sent : List Request}
      → Reran values rs w es os w' sent
      → Runs (resumed_loop values rs) w es os w' sent
  unfolding resumed_loop
  resumed_loop-Runs values {w = w} all_reran = Runs-pure [] w
  resumed_loop-Runs values {w = w} (reran r o served later) =
      Runs-bind _ (Runs-asks (resumed_input values r) w) (
        Runs-bind _ (exec-Served (resumed_input values r w) r.node_name o served)
          (Runs-returns (λ os. o ∷ os) (resumed_loop-Runs values later)))

  pub Reran-step :
      (values : Dict Value) {rs os : List NodeActivityOutput} {w w' : Workflow L} {es : List Event}
      {sent : List Request}
      → Reran values rs w es os w' sent
      → w'.step ≡ w.step
  Reran-step values all_reran = refl
  Reran-step values (reran r o served later) =
      Reran-step values later ∙ Served-step node_output no_effect (λ o w. refl) served

-- ===== src/Workflow/Interrupts/Lost.antt =====
-- `_execute_resumed_nodes` when one of the second runs fails.
use langgraph_temporal.Prelude.{
  zero, suc, List, [], ◌∷◌, ◌++◌, Bool, true, ◌≡◌, refl, arith, append-nil, String, some,
}
use langgraph_temporal.Prelude.Dict.{Dict}
use langgraph_temporal.Prelude.Result.{Exn}
use langgraph_temporal.Value.{Value}
use langgraph_temporal.Config.{NodeActivityInput, NodeActivityOutput}
use langgraph_temporal.Langgraph.{Langgraph}
use langgraph_temporal.Coroutine.{
  Co, Request, Reply, node_output, run_activity, failed, parked, advance,
}
use langgraph_temporal.Workflow.{Workflow}
use langgraph_temporal.Workflow.Routing.{activity_call}
use langgraph_temporal.Workflow.Dispatch.{execute_single_activity}
use langgraph_temporal.Workflow.Machine.{
  Event, exec, join, join_loop, start_all, deliver, resume_slot, collect_one, raised,
}
use langgraph_temporal.Workflow.Machine.Served.{some_wait, some_wait-flag, Served}
use langgraph_temporal.Workflow.Machine.Broken.{
  Broken, broken, refused, replied_before, resumed_before, updated_before, woken_before,
}
use langgraph_temporal.Workflow.Machine.Runs.{machine, Runs-asks}
use langgraph_temporal.Workflow.Machine.Raises.{Raises, Raises-first, Raises-later}
use langgraph_temporal.Workflow.Nodes.{resumed_input, resumed_loop}
use langgraph_temporal.Workflow.Nodes.Pushes.{
  no_effect, activity_failing, node_failing, single_activity-starts,
}
use langgraph_temporal.Workflow.Interrupts.Reran.{exec-Served}

module _ {L : Langgraph} where
  one_failed :
      (es : List Event) (e : Exn) (w : Workflow L) (rs : List Request)
      → join_loop {A = NodeActivityOutput} collect_one es (failed e ∷ []) w rs
        ≡ (raised e, machine w es rs)
  unfolding join_loop collect_one
  one_failed [] e w rs = refl
  one_failed (x ∷ es) e w rs = refl

  -- A group breaks only as long as one of it waits.
  Broken-waits :
      {bs : List NodeActivityOutput} {flags : List Bool} {w w' : Workflow L} {es : List Event}
      {e : Exn}
      → Broken node_output no_effect node_failing bs flags w es e w'
      → some_wait flags ≡ true
  Broken-waits {flags = flags} (broken i r g fails) = some_wait-flag i flags g
  Broken-waits (refused u some_one fails) = some_one
  Broken-waits {flags = flags} (replied_before i r g e later) = some_wait-flag i flags g
  Broken-waits (resumed_before v some_one later) = some_one
  Broken-waits (updated_before u some_one e later) = some_one
  Broken-waits (woken_before some_one later) = some_one

  module _ (q : Request) (k : Reply → Co (Workflow L) NodeActivityOutput)
      (fails : (r : Reply) (w w' : Workflow L) (e : Exn)
        → activity_failing r w ≡ some (e, w')
        → advance (k r) w ≡ (failed e, w')) where
    one-Broken :
        (o : NodeActivityOutput) {w w' : Workflow L} {es : List Event} {e : Exn} (rest : List Event)
        (issued : List Request)
        → Broken node_output no_effect node_failing (o ∷ []) (true ∷ []) w es e w'
        → join_loop collect_one (es ++ rest) (parked q k ∷ []) w issued
          ≡ (raised e, machine w' rest issued)
    unfolding join_loop collect_one deliver resume_slot
    one-Broken o {w = w} {w' = w'} {e = e} rest issued (broken zero r g breaks) =
        ground (arith, append-nil issued, fails r w w' e breaks, one_failed rest e w' issued)
    one-Broken o rest issued (broken (suc i) r g breaks) = ground (arith, g)
    one-Broken o rest issued (refused u some_one refuses) = ground (arith, refuses)
    one-Broken o rest issued (replied_before zero r g e later) =
        absurd (ground (arith, Broken-waits later))
    one-Broken o rest issued (replied_before (suc i) r g e later) = ground (arith, g)
    one-Broken o rest issued (resumed_before v some_one later) = one-Broken o rest issued later
    one-Broken o rest issued (updated_before u some_one e later) =
        ground (arith, e, one-Broken o rest issued later)
    one-Broken o rest issued (woken_before some_one later) = one-Broken o rest issued later

  -- An activity that is awaited by itself, and that would end with o, fails.
  exec-Raises :
      (input : NodeActivityInput) (node : String) (o : NodeActivityOutput) {w w' : Workflow L}
      {es : List Event} {e : Exn}
      → Broken node_output no_effect node_failing (o ∷ []) (true ∷ []) w es e w'
      → Raises
          (exec (execute_single_activity input node))
          w
          es
          e
          w'
          (run_activity (activity_call w input node) ∷ [])
  unfolding exec join start_all
  exec-Raises input node o {w = w} {w' = w'} {es = es} {e = e} breaks =
      let (k, first, answers, fails) = single_activity-starts input node w in
      let q = run_activity (activity_call w input node) in
      record {
        at = λ rest issued. ground (
          arith,
          first,
          append-nil issued,
          one-Broken q k fails o rest (issued ++ (q ∷ [])) breaks,
        );
      }

  -- The second runs of these nodes up to the one that fails.
  pub data RerunFails (values : Dict Value)
      : List NodeActivityOutput
        → Workflow L
        → List Event
        → Exn
        → Workflow L
        → List Request
        → Type 0 where
    fails_now :
        {rs : List NodeActivityOutput} {w w' : Workflow L} {es : List Event} {e : Exn}
        (r o : NodeActivityOutput)
        → Broken node_output no_effect node_failing (o ∷ []) (true ∷ []) w es e w'
        → RerunFails values
            (r ∷ rs)
            w
            es
            e
            w'
            (run_activity (activity_call w (resumed_input values r w) r.node_name) ∷ [])
    fails_later :
        {rs : List NodeActivityOutput} {w w1 w' : Workflow L} {es later : List Event} {e : Exn}
        {sent : List Request} (r o : NodeActivityOutput)
        → Served node_output no_effect (o ∷ []) (true ∷ []) w es w1
        → RerunFails values rs w1 later e w' sent
        → RerunFails values
            (r ∷ rs)
            w
            (es ++ later)
            e
            w'
            (run_activity (activity_call w (resumed_input values r w) r.node_name) ∷ sent)

  pub resumed_loop-Raises :
      (values : Dict Value) {rs : List NodeActivityOutput} {w w' : Workflow L} {es : List Event}
      {e : Exn} {sent : List Request}
      → RerunFails values rs w es e w' sent
      → Raises (resumed_loop values rs) w es e w' sent
  unfolding resumed_loop
  resumed_loop-Raises values {w = w} (fails_now r o breaks) =
      Raises-later _ (Runs-asks (resumed_input values r) w)
        (Raises-first _ (exec-Raises (resumed_input values r w) r.node_name o breaks))
  resumed_loop-Raises values {w = w} (fails_later r o served later) =
      Raises-later _ (Runs-asks (resumed_input values r) w) (
        Raises-later _ (exec-Served (resumed_input values r w) r.node_name o served)
          (Raises-first _ (resumed_loop-Raises values later)))

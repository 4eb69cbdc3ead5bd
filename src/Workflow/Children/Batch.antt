-- ===== src/Workflow/Children/Batch.antt =====
-- `_process_child_workflow_requests` reads the ends of the sub-agents' workflows, and no more.
use langgraph_temporal.Prelude.{
  ℕ, ◌+◌, List, [], ◌∷◌, ◌++◌, ◌≡◌, refl, ap, sym, ◌∙◌, true, false, String, map, or_default, arith,
}
use mathlib.Core.Path.{subst}
use langgraph_temporal.Prelude.Lists.{length, is_nil}
use langgraph_temporal.Prelude.Result.{Result, ok, err, child_error}
use langgraph_temporal.Config.{WorkflowInput, WorkflowOutput, NodeActivityOutput, Write}
use langgraph_temporal.Langgraph.{Langgraph}
use langgraph_temporal.Text.{Host}
use langgraph_temporal.Coroutine.{
  Slot, Reply, Request, run_child, child_output, child_failed, parked, advance,
}
use langgraph_temporal.Workflow.{Workflow}
use langgraph_temporal.Workflow.Routing.{ChildCall}
use langgraph_temporal.Workflow.Children.{
  ChildRequest, child_call, child_reply, dispatch_child_workflow, dispatch_all, child_writes,
  process_result, process_child_workflow_requests,
}
use langgraph_temporal.Workflow.Machine.{Event, start_all}
use langgraph_temporal.Workflow.Machine.Flags.{all_true, waiting}
use langgraph_temporal.Workflow.Machine.Served.{Served, Served-step}
use langgraph_temporal.Workflow.Machine.Awaits.{Awaits, AllAwait, no_failure}
use langgraph_temporal.Workflow.Machine.Gather.{Runs-gather_settled}
use langgraph_temporal.Workflow.Nodes.Pushes.{no_effect}
use langgraph_temporal.Workflow.Machine.Runs.{
  Runs, Runs-pure, Runs-lift, Runs-bind, Runs-then, Runs-returns, Runs-true, Runs-false,
}

-- How a child workflow ends.
pub data ChildEnd : Type 0 where
  returns : WorkflowOutput → ChildEnd
  fails : String → ChildEnd

abbrev pub end_reply : ChildEnd → Reply
end_reply (returns o) = child_output o
end_reply (fails m) = child_failed m

abbrev pub end_outcome : ChildEnd → Result WorkflowOutput
end_outcome (returns o) = ok o
end_outcome (fails m) = err (child_error m)

-- The requests of a result.
abbrev pub asked : NodeActivityOutput → List ChildRequest
asked r = or_default r.child_workflow_requests []

module _ {L : Langgraph} (H : Host) (input : WorkflowInput) where
  -- The calls for the requests, from an index on.
  abbrev pub Calls : List ChildRequest → ℕ → Workflow L → List ChildCall → Type 0
  Calls [] index w [] = Unit
  Calls [] index w (c ∷ calls) = ⊥
  Calls (req ∷ reqs) index w [] = ⊥
  Calls (req ∷ reqs) index w (c ∷ calls) =
      (child_call H input req index w ≡ c) × Calls reqs (index + 1) w calls

  -- The results with the answers to their requests: each result's children are started together and
  -- end in any order, one result after the other.
  pub data Processed
      : Workflow L
        → List NodeActivityOutput
        → List Event
        → List NodeActivityOutput
        → Workflow L
        → List Request
        → Type 0 where
    all_processed : {w : Workflow L} → Processed w [] [] [] w []
    no_requests :
        {rs rs' : List NodeActivityOutput} {es : List Event} {w w' : Workflow L}
        {sent : List Request} (r : NodeActivityOutput)
        → is_nil (asked r) ≡ true
        → Processed w rs es rs' w' sent
        → Processed w (r ∷ rs) es (r ∷ rs') w' sent
    some_requests :
        {rs rs' : List NodeActivityOutput} {es later : List Event} {w w1 w' : Workflow L}
        {sent : List Request} (r : NodeActivityOutput) (calls : List ChildCall)
        (ends : List ChildEnd) (ws : List Write)
        → is_nil (asked r) ≡ false
        → Calls (asked r) 0 w calls
        → length ends ≡ length calls
        → Served end_reply no_effect ends (all_true ends) w es w1
        → child_writes H (asked r) (map end_outcome ends) ≡ ok ws
        → Processed w1 rs later rs' w' sent
        → Processed w
            (r ∷ rs)
            (es ++ later)
            (record r { writes = r.writes ++ ws } ∷ rs')
            w'
            (map run_child calls ++ sent)

  -- A child that is waited for.
  end-Awaits :
      (c : ChildCall) (x : ChildEnd)
      → Awaits {L = L} end_reply end_outcome no_effect no_failure
          (parked (run_child c) (child_reply H))
          x
  unfolding child_reply advance
  end-Awaits c (returns o) = ((λ w. refl), λ r w w' e h. absurd (cc))
  end-Awaits c (fails m) = ((λ w. refl), λ r w w' e h. absurd (cc))

  -- The slots of the children, once they are started.
  dispatch_all-start :
      (reqs : List ChildRequest) (index : ℕ) (w : Workflow L) (calls : List ChildCall)
      (ends : List ChildEnd)
      → Calls reqs index w calls
      → length ends ≡ length calls
      → (xs : List (Slot (Workflow L) WorkflowOutput)) × (start_all
            (dispatch_all {L = L} H input reqs index)
            w
          ≡ (xs, w, map run_child calls))
        × AllAwait end_reply end_outcome no_effect no_failure xs ends
        × (waiting xs ≡ all_true ends)
  unfolding start_all dispatch_all dispatch_child_workflow child_reply advance
  dispatch_all-start [] index w [] [] h e = ([], refl, tt, refl)
  dispatch_all-start [] index w [] (x ∷ ends) h e = absurd (omega (arith, e))
  dispatch_all-start [] index w (c ∷ calls) ends h e = elim h [ ]
  dispatch_all-start (req ∷ reqs) index w [] ends h e = elim h [ ]
  dispatch_all-start (req ∷ reqs) index w (c ∷ calls) [] h e = absurd (omega (arith, e))
  dispatch_all-start (req ∷ reqs) index w (c ∷ calls) (x ∷ ends) h e =
      let (xs, later, awaits, flags) =
        dispatch_all-start reqs (index + 1) w calls ends h.1 (omega (arith, e)) in
      (
        parked (run_child c) (child_reply H) ∷ xs,
        ground (arith, h.0, later),
        (end-Awaits c x, awaits),
        ap (λ bs. true ∷ bs) flags,
      )

  process_result-Runs :
      (r : NodeActivityOutput) (calls : List ChildCall) (ends : List ChildEnd) (ws : List Write)
      {w w' : Workflow L} {es : List Event}
      → is_nil (asked r) ≡ false
      → Calls (asked r) 0 w calls
      → length ends ≡ length calls
      → Served end_reply no_effect ends (all_true ends) w es w'
      → child_writes H (asked r) (map end_outcome ends) ≡ ok ws
      → Runs
          (process_result {L = L} H input r)
          w
          es
          (record r { writes = r.writes ++ ws })
          w'
          (map run_child calls)
  unfolding process_result
  process_result-Runs r calls ends ws {w = w} {w' = w'} {es = es} some_asked are_calls same served
        writes =
      let (xs, started, awaits, flags) =
        dispatch_all-start (asked r) 0 w calls ends are_calls same in
      Runs-false _ (is_nil (asked r)) some_asked (
        Runs-then _
          (Runs-gather_settled end_reply no_effect no_failure end_outcome
            (dispatch_all {L = L} H input (asked r) 0) ends started awaits
            (subst (λ flags. Served end_reply no_effect ends flags w es w') (sym flags) served))
          (Runs-returns (λ ws. record r { writes = r.writes ++ ws }) (Runs-lift _ ws w' writes)))

  unasked :
      (r : NodeActivityOutput) (w : Workflow L)
      → is_nil (asked r) ≡ true
      → Runs (process_result {L = L} H input r) w [] r w []
  unfolding process_result
  unasked r w h = Runs-true _ (is_nil (asked r)) h (Runs-pure r w)

  pub process-Runs :
      {w w' : Workflow L} {rs rs' : List NodeActivityOutput} {es : List Event} {sent : List Request}
      → Processed w rs es rs' w' sent
      → Runs (process_child_workflow_requests H input rs) w es rs' w' sent
  unfolding process_child_workflow_requests
  process-Runs all_processed = Runs-pure _ _
  process-Runs (no_requests r none_asked later) =
      Runs-bind _ (unasked r _ none_asked) (Runs-returns (λ rs. r ∷ rs) (process-Runs later))
  process-Runs (some_requests r calls ends ws some_asked are_calls same served writes later) =
      Runs-bind _ (process_result-Runs r calls ends ws some_asked are_calls same served writes)
        (Runs-returns (λ rs. record r { writes = r.writes ++ ws } ∷ rs) (process-Runs later))

  pub Processed-step :
      {w w' : Workflow L} {rs rs' : List NodeActivityOutput} {es : List Event} {sent : List Request}
      → Processed w rs es rs' w' sent
      → w'.step ≡ w.step
  Processed-step all_processed = refl
  Processed-step (no_requests r none_asked later) = Processed-step later
  Processed-step (some_requests r calls ends ws some_asked are_calls same served writes later) =
      Processed-step later ∙ Served-step end_reply no_effect (λ x w. refl) served

-- ===== src/Workflow/Run/Rounds.antt =====
-- `run` against a description of what it does: how it begins, and then superstep by superstep, with
-- the events that it reads, the state that it leaves and the requests that it makes.
use langgraph_temporal.Prelude.{
  ℕ, zero, suc, ◌+◌, ◌-◌, ◌<◌, List, [], ◌++◌, append_assoc, append-nil, true, false, ◌≡◌, refl, ap,
  sym, ◌∙◌, arith, ltb, leb,
}
use langgraph_temporal.Prelude.Lists.{is_nil}
use langgraph_temporal.Prelude.Result.{Exn, ok, err}
use langgraph_temporal.Config.{WorkflowInput, WorkflowOutput}
use langgraph_temporal.Langgraph.{Langgraph, PregelTask}
use langgraph_temporal.Text.{Host}
use langgraph_temporal.Coroutine.{Request}
use langgraph_temporal.Workflow.{
  Workflow, running, finished, get_channel_values, continue_as_new_threshold,
}
use langgraph_temporal.Workflow.Machine.{
  Event, Machine, Outcome, ended, raised, continued, blocked, exhausted, follow, asks, update_self,
  ◌>>=◌,
}
use langgraph_temporal.Workflow.Machine.Runs.{machine}
use langgraph_temporal.Workflow.Superstep.Plain.{bind-ended, bind-follow}
use langgraph_temporal.Workflow.Superstep.Steps.{Superstep, Superstep-step}
use langgraph_temporal.Workflow.Run.{carried_input, loop, finish, run}
use langgraph_temporal.Workflow.Superstep.Failures.{StepFails}
use langgraph_temporal.Workflow.Run.Begins.{Begins, begin-Runs}
use langgraph_temporal.Workflow.Run.Iterations.{
  due, loop-goes_on, loop-idle, loop-raises, loop-renews, loop-stops, loop_body-failing,
  loop_body-idle, loop_body-round, loop_body-unprepared,
}

more_fuel : (limit step fuel : ℕ) → ltb step limit ≡ true → limit < step + suc fuel → 0 < fuel
more_fuel limit step fuel more enough = ground (arith, more, enough)

module _ {L : Langgraph} (H : Host) (graph : L.Graph) (input : WorkflowInput) where
  -- From the state w, after k supersteps of this run, the events lead to an end of the loop in the state
  -- w', with these requests: at the recursion limit, where no task is due, where langgraph raises or a
  -- superstep fails, or after the superstep with which the run continues as new.
  pub data Rounds
      : ℕ → Workflow L → List Event → Outcome (Unit {0}) → Workflow L → List Request → Type 0 where
    at_limit :
        {k : ℕ} {w : Workflow L}
        → ltb w.step input.recursion_limit ≡ false
        → Rounds k w [] (ended tt) w []
    idle :
        {k : ℕ} {w : Workflow L}
        → ltb w.step input.recursion_limit ≡ true
        → due H graph input w ≡ ok []
        → Rounds k w [] (ended tt) (record w { status = finished }) []
    unprepared :
        {k : ℕ} {w : Workflow L} {e : Exn}
        → ltb w.step input.recursion_limit ≡ true
        → due H graph input w ≡ err e
        → Rounds k w [] (raised e) w []
    failing :
        {k : ℕ} {w w' : Workflow L} {es : List Event} {e : Exn} {sent : List Request}
        (tasks : List PregelTask)
        → ltb w.step input.recursion_limit ≡ true
        → due H graph input w ≡ ok tasks
        → is_nil tasks ≡ false
        → StepFails H graph input tasks w es e w' sent
        → Rounds k w es (raised e) w' sent
    renewed :
        {k : ℕ} {w w' : Workflow L} {es : List Event} {sent : List Request}
        (tasks : List PregelTask)
        → ltb w.step input.recursion_limit ≡ true
        → due H graph input w ≡ ok tasks
        → is_nil tasks ≡ false
        → Superstep H graph input tasks w es w' sent
        → leb continue_as_new_threshold (k + 1) ≡ true
        → Rounds k w es (continued (carried_input input w')) w' sent
    round :
        {k : ℕ} {w w1 w' : Workflow L} {es rest : List Event} {o : Outcome (Unit {0})}
        {sent later : List Request} (tasks : List PregelTask)
        → ltb w.step input.recursion_limit ≡ true
        → due H graph input w ≡ ok tasks
        → is_nil tasks ≡ false
        → Superstep H graph input tasks w es w1 sent
        → leb continue_as_new_threshold (k + 1) ≡ false
        → Rounds (k + 1) w1 rest o w' later
        → Rounds k w (es ++ rest) o w' (sent ++ later)

  loop-Rounds :
      (fuel k : ℕ) {w w' : Workflow L} {es : List Event} {o : Outcome (Unit {0})}
      {sent : List Request} (rest : List Event) (issued : List Request)
      → Rounds k w es o w' sent
      → input.recursion_limit < w.step + fuel
      → 0 < fuel
      → loop H fuel graph input k (machine w (es ++ rest) issued)
        ≡ (o, machine w' rest (issued ++ sent))
  loop-Rounds zero k rest issued rounds enough some_fuel = absurd (omega arith)
  loop-Rounds (suc fuel) k {w = w} rest issued (at_limit stop) enough some_fuel =
      loop-stops H graph input fuel k (machine w rest issued) stop
      ∙ ap (λ rs. (ended tt, machine w rest rs)) (sym (append-nil issued))
  loop-Rounds (suc fuel) k {w = w} rest issued (idle more none_due) enough some_fuel =
      let m : Machine L = machine w rest issued in
      loop-idle H graph input fuel k m _ more (loop_body-idle H graph input m none_due)
      ∙ ap (λ rs. (ended tt, machine (record w { status = finished }) rest rs))
          (sym (append-nil issued))
  loop-Rounds (suc fuel) k {w = w} rest issued (unprepared {e = e} more none_named) enough
        some_fuel =
      loop-raises H graph input fuel k (machine w rest issued) _ e more
        ((loop_body-unprepared H graph input none_named).at rest issued)
  loop-Rounds (suc fuel) k {w = w} {es = es} rest issued
        (failing {e = e} tasks more is_due some_task fails) enough some_fuel =
      loop-raises H graph input fuel k (machine w (es ++ rest) issued) _ e more
        ((loop_body-failing H graph input tasks is_due some_task fails).at rest issued)
  loop-Rounds (suc fuel) k {w = w} {es = es} rest issued
        (renewed tasks more is_due some_task step last) enough some_fuel =
      loop-renews H graph input fuel k (machine w (es ++ rest) issued) _ more
        ((loop_body-round H graph input tasks is_due some_task step).at rest issued) last
  loop-Rounds (suc fuel) k {w = w} {w' = w'} {o = o} rest issued
        (round {w1 = w1} {es = es1} {rest = later} {sent = sent1} {later = sent2} tasks more is_due
          some_task step few rounds)
        enough some_fuel =
      ap (λ es. loop H (suc fuel) graph input k (machine w es issued)) (append_assoc es1 later rest)
      ∙ loop-goes_on H graph input fuel k (machine w (es1 ++ (later ++ rest)) issued)
          (machine w1 (later ++ rest) (issued ++ sent1)) more
          ((loop_body-round H graph input tasks is_due some_task step).at (later ++ rest) issued)
          few
      ∙ loop-Rounds fuel (k + 1) rest (issued ++ sent1) rounds
          (omega (arith, enough, Superstep-step H graph input tasks step))
          (more_fuel input.recursion_limit w.step fuel more enough)
      ∙ ap (λ rs. (o, machine w' rest rs)) (append_assoc issued sent1 sent2)

-- What `run` makes of the end of its loop, and the state that it leaves.
abbrev pub result : {L : Langgraph} → Outcome (Unit {0}) → Workflow L → Outcome WorkflowOutput
result {L} (ended u) w =
    ended (record { channel_values = get_channel_values L w.channels; step = w.step })
result (raised e) w = raised e
result (continued next) w = continued next
result blocked w = blocked
result exhausted w = exhausted

abbrev pub left : {L : Langgraph} → Outcome (Unit {0}) → Workflow L → Workflow L
left (ended u) w = record w { status = elim w.status [ running ↦ finished | other ↦ other ] }
left _ w = w

module _ {L : Langgraph} (H : Host) where
  finished_run :
      (o : Outcome (Unit {0})) (w : Workflow L) (es : List Event) (rs : List Request)
      → follow o (λ _. finish {L = L}) (machine w es rs) ≡ (result o w, machine (left o w) es rs)
  unfolding finish asks update_self ◌>>=◌
  finished_run (ended u) w es rs = refl
  finished_run (raised e) w es rs = refl
  finished_run (continued next) w es rs = refl
  finished_run blocked w es rs = refl
  finished_run exhausted w es rs = refl

  -- What a run does from its start to its end. It begins: its graph is registered, and with worker
  -- affinity the server names a queue unless the input brings one. Then it goes superstep by superstep:
  -- the tasks that langgraph names, with a pause before or after them if one is configured; the
  -- ends of their activities and of the child workflows of subgraphs, in any order and with signals
  -- between them, where a subgraph is registered until its child has ended; the ends of their
  -- sub-agents; a pause and second runs if nodes are interrupted; the replies to sent and routed
  -- tasks; and the writes of all results, which langgraph takes. If the schedule goes on with just
  -- these events, then the run reads them and no others, makes just the requests that these phases
  -- make, in order, and ends: at the recursion limit or where no task is due, with the values and
  -- the step of the state that they lead to; at the step with which it continues as new, with that
  -- state; or with an exception, where an activity fails without a sticky queue, or a subgraph, or
  -- langgraph raises, or a send names no node, or an update of the state is refused while the nodes
  -- run, in the state of that moment.
  pub run-Rounds :
      (input : WorkflowInput) (graph : L.Graph) {w w0 w' : Workflow L} {es0 es : List Event}
      {o : Outcome (Unit {0})} {sent0 sent : List Request} (rest : List Event)
      (issued : List Request)
      → Begins input graph w es0 w0 sent0
      → Rounds H graph input 0 w0 es o w' sent
      → run H input (machine w (es0 ++ (es ++ rest)) issued)
        ≡ (result o w', machine (left o w') rest (issued ++ (sent0 ++ sent)))
  unfolding run asks
  run-Rounds input graph {w = w} {w0 = w0} {w' = w'} {es0 = es0} {es = es} {o = o} {sent0 = sent0}
        {sent = sent} rest issued begun rounds =
      let fuel = suc (input.recursion_limit - w0.step) in
      let m0 : Machine L = machine w0 (es ++ rest) (issued ++ sent0) in
      bind-ended _ _ (machine w (es0 ++ (es ++ rest)) issued)
        ((begin-Runs input begun).at (es ++ rest) issued)
      ∙ bind-ended _ _ m0 refl
      ∙ bind-follow _ _ m0 (
          loop-Rounds H graph input fuel 0 rest (issued ++ sent0) rounds (omega arith)
            (omega arith))
      ∙ finished_run o w' rest (issued ++ sent0 ++ sent)
      ∙ ap (λ rs. (result o w', machine (left o w') rest rs)) (append_assoc issued sent0 sent)

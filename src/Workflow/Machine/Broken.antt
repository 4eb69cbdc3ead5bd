-- ===== src/Workflow/Machine/Broken.antt =====
-- A `gather` that is broken: one of its coroutines raises before all of them have ended.
use langgraph_temporal.Prelude.{
  ℕ, zero, suc, List, [], ◌∷◌, ◌++◌, Option, none, some, Bool, true, ◌≡◌, refl, ap, ◌∙◌, arith,
  append-nil,
}
use langgraph_temporal.Prelude.Lists.{get_elem?}
use langgraph_temporal.Prelude.Result.{Exn, ok, err}
use langgraph_temporal.Value.{Value}
use langgraph_temporal.Config.{StateUpdatePayload}
use langgraph_temporal.Langgraph.{Langgraph}
use langgraph_temporal.Coroutine.{Co, Slot, Request, Reply, returned, failed, parked}
use langgraph_temporal.Workflow.{Workflow}
use langgraph_temporal.Workflow.Signals.{resume_signal, update_state_signal}
use langgraph_temporal.Workflow.Machine.{
  Event, complete, resume, update, wake, raised, start_all, resume_slot, deliver, collect_all,
  failure, add_result, add_waiting, join_loop, join,
}
use langgraph_temporal.Workflow.Machine.Promises.{reply_at}
use langgraph_temporal.Workflow.Machine.Flags.{cleared, waiting}
use langgraph_temporal.Workflow.Machine.Runs.{machine}
use langgraph_temporal.Workflow.Machine.Raises.{Raises}
use langgraph_temporal.Workflow.Machine.Served.{some_wait, some_wait-flag, effect_at}
use langgraph_temporal.Workflow.Machine.Awaits.{AllAwait, delivered}
use langgraph_temporal.Workflow.Machine.Gather.{all-waits, returns_value}

module _ {L : Langgraph} {B : Type 0} (reply : B → Reply) (effect : B → Workflow L → Workflow L)
    (failing : B → Reply → Workflow L → Option (Exn × Workflow L)) where
  abbrev pub failing_at : ℕ → List B → Reply → Workflow L → Option (Exn × Workflow L)
  failing_at i [] r w = none
  failing_at zero (b ∷ bs) r w = failing b r w
  failing_at (suc i) (b ∷ bs) r w = failing_at i bs r w

  -- The events that a group reads which would have these ends, some of its coroutines waiting, until
  -- the reply that breaks one of them, or an update of the state that langgraph refuses.
  pub data Broken (bs : List B)
      : List Bool → Workflow L → List Event → Exn → Workflow L → Type 0 where
    broken :
        {flags : List Bool} {w w' : Workflow L} {e : Exn} (i : ℕ) (r : Reply)
        → get_elem? flags i ≡ some true
        → failing_at i bs r w ≡ some (e, w')
        → Broken bs flags w (complete i r ∷ []) e w'
    refused :
        {flags : List Bool} {w : Workflow L} {e : Exn} (u : StateUpdatePayload)
        → some_wait flags ≡ true
        → update_state_signal u w ≡ err e
        → Broken bs flags w (update u ∷ []) e w
    replied_before :
        {flags : List Bool} {w w' : Workflow L} {es : List Event} {e : Exn} (i : ℕ) (r : Reply)
        → get_elem? flags i ≡ some true
        → reply_at reply i bs ≡ some r
        → Broken bs (cleared i flags) (effect_at reply effect i bs w) es e w'
        → Broken bs flags w (complete i r ∷ es) e w'
    resumed_before :
        {flags : List Bool} {w w' : Workflow L} {es : List Event} {e : Exn} (v : Value)
        → some_wait flags ≡ true
        → Broken bs flags (resume_signal v w) es e w'
        → Broken bs flags w (resume v ∷ es) e w'
    updated_before :
        {flags : List Bool} {w w1 w' : Workflow L} {es : List Event} {e : Exn}
        (u : StateUpdatePayload)
        → some_wait flags ≡ true
        → update_state_signal u w ≡ ok w1
        → Broken bs flags w1 es e w'
        → Broken bs flags w (update u ∷ es) e w'
    woken_before :
        {flags : List Bool} {w w' : Workflow L} {es : List Event} {e : Exn}
        → some_wait flags ≡ true
        → Broken bs flags w es e w'
        → Broken bs flags w (wake ∷ es) e w'

  module _ {A : Type 0} (value : B → A) where
    Waits : List (Slot (Workflow L) A) → List B → Type 0
    Waits xs bs = AllAwait reply (returns_value reply effect failing value) effect failing xs bs

    -- The slot that raises makes the group raise, as the ones before it have returned or wait.
    breaks :
        (i : ℕ) (r : Reply) (xs : List (Slot (Workflow L) A)) (bs : List B) (w w' : Workflow L)
        (e : Exn)
        → get_elem? (waiting xs) i ≡ some true
        → failing_at i bs r w ≡ some (e, w')
        → Waits xs bs
        → (xs' : List (Slot (Workflow L) A)) × (deliver i r xs w ≡ (xs', w', []))
          × (collect_all xs' ≡ failure e)
    unfolding Waits deliver resume_slot collect_all
    breaks i r [] bs w w' e g f h = ground (arith, g)
    breaks i r (x ∷ xs) [] w w' e g f h = elim h [ ]
    breaks zero r (returned a ∷ xs) (b ∷ bs) w w' e g f h = ground (arith, g)
    breaks zero r (failed x ∷ xs) (b ∷ bs) w w' e g f h = ground (arith, g)
    breaks zero r (parked q k ∷ xs) (b ∷ bs) w w' e g f h =
        (failed e ∷ xs, ground (arith, h.0.1 r w w' e f), refl)
    breaks (suc i) r (returned a ∷ xs) (b ∷ bs) w w' e g f h =
        let (xs', same, collected) = breaks i r xs bs w w' e g f h.1 in
        (returned a ∷ xs', ground (arith, same), ap (add_result a) collected)
    breaks (suc i) r (failed x ∷ xs) (b ∷ bs) w w' e g f h = ground (arith, h.0)
    breaks (suc i) r (parked q k ∷ xs) (b ∷ bs) w w' e g f h =
        let (xs', same, collected) = breaks i r xs bs w w' e g f h.1 in
        (parked q k ∷ xs', ground (arith, same), ap add_waiting collected)

    join_loop-failure :
        (es : List Event) (xs : List (Slot (Workflow L) A)) (w : Workflow L) (issued : List Request)
        (e : Exn)
        → collect_all xs ≡ failure e
        → join_loop collect_all es xs w issued ≡ (raised e, machine w es issued)
    unfolding join_loop
    join_loop-failure [] xs w issued e h = ground (arith, h)
    join_loop-failure (x ∷ es) xs w issued e h = ground (arith, h)

    join_loop-Broken :
        (bs : List B) {flags : List Bool} {w w' : Workflow L} {es : List Event} {e : Exn}
        (rest : List Event) (xs : List (Slot (Workflow L) A)) (issued : List Request)
        → Waits xs bs
        → waiting xs ≡ flags
        → Broken bs flags w es e w'
        → join_loop collect_all (es ++ rest) xs w issued ≡ (raised e, machine w' rest issued)
    unfolding join_loop Waits
    join_loop-Broken bs {w = w} {w' = w'} {e = e} rest xs issued h f (broken i r g fails) =
        let here = ap (λ flags. get_elem? flags i) f ∙ g in
        let (xs', same, collected) = breaks i r xs bs w w' e here fails h in
        ground (
          arith,
          append-nil issued,
          all-waits reply effect failing value xs bs h (some_wait-flag i (waiting xs) here),
          same,
          join_loop-failure rest xs' w' issued e collected,
        )
    join_loop-Broken bs rest xs issued h f (refused u some_one fails) =
        ground
          (arith, all-waits reply effect failing value xs bs h (ap some_wait f ∙ some_one), fails)
    join_loop-Broken bs {w = w} rest xs issued h f (replied_before i r g e later) =
        let here = ap (λ flags. get_elem? flags i) f ∙ g in
        let (xs', same, awaits, flags) =
          delivered reply (returns_value reply effect failing value) effect failing i r xs bs w here
            e h in
        ground (
          arith,
          append-nil issued,
          all-waits reply effect failing value xs bs h (some_wait-flag i (waiting xs) here),
          same,
          join_loop-Broken bs rest xs' issued awaits (flags ∙ ap (cleared i) f) later,
        )
    join_loop-Broken bs rest xs issued h f (resumed_before v some_one later) = ground (
      arith,
      all-waits reply effect failing value xs bs h (ap some_wait f ∙ some_one),
      join_loop-Broken bs rest xs issued h f later,
    )
    join_loop-Broken bs rest xs issued h f (updated_before u some_one e later) = ground (
      arith,
      all-waits reply effect failing value xs bs h (ap some_wait f ∙ some_one),
      e,
      join_loop-Broken bs rest xs issued h f later,
    )
    join_loop-Broken bs rest xs issued h f (woken_before some_one later) = ground (
      arith,
      all-waits reply effect failing value xs bs h (ap some_wait f ∙ some_one),
      join_loop-Broken bs rest xs issued h f later,
    )

    -- A `gather` of which a coroutine raises.
    pub Raises-gather :
        (cs : List (Co (Workflow L) A)) (bs : List B) {w w1 w' : Workflow L} {es : List Event}
        {e : Exn} {xs : List (Slot (Workflow L) A)} {sent : List Request}
        → start_all cs w ≡ (xs, w1, sent)
        → AllAwait reply (λ b. ok (value b)) effect failing xs bs
        → Broken bs (waiting xs) w1 es e w'
        → Raises (join collect_all cs) w es e w' sent
    unfolding join Waits
    Raises-gather cs bs {es = es} {xs = xs} {sent = sent} started awaits later = record {
      at = λ rest issued.
          ap (λ (xs, w, sent). join_loop collect_all (es ++ rest) xs w (issued ++ sent)) started
          ∙ join_loop-Broken bs rest xs (issued ++ sent) awaits refl later;
    }

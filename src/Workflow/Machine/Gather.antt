-- ===== src/Workflow/Machine/Gather.antt =====
-- The two kinds of `asyncio.gather`: the results of a group, or of each coroutine what it returned or
-- raised.
use langgraph_temporal.Prelude.{
  Option, List, [], ◌∷◌, true, false, ◌≡◌, refl, ap, arith, map, Bool-cases, inl, inr,
}
use langgraph_temporal.Prelude.Result.{Exn, Result, ok, err}
use langgraph_temporal.Langgraph.{Langgraph}
use langgraph_temporal.Coroutine.{Co, Slot, Request, Reply, returned, failed, parked}
use langgraph_temporal.Workflow.{Workflow}
use langgraph_temporal.Workflow.Machine.{
  Event, start_all, collect_all, collect_settled, ready, unsettled, add_settled, join,
}
use langgraph_temporal.Workflow.Machine.Flags.{waiting}
use langgraph_temporal.Workflow.Machine.Runs.{Runs}
use langgraph_temporal.Workflow.Machine.Served.{some_wait, Served}
use langgraph_temporal.Workflow.Machine.Awaits.{AllAwait, Runs-serve}

module _ {L : Langgraph} {A B : Type 0} (reply : B → Reply) (effect : B → Workflow L → Workflow L)
    (failing : B → Reply → Workflow L → Option (Exn × Workflow L)) where
  module _ (value : B → A) where
    abbrev pub returns_value : B → Result A
    returns_value b = ok (value b)

    all-ends :
        (xs : List (Slot (Workflow L) A)) (bs : List B)
        → AllAwait reply returns_value effect failing xs bs
        → some_wait (waiting xs) ≡ false
        → collect_all xs ≡ ready (map value bs)
    unfolding collect_all
    all-ends [] [] h n = refl
    all-ends [] (b ∷ bs) h n = elim h [ ]
    all-ends (x ∷ xs) [] h n = elim h [ ]
    all-ends (returned a ∷ xs) (b ∷ bs) h n = ground (arith, h.0, all-ends xs bs h.1 n)
    all-ends (failed e ∷ xs) (b ∷ bs) h n = ground (arith, h.0)
    all-ends (parked q k ∷ xs) (b ∷ bs) h n = ground (arith, n)

    pub all-waits :
        (xs : List (Slot (Workflow L) A)) (bs : List B)
        → AllAwait reply returns_value effect failing xs bs
        → some_wait (waiting xs) ≡ true
        → collect_all xs ≡ unsettled
    unfolding collect_all
    all-waits [] bs h n = ground (arith, n)
    all-waits (x ∷ xs) [] h n = elim h [ ]
    all-waits (returned a ∷ xs) (b ∷ bs) h n = ground (arith, all-waits xs bs h.1 n)
    all-waits (failed e ∷ xs) (b ∷ bs) h n = ground (arith, h.0)
    all-waits (parked q k ∷ xs) (b ∷ bs) h n = elim (Bool-cases (some_wait (waiting xs))) [
      | inl some_one ↦ ground (arith, all-waits xs bs h.1 some_one)
      | inr none ↦ ground (arith, all-ends xs bs h.1 none)
    ]

    -- A group whose coroutines all return.
    pub Runs-gather :
        (cs : List (Co (Workflow L) A)) (bs : List B) {w w1 w' : Workflow L} {es : List Event}
        {xs : List (Slot (Workflow L) A)} {sent : List Request}
        → start_all cs w ≡ (xs, w1, sent)
        → AllAwait reply (λ b. ok (value b)) effect failing xs bs
        → Served reply effect bs (waiting xs) w1 es w'
        → Runs (join collect_all cs) w es (map value bs) w' sent
    Runs-gather cs bs =
        Runs-serve reply returns_value effect failing collect_all bs (map value bs)
          (λ xs. all-waits xs bs) (λ xs. all-ends xs bs) cs

  module _ (outcome : B → Result A) where
    settled-ends :
        (xs : List (Slot (Workflow L) A)) (bs : List B)
        → AllAwait reply outcome effect failing xs bs
        → some_wait (waiting xs) ≡ false
        → collect_settled xs ≡ ready (map outcome bs)
    unfolding collect_settled
    settled-ends [] [] h n = refl
    settled-ends [] (b ∷ bs) h n = elim h [ ]
    settled-ends (x ∷ xs) [] h n = elim h [ ]
    settled-ends (returned a ∷ xs) (b ∷ bs) h n = ground (arith, h.0, settled-ends xs bs h.1 n)
    settled-ends (failed e ∷ xs) (b ∷ bs) h n = ground (arith, h.0, settled-ends xs bs h.1 n)
    settled-ends (parked q k ∷ xs) (b ∷ bs) h n = ground (arith, n)

    settled-waits :
        (xs : List (Slot (Workflow L) A)) (bs : List B)
        → AllAwait reply outcome effect failing xs bs
        → some_wait (waiting xs) ≡ true
        → collect_settled xs ≡ unsettled
    unfolding collect_settled
    settled-waits [] bs h n = ground (arith, n)
    settled-waits (x ∷ xs) [] h n = elim h [ ]
    settled-waits (returned a ∷ xs) (b ∷ bs) h n =
        ap (add_settled (ok a)) (settled-waits xs bs h.1 n)
    settled-waits (failed e ∷ xs) (b ∷ bs) h n =
        ap (add_settled (err e)) (settled-waits xs bs h.1 n)
    settled-waits (parked q k ∷ xs) (b ∷ bs) h n = refl

    -- A group whose coroutines return or raise.
    pub Runs-gather_settled :
        (cs : List (Co (Workflow L) A)) (bs : List B) {w w1 w' : Workflow L} {es : List Event}
        {xs : List (Slot (Workflow L) A)} {sent : List Request}
        → start_all cs w ≡ (xs, w1, sent)
        → AllAwait reply outcome effect failing xs bs
        → Served reply effect bs (waiting xs) w1 es w'
        → Runs (join collect_settled cs) w es (map outcome bs) w' sent
    Runs-gather_settled cs bs =
        Runs-serve reply outcome effect failing collect_settled bs (map outcome bs)
          (λ xs. settled-waits xs bs) (λ xs. settled-ends xs bs) cs

-- ===== src/Workflow/Machine/Awaits.antt =====
-- The slots of a `gather` whose coroutines end at their replies, and the `gather` itself.
use langgraph_temporal.Prelude.{
  ℕ, zero, suc, List, [], ◌∷◌, ◌++◌, Option, none, some, Bool, true, false, ◌≡◌, refl, ap, sym, ◌∙◌,
  arith, append-nil,
}
use mathlib.Core.Option.{some-injective}
use langgraph_temporal.Prelude.Lists.{get_elem?}
use langgraph_temporal.Prelude.Result.{Exn, Result, ok, err}
use langgraph_temporal.Langgraph.{Langgraph}
use langgraph_temporal.Coroutine.{
  Co, Slot, Request, Reply, returned, failed, parked, advance, request_of,
}
use langgraph_temporal.Workflow.{Workflow}
use langgraph_temporal.Workflow.Machine.{
  Event, ended, start_all, resume_slot, deliver, Collected, ready, unsettled, join_loop, join,
}
use langgraph_temporal.Workflow.Machine.Promises.{reply_at}
use langgraph_temporal.Workflow.Machine.Flags.{cleared, waiting}
use langgraph_temporal.Workflow.Machine.Runs.{machine, Runs}
use langgraph_temporal.Workflow.Machine.Served.{
  some_wait, some_wait-flag, effect_at, Served, all_served, replied, resumed, updated, woken,
}

-- A slot whose coroutine has ended with an outcome.
abbrev pub ended_slot : {S A : Type 0} → Result A → Slot S A
ended_slot (ok a) = returned a
ended_slot (err e) = failed e

request_of-ended : (S : Type 0) {A : Type 0} (r : Result A) → request_of (ended_slot {S = S} r) ≡ []
request_of-ended S (ok a) = refl
request_of-ended S (err e) = refl

ended-not-waiting :
    {S A : Type 0} (r : Result A) (xs : List (Slot S A))
    → waiting (ended_slot {S = S} r ∷ xs) ≡ false ∷ waiting xs
ended-not-waiting (ok a) xs = refl
ended-not-waiting (err e) xs = refl

cleared_later :
    {S A : Type 0} (x : Slot S A) (xs xs' : List (Slot S A)) (i : ℕ)
    → waiting xs' ≡ cleared i (waiting xs)
    → waiting (x ∷ xs') ≡ cleared (suc i) (waiting (x ∷ xs))
cleared_later (returned a) xs xs' i h = ap (λ bs. false ∷ bs) h
cleared_later (failed e) xs xs' i h = ap (λ bs. false ∷ bs) h
cleared_later (parked q k) xs xs' i h = ap (λ bs. true ∷ bs) h

later_waits :
    {S A : Type 0} (x : Slot S A) (xs : List (Slot S A)) (i : ℕ)
    → get_elem? (waiting (x ∷ xs)) (suc i) ≡ some true
    → get_elem? (waiting xs) i ≡ some true
later_waits (returned a) xs i h = h
later_waits (failed e) xs i h = h
later_waits (parked q k) xs i h = h

-- No reply breaks a coroutine.
abbrev pub no_failure :
    {L : Langgraph} {B : Type 0} → B → Reply → Workflow L → Option (Exn × Workflow L)
no_failure b r w = none

-- It also makes an outcome; instead, some replies may break its coroutine in some states, with an
-- exception and an effect.
module _ {L : Langgraph} {A B : Type 0} (reply : B → Reply) (outcome : B → Result A)
    (effect : B → Workflow L → Workflow L)
    (failing : B → Reply → Workflow L → Option (Exn × Workflow L)) where
  -- The slot has its outcome, or gets it with the first reply.
  abbrev pub Awaits : Slot (Workflow L) A → B → Type 0
  Awaits (returned a) b = outcome b ≡ ok a
  Awaits (failed e) b = outcome b ≡ err e
  Awaits (parked q k) b =
      ((w : Workflow L) → advance (k (reply b)) w ≡ (ended_slot (outcome b), effect b w))
      × ((r : Reply) (w w' : Workflow L) (e : Exn)
          → failing b r w ≡ some (e, w')
          → advance (k r) w ≡ (failed e, w'))

  abbrev pub AllAwait : List (Slot (Workflow L) A) → List B → Type 0
  AllAwait [] [] = Unit
  AllAwait [] (b ∷ bs) = ⊥
  AllAwait (x ∷ xs) [] = ⊥
  AllAwait (x ∷ xs) (b ∷ bs) = Awaits x b × AllAwait xs bs

  ended-Awaits : (r : Result A) (b : B) → outcome b ≡ r → Awaits (ended_slot r) b
  ended-Awaits (ok a) b h = h
  ended-Awaits (err e) b h = h

  -- What a reply does to a group.
  pub delivered :
      (i : ℕ) (r : Reply) (xs : List (Slot (Workflow L) A)) (bs : List B) (w : Workflow L)
      → get_elem? (waiting xs) i ≡ some true
      → reply_at reply i bs ≡ some r
      → AllAwait xs bs
      → (xs' : List (Slot (Workflow L) A)) × (deliver i r xs w
          ≡ (xs', effect_at reply effect i bs w, []))
        × AllAwait xs' bs
        × (waiting xs' ≡ cleared i (waiting xs))
  unfolding deliver resume_slot
  delivered i r [] bs w g e h = ground (arith, g)
  delivered i r (x ∷ xs) [] w g e h = elim h [ ]
  delivered zero r (returned a ∷ xs) (b ∷ bs) w g e h = ground (arith, g)
  delivered zero r (failed x ∷ xs) (b ∷ bs) w g e h = ground (arith, g)
  delivered zero r (parked q k ∷ xs) (b ∷ bs) w g e h =
      let after : Slot (Workflow L) A × Workflow L
          → List (Slot (Workflow L) A) × Workflow L × List Request =
        λ (slot, w'). (slot ∷ xs, w', request_of slot) in
      (
        ended_slot (outcome b) ∷ xs,
        ap (λ r. after (advance (k r) w)) (sym (some-injective (reply b) r e))
            ∙ ap after (h.0.0 w)
            ∙ ap (λ rs. (ended_slot (outcome b) ∷ xs, effect b w, rs))
                (request_of-ended (Workflow L) (outcome b)),
        (ended-Awaits (outcome b) b refl, h.1),
        ended-not-waiting (outcome b) xs,
      )
  delivered (suc i) r (x ∷ xs) (b ∷ bs) w g e h =
      let (xs', same, awaits, flags) = delivered i r xs bs w (later_waits x xs i g) e h.1 in
      (
        x ∷ xs',
        ap (λ (xs, w', rs). (x ∷ xs, w', rs)) same,
        (h.0, awaits),
        cleared_later x xs xs' i flags,
      )

  -- `collect` gives the result of the group's ends once none of its coroutines waits.
  module _ {C : Type 0} (collect : List (Slot (Workflow L) A) → Collected C) (bs : List B) (c : C)
      (waits : (xs : List (Slot (Workflow L) A))
        → AllAwait xs bs
        → some_wait (waiting xs) ≡ true
        → collect xs ≡ unsettled)
      (ends : (xs : List (Slot (Workflow L) A))
        → AllAwait xs bs
        → some_wait (waiting xs) ≡ false
        → collect xs ≡ ready c) where
    join_loop-Served :
        {flags : List Bool} {w w' : Workflow L} {es : List Event} (rest : List Event)
        (xs : List (Slot (Workflow L) A)) (issued : List Request)
        → AllAwait xs bs
        → waiting xs ≡ flags
        → Served reply effect bs flags w es w'
        → join_loop collect (es ++ rest) xs w issued ≡ (ended c, machine w' rest issued)
    unfolding join_loop
    join_loop-Served [] xs issued h f (all_served none_waits) =
        ground (arith, ends xs h (ap some_wait f ∙ none_waits))
    join_loop-Served (e ∷ rest) xs issued h f (all_served none_waits) =
        ground (arith, ends xs h (ap some_wait f ∙ none_waits))
    join_loop-Served {w = w} rest xs issued h f (replied i r g e served) =
        let here = ap (λ flags. get_elem? flags i) f ∙ g in
        let (xs', same, awaits, flags) = delivered i r xs bs w here e h in
        ground (
          arith,
          append-nil issued,
          waits xs h (some_wait-flag i (waiting xs) here),
          same,
          join_loop-Served rest xs' issued awaits (flags ∙ ap (cleared i) f) served,
        )
    join_loop-Served rest xs issued h f (resumed v some_one served) =
        ground (
          arith,
          waits xs h (ap some_wait f ∙ some_one),
          join_loop-Served rest xs issued h f served,
        )
    join_loop-Served rest xs issued h f (updated u some_one e served) = ground (
      arith,
      waits xs h (ap some_wait f ∙ some_one),
      e,
      join_loop-Served rest xs issued h f served,
    )
    join_loop-Served rest xs issued h f (woken some_one served) =
        ground (
          arith,
          waits xs h (ap some_wait f ∙ some_one),
          join_loop-Served rest xs issued h f served,
        )

    -- A `gather` whose coroutines have been started.
    pub Runs-serve :
        (cs : List (Co (Workflow L) A)) {w w1 w' : Workflow L} {es : List Event}
        {xs : List (Slot (Workflow L) A)} {sent : List Request}
        → start_all cs w ≡ (xs, w1, sent)
        → AllAwait xs bs
        → Served reply effect bs (waiting xs) w1 es w'
        → Runs (join collect cs) w es c w' sent
    unfolding join
    Runs-serve cs {es = es} {xs = xs} {sent = sent} started awaits served = record {
      at = λ rest issued.
          ap (λ (xs, w, sent). join_loop collect (es ++ rest) xs w (issued ++ sent)) started
          ∙ join_loop-Served rest xs (issued ++ sent) awaits refl served;
    }

-- ===== src/Workflow/Machine/Served.antt =====
-- What `asyncio.gather` does with the events that it reads: the replies to its requests, one each and in
-- any order, and signals between them.
use langgraph_temporal.Prelude.{
  inl, inr, ℕ, zero, suc, List, [], ◌∷◌, some, Bool, true, false, ◌≡◌, refl, ◌∙◌, arith,
}
use langgraph_temporal.Prelude.Lists.{any, get_elem?}
use langgraph_temporal.Prelude.Result.{ok, Result-cases}
use langgraph_temporal.Value.{Value}
use langgraph_temporal.Config.{StateUpdatePayload}
use langgraph_temporal.Langgraph.{Langgraph}
use langgraph_temporal.Coroutine.{Reply}
use langgraph_temporal.Workflow.{Workflow, increment}
use langgraph_temporal.Workflow.Signals.{resume_signal, update_state_signal, update_task}
use langgraph_temporal.Workflow.Machine.{Event, complete, resume, update, wake}
use langgraph_temporal.Workflow.Machine.Promises.{reply_at}
use langgraph_temporal.Workflow.Machine.Flags.{cleared}

-- Some coroutine waits.
abbrev pub some_wait : List Bool → Bool
some_wait flags = any (λ b. b) flags

pub some_wait-flag :
    (i : ℕ) (flags : List Bool) → get_elem? flags i ≡ some true → some_wait flags ≡ true
some_wait-flag i [] h = ground (arith, h)
some_wait-flag zero (b ∷ flags) h = ground (arith, h)
some_wait-flag (suc i) (b ∷ flags) h = ground (arith, some_wait-flag i flags h)

-- An end b of a coroutine is reported by a reply, and has an effect on the state.
module _ {L : Langgraph} {B : Type 0} (reply : B → Reply)
    (effect : B → Workflow L → Workflow L) where
  abbrev pub effect_at : ℕ → List B → Workflow L → Workflow L
  effect_at i [] w = w
  effect_at zero (b ∷ bs) w = effect b w
  effect_at (suc i) (b ∷ bs) w = effect_at i bs w

  -- The events that a group with these ends reads, some of its coroutines waiting, and what they
  -- make of the state: one reply for each that waits, and, as long as one waits, signals and looks at
  -- wait conditions.
  pub data Served (bs : List B) : List Bool → Workflow L → List Event → Workflow L → Type 0 where
    all_served :
        {flags : List Bool} {w : Workflow L} → some_wait flags ≡ false → Served bs flags w [] w
    replied :
        {flags : List Bool} {w w' : Workflow L} {es : List Event} (i : ℕ) (r : Reply)
        → get_elem? flags i ≡ some true
        → reply_at reply i bs ≡ some r
        → Served bs (cleared i flags) (effect_at i bs w) es w'
        → Served bs flags w (complete i r ∷ es) w'
    resumed :
        {flags : List Bool} {w w' : Workflow L} {es : List Event} (v : Value)
        → some_wait flags ≡ true
        → Served bs flags (resume_signal v w) es w'
        → Served bs flags w (resume v ∷ es) w'
    updated :
        {flags : List Bool} {w w1 w' : Workflow L} {es : List Event} (u : StateUpdatePayload)
        → some_wait flags ≡ true
        → update_state_signal u w ≡ ok w1
        → Served bs flags w1 es w'
        → Served bs flags w (update u ∷ es) w'
    woken :
        {flags : List Bool} {w w' : Workflow L} {es : List Event}
        → some_wait flags ≡ true
        → Served bs flags w es w'
        → Served bs flags w (wake ∷ es) w'

  module _ (keeps : (b : B) (w : Workflow L) → (effect b w).step ≡ w.step) where
    effect_at-step : (i : ℕ) (bs : List B) (w : Workflow L) → (effect_at i bs w).step ≡ w.step
    effect_at-step i [] w = refl
    effect_at-step zero (b ∷ bs) w = keeps b w
    effect_at-step (suc i) (b ∷ bs) w = effect_at-step i bs w

    update_signal-step :
        (u : StateUpdatePayload) (w w1 : Workflow L)
        → update_state_signal u w ≡ ok w1
        → w1.step ≡ w.step
    unfolding update_state_signal
    update_signal-step u w w1 e =
        let call =
          L.apply_writes w.checkpoint w.channels (update_task u ∷ []) increment
            w.trigger_to_nodes in
        elim (Result-cases call) [
          | inl (r, h) ↦ ground (arith, e, h)
          | inr (x, h) ↦ ground (arith, e, h)
        ]

    pub Served-step :
        {bs : List B} {flags : List Bool} {w w' : Workflow L} {es : List Event}
        → Served bs flags w es w'
        → w'.step ≡ w.step
    unfolding resume_signal
    Served-step (all_served none_waits) = refl
    Served-step {bs = bs} {w = w} (replied i r g e served) =
        Served-step served ∙ effect_at-step i bs w
    Served-step (resumed v some_one served) = Served-step served
    Served-step {w = w} (updated u some_one e served) =
        Served-step served ∙ update_signal-step u w _ e
    Served-step (woken some_one served) = Served-step served

-- ===== src/Workflow/Machine/Keeps.antt =====
-- Which properties of the workflow's state a piece of its main coroutine keeps, whatever the
-- schedule and however it ends.
use langgraph_temporal.Prelude.{zero, suc, ℕ, List, [], ◌∷◌, ◌++◌, ◌≡◌, false, inl, inr, arith}
use langgraph_temporal.Prelude.Result.{ok, Result-cases}
use langgraph_temporal.Value.{Value}
use langgraph_temporal.Config.{StateUpdatePayload}
use langgraph_temporal.Langgraph.{Langgraph}
use langgraph_temporal.Coroutine
use langgraph_temporal.Coroutine.{
  Co, done, raise, gets, modify, await, Slot, Request, Reply, returned, failed, parked, advance,
}
use langgraph_temporal.Workflow.{Workflow, running}
use langgraph_temporal.Workflow.Signals.{resume_signal, update_state_signal}
use langgraph_temporal.Workflow.Machine.{
  Event, complete, resume, update, wake, Machine, start_all, resume_slot, deliver, Collected, M,
  join_loop, join, exec, collect_one, wait_loop, wait_for_resume,
}

-- Every change of state that the coroutine makes, at any of its waits, keeps P.
module _ {S : Type 0} (P : S → Type 0) where
  abbrev pub CoKeeps : {A : Type 0} → Co S A → Type 0
  CoKeeps (done a) = Unit
  CoKeeps (raise e) = Unit
  CoKeeps (gets k) = (s : S) → CoKeeps (k s)
  CoKeeps (modify g c) = ((s : S) → P s → P (g s)) × CoKeeps c
  CoKeeps (await r k) = (x : Reply) → CoKeeps (k x)

  abbrev pub SlotKeeps : {A : Type 0} → Slot S A → Type 0
  SlotKeeps (returned a) = Unit
  SlotKeeps (failed e) = Unit
  SlotKeeps (parked r k) = (x : Reply) → CoKeeps (k x)

  abbrev pub AllKeep : {A : Type 0} → List (Co S A) → Type 0
  AllKeep [] = Unit
  AllKeep (c ∷ cs) = CoKeeps c × AllKeep cs

  abbrev pub SlotsKeep : {A : Type 0} → List (Slot S A) → Type 0
  SlotsKeep [] = Unit
  SlotsKeep (x ∷ xs) = SlotKeeps x × SlotsKeep xs

module _ {S A : Type 0} (P : S → Type 0) where
  pub advance-Keeps :
      (c : Co S A) (s : S) → CoKeeps P c → P s → SlotKeeps P (advance c s).0 × P (advance c s).1
  unfolding advance
  advance-Keeps (done a) s k h = (tt, h)
  advance-Keeps (raise e) s k h = (tt, h)
  advance-Keeps (gets f) s k h = advance-Keeps (f s) s (k s) h
  advance-Keeps (modify g c) s k h = advance-Keeps c (g s) k.1 (k.0 s h)
  advance-Keeps (await r f) s k h = (k, h)

  start_all-Keeps :
      (cs : List (Co S A)) (s : S)
      → AllKeep P cs
      → P s
      → SlotsKeep P (start_all cs s).0 × P (start_all cs s).1
  unfolding start_all
  start_all-Keeps [] s k h = (tt, h)
  start_all-Keeps (c ∷ cs) s k h =
      let first = advance-Keeps c s k.0 h in
      let others = start_all-Keeps cs (advance c s).1 k.1 first.1 in ((first.0, others.0), others.1)

  resume_slot-Keeps :
      (x : Slot S A) (r : Reply) (s : S)
      → SlotKeeps P x
      → P s
      → SlotKeeps P (resume_slot x r s).0 × P (resume_slot x r s).1
  unfolding resume_slot
  resume_slot-Keeps (returned a) r s k h = (tt, h)
  resume_slot-Keeps (failed e) r s k h = (tt, h)
  resume_slot-Keeps (parked q f) r s k h = advance-Keeps (f r) s (k r) h

  deliver-Keeps :
      (i : ℕ) (r : Reply) (xs : List (Slot S A)) (s : S)
      → SlotsKeep P xs
      → P s
      → SlotsKeep P (deliver i r xs s).0 × P (deliver i r xs s).1
  unfolding deliver
  deliver-Keeps i r [] s k h = (tt, h)
  deliver-Keeps zero r (x ∷ xs) s k h =
      let next = resume_slot-Keeps x r s k.0 h in ((next.0, k.1), next.1)
  deliver-Keeps (suc i) r (x ∷ xs) s k h =
      let next = deliver-Keeps i r xs s k.1 h in ((k.0, next.0), next.1)

-- The rule for coroutines that are joined by `>>=`.
pub CoKeeps-bind :
    {S A B : Type 0} (P : S → Type 0) (c : Co S A) (f : A → Co S B)
    → CoKeeps P c
    → ((a : A) → CoKeeps P (f a))
    → CoKeeps P (Coroutine.◌>>=◌ c f)
unfolding Coroutine.◌>>=◌
CoKeeps-bind P (done a) f k h = h a
CoKeeps-bind P (raise e) f k h = tt
CoKeeps-bind P (gets g) f k h = λ s. CoKeeps-bind P (g s) f (k s) h
CoKeeps-bind P (modify g c) f k h = (k.0, CoKeeps-bind P c f k.1 h)
CoKeeps-bind P (await r g) f k h = λ x. CoKeeps-bind P (g x) f (k x) h

-- Both signals keep P.
pub record SignalsKeep {L : Langgraph} (P : Workflow L → Type 0) : Type 0 where
  pub on_resume : (v : Value) (w : Workflow L) → P w → P (resume_signal v w)
  pub on_update :
      (u : StateUpdatePayload) (w w' : Workflow L) → update_state_signal u w ≡ ok w' → P w → P w'

-- `m` keeps P, whether it ends, raises, blocks or continues as new.
pub record Keeps {ℓ} {L : Langgraph} {A : Type ℓ} (P : Workflow L → Type 0) (c : M L A)
    : Type ℓ where
  pub at : (m : Machine L) → P m.self → P (c m).1.self

module _ {L : Langgraph} (P : Workflow L → Type 0) (signals : SignalsKeep P) where
  join_loop-Keeps :
      {A B : Type 0} (collect : List (Slot (Workflow L) A) → Collected B) (es : List Event)
      (xs : List (Slot (Workflow L) A)) (w : Workflow L) (rs : List Request)
      → SlotsKeep P xs
      → P w
      → P (join_loop collect es xs w rs).1.self
  unfolding join_loop
  join_loop-Keeps collect [] xs w rs k h = ground arith
  join_loop-Keeps collect (complete i r ∷ es) xs w rs k h =
      let next = deliver-Keeps P i r xs w k h in
      ground (
        arith,
        join_loop-Keeps collect es (deliver i r xs w).0 (deliver i r xs w).1
            (rs ++ (deliver i r xs w).2) next.0 next.1,
      )
  join_loop-Keeps collect (resume v ∷ es) xs w rs k h =
      ground
        (arith, join_loop-Keeps collect es xs (resume_signal v w) rs k (signals.on_resume v w h))
  join_loop-Keeps collect (update u ∷ es) xs w rs k h =
      elim (Result-cases (update_state_signal u w)) [
        | inl (w', e) ↦
            ground (arith, join_loop-Keeps collect es xs w' rs k (signals.on_update u w w' e h))
        | inr (x, e) ↦ ground arith
      ]
  join_loop-Keeps collect (wake ∷ es) xs w rs k h =
      ground (arith, join_loop-Keeps collect es xs w rs k h)

  wait_loop-Keeps :
      ((w : Workflow L) → P w → P (record w { status = running }))
      → (es : List Event) (w : Workflow L) (rs : List Request) → P w
      → P (wait_loop es w rs).1.self
  unfolding wait_loop
  wait_loop-Keeps go [] w rs h = h
  wait_loop-Keeps go (complete i r ∷ es) w rs h = wait_loop-Keeps go es w rs h
  wait_loop-Keeps go (resume v ∷ es) w rs h =
      wait_loop-Keeps go es (resume_signal v w) rs (signals.on_resume v w h)
  wait_loop-Keeps go (update u ∷ es) w rs h = elim (Result-cases (update_state_signal u w)) [
    | inl (w', e) ↦ ground (arith, wait_loop-Keeps go es w' rs (signals.on_update u w w' e h))
    | inr (x, e) ↦ ground arith
  ]
  wait_loop-Keeps go (wake ∷ es) w rs h = ground (arith, wait_loop-Keeps go es w rs h, go w h)

  pub Keeps-join :
      {A B : Type 0} (collect : List (Slot (Workflow L) A) → Collected B)
      (cs : List (Co (Workflow L) A))
      → AllKeep P cs
      → Keeps P (join collect cs)
  unfolding join
  Keeps-join collect cs k = record {
    at = λ m h.
        let first = start_all-Keeps P cs m.self k h in
        join_loop-Keeps collect m.schedule (start_all cs m.self).0 (start_all cs m.self).1
          (m.issued ++ (start_all cs m.self).2) first.0 first.1;
  }

  pub Keeps-exec : {A : Type 0} (c : Co (Workflow L) A) → CoKeeps P c → Keeps P (exec c)
  unfolding exec
  Keeps-exec c k = Keeps-join collect_one (c ∷ []) (k, tt)

  pub Keeps-wait_for_resume :
      ((w : Workflow L) → P w → P (record w { resume_event = false; resume_values = [] }))
      → ((w : Workflow L) → P w → P (record w { status = running }))
      → Keeps P wait_for_resume
  unfolding wait_for_resume
  Keeps-wait_for_resume fresh go = record {
    at = λ m h. wait_loop-Keeps go m.schedule _ m.issued (fresh m.self h);
  }

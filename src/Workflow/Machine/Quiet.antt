-- ===== src/Workflow/Machine/Quiet.antt =====
-- A `gather` during which no signal arrives leaves the workflow as it is, if its coroutines do.
use langgraph_temporal.Prelude.{
  ℕ, zero, suc, List, [], ◌∷◌, ◌++◌, some, Bool, true, false, ◌≡◌, refl, ap, ◌∙◌, arith,
}
use mathlib.Core.Option.{some-injective}
use langgraph_temporal.Langgraph.{Langgraph}
use langgraph_temporal.Coroutine.{Co, Slot, Request, Reply, returned, failed, parked, advance}
use langgraph_temporal.Workflow.{Workflow}
use langgraph_temporal.Workflow.Machine.{
  Event, complete, resume, update, wake, Machine, start_all, resume_slot, deliver, collect_all,
  join_loop, join,
}
use langgraph_temporal.Workflow.Machine.Liveness.{Answers}
use langgraph_temporal.Workflow.Machine.Promises.{
  reply_at, Promises, AllPromise, deliver-AllPromise, AllSettle, start_all-AllPromise,
}

-- No signal arrives.
abbrev pub is_quiet : List Event → Bool
is_quiet [] = true
is_quiet (complete i r ∷ es) = is_quiet es
is_quiet (resume v ∷ es) = false
is_quiet (update u ∷ es) = false
is_quiet (wake ∷ es) = is_quiet es

-- The coroutine changes no state before its first wait.
abbrev pub Reads : {S A : Type 0} → Co S A → Type 0
Reads {S} c = (s : S) → (advance c s).1 ≡ s

abbrev pub AllRead : {S A : Type 0} → List (Co S A) → Type 0
AllRead [] = Unit
AllRead (c ∷ cs) = Reads c × AllRead cs

module _ {S A : Type 0} where
  pub start_all_self : (cs : List (Co S A)) (s : S) → AllRead cs → (start_all cs s).1 ≡ s
  unfolding start_all
  start_all_self [] s h = refl
  start_all_self (c ∷ cs) s h = ap (λ s. (start_all cs s).1) (h.0 s) ∙ start_all_self cs s h.1

module _ {A : Type 0} (reply : A → Reply) where
  module _ {S : Type 0} where
    resume_slot_self :
        (x : Slot S A) (a : A) (r : Reply) (s : S)
        → some (reply a) ≡ some r
        → Promises reply x a
        → (resume_slot x r s).1 ≡ s
    unfolding resume_slot advance
    resume_slot_self (returned b) a r s e h = refl
    resume_slot_self (failed x) a r s e h = elim h [ ]
    resume_slot_self (parked q k) a r s e h =
        cc (
          ap (λ c. (advance c s).1) h,
          ap (λ r. (advance (k r) s).1) (some-injective (reply a) r e),
        )

    pub deliver_self :
        (i : ℕ) (r : Reply) (xs : List (Slot S A)) (results : List A) (s : S)
        → reply_at reply i results ≡ some r
        → AllPromise reply xs results
        → (deliver i r xs s).1 ≡ s
    unfolding deliver
    deliver_self i r [] results s e h = refl
    deliver_self i r (x ∷ xs) [] s e h = elim h [ ]
    deliver_self zero r (x ∷ xs) (a ∷ results) s e h = resume_slot_self x a r s e h.0
    deliver_self (suc i) r (x ∷ xs) (a ∷ results) s e h = deliver_self i r xs results s e h.1

  module _ {L : Langgraph} where
    join_loop_self :
        (es : List Event) (xs : List (Slot (Workflow L) A)) (results : List A) (w : Workflow L)
        (issued : List Request)
        → Answers reply results es
        → AllPromise reply xs results
        → is_quiet es ≡ true
        → (join_loop collect_all es xs w issued).1.self ≡ w
    unfolding join_loop
    join_loop_self [] xs results w issued a h q = ground (arith)
    join_loop_self (complete i r ∷ es) xs results w issued a h q = ground (
      arith,
      deliver_self i r xs results w a.0 h,
      join_loop_self es (deliver i r xs w).0 results (deliver i r xs w).1
          (issued ++ (deliver i r xs w).2) a.1 (deliver-AllPromise reply i r xs results w a.0 h) q,
    )
    join_loop_self (resume v ∷ es) xs results w issued a h q = ground (arith, q)
    join_loop_self (update u ∷ es) xs results w issued a h q = elim a [ ]
    join_loop_self (wake ∷ es) xs results w issued a h q =
        ground (arith, join_loop_self es xs results w issued a h q)

    pub join_self :
        (cs : List (Co (Workflow L) A)) (results : List A) (m : Machine L)
        → AllSettle reply cs results
        → AllRead cs
        → Answers reply results m.schedule
        → is_quiet m.schedule ≡ true
        → (join collect_all cs m).1.self ≡ m.self
    unfolding join
    join_self cs results m settle reads answers quiet =
        join_loop_self m.schedule (start_all cs m.self).0 results (start_all cs m.self).1
          (m.issued ++ (start_all cs m.self).2) answers
          (start_all-AllPromise reply cs results m.self settle) quiet
        ∙ start_all_self cs m.self reads

-- ===== src/Workflow/Machine/Liveness.antt =====
-- `asyncio.gather` ends, once each of its coroutines has its reply.
use langgraph_temporal.Prelude.{
  ℕ, zero, suc, ◌<◌, List, [], ◌∷◌, ◌++◌, some, Bool, true, false, ◌||◌, eqb, ◌≡◌, refl, sym, arith,
  ◌⊎◌, ◌≢◌, inl, inr, Bool-cases,
}
use mathlib.Core.Path.{subst}
use langgraph_temporal.Prelude.Lists.{length}
use langgraph_temporal.Langgraph.{Langgraph}
use langgraph_temporal.Coroutine.{Co, Slot, Request, Reply, returned, failed, parked}
use langgraph_temporal.Workflow.{Workflow}
use langgraph_temporal.Workflow.Signals.{resume_signal}
use langgraph_temporal.Workflow.Machine.{
  Event, complete, resume, update, wake, ended, Machine, start_all, deliver, ready, collect_all,
  join_loop, join,
}
use langgraph_temporal.Workflow.Machine.Promises.{
  reply_at, AllPromise, AllPromise-collect, resume_slot-Promises, deliver-AllPromise, AllSettle,
  start_all-AllPromise, AllPromise-length,
}

-- The schedule completes the i-th request.
abbrev pub completes : List Event → ℕ → Bool
completes [] i = false
completes (complete j r ∷ es) i = eqb i j || completes es i
completes (resume v ∷ es) i = completes es i
completes (update u ∷ es) i = completes es i
completes (wake ∷ es) i = completes es i

not_here : {j i : ℕ} {b : Bool} → j ≢ i → (j ≡ i) ⊎ (b ≡ true) → b ≡ true
not_here n (inl e) = elim (n e) [ ]
not_here n (inr e) = e

drop_first :
    (q : ℕ → Bool) (j i : ℕ) → (suc j ≡ suc i) ⊎ (q (suc j) ≡ true) → (j ≡ i) ⊎ (q (suc j) ≡ true)
drop_first q j i (inl e) = inl (omega arith)
drop_first q j i (inr e) = inr e

split_completes :
    (i j : ℕ) (r : Reply) (es : List Event)
    → completes (complete i r ∷ es) j ≡ true
    → (j ≡ i) ⊎ (completes es j ≡ true)
split_completes i j r es h = elim (Bool-cases (eqb j i)) [
  | inl e ↦ inl (ground (arith, e))
  | inr e ↦ inr (ground (arith, e, h))
]

module _ {A : Type 0} (reply : A → Reply) where
  -- The schedule has no update of the state, and it completes the i-th request with the reply of the
  -- i-th result only.
  abbrev pub Answers : List A → List Event → Type 0
  Answers results [] = Unit
  Answers results (complete i r ∷ es) = (reply_at reply i results ≡ some r) × Answers results es
  Answers results (resume v ∷ es) = Answers results es
  Answers results (update u ∷ es) = ⊥
  Answers results (wake ∷ es) = Answers results es

  module _ {S : Type 0} where
    -- A slot that waits is one of those that p names.
    abbrev Covered : (ℕ → Bool) → List (Slot S A) → Type 0
    Covered p [] = Unit
    Covered p (returned a ∷ xs) = Covered (λ i. p (suc i)) xs
    Covered p (failed e ∷ xs) = Covered (λ i. p (suc i)) xs
    Covered p (parked q k ∷ xs) = (p 0 ≡ true) × Covered (λ i. p (suc i)) xs

    Covered-map :
        (p q : ℕ → Bool) (xs : List (Slot S A))
        → ((i : ℕ) → p i ≡ true → q i ≡ true)
        → Covered p xs
        → Covered q xs
    Covered-map p q [] f h = tt
    Covered-map p q (returned a ∷ xs) f h = Covered-map _ _ xs (λ i. f (suc i)) h
    Covered-map p q (failed e ∷ xs) f h = Covered-map _ _ xs (λ i. f (suc i)) h
    Covered-map p q (parked r k ∷ xs) f h = (f 0 h.0, Covered-map _ _ xs (λ i. f (suc i)) h.1)

    Covered-all :
        (p : ℕ → Bool) (xs : List (Slot S A))
        → ((i : ℕ) → i < length xs → p i ≡ true)
        → Covered p xs
    Covered-all p [] f = tt
    Covered-all p (returned a ∷ xs) f = Covered-all _ xs (λ i h. f (suc i) (omega arith))
    Covered-all p (failed e ∷ xs) f = Covered-all _ xs (λ i h. f (suc i) (omega arith))
    Covered-all p (parked r k ∷ xs) f =
        (f 0 (omega arith), Covered-all _ xs (λ i h. f (suc i) (omega arith)))

    -- It has its results if no slot waits.
    AllPromise-ready :
        (xs : List (Slot S A)) (results : List A)
        → AllPromise reply xs results
        → Covered (λ i. false) xs
        → collect_all xs ≡ ready results
    unfolding collect_all
    AllPromise-ready [] [] h c = refl
    AllPromise-ready [] (a ∷ results) h c = elim h [ ]
    AllPromise-ready (x ∷ xs) [] h c = elim h [ ]
    AllPromise-ready (failed e ∷ xs) (a ∷ results) h c = elim h.0 [ ]
    AllPromise-ready (returned b ∷ xs) (a ∷ results) h c =
        cc (h.0, AllPromise-ready xs results h.1 c)
    AllPromise-ready (parked q k ∷ xs) (a ∷ results) h c = ground (arith, c.0)

    Covered-tail :
        (p : ℕ → Bool) (x : Slot S A) (xs : List (Slot S A))
        → Covered p (x ∷ xs)
        → Covered (λ i. p (suc i)) xs
    Covered-tail p (returned a) xs c = c
    Covered-tail p (failed e) xs c = c
    Covered-tail p (parked q k) xs c = c.1

    deliver-Covered :
        (i : ℕ) (r : Reply) (xs : List (Slot S A)) (results : List A) (s : S) (p q : ℕ → Bool)
        → reply_at reply i results ≡ some r
        → AllPromise reply xs results
        → ((j : ℕ) → p j ≡ true → (j ≡ i) ⊎ (q j ≡ true))
        → Covered p xs
        → Covered q (deliver i r xs s).0
    unfolding deliver
    deliver-Covered i r [] results s p q e h f c = tt
    deliver-Covered i r (x ∷ xs) [] s p q e h f c = elim h [ ]
    deliver-Covered zero r (x ∷ xs) (a ∷ results) s p q e h f c =
        let woken = resume_slot-Promises reply x a r s e h.0 in
        subst (λ y. Covered q (y ∷ xs)) (sym woken)
          (Covered-map _ _ xs (λ j g. not_here (omega arith) (f (suc j) g)) (Covered-tail p x xs c))
    deliver-Covered (suc i) r (returned b ∷ xs) (a ∷ results) s p q e h f c =
        deliver-Covered i r xs results s _ _ e h.1 (λ j g. drop_first q j i (f (suc j) g)) c
    deliver-Covered (suc i) r (failed x ∷ xs) (a ∷ results) s p q e h f c = elim h.0 [ ]
    deliver-Covered (suc i) r (parked t k ∷ xs) (a ∷ results) s p q e h f c = (
      not_here (omega arith) (f 0 c.0),
      deliver-Covered i r xs results s _ _ e h.1 (λ j g. drop_first q j i (f (suc j) g)) c.1,
    )

  module _ {L : Langgraph} where
    join_loop-ends :
        (es : List Event) (xs : List (Slot (Workflow L) A)) (results : List A) (w : Workflow L)
        (issued : List Request)
        → Answers results es
        → AllPromise reply xs results
        → Covered (completes es) xs
        → (join_loop collect_all es xs w issued).0 ≡ ended results
    unfolding join_loop
    join_loop-ends [] xs results w issued a h c = ground (arith, AllPromise-ready xs results h c)
    join_loop-ends (complete i r ∷ es) xs results w issued a h c = ground (
      arith,
      AllPromise-collect reply xs results h,
      join_loop-ends es (deliver i r xs w).0 results (deliver i r xs w).1
          (issued ++ (deliver i r xs w).2) a.1 (deliver-AllPromise reply i r xs results w a.0 h)
          (deliver-Covered i r xs results w (completes (complete i r ∷ es)) (completes es) a.0 h
            (λ j. split_completes i j r es) c),
    )
    join_loop-ends (resume v ∷ es) xs results w issued a h c = ground (
      arith,
      AllPromise-collect reply xs results h,
      join_loop-ends es xs results (resume_signal v w) issued a h c,
    )
    join_loop-ends (update u ∷ es) xs results w issued a h c = elim a [ ]
    join_loop-ends (wake ∷ es) xs results w issued a h c =
        ground (
          arith,
          AllPromise-collect reply xs results h,
          join_loop-ends es xs results w issued a h c,
        )

    pub join-ends :
        (cs : List (Co (Workflow L) A)) (results : List A) (m : Machine L)
        → AllSettle reply cs results
        → Answers results m.schedule
        → ((i : ℕ) → i < length results → completes m.schedule i ≡ true)
        → (join collect_all cs m).0 ≡ ended results
    unfolding join
    join-ends cs results m settle answers all =
        let promise = start_all-AllPromise reply cs results m.self settle in
        let same = AllPromise-length reply (start_all cs m.self).0 results promise in
        join_loop-ends m.schedule (start_all cs m.self).0 results (start_all cs m.self).1
          (m.issued ++ (start_all cs m.self).2) answers promise
          (Covered-all (completes m.schedule) (start_all cs m.self).0
            (λ i h. all i (omega (arith, same, h))))

-- ===== src/Workflow/Machine/Promises.antt =====
-- Coroutines that keep a promise: each returns a known result at the first reply, or at once.
use langgraph_temporal.Prelude.{
  ℕ, zero, suc, List, [], ◌∷◌, Option, none, some, ◌≡◌, refl, ap, sym, ◌⊎◌, inl, inr,
}
use mathlib.Core.Path.{subst}
use mathlib.Core.Option.{some-injective}
use langgraph_temporal.Prelude.Lists.{length}
use langgraph_temporal.Langgraph.{Langgraph}
use langgraph_temporal.Coroutine.{Co, done, Slot, Reply, returned, failed, parked, advance}
use langgraph_temporal.Workflow.{Workflow}
use langgraph_temporal.Workflow.Machine.{
  start_all, resume_slot, deliver, ready, unsettled, collect_all, add_result, add_waiting,
}

module _ {A : Type 0} (reply : A → Reply) where
  abbrev pub reply_at : ℕ → List A → Option Reply
  reply_at i [] = none
  reply_at zero (a ∷ as_) = some (reply a)
  reply_at (suc i) (a ∷ as_) = reply_at i as_

  module _ {S : Type 0} where
    -- The slot has its result, or returns it at the first reply.
    abbrev pub Promises : Slot S A → A → Type 0
    Promises (returned b) a = b ≡ a
    Promises (failed e) a = ⊥
    Promises (parked q k) a = k (reply a) ≡ done a

    abbrev pub AllPromise : List (Slot S A) → List A → Type 0
    AllPromise [] [] = Unit
    AllPromise [] (a ∷ results) = ⊥
    AllPromise (x ∷ xs) [] = ⊥
    AllPromise (x ∷ xs) (a ∷ results) = Promises x a × AllPromise xs results

    -- A group of which each keeps its promise has its results, or waits.
    Promises-collect :
        (x : Slot S A) (a : A) (xs : List (Slot S A)) (results : List A)
        → Promises x a
        → (collect_all xs ≡ ready results) ⊎ (collect_all xs ≡ unsettled)
        → (collect_all (x ∷ xs) ≡ ready (a ∷ results)) ⊎ (collect_all (x ∷ xs) ≡ unsettled)
    unfolding collect_all
    Promises-collect (returned b) a xs results p (inl e) = inl (cc)
    Promises-collect (returned b) a xs results p (inr e) = inr (ap (add_result b) e)
    Promises-collect (failed x) a xs results p h = elim p [ ]
    Promises-collect (parked q k) a xs results p (inl e) = inr (ap add_waiting e)
    Promises-collect (parked q k) a xs results p (inr e) = inr (ap add_waiting e)

    pub AllPromise-collect :
        (xs : List (Slot S A)) (results : List A)
        → AllPromise xs results
        → (collect_all xs ≡ ready results) ⊎ (collect_all xs ≡ unsettled)
    unfolding collect_all
    AllPromise-collect [] [] h = inl refl
    AllPromise-collect [] (a ∷ results) h = elim h [ ]
    AllPromise-collect (x ∷ xs) [] h = elim h [ ]
    AllPromise-collect (x ∷ xs) (a ∷ results) h =
        Promises-collect x a xs results h.0 (AllPromise-collect xs results h.1)

    pub resume_slot-Promises :
        (x : Slot S A) (a : A) (r : Reply) (s : S)
        → some (reply a) ≡ some r
        → Promises x a
        → (resume_slot x r s).0 ≡ returned a
    unfolding resume_slot advance
    resume_slot-Promises (returned b) a r s e h = ap returned h
    resume_slot-Promises (failed x) a r s e h = elim h [ ]
    resume_slot-Promises (parked q k) a r s e h =
        cc (
          ap (λ c. (advance c s).0) h,
          ap (λ r. (advance (k r) s).0) (some-injective (reply a) r e),
        )

    -- A completion keeps the promises, and the slot that it reaches waits no longer.
    pub deliver-AllPromise :
        (i : ℕ) (r : Reply) (xs : List (Slot S A)) (results : List A) (s : S)
        → reply_at i results ≡ some r
        → AllPromise xs results
        → AllPromise (deliver i r xs s).0 results
    unfolding deliver
    deliver-AllPromise i r [] results s e h = h
    deliver-AllPromise i r (x ∷ xs) [] s e h = elim h [ ]
    deliver-AllPromise zero r (x ∷ xs) (a ∷ results) s e h =
        let woken = resume_slot-Promises x a r s e h.0 in
        (subst (λ y. Promises y a) (sym woken) refl, h.1)
    deliver-AllPromise (suc i) r (x ∷ xs) (a ∷ results) s e h =
        (h.0, deliver-AllPromise i r xs results s e h.1)

  module _ {L : Langgraph} where
    -- The coroutine returns `a` or waits, and then returns `a` at its first reply.
    abbrev pub Settles : Co (Workflow L) A → A → Type 0
    Settles c a = (w : Workflow L) → Promises (advance c w).0 a

    abbrev pub AllSettle : List (Co (Workflow L) A) → List A → Type 0
    AllSettle [] [] = Unit
    AllSettle [] (a ∷ results) = ⊥
    AllSettle (c ∷ cs) [] = ⊥
    AllSettle (c ∷ cs) (a ∷ results) = Settles c a × AllSettle cs results

    pub start_all-AllPromise :
        (cs : List (Co (Workflow L) A)) (results : List A) (w : Workflow L)
        → AllSettle cs results
        → AllPromise (start_all cs w).0 results
    unfolding start_all
    start_all-AllPromise [] [] w h = tt
    start_all-AllPromise [] (a ∷ results) w h = elim h [ ]
    start_all-AllPromise (c ∷ cs) [] w h = elim h [ ]
    start_all-AllPromise (c ∷ cs) (a ∷ results) w h =
        (h.0 w, start_all-AllPromise cs results (advance c w).1 h.1)

    pub AllPromise-length :
        (xs : List (Slot (Workflow L) A)) (results : List A)
        → AllPromise xs results
        → length xs ≡ length results
    AllPromise-length [] [] h = refl
    AllPromise-length [] (a ∷ results) h = elim h [ ]
    AllPromise-length (x ∷ xs) [] h = elim h [ ]
    AllPromise-length (x ∷ xs) (a ∷ results) h = ap suc (AllPromise-length xs results h.1)

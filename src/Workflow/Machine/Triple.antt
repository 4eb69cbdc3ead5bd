-- ===== src/Workflow/Machine/Triple.antt =====
-- Postconditions of pieces of the main coroutine that do not run out of fuel.
use langgraph_temporal.Prelude.{
  if◌then◌else◌, List, [], ◌∷◌, ◌++◌, ◌≡◌, refl, true, false, Bool, inl, inr, arith,
}
use langgraph_temporal.Prelude.Result.{Result, ok, err, Result-cases}
use langgraph_temporal.Config.{WorkflowInput}
use langgraph_temporal.Langgraph.{Langgraph}
use langgraph_temporal.Coroutine.{Co, Slot, Request}
use langgraph_temporal.Workflow.{Workflow, running}
use langgraph_temporal.Workflow.Signals.{resume_signal, update_state_signal}
use langgraph_temporal.Workflow.Machine.{
  Event, complete, resume, update, wake, Outcome, ended, raised, continued, blocked, exhausted,
  Machine, start_all, deliver, Collected, M, join_loop, join, exec, collect_one, wait_loop,
  wait_for_resume, pure, lift, asks, update_self, follow, ◌>>=◌,
}
use langgraph_temporal.Workflow.Machine.Keeps.{Keeps, SignalsKeep}

-- Ends, raises or blocks; it does not continue as new, nor run out of fuel.
abbrev pub IsQuiet {ℓ} : {A : Type ℓ} → Outcome A → Type 0
IsQuiet (ended a) = Unit
IsQuiet (raised e) = Unit
IsQuiet (continued i) = ⊥
IsQuiet blocked = Unit
IsQuiet exhausted = ⊥

pub record Quiet {ℓ} {L : Langgraph} {A : Type ℓ} (c : M L A) : Type 0 where
  pub at : (m : Machine L) → IsQuiet (c m).0

-- Q of a result and of the state with it, C of the input of a run that is continued.
abbrev pub Post {ℓ} :
    {L : Langgraph} {A : Type ℓ}
    → (A → Workflow L → Type 0)
    → (WorkflowInput → Type 0)
    → Outcome A
    → Workflow L
    → Type 0
Post Q C (ended a) w = Q a w
Post Q C (raised e) w = Unit
Post Q C (continued i) w = C i
Post Q C blocked w = Unit
Post Q C exhausted w = ⊥

pub record Triple {ℓ} {L : Langgraph} {A : Type ℓ} (P : Workflow L → Type 0) (c : M L A)
    (Q : A → Workflow L → Type 0) (C : WorkflowInput → Type 0) : Type 0 where
  pub at : (m : Machine L) → P m.self → Post Q C (c m).0 (c m).1.self

module _ {L : Langgraph} where
  join_loop-IsQuiet :
      {A B : Type 0} (collect : List (Slot (Workflow L) A) → Collected B) (es : List Event)
      (xs : List (Slot (Workflow L) A)) (w : Workflow L) (rs : List Request)
      → IsQuiet (join_loop collect es xs w rs).0
  unfolding join_loop
  join_loop-IsQuiet collect [] xs w rs = ground arith
  join_loop-IsQuiet collect (complete i r ∷ es) xs w rs = ground (
    arith,
    join_loop-IsQuiet collect es (deliver i r xs w).0 (deliver i r xs w).1
        (rs ++ (deliver i r xs w).2),
  )
  join_loop-IsQuiet collect (resume v ∷ es) xs w rs =
      ground (arith, join_loop-IsQuiet collect es xs (resume_signal v w) rs)
  join_loop-IsQuiet collect (update u ∷ es) xs w rs =
      elim (Result-cases (update_state_signal u w)) [
        | inl (w', e) ↦ ground (arith, join_loop-IsQuiet collect es xs w' rs)
        | inr (x, e) ↦ ground arith
      ]
  join_loop-IsQuiet collect (wake ∷ es) xs w rs =
      ground (arith, join_loop-IsQuiet collect es xs w rs)

  pub Quiet-join :
      {A B : Type 0} (collect : List (Slot (Workflow L) A) → Collected B)
      (cs : List (Co (Workflow L) A))
      → Quiet (join collect cs)
  unfolding join
  Quiet-join collect cs = record {
    at = λ m.
        join_loop-IsQuiet collect m.schedule (start_all cs m.self).0 (start_all cs m.self).1
          (m.issued ++ (start_all cs m.self).2);
  }

  pub Quiet-exec : {A : Type 0} (c : Co (Workflow L) A) → Quiet (exec c)
  unfolding exec
  Quiet-exec c = Quiet-join collect_one (c ∷ [])

  -- What holds when a wait for a resume signal ends.
  wait_loop-Post :
      (P : Workflow L → Type 0) (C : WorkflowInput → Type 0)
      → SignalsKeep P
      → ((w : Workflow L) → P w → P (record w { status = running }))
      → (es : List Event) (w : Workflow L) (rs : List Request) → P w
      → Post {A = Unit {0}}
          (λ _ v. P v × (v.status ≡ running))
          C
          (wait_loop es w rs).0
          (wait_loop es w rs).1.self
  unfolding wait_loop
  wait_loop-Post P C k go [] w rs h = tt
  wait_loop-Post P C k go (complete i r ∷ es) w rs h = wait_loop-Post P C k go es w rs h
  wait_loop-Post P C k go (resume v ∷ es) w rs h =
      wait_loop-Post P C k go es (resume_signal v w) rs (k.on_resume v w h)
  wait_loop-Post P C k go (update u ∷ es) w rs h = elim (Result-cases (update_state_signal u w)) [
    | inl (w', e) ↦ ground (arith, wait_loop-Post P C k go es w' rs (k.on_update u w w' e h))
    | inr (x, e) ↦ ground arith
  ]
  wait_loop-Post P C k go (wake ∷ es) w rs h =
      ground (arith, wait_loop-Post P C k go es w rs h, go w h)

  pub Triple-wait_for_resume :
      {P : Workflow L → Type 0} {C : WorkflowInput → Type 0}
      → SignalsKeep P
      → ((w : Workflow L) → P w → P (record w { resume_event = false; resume_values = [] }))
      → ((w : Workflow L) → P w → P (record w { status = running }))
      → Triple P wait_for_resume (λ _ v. P v × (v.status ≡ running)) C
  unfolding wait_for_resume
  Triple-wait_for_resume {P} {C} k fresh go = record {
    at = λ m h. wait_loop-Post P C k go m.schedule _ m.issued (fresh m.self h);
  }

  pub Triple-update_self :
      {P : Workflow L → Type 0} {Q : Unit {0} → Workflow L → Type 0} {C : WorkflowInput → Type 0}
      (f : Workflow L → Workflow L)
      → ((w : Workflow L) → P w → Q tt (f w))
      → Triple P (update_self f) Q C
  unfolding update_self
  Triple-update_self f k = record { at = λ m h. k m.self h }

module _ {ℓ} {L : Langgraph} {A : Type ℓ} where
  pub Quiet-lift : (r : Result A) → Quiet (lift {L = L} r)
  unfolding lift
  Quiet-lift (ok a) = record { at = λ m. tt }
  Quiet-lift (err e) = record { at = λ m. tt }

keep-Post {ℓ} :
    {L : Langgraph} {A : Type ℓ} (P : Workflow L → Type 0) (Q : A → Workflow L → Type 0)
    (C : WorkflowInput → Type 0) (o : Outcome A) (w : Workflow L)
    → ((a : A) (v : Workflow L) → P v → Q a v)
    → IsQuiet o
    → P w
    → Post Q C o w
keep-Post P Q C (ended a) w k q h = k a w h
keep-Post P Q C (raised e) w k q h = tt
keep-Post P Q C (continued i) w k q h = absurd q
keep-Post P Q C blocked w k q h = tt
keep-Post P Q C exhausted w k q h = q

module _ {ℓ} {L : Langgraph} {A : Type ℓ} {P : Workflow L → Type 0} {Q : A → Workflow L → Type 0}
    {C : WorkflowInput → Type 0} where
  pub Triple-keeps :
      (c : M L A) → Keeps P c → Quiet c → ((a : A) (v : Workflow L) → P v → Q a v) → Triple P c Q C
  Triple-keeps c keeps quiet k = record {
    at = λ m h. keep-Post P Q C (c m).0 (c m).1.self k (quiet.at m) (keeps.at m h);
  }

  pub Triple-pure : (a : A) → ((w : Workflow L) → P w → Q a w) → Triple P (pure a) Q C
  unfolding pure
  Triple-pure a k = record { at = λ m h. k m.self h }

  pub Triple-lift :
      (r : Result A) → ((a : A) (w : Workflow L) → r ≡ ok a → P w → Q a w) → Triple P (lift r) Q C
  unfolding lift
  Triple-lift (ok a) k = record { at = λ m h. k a m.self refl h }
  Triple-lift (err e) k = record { at = λ m h. tt }

  pub Triple-asks :
      (f : Workflow L → A) → ((w : Workflow L) → P w → Q (f w) w) → Triple P (asks f) Q C
  unfolding asks
  Triple-asks f k = record { at = λ m h. k m.self h }

  pub Triple-if :
      (b : Bool) (c d : M L A) → Triple P c Q C → Triple P d Q C → Triple P (if b then c else d) Q C
  Triple-if true c d tc td = tc
  Triple-if false c d tc td = td

follow-Post {ℓ κ} :
    {L : Langgraph} {A : Type ℓ} {B : Type κ} (Q : A → Workflow L → Type 0)
    (R : B → Workflow L → Type 0) (C : WorkflowInput → Type 0) (o : Outcome A) (f : A → M L B)
    (m : Machine L)
    → ((a : A) → Triple (Q a) (f a) R C)
    → Post Q C o m.self
    → Post R C (follow o f m).0 (follow o f m).1.self
follow-Post Q R C (ended a) f m k h = (k a).at m h
follow-Post Q R C (raised e) f m k h = tt
follow-Post Q R C (continued i) f m k h = h
follow-Post Q R C blocked f m k h = tt
follow-Post Q R C exhausted f m k h = h

module _ {ℓ κ} {L : Langgraph} {A : Type ℓ} {B : Type κ} {P : Workflow L → Type 0}
    {Q : A → Workflow L → Type 0} {R : B → Workflow L → Type 0} {C : WorkflowInput → Type 0} where
  pub Triple-bind :
      (c : M L A) (f : A → M L B)
      → Triple P c Q C
      → ((a : A) → Triple (Q a) (f a) R C)
      → Triple P (c >>= f) R C
  unfolding ◌>>=◌
  Triple-bind c f tc tf = record { at = λ m h. follow-Post Q R C (c m).0 f (c m).1 tf (tc.at m h) }

module _ {ℓ} {L : Langgraph} {A : Type ℓ} where
  pub Quiet-pure : (a : A) → Quiet (pure {L = L} a)
  unfolding pure
  Quiet-pure a = record { at = λ m. tt }

  pub Quiet-asks : (f : Workflow L → A) → Quiet (asks f)
  unfolding asks
  Quiet-asks f = record { at = λ m. tt }

  pub Quiet-if : (b : Bool) (c d : M L A) → Quiet c → Quiet d → Quiet (if b then c else d)
  Quiet-if true c d qc qd = qc
  Quiet-if false c d qc qd = qd

pub Quiet-update_self : {L : Langgraph} (f : Workflow L → Workflow L) → Quiet (update_self f)
unfolding update_self
Quiet-update_self f = record { at = λ m. tt }

module _ {ℓ κ} {L : Langgraph} {A : Type ℓ} {B : Type κ} where
  follow-IsQuiet :
      (o : Outcome A) (f : A → M L B) (m : Machine L)
      → ((a : A) → Quiet (f a))
      → IsQuiet o
      → IsQuiet (follow o f m).0
  follow-IsQuiet (ended a) f m k q = (k a).at m
  follow-IsQuiet (raised e) f m k q = tt
  follow-IsQuiet (continued i) f m k q = q
  follow-IsQuiet blocked f m k q = tt
  follow-IsQuiet exhausted f m k q = q

  pub Quiet-bind : (c : M L A) (f : A → M L B) → Quiet c → ((a : A) → Quiet (f a)) → Quiet (c >>= f)
  unfolding ◌>>=◌
  Quiet-bind c f qc qf = record { at = λ m. follow-IsQuiet (c m).0 f (c m).1 qf (qc.at m) }

pub ruleset quiet_rules = (
  Quiet-pure, Quiet-asks, Quiet-if, Quiet-lift, Quiet-update_self, Quiet-join, Quiet-exec,
  Quiet-bind,
)

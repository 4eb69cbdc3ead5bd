-- ===== src/Workflow/Machine/Rules.antt =====
-- The rules of `Keeps` for the operations of the main coroutine.
use langgraph_temporal.Prelude.{if◌then◌else◌, true, false, Bool}
use langgraph_temporal.Prelude.Result.{Exn, Result, ok, err}
use langgraph_temporal.Config.{WorkflowInput}
use langgraph_temporal.Langgraph.{Langgraph}
use langgraph_temporal.Workflow.{Workflow}
use langgraph_temporal.Workflow.Machine.{
  Outcome, ended, raised, continued, blocked, exhausted, Machine, M, pure, raise_exn,
  continue_as_new, lift, asks, update_self, follow, ◌>>=◌,
}
use langgraph_temporal.Workflow.Machine.Keeps.{Keeps}

module _ {ℓ} {L : Langgraph} {A : Type ℓ} {P : Workflow L → Type 0} where
  pub Keeps-pure : (a : A) → Keeps P (pure a)
  unfolding pure
  Keeps-pure a = record { at = λ m h. h }

  pub Keeps-raise_exn : (e : Exn) → Keeps P (raise_exn {A = A} e)
  unfolding raise_exn
  Keeps-raise_exn e = record { at = λ m h. h }

  pub Keeps-continue_as_new : (i : WorkflowInput) → Keeps P (continue_as_new {A = A} i)
  unfolding continue_as_new
  Keeps-continue_as_new i = record { at = λ m h. h }

  pub Keeps-lift : (r : Result A) → Keeps P (lift r)
  unfolding lift
  Keeps-lift (ok a) = record { at = λ m h. h }
  Keeps-lift (err e) = record { at = λ m h. h }

  pub Keeps-asks : (f : Workflow L → A) → Keeps P (asks f)
  unfolding asks
  Keeps-asks f = record { at = λ m h. h }

  pub Keeps-if : (b : Bool) (c d : M L A) → Keeps P c → Keeps P d → Keeps P (if b then c else d)
  Keeps-if true c d kc kd = kc
  Keeps-if false c d kc kd = kd

pub Keeps-update_self :
    {L : Langgraph} {P : Workflow L → Type 0} (f : Workflow L → Workflow L)
    → ((w : Workflow L) → P w → P (f w))
    → Keeps P (update_self f)
unfolding update_self
Keeps-update_self f k = record { at = λ m h. k m.self h }

module _ {ℓ κ} {L : Langgraph} {A : Type ℓ} {B : Type κ} {P : Workflow L → Type 0} where
  follow-Keeps :
      (o : Outcome A) (f : A → M L B) (m : Machine L)
      → ((a : A) → Keeps P (f a))
      → P m.self
      → P (follow o f m).1.self
  follow-Keeps (ended a) f m k h = (k a).at m h
  follow-Keeps (raised e) f m k h = h
  follow-Keeps (continued i) f m k h = h
  follow-Keeps blocked f m k h = h
  follow-Keeps exhausted f m k h = h

  pub Keeps-bind :
      (c : M L A) (f : A → M L B) → Keeps P c → ((a : A) → Keeps P (f a)) → Keeps P (c >>= f)
  unfolding ◌>>=◌
  Keeps-bind c f kc kf = record { at = λ m h. follow-Keeps (c m).0 f (c m).1 kf (kc.at m h) }

pub ruleset keeps_rules = (
  Keeps-pure, Keeps-raise_exn, Keeps-continue_as_new, Keeps-lift, Keeps-asks, Keeps-if, Keeps-bind,
)

-- ===== src/Coroutine/Laws.antt =====
-- Laws of coroutines.
use mathlib.Core.Path.{fun_ext}
use langgraph_temporal.Prelude.{◌≡◌, refl, ap}
use langgraph_temporal.Coroutine.{Co, done, raise, gets, modify, await, ◌>>=◌}

module _ {S A B C : Type 0} where
  pub bind_assoc :
      (c : Co S A) (f : A → Co S B) (g : B → Co S C) → (c >>= f >>= g) ≡ (c >>= λ a. f a >>= g)
  unfolding ◌>>=◌
  bind_assoc (done a) f g = refl
  bind_assoc (raise e) f g = refl
  bind_assoc (gets k) f g = ap gets (fun_ext λ s. bind_assoc (k s) f g)
  bind_assoc (modify h c) f g = ap (modify h) (bind_assoc c f g)
  bind_assoc (await r k) f g = ap (await r) (fun_ext λ x. bind_assoc (k x) f g)

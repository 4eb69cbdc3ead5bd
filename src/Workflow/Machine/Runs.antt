-- ===== src/Workflow/Machine/Runs.antt =====
-- What a piece of the workflow's main coroutine does with the events it reads, whatever follows them
-- in the schedule and whatever was requested before.
use langgraph_temporal.Prelude.{
  List, [], ◌∷◌, ◌++◌, ◌≡◌, refl, ap, sym, ◌∙◌, append-nil, append_assoc, Bool, true, false,
  if◌then◌else◌,
}
use mathlib.Core.Path.{subst}
use langgraph_temporal.Prelude.Result.{Result, ok}
use langgraph_temporal.Langgraph.{Langgraph}
use langgraph_temporal.Coroutine.{Request, returned}
use langgraph_temporal.Workflow.{Workflow}
use langgraph_temporal.Workflow.Machine.{
  M, Machine, Event, ended, follow, pure, lift, asks, update_self, ◌>>=◌, collect_one, join_loop,
}

abbrev pub machine : {L : Langgraph} → Workflow L → List Event → List Request → Machine L
machine w es rs = record { self = w; schedule = es; issued = rs }

-- From the state w, c reads just the events es, ends with a in the state w', and makes these
-- requests.
pub record Runs {L : Langgraph} {A : Type 0} (c : M L A) (w : Workflow L) (es : List Event) (a : A)
    (w' : Workflow L) (sent : List Request) : Type 0 where
  pub at :
      (rest : List Event) (issued : List Request)
      → c (machine w (es ++ rest) issued) ≡ (ended a, machine w' rest (issued ++ sent))

module _ {L : Langgraph} {A : Type 0} where
  -- A coroutine that has returned is awaited no longer.
  pub one_returned :
      (es : List Event) (a : A) (w : Workflow L) (rs : List Request)
      → join_loop collect_one es (returned a ∷ []) w rs ≡ (ended a, machine w es rs)
  unfolding join_loop collect_one
  one_returned [] a w rs = refl
  one_returned (e ∷ es) a w rs = refl

  -- What makes no request and reads no event.
  pub Runs-still :
      {c : M L A} {w w' : Workflow L} {a : A}
      → ((es : List Event) (rs : List Request) → c (machine w es rs) ≡ (ended a, machine w' es rs))
      → Runs c w [] a w' []
  Runs-still {w' = w'} {a = a} h = record {
    at = λ rest issued.
        h rest issued ∙ ap (λ rs. (ended a, machine w' rest rs)) (sym (append-nil issued));
  }

  -- What makes no request.
  pub Runs-events :
      {c : M L A} {w w' : Workflow L} {es : List Event} {a : A}
      → ((rest : List Event) (rs : List Request)
          → c (machine w (es ++ rest) rs) ≡ (ended a, machine w' rest rs))
      → Runs c w es a w' []
  Runs-events {w' = w'} {a = a} h = record {
    at = λ rest issued.
        h rest issued ∙ ap (λ rs. (ended a, machine w' rest rs)) (sym (append-nil issued));
  }

  pub Runs-pure : (a : A) (w : Workflow L) → Runs (pure a) w [] a w []
  unfolding pure
  Runs-pure a w = Runs-still (λ es rs. refl)

  pub Runs-asks : (f : Workflow L → A) (w : Workflow L) → Runs (asks f) w [] (f w) w []
  unfolding asks
  Runs-asks f w = Runs-still (λ es rs. refl)

  pub Runs-lift : (r : Result A) (a : A) (w : Workflow L) → r ≡ ok a → Runs (lift r) w [] a w []
  unfolding lift
  Runs-lift r a w e = Runs-still (λ es rs. ap (λ r. lift r (machine w es rs)) e)

  pub Runs-false :
      (c : M L A) {d : M L A} {w w' : Workflow L} {es : List Event} {a : A} {sent : List Request}
      (b : Bool)
      → b ≡ false
      → Runs d w es a w' sent
      → Runs (if b then c else d) w es a w' sent
  Runs-false c {d = d} {w = w} {es = es} b e h = record {
    at = λ rest issued.
        ap (λ b. (if b then c else d) (machine w (es ++ rest) issued)) e ∙ h.at rest issued;
  }

  pub Runs-true :
      (d : M L A) {c : M L A} {w w' : Workflow L} {es : List Event} {a : A} {sent : List Request}
      (b : Bool)
      → b ≡ true
      → Runs c w es a w' sent
      → Runs (if b then c else d) w es a w' sent
  Runs-true d {c = c} {w = w} {es = es} b e h = record {
    at = λ rest issued.
        ap (λ b. (if b then c else d) (machine w (es ++ rest) issued)) e ∙ h.at rest issued;
  }

module _ {L : Langgraph} where
  pub Runs-update_self :
      (f : Workflow L → Workflow L) (w : Workflow L) → Runs (update_self f) w [] tt (f w) []
  unfolding update_self
  Runs-update_self f w = Runs-still (λ es rs. refl)

module _ {L : Langgraph} {A B : Type 0} where
  -- One piece after the other.
  pub Runs-bind :
      {c : M L A} (f : A → M L B) {w w1 w2 : Workflow L} {es es' : List Event} {a : A} {b : B}
      {sent sent' : List Request}
      → Runs c w es a w1 sent
      → Runs (f a) w1 es' b w2 sent'
      → Runs (c >>= f) w (es ++ es') b w2 (sent ++ sent')
  unfolding ◌>>=◌
  Runs-bind {c = c} f {w = w} {w2 = w2} {es = es} {es' = es'} {b = b} {sent = sent} {sent' = sent'}
        first second =
      record {
        at = λ rest issued.
            ap (λ es. (c >>= f) (machine w es issued)) (append_assoc es es' rest)
            ∙ ap (λ (o, m). follow o f m) (first.at (es' ++ rest) issued)
            ∙ second.at rest (issued ++ sent)
            ∙ ap (λ rs. (ended b, machine w2 rest rs)) (append_assoc issued sent sent');
      }

module _ {L : Langgraph} {A B : Type 0} where
  -- A result that is taken further without a wait.
  pub Runs-returns :
      {c : M L A} (g : A → B) {w w' : Workflow L} {es : List Event} {a : A} {sent : List Request}
      → Runs c w es a w' sent
      → Runs (c >>= λ a. pure (g a)) w es (g a) w' sent
  unfolding ◌>>=◌ pure
  Runs-returns g h = record {
    at = λ rest issued. ap (λ (o, m). follow o (λ a. pure (g a)) m) (h.at rest issued);
  }

  -- A piece that is followed by one that reads and sends nothing.
  pub Runs-then :
      {c : M L A} (f : A → M L B) {w w1 w2 : Workflow L} {es : List Event} {a : A} {b : B}
      {sent : List Request}
      → Runs c w es a w1 sent
      → Runs (f a) w1 [] b w2 []
      → Runs (c >>= f) w es b w2 sent
  unfolding ◌>>=◌
  Runs-then f {w2 = w2} {b = b} {sent = sent} first second = record {
    at = λ rest issued.
        ap (λ (o, m). follow o f m) (first.at rest issued)
        ∙ second.at rest (issued ++ sent)
        ∙ ap (λ rs. (ended b, machine w2 rest rs)) (append-nil (issued ++ sent));
  }

  -- One piece after the other, of which the second sends nothing.
  pub Runs-reads :
      {c : M L A} (f : A → M L B) {w w1 w2 : Workflow L} {es es' : List Event} {a : A} {b : B}
      {sent : List Request}
      → Runs c w es a w1 sent
      → Runs (f a) w1 es' b w2 []
      → Runs (c >>= f) w (es ++ es') b w2 sent
  Runs-reads {c = c} f {w = w} {w2 = w2} {es = es} {es' = es'} {b = b} {sent = sent} first second =
      subst (λ sent. Runs (c >>= f) w (es ++ es') b w2 sent) (append-nil sent)
        (Runs-bind f first second)

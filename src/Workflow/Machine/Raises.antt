-- ===== src/Workflow/Machine/Raises.antt =====
-- What a piece of the workflow's main coroutine does that ends with an exception, whatever follows in
-- the schedule and whatever was requested before.
use langgraph_temporal.Prelude.{
  List, [], ◌++◌, ◌≡◌, ap, sym, ◌∙◌, append-nil, append_assoc, Bool, false, if◌then◌else◌,
}
use langgraph_temporal.Prelude.Result.{Exn, Result, err}
use langgraph_temporal.Langgraph.{Langgraph}
use langgraph_temporal.Coroutine.{Request}
use langgraph_temporal.Workflow.{Workflow}
use langgraph_temporal.Workflow.Machine.{M, Event, raised, follow, lift, ◌>>=◌}
use langgraph_temporal.Workflow.Machine.Runs.{machine, Runs}

-- From the state w, c reads just the events es, raises e in the state w', and makes these requests.
pub record Raises {L : Langgraph} {A : Type 0} (c : M L A) (w : Workflow L) (es : List Event)
    (e : Exn) (w' : Workflow L) (sent : List Request) : Type 0 where
  pub at :
      (rest : List Event) (issued : List Request)
      → c (machine w (es ++ rest) issued) ≡ (raised e, machine w' rest (issued ++ sent))

module _ {L : Langgraph} {A : Type 0} where
  pub Raises-lift :
      (r : Result A) (e : Exn) (w : Workflow L) → r ≡ err e → Raises (lift r) w [] e w []
  unfolding lift
  Raises-lift r e w h = record {
    at = λ rest issued.
        ap (λ r. lift r (machine w rest issued)) h
        ∙ ap (λ rs. (raised e, machine w rest rs)) (sym (append-nil issued));
  }

  -- What makes no request and reads no event.
  pub Raises-still :
      {c : M L A} {w w' : Workflow L} {e : Exn}
      → ((es : List Event) (rs : List Request) → c (machine w es rs) ≡ (raised e, machine w' es rs))
      → Raises c w [] e w' []
  Raises-still {w' = w'} {e = e} h = record {
    at = λ rest issued.
        h rest issued ∙ ap (λ rs. (raised e, machine w' rest rs)) (sym (append-nil issued));
  }

  pub Raises-false :
      (c : M L A) {d : M L A} {w w' : Workflow L} {es : List Event} {e : Exn} {sent : List Request}
      (b : Bool)
      → b ≡ false
      → Raises d w es e w' sent
      → Raises (if b then c else d) w es e w' sent
  Raises-false c {d = d} {w = w} {es = es} b h raises = record {
    at = λ rest issued.
        ap (λ b. (if b then c else d) (machine w (es ++ rest) issued)) h ∙ raises.at rest issued;
  }

module _ {L : Langgraph} {A B : Type 0} where
  -- What follows is skipped.
  pub Raises-first :
      {c : M L A} (f : A → M L B) {w w' : Workflow L} {es : List Event} {e : Exn}
      {sent : List Request}
      → Raises c w es e w' sent
      → Raises (c >>= f) w es e w' sent
  unfolding ◌>>=◌
  Raises-first f h = record { at = λ rest issued. ap (λ (o, m). follow o f m) (h.at rest issued) }

  -- After a piece that ends.
  pub Raises-later :
      {c : M L A} (f : A → M L B) {w w1 w2 : Workflow L} {es es' : List Event} {a : A} {e : Exn}
      {sent sent' : List Request}
      → Runs c w es a w1 sent
      → Raises (f a) w1 es' e w2 sent'
      → Raises (c >>= f) w (es ++ es') e w2 (sent ++ sent')
  unfolding ◌>>=◌
  Raises-later {c = c} f {w = w} {w2 = w2} {es = es} {es' = es'} {e = e} {sent = sent}
        {sent' = sent'} first second =
      record {
        at = λ rest issued.
            ap (λ es. (c >>= f) (machine w es issued)) (append_assoc es es' rest)
            ∙ ap (λ (o, m). follow o f m) (first.at (es' ++ rest) issued)
            ∙ second.at rest (issued ++ sent)
            ∙ ap (λ rs. (raised e, machine w2 rest rs)) (append_assoc issued sent sent');
      }

  -- After a piece that ends, at once.
  pub Raises-then :
      {c : M L A} (f : A → M L B) {w w1 w2 : Workflow L} {es : List Event} {a : A} {e : Exn}
      {sent : List Request}
      → Runs c w es a w1 sent
      → Raises (f a) w1 [] e w2 []
      → Raises (c >>= f) w es e w2 sent
  unfolding ◌>>=◌
  Raises-then f {w2 = w2} {e = e} {sent = sent} first second = record {
    at = λ rest issued.
        ap (λ (o, m). follow o f m) (first.at rest issued)
        ∙ second.at rest (issued ++ sent)
        ∙ ap (λ rs. (raised e, machine w2 rest rs)) (append-nil (issued ++ sent));
  }

-- ===== src/Graph/Stream.antt =====
-- `astream`: the events that a polling client yields for a stream mode. What the data converter makes
-- of an event on its way to the client is an argument.
use langgraph_temporal.Prelude.{
  ℕ, String, ◌==◌, ◌≡◌, refl, ap, ◌∙◌, arith, none, List, [], ◌∷◌, ◌++◌, map, if◌then◌else◌,
}
use langgraph_temporal.Prelude.Lists.{select}
use langgraph_temporal.Prelude.Result.{Result}
use langgraph_temporal.Asyncio.{EventLoop, run_until_complete}
use langgraph_temporal.Value.{Value}
use langgraph_temporal.Config.{StreamEvent}
use langgraph_temporal.Langgraph.{Langgraph}
use langgraph_temporal.Workflow.{Workflow}
use langgraph_temporal.Streaming.{Poll, poll_stream}
use langgraph_temporal.Streaming.Laws.{answers, Grows, InTime, last_buffer, poll_stream-Grows}

-- An event at the client: an object with the attributes `mode` and `data`, or something without.
pub data ClientEvent : Type 0 where
  with_mode : String → Value → ClientEvent
  without_mode : Value → ClientEvent

unfoldable pub yielded : String → ClientEvent → List Value
yielded mode (with_mode m payload) = if m == mode then payload ∷ [] else []
yielded mode (without_mode v) = v ∷ []

unfoldable pub all_yielded : String → List ClientEvent → List Value
unfolding yielded
all_yielded mode [] = []
all_yielded mode (e ∷ es) = yielded mode e ++ all_yielded mode es

-- After `astart`, with no timeout.
unfoldable pub astream : (StreamEvent → ClientEvent) → String → List Poll → List Value
unfolding all_yielded
astream convert mode polls = all_yielded mode (map convert (poll_stream none polls))

-- It collects what `astream` yields, and yields it then.
unfoldable pub stream :
    EventLoop → (StreamEvent → ClientEvent) → String → List Poll → Result (List Value)
unfolding astream run_until_complete
stream loop convert mode polls = run_until_complete loop (astream convert mode polls)

-- A converter that keeps the event's class, and one that makes a plain dict of it.
abbrev pub as_object : StreamEvent → ClientEvent
as_object e = with_mode e.mode e.payload

abbrev pub as_dict : (StreamEvent → Value) → StreamEvent → ClientEvent
as_dict to_dict e = without_mode (to_dict e)

yielded-objects :
    (mode : String) (es : List StreamEvent)
    → all_yielded mode (map as_object es) ≡ map (λ e. e.payload) (select (λ e. e.mode == mode) es)
unfolding all_yielded yielded
yielded-objects mode [] = refl
yielded-objects mode (e ∷ es) = ground (arith, yielded-objects mode es)

yielded-dicts :
    (to_dict : StreamEvent → Value) (mode : String) (es : List StreamEvent)
    → all_yielded mode (map (as_dict to_dict) es) ≡ map to_dict es
unfolding all_yielded yielded
yielded-dicts to_dict mode [] = refl
yielded-dicts to_dict mode (e ∷ es) =
    ap (λ (r : List Value). to_dict e ∷ r) (yielded-dicts to_dict mode es)

module _ (L : Langgraph) where
  -- If events reach the client as objects of their class, and the buffer only grows from poll to poll,
  -- then streaming in a mode yields the payloads of exactly the events of this mode in the last buffer
  -- seen, each once and in order.
  pub astream-objects :
      (mode : String) (xs : List (ℕ × Workflow L))
      → Grows [] xs
      → InTime none xs
      → astream as_object mode (answers xs)
        ≡ map (λ e. e.payload) (select (λ e. e.mode == mode) (last_buffer [] xs))
  unfolding astream
  astream-objects mode xs g h =
      ap (λ es. all_yielded mode (map as_object es)) (poll_stream-Grows none xs g h)
      ∙ yielded-objects mode (last_buffer [] xs)

  -- If events reach the client as plain dicts, as the elements of a list of any type do, then
  -- streaming yields the dicts of all events, whatever the mode.
  pub astream-dicts :
      (to_dict : StreamEvent → Value) (mode : String) (xs : List (ℕ × Workflow L))
      → Grows [] xs
      → InTime none xs
      → astream (as_dict to_dict) mode (answers xs) ≡ map to_dict (last_buffer [] xs)
  unfolding astream
  astream-dicts to_dict mode xs g h =
      ap (λ es. all_yielded mode (map (as_dict to_dict) es)) (poll_stream-Grows none xs g h)
      ∙ yielded-dicts to_dict mode (last_buffer [] xs)

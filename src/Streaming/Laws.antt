-- ===== src/Streaming/Laws.antt =====
-- `poll_stream` of langgraph/temporal/streaming.py against a run that answers it.
use langgraph_temporal.Prelude.{
  ℕ, zero, suc, ◌≡◌, ◌≤◌, refl, arith, none, false, Option, List, [], ◌∷◌, ◌++◌, append_assoc,
  append-nil,
}
use langgraph_temporal.Prelude.Lists.{length, drop, drop-append}
use langgraph_temporal.Prelude.Result.{ok}
use langgraph_temporal.Config.{StreamEvent}
use langgraph_temporal.Langgraph.{Langgraph}
use langgraph_temporal.Workflow.{Workflow}
use langgraph_temporal.Workflow.Stream.{get_stream_buffer}
use langgraph_temporal.Streaming.{Poll, poll_loop, poll_stream, timed_out}

extend : (b w more r : List StreamEvent) → w ≡ b ++ more → b ++ (drop (length b) w ++ r) ≡ w ++ r
extend b w more r e = rw (e, drop-append b more, append_assoc b more r)

drop-past : (n : ℕ) (l : List StreamEvent) → length l ≤ n → drop n l ≡ []
drop-past zero [] h = refl
drop-past zero (x ∷ l) h = absurd (omega arith)
drop-past (suc n) [] h = refl
drop-past (suc n) (x ∷ l) h = drop-past n l (omega arith)

module _ {L : Langgraph} where
  -- A poll that the run answers when it is in the given state.
  abbrev pub answer : ℕ × Workflow L → Poll
  answer (elapsed, w) = record {
    elapsed = elapsed;
    query = λ cursor. ok (get_stream_buffer cursor w);
  }

  abbrev pub answers : List (ℕ × Workflow L) → List Poll
  answers [] = []
  answers (x ∷ xs) = answer x ∷ answers xs

  -- Each state's buffer extends the one before it.
  abbrev pub Grows : List StreamEvent → List (ℕ × Workflow L) → Type 0
  Grows b [] = Unit
  Grows b ((t, w) ∷ xs) =
      ((more : List StreamEvent) × (w.stream_buffer ≡ b ++ more)) × Grows w.stream_buffer xs

  -- No poll comes after the timeout.
  abbrev pub InTime : Option ℕ → List (ℕ × Workflow L) → Type 0
  InTime timeout [] = Unit
  InTime timeout ((t, w) ∷ xs) = (timed_out timeout t ≡ false) × InTime timeout xs

  -- The last buffer.
  abbrev pub last_buffer : List StreamEvent → List (ℕ × Workflow L) → List StreamEvent
  last_buffer b [] = b
  last_buffer b ((t, w) ∷ xs) = last_buffer w.stream_buffer xs

  poll_loop-Grows :
      (timeout : Option ℕ) (b : List StreamEvent) (xs : List (ℕ × Workflow L))
      → Grows b xs
      → InTime timeout xs
      → b ++ poll_loop timeout (length b) (answers xs) ≡ last_buffer b xs
  unfolding poll_loop get_stream_buffer
  poll_loop-Grows timeout b [] g h = append-nil b
  poll_loop-Grows timeout b ((t, w) ∷ xs) ((more, e), g) (h, hs) = ground (
    arith,
    h,
    extend b w.stream_buffer more (poll_loop timeout (length w.stream_buffer) (answers xs)) e,
    poll_loop-Grows timeout w.stream_buffer xs g hs,
  )

  -- If the buffer only grows from poll to poll and no poll comes too late, a client that polls
  -- gets exactly the events of the last buffer seen, each once and in order.
  pub poll_stream-Grows :
      (timeout : Option ℕ) (xs : List (ℕ × Workflow L))
      → Grows [] xs
      → InTime timeout xs
      → poll_stream timeout (answers xs) ≡ last_buffer [] xs
  unfolding poll_stream
  poll_stream-Grows timeout xs g h = poll_loop-Grows timeout [] xs g h

  -- A run that was continued as new starts with an empty buffer. If the client's next poll finds
  -- no more events there than the old run had, it skips all of them, and later polls do not bring
  -- them back: it gets only what follows them.
  pub poll_loop-new_run :
      (cursor t : ℕ) (w : Workflow L) (xs : List (ℕ × Workflow L))
      → length w.stream_buffer ≤ cursor
      → Grows w.stream_buffer xs
      → InTime none xs
      → w.stream_buffer ++ poll_loop none cursor (answers ((t, w) ∷ xs))
        ≡ last_buffer w.stream_buffer xs
  unfolding poll_loop get_stream_buffer timed_out
  poll_loop-new_run cursor t w xs short g h =
      ground
        (arith, drop-past cursor w.stream_buffer short, poll_loop-Grows none w.stream_buffer xs g h)

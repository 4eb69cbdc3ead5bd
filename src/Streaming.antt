-- ===== src/Streaming.antt =====
-- langgraph/temporal/streaming.py: `PollingStreamBackend`. `poll_stream` is the client's side of
-- `get_stream_buffer`. Each poll is given by the time since the start, in microseconds, and by
-- what the query would answer to a cursor; the list ends where the client stops asking. The sleep
-- between two polls has no state.
pub mod Laws
use langgraph_temporal.Prelude.{
  ℕ, String, Option, none, some, List, [], ◌∷◌, ◌++◌, Bool, true, false, not, ◌&&◌, ltb, eqb,
  if◌then◌else◌,
}
use langgraph_temporal.Prelude.Result.{Result, ok, err, not_implemented_error}
use langgraph_temporal.Value.{Value}
use langgraph_temporal.Config.{StreamEvent, StreamQueryResult}

pub record Poll : Type 0 where
  pub elapsed : ℕ
  pub query : ℕ → Result StreamQueryResult

-- The default backend; a number of microseconds.
pub record PollingStreamBackend : Type 0 where
  pub poll_interval : ℕ

abbrev pub default_backend : PollingStreamBackend
default_backend = record { poll_interval = 100000 }

-- `publish` leaves everything (of a type S) as it is; what `subscribe` returns raises when it is asked for
-- its first event.
unfoldable pub publish : {S : Type 0} → PollingStreamBackend → String → Value → S → S
publish backend workflow_id event s = s

unfoldable pub subscribe : PollingStreamBackend → String → Result (List StreamEvent)
subscribe backend workflow_id =
    err (not_implemented_error "Use poll_stream() with a WorkflowHandle instead")

-- `timeout and elapsed > timeout`: a timeout of 0 is none.
unfoldable pub timed_out : Option ℕ → ℕ → Bool
timed_out none elapsed = false
timed_out (some t) elapsed = not (eqb t 0) && ltb t elapsed

-- The `while` loop, from a cursor on; the result is what the generator yields.
unfoldable pub poll_loop : Option ℕ → ℕ → List Poll → List StreamEvent
unfolding timed_out
poll_loop timeout cursor [] = []
poll_loop timeout cursor (p ∷ ps) =
    if timed_out timeout p.elapsed then [] else elim (p.query cursor) [
      | err e ↦ []
      | ok r ↦ r.events ++ poll_loop timeout r.next_cursor ps
    ]

unfoldable pub poll_stream : Option ℕ → List Poll → List StreamEvent
unfolding poll_loop
poll_stream timeout ps = poll_loop timeout 0 ps

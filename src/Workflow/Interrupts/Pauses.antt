-- ===== src/Workflow/Interrupts/Pauses.antt =====
-- `_wait_for_resume` over all that may arrive while the workflow waits: resume signals, updates of
-- the state, replies to nothing that is awaited, and looks at the wait condition that find the event
-- not set.
use langgraph_temporal.Prelude.{
  ◌≡◌, refl, true, false, Bool, String, List, [], ◌∷◌, ◌++◌, ap, ◌∙◌, append_assoc, append-nil, inl,
  inr, arith, if◌then◌else◌,
}
use langgraph_temporal.Prelude.Lists.{is_nil}
use langgraph_temporal.Prelude.Dict.{Dict}
use langgraph_temporal.Prelude.Result
use langgraph_temporal.Prelude.Result.{Result, ok, err, Result-cases}
use langgraph_temporal.Value.{Value}
use langgraph_temporal.Config.{Checkpoint}
use langgraph_temporal.Langgraph.{Langgraph}
use langgraph_temporal.Coroutine.{Request}
use langgraph_temporal.Workflow.{Workflow, running, interrupted, increment}
use langgraph_temporal.Workflow.Signals.{resume_signal, update_state_signal, update_task}
use langgraph_temporal.Workflow.Machine.{
  Event, complete, resume, update, wake, ended, wait_loop, wait_for_resume,
}
use langgraph_temporal.Workflow.Machine.Runs.{
  machine, Runs, Runs-events, Runs-bind, Runs-update_self,
}
use langgraph_temporal.Workflow.Interrupts.{pause}

-- The values of the resume signals, in order.
abbrev pub values_of : List Event → List Value
values_of [] = []
values_of (resume v ∷ es) = v ∷ values_of es
values_of (_ ∷ es) = values_of es

-- Whether the events are just those of a pause: it ends at the first look at the wait condition
-- after a resume signal, or at the first one if there has been a signal already.
abbrev pub is_pause : List Event → Bool → Bool
is_pause [] signalled = false
is_pause (wake ∷ es) signalled = if signalled then is_nil es else is_pause es false
is_pause (resume v ∷ es) signalled = is_pause es true
is_pause (_ ∷ es) signalled = is_pause es signalled

module _ (L : Langgraph) (triggers : Dict (List String)) where
  -- The checkpoint and the channels after the updates of the state, in order.
  abbrev pub updated :
      List Event → Checkpoint × Dict L.Channel → Result (Checkpoint × Dict L.Channel)
  updated [] s = ok s
  updated (update u ∷ es) s =
      Result.◌>>=◌ (L.apply_writes s.0 s.1 (update_task u ∷ []) increment triggers) (updated es)
  updated (_ ∷ es) s = updated es s

module _ {L : Langgraph} where
  -- The state after a pause.
  abbrev pub resumed_state : List Event → Checkpoint × Dict L.Channel → Workflow L → Workflow L
  resumed_state es s w = record w {
    checkpoint = s.0;
    channels = s.1;
    resume_event = true;
    resume_values = w.resume_values ++ values_of es;
    status = running;
  }

  -- The same, for a pause that records these interrupts and forgets earlier resume values.
  abbrev pub paused :
      List (Dict Value) → List Event → Checkpoint × Dict L.Channel → Workflow L → Workflow L
  paused entries es s w = record (resumed_state es s w) {
    interrupts = entries;
    resume_values = values_of es;
  }

  wait_loop-pause :
      (b : Bool) (es rest : List Event) (w : Workflow L) (issued : List Request)
      (s : Checkpoint × Dict L.Channel)
      → w.resume_event ≡ b
      → is_pause es b ≡ true
      → updated L w.trigger_to_nodes es (w.checkpoint, w.channels) ≡ ok s
      → wait_loop (es ++ rest) w issued ≡ (ended tt, machine (resumed_state es s w) rest issued)
  unfolding wait_loop resume_signal update_state_signal
  wait_loop-pause b [] rest w issued s set p u = ground (arith, p)
  wait_loop-pause true (wake ∷ []) rest w issued s set p u =
      ground (arith, set, u, append-nil w.resume_values)
  wait_loop-pause true (wake ∷ e ∷ es) rest w issued s set p u = ground (arith, p)
  wait_loop-pause false (wake ∷ es) rest w issued s set p u =
      ground (arith, set, wait_loop-pause false es rest w issued s set p u)
  wait_loop-pause b (resume v ∷ es) rest w issued s set p u =
      wait_loop-pause true es rest (resume_signal v w) issued s refl p u
      ∙ ap
          (λ vs.
            (ended tt, machine (record (resumed_state es s w) { resume_values = vs }) rest issued))
          (append_assoc w.resume_values (v ∷ []) (values_of es))
  wait_loop-pause b (complete i r ∷ es) rest w issued s set p u =
      wait_loop-pause b es rest w issued s set p u
  wait_loop-pause b (update u ∷ es) rest w issued s set p h =
      let call =
        L.apply_writes w.checkpoint w.channels (update_task u ∷ []) increment w.trigger_to_nodes in
      elim (Result-cases call) [
        | inl (r, e) ↦ ground (
          arith,
          h,
          e,
          wait_loop-pause b es rest (record w { checkpoint = r.0; channels = r.1 }) issued s set p,
        )
        | inr (x, e) ↦ ground (arith, h, e)
      ]

  -- What a wait for a resume does with all that may arrive. Let the events be any resume signals,
  -- updates of the state that langgraph takes, replies to nothing that is awaited, and looks at the
  -- wait condition, of which the last is the first one after a resume signal. Then the wait ends
  -- with the last event: earlier resume values are forgotten, the values are those of all resume
  -- signals in order, the updates have been applied in order, the status is "running", and nothing has
  -- been requested.
  pub wait_for_resume-pause :
      (es : List Event) (w : Workflow L) (s : Checkpoint × Dict L.Channel)
      → is_pause es false ≡ true
      → updated L w.trigger_to_nodes es (w.checkpoint, w.channels) ≡ ok s
      → Runs wait_for_resume w es tt (resumed_state es s (record w { resume_values = [] })) []
  unfolding wait_for_resume
  wait_for_resume-pause es w s p u = Runs-events (λ rest issued.
      wait_loop-pause false es rest (record w { resume_event = false; resume_values = [] }) issued s
        refl p u)

  pub pause-Runs :
      (entries : List (Dict Value)) (es : List Event) (w : Workflow L)
      (s : Checkpoint × Dict L.Channel)
      → is_pause es false ≡ true
      → updated L w.trigger_to_nodes es (w.checkpoint, w.channels) ≡ ok s
      → Runs (pause entries) w es tt (paused entries es s w) []
  unfolding pause
  pause-Runs entries es w s p u =
      let m = record w { status = interrupted; interrupts = entries } in
      Runs-bind _ (Runs-update_self _ w) (wait_for_resume-pause es m s p u)

-- ===== src/Workflow/Interrupts/Laws.antt =====
-- Waiting for a resume, and the nodes that are run again after it.
use langgraph_temporal.Prelude.{◌≡◌, true, List, [], ◌∷◌, ◌++◌, map, append_assoc, append-nil, ◌∙◌}
use langgraph_temporal.Value.{Value}
use langgraph_temporal.Langgraph.{Langgraph}
use langgraph_temporal.Coroutine.{Request}
use langgraph_temporal.Workflow.{Workflow, running}
use langgraph_temporal.Workflow.Signals.{resume_signal}
use langgraph_temporal.Workflow.Machine.{Event, resume, wake, ended, wait_loop, wait_for_resume}

-- The resume signals with the given values.
abbrev pub resumes : List Value → List Event
resumes vs = map resume vs

module _ {L : Langgraph} where
  collect_resumes :
      (vs : List Value) (es : List Event) (w : Workflow L) (rs : List Request)
      → wait_loop (resumes vs ++ (wake ∷ es)) (record w { resume_event = true }) rs ≡ (
        ended tt,
        record {
          self = record w {
            resume_event = true;
            resume_values = w.resume_values ++ vs;
            status = running;
          };
          schedule = es;
          issued = rs;
        },
      )
  unfolding wait_loop resume_signal
  collect_resumes [] es w rs = simp append-nil
  collect_resumes (v ∷ vs) es w rs =
      collect_resumes vs es (record w { resume_values = w.resume_values ++ (v ∷ []) }) rs
      ∙ simp append_assoc

  -- A pause forgets earlier resume values, and ends when the wait condition is next looked at
  -- after a resume signal: with the values of all resume signals since the pause began, in
  -- order, and the status "running".
  wait_for_resume-resumes :
      (v : Value) (vs : List Value) (es : List Event) (w : Workflow L) (rs : List Request)
      → wait_for_resume
          (record { self = w; schedule = resumes (v ∷ vs) ++ (wake ∷ es); issued = rs })
        ≡ (
          ended tt,
          record {
            self = record w { resume_event = true; resume_values = v ∷ vs; status = running };
            schedule = es;
            issued = rs;
          },
        )
  unfolding wait_for_resume wait_loop resume_signal
  wait_for_resume-resumes v vs es w rs =
      collect_resumes vs es (record w { resume_values = v ∷ [] }) rs

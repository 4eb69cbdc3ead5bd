-- ===== src/Metrics/Laws.antt =====
-- What the summary of langgraph/temporal/metrics.py says of the calls that were recorded.
use mathlib.Core.Path.{subst}
use langgraph_temporal.Prelude.{
  ℕ, suc, ◌+◌, ◌≤◌, String, ◌==◌, ◌≡◌, refl, sym, ap, ◌∙◌, arith, Bool, true, false, none, some,
  Option, List, [], ◌∷◌, ◌++◌, append_assoc, append-nil, if◌then◌else◌, ltb, or_default, eq_iff,
}
use mathlib.Core.List.{Memᴰ}
use mathlib.Core.List.Memᴰ.{head, tail}
use langgraph_temporal.Prelude.Lists.{length}
use langgraph_temporal.Prelude.Dict
use langgraph_temporal.Prelude.Dict.{Dict}
use langgraph_temporal.Metrics.{
  Otel, Sinks, Reporting, setup_otel, new_reporter, record_node_execution, record_step_completion,
  record_interrupt, total, largest, smallest, NodeSummary, node_summary, node_summaries,
  get_summary,
}

-- The calls of the recording methods.
pub data Call : Type 0 where
  executed : String → ℕ → Bool → Call
  stepped : ℕ → ℕ → Call
  interrupted : String → String → Call

abbrev pub after : List Call → Reporting → Reporting
after [] r = r
after (executed node d success ∷ calls) r = after calls (record_node_execution node d success r)
after (stepped step channels ∷ calls) r = after calls (record_step_completion step channels r)
after (interrupted node kind ∷ calls) r = after calls (record_interrupt node kind r)

-- The durations of a node's executions, and the number of interrupts.
abbrev pub durations_of : String → List Call → List ℕ
durations_of node [] = []
durations_of node (executed n d b ∷ calls) =
    let rest = durations_of node calls in if n == node then d ∷ rest else rest
durations_of node (stepped step c ∷ calls) = durations_of node calls
durations_of node (interrupted n t ∷ calls) = durations_of node calls

abbrev pub interrupts_of : List Call → ℕ
interrupts_of [] = 0
interrupts_of (executed n d b ∷ calls) = interrupts_of calls
interrupts_of (stepped step c ∷ calls) = interrupts_of calls
interrupts_of (interrupted n t ∷ calls) = suc (interrupts_of calls)

get-node_summaries :
    (ds : Dict (List ℕ)) (node : String)
    → Dict.get (node_summaries ds) node
      ≡ elim (Dict.get ds node) [ none ↦ none | some l ↦ some (node_summary l) ]
unfolding node_summaries Dict.get
get-node_summaries [] node = refl
get-node_summaries ((n, l) ∷ ds) node = ground (arith, get-node_summaries ds node)

-- What is recorded for a node; no entry stands for no durations.
abbrev pub recorded : String → Reporting → List ℕ
recorded node r = or_default (Dict.get r.0.node_durations node) []

recorded-execution :
    (n node : String) (d : ℕ) (b : Bool) (r : Reporting)
    → recorded node (record_node_execution n d b r)
      ≡ (if n == node then recorded node r ++ (d ∷ []) else recorded node r)
unfolding record_node_execution
recorded-execution n node d b r =
    ground (arith, eq_iff n node, Dict.get-put r.0.node_durations n node (recorded n r ++ (d ∷ [])))

pub recorded-after :
    (calls : List Call) (node : String) (r : Reporting)
    → recorded node (after calls r) ≡ recorded node r ++ durations_of node calls
unfolding record_step_completion record_interrupt
recorded-after [] node r = sym (append-nil (recorded node r))
recorded-after (executed n d b ∷ calls) node r = ground (
  arith,
  recorded-after calls node (record_node_execution n d b r),
  recorded-execution n node d b r,
  append_assoc (recorded node r) (d ∷ []) (durations_of node calls),
)
recorded-after (stepped step c ∷ calls) node r =
    recorded-after calls node (record_step_completion step c r)
recorded-after (interrupted n t ∷ calls) node r = recorded-after calls node (record_interrupt n t r)

pub interrupts-after :
    (calls : List Call) (r : Reporting)
    → (after calls r).0.interrupt_count ≡ r.0.interrupt_count + interrupts_of calls
unfolding record_step_completion record_interrupt record_node_execution
interrupts-after [] r = omega arith
interrupts-after (executed n d b ∷ calls) r = interrupts-after calls (record_node_execution n d b r)
interrupts-after (stepped step c ∷ calls) r =
    interrupts-after calls (record_step_completion step c r)
interrupts-after (interrupted n t ∷ calls) r =
    omega (arith, interrupts-after calls (record_interrupt n t r))

largest-ge : (d : ℕ) (ds : List ℕ) → d ≤ largest d ds
unfolding largest
largest-ge d [] = omega arith
largest-ge d (e ∷ ds) = ground (arith, largest-ge d ds, largest-ge e ds)

largest-bound : (x d : ℕ) (ds : List ℕ) → Memᴰ x ds → x ≤ largest d ds
unfolding largest
largest-bound x d [] k = elim k [ ]
largest-bound x d (e ∷ ds) (head p) = ground (arith, largest-ge d ds, largest-ge e ds, p)
largest-bound x d (e ∷ ds) (tail h) = ground (arith, largest-bound x d ds h, largest-bound x e ds h)

one_of :
    {x y d e : ℕ} {ds : List ℕ} (b : Bool)
    → Memᴰ x (e ∷ ds)
    → Memᴰ y (d ∷ ds)
    → Memᴰ (if b then x else y) (d ∷ e ∷ ds)
one_of true h k = tail h
one_of false h (head p) = head p
one_of false h (tail k) = tail (tail k)

largest-mem : (d : ℕ) (ds : List ℕ) → Memᴰ (largest d ds) (d ∷ ds)
unfolding largest
largest-mem d [] = head refl
largest-mem d (e ∷ ds) = one_of (ltb d e) (largest-mem e ds) (largest-mem d ds)

smallest-le : (d : ℕ) (ds : List ℕ) → smallest d ds ≤ d
unfolding smallest
smallest-le d [] = omega arith
smallest-le d (e ∷ ds) = ground (arith, smallest-le d ds, smallest-le e ds)

smallest-bound : (x d : ℕ) (ds : List ℕ) → Memᴰ x ds → smallest d ds ≤ x
unfolding smallest
smallest-bound x d [] k = elim k [ ]
smallest-bound x d (e ∷ ds) (head p) = ground (arith, smallest-le d ds, smallest-le e ds, p)
smallest-bound x d (e ∷ ds) (tail h) =
    ground (arith, smallest-bound x d ds h, smallest-bound x e ds h)

smallest-mem : (d : ℕ) (ds : List ℕ) → Memᴰ (smallest d ds) (d ∷ ds)
unfolding smallest
smallest-mem d [] = head refl
smallest-mem d (e ∷ ds) = one_of (ltb e d) (smallest-mem e ds) (smallest-mem d ds)

-- A node's summary against its durations, one of which is x.
abbrev pub Describes : ℕ → List ℕ → NodeSummary → Type 0
Describes x ds s =
    (s.count ≡ length ds)
    × (s.avg_duration.num ≡ total ds)
    × (s.avg_duration.den ≡ length ds)
    × (s.min_duration ≤ x)
    × (x ≤ s.max_duration)
    × Memᴰ s.min_duration ds
    × Memᴰ s.max_duration ds

node_summary-Describes : (x : ℕ) (ds : List ℕ) → Memᴰ x ds → Describes x ds (node_summary ds)
unfolding node_summary total
node_summary-Describes x [] h = elim h [ ]
node_summary-Describes x (d ∷ ds) h = (
  refl,
  refl,
  refl,
  elim h [ head p ↦ grind (arith, smallest-le d ds, p) | tail k ↦ smallest-bound x d ds k ],
  elim h [ head p ↦ grind (arith, largest-ge d ds, p) | tail k ↦ largest-bound x d ds k ],
  smallest-mem d ds,
  largest-mem d ds,
)

found : (o : Option (List ℕ)) (x : ℕ) → Memᴰ x (or_default o []) → o ≡ some (or_default o [])
found none x h = elim h [ ]
found (some l) x h = refl

new-recorded :
    (otel : Otel) (id node : String) (on : Bool) (s : Sinks)
    → (recorded node (new_reporter otel id on s) ≡ [])
      × ((new_reporter otel id on s).0.interrupt_count ≡ 0)
unfolding new_reporter setup_otel Dict.get
new-recorded otel id node false s = (refl, refl)
new-recorded none id node true s = (refl, refl)
new-recorded (some meter) id node true s = (refl, refl)

-- After any calls of the recording methods on a new reporter, with OpenTelemetry or without it: a
-- node that was executed has a summary, which counts its executions and gives the mean of their
-- durations; its least and greatest durations are two of them, and bounds of each one (x). The
-- summary's number of interrupts is that of the calls.
pub get_summary-Describes :
    (otel : Otel) (id node : String) (on : Bool) (sinks : Sinks) (calls : List Call) (x : ℕ)
    → Memᴰ x (durations_of node calls)
    → let summary = get_summary (after calls (new_reporter otel id on sinks)).0 in
      (s : NodeSummary) × (Dict.get summary.nodes node ≡ some s)
      × Describes x (durations_of node calls) s
      × (summary.interrupt_count ≡ interrupts_of calls)
unfolding get_summary Dict.get
get_summary-Describes otel id node on sinks calls x h =
    let start = new_reporter otel id on sinks in
    let fresh = new-recorded otel id node on sinks in
    let r = after calls start in
    let same : recorded node r ≡ durations_of node calls =
      recorded-after calls node start ∙ ap (λ ds. ds ++ durations_of node calls) fresh.0 in
    let stored = found (Dict.get r.0.node_durations node) x (subst (Memᴰ x) (sym same) h) in
    (
      node_summary (durations_of node calls),
      ground (arith, get-node_summaries r.0.node_durations node, stored, same),
      node_summary-Describes x (durations_of node calls) h,
      omega (arith, interrupts-after calls start, fresh.1),
    )

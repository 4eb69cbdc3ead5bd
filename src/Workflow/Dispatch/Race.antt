-- ===== src/Workflow/Dispatch/Race.antt =====
-- Two activities of one superstep whose pinned worker is gone.
use langgraph_temporal.Prelude.{String, ◌≡◌, refl, ◌&&◌, true, none, List, [], ◌∷◌, ◌++◌, arith}
use langgraph_temporal.Prelude.Result.{Exn, activity_error}
use langgraph_temporal.Config.{NodeActivityInput, NodeActivityOutput, seconds}
use langgraph_temporal.Langgraph.{Langgraph}
use langgraph_temporal.Text.{truthy_text}
use langgraph_temporal.Coroutine.{
  Co, Reply, activity_failed, Request, run_discovery, parked, failed, advance, ◌>>=◌,
}
use langgraph_temporal.Workflow.{Workflow}
use langgraph_temporal.Workflow.Dispatch.{
  execute_single_activity, dispatch_activity, dispatch_reply, discovery_reply, rediscover_worker,
  first_result, second_result,
}
use langgraph_temporal.Workflow.Machine.{
  Event, complete, raised, join, join_loop, collect_all, start_all,
}

module _ {L : Langgraph} (w : Workflow L) (input : NodeActivityInput) (node m : String) where
  -- What waits for the discovery.
  abbrev discovering : Reply → Co (Workflow L) NodeActivityOutput
  discovering r = discovery_reply r >>= λ _. dispatch_activity input node >>= second_result node

  first_failure :
      (w.use_worker_affinity && truthy_text w.sticky_task_queue) ≡ true
      → advance (dispatch_reply (activity_failed m) >>= first_result input node) w
        ≡ (parked (run_discovery (seconds 10)) discovering, record w { sticky_task_queue = none })
  unfolding advance dispatch_reply first_result rediscover_worker ◌>>=◌
  first_failure h = ground arith

  later_failure :
      w.sticky_task_queue ≡ none
      → advance (dispatch_reply (activity_failed m) >>= first_result input node) w
        ≡ (failed (activity_error m), w)
  unfolding advance dispatch_reply ◌>>=◌
  later_failure h = ground arith

-- Two coroutines wait; the first goes on to wait again and the second fails.
module _ {L : Langgraph} {A : Type 0} where
  failure_next :
      (es : List Event) (q : Request) (k : Reply → Co (Workflow L) A) (w : Workflow L)
      (rs : List Request) (e : Exn)
      → (join_loop collect_all es (parked q k ∷ failed e ∷ []) w rs).0 ≡ raised e
  unfolding join_loop collect_all
  failure_next [] q k w rs e = refl
  failure_next (x ∷ es) q k w rs e = refl

  second_fails :
      (w : Workflow L) (q1 q2 q3 : Request) (k1 k2 k3 : Reply → Co (Workflow L) A)
      (w1 w2 : Workflow L) (r1 r2 : Reply) (es : List Event) (rs : List Request) (e : Exn)
      → advance (k1 r1) w ≡ (parked q3 k3, w1)
      → advance (k2 r2) w1 ≡ (failed e, w2)
      → (join_loop collect_all
          (complete 0 r1 ∷ complete 1 r2 ∷ es)
          (parked q1 k1 ∷ parked q2 k2 ∷ [])
          w
          rs).0
        ≡ raised e
  unfolding join_loop collect_all
  second_fails w q1 q2 q3 k1 k2 k3 w1 w2 r1 r2 es rs e h1 h2 =
      ground (arith, failure_next es q3 k3 w2 ((rs ++ (q3 ∷ [])) ++ []) e)

-- With worker affinity, if two activities run side by side and both calls on the sticky queue
-- fail before the new worker has been discovered, the second failure is raised: the queue is
-- unset while the discovery for the first runs, so the second gets no fallback.
pub parallel_failures_raise :
    {L : Langgraph} (w : Workflow L) (a b : NodeActivityInput) (na nb m1 m2 : String)
    (es : List Event) (rs : List Request)
    → (w.use_worker_affinity && truthy_text w.sticky_task_queue) ≡ true
    → let es' = complete 0 (activity_failed m1) ∷ complete 1 (activity_failed m2) ∷ es in
      (join collect_all
        (execute_single_activity a na ∷ execute_single_activity b nb ∷ [])
        (record { self = w; schedule = es'; issued = rs })).0
      ≡ raised (activity_error m2)
unfolding join start_all advance execute_single_activity ◌>>=◌
parallel_failures_raise {L} w a b na nb m1 m2 es rs h =
    second_fails w _ _ _ _ _ _ (record w { sticky_task_queue = none }) _ _ _ es _ _
      (first_failure w a na m1 h)
      (later_failure (record w { sticky_task_queue = none }) b nb m2 refl)

-- ===== src/Observability/Pipeline/Bounds.antt =====
-- The queue and the worker's batch stay within their bounds.
use nl2sqlcopy.Prelude.{
  ◌≤◌, ◌<◌, ◌≡◌, refl, inl, inr, Bool, Option, none, some, List, [], ◌∷◌, ◌++◌, arith, leb, length,
  length-append_one, Bool-cases, if◌then◌else◌,
}
use nl2sqlcopy.Observability.Pipeline.{
  Worker, no_worker, finished, running, Pipeline, is_full, start, publish, stop, join_worker,
  receive, time_out, Action, starts, stops, joins, receives, times_out, publishes, step, run,
}
use nl2sqlcopy.Observability.Pipeline.Order.{held}

module _ {E : Type 0} where
  -- Positive bounds, and a queue and a batch within them.
  abbrev pub IsWithin : Pipeline E → Type 0
  IsWithin p =
      (0 < p.queue_size)
      × (0 < p.batch_size)
      × (length p.queue ≤ p.queue_size)
      × (length (held p.worker) < p.batch_size)

  put-IsWithin :
      (p : Pipeline E) (item : Option E)
      → IsWithin p
      → length (if is_full p then p.queue else p.queue ++ item ∷ []) ≤ p.queue_size
  unfolding is_full
  put-IsWithin p item h = ground (arith, length-append_one p.queue item)

  publish-IsWithin : (event : E) (p : Pipeline E) → IsWithin p → IsWithin (publish event p)
  unfolding publish
  publish-IsWithin event p h = elim (Bool-cases (is_full p)) [
    | inl full ↦ rw full h
    | inr room ↦ rw room (h.0, h.1, (rw room at (put-IsWithin p (some event) h)), h.3)
  ]

  start-IsWithin : (p : Pipeline E) (w : Worker E) → p.worker ≡ w → IsWithin p → IsWithin (start p)
  unfolding start
  start-IsWithin p no_worker hw h = rw (hw, start) (h.0, h.1, h.2, h.1)
  start-IsWithin p finished hw h = rw (hw, start) (h.0, h.1, h.2, h.1)
  start-IsWithin p (running batch) hw h = rw (hw, start) h

  stop-IsWithin : (p : Pipeline E) (w : Worker E) → p.worker ≡ w → IsWithin p → IsWithin (stop p)
  unfolding stop
  stop-IsWithin p no_worker hw h = rw (hw, stop) h
  stop-IsWithin p finished hw h = rw (hw, stop) (h.0, h.1, put-IsWithin p none h, h.3)
  stop-IsWithin p (running batch) hw h = rw (hw, stop) (h.0, h.1, put-IsWithin p none h, h.3)

  join-IsWithin :
      (p : Pipeline E) (w : Worker E) → p.worker ≡ w → IsWithin p → IsWithin (join_worker p)
  unfolding join_worker
  join-IsWithin p no_worker hw h = rw (hw, join_worker) h
  join-IsWithin p finished hw h = rw (hw, join_worker) (h.0, h.1, h.2, h.1)
  join-IsWithin p (running batch) hw h = rw (hw, join_worker) h

  module _ (persists : E → Bool) where
    receive-IsWithin :
        (p : Pipeline E) (w : Worker E) (queue : List (Option E))
        → p.worker ≡ w
        → p.queue ≡ queue
        → IsWithin p
        → IsWithin (receive persists p)
    unfolding receive
    receive-IsWithin p no_worker queue hw hq h = rw (hw, receive) h
    receive-IsWithin p finished queue hw hq h = rw (hw, receive) h
    receive-IsWithin p (running batch) [] hw hq h = rw (hw, hq, receive) h
    receive-IsWithin p (running batch) (none ∷ queue) hw hq h =
        let fewer : length queue ≤ p.queue_size = omega (arith, (rw hq at h.2)) in
        rw (hw, hq, receive) (h.0, h.1, fewer, h.1)
    receive-IsWithin p (running batch) (some event ∷ queue) hw hq h =
        let fewer : length queue ≤ p.queue_size = omega (arith, (rw hq at h.2)) in
        elim (Bool-cases (leb p.batch_size (length (batch ++ event ∷ [])))) [
          | inl whole ↦ rw (hw, hq, receive) (rw whole (h.0, h.1, fewer, h.1))
          | inr part ↦ rw (hw, hq, receive) (rw part (h.0, h.1, fewer, ground arith))
        ]

    time_out-IsWithin :
        (p : Pipeline E) (w : Worker E) → p.worker ≡ w → IsWithin p → IsWithin (time_out persists p)
    unfolding time_out
    time_out-IsWithin p no_worker hw h = rw (hw, time_out) h
    time_out-IsWithin p finished hw h = rw (hw, time_out) h
    time_out-IsWithin p (running batch) hw h = rw (hw, time_out) (h.0, h.1, h.2, h.1)

    step-IsWithin :
        (action : Action E) (p : Pipeline E) → IsWithin p → IsWithin (step persists action p)
    unfolding step
    step-IsWithin starts p = start-IsWithin p p.worker refl
    step-IsWithin stops p = stop-IsWithin p p.worker refl
    step-IsWithin joins p = join-IsWithin p p.worker refl
    step-IsWithin receives p = receive-IsWithin p p.worker p.queue refl refl
    step-IsWithin times_out p = time_out-IsWithin p p.worker refl
    step-IsWithin (publishes event) p = publish-IsWithin event p

    -- From a pipeline whose queue is within its positive size, and whose batch is below its positive
    -- batch size, any actions lead to such a pipeline.
    pub run_bounded :
        (actions : List (Action E)) (p : Pipeline E)
        → IsWithin p
        → IsWithin (run persists actions p)
    unfolding run
    run_bounded [] p h = h
    run_bounded (action ∷ actions) p h =
        run_bounded actions (step persists action p) (step-IsWithin action p h)

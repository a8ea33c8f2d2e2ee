-- ===== src/Observability/Pipeline/Order.antt =====
-- No event that the queue accepts is lost, logged twice or logged out of order.
use mathlib.Core.List.{append_assoc, append-nil}
use nl2sqlcopy.Prelude.{
  ℕ, ◌≡◌, refl, sym, ap, ◌∙◌, inl, inr, Bool, true, false, Option, none, some, List, [], ◌∷◌, ◌++◌,
  leb, length, Bool-cases, if◌then◌else◌,
}
use nl2sqlcopy.Observability.Pipeline.{
  Worker, no_worker, finished, running, Pipeline, init, is_full, start, publish, stop, join_worker,
  receive, time_out, Action, starts, stops, joins, receives, times_out, publishes, step, run,
}

module _ {E : Type 0} where
  abbrev pub held : Worker E → List E
  held (running batch) = batch
  held _ = []

  -- The events of a queue.
  abbrev pub waiting : List (Option E) → List E
  waiting [] = []
  waiting (none ∷ queue) = waiting queue
  waiting (some event ∷ queue) = event ∷ waiting queue

  -- The events that the pipeline has been given and has not dropped, in its own order.
  abbrev pub contents : Pipeline E → List E
  contents p = p.logged ++ (held p.worker ++ waiting p.queue)

  waiting-append :
      (queue more : List (Option E)) → waiting (queue ++ more) ≡ waiting queue ++ waiting more
  waiting-append [] more = refl
  waiting-append (none ∷ queue) more = waiting-append queue more
  waiting-append (some event ∷ queue) more = ap (λ es. event ∷ es) (waiting-append queue more)

  -- What a step accepts: the event that it publishes, unless the queue is full.
  abbrev pub accepted_by : Action E → Pipeline E → List E
  accepted_by (publishes event) p = if is_full p then [] else event ∷ []
  accepted_by _ p = []

  contents-publish :
      (event : E) (p : Pipeline E)
      → contents (publish event p) ≡ contents p ++ (if is_full p then [] else event ∷ [])
  unfolding publish
  contents-publish event p = elim (Bool-cases (is_full p)) [
    | inl full ↦ rw full (sym (append-nil (contents p)))
    | inr room ↦ rw (room, waiting-append p.queue (some event ∷ [])) (simp append_assoc)
  ]

  contents-flush :
      (logged batch queued : List E) → (logged ++ batch) ++ queued ≡ logged ++ (batch ++ queued)
  contents-flush logged batch queued = simp append_assoc

  contents-receive :
      (persists : E → Bool) (p : Pipeline E) (w : Worker E) (queue : List (Option E))
      → p.worker ≡ w
      → p.queue ≡ queue
      → contents (receive persists p) ≡ contents p
  unfolding receive
  contents-receive persists p no_worker queue hw hq = rw (hw, receive) (rw hw refl)
  contents-receive persists p finished queue hw hq = rw (hw, receive) (rw hw refl)
  contents-receive persists p (running batch) [] hw hq = rw (hw, hq, receive) (rw (hw, hq) refl)
  contents-receive persists p (running batch) (none ∷ queue) hw hq =
      rw (hw, hq, receive) (simp append_assoc)
  contents-receive persists p (running batch) (some event ∷ queue) hw hq =
      elim (Bool-cases (leb p.batch_size (length (batch ++ event ∷ [])))) [
        | inl whole ↦ rw (hw, hq, receive) (rw whole (simp append_assoc))
        | inr part ↦ rw (hw, hq, receive) (rw part (simp append_assoc))
      ]

  contents-time_out :
      (persists : E → Bool) (p : Pipeline E) (w : Worker E)
      → p.worker ≡ w
      → contents (time_out persists p) ≡ contents p
  unfolding time_out
  contents-time_out persists p no_worker hw = rw (hw, time_out) (rw hw refl)
  contents-time_out persists p finished hw = rw (hw, time_out) (rw hw refl)
  contents-time_out persists p (running batch) hw = rw (hw, time_out) (simp append_assoc)

  contents-start : (p : Pipeline E) (w : Worker E) → p.worker ≡ w → contents (start p) ≡ contents p
  unfolding start
  contents-start p no_worker hw = rw (hw, start) refl
  contents-start p finished hw = rw (hw, start) refl
  contents-start p (running batch) hw = rw (hw, start) (rw hw refl)

  waiting-stop :
      (full : Bool) (queue : List (Option E))
      → waiting (if full then queue else queue ++ none ∷ []) ≡ waiting queue
  waiting-stop true queue = refl
  waiting-stop false queue = waiting-append queue (none ∷ []) ∙ append-nil (waiting queue)

  contents-stop : (p : Pipeline E) (w : Worker E) → p.worker ≡ w → contents (stop p) ≡ contents p
  unfolding stop
  contents-stop p no_worker hw = rw (hw, stop) (rw hw refl)
  contents-stop p finished hw = rw (hw, stop) (rw (waiting-stop (is_full p) p.queue, hw) refl)
  contents-stop p (running batch) hw =
      rw (hw, stop) (rw (waiting-stop (is_full p) p.queue, hw) refl)

  contents-join :
      (p : Pipeline E) (w : Worker E) → p.worker ≡ w → contents (join_worker p) ≡ contents p
  unfolding join_worker
  contents-join p no_worker hw = rw (hw, join_worker) (rw hw refl)
  contents-join p finished hw = rw (hw, join_worker) refl
  contents-join p (running batch) hw = rw (hw, join_worker) (rw hw refl)

module _ {E : Type 0} (persists : E → Bool) where
  contents-step :
      (action : Action E) (p : Pipeline E)
      → contents (step persists action p) ≡ contents p ++ accepted_by action p
  unfolding step
  contents-step starts p = contents-start p p.worker refl ∙ sym (append-nil (contents p))
  contents-step stops p = contents-stop p p.worker refl ∙ sym (append-nil (contents p))
  contents-step joins p = contents-join p p.worker refl ∙ sym (append-nil (contents p))
  contents-step receives p =
      contents-receive persists p p.worker p.queue refl refl ∙ sym (append-nil (contents p))
  contents-step times_out p =
      contents-time_out persists p p.worker refl ∙ sym (append-nil (contents p))
  contents-step (publishes event) p = contents-publish event p

  -- The events that the actions publish, less those that find the queue full.
  abbrev pub accepted : List (Action E) → Pipeline E → List E
  accepted [] p = []
  accepted (action ∷ actions) p = accepted_by action p ++ accepted actions (step persists action p)

  contents-run :
      (actions : List (Action E)) (p : Pipeline E)
      → contents (run persists actions p) ≡ contents p ++ accepted actions p
  unfolding run
  contents-run [] p = sym (append-nil (contents p))
  contents-run (action ∷ actions) p =
      contents-run actions (step persists action p)
      ∙ rw (contents-step action p) (simp append_assoc)

  -- Whatever the callers and the worker do, and in whatever order: the events that were logged, then
  -- those of the worker's batch, then those in the queue are exactly the published events that the
  -- queue accepted, in their order. None is lost, logged twice or overtaken.
  pub logged_in_order :
      (queue_size batch_size : ℕ) (has_pool : Bool) (actions : List (Action E))
      → let start_state = init {E = E} queue_size batch_size has_pool in
        let p = run persists actions start_state in
        p.logged ++ (held p.worker ++ waiting p.queue) ≡ accepted actions start_state
  unfolding init
  logged_in_order queue_size batch_size has_pool actions =
      contents-run actions (init queue_size batch_size has_pool)

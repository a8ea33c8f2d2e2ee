-- ===== src/Observability/Pipeline.antt =====
-- `AsyncObservabilityPipeline` of nl2sql_service/observability/logger.py: a bounded queue of events
-- and a worker that takes them off in batches. Each action is one step of the worker or of a
-- caller; the flush of a batch is one step, since nothing else takes events off the queue. An
-- event's metrics and log line are its entry in `logged`. The warning on a dropped event is left
-- out.
pub mod Order
pub mod Drain
pub mod Bounds
use nl2sqlcopy.Prelude.{
  ℕ, Bool, true, false, not, ◌&&◌, Option, none, some, List, [], ◌∷◌, ◌++◌, ltb, leb, filter,
  length, if◌then◌else◌,
}

-- `_worker`: None, a task that holds a batch, or a task that is done.
pub data Worker (E : Type 0) : Type 0 where
  no_worker finished : Worker E
  running : List E → Worker E

pub record Pipeline (E : Type 0) : Type 0 where
  pub queue_size : ℕ
  pub batch_size : ℕ
  pub has_pool : Bool
  pub queue : List (Option E)
  pub worker : Worker E
  pub closing : Bool
  pub logged : List E
  pub stored : List E

module _ {E : Type 0} where
  unfoldable pub init : ℕ → ℕ → Bool → Pipeline E
  init queue_size batch_size has_pool = record {
    queue_size = queue_size;
    batch_size = batch_size;
    has_pool = has_pool;
    queue = [];
    worker = no_worker;
    closing = false;
    logged = [];
    stored = [];
  }

  -- `queue.full()`: a queue of size 0 is unbounded.
  unfoldable pub is_full : Pipeline E → Bool
  is_full p = ltb 0 p.queue_size && leb p.queue_size (length p.queue)

  unfoldable pub start : Pipeline E → Pipeline E
  start p = elim p.worker [
    | no_worker ↦ record p { closing = false; worker = running [] }
    | finished ↦ record p { closing = false; worker = running [] }
    | running batch ↦ p
  ]

  -- `publish`: an event is dropped when the queue is full.
  unfoldable pub publish : E → Pipeline E → Pipeline E
  unfolding is_full
  publish event p = if is_full p then p else record p { queue = p.queue ++ some event ∷ [] }

  -- The put of `stop`, which waits while the queue is full.
  unfoldable pub stop : Pipeline E → Pipeline E
  unfolding is_full
  stop p = elim p.worker [
    | no_worker ↦ p
    | finished ↦ record p {
      closing = true;
      queue = if is_full p then p.queue else p.queue ++ none ∷ [];
    }
    | running batch ↦ record p {
      closing = true;
      queue = if is_full p then p.queue else p.queue ++ none ∷ [];
    }
  ]

  -- The end of `stop`, once the worker is done.
  unfoldable pub join_worker : Pipeline E → Pipeline E
  join_worker p = elim p.worker [
    | finished ↦ record p { worker = no_worker }
    | no_worker ↦ p
    | running batch ↦ p
  ]

  module _ (persists : E → Bool) where
    -- `_flush`: with a pool each event is stored, unless that raises.
    unfoldable pub flush : List E → Pipeline E → Pipeline E
    flush batch p = record p {
      logged = p.logged ++ batch;
      stored = if p.has_pool then p.stored ++ filter persists batch else p.stored;
    }

    -- One turn of `_run` that gets an item from the queue.
    unfoldable pub receive : Pipeline E → Pipeline E
    unfolding flush
    receive p = elim p.worker [
      | no_worker ↦ p
      | finished ↦ p
      | running batch ↦ elim p.queue [
        | [] ↦ p
        | none ∷ queue ↦ record (flush batch p) { queue = queue; worker = finished }
        | some event ∷ queue ↦
            let more = batch ++ event ∷ [] in
            if leb p.batch_size (length more)
            then record (flush more p) { queue = queue; worker = running [] }
            else record p { queue = queue; worker = running more }
      ]
    ]

    -- One turn of `_run` whose wait for an item times out.
    unfoldable pub time_out : Pipeline E → Pipeline E
    unfolding flush
    time_out p = elim p.worker [
      | no_worker ↦ p
      | finished ↦ p
      | running batch ↦ record (flush batch p) { worker = running [] }
    ]

pub data Action (E : Type 0) : Type 0 where
  starts stops joins receives times_out : Action E
  publishes : E → Action E

module _ {E : Type 0} (persists : E → Bool) where
  unfoldable pub step : Action E → Pipeline E → Pipeline E
  unfolding start stop join_worker receive time_out publish
  step starts p = start p
  step stops p = stop p
  step joins p = join_worker p
  step receives p = receive persists p
  step times_out p = time_out persists p
  step (publishes event) p = publish event p

  unfoldable pub run : List (Action E) → Pipeline E → Pipeline E
  unfolding step
  run [] p = p
  run (action ∷ actions) p = run actions (step action p)

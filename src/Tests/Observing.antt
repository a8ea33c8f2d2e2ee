-- ===== src/Tests/Observing.antt =====
-- The pipeline over a few actions and the identifiers of a request, and the theorems at them.
use nl2sqlcopy.Prelude.{ℕ, ◌≡◌, refl, Bool, true, none, some, List, [], ◌∷◌, ◌++◌, arith}
use nl2sqlcopy.Text.{codes, nonempty}
use nl2sqlcopy.Observability.Pipeline.{
  Pipeline, running, finished, init, Action, starts, publishes, receives, stops, run, step, start,
  publish, stop, receive, flush, is_full,
}
use nl2sqlcopy.Observability.Pipeline.Order.{held, waiting, accepted, logged_in_order}
use nl2sqlcopy.Observability.Pipeline.Drain.{turns, drains}
use nl2sqlcopy.Observability.Pipeline.Bounds.{IsWithin, run_bounded}
use nl2sqlcopy.Observability.Context.{build_request_context, build_request_context-identified}

abbrev persists : ℕ → Bool
persists event = true

abbrev actions : List (Action ℕ)
actions = starts ∷ publishes 1 ∷ publishes 2 ∷ receives ∷ publishes 3 ∷ stops ∷ receives ∷ []

logged_in_order_example :
    let p = run persists actions (init 2 2 true) in
    p.logged ++ (held p.worker ++ waiting p.queue) ≡ accepted persists actions (init 2 2 true)
logged_in_order_example = logged_in_order persists 2 2 true actions

accepted_run : accepted persists actions (init 2 2 true) ≡ 1 ∷ 2 ∷ 3 ∷ []
unfolding step start publish stop receive flush is_full init
accepted_run = refl

abbrev stopping : Pipeline ℕ
stopping = record {
  queue_size = 4;
  batch_size = 2;
  has_pool = true;
  queue = some 5 ∷ some 6 ∷ none ∷ some 7 ∷ [];
  worker = running (4 ∷ []);
  closing = true;
  logged = [];
  stored = [];
}

drains_example :
    let after = run persists (turns (5 ∷ 6 ∷ [])) stopping in
    (after.worker ≡ finished)
    × (after.queue ≡ some 7 ∷ [])
    × (after.logged ≡ stopping.logged ++ ((4 ∷ []) ++ 5 ∷ 6 ∷ []))
drains_example = drains persists (5 ∷ 6 ∷ []) stopping (4 ∷ []) (some 7 ∷ []) refl refl

stopping-IsWithin : IsWithin stopping
stopping-IsWithin = (omega arith, omega arith, omega arith, omega arith)

run_bounded_example : IsWithin (run persists actions stopping)
run_bounded_example = run_bounded persists actions stopping stopping-IsWithin

build_request_context-identified_example :
    let c =
      build_request_context
        ((codes "X-Request-Id", codes "r1") ∷ [])
        (codes "/ask")
        (codes "POST")
        []
        (codes "a1")
        (codes "b2") in
    (nonempty c.request_id ≡ true)
    × (nonempty c.trace_id ≡ true)
    × (nonempty c.correlation_id ≡ true)
    × (nonempty c.session_id ≡ true)
    × (nonempty c.workflow_id ≡ true)
build_request_context-identified_example =
    build_request_context-identified ((codes "X-Request-Id", codes "r1") ∷ []) (codes "/ask")
      (codes "POST") [] (codes "a1") (codes "b2") refl refl

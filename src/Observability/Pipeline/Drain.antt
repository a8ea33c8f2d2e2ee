-- ===== src/Observability/Pipeline/Drain.antt =====
-- The worker ends: once `stop` has put its mark in the queue, the worker takes what stands before
-- it, logs it all, and is done.
use mathlib.Core.List.{append_assoc, append-nil}
use nl2sqlcopy.Prelude.{
  ◌≡◌, refl, sym, ap, ◌∙◌, inl, inr, Bool, Option, none, some, List, [], ◌∷◌, ◌++◌, leb, length,
  Bool-cases,
}
use nl2sqlcopy.Observability.Pipeline.{finished, running, Pipeline, receive, Action, receives, run}

module _ {E : Type 0} where
  -- Events, the mark of `stop`, and what came after it.
  abbrev pub marked : List E → List (Option E) → List (Option E)
  marked [] rest = none ∷ rest
  marked (event ∷ events) rest = some event ∷ marked events rest

  -- As many turns of the worker as there are events, and one.
  abbrev pub turns : List E → List (Action E)
  turns [] = receives ∷ []
  turns (event ∷ events) = receives ∷ turns events

  module _ (persists : E → Bool) where
    receive_mark :
        (p : Pipeline E) (batch : List E) (rest : List (Option E))
        → p.worker ≡ running batch
        → p.queue ≡ none ∷ rest
        → ((receive persists p).worker ≡ finished)
          × ((receive persists p).queue ≡ rest)
          × ((receive persists p).logged ≡ p.logged ++ batch)
    unfolding receive
    receive_mark p batch rest hw hq =
        (rw (hw, hq, receive) refl, rw (hw, hq, receive) refl, rw (hw, hq, receive) refl)

    -- The worker keeps an event in its batch, or logs the batch with it.
    receive_event :
        (p : Pipeline E) (batch : List E) (event : E) (queue : List (Option E))
        → p.worker ≡ running batch
        → p.queue ≡ some event ∷ queue
        → (more : List E) × ((receive persists p).worker ≡ running more)
          × ((receive persists p).queue ≡ queue)
          × ((receive persists p).logged ++ more ≡ p.logged ++ (batch ++ event ∷ []))
    unfolding receive
    receive_event p batch event queue hw hq =
        elim (Bool-cases (leb p.batch_size (length (batch ++ event ∷ [])))) [
          | inl whole ↦ (
            [],
            rw (hw, hq, receive) (rw whole refl),
            rw (hw, hq, receive) (rw whole refl),
            rw (hw, hq, receive) (rw whole (append-nil _)),
          )
          | inr part ↦ (
            batch ++ event ∷ [],
            rw (hw, hq, receive) (rw part refl),
            rw (hw, hq, receive) (rw part refl),
            rw (hw, hq, receive) (rw part refl),
          )
        ]

    -- A worker that runs when `stop` has put its mark in the queue is done after as many turns as
    -- events stand before the mark, and one: it has then logged its batch and all of those events
    -- in order, and what was put in the queue after the mark is still there.
    pub drains :
        (events : List E) (p : Pipeline E) (batch : List E) (rest : List (Option E))
        → p.worker ≡ running batch
        → p.queue ≡ marked events rest
        → let after = run persists (turns events) p in
          (after.worker ≡ finished)
          × (after.queue ≡ rest)
          × (after.logged ≡ p.logged ++ (batch ++ events))
    unfolding run
    drains [] p batch rest hw hq =
        let (done, left, logged) = receive_mark p batch rest hw hq in
        (done, left, logged ∙ ap (λ es. p.logged ++ es) (sym (append-nil batch)))
    drains (event ∷ events) p batch rest hw hq =
        let (more, hw', hq', logged) = receive_event p batch event (marked events rest) hw hq in
        let (done, left, all_logged) = drains events (receive persists p) more rest hw' hq' in
        let same : (receive persists p).logged ++ (more ++ events)
            ≡ p.logged ++ (batch ++ event ∷ events) =
          sym (append_assoc (receive persists p).logged more events)
          ∙ ap (λ es. es ++ events) logged
          ∙ simp append_assoc in
        (done, left, all_logged ∙ same)

-- ===== src/Agent/Loop/Ends.antt =====
-- That a run ends.
use nl2sqlcopy.Prelude.{
  ℕ, suc, ◌+◌, ◌≡◌, ◌⊎◌, ◌∙◌, refl, ap, arith, Bool, true, not, ◌&&◌, Option, some, List, ◌==◌,
  Bool-cases, inl, inr,
}
use nl2sqlcopy.Floats.{Floats, fmax}
use nl2sqlcopy.Text.{Text}
use nl2sqlcopy.Agent.Actions.{
  ReActAction, SqlWarning, action_eq, is_transport_failure, validate_and_return,
}
use nl2sqlcopy.Agent.State.{Settings}
use nl2sqlcopy.Agent.Services.{Services}
use nl2sqlcopy.Agent.Execute.{Arrival, execute_action}
use nl2sqlcopy.Agent.Execute.Schema.{schema_for_tables}
use nl2sqlcopy.Agent.Execute.Validated.{blocks}
use nl2sqlcopy.Agent.Loop.{run_loop, run, bootstrap, initial_state, resume, deadline_of}
use nl2sqlcopy.Agent.Loop.Choice.{
  Loop, Choice, chosen, unanswered, begin_iteration, guarded, focus, remaining_budget,
}
use nl2sqlcopy.Agent.Loop.Answers.{Response, stops}
use nl2sqlcopy.Agent.Loop.Turn.{
  Next, returns, continues, after_action, settle, carry_out, follow, iterate, goes_on, is_late,
  turn,
}
use nl2sqlcopy.Agent.Loop.Outcome.{outcome-Keeps}
use nl2sqlcopy.Agent.Loop.Steps.{focus-Keeps}

suc_add : (k more : ℕ) → suc k + more ≡ suc (k + more)
suc_add k more = omega arith

module _ (f : Floats) where
  pub Next-cases :
      (next : Next f)
      → ((r : Response) × (next ≡ returns r)) ⊎ ((l : Loop f) × (next ≡ continues l))
  Next-cases (returns r) = inl (r, refl)
  Next-cases (continues l) = inr (l, refl)

  -- What goes on is the next iteration, with the same deadline.
  Follows : Loop f → Next f → Type 0
  Follows l (returns r) = Unit
  Follows l (continues l') =
      (l'.iteration ≡ l.iteration) × (l'.state.deadline_monotonic ≡ l.state.deadline_monotonic)

  module _ (sv : Services f) (settings : Settings f) (arrival : Arrival) (query : Text) where
    settle-Follows :
        (action : ReActAction) (input : Text) (warnings : List SqlWarning) (completed : ReActAction)
        (l l' : Loop f)
        → l'.iteration ≡ l.iteration
        → l'.state.deadline_monotonic ≡ l.state.deadline_monotonic
        → Follows l (settle f sv query action input warnings completed l')
    unfolding settle Follows
    settle-Follows action input warnings completed l l' same kept =
        elim (Bool-cases (is_transport_failure warnings)) [
          | inl broken ↦ rw broken tt
          | inr fine ↦ elim (Bool-cases (stops action)) [
            | inl stopped ↦ rw (fine, stopped) tt
            | inr goes ↦
                elim (Bool-cases (completed == validate_and_return && not (blocks warnings))) [
                  | inl done ↦ rw (fine, goes, done) tt
                  | inr other ↦ elim (Bool-cases (blocks warnings)) [
                    | inl bad ↦ rw (fine, goes, other, bad) (same, kept)
                    | inr good ↦ rw (fine, goes, other, good) (same, kept)
                  ]
                ]
          ]
        ]

    carry_out-Follows :
        (thought : Text) (action : ReActAction) (input : Text) (l : Loop f)
        → Follows l (carry_out f sv settings arrival query thought action input l)
    unfolding carry_out after_action
    carry_out-Follows thought action input l =
        let (a, i) = guarded f action input l.state in
        let (b, j, s) = focus f sv settings query a i l.state in
        let k = focus-Keeps f sv settings query a i l.state in
        let kept = outcome-Keeps f sv settings query arrival l.iteration b j s in
        settle-Follows b j _ _ l _ refl (kept.deadline ∙ k.deadline)

    follow-Follows :
        (l : Loop f) (choice : Choice f) → Follows l (follow f sv settings arrival query l choice)
    unfolding follow Follows
    follow-Follows l (unanswered warnings) = tt
    follow-Follows l (chosen thought action input) = carry_out-Follows thought action input l

    turn-Follows :
        (search_query : Text) (l : Loop f)
        → Follows (begin_iteration f settings l) (turn f sv settings arrival query search_query l)
    unfolding turn iterate Follows
    turn-Follows search_query l = elim (Bool-cases (goes_on f settings l)) [
      | inr over ↦ rw over tt
      | inl on ↦ elim (Bool-cases (is_late f sv l)) [
        | inl late ↦ rw (on, late) tt
        | inr timely ↦ rw (on, timely) (follow-Follows (begin_iteration f settings l) _)
      ]
    ]

    turn-late :
        (search_query : Text) (l : Loop f)
        → is_late f sv l ≡ true
        → (r : Response) × (turn f sv settings arrival query search_query l ≡ returns r)
    unfolding turn
    turn-late search_query l late = elim (Bool-cases (goes_on f settings l)) [
      | inr over ↦ rw over (_, refl)
      | inl on ↦ rw (on, late) (_, refl)
    ]

module _ (f : Floats) (world : ℕ → Services f) (settings : Settings f) where
  open f use {zero, sub, le}

  -- Whether a run that starts with the first services is late at the clock of the `n`-th.
  abbrev pub is_over : ℕ → Bool
  is_over n =
      le (fmax f zero (sub (deadline_of f settings (world 0).started) (world n).started)) zero

module _ (f : Floats) (world : ℕ → Services f) (settings : Settings f) (arrival : Arrival)
    (query search_query : Text) where
  abbrev head : ℕ → Loop f → Option Response
  head = run_loop f world settings arrival query search_query

  -- What goes on is the next iteration.
  onwards :
      (l l' : Loop f)
      → turn f (world (l.iteration + 1)) settings arrival query search_query l ≡ continues l'
      → (l'.iteration ≡ l.iteration + 1)
        × (l'.state.deadline_monotonic ≡ l.state.deadline_monotonic)
  unfolding Follows begin_iteration
  onwards l l' e =
      rw e at (turn-Follows f (world (l.iteration + 1)) settings arrival query search_query l)

  late_at :
      (n : ℕ) (l : Loop f)
      → l.state.deadline_monotonic ≡ deadline_of f settings (world 0).started
      → is_over f world settings n ≡ true
      → is_late f (world n) l ≡ true
  unfolding remaining_budget
  late_at n l kept over = rw kept over

  -- Enough fuel, and any more of it, brings one and the same response.
  run_loop-ends :
      (k more n : ℕ) (l : Loop f)
      → l.iteration + k ≡ n
      → l.state.deadline_monotonic ≡ deadline_of f settings (world 0).started
      → is_over f world settings (n + 1) ≡ true
      → (r : Response) × (run_loop f world settings arrival query search_query (suc k) l ≡ some r)
        × (run_loop f world settings arrival query search_query (suc (k + more)) l ≡ some r)
  unfolding run_loop remaining_budget
  run_loop-ends ℕ.zero more n l at_end kept over =
      let now : l.iteration ≡ n = omega (arith, at_end) in
      let late : is_late f (world (l.iteration + 1)) l ≡ true =
        late_at (l.iteration + 1) l kept (rw now over) in
      let (r, e) =
        turn-late f (world (l.iteration + 1)) settings arrival query search_query l late in
      (r, ap (resume f (head 0)) e, ap (resume f (head (0 + more))) e)
  run_loop-ends (suc k) more n l at_end kept over =
      elim (Next-cases f (turn f (world (l.iteration + 1)) settings arrival query search_query l)) [
        | inl (r, e) ↦ (r, ap (resume f (head (suc k))) e, ap (resume f (head (suc k + more))) e)
        | inr (l', e) ↦
            (let onward = onwards l l' e in
              let (r, few, many) =
                run_loop-ends k more n l' (omega (arith, onward.0, at_end)) (onward.1 ∙ kept)
                  over in
              (
                r,
                ap (resume f (head (suc k))) e ∙ few,
                ap (resume f (head (suc k + more))) e
                    ∙ (ap (λ m. head m l') (suc_add k more) ∙ many),
              ))
      ]

module _ (f : Floats) (world : ℕ → Services f) (settings : Settings f) (arrival : Arrival)
    (rewrite_search_query : Text → Text) (query : Text) (top_k : Option ℕ) where
  -- A run whose time is spent when the iteration after the `n`-th would start responds within `n + 1`
  -- passes of its loop, and with more fuel it responds the same.
  pub run-ends :
      (n more : ℕ)
      → is_over f world settings (n + 1) ≡ true
      → (r : Response) × (run f world settings arrival rewrite_search_query query top_k (suc n)
          ≡ some r)
        × (run f world settings arrival rewrite_search_query query top_k (suc (n + more)) ≡ some r)
  unfolding run bootstrap initial_state execute_action schema_for_tables
  run-ends n more over =
      run_loop-ends f world settings arrival query (rewrite_search_query query) n more n
        (bootstrap f (world 0) settings top_k query (rewrite_search_query query)) (omega arith) refl
        over

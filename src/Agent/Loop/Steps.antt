-- ===== src/Agent/Loop/Steps.antt =====
-- Every pass of the loop of `run` meets the contract or keeps the invariant.
use nl2sqlcopy.Prelude.{
  ℕ, ◌+◌, ◌≤◌, ◌<◌, ◌≡◌, refl, ap, arith, Bool, true, false, Option, none, some, List, [], ◌==◌,
  Bool-cases, inl, inr, if◌then◌else◌,
}
use nl2sqlcopy.Floats.{Floats}
use nl2sqlcopy.Text.{Text}
use nl2sqlcopy.Agent.Actions.{ReActAction, action_eq, generate_sql, retrieve_past_corrections}
use nl2sqlcopy.Agent.State.{State, Settings}
use nl2sqlcopy.Agent.Planner.{some_in, available_actions, state_driven_action}
use nl2sqlcopy.Agent.Services.{Services}
use nl2sqlcopy.Agent.Execute.{Arrival}
use nl2sqlcopy.Agent.Execute.Sql.{info_warnings}
use nl2sqlcopy.Agent.Execute.Kept.{Keeps}
use nl2sqlcopy.Agent.Loop.Choice.{
  Loop, Choice, chosen, unanswered, begin_iteration, choose, ask_model, reply_to, driven_or,
  confident_input, guarded, focus, is_crowded, focus_of,
}
use nl2sqlcopy.Agent.Loop.Turn.{carry_out, follow, iterate, give_up_with, goes_on, is_late, turn}
use nl2sqlcopy.Agent.Loop.Outcome.{outcome-Keeps}
use nl2sqlcopy.Agent.Loop.First.{choose-first, guarded-first, outcome-first}
use nl2sqlcopy.Agent.Loop.Contract.{
  Contract, Going, Meets, after_action-Meets, build_clarification-Contract, some_append,
}

module _ (f : Floats) (sv : Services f) (settings : Settings f) (query : Text) where
  pub focus-Keeps :
      (action : ReActAction) (input : Text) (s : State f)
      → Keeps f 0 s (focus f sv settings query action input s).2
  unfolding focus
  focus-Keeps action input s = elim (Bool-cases (action == generate_sql)) [
    | inr other ↦ rw other record { deadline = refl; checked = λ h. h; count = omega arith }
    | inl same ↦ elim (Bool-cases (is_crowded f settings (focus_of f sv settings query s) s)) [
      | inl full ↦ rw (same, full) record { deadline = refl; checked = λ h. h; count = omega arith }
      | inr fits ↦ rw (same, fits) record { deadline = refl; checked = λ h. h; count = omega arith }
    ]
  ]

  -- A choice, or a warning.
  abbrev pub Answered : Choice f → Type 0
  Answered (chosen thought action input) = Unit
  Answered (unanswered warnings) = some_in warnings ≡ true

  driven_or-Answered :
      (driven : Option (ReActAction × Text)) (other : Choice f)
      → Answered other
      → Answered (driven_or f driven other)
  driven_or-Answered none other h = h
  driven_or-Answered (some (action, input)) other h = tt

  if-Answered :
      (test : Bool) (a b : Choice f) → Answered a → Answered b → Answered (if test then a else b)
  if-Answered true a b h k = h
  if-Answered false a b h k = k

  ask_model-Answered :
      (available : List ReActAction) (l : Loop f)
      → Answered (ask_model f sv settings query available l)
  unfolding ask_model
  ask_model-Answered available l =
      elim (Bool-cases (some_in (reply_to f sv settings query available l).2)) [
        | inl failed ↦ rw failed failed
        | inr fine ↦ rw fine tt
      ]

  pub choose-Answered :
      (search_query : Text) (l : Loop f) → Answered (choose f sv settings query search_query l)
  unfolding choose
  choose-Answered search_query l =
      let available = available_actions f l.state l.iteration settings in
      driven_or-Answered (state_driven_action f l.state available search_query) _ (
        if-Answered _ (chosen [] generate_sql confident_input) _ tt
          (ask_model-Answered available l))

module _ (f : Floats) (world : ℕ → Services f) (settings : Settings f) (arrival : Arrival)
    (query search_query : Text)
    (serious : (n : ℕ) (sql : Text) → info_warnings ((world n).validate_sql_safety sql) ≡ []) where
  -- After corrections are checked.
  carry_out-checked :
      (n : ℕ) (thought : Text) (action : ReActAction) (input : Text) (l : Loop f)
      → l.state.past_corrections_checked ≡ true
      → l.state.sql_generation_count ≤ l.planner_iterations
      → l.planner_iterations < settings.react_max_iterations
      → Meets f world settings arrival query search_query
          (carry_out f (world n) settings arrival query thought action input l)
  unfolding carry_out
  carry_out-checked n thought action input l checked counted room =
      let (a, i) = guarded f action input l.state in
      let (b, j, s) = focus f (world n) settings query a i l.state in
      let k = focus-Keeps f (world n) settings query a i l.state in
      let kept = outcome-Keeps f (world n) settings query arrival l.iteration b j s in
      after_action-Meets f world settings arrival query search_query n thought b j s l (serious n)
        (omega (arith, k.count, counted)) (ground (arith, room)) (kept.checked (k.checked checked))

  -- The first iteration, where they are not.
  carry_out-first :
      (n : ℕ) (l : Loop f)
      → l.iteration ≡ 1
      → l.state.actions_taken ≡ []
      → l.state.past_corrections_checked ≡ false
      → l.state.sql_generation_count ≤ l.planner_iterations
      → l.planner_iterations ≤ settings.react_max_iterations
      → Meets f world settings arrival query search_query
          (carry_out f (world n) settings arrival query [] retrieve_past_corrections search_query l)
  unfolding carry_out focus
  carry_out-first n l one untouched unchecked counted bounded =
      let s = record l.state { generation_tables_in_scope = [] } in
      let first = outcome-first f (world n) settings query arrival search_query s unchecked in
      simp (guarded-first f (world n) settings query search_query l.state untouched) (
        after_action-Meets f world settings arrival query search_query n []
          retrieve_past_corrections search_query s l (serious n) counted bounded (rw one first.0))

  follow-Meets :
      (n : ℕ) (l : Loop f) (choice : Choice f)
      → Answered f (world n) settings query choice
      → l.state.past_corrections_checked ≡ true
      → l.state.sql_generation_count ≤ l.planner_iterations
      → l.planner_iterations < settings.react_max_iterations
      → Meets f world settings arrival query search_query
          (follow f (world n) settings arrival query l choice)
  unfolding follow Meets Contract
  follow-Meets n l (unanswered warnings) answered checked counted room =
      some_append l.all_warnings warnings answered
  follow-Meets n l (chosen thought action input) answered checked counted room =
      carry_out-checked n thought action input l checked counted room

  iterate-Meets :
      (n : ℕ) (l : Loop f)
      → Going f world settings arrival query search_query l
      → goes_on f settings l ≡ true
      → Meets f world settings arrival query search_query
          (iterate f (world n) settings arrival query search_query (begin_iteration f settings l))
  unfolding iterate begin_iteration
  iterate-Meets n l going on = elim going.begun [
    | inl checked ↦
        follow-Meets n (begin_iteration f settings l) _
          (choose-Answered f (world n) settings query search_query (begin_iteration f settings l))
          checked going.counted (ground (arith, on, checked))
    | inr fresh ↦ rw (choose-first f (world n) settings query search_query l fresh) (
        carry_out-first n (begin_iteration f settings l) (ap (λ k. k + 1) fresh.none_yet)
          fresh.nothing_taken fresh.unchecked going.counted going.bounded)
  ]

  pub turn-Meets :
      (n : ℕ) (l : Loop f)
      → Going f world settings arrival query search_query l
      → Meets f world settings arrival query search_query
          (turn f (world n) settings arrival query search_query l)
  unfolding turn give_up_with Meets Contract
  turn-Meets n l going = elim (Bool-cases (goes_on f settings l)) [
    | inr over ↦
        rw over
          (build_clarification-Contract f world settings arrival query search_query (world n) _ _ _)
    | inl on ↦ elim (Bool-cases (is_late f (world n) l)) [
      | inl late ↦ rw (on, late) (some_append l.all_warnings _ refl)
      | inr timely ↦ rw (on, timely) (iterate-Meets n l going on)
    ]
  ]

-- ===== src/Agent/Loop/Contract.antt =====
-- What every response of `run` keeps to, by an invariant of its loop.
use nl2sqlcopy.Prelude.{
  ℕ, ◌+◌, ◌≤◌, ◌≡◌, ◌⊎◌, max, refl, arith, true, false, not, ◌&&◌, List, [], ◌∷◌, ◌++◌, ◌==◌,
  length, length-take-le, Bool-cases, inl, inr, ==→≡, if◌then◌else◌,
}
use nl2sqlcopy.Floats.{Floats}
use nl2sqlcopy.Text.{Text}
use nl2sqlcopy.Agent.Actions.{
  ReActAction, SqlWarning, action_eq, blocking_warnings, is_transport_failure, validate_and_return,
}
use nl2sqlcopy.Agent.State.{State, Settings}
use nl2sqlcopy.Agent.Planner.{some_in}
use nl2sqlcopy.Agent.Services.{Services}
use nl2sqlcopy.Agent.Execute.{Arrival}
use nl2sqlcopy.Agent.Execute.Sql.{info_warnings}
use nl2sqlcopy.Agent.Execute.Kept.{cost}
use nl2sqlcopy.Agent.Execute.Validated.{Validated, blocks}
use nl2sqlcopy.Agent.Clarify.{Trace, build_clarification}
use nl2sqlcopy.Agent.Loop.Choice.{Loop}
use nl2sqlcopy.Agent.Loop.Answers.{Response, success, rejected, clarification, stops, is_retrieval}
use nl2sqlcopy.Agent.Loop.Turn.{Next, returns, continues, after_action, settle, note_errors}
use nl2sqlcopy.Agent.Loop.Outcome.{outcome, outcome-Keeps, outcome-Validated}
use nl2sqlcopy.Agent.Loop.First.{Fresh}

pub some_append : {A : Type 0} (a b : List A) → some_in b ≡ true → some_in (a ++ b) ≡ true
some_append [] b h = h
some_append (x ∷ a) b h = refl

transport-some : (a : List SqlWarning) → is_transport_failure a ≡ true → some_in a ≡ true
unfolding is_transport_failure
transport-some [] h = h
transport-some (w ∷ a) h = refl

info-blocks : (a : List SqlWarning) → blocks (info_warnings a) ≡ false
unfolding info_warnings blocking_warnings
info-blocks [] = refl
info-blocks (w ∷ a) = ground (arith, info-blocks a)

-- An action that may add SQL is counted.
cost-counted :
    (action : ReActAction) (n : ℕ) → cost action + n ≤ (if is_retrieval action then n else n + 1)
cost-counted action n = ground arith

module _ (f : Floats) (world : ℕ → Services f) (settings : Settings f) (query : Text) where
  -- The contract of a response. Success brings SQL that passed every check of one iteration, and no
  -- warning that blocks; a rejection brings a warning; a clarification asks about the question with
  -- at most three suggestions.
  unfoldable pub Contract : Response → Type 0
  Contract (success r) =
      ((n : ℕ) × Validated f (world n) r.sql r.tables_used)
      × (blocks r.warnings ≡ false)
      × (1 ≤ r.attempt_count)
      × (r.attempt_count ≤ max 1 settings.react_max_iterations)
  Contract (rejected r) = some_in r.warnings ≡ true
  Contract (clarification c) = (length c.suggestions ≤ 3) × (c.original_query ≡ query)

module _ (f : Floats) (world : ℕ → Services f) (settings : Settings f) (arrival : Arrival)
    (query search_query : Text) where
  -- The counts during the loop; corrections are checked, or nothing happened yet.
  pub record Going (l : Loop f) : Type 0 where
    pub counted : l.state.sql_generation_count ≤ l.planner_iterations
    pub bounded : l.planner_iterations ≤ settings.react_max_iterations
    pub begun : (l.state.past_corrections_checked ≡ true) ⊎ Fresh f l

  -- A response that meets the contract, or a loop that goes on.
  unfoldable pub Meets : Next f → Type 0
  unfolding Contract
  Meets (returns r) = Contract f world settings query r
  Meets (continues l) = Going l

  pub build_clarification-Contract :
      (sv : Services f) (reason : Text) (trace : Trace) (tables : List Text)
      → Contract f world settings query
          (clarification (build_clarification f sv query reason trace tables))
  unfolding build_clarification Contract
  build_clarification-Contract sv reason trace tables = (length-take-le 3 _, refl)

  note_errors-Going :
      (warnings : List SqlWarning) (l : Loop f)
      → Going l
      → l.state.past_corrections_checked ≡ true
      → Going (note_errors f warnings l)
  note_errors-Going warnings l h checked = elim (Bool-cases (blocks warnings)) [
    | inr fine ↦ rw fine h
    | inl bad ↦ rw bad record { counted = h.counted; bounded = h.bounded; begun = inl checked }
  ]

  settle-Meets :
      (n : ℕ) (action : ReActAction) (input : Text) (warnings : List SqlWarning)
      (completed : ReActAction) (l : Loop f)
      → Going l
      → l.state.past_corrections_checked ≡ true
      → (completed ≡ validate_and_return
          → blocks warnings ≡ false
          → Validated f (world n) l.state.current_sql l.state.tables_used)
      → Meets (settle f (world n) query action input warnings completed l)
  unfolding settle Meets Contract
  settle-Meets n action input warnings completed l going checked valid =
      elim (Bool-cases (is_transport_failure warnings)) [
        | inl broken ↦
            rw broken (some_append l.all_warnings warnings (transport-some warnings broken))
        | inr fine ↦ elim (Bool-cases (stops action)) [
          | inl stopped ↦ rw (fine, stopped) (build_clarification-Contract (world n) _ _ _)
          | inr goes ↦
              elim (Bool-cases (completed == validate_and_return && not (blocks warnings))) [
                | inr other ↦ rw (fine, goes, other) (note_errors-Going warnings l going checked)
                | inl done ↦
                    rw (fine, goes, done)
                      (
                        (
                          n,
                          valid (==→≡ completed validate_and_return (ground arith)) (ground arith),
                        ),
                        info-blocks warnings,
                        omega arith,
                        omega (arith, going.counted, going.bounded),
                      )
              ]
        ]
      ]

  -- The variables after an action meet the invariant where those before did and the action may count.
  pub after_action-Meets :
      (n : ℕ) (thought : Text) (action : ReActAction) (input : Text) (s : State f) (l : Loop f)
      → ((sql : Text) → info_warnings ((world n).validate_sql_safety sql) ≡ [])
      → s.sql_generation_count ≤ l.planner_iterations
      → (if is_retrieval action then l.planner_iterations else l.planner_iterations + 1)
        ≤ settings.react_max_iterations
      → let o = outcome f (world n) settings query arrival l.iteration action input s in
        o.0.0.past_corrections_checked ≡ true
        → Meets (
            settle f
              (world n)
              query
              action
              input
              o.0.2
              o.1
              (after_action f thought action input o l))
  unfolding after_action
  after_action-Meets n thought action input s l serious counted bounded checked =
      let o = outcome f (world n) settings query arrival l.iteration action input s in
      let kept = outcome-Keeps f (world n) settings query arrival l.iteration action input s in
      settle-Meets n action input o.0.2 o.1 (after_action f thought action input o l)
        record {
          counted = omega (arith, kept.count, counted, cost-counted action l.planner_iterations);
          bounded = bounded;
          begun = inl checked;
        }
        checked
        (outcome-Validated f (world n) settings query arrival l.iteration action input s serious)

-- ===== src/Agent/Loop/Outcome.antt =====
-- What the action of an iteration leads to, with its validation.
use nl2sqlcopy.Prelude.{
  ℕ, ◌≡◌, arith, Bool, false, not, ◌&&◌, List, [], ◌++◌, ◌==◌, eqb, Bool-cases, inl, inr,
}
use nl2sqlcopy.Floats.{Floats}
use nl2sqlcopy.Text.{Text}
use nl2sqlcopy.Agent.Actions.{
  ReActAction, SqlWarning, action_eq, retrieve_past_corrections, generate_sql, validate_and_return,
}
use nl2sqlcopy.Agent.State.{State, Settings}
use nl2sqlcopy.Agent.Guard.{record_action}
use nl2sqlcopy.Agent.Services.{Services}
use nl2sqlcopy.Agent.Execute.{Arrival, execute_action}
use nl2sqlcopy.Agent.Execute.Sql.{info_warnings, validate_sql}
use nl2sqlcopy.Agent.Execute.Kept.{
  Keeps, Keeps-refl, Keeps-trans, cost, execute_action-Keeps, parallel_retrieval-Keeps,
}
use nl2sqlcopy.Agent.Execute.Validated.{Validated, blocks, blocks-append, validate_sql-Validated}
use nl2sqlcopy.Agent.Loop.Turn.{Outcome, act, auto_validate}

later_passes : (a b : List SqlWarning) → blocks (a ++ b) ≡ false → blocks b ≡ false
later_passes a b h = ground (arith, blocks-append a b)

module _ (f : Floats) (sv : Services f) (settings : Settings f) (query : Text) where
  -- Recording an action leaves the rest of the state.
  record_action-Keeps :
      (n : ℕ) (action : ReActAction) (input : Text) (s s' : State f)
      → Keeps f n s s'
      → Keeps f n s (record_action f action input s')
  unfolding record_action
  record_action-Keeps n action input s s' k = record {
    deadline = k.deadline;
    checked = k.checked;
    count = k.count;
  }

  weaken : (n : ℕ) (s s' : State f) → Keeps f 0 s s' → Keeps f n s s'
  weaken n s s' k = record {
    deadline = k.deadline;
    checked = k.checked;
    count = omega (arith, k.count);
  }

  abbrev together : ℕ → ReActAction → State f → Bool
  together n action s =
      eqb n 1 && (action == retrieve_past_corrections && not s.past_corrections_checked)

  act-Keeps :
      (arrival : Arrival) (n : ℕ) (action : ReActAction) (input : Text) (s : State f)
      → Keeps f (cost action) s (act f sv settings arrival query n action input s).0.0
  unfolding act
  act-Keeps arrival n action input s = elim (Bool-cases (together n action s)) [
    | inl both ↦ rw both (
        weaken (cost action) s _ (
          record_action-Keeps 0 _ _ s _ (
            record_action-Keeps 0 _ _ s _
              (parallel_retrieval-Keeps f sv settings arrival input query s).0)))
    | inr alone ↦ rw alone (
        record_action-Keeps (cost action) action input s _
          (execute_action-Keeps f sv settings action input query s))
  ]

  auto_validate-Keeps :
      (action : ReActAction) (o : Outcome f)
      → Keeps f 0 o.0.0 (auto_validate f sv settings query action o).0.0
  unfolding auto_validate
  auto_validate-Keeps action o = elim (Bool-cases (action == generate_sql && not (blocks o.0.2))) [
    | inl fresh ↦ rw fresh (execute_action-Keeps f sv settings validate_and_return _ query o.0.0)
    | inr other ↦ rw other (Keeps-refl f 0 o.0.0)
  ]

  abbrev pub outcome : Arrival → ℕ → ReActAction → Text → State f → Outcome f
  outcome arrival n action input s =
      auto_validate f sv settings query action (act f sv settings arrival query n action input s)

  pub outcome-Keeps :
      (arrival : Arrival) (n : ℕ) (action : ReActAction) (input : Text) (s : State f)
      → Keeps f (cost action) s (outcome arrival n action input s).0.0
  outcome-Keeps arrival n action input s =
      let o = act f sv settings arrival query n action input s in
      let k =
        Keeps-trans f (cost action) 0 s o.0.0 (auto_validate f sv settings query action o).0.0
          (act-Keeps arrival n action input s) (auto_validate-Keeps action o) in
      record { deadline = k.deadline; checked = k.checked; count = omega (arith, k.count) }

  act-Validated :
      (arrival : Arrival) (n : ℕ) (action : ReActAction) (input : Text) (s : State f)
      → ((sql : Text) → info_warnings (sv.validate_sql_safety sql) ≡ [])
      → let o = act f sv settings arrival query n action input s in
        o.1 ≡ validate_and_return
        → blocks o.0.2 ≡ false
        → Validated f sv o.0.0.current_sql o.0.0.tables_used
  unfolding act execute_action record_action
  act-Validated arrival n action input s serious done passed =
      elim (Bool-cases (together n action s)) [
        | inl both ↦ cc (rw both at done)
        | inr alone ↦
            (let same : action ≡ validate_and_return = rw alone at done in
              rw (alone, same) (validate_sql-Validated f sv s serious (rw (alone, same) at passed)))
      ]

  -- What counts as validated is SQL that every check passed.
  pub outcome-Validated :
      (arrival : Arrival) (n : ℕ) (action : ReActAction) (input : Text) (s : State f)
      → ((sql : Text) → info_warnings (sv.validate_sql_safety sql) ≡ [])
      → let o = outcome arrival n action input s in
        o.1 ≡ validate_and_return
        → blocks o.0.2 ≡ false
        → Validated f sv o.0.0.current_sql o.0.0.tables_used
  unfolding auto_validate execute_action
  outcome-Validated arrival n action input s serious done passed =
      let o = act f sv settings arrival query n action input s in
      elim (Bool-cases (action == generate_sql && not (blocks o.0.2))) [
        | inl fresh ↦
            (let both = later_passes o.0.2 (validate_sql f sv o.0.0).2 (rw fresh at passed) in
              rw fresh (validate_sql-Validated f sv o.0.0 serious both))
        | inr other ↦
            rw other (
              act-Validated arrival n action input s serious (rw other at done)
                (rw other at passed))
      ]

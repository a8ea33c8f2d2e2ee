-- ===== src/Agent/Loop/First.antt =====
-- The first iteration of a run whose question calls for past corrections.
use nl2sqlcopy.Prelude.{◌≡◌, refl, true, false, []}
use nl2sqlcopy.Floats.{Floats}
use nl2sqlcopy.Text.{Text, text_eq}
use nl2sqlcopy.Agent.Actions.{action_eq, retrieve_past_corrections, retrieve_schema_for_tables}
use nl2sqlcopy.Agent.State.{State, Settings}
use nl2sqlcopy.Agent.Planner.{available_actions, state_driven_action}
use nl2sqlcopy.Agent.Guard.{memory_guard, record_action}
use nl2sqlcopy.Agent.Services.{Services}
use nl2sqlcopy.Agent.Execute.{Arrival}
use nl2sqlcopy.Agent.Execute.Kept.{parallel_retrieval-Keeps}
use nl2sqlcopy.Agent.Loop.Choice.{Loop, chosen, begin_iteration, choose, guarded}
use nl2sqlcopy.Agent.Loop.Turn.{act, auto_validate}
use nl2sqlcopy.Agent.Loop.Outcome.{outcome}

module _ (f : Floats) where
  -- Before the first iteration: nothing was done, and the corrections are not checked.
  pub record Fresh (l : Loop f) : Type 0 where
    pub none_yet : l.iteration ≡ 0
    pub nothing_taken : l.state.actions_taken ≡ []
    pub unchecked : l.state.past_corrections_checked ≡ false

module _ (f : Floats) (sv : Services f) (settings : Settings f) (query : Text) where
  pub choose-first :
      (search_query : Text) (l : Loop f)
      → Fresh f l
      → choose f sv settings query search_query (begin_iteration f settings l)
        ≡ chosen [] retrieve_past_corrections search_query
  unfolding choose begin_iteration available_actions state_driven_action
  choose-first search_query l h = rw (h.none_yet, h.unchecked) refl

  pub guarded-first :
      (input : Text) (s : State f)
      → s.actions_taken ≡ []
      → guarded f retrieve_past_corrections input s ≡ (retrieve_past_corrections, input)
  unfolding guarded memory_guard
  guarded-first input s h = rw h refl

  -- Both retrievals are made: the corrections are checked, and nothing is to be warned of.
  pub outcome-first :
      (arrival : Arrival) (input : Text) (s : State f)
      → s.past_corrections_checked ≡ false
      → let o = outcome f sv settings query arrival 1 retrieve_past_corrections input s in
        (o.0.0.past_corrections_checked ≡ true) × (o.0.2 ≡ []) × (o.1 ≡ retrieve_schema_for_tables)
  unfolding act auto_validate record_action
  outcome-first arrival input s h =
      let k = parallel_retrieval-Keeps f sv settings arrival input query s in
      simp h (k.1, k.2, refl)

-- ===== src/Agent/Guard.antt =====
-- `apply_iteration_memory_guard` of nl2sql_service/agent/react_executor.py: no action is taken twice
-- on the same target, and no schema is retrieved again.
pub mod Laws
use nl2sqlcopy.Prelude.{
  Bool, true, false, not, ◌&&◌, ◌||◌, List, [], ◌∷◌, ◌++◌, map, Eq, ◌==◌, any, all, filter,
  if◌then◌else◌,
}
use nl2sqlcopy.Floats.{Floats}
use nl2sqlcopy.Text.{Text, codes, text_eq, text_beq, nonempty, strip}
use nl2sqlcopy.Agent.Actions.{ReActAction, generate_sql, request_clarification, value}
use nl2sqlcopy.Agent.Names.{parse_csv_items, member}
use nl2sqlcopy.Agent.State.{State, normalized_names}
use nl2sqlcopy.Agent.Planner.{action_target, is_schema_retrieval, some_in}

abbrev pub was_taken : Text → Text → List (Text × Text) → Bool
was_taken action target taken = any (λ x. x.0 == action && x.1 == target) taken

abbrev pub schema_reason : Text
schema_reason =
    codes
      "Duplicate schema retrieval blocked because the requested table set was already retrieved in this session."

abbrev pub duplicate_reason : Text
duplicate_reason = codes "Duplicate planner action blocked by the iteration memory guard."

module _ (f : Floats) where
  abbrev pub fallback : State f → ReActAction
  fallback s = if some_in s.tables_in_scope then generate_sql else request_clarification

  -- The requested tables were all retrieved before.
  unfoldable pub all_retrieved : Text → State f → Bool
  all_retrieved target s =
      let targets = filter nonempty (parse_csv_items target) in
      some_in targets && all (λ t. member t (normalized_names s.retrieved_tables)) targets

  -- `apply_iteration_memory_guard`
  unfoldable pub memory_guard : ReActAction → Text → State f → ReActAction × Text
  unfolding all_retrieved
  memory_guard action input s =
      let target = action_target f action input s in
      if is_schema_retrieval action && all_retrieved target s
      then (fallback s, schema_reason)
      else if was_taken (value action) target s.actions_taken
      then (fallback s, duplicate_reason)
      else (action, [])

  -- `state["actions_taken"].append((action.value, _action_target(...)))`
  unfoldable pub record_action : ReActAction → Text → State f → State f
  record_action action input s = record s {
    actions_taken = s.actions_taken ++ (value action, action_target f action input s) ∷ [];
  }

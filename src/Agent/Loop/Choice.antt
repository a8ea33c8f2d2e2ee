-- ===== src/Agent/Loop/Choice.antt =====
-- How an iteration of `run` of nl2sql_service/agent/react_executor.py comes to its action.
use nl2sqlcopy.Prelude.{
  ℕ, ◌+◌, max, Bool, not, ◌&&◌, Option, none, some, List, [], ◌∷◌, ◌==◌, ltb, length, take,
  if◌then◌else◌,
}
use nl2sqlcopy.Floats.{Floats, fmax}
use nl2sqlcopy.Text.{Text, codes, text_eq, nonempty, or_else, join}
use nl2sqlcopy.Agent.Actions.{
  ReActAction, SqlWarning, action_eq, generate_sql, validate_and_return, give_up,
  retrieve_schema_for_tables,
}
use nl2sqlcopy.Agent.State.{State, Settings, Step, normalized_names}
use nl2sqlcopy.Agent.Planner.{
  some_in, offers, available_actions, state_driven_action, recovery_action,
}
use nl2sqlcopy.Agent.Guard.{memory_guard}
use nl2sqlcopy.Agent.Confidence.{confidence_score}
use nl2sqlcopy.Agent.Focus.{focused_tables}
use nl2sqlcopy.Agent.Reasoning.{call_reasoning_model}
use nl2sqlcopy.Agent.Services.{Services, PlannerPrompt}
use nl2sqlcopy.Agent.Execute.Corrections.{search_query_or}
use nl2sqlcopy.Agent.Execute.Schema.{ensure_query_embedding}

abbrev pub confident_input : Text
confident_input = codes "Context confidence threshold reached; generate SQL with available context."

abbrev unavailable_input : Text
unavailable_input =
    codes
      "Planner selected an unavailable action; using the highest-priority available action instead."

abbrev regenerate_input : Text
regenerate_input = codes "Previous SQL failed validation; regenerate SQL to fix validation errors."

abbrev unparsed_input : Text
unparsed_input = codes "Could not parse action"

-- `available_actions[0]`; there always is one
abbrev first_available : List ReActAction → ReActAction
first_available [] = give_up
first_available (action ∷ actions) = action

module _ (f : Floats) where
  open f use {Float, zero, le, sub}

  -- The variables of `run` that its loop changes.
  pub record Loop : Type 0 where
    pub state : State f
    pub steps : List Step
    pub all_warnings : List SqlWarning
    pub current_error : Text
    pub last_completed_action : ReActAction
    pub planner_iterations : ℕ
    pub iteration : ℕ

  -- The thought, the action and its input, or the warnings of a model that did not answer.
  pub data Choice : Type 0 where
    chosen : Text → ReActAction → Text → Choice
    unanswered : List SqlWarning → Choice

  -- `_remaining_stage_budget_seconds`
  unfoldable pub remaining_budget : State f → Float → Float
  remaining_budget s now = fmax f zero (sub s.deadline_monotonic now)

  -- The next iteration, with the confidence in its context.
  unfoldable pub begin_iteration : Settings f → Loop → Loop
  begin_iteration settings l = record l {
    iteration = l.iteration + 1;
    state = record l.state {
      context_confidence_score =
          confidence_score f settings l.state (max 1 (l.planner_iterations + 1));
    };
  }

  -- What an answer of the model comes to: recovered where it cannot be parsed, and replaced where
  -- it is not on offer.
  unfoldable pub parsed_choice : Services f → State f → List ReActAction → Text → ReActAction × Text
  parsed_choice sv s available answer =
      let parsed = sv.parse_action answer in
      let (action, input) =
        if parsed.0 == give_up && parsed.1 == unparsed_input
        then elim (recovery_action f answer s) [ none ↦ parsed | some recovered ↦ recovered ]
        else parsed in
      if offers available action
      then (action, input)
      else (first_available available, or_else input unavailable_input)

  unfoldable pub planner_prompt : Text → List ReActAction → Loop → PlannerPrompt f
  planner_prompt query available l = record {
    query = query;
    context = l.state.context;
    tables_in_scope = l.state.tables_in_scope;
    allowed_columns = l.state.allowed_columns;
    history = l.steps;
    current_error = l.current_error;
    available_actions = available;
    context_confidence_score = l.state.context_confidence_score;
    learned_instructions = l.state.learned_instructions;
  }

  -- The model's thought, answer and warnings.
  abbrev pub reply_to :
      Services f → Settings f → Text → List ReActAction → Loop → Text × Text × List SqlWarning
  reply_to sv settings query available l =
      (call_reasoning_model f settings sv.provider_name
        (sv.generate (planner_prompt query available l)) (remaining_budget l.state sv.asked)
        sv.elapsed).0

  unfoldable pub ask_model : Services f → Settings f → Text → List ReActAction → Loop → Choice
  unfolding parsed_choice planner_prompt
  ask_model sv settings query available l =
      let (thought, answer, warnings) = reply_to sv settings query available l in
      let (action, input) = parsed_choice sv l.state available answer in
      if some_in warnings then unanswered warnings else chosen thought action input

  -- The action that the state calls for, or another choice.
  abbrev pub driven_or : Option (ReActAction × Text) → Choice → Choice
  driven_or (some (action, input)) other = chosen [] action input
  driven_or none other = other

  -- The action that the state calls for, then SQL where the context is good enough, then the
  -- model's.
  unfoldable pub choose : Services f → Settings f → Text → Text → Loop → Choice
  unfolding ask_model
  choose sv settings query search_query l =
      let available = available_actions f l.state l.iteration settings in
      let asked = ask_model sv settings query available l in
      driven_or (state_driven_action f l.state available search_query) (
        if le settings.react_confidence_threshold l.state.context_confidence_score
          && some_in l.state.tables_in_scope
        then chosen [] generate_sql confident_input
        else asked)

  -- The memory guard, and new SQL in the place of SQL that failed already.
  unfoldable pub guarded : ReActAction → Text → State f → ReActAction × Text
  guarded action input s =
      let (allowed, reason) = memory_guard f action input s in
      let (action, input) : ReActAction × Text = (
        if nonempty reason then allowed else action,
        if nonempty reason then or_else input reason else input,
      ) in
      if action == validate_and_return && some_in s.last_validation_errors
      then (generate_sql, regenerate_input)
      else (action, input)

  -- The tables that SQL is generated from.
  unfoldable pub focus_of : Services f → Settings f → Text → State f → List Text
  unfolding ensure_query_embedding
  focus_of sv settings query s =
      let tables = normalized_names s.tables_in_scope in
      let limit = settings.sql_generation_max_tables in
      elim (ensure_query_embedding f sv (search_query_or f query s) s).query_embedding [
        | none ↦ take limit tables
        | some embedding ↦
            if some_in tables
            then (focused_tables f tables (sv.search_columns embedding) limit).0
            else tables
      ]

  -- More tables in scope than SQL is generated from, and no column of any.
  abbrev pub is_crowded : Settings f → List Text → State f → Bool
  is_crowded settings focused s =
      ltb settings.sql_generation_max_tables (length (normalized_names s.tables_in_scope))
      && (not (some_in s.columns_refreshed_tables) && some_in focused)

  -- The focus before SQL is generated: of too many tables, without a column, the schema is retrieved
  -- first.
  unfoldable pub focus :
      Services f → Settings f → Text → ReActAction → Text → State f → ReActAction × Text × State f
  unfolding focus_of ensure_query_embedding
  focus sv settings query action input s =
      let tables = focus_of sv settings query s in
      let s1 = ensure_query_embedding f sv (search_query_or f query s) s in
      let focused = record s1 { generation_tables_in_scope = tables } in
      if action == generate_sql
      then (if is_crowded settings tables s
          then (retrieve_schema_for_tables, join (codes ",") tables, focused)
          else (action, input, focused))
      else (action, input, record s { generation_tables_in_scope = [] })

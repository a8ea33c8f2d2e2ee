-- ===== src/Agent/Loop/Turn.antt =====
-- One pass of the loop of `run` of nl2sql_service/agent/react_executor.py: its condition, the action
-- and everything that follows from its result.
use nl2sqlcopy.Prelude.{
  some, ℕ, ◌+◌, max, Bool, not, ◌&&◌, ◌||◌, List, [], ◌∷◌, ◌++◌, map, ◌==◌, eqb, ltb, leb, length,
  if◌then◌else◌,
}
use nl2sqlcopy.Floats.{Floats}
use nl2sqlcopy.Text.{Text, codes, or_else, join, decimal}
use nl2sqlcopy.Agent.Actions.{
  ReActAction, SqlWarning, action_eq, request_timeout, max_retries_exceeded, code_value,
  blocking_warnings, is_transport_failure, retrieve_past_corrections, retrieve_schema_for_tables,
  generate_sql, validate_and_return, give_up,
}
use nl2sqlcopy.Agent.State.{State, Settings}
use nl2sqlcopy.Agent.Planner.{some_in}
use nl2sqlcopy.Agent.Guard.{record_action}
use nl2sqlcopy.Agent.Services.{Services}
use nl2sqlcopy.Agent.Execute.{Arrival, execute_action, parallel_retrieval}
use nl2sqlcopy.Agent.Execute.Sql.{Result, info_warnings}
use nl2sqlcopy.Agent.Clarify.{Trace, build_clarification}
use nl2sqlcopy.Agent.Loop.Answers.{
  Success, Response, success, rejected, clarification, stops, is_retrieval, last_stops,
}
use nl2sqlcopy.Agent.Loop.Choice.{
  Loop, Choice, chosen, unanswered, remaining_budget, begin_iteration, choose, guarded, focus,
}

abbrev could_not : Text
could_not = codes "Could not generate valid SQL"

module _ (f : Floats) where
  open f use {Float, zero, le}

  pub data Next : Type 0 where
    returns : Response → Next
    continues : Loop f → Next

  -- What an action led to, and the action that the trace calls completed.
  abbrev pub Outcome : Type 0
  Outcome = Result f × ReActAction

  -- The two retrievals of the first iteration at once, or the action alone; both are recorded.
  unfoldable pub act :
      Services f → Settings f → Arrival → Text → ℕ → ReActAction → Text → State f → Outcome
  act sv settings arrival query iteration action input s =
      let (s1, observation, warnings) = execute_action f sv settings action input query s in
      let (s2, both, more) = parallel_retrieval f sv settings arrival input query s in
      if eqb iteration 1 && (action == retrieve_past_corrections && not s.past_corrections_checked)
      then (
        (
          record_action f retrieve_schema_for_tables []
              (record_action f retrieve_past_corrections input s2),
          both,
          more,
        ),
        retrieve_schema_for_tables,
      )
      else ((record_action f action input s1, observation, warnings), action)

  -- New SQL is validated in the same iteration.
  unfoldable pub auto_validate : Services f → Settings f → Text → ReActAction → Outcome → Outcome
  auto_validate sv settings query action ((s, observation, warnings), completed) =
      let (s1, verdict, more) =
        execute_action f sv settings validate_and_return
          (codes "Auto-validate SQL generated in this iteration.") query s in
      if action == generate_sql && not (some_in (blocking_warnings warnings))
      then (
        (s1, observation ++ (codes "\nAuto-validation: " ++ verdict), warnings ++ more),
        validate_and_return,
      )
      else ((s, observation, warnings), completed)

  -- The variables after the iteration: its step, and the count of what is no retrieval.
  unfoldable pub after_action : Text → ReActAction → Text → Outcome → Loop f → Loop f
  after_action thought action input ((s, observation, warnings), completed) l = record l {
    state = s;
    steps =
        l.steps
        ++ record {
          iteration = l.iteration;
          thought = thought;
          action = action;
          action_input = input;
          observation = observation;
        }
          ∷ [];
    last_completed_action = completed;
    planner_iterations =
        if is_retrieval action then l.planner_iterations else l.planner_iterations + 1;
  }

  -- The trace of an iteration, and that of the steps so far.
  abbrev trace_at : Loop f → ReActAction → Trace
  trace_at l action = record {
    steps = l.steps;
    total_iterations = l.iteration;
    final_action = action;
  }

  abbrev trace_so_far : Loop f → Trace
  trace_so_far l = record {
    steps = l.steps;
    total_iterations = length l.steps;
    final_action = if some_in l.steps then l.last_completed_action else give_up;
  }

  -- The warnings that block become the error that the next prompt names.
  abbrev pub note_errors : List SqlWarning → Loop f → Loop f
  note_errors warnings l =
      let blocking = blocking_warnings warnings in
      if some_in blocking
      then record l {
        current_error = join (codes "; ") (map (λ w. w.message) blocking);
        all_warnings = l.all_warnings ++ warnings;
      }
      else l

  abbrev pub success_of : List SqlWarning → Loop f → Success
  success_of warnings l = record {
    sql = l.state.current_sql;
    warnings = info_warnings warnings;
    tables_used = l.state.tables_used;
    matched_groups = l.state.matched_groups;
    attempt_count = max 1 l.state.sql_generation_count;
    react_trace = some (trace_at l validate_and_return);
  }

  -- How the iteration ends, over the variables after its action.
  unfoldable pub settle :
      Services f → Text → ReActAction → Text → List SqlWarning → ReActAction → Loop f → Next
  settle sv query action input warnings completed l =
      if is_transport_failure warnings
      then returns (
          rejected record {
            warnings = l.all_warnings ++ warnings;
            attempt_count = max 1 l.planner_iterations;
            react_trace = some (trace_at l completed);
          })
      else if stops action
      then returns (
          clarification (
            build_clarification f sv query (or_else input could_not) (trace_at l action)
              l.state.tables_in_scope))
      else if completed == validate_and_return && not (some_in (blocking_warnings warnings))
      then returns (success (success_of warnings l))
      else continues (note_errors warnings l)

  -- The action that was chosen, guarded and focused.
  unfoldable pub carry_out :
      Services f → Settings f → Arrival → Text → Text → ReActAction → Text → Loop f → Next
  carry_out sv settings arrival query thought action input l =
      let (action, input) = guarded f action input l.state in
      let (action, input, s) = focus f sv settings query action input l.state in
      let outcome =
        auto_validate sv settings query action
          (act sv settings arrival query l.iteration action input s) in
      settle sv query action input outcome.0.2 outcome.1
        (after_action thought action input outcome l)

  -- A model that does not answer ends the run.
  unfoldable pub follow : Services f → Settings f → Arrival → Text → Loop f → Choice f → Next
  follow sv settings arrival query l (unanswered warnings) = returns (
      rejected record {
        warnings = l.all_warnings ++ warnings;
        attempt_count = length l.steps;
        react_trace = some (trace_so_far l);
      })
  follow sv settings arrival query l (chosen thought action input) =
      carry_out sv settings arrival query thought action input l

  unfoldable pub iterate : Services f → Settings f → Arrival → Text → Text → Loop f → Next
  unfolding follow
  iterate sv settings arrival query search_query l =
      follow sv settings arrival query l (choose f sv settings query search_query l)

  abbrev timed_out : Settings f → SqlWarning
  timed_out settings = record {
    code = request_timeout;
    message =
        codes "SQL generation exceeded the service time budget of "
        ++ (decimal settings.sql_generation_timeout ++ codes "s.");
  }

  abbrev exhausted : ℕ → SqlWarning
  exhausted n = record {
    code = max_retries_exceeded;
    message =
        codes "ReAct loop exhausted after "
        ++ (decimal n ++ codes " planner iteration(s) without valid SQL.");
  }

  -- The end of `run` behind its loop.
  unfoldable pub give_up_with : Services f → Settings f → Text → Loop f → Response
  give_up_with sv settings query l =
      let warnings =
        if leb settings.react_max_iterations l.planner_iterations && not (last_stops l.steps)
        then l.all_warnings ++ exhausted l.planner_iterations ∷ []
        else l.all_warnings in
      let reason =
        if some_in warnings
        then join (codes "; ") (map (λ w. code_value w.code) warnings)
        else could_not in
      clarification (build_clarification f sv query reason (trace_so_far l) l.state.tables_in_scope)

  abbrev pub goes_on : Settings f → Loop f → Bool
  goes_on settings l =
      ltb l.planner_iterations settings.react_max_iterations || not l.state.past_corrections_checked

  -- Whether the budget of time is spent at the head of the loop.
  abbrev pub is_late : Services f → Loop f → Bool
  is_late sv l = le (remaining_budget f l.state sv.started) zero

  unfoldable pub turn : Services f → Settings f → Arrival → Text → Text → Loop f → Next
  turn sv settings arrival query search_query l =
      if not (goes_on settings l)
      then returns (give_up_with sv settings query l)
      else if is_late sv l
      then returns (
          rejected record {
            warnings = l.all_warnings ++ timed_out settings ∷ [];
            attempt_count = l.planner_iterations;
            react_trace = some (trace_so_far l);
          })
      else iterate sv settings arrival query search_query (begin_iteration f settings l)

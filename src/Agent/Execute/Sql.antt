-- ===== src/Agent/Execute/Sql.antt =====
-- The branches GENERATE_SQL and VALIDATE_AND_RETURN of `execute_action`.
use nl2sqlcopy.Prelude.{
  ◌+◌, Bool, true, false, not, ◌&&◌, some, List, [], ◌∷◌, ◌++◌, map, filter, length, ltb, take,
  if◌then◌else◌,
}
use nl2sqlcopy.Floats.{Floats}
use nl2sqlcopy.Text.{Text, codes, nonempty, join}
use nl2sqlcopy.Agent.Actions.{
  SqlWarning, WarningCode, sql_empty, mysql_explain_unavailable, blocking_warnings,
}
use nl2sqlcopy.Agent.State.{State}
use nl2sqlcopy.Agent.Planner.{some_in}
use nl2sqlcopy.Agent.Focus.{generation_tables, generation_allowed_columns}
use nl2sqlcopy.Agent.Reasoning.{text_or}
use nl2sqlcopy.Agent.Services.{Services, Prompt, sql_prompt, refinement_prompt}

abbrev pub is_unavailable : WarningCode → Bool
is_unavailable mysql_explain_unavailable = true
is_unavailable _ = false

-- `info_warnings`
unfoldable pub info_warnings : List SqlWarning → List SqlWarning
info_warnings = filter (λ w. is_unavailable w.code)

abbrev pub no_sql : SqlWarning
no_sql = record { code = sql_empty; message = codes "No SQL generated yet" }

module _ (f : Floats) where
  -- The state, the observation and the warnings.
  abbrev pub Result : Type 0
  Result = State f × Text × List SqlWarning

  -- A refinement where there is SQL with errors, and a first prompt otherwise.
  unfoldable pub generation_prompt : Text → Text → State f → Prompt
  generation_prompt input query s =
      let sql = text_or s.current_sql in
      if nonempty sql && some_in s.last_validation_errors
      then refinement_prompt query s.context (generation_tables f s) sql s.last_validation_errors
          s.sql_generation_count (generation_allowed_columns f s) input
      else sql_prompt query s.context (generation_tables f s) (generation_allowed_columns f s) input

  unfoldable pub store_sql : Text → State f → Result
  store_sql sql s = (
    record s {
      current_sql = some sql;
      sql_generation_count = s.sql_generation_count + 1;
      last_validation_errors = [];
    },
    if ltb 200 (length sql)
        then codes "Generated SQL: " ++ (take 200 sql ++ codes "...")
        else codes "Generated: " ++ sql,
    [],
  )

  unfoldable pub generate_sql_for : Services f → Text → Text → State f → Result
  unfolding generation_prompt store_sql
  generate_sql_for sv input query s =
      let (raw, warnings) = sv.call_ollama (generation_prompt input query s) in
      let sql =
        sv.narrow_select_star (sv.extract_sql (text_or raw)) (generation_allowed_columns f s)
          query in
      if some_in warnings then (s, codes "SQL generation failed", warnings) else store_sql sql s

  -- The warnings on safe SQL: the database explains it only where the static checks find nothing.
  unfoldable pub scope_warnings : Services f → Text → State f → List SqlWarning
  scope_warnings sv sql s =
      let checked =
        (sv.validate_tables_used sql (generation_tables f s)).1
        ++ sv.validate_columns_used sql (generation_allowed_columns f s) in
      if some_in (blocking_warnings checked) then checked else checked ++ sv.run_explain sql

  -- The end of the branch: what blocks is kept as errors.
  unfoldable pub judge : List SqlWarning → State f → Result
  unfolding info_warnings
  judge warnings s =
      let blocking = blocking_warnings warnings in
      if some_in blocking
      then (
        record s { last_validation_errors = blocking },
        codes "FAILED: " ++ join (codes "; ") (map (λ w. w.message) blocking),
        blocking,
      )
      else (
        record s { last_validation_errors = [] },
        codes "PASSED: SQL is valid and safe.",
        info_warnings warnings,
      )

  unfoldable pub validate_sql : Services f → State f → Result
  unfolding scope_warnings judge
  validate_sql sv s =
      let sql = text_or s.current_sql in
      let safety = sv.validate_sql_safety sql in
      let used = (sv.validate_tables_used sql (generation_tables f s)).0 in
      if not (nonempty sql)
      then (s, codes "No SQL to validate.", no_sql ∷ [])
      else if some_in safety
      then judge safety s
      else judge (scope_warnings sv sql s) (record s { tables_used = used })

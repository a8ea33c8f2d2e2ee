-- ===== src/Generation/Service/Template.antt =====
-- `_has_blocking_warnings`, the precheck of `generate_sql` for an obvious template, and
-- `_try_deterministic_generation` of nl2sql_service/generation/sql_generator.py.
use nl2sqlcopy.Prelude.{
  ℕ, Bool, true, false, Option, none, some, List, [], ◌∷◌, ◌++◌, map, any, take, if◌then◌else◌,
}
use nl2sqlcopy.Text.{Text, codes}
use nl2sqlcopy.Floats.{Floats}
use nl2sqlcopy.Agent.Actions.{SqlWarning, is_blocking}
use nl2sqlcopy.Agent.Execute.Sql.{info_warnings}
use nl2sqlcopy.Agent.Loop.Answers.{Success}
use nl2sqlcopy.Agent.Planner.{some_in}
use nl2sqlcopy.Generation.Filters.{build_deterministic_filter_clause}
use nl2sqlcopy.Generation.Review.{Columns}
use nl2sqlcopy.Generation.Safety.{Sqlparse, validate_sql_safety}
use nl2sqlcopy.Generation.Tables.{validate_tables_used}
use nl2sqlcopy.Generation.ColumnScope.{validate_columns_used}
use nl2sqlcopy.Generation.Deterministic.{build_deterministic_sql}
use nl2sqlcopy.Generation.Service.{Backends, Place, Retrieved}

-- `_has_blocking_warnings`
unfoldable pub has_blocking_warnings : List SqlWarning → Bool
has_blocking_warnings = any (λ w. is_blocking w.code)

-- The result of a template of one table.
abbrev pub template_success : Text → List Text → List Text → List SqlWarning → Success
template_success sql tables_used validated explain_warnings = record {
  sql = some sql;
  warnings = info_warnings explain_warnings;
  tables_used = validated;
  matched_groups = map (λ table. codes "deterministic_" ++ table) (take 1 tables_used);
  attempt_count = 0;
  react_trace = none;
}

-- The tables in use with the warnings on tables and columns: `none` where a check raises.
abbrev pub scope_of :
    Option (List Text × List SqlWarning)
    → Option (List SqlWarning)
    → Option (List Text × List SqlWarning)
scope_of none columns = none
scope_of (some tables) none = none
scope_of (some (validated, warnings)) (some more) = some (validated, warnings ++ more)

-- An exception counts as no result.
abbrev pub caught : Option (Option Success) → Option Success
caught none = none
caught (some result) = result

module _ (f : Floats) {D : Type 0} (sqlparse : Sqlparse) (backends : Backends f D) where
  -- A rewriting of the question, and the retrieval for it.
  unfoldable pub retrieve_at : Place → Text → ℕ → Option Retrieved
  retrieve_at place query top_k = elim (backends.rewrite_search_query place query) [
    | none ↦ none
    | some search_query ↦ backends.retrieve_groups place query top_k search_query
  ]

  -- SQL that EXPLAIN has no objection to.
  abbrev pub explained : Text → List Text → List Text → Option Success
  explained sql tables_used validated =
      if has_blocking_warnings (backends.run_explain sql)
      then none
      else some (template_success sql tables_used validated (backends.run_explain sql))

  unfoldable pub scope_checks : Text → List Text → Columns → Option (List Text × List SqlWarning)
  scope_checks sql tables_used columns =
      scope_of (validate_tables_used sqlparse sql tables_used)
        (validate_columns_used sqlparse sql columns)

  -- A check of SQL on `warnings` before: its result, `some none` where it fails, `none` where it
  -- raises.
  abbrev pub judged_template :
      Text
      → List Text
      → List SqlWarning
      → Option (List Text × List SqlWarning)
      → Option (Option Success)
  judged_template sql tables_used warnings none = none
  judged_template sql tables_used warnings (some (validated, more)) =
      if has_blocking_warnings (warnings ++ more)
      then some none
      else some (explained sql tables_used validated)

  abbrev pub checked_template : Columns → Option (Text × List Text) → Option (Option Success)
  checked_template columns none = some none
  checked_template columns (some (sql, tables_used)) =
      judged_template sql tables_used (validate_sql_safety sqlparse sql)
        (scope_checks sql tables_used columns)

  -- The same with the safety of SQL tested before anything else, so that no check of unsafe SQL
  -- raises.
  abbrev pub guarded_template : Columns → Option (Text × List Text) → Option (Option Success)
  guarded_template columns none = some none
  guarded_template columns (some (sql, tables_used)) =
      if some_in (validate_sql_safety sqlparse sql)
      then some none
      else judged_template sql tables_used [] (scope_checks sql tables_used columns)

  abbrev pub obvious_in : Text → ℕ → Option Columns → Option Success
  obvious_in query top_k none = none
  obvious_in query top_k (some columns) = caught (
      checked_template columns (
        build_deterministic_sql (build_deterministic_filter_clause backends.filter_rules) query
          columns top_k))

  -- The precheck: a template where a single table is in scope.
  abbrev pub obvious_for : Text → ℕ → List Text → Option Success
  obvious_for query top_k (table ∷ []) =
      obvious_in query top_k (backends.load_columns_for_tables Place.obvious (table ∷ []))
  obvious_for query top_k tables = none

  unfoldable pub obvious_result : Text → ℕ → Option Retrieved → Option Success
  unfolding scope_checks has_blocking_warnings
  obvious_result query top_k none = none
  obvious_result query top_k (some retrieved) = obvious_for query top_k retrieved.tables_in_scope

  abbrev pub deterministic_in : Text → ℕ → Option Columns → Option (Option Success)
  deterministic_in query top_k none = none
  deterministic_in query top_k (some columns) = guarded_template columns (
      build_deterministic_sql (build_deterministic_filter_clause backends.default_filter_rules)
        query columns top_k)

  abbrev pub deterministic_for : Text → ℕ → Option Retrieved → Option (Option Success)
  deterministic_for query top_k none = some none
  deterministic_for query top_k (some retrieved) =
      if some_in retrieved.tables_in_scope
      then deterministic_in query top_k
          (backends.load_columns_for_tables Place.deterministic retrieved.tables_in_scope)
      else some none

  -- `retrieved`, or a retrieval where there was none.
  abbrev pub retrieved_or : Place → Text → ℕ → Option Retrieved → Option Retrieved
  retrieved_or place query top_k none = retrieve_at place query top_k
  retrieved_or place query top_k (some retrieved) = some retrieved

  -- `_try_deterministic_generation`: the templates are filled by the rules of the default settings.
  unfoldable pub try_deterministic_generation :
      Text → ℕ → Bool → Option Retrieved → Option (Option Success)
  unfolding scope_checks has_blocking_warnings retrieve_at
  try_deterministic_generation query top_k false retrieved = some none
  try_deterministic_generation query top_k true retrieved =
      deterministic_for query top_k (retrieved_or Place.deterministic query top_k retrieved)

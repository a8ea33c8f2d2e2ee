-- ===== src/Agent/Execute.antt =====
-- `execute_action` of nl2sql_service/agent/react_executor.py, over its branches in the children, and
-- the two retrievals of the first iteration, which run at the same time.
pub mod Corrections
pub mod Schema
pub mod Joins
pub mod Sql
pub mod Kept
pub mod Validated
use nl2sqlcopy.Prelude.{List, [], ◌++◌}
use nl2sqlcopy.Floats.{Floats}
use nl2sqlcopy.Text.{Text, codes}
use nl2sqlcopy.Agent.Actions.{
  ReActAction, SqlWarning, retrieve_past_corrections, retrieve_schema_for_tables,
  retrieve_join_paths, retrieve_sample_queries, request_clarification, retrieve_more_context,
  fetch_schema, generate_sql, validate_and_return, ask_clarification, give_up,
}
use nl2sqlcopy.Agent.State.{State, Settings}
use nl2sqlcopy.Agent.Services.{Services}
use nl2sqlcopy.Agent.Execute.Corrections.{past_corrections}
use nl2sqlcopy.Agent.Execute.Schema.{schema_groups, schema_columns, schema_for_tables}
use nl2sqlcopy.Agent.Execute.Joins.{join_paths_between, sample_queries_for}
use nl2sqlcopy.Agent.Execute.Sql.{Result, generate_sql_for, validate_sql}

-- Where the corrections arrive while the schema is retrieved: before its groups, between the groups
-- and the columns, or last.
pub data Arrival : Type 0 where
  before_groups before_columns last : Arrival

module _ (f : Floats) where
  abbrev unwarned : State f × Text → Result f
  unwarned result = (result.0, result.1, [])

  unfoldable pub execute_action :
      Services f → Settings f → ReActAction → Text → Text → State f → Result f
  execute_action sv settings retrieve_past_corrections input query s =
      unwarned (past_corrections f sv input query s)
  execute_action sv settings retrieve_schema_for_tables input query s =
      unwarned (schema_for_tables f sv settings input query s)
  execute_action sv settings retrieve_more_context input query s =
      unwarned (schema_for_tables f sv settings input query s)
  execute_action sv settings fetch_schema input query s =
      unwarned (schema_for_tables f sv settings input query s)
  execute_action sv settings retrieve_join_paths input query s =
      unwarned (join_paths_between f sv input query s)
  execute_action sv settings retrieve_sample_queries input query s =
      unwarned (sample_queries_for f sv input query s)
  execute_action sv settings generate_sql input query s = generate_sql_for f sv input query s
  execute_action sv settings validate_and_return input query s = validate_sql f sv s
  execute_action sv settings request_clarification input query s =
      (s, codes "Agent requested clarification.", [])
  execute_action sv settings ask_clarification input query s =
      (s, codes "Agent requested clarification.", [])
  execute_action sv settings give_up input query s = (s, codes "Agent gave up: " ++ input, [])

  -- Both results, of the corrections and of the schema, after every write of both.
  unfoldable pub both_retrievals :
      Services f → Settings f → Arrival → Text → Text → State f → State f × Text × Text
  both_retrievals sv settings before_groups input query s =
      let (s1, past) = past_corrections f sv input query s in
      let (s2, schema) = schema_for_tables f sv settings [] query s1 in (s2, past, schema)
  both_retrievals sv settings before_columns input query s =
      let (s1, targets) = schema_groups f sv [] query s in
      let (s2, past) = past_corrections f sv input query s1 in
      let (s3, schema) = schema_columns f sv settings targets s2 in (s3, past, schema)
  both_retrievals sv settings last input query s =
      let (s1, schema) = schema_for_tables f sv settings [] query s in
      let (s2, past) = past_corrections f sv input query s1 in (s2, past, schema)

  -- `_execute_iteration_one_parallel_retrieval`
  unfoldable pub parallel_retrieval :
      Services f → Settings f → Arrival → Text → Text → State f → Result f
  unfolding both_retrievals
  parallel_retrieval sv settings arrival input query s =
      let (s', past, schema) = both_retrievals sv settings arrival input query s in
      (s', codes "Past corrections: " ++ (past ++ (codes "\nSchema retrieval: " ++ schema)), [])

-- ===== src/Agent/Loop/Answers.antt =====
-- The responses of `run` of nl2sql_service/agent/react_executor.py, and the kinds of actions that its
-- loop tells apart.
use nl2sqlcopy.Prelude.{ℕ, Bool, true, false, Option, List, [], ◌∷◌}
use nl2sqlcopy.Text.{Text}
use nl2sqlcopy.Agent.Actions.{
  ReActAction, SqlWarning, action_eq, retrieve_past_corrections, retrieve_schema_for_tables,
  retrieve_join_paths, retrieve_sample_queries, request_clarification, retrieve_more_context,
  fetch_schema, ask_clarification, give_up,
}
use nl2sqlcopy.Agent.State.{Step}
use nl2sqlcopy.Agent.Clarify.{Trace, Clarification}

-- `GenerateSqlSuccess`
pub record Success : Type 0 where
  pub sql : Option Text
  pub warnings : List SqlWarning
  pub tables_used : List Text
  pub matched_groups : List Text
  pub attempt_count : ℕ
  pub react_trace : Option Trace

-- `GenerateSqlRejected`
pub record Rejected : Type 0 where
  pub warnings : List SqlWarning
  pub attempt_count : ℕ
  pub react_trace : Option Trace

-- `GenerateSqlResponse`
pub data Response : Type 0 where
  success : Success → Response
  rejected : Rejected → Response
  clarification : Clarification → Response

-- Whether an action ends the run with a question.
abbrev pub stops : ReActAction → Bool
stops give_up = true
stops ask_clarification = true
stops request_clarification = true
stops _ = false

-- Whether an action is one of retrieval, which is not counted.
abbrev pub is_retrieval : ReActAction → Bool
is_retrieval retrieve_past_corrections = true
is_retrieval retrieve_schema_for_tables = true
is_retrieval retrieve_join_paths = true
is_retrieval retrieve_sample_queries = true
is_retrieval retrieve_more_context = true
is_retrieval fetch_schema = true
is_retrieval _ = false

abbrev pub last_stops : List Step → Bool
last_stops [] = false
last_stops (step ∷ []) = stops step.action
last_stops (step ∷ next ∷ steps) = last_stops (next ∷ steps)

-- ===== src/Agent/State.antt =====
-- The planner's state: the dict that `run` of nl2sql_service/agent/react_executor.py hands to every
-- step, with a field for each key, so that every key has its default. Sets are lists; the parts of the
-- confidence score, which only traces read, are left out.
use nl2sqlcopy.Prelude.{ℕ, Bool, Option, List, map, filter}
use nl2sqlcopy.Dict.{Dict}
use nl2sqlcopy.Floats.{Floats}
use nl2sqlcopy.Text.{Text, nonempty, strip}
use nl2sqlcopy.Agent.Actions.{ReActAction, SqlWarning}
use nl2sqlcopy.Agent.Names.{normalize_table_name}

pub record JoinPath : Type 0 where
  pub left_table : Text
  pub right_table : Text
  pub join_type : Text
  pub join_sql : Option Text

-- A verified correction of an earlier question, as the store returns it.
pub record Correction : Type 0 where
  pub source_query : Option Text
  pub content : Text
  pub tables_affected : List Text
  pub tables_involved : List Text
  pub failed_sql : Option Text

-- A pattern of earlier queries, as the store returns it: its question, and the rest of its entry.
pub record Pattern : Type 0 where
  pub query_text : Text
  pub details : Text

-- `ReActStep`, without the time that it took
pub record Step : Type 0 where
  pub iteration : ℕ
  pub thought : Text
  pub action : ReActAction
  pub action_input : Text
  pub observation : Text

module _ (f : Floats) where
  open f use {Float}

  pub record State : Type 0 where
    pub context : Text
    pub tables_in_scope : List Text
    pub matched_groups : List Text
    pub allowed_columns : Dict Text (List Text)
    pub current_sql : Option Text
    pub last_validation_errors : List SqlWarning
    pub sql_generation_count : ℕ
    pub tables_used : List Text
    pub top_k : ℕ
    pub search_query : Text
    pub actions_taken : List (Text × Text)
    pub retrieved_tables : List Text
    pub retrieved_schema : Dict Text (List Text)
    pub past_corrections : List Correction
    pub past_corrections_checked : Bool
    pub learned_instructions : List Text
    pub sample_queries : List Pattern
    pub join_paths : List JoinPath
    pub context_confidence_score : Float
    pub columns_refreshed_tables : List Text
    pub generation_tables_in_scope : List Text
    pub query_embedding : Option (List Float)
    pub focus_tables : List Text
    pub deadline_monotonic : Float

  -- The settings that the agent reads.
  pub record Settings : Type 0 where
    pub top_k : ℕ
    pub react_confidence_threshold : Float
    pub react_confidence_tables_weight : Float
    pub react_confidence_join_paths_weight : Float
    pub react_confidence_group_weight : Float
    pub react_confidence_example_weight : Float
    pub react_confidence_iteration_penalty : Float
    pub react_past_corrections_min_tokens : ℕ
    pub react_past_corrections_connector_terms : Text
    pub react_reasoning_max_tokens : ℕ
    pub react_top_k_floor : ℕ
    pub react_top_k_multiplier : ℕ
    pub react_max_iterations : ℕ
    pub sql_generation_max_tables : ℕ
    pub sql_generation_timeout : ℕ
    pub reasoning_timeout : Float

-- `[_normalize_table_name(table) for table in tables if str(table).strip()]`
unfoldable pub normalized_names : List Text → List Text
normalized_names tables = map normalize_table_name (filter (λ t. nonempty (strip t)) tables)

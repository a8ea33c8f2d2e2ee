-- ===== src/Agent/Services.antt =====
-- What nl2sql_service/agent/react_executor.py calls at one moment of a run, in the stores, the models,
-- the database and the module generation/sql_generator.py, as functions of what the agent hands them.
-- A prompt is what it is built from. The pools, the limits and the dialect that every call is given
-- alike are left out, and so is a call that raises where the agent lets the exception pass.
use nl2sqlcopy.Prelude.{ℕ, Bool, Option, List}
use nl2sqlcopy.Dict.{Dict}
use nl2sqlcopy.Floats.{Floats}
use nl2sqlcopy.Text.{Text}
use nl2sqlcopy.Agent.Actions.{ReActAction, SqlWarning}
use nl2sqlcopy.Agent.State.{Correction, Pattern, Step}
use nl2sqlcopy.Agent.Focus.{Hit}

-- A result of a search in the vector store, its metadata decoded.
pub record Found : Type 0 where
  pub content : Text
  pub metadata : Dict Text Text

-- What `retrieve_groups` returns.
pub record Groups : Type 0 where
  pub matched_groups : List Text
  pub tables_in_scope : List Text
  pub context : Text
  pub results : List Found

-- `build_sql_prompt` and `build_refinement_prompt`
pub data Prompt : Type 0 where
  sql_prompt : Text → Text → List Text → Dict Text (List Text) → Text → Prompt
  refinement_prompt :
      Text → Text → List Text → Text → List SqlWarning → ℕ → Dict Text (List Text) → Text → Prompt

-- The parts of an `LLMResponse` that the planner reads.
pub record Reply : Type 0 where
  pub text : Text
  pub thought : Option Text
  pub error_type : Option Text
  pub error_message : Option Text

module _ (f : Floats) where
  open f use {Float}

  -- `build_react_prompt`
  pub record PlannerPrompt : Type 0 where
    pub query : Text
    pub context : Text
    pub tables_in_scope : List Text
    pub allowed_columns : Dict Text (List Text)
    pub history : List Step
    pub current_error : Text
    pub available_actions : List ReActAction
    pub context_confidence_score : Float
    pub learned_instructions : List Text

  -- What the planner asks of the model's client besides the prompt.
  pub record Request : Type 0 where
    pub max_tokens : ℕ
    pub enable_thinking : Bool
    pub timeout : Float
    pub json : Bool

  pub record Services : Type 0 where
    -- the clock when the iteration starts, when the model is asked, and how long its reply took
    pub started : Float
    pub asked : Float
    pub elapsed : Float
    pub provider_name : Text
    pub generate : PlannerPrompt → Request → Reply
    pub parse_action : Text → ReActAction × Text
    pub load_query_embedding : Text → Option (List Float)
    pub search_columns : List Float → ℕ → List (Hit f)
    pub retrieve_similar_corrections : Text → List Correction
    pub retrieve_groups : Text → ℕ → Text → Groups
    pub retrieve_column_catalog : Text → List Text → ℕ → Text → List Found
    pub load_columns_for_tables : List Text → Option (Dict Text (List Text))
    pub retrieve : Text → Text → List Found
    pub get_relevant_patterns : Text → List Text → List Pattern
    pub format_patterns_for_prompt : List Pattern → Text
    pub call_ollama : Prompt → Option Text × List SqlWarning
    pub extract_sql : Text → Text
    pub narrow_select_star : Text → Dict Text (List Text) → Text → Text
    pub validate_sql_safety : Text → List SqlWarning
    pub validate_tables_used : Text → List Text → List Text × List SqlWarning
    pub validate_columns_used : Text → Dict Text (List Text) → List SqlWarning
    pub run_explain : Text → List SqlWarning
    pub build_schema_derived_suggestions : List Text → List Text
    pub clarify : Text → Text → Text → Option Text

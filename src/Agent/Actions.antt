-- ===== src/Agent/Actions.antt =====
-- `ReActAction`, `WarningCode` and `SqlWarning` of nl2sql_service/models.py, and the tests of
-- nl2sql_service/agent/react_executor.py on warnings.
use Prim.Native.String.{String}
use nl2sqlcopy.Prelude.{◌≡◌, ◌↔◌, Bool, true, false, List, [], ◌∷◌, arith, Eq, eqb, all, filter, ℕ}
use nl2sqlcopy.Text.{Text, codes}

pub data ReActAction : Type 0 where
  retrieve_past_corrections retrieve_schema_for_tables retrieve_join_paths : ReActAction
  retrieve_sample_queries request_clarification retrieve_more_context fetch_schema : ReActAction
  generate_sql validate_and_return ask_clarification give_up : ReActAction

-- `action.value`
unfoldable pub value : ReActAction → Text
value retrieve_past_corrections = codes "RETRIEVE_PAST_CORRECTIONS"
value retrieve_schema_for_tables = codes "RETRIEVE_SCHEMA_FOR_TABLES"
value retrieve_join_paths = codes "RETRIEVE_JOIN_PATHS"
value retrieve_sample_queries = codes "RETRIEVE_SAMPLE_QUERIES"
value request_clarification = codes "REQUEST_CLARIFICATION"
value retrieve_more_context = codes "RETRIEVE_MORE_CONTEXT"
value fetch_schema = codes "FETCH_SCHEMA"
value generate_sql = codes "GENERATE_SQL"
value validate_and_return = codes "VALIDATE_AND_RETURN"
value ask_clarification = codes "ASK_CLARIFICATION"
value give_up = codes "GIVE_UP"

abbrev number : ReActAction → ℕ
number retrieve_past_corrections = 0
number retrieve_schema_for_tables = 1
number retrieve_join_paths = 2
number retrieve_sample_queries = 3
number request_clarification = 4
number retrieve_more_context = 5
number fetch_schema = 6
number generate_sql = 7
number validate_and_return = 8
number ask_clarification = 9
number give_up = 10

abbrev pub same_action : ReActAction → ReActAction → Bool
same_action a b = eqb (number a) (number b)

pub same_action_iff : (a b : ReActAction) → (same_action a b ≡ true) ↔ (a ≡ b)
same_action_iff a b = ground arith

instance abbrev pub action_eq : Eq ReActAction
action_eq = record { beq = same_action; beq_iff = same_action_iff }

-- The codes that the agent tests; `other` stands for each of the rest, with its name.
pub data WarningCode : Type 0 where
  request_timeout ollama_timeout ollama_upstream ollama_malformed : WarningCode
  sql_empty mysql_explain_unavailable max_retries_exceeded : WarningCode
  other : String → WarningCode

pub record SqlWarning : Type 0 where
  pub code : WarningCode
  pub message : Text

abbrev pub is_blocking : WarningCode → Bool
is_blocking mysql_explain_unavailable = false
is_blocking _ = true

-- `_blocking_warnings`
unfoldable pub blocking_warnings : List SqlWarning → List SqlWarning
blocking_warnings = filter (λ w. is_blocking w.code)

abbrev pub is_transport : WarningCode → Bool
is_transport ollama_timeout = true
is_transport ollama_upstream = true
is_transport ollama_malformed = true
is_transport _ = false

-- `_is_transport_failure`
unfoldable pub is_transport_failure : List SqlWarning → Bool
is_transport_failure [] = false
is_transport_failure (w ∷ warnings) = all (λ v. is_transport v.code) (w ∷ warnings)

-- `code.value`
abbrev pub code_value : WarningCode → Text
code_value request_timeout = codes "REQUEST_TIMEOUT"
code_value ollama_timeout = codes "OLLAMA_TIMEOUT"
code_value ollama_upstream = codes "OLLAMA_UPSTREAM"
code_value ollama_malformed = codes "OLLAMA_MALFORMED"
code_value sql_empty = codes "SQL_EMPTY"
code_value mysql_explain_unavailable = codes "MYSQL_EXPLAIN_UNAVAILABLE"
code_value max_retries_exceeded = codes "MAX_RETRIES_EXCEEDED"
code_value (other name) = codes name

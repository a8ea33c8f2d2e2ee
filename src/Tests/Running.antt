-- ===== src/Tests/Running.antt =====
-- A run of the agent from its question to validated SQL, and the theorems at it.
use nl2sqlcopy.Prelude.{
  ℕ, suc, ◌+◌, ◌≡◌, refl, ◌⊎◌, ◌≤◌, true, false, none, some, Option, [], ◌∷◌, length, Bool,
}
use nl2sqlcopy.Dict
use nl2sqlcopy.Floats.{fmax, ratio}
use nl2sqlcopy.Text.{Text, codes, drop_while, is_space, lower_char, split_on, keep_nonempty, join}
use nl2sqlcopy.Agent.Actions.{give_up, value, blocking_warnings, is_transport_failure}
use nl2sqlcopy.Agent.State.{Settings, normalized_names}
use nl2sqlcopy.Agent.Reasoning.{
  call_reasoning_model, call_reasoning_model-outcome, first_request, reasoning_budget, is_type,
  AnswersOrFails,
}
use nl2sqlcopy.Agent.Services.{Services, Request, Reply, Groups}
use nl2sqlcopy.Agent.Execute.{before_columns, execute_action, parallel_retrieval}
use nl2sqlcopy.Agent.Execute.Sql.{info_warnings, generate_sql_for, validate_sql}
use nl2sqlcopy.Agent.Loop.{run}
use nl2sqlcopy.Agent.Loop.Answers.{Response, success, rejected}
use nl2sqlcopy.Agent.Loop.Turn.{act, auto_validate, after_action, settle, carry_out, iterate, turn}
use nl2sqlcopy.Agent.Loop.Contract.{Contract}
use nl2sqlcopy.Agent.Loop.Ends.{is_over, run-ends}
use nl2sqlcopy.Agent.Loop.Responses.{run-Contract}
use nl2sqlcopy.Agent.Names.{parse_csv_items, merge_allowed_columns}
use nl2sqlcopy.Agent.Planner.{available_actions, state_driven_action}
use nl2sqlcopy.Agent.Guard.{memory_guard, record_action}
use nl2sqlcopy.Agent.Confidence.{confidence_score}
use nl2sqlcopy.Agent.Mentions.{infer_focus_tables, should_check_past_corrections}
use nl2sqlcopy.Agent.Columns.{
  is_line_end, extract_columns_from_results, extract_columns_from_column_results,
}
use nl2sqlcopy.Agent.Execute.Corrections.{past_corrections}
use nl2sqlcopy.Agent.Execute.Schema.{schema_for_tables}
use nl2sqlcopy.Agent.Loop.Choice.{remaining_budget, begin_iteration, choose, guarded, focus}
use nl2sqlcopy.Generation.Tokens.{flatten, passed_over}
use nl2sqlcopy.Agent.Parser.{upper_char}
use nl2sqlcopy.Generation.Safety.{validate_sql_safety, validate_sql_safety-serious, is_destructive}
use nl2sqlcopy.Tests.Checking.{parser}
use nl2sqlcopy.Tests.Numbers.{whole}
use nl2sqlcopy.Tests.Planning.{settings}

abbrev question : Text
question = codes "list all orders with totals"

-- A model that never answers in time.
abbrev silent : Reply
silent = record {
  text = [];
  thought = none;
  error_type = some (codes "timeout");
  error_message = none;
}

abbrev orders : Groups
orders = record {
  matched_groups = codes "sales" ∷ [];
  tables_in_scope = codes "Orders" ∷ [];
  context = codes "orders: id, total";
  results = record { content = codes "orders: id, total"; metadata = [] } ∷ [];
}

-- The services at the n-th moment, each of which lasts a second.
abbrev world : ℕ → Services whole
world n = record {
  started = n + 1;
  asked = n + 1;
  elapsed = 2;
  provider_name = codes "ollama";
  generate = λ prompt request. silent;
  parse_action = λ answer. (give_up, codes "Could not parse action");
  load_query_embedding = λ query. none;
  search_columns = λ embedding limit. [];
  retrieve_similar_corrections = λ query. [];
  retrieve_groups = λ query top_k search. orders;
  retrieve_column_catalog = λ query tables top_k search. [];
  load_columns_for_tables = λ tables. none;
  retrieve = λ query search. [];
  get_relevant_patterns = λ query tables. [];
  format_patterns_for_prompt = λ patterns. [];
  call_ollama = λ prompt. (some (codes "SELECT total FROM orders"), []);
  extract_sql = λ raw. raw;
  narrow_select_star = λ sql columns query. sql;
  validate_sql_safety = validate_sql_safety parser;
  validate_tables_used = λ sql tables. (codes "orders" ∷ [], []);
  validate_columns_used = λ sql columns. [];
  run_explain = λ sql. [];
  build_schema_derived_suggestions = λ tables. [];
  clarify = λ query reason tables. none;
}

abbrev answer : Option Response
answer = run whole world settings before_columns (λ q. q) question none 4

abbrev got : Option Response → Response
got none = rejected record {
  warnings = [];
  attempt_count = 0;
  react_trace = some (record { steps = []; total_iterations = 0; final_action = give_up });
}
got (some r) = r

abbrev response : Response
response = got answer

abbrev is_success : Response → Bool
is_success (success r) = true
is_success _ = false

answered : (answer ≡ some response) × (is_success response ≡ true)
unfolding flatten passed_over upper_char validate_sql_safety is_destructive is_space lower_char
    drop_while split_on keep_nonempty join Dict.get Dict.put ratio value blocking_warnings
    is_transport_failure parse_csv_items merge_allowed_columns normalized_names available_actions
    state_driven_action memory_guard record_action confidence_score infer_focus_tables
    should_check_past_corrections is_line_end extract_columns_from_results
    extract_columns_from_column_results execute_action parallel_retrieval past_corrections
    schema_for_tables generate_sql_for validate_sql run remaining_budget begin_iteration choose
    guarded focus act auto_validate after_action settle carry_out iterate turn
answered = (refl, refl)

serious : (n : ℕ) (sql : Text) → info_warnings ((world n).validate_sql_safety sql) ≡ []
serious n sql = validate_sql_safety-serious parser sql

run-Contract_example : Contract whole world settings question response
run-Contract_example =
    run-Contract whole world settings before_columns (λ q. q) question none serious 4 response
      answered.0

abbrev lifetime : ℕ
lifetime = 60

out_of_time : is_over whole world settings (lifetime + 1) ≡ true
unfolding fmax ratio
out_of_time = refl

run-ends_example :
    (r : Response) × (run whole world settings before_columns (λ q. q) question none (suc lifetime)
      ≡ some r)
    × (run whole world settings before_columns (λ q. q) question none (suc (lifetime + 5)) ≡ some r)
run-ends_example =
    run-ends whole world settings before_columns (λ q. q) question none lifetime 5 out_of_time

abbrev hushed : Request whole → Reply
hushed request = silent

call_reasoning_model-outcome_example :
    let (outcome, requests) = call_reasoning_model whole settings (codes "ollama") hushed 30 2 in
    let first = hushed (first_request whole settings (reasoning_budget whole settings 30)) in
    ((length requests ≤ 1)
      ⊎ ((length requests ≡ 2) × (is_type (codes "timeout") first.error_type ≡ true)))
    × AnswersOrFails whole outcome
call_reasoning_model-outcome_example =
    call_reasoning_model-outcome whole settings (codes "ollama") hushed 30 2

-- Two tables where SQL is generated from one, and no column of either: no iteration counts, since
-- each turns to the schema again.
abbrev two : Groups
two = record {
  matched_groups = codes "sales" ∷ [];
  tables_in_scope = codes "Orders" ∷ codes "notes" ∷ [];
  context = codes "tables";
  results = [];
}

abbrev narrow : Settings whole
narrow = record settings { sql_generation_max_tables = 1; react_max_iterations = 1 }

abbrev bare : ℕ → Services whole
bare n = record (world n) { retrieve_groups = λ query top_k search. two }

spins : run whole bare narrow before_columns (λ q. q) question none 7 ≡ none
unfolding flatten passed_over upper_char validate_sql_safety is_destructive is_space lower_char
    drop_while split_on keep_nonempty join Dict.get Dict.put ratio value blocking_warnings
    is_transport_failure parse_csv_items merge_allowed_columns normalized_names available_actions
    state_driven_action memory_guard record_action confidence_score infer_focus_tables
    should_check_past_corrections is_line_end extract_columns_from_results
    extract_columns_from_column_results execute_action parallel_retrieval past_corrections
    schema_for_tables generate_sql_for validate_sql run remaining_budget begin_iteration choose
    guarded focus act auto_validate after_action settle carry_out iterate turn
spins = refl

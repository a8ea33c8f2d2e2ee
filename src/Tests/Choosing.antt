-- ===== src/Tests/Choosing.antt =====
-- The names, the tables and the actions of the agent, and the classification of a failed run, on
-- concrete inputs, and the theorems at them.
use nl2sqlcopy.Prelude.{ℕ, ◌≤◌, ◌≡◌, refl, true, false, ◌||◌, some, List, [], ◌∷◌, map, length, All}
use nl2sqlcopy.Text.{Text, codes, text_eq, nonempty, drop_while, is_space, lower_char}
use nl2sqlcopy.Agent.Names.{normalize_table_name, member, add_all}
use nl2sqlcopy.Agent.Focus.{
  Hit, score_hit, score_hits, place, comes_before, insert_scored, sort_scored, focused_tables,
}
use nl2sqlcopy.Agent.Focus.Laws.{focused_tables-scope}
use nl2sqlcopy.Evaluation.Failures.{
  is_retrieval_family, Run, Case, TraceSummary, is_http_error, provider_failure_detected,
  select_failure_type, failed_status, stage_failure_detected, actual_status, hint_failure_type,
  unretrieved_failure, sql_failure,
}
use nl2sqlcopy.Evaluation.Failures.Blame.{retrieval_blamed}
use nl2sqlcopy.Floats.{fmax}
use nl2sqlcopy.Tests.Numbers.{whole}

program : Unit {0}
unfolding drop_while is_space lower_char normalize_table_name add_all fmax score_hit score_hits
    place comes_before insert_scored sort_scored focused_tables failed_status stage_failure_detected
    actual_status provider_failure_detected hint_failure_type unretrieved_failure sql_failure
    select_failure_type
program = tt

abbrev scope : List Text
scope = codes "orders" ∷ codes "users" ∷ codes "items" ∷ []

abbrev hits : ℕ → List (Hit whole)
hits limit =
    record { table_name = codes "users"; similarity = 4 }
    ∷ record { table_name = codes "logs"; similarity = 9 }
    ∷ record { table_name = codes "items"; similarity = 6 }
    ∷ []

focused_run : focused_tables whole scope hits 2 ≡ (codes "items" ∷ codes "users" ∷ [], 2)
unfolding program
focused_run = refl

focused_tables-scope_example :
    let focused = (focused_tables whole scope hits 2).0 in
    let tables = add_all [] (map normalize_table_name scope) in
    (length focused ≤ 2) × All (λ t. member t tables ≡ true) focused
focused_tables-scope_example = focused_tables-scope whole scope hits 2

abbrev case_of_orders : Case
case_of_orders = record {
  expected_status = codes "ok";
  expected_tables = codes "orders" ∷ [];
  likely_failure_types = [];
}

abbrev run_of_orders : Run
run_of_orders = record {
  request_error = [];
  http_status_code = some 200;
  response_body_status = codes "ok";
  response_status = [];
  trace_events = [];
  warning_codes = [];
}

abbrev summary : TraceSummary
summary = record {
  cache_hit = false;
  react_final_action = [];
  retrieved_tables = codes "users" ∷ [];
  selected_tables = codes "users" ∷ [];
  retrieval_events = 1;
}

blamed_run :
    is_retrieval_family
      (select_failure_type case_of_orders run_of_orders true summary false true false)
    ≡ true
unfolding program
blamed_run = refl

retrieval_blamed_example :
    (nonempty run_of_orders.request_error ≡ false)
    × (is_http_error run_of_orders.http_status_code ≡ false)
    × (provider_failure_detected run_of_orders ≡ false)
    × ((true || false) ≡ true)
retrieval_blamed_example =
    retrieval_blamed case_of_orders run_of_orders true summary false true false blamed_run

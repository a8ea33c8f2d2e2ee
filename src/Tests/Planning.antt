-- ===== src/Tests/Planning.antt =====
-- The agent's decisions in one state, and the theorems at it.
use nl2sqlcopy.Prelude.{ℕ, ◌≡◌, refl, ◌⊎◌, true, false, none, some, [], ◌∷◌}
use nl2sqlcopy.Text.{
  Text, codes, text_eq, drop_while, is_space, lower_char, split_on, keep_nonempty, join,
}
use nl2sqlcopy.Agent.Actions.{
  retrieve_past_corrections, retrieve_schema_for_tables, retrieve_join_paths, value,
}
use nl2sqlcopy.Agent.Names.{normalize_table_name, parse_csv_items}
use nl2sqlcopy.Agent.State.{State, Settings, normalized_names}
use nl2sqlcopy.Agent.Planner.{
  offers, available_actions, target_of, action_target, uncovered_tables, state_driven_action,
  open_actions, dedup_onto,
}
use nl2sqlcopy.Agent.Planner.Laws.{LacksSchema, LacksJoins, state_driven_action-offered}
use nl2sqlcopy.Agent.Guard.{all_retrieved, memory_guard, record_action}
use nl2sqlcopy.Tests.Numbers.{whole}

program : Unit {0}
unfolding drop_while is_space lower_char split_on keep_nonempty join value normalize_table_name
    parse_csv_items normalized_names target_of action_target all_retrieved memory_guard
    record_action available_actions open_actions dedup_onto uncovered_tables state_driven_action
program = tt

-- One table in scope, whose schema is not retrieved yet.
abbrev start : State whole
start = record {
  context = [];
  tables_in_scope = codes "Orders" ∷ [];
  matched_groups = [];
  allowed_columns = [];
  current_sql = none;
  last_validation_errors = [];
  sql_generation_count = 0;
  tables_used = [];
  top_k = 5;
  search_query = codes "orders of today";
  actions_taken = [];
  retrieved_tables = [];
  retrieved_schema = [];
  past_corrections = [];
  past_corrections_checked = true;
  learned_instructions = [];
  sample_queries = [];
  join_paths = [];
  context_confidence_score = 1;
  columns_refreshed_tables = [];
  generation_tables_in_scope = [];
  query_embedding = none;
  focus_tables = [];
  deadline_monotonic = 100;
}

abbrev pub settings : Settings whole
settings = record {
  top_k = 5;
  react_confidence_threshold = 2;
  react_confidence_tables_weight = 2;
  react_confidence_join_paths_weight = 2;
  react_confidence_group_weight = 2;
  react_confidence_example_weight = 2;
  react_confidence_iteration_penalty = 2;
  react_past_corrections_min_tokens = 4;
  react_past_corrections_connector_terms = codes "with, per";
  react_reasoning_max_tokens = 800;
  react_top_k_floor = 8;
  react_top_k_multiplier = 2;
  react_max_iterations = 3;
  sql_generation_max_tables = 4;
  sql_generation_timeout = 60;
  reasoning_timeout = 20;
}

abbrev wanted : Text
wanted = codes "orders"

abbrev after : State whole
after = record start { actions_taken = (value retrieve_schema_for_tables, wanted) ∷ [] }

abbrev second : ℕ
second = 2

driven_run :
    state_driven_action whole start
      (available_actions whole start second settings)
      (codes "orders of today")
    ≡ some (retrieve_schema_for_tables, wanted)
unfolding program
driven_run = refl

state_driven_action-offered_example :
    (offers (available_actions whole start second settings) retrieve_schema_for_tables ≡ true)
    × (((retrieve_schema_for_tables ≡ retrieve_past_corrections)
          × (second ≡ 1)
          × (start.past_corrections_checked ≡ false))
        ⊎ ((retrieve_schema_for_tables ≡ retrieve_schema_for_tables) × LacksSchema whole start)
        ⊎ ((retrieve_schema_for_tables ≡ retrieve_join_paths) × LacksJoins whole start))
state_driven_action-offered_example =
    state_driven_action-offered whole start second settings (codes "orders of today") wanted
      retrieve_schema_for_tables driven_run

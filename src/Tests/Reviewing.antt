-- ===== src/Tests/Reviewing.antt =====
-- The checks of a question before planning, and the review gate at replies, with its theorem at one.
use nl2sqlcopy.Prelude.{all, ◌≡◌, refl, true, false, none, some, [], ◌∷◌}
use nl2sqlcopy.Text.{
  lower, split, Text, codes, drop_while, is_space, lower_char, split_on, join, keep_nonempty,
}
use nl2sqlcopy.Agent.Actions.{give_up}
use nl2sqlcopy.Agent.Parser.{upper_char}
use nl2sqlcopy.Generation.Preflight.Destructive.{detect_destructive_query_intent-finds}
use nl2sqlcopy.Agent.Columns.{after_colon, is_line_end}
use nl2sqlcopy.Agent.Names.{member, has_part, sorted, add_all}
use nl2sqlcopy.Agent.Loop.Answers.{Success}
use nl2sqlcopy.Agent.Mentions.{is_word, mentions, parse_csv_terms}
use nl2sqlcopy.Generation.Preflight.{
  PreflightSettings, mentioned_keyword, is_term_char, query_terms, ambiguity_of,
  detect_destructive_query_intent, detect_basic_ambiguity_reason,
}
use nl2sqlcopy.Generation.Review.{
  Reviewers, read_field, read_fields, fields_of, violations_of, review_reply,
}

abbrev pub failing : Text
failing = codes "Verdict: Fail\nVIOLATIONS: 2, none, 4\nREASON: A table is out of scope."

reads_failure : review_reply failing ≡ (false, codes "2" ∷ codes "4" ∷ [])
unfolding has_part upper_char drop_while is_space lower_char split_on is_line_end after_colon
    read_field read_fields fields_of violations_of review_reply
reads_failure = refl

-- A verdict without a reason counts for nothing.
reads_incomplete : review_reply (codes "VERDICT: FAIL\nVIOLATIONS: 2") ≡ (true, [])
unfolding has_part upper_char drop_while is_space lower_char split_on is_line_end after_colon
    read_field read_fields fields_of violations_of review_reply
reads_incomplete = refl

abbrev pub reviewers : Reviewers
reviewers = record {
  rewrite_search_query = λ query. some query;
  retrieve_groups = λ query search_query. some (codes "orders" ∷ []);
  load_columns_for_tables = λ tables. none;
  generate = λ sql query tables columns. some failing;
}

abbrev pub generated : Success
generated = record {
  sql = some (codes "SELECT id FROM orders");
  warnings = [];
  tables_used = codes "orders" ∷ [];
  matched_groups = [];
  attempt_count = 1;
  react_trace = some (record { steps = []; total_iterations = 1; final_action = give_up });
}

abbrev pub preflight : PreflightSettings
preflight = record {
  destructive_query_keywords = codes "delete, drop";
  ambiguity_query_stopwords = codes "show,all,the";
  ambiguity_generic_terms = codes "records,data";
  ambiguity_modifier_terms = codes "latest";
}

rejects_destruction :
    (detect_destructive_query_intent (codes "Please  DROP the orders") preflight
      ≡ some (codes "drop"))
    × (detect_destructive_query_intent (codes "deleted orders") preflight ≡ none)
unfolding mentions parse_csv_terms lower_char is_space drop_while split_on keep_nonempty join
    mentioned_keyword detect_destructive_query_intent
rejects_destruction = (refl, refl)

asks_for_an_entity :
    (detect_basic_ambiguity_reason (codes "show the latest 10 records") preflight
      ≡ some
          (codes "The request uses generic terms like records without naming the target entity."))
    × (detect_basic_ambiguity_reason (codes "show all orders data") preflight ≡ none)
unfolding parse_csv_terms lower_char is_space drop_while split_on keep_nonempty join sorted add_all
    is_term_char query_terms ambiguity_of detect_basic_ambiguity_reason
asks_for_an_entity = (refl, refl)

abbrev drop_orders : Text
drop_orders = codes "Please  DROP the orders"

names_drop :
    (all is_word (codes "drop") ≡ true)
    × (member (codes "drop") (parse_csv_terms preflight.destructive_query_keywords) ≡ true)
    × (member (codes "drop") (split (lower drop_orders)) ≡ true)
unfolding parse_csv_terms lower_char is_space drop_while split_on keep_nonempty is_word
names_drop = (refl, refl, refl)

detect_destructive_query_intent-finds_example :
    (found : Text) × (detect_destructive_query_intent drop_orders preflight ≡ some found)
    × (member found (parse_csv_terms preflight.destructive_query_keywords) ≡ true)
detect_destructive_query_intent-finds_example =
    detect_destructive_query_intent-finds drop_orders (codes "drop") preflight refl names_drop.0
      names_drop.1 names_drop.2

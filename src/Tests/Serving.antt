-- ===== src/Tests/Serving.antt =====
-- `generate_sql` at a question that the agent answers and the review objects to, and at the same question
-- asked again.
use nl2sqlcopy.Prelude.{◌≡◌, refl, ap, true, none, some, List, [], ◌∷◌}
use nl2sqlcopy.Dict.{get, put, remove, contains}
use nl2sqlcopy.Text.{
  Text, codes, text_eq, decimal, drop_while, is_space, lower_char, split_on, keep_nonempty, join,
}
use nl2sqlcopy.Agent.Loop.Answers.{Success, success}
use nl2sqlcopy.Agent.Parser.{upper_char}
use nl2sqlcopy.Agent.Columns.{after_colon, is_line_end}
use nl2sqlcopy.Agent.Names.{has_part, add_all, sorted}
use nl2sqlcopy.Agent.Mentions.{mentions, parse_csv_terms}
use nl2sqlcopy.Core.CacheKeys.{
  is_alnum, blank_runs, canonical_token, canonical_tokens, canonicalize_query_text,
}
use nl2sqlcopy.Core.Cache.Store.{key_text, oldest_from, oldest_key, read, make_room, write}
use nl2sqlcopy.Core.Cache.Sql
use nl2sqlcopy.Core.Cache.Sql.{is_ok}
use nl2sqlcopy.Core.Cache.Embed
use nl2sqlcopy.Core.Cache.Semantic
use nl2sqlcopy.Generation.Candidate.{
  query_looks_multi_table, is_dominant, tables_of, outweighs, schema_is_self_contained,
  ColumnSearchHit, known_names, names_only_table, is_deterministic_generation_candidate,
}
use nl2sqlcopy.Generation.Tokens.{plain_table_name, last_part}
use nl2sqlcopy.Generation.Preflight.{
  mentioned_keyword, is_term_char, query_terms, ambiguity_of, detect_destructive_query_intent,
  detect_basic_ambiguity_reason,
}
use nl2sqlcopy.Generation.Review.{
  read_field, read_fields, fields_of, violations_of, review_reply, apply_review_gate,
  review_warning, with_warning, columns_or_empty, review_context,
}
use nl2sqlcopy.Generation.Service.{
  Backends, GenerationSettings, Outcome, RunEnd, Stores, effective_top_k, returned,
}
use nl2sqlcopy.Generation.Service.Cached.{
  fresh, dumped, memory_exact, with_cache_metadata, response_from_dict,
}
use nl2sqlcopy.Generation.Service.Template.{
  retrieve_at, obvious_result, try_deterministic_generation,
}
use nl2sqlcopy.Generation.Service.Lookup.{
  load_query_embedding, warm, db_lookup, semantic_lookup, persist, store_semantic, store_response,
}
use nl2sqlcopy.Generation.Service.Flow.{
  settle_run, settle_template, hit_or, look_further, check_candidate, settle_obvious,
  look_for_template, look_up, generate_sql,
}
use nl2sqlcopy.Generation.Service.Origin.Again.{generate_sql-again}
use nl2sqlcopy.Tests.Checking.{parser}
use nl2sqlcopy.Tests.Numbers.{whole}
use nl2sqlcopy.Tests.Reviewing.{preflight, reviewers, generated}

program : Unit {0}
unfolding get put remove contains decimal drop_while is_space lower_char split_on keep_nonempty join
    upper_char after_colon is_line_end has_part add_all sorted mentions parse_csv_terms is_alnum
    blank_runs canonical_token canonical_tokens canonicalize_query_text key_text oldest_from
    oldest_key read make_room write is_ok Sql.get Sql.set Sql.key Embed.get Embed.set
    Semantic.get_semantic Semantic.set Semantic.key known_names names_only_table
    is_deterministic_generation_candidate plain_table_name last_part mentioned_keyword is_term_char
    query_terms ambiguity_of detect_destructive_query_intent detect_basic_ambiguity_reason
    read_field read_fields fields_of violations_of review_reply apply_review_gate columns_or_empty
    review_context effective_top_k dumped with_cache_metadata response_from_dict retrieve_at
    obvious_result try_deterministic_generation load_query_embedding warm db_lookup semantic_lookup
    persist store_semantic store_response settle_run settle_template hit_or look_further
    check_candidate settle_obvious look_for_template look_up generate_sql
program = tt

abbrev settings : GenerationSettings whole
settings = record {
  top_k = 5;
  preflight = preflight;
  sql_cache_enabled = true;
  sql_cache_ttl = 60;
  embed_cache_ttl = 60;
  sql_cache_semantic_threshold = 2;
  sql_generation_timeout = 30;
  governance_enabled = true;
}

-- Two tables in scope, no columns like the question, nothing in the caches of the database.
abbrev backends : Backends whole Text
backends = record {
  rewrite_search_query = λ place query. some query;
  retrieve_groups = λ place query top_k search_query.
      some (record { tables_in_scope = codes "orders" ∷ codes "notes" ∷ []; matched_groups = [] });
  load_columns_for_tables = λ place tables. none;
  filter_rules = [];
  default_filter_rules = [];
  run_explain = λ sql. [];
  embed_texts = λ place query. some ((1 ∷ 2 ∷ []) ∷ []);
  search_columns = λ vector top_k. some [];
  get_query_cache_epoch = λ place. some 3;
  get_query_cache_exact = λ query top_k epoch. some none;
  get_query_cache_semantic = λ vector top_k epoch. some none;
  upsert_query_cache_entry = λ row. true;
  react_run = λ query top_k. RunEnd.responded (success generated);
  reviewers = reviewers;
  lookup_time = λ place. 10;
  write_time = λ place. 12;
  semantic_time = λ key. 11;
}

-- The same a minute later, where nothing answers any more.
abbrev later : Backends whole Text
later = record backends {
  rewrite_search_query = λ place query. none;
  embed_texts = λ place query. none;
  react_run = λ query top_k. RunEnd.raised;
  lookup_time = λ place. 70;
}

abbrev empty : Stores whole Text
empty = record {
  embed_cache = record { store = []; max_size = 500 };
  sql_cache = record { store = []; max_size = 200 };
  semantic_sql_cache = record { store = []; max_size = 200 };
  persisted = [];
}

abbrev question : Text
question = codes "Orders of today"

abbrev ended : Outcome × Stores whole Text
ended = generate_sql whole (λ text. text) parser backends settings question none empty

abbrev reviewed : Success
reviewed = with_warning generated (review_warning (codes "2" ∷ codes "4" ∷ []))

answers : ended.0 ≡ returned (fresh (success reviewed))
unfolding program
answers = refl

ran : ended ≡ (returned (fresh (success reviewed)), ended.1)
ran = ap (λ (o : Outcome). (o, ended.1)) answers

abbrev rephrased : Text
rephrased = codes "orders   of  TODAY"

same_form : canonicalize_query_text rephrased ≡ canonicalize_query_text question
unfolding program
same_form = refl

harmless :
    (detect_destructive_query_intent rephrased preflight ≡ none)
    × (detect_basic_ambiguity_reason rephrased preflight ≡ none)
unfolding program
harmless = (refl, refl)

generate_sql-again_example :
    (generate_sql whole (λ text. text) parser later settings rephrased none ended.1).0
    ≡ returned record { response = success reviewed; cache_hit = true; cache_source = memory_exact }
generate_sql-again_example =
    generate_sql-again whole (λ text. text) parser backends later settings question rephrased none
      empty ended.1 (fresh (success reviewed)) reviewed ran refl refl refl same_form harmless.0
      harmless.1 refl

abbrev hits : List ColumnSearchHit
hits =
    record { table_name = codes "Orders"; column_name = codes "id" }
    ∷ record { table_name = codes "orders"; column_name = codes "total" }
    ∷ record { table_name = codes "notes"; column_name = codes "id" }
    ∷ []

abbrev other_hits : List ColumnSearchHit
other_hits =
    record { table_name = codes "orders"; column_name = codes "total" }
    ∷ record { table_name = codes "notes"; column_name = codes "id" }
    ∷ []

is_candidate :
    is_deterministic_generation_candidate (codes "Orders of today") 5 (codes "orders" ∷ []) [] hits
    ≡ true
unfolding program query_looks_multi_table is_dominant tables_of outweighs schema_is_self_contained
is_candidate = refl

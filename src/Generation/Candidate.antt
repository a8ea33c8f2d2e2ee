-- ===== src/Generation/Candidate.antt =====
-- `is_deterministic_generation_candidate` of nl2sql_service/generation/sql_generator.py: the questions
-- that SQL without a model is tried for. The hits of the search for columns are an argument.
use nl2sqlcopy.Prelude.{
  ℕ, ◌*◌, max, Bool, false, not, ◌&&◌, ◌||◌, List, [], ◌∷◌, map, ◌==◌, eqb, leb, any, filter, take,
  length, if◌then◌else◌,
}
use nl2sqlcopy.Text.{Text, codes, text_eq, nonempty, lower, split, join}
use nl2sqlcopy.Agent.Names.{member, has_part}
use nl2sqlcopy.Agent.Confidence.{distinct}
use nl2sqlcopy.Agent.Mentions.{mentions}
use nl2sqlcopy.Agent.Planner.{some_in}
use nl2sqlcopy.Generation.Tokens.{plain_table_name}
use nl2sqlcopy.Generation.Wording.{aliases_for, query_text, padded, singularize, pluralize}

-- `ColumnSearchHit`, but for its similarity, which nothing reads.
pub record ColumnSearchHit : Type 0 where
  pub table_name : Text
  pub column_name : Text

abbrev joining_words : List Text
joining_words =
    codes "join"
    ∷ codes "compare"
    ∷ codes "between"
    ∷ codes "alongside"
    ∷ codes "versus"
    ∷ codes "vs"
    ∷ codes "and"
    ∷ codes "with"
    ∷ codes "by"
    ∷ []

-- `_query_looks_multi_table`: both of its patterns.
unfoldable pub query_looks_multi_table : Text → Bool
query_looks_multi_table query =
    let normalized = join (codes " ") (split (lower query)) in
    any (λ word. mentions word normalized) joining_words || any (λ c. eqb c b',') normalized

-- `_normalize_table_name(table).lower()`
abbrev pub small_name : Text → Text
small_name table = lower (plain_table_name table)

-- The names of tables or groups that are not empty.
unfoldable pub known_names : List Text → List Text
known_names tables = map small_name (filter (λ table. nonempty (plain_table_name table)) tables)

-- `_query_mentions_table_form` with `plural=True`
unfoldable pub mentions_plural : Text → Text → Bool
mentions_plural query table =
    any
      (λ alias.
        alias == pluralize (singularize alias) && has_part (query_text query) (padded alias))
      (aliases_for table)

abbrev pub is_of : Text → ColumnSearchHit → Bool
is_of candidate hit = small_name hit.table_name == candidate

abbrev pub candidate_hits : Text → List ColumnSearchHit → List ColumnSearchHit
candidate_hits candidate = filter (is_of candidate)

abbrev pub foreign_hits : Text → List ColumnSearchHit → List ColumnSearchHit
foreign_hits candidate = filter (λ hit. not (is_of candidate hit))

-- The tables of hits, each once.
unfoldable pub tables_of : List ColumnSearchHit → List Text
unfolding distinct
tables_of hits = distinct (map (λ hit. small_name hit.table_name) hits)

-- `len(candidate_hits) / max(1, len(top_columns)) >= 0.6`, which of such small numbers holds in floating
-- point exactly where it holds.
unfoldable pub is_dominant : Text → List ColumnSearchHit → Bool
is_dominant candidate hits =
    leb (3 * max 1 (length hits)) (5 * length (candidate_hits candidate hits))

-- What is asked of a table that shares the hits with others.
unfoldable pub outweighs : Text → Text → List ColumnSearchHit → Bool
unfolding is_dominant tables_of
outweighs query candidate hits =
    leb 2 (length (candidate_hits candidate hits))
    && is_dominant candidate hits
    && leb (length (tables_of (foreign_hits candidate hits))) 1
    && not (query_looks_multi_table query)

-- `_schema_is_self_contained`, over the first `top_k` hits
unfoldable pub schema_is_self_contained :
    Text → Text → List Text → List Text → List ColumnSearchHit → Bool
unfolding known_names outweighs
schema_is_self_contained query candidate known_schema_tables matched_groups hits =
    if not (member candidate (known_names known_schema_tables))
      && not (member candidate (known_names matched_groups))
    then false
    else not (some_in (foreign_hits candidate hits)) || outweighs query candidate hits

-- A single known table that the question names in the plural.
unfoldable pub names_only_table : Text → List Text → Bool
names_only_table query (table ∷ []) =
    not (query_looks_multi_table query) && mentions_plural query table
names_only_table query tables = false

unfoldable pub is_deterministic_generation_candidate :
    Text → ℕ → List Text → List Text → List ColumnSearchHit → Bool
unfolding names_only_table schema_is_self_contained
is_deterministic_generation_candidate query top_k known_schema_tables matched_groups [] =
    names_only_table query (known_names known_schema_tables)
is_deterministic_generation_candidate query top_k known_schema_tables matched_groups (hit ∷ hits) =
    schema_is_self_contained query (small_name (small_name hit.table_name)) known_schema_tables
      matched_groups (take (max 1 top_k) (hit ∷ hits))

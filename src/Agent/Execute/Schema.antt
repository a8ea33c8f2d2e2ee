-- ===== src/Agent/Execute/Schema.antt =====
-- The branch RETRIEVE_SCHEMA_FOR_TABLES of `execute_action`, in the two parts between which it waits
-- for the catalog of columns: the groups of tables first, their columns then.
use nl2sqlcopy.Prelude.{
  ℕ, ◌*◌, max, not, ◌&&◌, Option, none, some, List, [], ◌∷◌, ◌++◌, map, eqb, filter, length,
  if◌then◌else◌,
}
use nl2sqlcopy.Dict.{Dict}
use nl2sqlcopy.Floats.{Floats}
use nl2sqlcopy.Text.{Text, codes, text_eq, nonempty, or_else, join, decimal}
use nl2sqlcopy.Agent.Names.{
  normalize_table_name, member, parse_csv_items, merge_ordered_strings, merge_allowed_columns,
  merge_context_block, combine_search_queries,
}
use nl2sqlcopy.Agent.State.{State, Settings}
use nl2sqlcopy.Agent.Planner.{some_in, list_or, keys}
use nl2sqlcopy.Agent.Mentions.{infer_focus_tables}
use nl2sqlcopy.Agent.Columns.{extract_columns_from_results, extract_columns_from_column_results}
use nl2sqlcopy.Agent.Services.{Services, Groups}
use nl2sqlcopy.Agent.Execute.Corrections.{search_query_or}

-- `names.update(more)` of a set
unfoldable pub update : List Text → List Text → List Text
update names [] = names
update names (name ∷ more) = update (if member name names then names else names ++ name ∷ []) more

-- The local variables of the branch that its second part reads.
pub record Targets : Type 0 where
  pub refined_query : Text
  pub search_query : Text
  pub result : Groups
  pub target_tables : List Text

unfoldable pub columns_text : Dict Text (List Text) → Text
columns_text parsed =
    join (codes "\n")
      (map (λ entry. codes "- " ++ (entry.0 ++ (codes ": " ++ join (codes ", ") entry.1))) parsed)

abbrev or_none : List Text → Text
or_none names = or_else (join (codes ", ") names) (codes "(none)")

module _ (f : Floats) where
  open f use {Float}

  abbrev embedding_or : Option (List Float) → Option (List Float) → Option (List Float)
  embedding_or none loaded = loaded
  embedding_or (some e) loaded = some e

  -- `_ensure_query_embedding`
  unfoldable pub ensure_query_embedding : Services f → Text → State f → State f
  ensure_query_embedding sv query s = record s {
    query_embedding = embedding_or s.query_embedding (sv.load_query_embedding query);
  }

  unfoldable pub schema_groups : Services f → Text → Text → State f → State f × Targets
  unfolding ensure_query_embedding
  schema_groups sv input query s =
      let refined_query = or_else input query in
      let search_query = combine_search_queries refined_query (search_query_or f query s) in
      let result = sv.retrieve_groups refined_query s.top_k search_query in
      let tables = merge_ordered_strings s.tables_in_scope result.tables_in_scope in
      let known = filter nonempty (map normalize_table_name tables) in
      let explicit = filter (λ t. member t known) (parse_csv_items input) in
      let seed = list_or explicit (infer_focus_tables (search_query_or f query s) known) in
      let focus_seed = if not (some_in seed) && eqb (length known) 1 then known else seed in
      (
        record (ensure_query_embedding sv search_query s) {
          matched_groups = merge_ordered_strings s.matched_groups result.matched_groups;
          tables_in_scope = tables;
          context = merge_context_block s.context result.context;
          focus_tables = merge_ordered_strings s.focus_tables focus_seed;
        },
        record {
          refined_query = refined_query;
          search_query = search_query;
          result = result;
          target_tables = list_or seed known;
        },
      )

  -- The columns that the results and the catalog name; where they name none, those of the database.
  unfoldable pub found_columns : Services f → Settings f → Targets → ℕ → Dict Text (List Text)
  found_columns sv settings t top_k =
      let wanted = list_or t.target_tables t.result.tables_in_scope in
      let catalog =
        sv.retrieve_column_catalog t.refined_query wanted
          (max settings.react_top_k_floor (top_k * settings.react_top_k_multiplier))
          t.search_query in
      let parsed =
        merge_allowed_columns (extract_columns_from_results t.result.results wanted)
          (extract_columns_from_column_results catalog) in
      if not (some_in parsed) && some_in t.target_tables
      then elim (sv.load_columns_for_tables t.target_tables) [
        | none ↦ parsed
        | some loaded ↦ merge_allowed_columns parsed loaded
      ]
      else parsed

  unfoldable pub schema_columns : Services f → Settings f → Targets → State f → State f × Text
  unfolding found_columns update columns_text
  schema_columns sv settings t s =
      let wanted = list_or t.target_tables t.result.tables_in_scope in
      let parsed = found_columns sv settings t s.top_k in
      let block = codes "RETRIEVED COLUMNS:\n" ++ columns_text parsed in
      (
        record s {
          retrieved_schema = merge_allowed_columns s.retrieved_schema parsed;
          allowed_columns = merge_allowed_columns s.allowed_columns parsed;
          columns_refreshed_tables = update s.columns_refreshed_tables (keys parsed);
          retrieved_tables =
              update s.retrieved_tables
                (list_or t.target_tables (map normalize_table_name t.result.tables_in_scope));
          context = if some_in parsed then merge_context_block s.context block else s.context;
        },
        codes "Retrieved schema for "
            ++ (decimal (length wanted)
                ++ (codes " table(s): "
                    ++ (join (codes ", ") wanted
                        ++ (codes ". tables_in_scope="
                            ++ (or_none s.tables_in_scope
                                ++ (codes ". Focus tables: "
                                    ++ (or_none s.focus_tables
                                        ++ (codes ". Matched groups: "
                                            ++ (or_none s.matched_groups
                                                ++ (codes
                                                      ". Columns refreshed via column-level retrieval for "
                                                    ++ (decimal (length parsed)
                                                        ++ codes " table(s)."))))))))))),
      )

  -- The whole branch
  unfoldable pub schema_for_tables :
      Services f → Settings f → Text → Text → State f → State f × Text
  unfolding schema_groups schema_columns
  schema_for_tables sv settings input query s =
      let (s1, targets) = schema_groups sv input query s in schema_columns sv settings targets s1

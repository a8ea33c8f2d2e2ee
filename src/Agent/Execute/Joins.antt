-- ===== src/Agent/Execute/Joins.antt =====
-- The branches RETRIEVE_JOIN_PATHS and RETRIEVE_SAMPLE_QUERIES of `execute_action`, and
-- `retrieve_join_paths`.
use nl2sqlcopy.Prelude.{
  Bool, false, ◌&&◌, none, some, List, [], ◌∷◌, ◌++◌, map, ◌==◌, ltb, filter, length, if◌then◌else◌,
}
use nl2sqlcopy.Dict
use nl2sqlcopy.Floats.{Floats}
use nl2sqlcopy.Text.{Text, codes, text_eq, nonempty, or_else, strip, join, decimal}
use nl2sqlcopy.Agent.Names.{
  normalize_table_name, member, parse_csv_items, merge_ordered_strings, merge_context_block, sorted,
}
use nl2sqlcopy.Agent.State.{State, JoinPath, normalized_names}
use nl2sqlcopy.Agent.Planner.{some_in, list_or}
use nl2sqlcopy.Agent.Confidence.{distinct}
use nl2sqlcopy.Agent.Columns.{meta, extract_join_sql}
use nl2sqlcopy.Agent.Reasoning.{text_or}
use nl2sqlcopy.Agent.Services.{Services, Found}

abbrev has_type : Found → Text → Bool
has_type result expected = elim (Dict.get result.metadata (codes "type")) [
  | none ↦ false
  | some kind ↦ kind == expected
]

-- The path of a result, whose columns are always empty.
abbrev pub path_of : Found → JoinPath
path_of result = record {
  left_table = normalize_table_name (meta result (codes "source_table"));
  right_table = normalize_table_name (meta result (codes "target_table"));
  join_type = or_else (meta result (codes "relationship_type")) (codes "INNER");
  join_sql = extract_join_sql result.content;
}

-- The loop over the results: links between two of the tables.
unfoldable pub paths_between : List Text → List Found → List JoinPath
paths_between tables [] = []
paths_between tables (result ∷ results) =
    let rest = paths_between tables results in
    let path = path_of result in
    if has_type result (codes "relation_link")
      && (member path.left_table tables && member path.right_table tables)
    then path ∷ rest
    else rest

-- Both ends of a path are among the tables.
abbrev pub joins : List Text → JoinPath → Bool
joins tables path = member path.left_table tables && member path.right_table tables

unfoldable pub join_line : JoinPath → Text
join_line path =
    let join_sql = strip (text_or path.join_sql) in
    codes "- "
    ++ (if nonempty join_sql
        then join_sql
        else path.left_table ++ (codes ". = " ++ (path.right_table ++ codes ".")))

module _ (f : Floats) where
  -- `retrieve_join_paths`
  unfoldable pub find_join_paths : Services f → List Text → Text → List JoinPath
  unfolding distinct paths_between
  find_join_paths sv tables query =
      let normalized = distinct (map normalize_table_name (filter nonempty tables)) in
      let search_query =
        strip
          (codes "join path " ++ (join (codes " ") (sorted normalized) ++ (codes " " ++ query))) in
      if ltb (length tables) 2
      then []
      else paths_between normalized (sv.retrieve query search_query)

  unfoldable pub join_paths_between : Services f → Text → Text → State f → State f × Text
  unfolding find_join_paths join_line
  join_paths_between sv input query s =
      let tables = normalized_names (list_or (parse_csv_items input) s.tables_in_scope) in
      let paths = find_join_paths sv tables query in
      let block = codes "JOIN PATHS:\n" ++ join (codes "\n") (map join_line paths) in
      (
        record s {
          join_paths = paths;
          context = if some_in paths then merge_context_block s.context block else s.context;
        },
        codes "Retrieved " ++ (decimal (length paths) ++ codes " join path(s)."),
      )

  unfoldable pub sample_queries_for : Services f → Text → Text → State f → State f × Text
  sample_queries_for sv input query s =
      let patterns = sv.get_relevant_patterns (or_else input query) s.tables_in_scope in
      let block = codes "SAMPLE QUERIES:\n" ++ sv.format_patterns_for_prompt patterns in
      let learned =
        s.learned_instructions ++ map (λ p. codes "Sample query: " ++ p.query_text) patterns in
      (
        record s {
          sample_queries = patterns;
          context = if some_in patterns then merge_context_block s.context block else s.context;
          learned_instructions =
              if some_in patterns then merge_ordered_strings [] learned else s.learned_instructions;
        },
        codes "Retrieved " ++ (decimal (length patterns) ++ codes " sample querie(s)."),
      )

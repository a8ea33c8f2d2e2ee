-- ===== src/Agent/Columns.antt =====
-- The helpers of nl2sql_service/agent/react_executor.py that read what a search found:
-- `_extract_join_sql`, `_extract_columns_from_results` and `_extract_columns_from_column_results`.
use nl2sqlcopy.Prelude.{
  ℕ, ◌≡◌, refl, Bool, not, ◌&&◌, ◌||◌, Option, none, some, List, [], ◌∷◌, map, eqb, leb, filter,
  if◌then◌else◌,
}
use nl2sqlcopy.Dict
use nl2sqlcopy.Dict.{Dict}
use nl2sqlcopy.Text.{
  Text, codes, text_eq, nonempty, or_else, lower, strip, strip_of, split_on, drop_while, is_space,
  lower_char,
}
use nl2sqlcopy.Agent.Names.{normalize_table_name, member, merge_ordered_strings, starts_with}
use nl2sqlcopy.Agent.State.{normalized_names}
use nl2sqlcopy.Agent.Planner.{some_in}
use nl2sqlcopy.Agent.Mentions.{is_word}
use nl2sqlcopy.Agent.Services.{Found}

-- `content.splitlines()`, with empty lines more, which no reader of the lines minds.
unfoldable pub is_line_end : ℕ → Bool
is_line_end c =
    (leb 10 c && leb c 13) || (leb 28 c && leb c 30) || eqb c 133 || eqb c 8232 || eqb c 8233

abbrev pub split_lines : Text → List Text
split_lines = split_on is_line_end

-- `text.partition(":")[2]`
unfoldable pub after_colon : Text → Text
after_colon [] = []
after_colon (c ∷ s) = let rest = after_colon s in if eqb c b':' then s else rest

-- `metadata.get(key) or ""`
abbrev pub meta : Found → Text → Text
meta result key = elim (Dict.get result.metadata key) [ none ↦ [] | some s ↦ s ]

unfoldable pub first_join_sql : List Text → Option Text
first_join_sql [] = none
first_join_sql (line ∷ lines) =
    let rest = first_join_sql lines in
    let stripped = strip line in
    if starts_with (lower stripped) (codes "join sql:")
    then some (strip (after_colon stripped))
    else rest

-- `_extract_join_sql`
unfoldable pub extract_join_sql : Text → Option Text
unfolding first_join_sql after_colon
extract_join_sql content = first_join_sql (split_lines content)

abbrev is_quote : ℕ → Bool
is_quote c = eqb c b'`' || eqb c b'"' || eqb c b'[' || eqb c b']'

-- The name of a column, before a bracket.
unfoldable pub before_bracket : Text → Text
before_bracket [] = []
before_bracket (c ∷ s) =
    let rest = before_bracket s in if eqb c b'[' || eqb c b'(' then [] else c ∷ rest

-- The columns between commas.
unfoldable pub column_names : Text → List Text
unfolding before_bracket
column_names text = filter nonempty (
    map (λ column. strip_of is_quote (strip (before_bracket column)))
      (split_on (λ c. eqb c b',') text))

-- `^\s*([A-Za-z0-9_]+)\s*:\s*(.+)$`: the word, and what stands behind the colon.
unfoldable pub take_word : Text → Text × Text
take_word [] = ([], [])
take_word (c ∷ s) =
    let (word, rest) = take_word s in if is_word c then (c ∷ word, rest) else ([], c ∷ s)

abbrev behind_colon : Text → Option Text
behind_colon [] = none
behind_colon (c ∷ s) = if eqb c b':' then some s else none

unfoldable pub table_line : Text → Option (Text × Text)
unfolding take_word
table_line line =
    let (word, rest) = take_word (drop_while is_space line) in
    if nonempty word
    then elim (behind_colon (drop_while is_space rest)) [
      | none ↦ none
      | some block ↦ some (word, strip block)
    ]
    else none

-- One line of a result: a block that is empty or begins with a parenthesis is passed over.
unfoldable pub parse_line : List Text → Dict Text (List Text) → Text → Dict Text (List Text)
unfolding table_line column_names
parse_line targets parsed line = elim (table_line line) [
  | none ↦ parsed
  | some (name, block) ↦
      (let table = normalize_table_name name in
        if member table targets && nonempty block && not (starts_with block (codes "("))
        then Dict.put parsed table (column_names block)
        else parsed)
]

unfoldable pub parse_lines : List Text → Dict Text (List Text) → List Text → Dict Text (List Text)
unfolding parse_line
parse_lines targets parsed [] = parsed
parse_lines targets parsed (line ∷ lines) =
    parse_lines targets (parse_line targets parsed line) lines

-- The columns of the object that the metadata names.
unfoldable pub parse_object : List Text → Dict Text (List Text) → Found → Dict Text (List Text)
unfolding after_colon column_names
parse_object targets parsed result =
    let name =
      normalize_table_name
        (or_else (meta result (codes "object_name")) (meta result (codes "table_name"))) in
    let columns = column_names (after_colon result.content) in
    if member name targets && nonempty result.content && some_in columns
    then Dict.put parsed name columns
    else parsed

unfoldable pub parse_results :
    List Text → Dict Text (List Text) → List Found → Dict Text (List Text)
unfolding parse_object parse_lines
parse_results targets parsed [] = parsed
parse_results targets parsed (result ∷ results) =
    parse_results targets
      (parse_lines targets (parse_object targets parsed result) (split_lines result.content))
      results

-- `_extract_columns_from_results`
unfoldable pub extract_columns_from_results : List Found → List Text → Dict Text (List Text)
unfolding parse_results
extract_columns_from_results results target_tables =
    let targets = normalized_names target_tables in
    if some_in targets then parse_results targets [] results else []

-- The loop of `_extract_columns_from_column_results`.
unfoldable pub collect_columns : Dict Text (List Text) → List Found → Dict Text (List Text)
collect_columns parsed [] = parsed
collect_columns parsed (result ∷ results) =
    let table =
      normalize_table_name
        (or_else (meta result (codes "table_name")) (meta result (codes "object_name"))) in
    let column = strip_of is_quote (strip (meta result (codes "column_name"))) in
    let old : List Text = elim (Dict.get parsed table) [ none ↦ [] | some columns ↦ columns ] in
    collect_columns
      (if nonempty table && nonempty column
        then Dict.put parsed table (merge_ordered_strings old (column ∷ []))
        else parsed)
      results

-- `_extract_columns_from_column_results`
unfoldable pub extract_columns_from_column_results : List Found → Dict Text (List Text)
unfolding collect_columns
extract_columns_from_column_results = collect_columns []

-- A table of two lines, of which the second is not one of the tables asked for.
abbrev summary : Found
summary = record {
  content = codes "Orders: id (int), `total` [decimal]\nnotes: free text";
  metadata = [];
}

reads_columns :
    extract_columns_from_results (summary ∷ []) (codes "orders" ∷ [])
    ≡ (codes "orders", codes "id" ∷ codes "total" ∷ []) ∷ []
unfolding extract_columns_from_results normalized_names normalize_table_name is_line_end is_word
    drop_while is_space lower_char split_on Dict.put Dict.get
reads_columns = refl

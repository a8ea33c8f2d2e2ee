-- ===== src/Generation/Deterministic.antt =====
-- `build_deterministic_sql` of generation/sql_generator.py, with the choice of its columns. The clause
-- that `_build_deterministic_filter_clause` reads off the configured rules is an argument.
pub mod Laws
pub mod Template
use nl2sqlcopy.Prelude.{
  ℕ, zero, suc, ◌+◌, ◌-◌, ◌*◌, max, min, Bool, true, false, not, ◌&&◌, ◌||◌, Option, none, some,
  List, [], ◌∷◌, ◌++◌, map, ◌==◌, eqb, leb, ltb, any, all, filter, take, length, if◌then◌else◌,
}
use mathlib.Core.List.{reverse}
use nl2sqlcopy.Dict
use nl2sqlcopy.Dict.{Dict}
use nl2sqlcopy.Text.{
  Text, codes, text_eq, nonempty, lower, split_on, keep_nonempty, join, replace, decimal,
}
use nl2sqlcopy.Agent.Names.{member, starts_with, has_part, add_new}
use nl2sqlcopy.Agent.Planner.{some_in, list_or, keys}
use nl2sqlcopy.Agent.Mentions.{is_word}
use nl2sqlcopy.Agent.Confidence.{distinct}
use nl2sqlcopy.Generation.Extract.{columns_or_none}
use nl2sqlcopy.Generation.References.{is_sql_name}
use nl2sqlcopy.Generation.Wording.{
  quote_identifier, is_digit, number_onto, first_count, count_in, is_plain, match_words, ends,
  but_last, singularize, ends_in_vowel_y, pluralize, with_last, aliases_for, padded, query_text,
  mentions_singular, alias_scores, table_score, best_table, choose_explicit_table, clamp, limit_of,
  deterministic_limit,
}

abbrev preferred_columns : List Text
preferred_columns =
    codes "created_at"
    ∷ codes "updated_at"
    ∷ codes "date"
    ∷ codes "modified_at"
    ∷ codes "last_updated"
    ∷ codes "id"
    ∷ []

-- `lookup.get(preferred)`: the last column with that name in small letters
unfoldable pub last_named : Text → List Text → Option Text → Option Text
last_named wanted [] found = found
last_named wanted (column ∷ columns) found =
    last_named wanted columns (if lower column == wanted then some column else found)

abbrev named_columns : Option Text → List Text
named_columns none = []
named_columns (some column) = if nonempty column then column ∷ [] else []

unfoldable pub preferred_of : List Text → List Text → List Text
unfolding last_named
preferred_of columns [] = []
preferred_of columns (wanted ∷ more) =
    named_columns (last_named wanted columns none) ++ preferred_of columns more

abbrev is_dated : Text → Bool
is_dated column = any (has_part (lower column)) (codes "date" ∷ codes "time" ∷ codes "_at" ∷ [])

-- The loop over the columns, up to four.
unfoldable pub dated_onto : List Text → List Text → List Text
dated_onto ordered [] = ordered
dated_onto ordered (column ∷ columns) =
    let ordered' = if is_dated column then ordered ++ column ∷ [] else ordered in
    let skipped = dated_onto ordered columns in
    let rest = dated_onto ordered' columns in
    if member column ordered then skipped else if leb 4 (length ordered') then ordered' else rest

-- `_best_recent_order_columns`
unfoldable pub best_recent_order_columns : List Text → List Text
unfolding preferred_of dated_onto
best_recent_order_columns columns = dated_onto (preferred_of columns preferred_columns) columns

-- `add` of `_select_listing_columns`, for the columns that meet a test
abbrev pub add_column : List Text → Text → List Text
add_column selected column =
    if not (member column selected) && ltb (length selected) 8
    then selected ++ column ∷ []
    else selected

unfoldable pub add_columns : (Text → Bool) → List Text → List Text → List Text
add_columns test selected [] = selected
add_columns test selected (column ∷ columns) =
    add_columns test (if test column then add_column selected column else selected) columns

abbrev pub is_id : Text → Bool
is_id column = lower column == codes "id" || ends (lower column) (codes "_id")

abbrev telling_fragments : List Text
telling_fragments =
    codes "name"
    ∷ codes "title"
    ∷ codes "subject"
    ∷ codes "status"
    ∷ codes "type"
    ∷ codes "number"
    ∷ codes "no"
    ∷ codes "code"
    ∷ codes "amount"
    ∷ codes "total"
    ∷ []

abbrev pub is_telling : Text → Bool
is_telling column = any (has_part (lower column)) telling_fragments

-- `_is_audit_column`
abbrev audit_columns : List Text
audit_columns =
    codes "created_by"
    ∷ codes "created_at"
    ∷ codes "creator"
    ∷ codes "creator_id"
    ∷ codes "last_updated"
    ∷ codes "modified_at"
    ∷ codes "modified_by"
    ∷ codes "updated_at"
    ∷ codes "updated_by"
    ∷ []

abbrev pub is_no_audit : Text → Bool
is_no_audit column = not (member (lower column) audit_columns)

abbrev pub every : Text → Bool
every column = true

-- `_select_listing_columns` with its limit of eight: a loop that is full adds nothing.
unfoldable pub select_listing_columns : List Text → List Text → List Text
unfolding add_columns
select_listing_columns columns order_columns =
    let ids = add_columns is_id [] columns in
    let telling = add_columns is_telling ids columns in
    let ordered = add_columns every telling (take 1 order_columns) in
    let selected = add_columns is_no_audit ordered columns in
    take 8 (list_or selected (take 8 columns))

abbrev recent_terms : List Text
recent_terms = codes "recent" ∷ codes "latest" ∷ codes "newest" ∷ codes "last" ∷ []

abbrev is_some : Option ℕ → Bool
is_some none = false
is_some (some n) = true

unfoldable pub is_recent_style : Text → Bool
unfolding count_in
is_recent_style query = is_some (count_in query) || any (has_part (lower query)) recent_terms

-- The text of the SELECT with its clause and its limit.
unfoldable pub render : Text → List Text → Text → ℕ → Text
unfolding quote_identifier
render table columns clause limit =
    codes "SELECT "
    ++ (join (codes ", ") (map quote_identifier columns)
        ++ (codes " FROM "
            ++ (quote_identifier table ++ (clause ++ (codes " LIMIT " ++ decimal limit)))))

abbrev order_clause : List Text → Text
order_clause columns =
    codes " ORDER BY "
    ++ join (codes ", ") (map (λ column. quote_identifier column ++ codes " DESC") columns)

-- `allowed_columns.get(target_table) or allowed_columns.get(target_table.lower())`
abbrev pub columns_for : Dict Text (List Text) → Text → List Text
columns_for allowed_columns table =
    list_or (columns_or_none (Dict.get allowed_columns table))
      (columns_or_none (Dict.get allowed_columns (lower table)))

abbrev where_of : Option Text → Option Text
where_of none = none
where_of (some clause) = if nonempty clause then some (codes " WHERE " ++ clause) else none

-- The clause: the order of recent rows, or a filter.
unfoldable pub clause_for : (Text → List Text → Option Text) → Text → List Text → Option Text
unfolding best_recent_order_columns is_recent_style
clause_for filter_clause query columns =
    let order = best_recent_order_columns columns in
    if is_recent_style query
    then (if some_in order then some (order_clause order) else none)
    else where_of (filter_clause query columns)

-- The columns that are selected, for a query on recent rows or another.
unfoldable pub selected_for : Text → List Text → List Text
unfolding select_listing_columns
selected_for query columns =
    select_listing_columns columns
      (if is_recent_style query then best_recent_order_columns columns else [])

-- The template over its parts, where there are columns and a clause.
abbrev pub fill : Text → List Text → Option Text → ℕ → Option (Text × List Text)
fill table selected none limit = none
fill table selected (some clause) limit =
    if some_in selected then some (render table selected clause limit, table ∷ []) else none

abbrev pub sql_for :
    (Text → List Text → Option Text)
    → Text
    → Dict Text (List Text)
    → ℕ
    → Option Text
    → Option (Text × List Text)
sql_for filter_clause query allowed_columns top_k none = none
sql_for filter_clause query allowed_columns top_k (some table) =
    let columns = columns_for allowed_columns table in
    let filled =
      fill table (selected_for query columns) (clause_for filter_clause query columns)
        (deterministic_limit query top_k table) in
    if some_in columns then filled else none

unfoldable pub build_deterministic_sql :
    (Text → List Text → Option Text) → Text → Dict Text (List Text) → ℕ → Option (Text × List Text)
build_deterministic_sql filter_clause query allowed_columns top_k =
    sql_for filter_clause query allowed_columns top_k
      (choose_explicit_table query (keys allowed_columns))

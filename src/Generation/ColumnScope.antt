-- ===== src/Generation/ColumnScope.antt =====
-- `validate_columns_used` of generation/sql_generator.py, and what its warning says.
use nl2sqlcopy.Prelude.{
  Bool, ◌&&◌, ◌||◌, Option, none, some, List, [], ◌∷◌, ◌++◌, map, ◌==◌, if◌then◌else◌,
}
use nl2sqlcopy.Dict
use nl2sqlcopy.Dict.{Dict}
use nl2sqlcopy.Text.{Text, codes, text_eq, nonempty, lower}
use nl2sqlcopy.Agent.Actions.{SqlWarning, other}
use nl2sqlcopy.Agent.Names.{member}
use nl2sqlcopy.Agent.Planner.{some_in, keys}
use nl2sqlcopy.Generation.Tokens.{plain_table_name}
use nl2sqlcopy.Generation.Safety.{Sqlparse}
use nl2sqlcopy.Generation.Tables.{repr_list}
use nl2sqlcopy.Generation.Aliases.{Aliases}
use nl2sqlcopy.Generation.References.{Reference, aliases_in, extract_column_references}

-- `normalized_allowed`
unfoldable pub normalized_allowed :
    Dict Text (List Text) → Dict Text (List Text) → Dict Text (List Text)
normalized_allowed allowed [] = allowed
normalized_allowed allowed ((table, columns) ∷ more) =
    let name = plain_table_name table in
    normalized_allowed
      (if nonempty name && some_in columns
        then Dict.put allowed (lower name) (map lower columns)
        else allowed)
      more

-- `allowed_column_names`
unfoldable pub column_names_of : Dict Text (List Text) → List Text
column_names_of [] = []
column_names_of ((table, columns) ∷ allowed) = columns ++ column_names_of allowed

abbrev add_unknown : Text → List Text → List Text
add_unknown name unknown = if member name unknown then unknown else unknown ++ name ∷ []

abbrev pub resolved : Option Text → Text → Text
resolved none key = key
resolved (some table) key = table

-- The columns of the table that qualifies a reference, where it is one that is allowed.
abbrev pub table_columns : Dict Text (List Text) → Aliases → Option Text → Option (List Text)
table_columns allowed aliases none = none
table_columns allowed aliases (some qualifier) =
    let key = lower (plain_table_name qualifier) in
    if nonempty qualifier then Dict.get allowed (resolved (Dict.get aliases key) key) else none

abbrev pub qualified : Option Text → Text → Text
qualified none column = column
qualified (some qualifier) column = qualifier ++ (codes "." ++ column)

-- The unknown columns after a reference, of which the columns of its table are known or not.
abbrev pub check_in : Option (List Text) → List Text → Reference → List Text → List Text
check_in (some columns) names (qualifier, column) unknown =
    if member (lower column) columns
    then unknown
    else add_unknown (qualified qualifier column) unknown
check_in none names (qualifier, column) unknown =
    if member (lower column) names then unknown else add_unknown column unknown

unfoldable pub check_reference : Dict Text (List Text) → Aliases → Reference → List Text → List Text
check_reference allowed aliases reference unknown =
    let columns = table_columns allowed aliases reference.0 in
    if lower reference.1 == codes "*"
    then unknown
    else check_in columns (column_names_of allowed) reference unknown

unfoldable pub check_references :
    Dict Text (List Text) → Aliases → List Reference → List Text → List Text
check_references allowed aliases [] unknown = unknown
check_references allowed aliases (reference ∷ references) unknown =
    check_references allowed aliases references (check_reference allowed aliases reference unknown)

abbrev pub unknown_columns : List Text → List Text → List SqlWarning
unknown_columns [] tables = []
unknown_columns (column ∷ columns) tables =
    record {
      code = other "COLUMN_OUT_OF_SCOPE";
      message =
          codes "Unknown columns: "
          ++ (repr_list (column ∷ columns)
              ++ (codes ". Allowed columns are loaded for: " ++ repr_list tables));
    }
    ∷ []

abbrev pub column_verdict :
    Dict Text (List Text) → Option Aliases → Option (List Reference) → Option (List SqlWarning)
column_verdict allowed none references = none
column_verdict allowed (some aliases) none = none
column_verdict allowed (some aliases) (some references) =
    some (unknown_columns (check_references allowed aliases references []) (keys allowed))

unfoldable pub validate_columns_used :
    Sqlparse → Text → Dict Text (List Text) → Option (List SqlWarning)
unfolding check_references normalized_allowed
validate_columns_used sqlparse sql allowed_columns =
    let allowed = normalized_allowed [] allowed_columns in
    if some_in allowed
    then column_verdict allowed (aliases_in sqlparse sql) (extract_column_references sqlparse sql)
    else some []

-- Whether a reference is known: every column at once, a column of the table that qualifies it where
-- that one is allowed, and else a column of any table that is.
abbrev known_in : Option (List Text) → List Text → Text → Bool
known_in (some columns) names column = member column columns
known_in none names column = member column names

abbrev pub is_known_column : Dict Text (List Text) → Aliases → Reference → Bool
is_known_column allowed aliases reference =
    lower reference.1 == codes "*"
    || known_in (table_columns allowed aliases reference.0) (column_names_of allowed)
        (lower reference.1)

-- ===== src/Generation/Tables.antt =====
-- `validate_tables_used` of generation/sql_generator.py, over the parser: the tables that SQL reads
-- from, and whether they are in scope. `none` stands for the AttributeError of a list of identifiers
-- that holds a token which is no group.
pub mod Laws
pub mod Verdict
use nl2sqlcopy.Prelude.{
  Bool, true, false, not, ◌&&◌, ◌||◌, Option, none, some, List, [], ◌∷◌, ◌++◌, map, ◌==◌,
  if◌then◌else◌,
}
use nl2sqlcopy.Dict
use nl2sqlcopy.Dict.{Dict}
use nl2sqlcopy.Text.{Text, codes, text_eq, nonempty, or_else, lower, split, join}
use nl2sqlcopy.Agent.Actions.{SqlWarning, other}
use nl2sqlcopy.Agent.Names.{member}
use nl2sqlcopy.Agent.Planner.{some_in}
use nl2sqlcopy.Agent.Reasoning.{text_or}
use nl2sqlcopy.Generation.Tokens.{
  Kind, Class, Names, Token, leaf, group, Tokens, nil, cons, Statement, normalized_upper,
  passed_over, plain_table_name,
}
use nl2sqlcopy.Generation.Safety.{Sqlparse}

-- `_CLAUSE_END_KEYWORDS`
abbrev pub clause_end_keywords : List Text
clause_end_keywords =
    codes "WHERE"
    ∷ codes "ON"
    ∷ codes "GROUP"
    ∷ codes "GROUP BY"
    ∷ codes "ORDER"
    ∷ codes "ORDER BY"
    ∷ codes "HAVING"
    ∷ codes "LIMIT"
    ∷ codes "OFFSET"
    ∷ codes "UNION"
    ∷ codes "EXCEPT"
    ∷ codes "INTERSECT"
    ∷ codes "QUALIFY"
    ∷ codes "WINDOW"
    ∷ []

-- `_is_from_or_join` and `_is_clause_end`
unfoldable pub is_from_or_join : Token → Bool
is_from_or_join token =
    normalized_upper token == codes "FROM" || member (codes "JOIN") (split (normalized_upper token))

unfoldable pub is_clause_end : Token → Bool
is_clause_end token = member (normalized_upper token) clause_end_keywords

-- `_identifier_name`
unfoldable pub identifier_name : Names → Text → Text
identifier_name names value =
    plain_table_name (or_else (text_or names.real_name) (or_else (text_or names.name) value))

abbrev named : Text → List Text
named name = if nonempty name then name ∷ [] else []

-- Both lists, where neither raises.
abbrev pub then_all : Option (List Text) → Option (List Text) → Option (List Text)
then_all none more = none
then_all (some names) none = none
then_all (some names) (some more) = some (names ++ more)

-- `_extract_table_names_from_tokenlist`, and the loop behind a FROM or JOIN.
unfoldable mutual
  pub table_names : Tokens → Option (List Text)
  table_names nil = some []
  table_names (cons token tokens) =
      let rest = table_names tokens in
      let after = after_from tokens in
      then_all (inner_names token) (if is_from_or_join token then after else rest)

  pub after_from : Tokens → Option (List Text)
  after_from nil = some []
  after_from (cons candidate tokens) =
      let rest = table_names tokens in
      let next = after_from tokens in
      let here = candidate_names candidate in
      if passed_over candidate
      then next
      else if is_clause_end candidate
      then rest
      else then_all here rest

  pub inner_names : Token → Option (List Text)
  inner_names (leaf kind value normalized) = some []
  inner_names (group class value normalized names tokens identifiers) = table_names tokens

  -- `_tables_from_candidate`
  pub candidate_names : Token → Option (List Text)
  candidate_names (group Class.identifier_list value normalized names tokens identifiers) =
      all_names identifiers
  candidate_names (group Class.identifier value normalized names tokens identifiers) =
      parenthesis_or tokens (identifier_name names value)
  candidate_names (group class value normalized names tokens identifiers) = table_names tokens
  candidate_names (leaf Kind.name value normalized) = some (value ∷ [])
  candidate_names (leaf Kind.keyword value normalized) = some (value ∷ [])
  candidate_names (leaf kind value normalized) = some []

  pub all_names : Tokens → Option (List Text)
  all_names nil = some []
  all_names (cons identifier identifiers) = then_all (one_name identifier) (all_names identifiers)

  -- `_tables_from_identifier`
  pub one_name : Token → Option (List Text)
  one_name (leaf kind value normalized) = none
  one_name (group class value normalized names tokens identifiers) =
      parenthesis_or tokens (identifier_name names value)

  -- The tables of the first parenthesis, or the name of the identifier.
  pub parenthesis_or : Tokens → Text → Option (List Text)
  parenthesis_or nil name = some (named name)
  parenthesis_or (cons (group Class.parenthesis value normalized names inner identifiers) tokens)
        name =
      table_names inner
  parenthesis_or (cons token tokens) name = parenthesis_or tokens name

-- The names of the identifiers of a WITH, in small letters.
unfoldable pub identifier_names : Tokens → Option (List Text)
identifier_names nil = some []
identifier_names (cons (leaf kind value normalized) identifiers) = none
identifier_names (cons (group class value normalized names tokens inner) identifiers) =
    then_all (some (map lower (named (identifier_name names value)))) (identifier_names identifiers)

abbrev cte_names_of : Token → Option (List Text)
cte_names_of (group Class.identifier_list value normalized names tokens identifiers) =
    identifier_names identifiers
cte_names_of (group Class.identifier value normalized names tokens identifiers) =
    some (map lower (named (identifier_name names value)))
cte_names_of token = some []

unfoldable pub names_until_select : Tokens → Option (List Text)
unfolding identifier_names
names_until_select nil = some []
names_until_select (cons token tokens) =
    let rest = names_until_select tokens in
    if passed_over token
    then rest
    else if normalized_upper token == codes "SELECT"
    then some []
    else then_all (cte_names_of token) rest

-- `_collect_cte_names`
unfoldable pub cte_names : Tokens → Option (List Text)
unfolding names_until_select
cte_names nil = some []
cte_names (cons token tokens) =
    let rest = cte_names tokens in
    if passed_over token
    then rest
    else if normalized_upper token == codes "WITH"
    then names_until_select tokens
    else some []

-- `allowed_lookup`
unfoldable pub allowed_lookup : Dict Text Text → List Text → Dict Text Text
allowed_lookup lookup [] = lookup
allowed_lookup lookup (table ∷ tables) =
    let name = plain_table_name table in
    allowed_lookup (if nonempty name then Dict.put lookup (lower name) name else lookup) tables

-- A name goes to the tables in use, under the name that is allowed, or to those that are unknown,
-- unless it is a common table's.
abbrev pub place : Option Text → Text → List Text → List Text × List Text → List Text × List Text
place (some allowed) name ctes (used, unknown) =
    (if member allowed used then used else used ++ allowed ∷ [], unknown)
place none name ctes (used, unknown) = (
  used,
  if member (lower name) ctes || member name unknown then unknown else unknown ++ name ∷ [],
)

unfoldable pub sort_table :
    Dict Text Text → List Text → Text → List Text × List Text → List Text × List Text
sort_table lookup ctes table sorted =
    let name = plain_table_name table in
    if nonempty name then place (Dict.get lookup (lower name)) name ctes sorted else sorted

unfoldable pub sort_tables :
    Dict Text Text → List Text → List Text → List Text × List Text → List Text × List Text
sort_tables lookup ctes [] sorted = sorted
sort_tables lookup ctes (table ∷ tables) sorted =
    sort_tables lookup ctes tables (sort_table lookup ctes table sorted)

-- A list of names as Python writes it, where no name holds a quote or a backslash.
abbrev pub repr_list : List Text → Text
repr_list names =
    codes "[" ++ (join (codes ", ") (map (λ n. codes "'" ++ (n ++ codes "'")) names) ++ codes "]")

abbrev pub out_of_scope : List Text → List Text → List SqlWarning
out_of_scope [] tables_in_scope = []
out_of_scope unknown tables_in_scope =
    record {
      code = other "TABLE_OUT_OF_SCOPE";
      message =
          codes "Unknown tables: "
          ++ (repr_list unknown ++ (codes ". Allowed: " ++ repr_list tables_in_scope));
    }
    ∷ []

-- Of every statement, the names together.
unfoldable pub of_statements : (Tokens → Option (List Text)) → List Statement → Option (List Text)
of_statements read [] = some []
of_statements read (statement ∷ statements) =
    then_all (read statement.tokens) (of_statements read statements)

abbrev pub verdict_on : List Text → List Text → List Text → List Text × List SqlWarning
verdict_on tables_in_scope ctes found =
    let (used, unknown) = sort_tables (allowed_lookup [] tables_in_scope) ctes found ([], []) in
    (used, out_of_scope unknown tables_in_scope)

-- The verdict, where both can be read.
abbrev pub judged :
    List Text → Option (List Text) → Option (List Text) → Option (List Text × List SqlWarning)
judged tables_in_scope none found = none
judged tables_in_scope (some ctes) none = none
judged tables_in_scope (some ctes) (some found) = some (verdict_on tables_in_scope ctes found)

module _ (sqlparse : Sqlparse) where
  abbrev pub ctes_in : Text → Option (List Text)
  ctes_in sql = of_statements cte_names (sqlparse.parse sql)

  abbrev pub tables_in : Text → Option (List Text)
  tables_in sql = of_statements table_names (sqlparse.parse sql)

  unfoldable pub validate_tables_used : Text → List Text → Option (List Text × List SqlWarning)
  unfolding of_statements sort_tables allowed_lookup
  validate_tables_used sql tables_in_scope = judged tables_in_scope (ctes_in sql) (tables_in sql)

-- ===== src/Generation/References.antt =====
-- `_extract_column_references` of generation/sql_generator.py: the names in SQL that may be columns,
-- with the names that qualify them.
use nl2sqlcopy.Prelude.{
  Bool, true, false, not, ◌&&◌, ◌||◌, Option, none, some, List, [], ◌∷◌, ◌++◌, map, ◌==◌, eqb, leb,
  any, filter, if◌then◌else◌,
}
use nl2sqlcopy.Text.{Text, codes, text_eq, nonempty, lower}
use nl2sqlcopy.Agent.Names.{member}
use nl2sqlcopy.Agent.Mentions.{is_word}
use nl2sqlcopy.Generation.Tokens.{
  Kind, Token, leaf, Statement, upper, value_of, normalized_upper, is_whitespace, passed_over,
  flatten, plain_table_name,
}
use nl2sqlcopy.Generation.Safety.{Sqlparse}
use nl2sqlcopy.Generation.Tables.{ctes_in, tables_in}
use nl2sqlcopy.Generation.Aliases.{Aliases, statement_aliases}

-- `_COLUMN_NAME_SKIP_KEYWORDS`
abbrev pub skip_keywords : List Text
skip_keywords =
    codes "ALL"
    ∷ codes "AND"
    ∷ codes "AS"
    ∷ codes "ASC"
    ∷ codes "BETWEEN"
    ∷ codes "BY"
    ∷ codes "CASE"
    ∷ codes "CAST"
    ∷ codes "COUNT"
    ∷ codes "CURRENT_DATE"
    ∷ codes "CURRENT_TIMESTAMP"
    ∷ codes "DATE"
    ∷ codes "DAY"
    ∷ codes "DESC"
    ∷ codes "DISTINCT"
    ∷ codes "ELSE"
    ∷ codes "END"
    ∷ codes "EXISTS"
    ∷ codes "FALSE"
    ∷ codes "FROM"
    ∷ codes "GROUP"
    ∷ codes "HAVING"
    ∷ codes "IN"
    ∷ codes "INNER"
    ∷ codes "INTERVAL"
    ∷ codes "IS"
    ∷ codes "JOIN"
    ∷ codes "LEFT"
    ∷ codes "LIKE"
    ∷ codes "LIMIT"
    ∷ codes "MONTH"
    ∷ codes "NOT"
    ∷ codes "NULL"
    ∷ codes "ON"
    ∷ codes "OR"
    ∷ codes "ORDER"
    ∷ codes "OUTER"
    ∷ codes "RIGHT"
    ∷ codes "SELECT"
    ∷ codes "SUM"
    ∷ codes "THEN"
    ∷ codes "TRUE"
    ∷ codes "WHEN"
    ∷ codes "WHERE"
    ∷ codes "WITH"
    ∷ codes "YEAR"
    ∷ []

-- `_should_skip_column_token`
unfoldable pub should_skip : Token → Bool
should_skip (leaf Kind.number value normalized) = true
should_skip (leaf Kind.keyword value normalized) = true
should_skip (leaf Kind.punctuation value normalized) = true
should_skip (leaf Kind.operator value normalized) = true
should_skip (leaf Kind.wildcard value normalized) = true
should_skip token = passed_over token

-- `_SQL_NAME_RE` behind its first character: its `$` also matches before a line feed at the end.
abbrev pub is_sql_tail : Text → Bool
is_sql_tail [] = true
is_sql_tail (d ∷ s) = ((is_word d || eqb d b'$') && is_sql_tail s) || (eqb d 10 && not (nonempty s))

-- `_SQL_NAME_RE`
abbrev pub is_sql_name : Text → Bool
is_sql_name [] = false
is_sql_name (c ∷ s) = (is_word c && not (leb b'0' c && leb c b'9')) && is_sql_tail s

-- `_previous_meaningful` on the tokens before, the nearest first, and `_next_meaningful` on those
-- behind.
unfoldable pub nearest_meaningful : List Token → Option Token
nearest_meaningful [] = none
nearest_meaningful (token ∷ tokens) =
    let rest = nearest_meaningful tokens in if passed_over token then rest else some token

abbrev value_or : Option Token → Text
value_or none = []
value_or (some token) = value_of token

abbrev names_a_table : Option Token → Bool
names_a_table none = false
names_a_table (some token) =
    member (normalized_upper token)
      (codes "AS" ∷ codes "FROM" ∷ codes "JOIN" ∷ codes "INTO" ∷ codes "UPDATE" ∷ [])

abbrev tail : List Token → List Token
tail [] = []
tail (token ∷ tokens) = tokens

-- The name in front of the dot.
unfoldable pub qualifier_of : List Token → Option Text
qualifier_of before =
    if value_or (nearest_meaningful before) == codes "."
    then elim (nearest_meaningful (tail before)) [
      | none ↦ none
      | some token ↦ some (plain_table_name (value_of token))
    ]
    else none

-- A reference: its qualifier, if any, and its name.
abbrev pub Reference : Type 0
Reference = Option Text × Text

abbrev same_qualifier : Option Text → Option Text → Bool
same_qualifier none none = true
same_qualifier (some q) (some r) = q == r
same_qualifier _ _ = false

abbrev same_reference : Reference → Reference → Bool
same_reference a b = same_qualifier a.0 b.0 && a.1 == b.1

-- Whether a token is taken for a column, between the tokens before and behind it.
unfoldable pub is_column : List Text → List Token → Token → List Token → Bool
unfolding should_skip nearest_meaningful
is_column skip_names before token behind =
    let name = plain_table_name (value_of token) in
    let next = value_or (nearest_meaningful behind) in
    not (should_skip token)
    && (is_sql_name name
        && (not (member (upper name) skip_keywords || member (lower name) skip_names)
            && (not (next == codes "(" || next == codes ".")
                && not (names_a_table (nearest_meaningful before)))))

-- The loop over the tokens, with those before, the nearest first.
unfoldable pub references_from :
    List Text → List Token → List Token → List Reference → List Reference
unfolding is_column qualifier_of
references_from skip_names before [] references = references
references_from skip_names before (token ∷ behind) references =
    let reference : Reference = (qualifier_of before, plain_table_name (value_of token)) in
    references_from skip_names (token ∷ before) behind (
      if is_column skip_names before token behind && not (any (same_reference reference) references)
      then references ++ reference ∷ []
      else references)

unfoldable pub references_of : List Text → List Statement → List Reference → List Reference
unfolding references_from
references_of skip_names [] references = references
references_of skip_names (statement ∷ statements) references = references_of skip_names statements (
    references_from skip_names [] (filter (λ t. not (is_whitespace t)) (flatten statement.tokens))
      references)

-- The names that are no columns: of common tables, of tables and of aliases.
abbrev pub skipped : Option (List Text) → Option (List Text) → Option Aliases → Option (List Text)
skipped none tables aliases = none
skipped (some ctes) none aliases = none
skipped (some ctes) (some tables) none = none
skipped (some ctes) (some tables) (some aliases) = some (
    ctes
    ++ (map (λ t. lower (plain_table_name t)) (filter (λ t. nonempty (plain_table_name t)) tables)
        ++ map (λ entry. entry.0) aliases))

module _ (sqlparse : Sqlparse) where
  -- `_extract_table_aliases`
  abbrev pub aliases_in : Text → Option Aliases
  aliases_in sql = statement_aliases (sqlparse.parse sql)

  unfoldable pub extract_column_references : Text → Option (List Reference)
  unfolding references_of statement_aliases
  extract_column_references sql =
      elim (skipped (ctes_in sqlparse sql) (tables_in sqlparse sql) (aliases_in sql)) [
        | none ↦ none
        | some skip_names ↦ some (references_of skip_names (sqlparse.parse sql) [])
      ]

-- ===== src/Generation/Aliases.antt =====
-- `_extract_table_aliases` of generation/sql_generator.py: the names under which SQL refers to its
-- tables. `none` stands for the AttributeError of a list of identifiers that holds a token which is
-- no group.
use nl2sqlcopy.Prelude.{Option, none, some, List, [], ◌∷◌, if◌then◌else◌}
use nl2sqlcopy.Dict
use nl2sqlcopy.Dict.{Dict}
use nl2sqlcopy.Text.{Text, text_eq, nonempty, or_else, lower}
use nl2sqlcopy.Agent.Reasoning.{text_or}
use nl2sqlcopy.Generation.Tokens.{
  Kind, Class, Names, Token, leaf, group, Tokens, nil, cons, Statement, passed_over,
  plain_table_name,
}
use nl2sqlcopy.Generation.Tables.{is_from_or_join, is_clause_end}

abbrev pub Aliases : Type 0
Aliases = Dict Text Text

-- `aliases.update(more)`
unfoldable pub update_with : Aliases → Aliases → Aliases
update_with aliases [] = aliases
update_with aliases ((alias, table) ∷ more) = update_with (Dict.put aliases alias table) more

-- Both, where neither raises: the later ones win.
abbrev pub then_aliases : Option Aliases → Option Aliases → Option Aliases
then_aliases none more = none
then_aliases (some aliases) none = none
then_aliases (some aliases) (some more) = some (update_with aliases more)

abbrev own_name : Text → Aliases
own_name table = if nonempty table then (table, table) ∷ [] else []

-- The table and its alias, as `_table_aliases_from_identifier` has them.
unfoldable pub aliases_of_names : Names → Aliases
unfolding update_with
aliases_of_names names =
    let table = plain_table_name (text_or names.real_name) in
    let alias = lower (plain_table_name (or_else (text_or names.alias) table)) in
    if nonempty table
    then (if nonempty alias
        then Dict.put (own_name (lower table)) alias (lower table)
        else own_name (lower table))
    else []

-- `_extract_table_aliases_from_tokenlist`, and the loop behind a FROM or JOIN.
unfoldable mutual
  pub table_aliases : Tokens → Option Aliases
  table_aliases nil = some []
  table_aliases (cons token tokens) =
      let rest = table_aliases tokens in
      let after = aliases_after_from tokens in
      then_aliases (inner_aliases token) (if is_from_or_join token then after else rest)

  pub aliases_after_from : Tokens → Option Aliases
  aliases_after_from nil = some []
  aliases_after_from (cons candidate tokens) =
      let rest = table_aliases tokens in
      let next = aliases_after_from tokens in
      let here = candidate_aliases candidate in
      if passed_over candidate
      then next
      else if is_clause_end candidate
      then rest
      else then_aliases here rest

  pub inner_aliases : Token → Option Aliases
  inner_aliases (leaf kind value normalized) = some []
  inner_aliases (group class value normalized names tokens identifiers) = table_aliases tokens

  -- `_table_aliases_from_candidate`
  pub candidate_aliases : Token → Option Aliases
  candidate_aliases (group Class.identifier_list value normalized names tokens identifiers) =
      all_aliases identifiers
  candidate_aliases (group Class.identifier value normalized names tokens identifiers) =
      parenthesis_aliases tokens names
  candidate_aliases (group class value normalized names tokens identifiers) = table_aliases tokens
  candidate_aliases (leaf Kind.name value normalized) =
      some (own_name (lower (plain_table_name value)))
  candidate_aliases (leaf Kind.keyword value normalized) =
      some (own_name (lower (plain_table_name value)))
  candidate_aliases (leaf kind value normalized) = some []

  pub all_aliases : Tokens → Option Aliases
  all_aliases nil = some []
  all_aliases (cons identifier identifiers) =
      then_aliases (one_alias identifier) (all_aliases identifiers)

  -- `_table_aliases_from_identifier`
  pub one_alias : Token → Option Aliases
  one_alias (leaf kind value normalized) = none
  one_alias (group class value normalized names tokens identifiers) =
      parenthesis_aliases tokens names

  pub parenthesis_aliases : Tokens → Names → Option Aliases
  parenthesis_aliases nil names = some (aliases_of_names names)
  parenthesis_aliases (cons (group Class.parenthesis value normalized own inner identifiers) tokens)
        names =
      table_aliases inner
  parenthesis_aliases (cons token tokens) names = parenthesis_aliases tokens names

-- `_extract_table_aliases`, over the statements of the parser
unfoldable pub statement_aliases : List Statement → Option Aliases
statement_aliases [] = some []
statement_aliases (statement ∷ statements) =
    then_aliases (table_aliases statement.tokens) (statement_aliases statements)

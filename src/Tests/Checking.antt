-- ===== src/Tests/Checking.antt =====
-- The checks of SQL at a parse of one query, and the theorems at it.
use nl2sqlcopy.Prelude.{◌≡◌, refl, ◌≤◌, none, some, Option, List, [], ◌∷◌, true, length}
use nl2sqlcopy.Text.{Text, codes, nonempty, strip, drop_while, is_space}
use nl2sqlcopy.Agent.Parser.{upper_char}
use nl2sqlcopy.Agent.Names.Merging.{no_repeats}
use nl2sqlcopy.Generation.Tokens.{
  Kind, Class, Names, Token, leaf, group, nil, cons, Statement, flatten, passed_over,
}
use nl2sqlcopy.Generation.Safety.{
  Sqlparse, validate_sql_safety, validate_sql_safety-passes, statements_of, Harmless,
  is_destructive,
}
use nl2sqlcopy.Dict
use nl2sqlcopy.Dict.{Dict}
use nl2sqlcopy.Generation.Aliases.{Aliases}
use nl2sqlcopy.Generation.References.{Reference}
use nl2sqlcopy.Generation.Deterministic.{build_deterministic_sql}
use nl2sqlcopy.Generation.Suggestions.{
  build_schema_derived_suggestions, build_schema_derived_suggestions-three,
}

abbrev pub query : Text
query = codes "SELECT total FROM Orders, notes"

abbrev plain : Text → Names
plain word = record { real_name = some word; name = some word; alias = none }

abbrev word : Text → Token
word w = group Class.identifier w w (plain w) (cons (leaf Kind.name w w) nil) nil

abbrev blank : Token
blank = leaf Kind.whitespace (codes " ") (codes " ")

abbrev keyword : Text → Token
keyword w = leaf Kind.keyword w w

abbrev tables : Token
tables =
    group Class.identifier_list (codes "Orders, notes") (codes "Orders, notes") (plain [])
      (cons (word (codes "Orders")) (
        cons (leaf Kind.punctuation (codes ",") (codes ","))
          (cons blank (cons (word (codes "notes")) nil))))
      (cons (word (codes "Orders")) (cons (word (codes "notes")) nil))

abbrev statement : Statement
statement = record {
  type = codes "SELECT";
  value = query;
  tokens = cons (keyword (codes "SELECT")) (
      cons blank (
        cons (word (codes "total"))
          (cons blank (cons (keyword (codes "FROM")) (cons blank (cons tables nil))))));
}

-- A parser that finds this statement.
abbrev pub parser : Sqlparse
parser = record { split = λ sql. sql ∷ []; parse = λ sql. statement ∷ [] }

passes_run : validate_sql_safety parser query ≡ []
unfolding validate_sql_safety drop_while is_space flatten is_destructive passed_over upper_char
passes_run = refl

validate_sql_safety-passes_example :
    (nonempty (strip query) ≡ true)
    × (length (statements_of parser query) ≤ 1)
    × Harmless parser (parser.parse (strip query))
validate_sql_safety-passes_example = validate_sql_safety-passes parser query passes_run

abbrev scope : List Text
scope = codes "orders" ∷ []

abbrev found : List Text
found = codes "Orders" ∷ codes "notes" ∷ []

build_schema_derived_suggestions-three_example :
    (length (build_schema_derived_suggestions scope) ≡ 3)
    × (no_repeats (build_schema_derived_suggestions scope) ≡ true)
build_schema_derived_suggestions-three_example = build_schema_derived_suggestions-three scope

abbrev given : Dict Text (List Text)
given = (codes "orders", codes "id" ∷ codes "total" ∷ []) ∷ []

abbrev aliases : Aliases
aliases = (codes "orders", codes "orders") ∷ (codes "notes", codes "notes") ∷ []

abbrev references : List Reference
references = (none, codes "total") ∷ []

abbrev no_filter : Text → List Text → Option Text
no_filter _ _ = none

abbrev template : Option (Text × List Text)
template = build_deterministic_sql no_filter (codes "latest 3 orders") given 5

abbrev rendered : Text
rendered = codes "SELECT id, total FROM orders ORDER BY id DESC LIMIT 3"

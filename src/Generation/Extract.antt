-- ===== src/Generation/Extract.antt =====
-- `extract_sql` and `narrow_select_star` of generation/sql_generator.py: the SQL of a reply, and
-- named columns in the place of its star.
use nl2sqlcopy.Prelude.{
  ℕ, ◌≡◌, refl, Bool, true, false, not, ◌&&◌, ◌||◌, Option, none, some, List, [], ◌∷◌, ◌++◌, eqb,
  leb, any, take, if◌then◌else◌,
}
use nl2sqlcopy.Dict
use nl2sqlcopy.Dict.{Dict}
use nl2sqlcopy.Text.{
  Text, codes, text_eq, nonempty, lower, strip, split_on, join, drop_while, is_space, lower_char,
}
use nl2sqlcopy.Agent.Parser.{upper_char}
use nl2sqlcopy.Agent.Names.{starts_with}
use nl2sqlcopy.Agent.Planner.{some_in}
use nl2sqlcopy.Agent.Mentions.{is_word, word_here, mentions}
use nl2sqlcopy.Agent.Columns.{is_line_end}
use nl2sqlcopy.Generation.Tokens.{upper, plain_table_name}

abbrev without_three : Text → Text
without_three (a ∷ b ∷ c ∷ s) = s
without_three s = s

abbrev at_fence : Text → Bool
at_fence s = starts_with s (codes "```")

-- What stands behind the first three backticks, and what stands before the next ones.
unfoldable pub after_fence : Text → Option Text
after_fence [] = none
after_fence (c ∷ s) =
    let rest = after_fence s in if at_fence (c ∷ s) then some (without_three (c ∷ s)) else rest

abbrev onto : ℕ → Option Text → Option Text
onto c none = none
onto c (some body) = some (c ∷ body)

unfoldable pub until_fence : Text → Option Text
until_fence [] = none
until_fence (c ∷ s) = let rest = until_fence s in if at_fence (c ∷ s) then some [] else onto c rest

abbrev without_label : Text → Text
without_label s = if starts_with (lower s) (codes "sql") then without_three s else s

-- `_FENCED_SQL_RE.search`, and the text of its group
unfoldable pub fenced_sql : Text → Option Text
unfolding after_fence until_fence
fenced_sql s = elim (after_fence s) [
  | none ↦ none
  | some rest ↦ elim (until_fence (without_label rest)) [
    | none ↦ none
    | some body ↦ some (strip body)
  ]
]

-- `text.splitlines()` of a text that does not end with a line's end
unfoldable pub one_newline : Text → Text
one_newline [] = []
one_newline (c ∷ s) =
    let rest = one_newline s in if eqb c 13 && starts_with s (codes "\n") then rest else c ∷ rest

-- `^\s*(…)\b` in any case, for some of the words
abbrev pub starts_with_word : List Text → Text → Bool
starts_with_word words s = any (λ word. word_here false word (upper (drop_while is_space s))) words

abbrev starts_sql : Text → Bool
starts_sql line =
    starts_with_word (codes "SELECT" ∷ codes "WITH" ∷ []) line
    || starts_with (drop_while is_space line) (codes "--")

abbrev statement_words : List Text
statement_words =
    codes "SELECT"
    ∷ codes "WITH"
    ∷ codes "DROP"
    ∷ codes "DELETE"
    ∷ codes "TRUNCATE"
    ∷ codes "INSERT"
    ∷ codes "UPDATE"
    ∷ codes "ALTER"
    ∷ codes "CREATE"
    ∷ codes "REPLACE"
    ∷ codes "GRANT"
    ∷ codes "REVOKE"
    ∷ codes "EXEC"
    ∷ codes "EXECUTE"
    ∷ []

-- The lines from the first that starts SQL.
unfoldable pub from_sql : List Text → List Text
from_sql [] = []
from_sql (line ∷ lines) =
    let rest = from_sql lines in if starts_sql line then line ∷ lines else rest

unfoldable pub extract_sql : Text → Text
unfolding fenced_sql one_newline from_sql
extract_sql raw =
    let stripped = strip raw in
    let lines = from_sql (split_on is_line_end (one_newline stripped)) in
    elim (fenced_sql stripped) [
      | some sql ↦ sql
      | none ↦
          if some_in lines
          then strip (join (codes "\n") lines)
          else if starts_with_word statement_words stripped
          then stripped
          else []
    ]

-- `_query_requests_all_columns`
unfoldable pub requests_all_columns : Text → Bool
requests_all_columns query =
    any (λ phrase. mentions phrase (lower query))
      (codes "all columns"
        ∷ codes "every column"
        ∷ codes "full details"
        ∷ codes "complete details"
        ∷ codes "full row"
        ∷ codes "raw rows"
        ∷ codes "select star"
        ∷ [])

-- The longest prefix that meets a test, and the rest.
unfoldable pub span : (ℕ → Bool) → Text → Text × Text
span test [] = ([], [])
span test (c ∷ s) =
    let (front, rest) = span test s in if test c then (c ∷ front, rest) else ([], c ∷ s)

-- A word in any case with the blanks behind it, of which there is at least one.
unfoldable pub word_and_blanks : Text → Text → Option (Text × Text)
unfolding span
word_and_blanks [] s =
    let (blanks, rest) = span is_space s in if nonempty blanks then some (blanks, rest) else none
word_and_blanks (d ∷ word) [] = none
word_and_blanks (d ∷ word) (c ∷ s) =
    let rest = word_and_blanks word s in
    if eqb (upper_char c) d
    then elim rest [ none ↦ none | some (front, behind) ↦ some (c ∷ front, behind) ]
    else none

abbrev starts_name : Text → Bool
starts_name [] = false
starts_name (c ∷ s) = is_word c && not (leb b'0' c && leb c b'9')

abbrev backtick : Text → Text × Text
backtick [] = ([], [])
backtick (c ∷ s) = if eqb c b'`' then (codes "`", s) else ([], c ∷ s)

abbrev blank_next : Text → Bool
blank_next [] = true
blank_next (c ∷ s) = is_space c

-- The name of a table with its backticks, and the rest, which is empty or begins with a blank.
unfoldable pub table_and_rest : Text → Option (Text × Text)
table_and_rest s =
    let (opening, s1) = backtick s in
    let (name, s2) = span (λ c. is_word c || eqb c b'$') s1 in
    let (closing, rest) = backtick s2 in
    if starts_name s1 && blank_next rest then some (opening ++ (name ++ closing), rest) else none

-- The parts of `_SIMPLE_SELECT_STAR_RE`: the prefix, FROM, the table and the rest.
unfoldable pub select_star : Text → Option (Text × Text × Text × Text)
unfolding word_and_blanks table_and_rest
select_star s = elim (word_and_blanks (codes "SELECT") s) [
  | none ↦ none
  | some (prefix, s1) ↦ elim (word_and_blanks (codes "*") s1) [
    | none ↦ none
    | some (star, s2) ↦ elim (word_and_blanks (codes "FROM") s2) [
      | none ↦ none
      | some (from, s3) ↦ elim (table_and_rest s3) [
        | none ↦ none
        | some (table, rest) ↦ some (prefix, from, table, rest)
      ]
    ]
  ]
]

abbrev pub columns_or_none : Option (List Text) → List Text
columns_or_none none = []
columns_or_none (some columns) = columns

unfoldable pub narrow_select_star : Text → Dict Text (List Text) → Text → Text
unfolding select_star requests_all_columns
narrow_select_star sql allowed_columns query =
    if requests_all_columns query then sql else elim (select_star (strip sql)) [
      | none ↦ sql
      | some (prefix, from, table, rest) ↦
          (let columns =
              columns_or_none (Dict.get allowed_columns (lower (plain_table_name table))) in
            if some_in columns
            then prefix
              ++ (join (codes ", ") (take 8 columns) ++ (codes " " ++ (from ++ (table ++ rest))))
            else sql)
    ]

extracts_fenced :
    (extract_sql (codes "Here:\n```sql\nSELECT 1\n```") ≡ codes "SELECT 1")
    × (extract_sql (codes "Sure.\n  select a\nfrom b;") ≡ codes "select a\nfrom b;")
    × (extract_sql (codes "no query") ≡ [])
unfolding extract_sql is_line_end word_here is_word upper_char lower_char split_on join drop_while
    is_space
extracts_fenced = (refl, refl, refl)

narrows :
    narrow_select_star
      (codes "select * from `Orders` limit 3")
      ((codes "orders", codes "id" ∷ codes "total" ∷ []) ∷ [])
      (codes "list orders")
    ≡ codes "select id, total from `Orders` limit 3"
unfolding narrow_select_star span mentions word_here is_word upper_char lower_char split_on join
    drop_while is_space plain_table_name Dict.get
narrows = refl

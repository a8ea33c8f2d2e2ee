-- ===== src/Generation/Safety.antt =====
-- `validate_sql_safety` of generation/sql_generator.py, over the parser.
use nl2sqlcopy.Prelude.{
  ◌≡◌, refl, arith, Bool, true, false, not, ◌&&◌, ◌||◌, Option, none, some, List, [], ◌∷◌, ◌++◌,
  filter, length, ltb, ◌≤◌, ◌==◌, all, Bool-cases, inl, inr, if◌then◌else◌,
}
use nl2sqlcopy.Text.{Text, codes, text_eq, nonempty, strip}
use nl2sqlcopy.Agent.Actions.{SqlWarning, other, sql_empty}
use nl2sqlcopy.Agent.Names.{member}
use nl2sqlcopy.Agent.Mentions.{mentions}
use nl2sqlcopy.Agent.Execute.Sql.{info_warnings}
use nl2sqlcopy.Generation.Tokens.{
  Token, Tokens, nil, cons, Statement, upper, value_of, normalized_upper, passed_over, flatten,
}

-- `_DESTRUCTIVE_KEYWORDS`
abbrev pub destructive_keywords : List Text
destructive_keywords =
    codes "DROP"
    ∷ codes "DELETE"
    ∷ codes "TRUNCATE"
    ∷ codes "INSERT"
    ∷ codes "UPDATE"
    ∷ codes "ALTER"
    ∷ codes "CREATE"
    ∷ codes "REPLACE"
    ∷ codes "GRANT"
    ∷ codes "REVOKE"
    ∷ codes "EXEC"
    ∷ codes "EXECUTE"
    ∷ []

-- The word that a token stands for.
abbrev pub word_of : Token → Text
word_of token = upper (strip (value_of token))

-- A destructive word, outside of comments and strings.
unfoldable pub is_destructive : Token → Bool
is_destructive token = not (passed_over token) && member (word_of token) destructive_keywords

-- `_find_destructive_keyword`, over the leaves
unfoldable pub find_destructive : List Token → Option Text
find_destructive [] = none
find_destructive (token ∷ tokens) =
    let rest = find_destructive tokens in
    if is_destructive token then some (word_of token) else rest

-- `_first_meaningful_token`
unfoldable pub first_meaningful : Tokens → Option Token
first_meaningful nil = none
first_meaningful (cons token tokens) =
    let rest = first_meaningful tokens in if passed_over token then rest else some token

-- `_is_select_statement`
unfoldable pub is_select_statement : Statement → Bool
unfolding first_meaningful
is_select_statement statement =
    statement.type == codes "SELECT" || (elim (first_meaningful statement.tokens) [
      | none ↦ false
      | some token ↦
          normalized_upper token == codes "SELECT"
          || (normalized_upper token == codes "WITH"
              && mentions (codes "SELECT") (upper statement.value))
    ])

-- What the module asks of sqlparse: `split` and `parse`.
pub record Sqlparse : Type 0 where
  pub split : Text → List Text
  pub parse : Text → List Statement

abbrev empty_warning : SqlWarning
empty_warning = record { code = sql_empty; message = codes "Generated SQL is empty." }

abbrev multi_warning : SqlWarning
multi_warning = record {
  code = other "SQL_MULTI_STATEMENT";
  message = codes "Generated SQL contains more than one statement.";
}

abbrev destructive_warning : Text → SqlWarning
destructive_warning word = record {
  code = other "SQL_DESTRUCTIVE";
  message = codes "Generated SQL contains destructive keyword: " ++ (word ++ codes ".");
}

abbrev not_select_warning : SqlWarning
not_select_warning = record {
  code = other "SQL_NOT_SELECT";
  message = codes "Generated SQL must be a SELECT statement.";
}

-- The warnings on a destructive word and on what is no SELECT.
abbrev pub verdict : Option Text → Bool → List SqlWarning
verdict (some word) is_select = destructive_warning word ∷ []
verdict none true = []
verdict none false = not_select_warning ∷ []

-- The checks of the first statement.
unfoldable pub statement_safety : Statement → List SqlWarning
unfolding find_destructive is_select_statement
statement_safety statement =
    verdict (find_destructive (flatten statement.tokens)) (is_select_statement statement)

verdict-passes :
    (found : Option Text) (is_select : Bool)
    → verdict found is_select ≡ []
    → (found ≡ none) × (is_select ≡ true)
verdict-passes none true h = (refl, refl)
verdict-passes none false h = cc h
verdict-passes (some word) is_select h = cc h

verdict-serious :
    (found : Option Text) (is_select : Bool) → info_warnings (verdict found is_select) ≡ []
unfolding info_warnings
verdict-serious none true = refl
verdict-serious none false = refl
verdict-serious (some word) is_select = refl

abbrev pub first_safety : List Statement → List SqlWarning
first_safety [] = empty_warning ∷ []
first_safety (statement ∷ statements) = statement_safety statement

module _ (sqlparse : Sqlparse) where
  -- The statements of a text that are not blank.
  abbrev pub statements_of : Text → List Text
  statements_of sql = filter (λ s. nonempty (strip s)) (sqlparse.split (strip sql))

  unfoldable pub validate_sql_safety : Text → List SqlWarning
  unfolding statement_safety
  validate_sql_safety sql =
      if not (nonempty (strip sql))
      then empty_warning ∷ []
      else if ltb 1 (length (statements_of sql))
      then multi_warning ∷ []
      else first_safety (sqlparse.parse (strip sql))

  abbrev pub is_harmless : Token → Bool
  is_harmless token = not (is_destructive token)

  find_destructive-none :
      (tokens : List Token) → find_destructive tokens ≡ none → all is_harmless tokens ≡ true
  unfolding find_destructive
  find_destructive-none [] h = refl
  find_destructive-none (token ∷ tokens) h = elim (Bool-cases (is_destructive token)) [
    | inr fine ↦ rw fine (find_destructive-none tokens (rw fine at h))
    | inl bad ↦ cc (rw bad at h)
  ]

  -- The first statement of a parse is a SELECT, and each of its tokens is harmless.
  abbrev pub Harmless : List Statement → Type 0
  Harmless [] = ⊥
  Harmless (statement ∷ statements) =
      (all is_harmless (flatten statement.tokens) ≡ true) × (is_select_statement statement ≡ true)

  statement_safety-passes :
      (statement : Statement)
      → statement_safety statement ≡ []
      → (all is_harmless (flatten statement.tokens) ≡ true) × (is_select_statement statement ≡ true)
  unfolding statement_safety
  statement_safety-passes statement h =
      let (clean, is_select) = verdict-passes _ _ h in
      (find_destructive-none (flatten statement.tokens) clean, is_select)

  first_safety-passes :
      (statements : List Statement) → first_safety statements ≡ [] → Harmless statements
  first_safety-passes [] h = cc h
  first_safety-passes (statement ∷ statements) h = statement_safety-passes statement h

  -- SQL without a warning is not blank and has at most one statement that is not; the first that the
  -- parser finds is a SELECT, none of whose tokens is a destructive keyword outside of comments and
  -- strings.
  pub validate_sql_safety-passes :
      (sql : Text)
      → validate_sql_safety sql ≡ []
      → (nonempty (strip sql) ≡ true)
        × (length (statements_of sql) ≤ 1)
        × Harmless (sqlparse.parse (strip sql))
  unfolding validate_sql_safety
  validate_sql_safety-passes sql h = elim (Bool-cases (nonempty (strip sql))) [
    | inr blank ↦ cc (rw blank at h)
    | inl there ↦ elim (Bool-cases (ltb 1 (length (statements_of sql)))) [
      | inl several ↦ cc (rw (there, several) at h)
      | inr one ↦ (
        there,
        ground (arith, one),
        first_safety-passes (sqlparse.parse (strip sql)) (rw (there, one) at h),
      )
    ]
  ]

  statement_safety-serious :
      (statement : Statement) → info_warnings (statement_safety statement) ≡ []
  unfolding statement_safety
  statement_safety-serious statement = verdict-serious _ _

  first_safety-serious :
      (statements : List Statement) → info_warnings (first_safety statements) ≡ []
  unfolding info_warnings
  first_safety-serious [] = refl
  first_safety-serious (statement ∷ statements) = statement_safety-serious statement

  -- Every warning on safety blocks: none of them says that the database cannot explain.
  pub validate_sql_safety-serious : (sql : Text) → info_warnings (validate_sql_safety sql) ≡ []
  unfolding validate_sql_safety info_warnings
  validate_sql_safety-serious sql = elim (Bool-cases (nonempty (strip sql))) [
    | inr blank ↦ rw blank refl
    | inl there ↦ elim (Bool-cases (ltb 1 (length (statements_of sql)))) [
      | inl several ↦ rw (there, several) refl
      | inr one ↦ rw (there, one) (first_safety-serious (sqlparse.parse (strip sql)))
    ]
  ]

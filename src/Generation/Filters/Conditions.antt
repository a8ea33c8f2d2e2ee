-- ===== src/Generation/Filters/Conditions.antt =====
-- What a clause of `_build_deterministic_filter_clause` of nl2sql_service/generation/sql_generator.py is.
use nl2sqlcopy.Prelude.{
  ◌≡◌, refl, ◌⊎◌, Bool, true, false, not, ◌&&◌, Option, none, some, List, [], ◌∷◌, ◌++◌, all, any,
  Bool-cases, inl, inr, Some, if◌then◌else◌, ◌==◌,
}
use nl2sqlcopy.Text.{Text, codes, text_eq, nonempty, lower, strip}
use nl2sqlcopy.Agent.Names.{member}
use nl2sqlcopy.Agent.Mentions.{mentions}
use nl2sqlcopy.Agent.Planner.{some_in}
use nl2sqlcopy.Generation.Wording.{quote_identifier, is_digit}
use nl2sqlcopy.Generation.Filters.{
  Rule, email_from, number_in, query_mentions_column, find_column_by_fragments, doubled,
  number_condition, not_null, or_not_null, email_clause, number_clause, value_clause, column_clause,
  clause_on, rule_clause, build_deterministic_filter_clause, operator_of, terms_of,
}
use nl2sqlcopy.Generation.Filters.Literals.{
  unescaped, read_literal, read_literal-doubled, read_literal-plain,
}
use nl2sqlcopy.Generation.Filters.Parts.{
  if_cases, if_some, unless_some, found_or-some, email_from-plain, first_number-digits,
  find_column-member,
}

-- A condition on a column: that it is not null, or equals a number, or compares by an operator to a
-- literal that ends where the condition ends; `From` tells of the operator and of the literal's value.
abbrev pub IsCondition : (Text → Text → Type 0) → Text → Text → Type 0
IsCondition From column clause =
    (clause ≡ not_null column)
    ⊎ ((number : Text) × (nonempty number ≡ true)
        × (all is_digit number ≡ true)
        × (clause ≡ number_condition column number))
    ⊎ ((operator : Text) × (literal : Text) × (value : Text) × (clause
          ≡ quote_identifier column ++ (codes " " ++ (operator ++ (codes " '" ++ literal))))
        × (read_literal literal ≡ some (value, []))
        × From operator value)

-- The operator is `=` and the value the address in the question, or both are those of a rule.
abbrev pub FromRules : Text → List Rule → Text → Text → Type 0
FromRules query rules operator value =
    ((operator ≡ codes "=") × (email_from false query ≡ some value))
    ⊎ Some (λ rule. (operator ≡ operator_of rule) × (rule.value ≡ some value)) rules

-- A rule whose value has no backslash.
abbrev pub is_unescaped : Rule → Bool
is_unescaped rule = elim rule.value [ none ↦ true | some value ↦ unescaped value ]

widened :
    (From Wider : Text → Text → Type 0) (column clause : Text)
    → ((operator value : Text) → From operator value → Wider operator value)
    → IsCondition From column clause
    → IsCondition Wider column clause
widened From Wider column clause wider (inl empty) = inl empty
widened From Wider column clause wider (inr (inl number)) = inr (inl number)
widened From Wider column clause wider (inr (inr (operator, literal, value, same, read, from))) =
    inr (inr (operator, literal, value, same, read, wider operator value from))

or_not_null-IsCondition :
    (From : Text → Text → Type 0) (fallback column clause : Text)
    → or_not_null fallback column ≡ some clause
    → IsCondition From column clause
or_not_null-IsCondition From fallback column clause h =
    let same =
      if_some (lower (strip fallback) == codes "not_null") (some (not_null column)) clause h in
    inl (cc same)

module _ (query : Text) where
  email_clause-IsCondition :
      (rules : List Rule) (fallback column clause : Text) (email : Option Text)
      → email_from false query ≡ email
      → email_clause fallback column email ≡ some clause
      → IsCondition (FromRules query rules) column clause
  email_clause-IsCondition rules fallback column clause none found h =
      or_not_null-IsCondition (FromRules query rules) fallback column clause h
  email_clause-IsCondition rules fallback column clause (some email) found h = inr (
      inr (
        codes "=",
        email ++ codes "'",
        email,
        cc h,
        read_literal-plain email (email_from-plain false query email found),
        inl (refl, found),
      ))

  number_clause-IsCondition :
      (rules : List Rule) (fallback column clause : Text) (number : Option Text)
      → number_in query ≡ number
      → number_clause fallback column number ≡ some clause
      → IsCondition (FromRules query rules) column clause
  number_clause-IsCondition rules fallback column clause none found h =
      or_not_null-IsCondition (FromRules query rules) fallback column clause h
  number_clause-IsCondition rules fallback column clause (some number) found h =
      let (there, digits) = first_number-digits _ number found in
      inr (inl (number, there, digits, cc h))

  value_clause-IsCondition :
      (rule : Rule) (column clause : Text) (value : Option Text)
      → rule.value ≡ value
      → is_unescaped rule ≡ true
      → value_clause column (operator_of rule) value ≡ some clause
      → IsCondition (FromRules query (rule ∷ [])) column clause
  value_clause-IsCondition rule column clause none is plain h = cc h
  value_clause-IsCondition rule column clause (some value) is plain h = inr (
      inr (
        operator_of rule,
        doubled value ++ codes "'",
        value,
        cc h,
        read_literal-doubled value (rw is at plain),
        inr (inl (refl, is)),
      ))

  column_clause-IsCondition :
      (rule : Rule) (column clause : Text)
      → is_unescaped rule ≡ true
      → column_clause query rule column ≡ some clause
      → IsCondition (FromRules query (rule ∷ [])) column clause
  unfolding column_clause
  column_clause-IsCondition rule column clause plain h =
      let kind = lower (strip rule.literal_type) in
      let is_mentioned = query_mentions_column (lower query) (lower column) in
      let emailed = email_clause rule.fallback column (email_from false query) in
      let numbered = number_clause rule.fallback column (number_in query) in
      let valued = value_clause column (operator_of rule) rule.value in
      let by_email = if is_mentioned then emailed else none in
      let by_number = if is_mentioned then numbered else none in
      elim (if_cases (kind == codes "email") by_email
        (if kind == codes "integer" then by_number else valued) clause h) [
          | inl email ↦
              email_clause-IsCondition (rule ∷ []) rule.fallback column clause _ refl
                (if_some is_mentioned emailed clause email)
          | inr rest ↦ elim (if_cases (kind == codes "integer") by_number valued clause rest) [
            | inl number ↦
                number_clause-IsCondition (rule ∷ []) rule.fallback column clause _ refl
                  (if_some is_mentioned numbered clause number)
            | inr value ↦ value_clause-IsCondition rule column clause rule.value refl plain value
          ]
        ]

  -- A clause on one of the columns, by one of the rules.
  abbrev IsClause : List Rule → List Text → Text → Type 0
  IsClause rules columns clause =
      (column : Text) × (member column columns ≡ true)
      × IsCondition (FromRules query rules) column clause

  clause_on-IsClause :
      (rule : Rule) (columns : List Text) (found : Option Text) (clause : Text)
      → ((column : Text) → found ≡ some column → member column columns ≡ true)
      → is_unescaped rule ≡ true
      → clause_on query rule found ≡ some clause
      → IsClause (rule ∷ []) columns clause
  clause_on-IsClause rule columns none clause is_in plain h = cc h
  clause_on-IsClause rule columns (some column) clause is_in plain h =
      elim (Bool-cases (nonempty column)) [
        | inr blank ↦ cc (rw blank at h)
        | inl there ↦ (
          column,
          is_in column refl,
          column_clause-IsCondition rule column clause plain (rw there at h),
        )
      ]

  rule_clause-IsClause :
      (columns : List Text) (rule : Rule) (clause : Text)
      → is_unescaped rule ≡ true
      → rule_clause query columns rule ≡ some clause
      → IsClause (rule ∷ []) columns clause
  unfolding rule_clause
  rule_clause-IsClause columns rule clause plain h =
      let terms = terms_of rule.query_terms in
      let found = find_column_by_fragments columns (terms_of rule.column_terms) in
      clause_on-IsClause rule columns found clause
        (λ column. find_column-member columns (terms_of rule.column_terms) column) plain
        (unless_some (some_in terms && not (any (λ term. mentions term (lower query)) terms))
          (clause_on query rule found) clause h)

  more_rules :
      (rule : Rule) (rules : List Rule) (columns : List Text) (clause : Text)
      → IsClause (rule ∷ []) columns clause
      → IsClause (rule ∷ rules) columns clause
  more_rules rule rules columns clause (column, is_in, condition) = (
    column,
    is_in,
    widened (FromRules query (rule ∷ [])) (FromRules query (rule ∷ rules)) column clause
        (λ operator value from. elim from [
          | inl address ↦ inl address
          | inr (inl here) ↦ inr (inl here)
          | inr (inr nowhere) ↦ absurd nowhere
        ])
        condition,
  )

  later_rules :
      (rule : Rule) (rules : List Rule) (columns : List Text) (clause : Text)
      → IsClause rules columns clause
      → IsClause (rule ∷ rules) columns clause
  later_rules rule rules columns clause (column, is_in, condition) = (
    column,
    is_in,
    widened (FromRules query rules) (FromRules query (rule ∷ rules)) column clause
        (λ operator value from. elim from [
          | inl address ↦ inl address
          | inr there ↦ inr (inr there)
        ])
        condition,
  )

-- Where no value of a rule has a backslash: a filter clause is a condition on one of the columns, that
-- it is not null, or equals a number of digits, or compares to a literal that is read with nothing
-- left, by `=` to the address in the question, or by a rule's operator to that rule's value.
pub build_deterministic_filter_clause-IsCondition :
    (rules : List Rule) (query : Text) (columns : List Text) (clause : Text)
    → all is_unescaped rules ≡ true
    → build_deterministic_filter_clause rules query columns ≡ some clause
    → (column : Text) × (member column columns ≡ true)
      × IsCondition (FromRules query rules) column clause
unfolding build_deterministic_filter_clause
build_deterministic_filter_clause-IsCondition [] query columns clause plain h = cc h
build_deterministic_filter_clause-IsCondition (rule ∷ rules) query columns clause plain h =
    elim (Bool-cases (is_unescaped rule)) [
      | inr escaped ↦ cc (rw escaped at plain)
      | inl fine ↦ elim (found_or-some _ _ clause h) [
        | inl here ↦
            more_rules query rule rules columns clause
              (rule_clause-IsClause query columns rule clause fine here)
        | inr later ↦ later_rules query rule rules columns clause (
            build_deterministic_filter_clause-IsCondition rules query columns clause
              (rw fine at plain) later)
      ]
    ]

-- ===== src/Generation/Filters.antt =====
-- `_build_deterministic_filter_clause` of nl2sql_service/generation/sql_generator.py: the WHERE clause of a
-- template, by the configured rules.
pub mod Literals
pub mod Parts
pub mod Conditions
use nl2sqlcopy.Prelude.{
  ℕ, suc, ◌+◌, Bool, false, not, ◌&&◌, ◌||◌, Option, none, some, List, [], ◌∷◌, ◌++◌, map, any, all,
  filter, take, length, ltb, leb, eqb, ◌==◌, if◌then◌else◌,
}
use nl2sqlcopy.Text.{
  Text, codes, text_eq, nonempty, lower, strip, drop_while, split_on, keep_nonempty, replace,
  or_else,
}
use nl2sqlcopy.Agent.Names.{has_part}
use nl2sqlcopy.Agent.Mentions.{mentions, is_word, boundary}
use nl2sqlcopy.Agent.Planner.{some_in}
use nl2sqlcopy.Generation.Deterministic.{last_named}
use nl2sqlcopy.Generation.Wording.{quote_identifier, is_digit}

-- A rule of `deterministic_filter_rules_json`, its values as texts; a text is empty where it is
-- missing.
pub record Rule : Type 0 where
  pub query_terms : List Text
  pub column_terms : List Text
  pub literal_type : Text
  pub fallback : Text
  pub operator : Text
  pub value : Option Text

abbrev pub is_single_quote : ℕ → Bool
is_single_quote c = eqb c 39

abbrev is_letter : ℕ → Bool
is_letter c = (leb b'a' c && leb c b'z') || (leb b'A' c && leb c b'Z')

-- The characters of `_EMAIL_LITERAL_RE` before the `@` and behind it.
unfoldable pub is_local : ℕ → Bool
is_local c = is_letter c || is_digit c || any (eqb c) (codes "._%+-")

unfoldable pub is_domain : ℕ → Bool
is_domain c = is_letter c || is_digit c || any (eqb c) (codes ".-")

unfoldable pub take_while : (ℕ → Bool) → Text → Text
take_while test [] = []
take_while test (c ∷ s) = let rest = take_while test s in if test c then c ∷ rest else []

abbrev word_first : Text → Bool
word_first [] = false
word_first (c ∷ s) = is_word c

-- `[A-Z]{2,}\b`: how many letters are matched.
abbrev ending_at : Text → Option ℕ
ending_at s =
    let letters = length (take_while is_letter s) in
    if leb 2 letters && not (word_first (drop_while is_letter s)) then some letters else none

abbrev longer : ℕ → Option ℕ → Option ℕ → Option ℕ
longer position none best = best
longer position (some letters) best = some (position + 1 + letters)

-- `[A-Z0-9.-]+\.[A-Z]{2,}\b`: the length of the match with the last dot that fits, `position`
-- characters of the domain being passed.
unfoldable pub domain_length : ℕ → Text → Option ℕ → Option ℕ
unfolding take_while
domain_length position [] best = best
domain_length position (c ∷ s) best =
    let found = if eqb c b'.' && ltb 0 position then longer position (ending_at s) best else best in
    let rest = domain_length (suc position) s found in if is_domain c then rest else best

abbrev pub joined_at : Text → Text → Option ℕ → Option Text
joined_at local domain none = none
joined_at local domain (some n) = some (local ++ b'@' ∷ take n domain)

-- The match at the head of a text: what stands behind the local part is an `@`.
abbrev pub behind_local : Text → Text → Option Text
behind_local local [] = none
behind_local local (c ∷ s) =
    if some_in local && eqb c b'@'
    then joined_at local (take_while is_domain s) (domain_length 0 s none)
    else none

abbrev pub found_or : Option Text → Option Text → Option Text
found_or none rest = rest
found_or (some s) rest = some s

-- `_EMAIL_LITERAL_RE.search(query)`, behind a character that is one of a word or not
unfoldable pub email_from : Bool → Text → Option Text
unfolding take_while domain_length is_local is_domain
email_from before [] = none
email_from before (c ∷ s) =
    let rest = email_from (is_word c) s in
    if boundary before (is_word c)
    then found_or (behind_local (take_while is_local (c ∷ s)) (drop_while is_local (c ∷ s))) rest
    else rest

-- `_INTEGER_LITERAL_RE.search`: the first word of digits alone
unfoldable pub first_number : List Text → Option Text
first_number [] = none
first_number (word ∷ words) =
    let rest = first_number words in if all is_digit word then some word else rest

abbrev pub number_in : Text → Option Text
number_in query = first_number (keep_nonempty (split_on (λ c. not (is_word c)) query))

-- `_query_mentions_column`
unfoldable pub query_mentions_column : Text → Text → Bool
query_mentions_column query column =
    has_part query column || has_part query (replace b'_' b' ' column)

abbrev pub first_named : List Text → List Text → Option Text
first_named columns [] = none
first_named columns (fragment ∷ fragments) =
    found_or (last_named fragment columns none) (first_named columns fragments)

unfoldable pub first_containing : List Text → List Text → Option Text
first_containing [] fragments = none
first_containing (column ∷ columns) fragments =
    let rest = first_containing columns fragments in
    if any (has_part (lower column)) fragments then some column else rest

-- `_find_column_by_fragments`
unfoldable pub find_column_by_fragments : List Text → List Text → Option Text
unfolding first_containing
find_column_by_fragments columns fragments =
    found_or (first_named columns fragments) (first_containing columns fragments)

abbrev pub terms_of : List Text → List Text
terms_of terms = map (λ t. lower (strip t)) (filter (λ t. nonempty (strip t)) terms)

-- `value.replace("'", "''")`
unfoldable pub doubled : Text → Text
doubled [] = []
doubled (c ∷ s) = if is_single_quote c then c ∷ c ∷ doubled s else c ∷ doubled s

abbrev pub quoted_condition : Text → Text → Text → Text
quoted_condition column operator literal =
    quote_identifier column ++ (codes " " ++ (operator ++ (codes " '" ++ (literal ++ codes "'"))))

abbrev pub number_condition : Text → Text → Text
number_condition column number = quote_identifier column ++ (codes " = " ++ number)

abbrev pub not_null : Text → Text
not_null column = quote_identifier column ++ codes " IS NOT NULL"

-- The fallback of a rule whose literal is not there.
abbrev pub or_not_null : Text → Text → Option Text
or_not_null fallback column =
    if lower (strip fallback) == codes "not_null" then some (not_null column) else none

abbrev pub email_clause : Text → Text → Option Text → Option Text
email_clause fallback column (some email) = some (quoted_condition column (codes "=") email)
email_clause fallback column none = or_not_null fallback column

abbrev pub number_clause : Text → Text → Option Text → Option Text
number_clause fallback column (some number) = some (number_condition column number)
number_clause fallback column none = or_not_null fallback column

abbrev pub operator_of : Rule → Text
operator_of rule = or_else (strip (or_else rule.operator (codes "="))) (codes "=")

abbrev pub value_clause : Text → Text → Option Text → Option Text
value_clause column operator none = none
value_clause column operator (some value) = some (quoted_condition column operator (doubled value))

-- The clause on a column.
unfoldable pub column_clause : Text → Rule → Text → Option Text
unfolding email_from first_number query_mentions_column doubled
column_clause query rule column =
    let kind = lower (strip rule.literal_type) in
    let is_mentioned = query_mentions_column (lower query) (lower column) in
    if kind == codes "email"
    then (if is_mentioned then email_clause rule.fallback column (email_from false query) else none)
    else if kind == codes "integer"
    then (if is_mentioned then number_clause rule.fallback column (number_in query) else none)
    else value_clause column (operator_of rule) rule.value

abbrev pub clause_on : Text → Rule → Option Text → Option Text
clause_on query rule none = none
clause_on query rule (some column) =
    if nonempty column then column_clause query rule column else none

-- What one rule gives; `none` goes on to the next.
unfoldable pub rule_clause : Text → List Text → Rule → Option Text
unfolding find_column_by_fragments column_clause
rule_clause query columns rule =
    let terms = terms_of rule.query_terms in
    if some_in terms && not (any (λ term. mentions term (lower query)) terms)
    then none
    else clause_on query rule (find_column_by_fragments columns (terms_of rule.column_terms))

-- `_build_deterministic_filter_clause`, over the decoded rules
unfoldable pub build_deterministic_filter_clause : List Rule → Text → List Text → Option Text
unfolding rule_clause
build_deterministic_filter_clause [] query columns = none
build_deterministic_filter_clause (rule ∷ rules) query columns =
    found_or (rule_clause query columns rule)
      (build_deterministic_filter_clause rules query columns)

-- ===== src/Generation/Wording.antt =====
-- How generation/sql_generator.py reads a question that it may answer with a template: the table that
-- it names and the number of rows, `_choose_explicit_table` and `_deterministic_limit`.
use nl2sqlcopy.Prelude.{
  ℕ, ◌+◌, ◌-◌, ◌*◌, max, min, Bool, not, ◌&&◌, ◌||◌, Option, none, some, List, [], ◌∷◌, ◌++◌, map,
  ◌==◌, eqb, leb, ltb, any, all, filter, take, length, if◌then◌else◌,
}
use mathlib.Core.List.{reverse}
use nl2sqlcopy.Text.{Text, codes, text_eq, nonempty, lower, split_on, keep_nonempty, join}
use nl2sqlcopy.Agent.Names.{starts_with, has_part}
use nl2sqlcopy.Agent.Mentions.{is_word}
use nl2sqlcopy.Agent.Confidence.{distinct}
use nl2sqlcopy.Generation.References.{is_sql_name}

-- `_quote_identifier`
unfoldable pub quote_identifier : Text → Text
quote_identifier name =
    if is_sql_name name
    then name
    else codes "`" ++ (join (codes "``") (split_on (λ c. eqb c b'`') name) ++ codes "`")

abbrev pub is_digit : ℕ → Bool
is_digit c = leb b'0' c && leb c b'9'

unfoldable pub number_onto : ℕ → Text → ℕ
number_onto n [] = n
number_onto n (c ∷ s) = number_onto (n * 10 + (c - 48)) s

-- `_COUNT_RE.search`: the first word of one to three digits, as a number
unfoldable pub first_count : List Text → Option ℕ
unfolding number_onto
first_count [] = none
first_count (word ∷ words) =
    let rest = first_count words in
    if all is_digit word && leb (length word) 3 then some (number_onto 0 word) else rest

unfoldable pub count_in : Text → Option ℕ
unfolding first_count
count_in query = first_count (keep_nonempty (split_on (λ c. not (is_word c)) query))

-- `_normalize_match_text`, as words
abbrev pub is_plain : ℕ → Bool
is_plain c = (leb b'a' c && leb c b'z') || is_digit c

abbrev pub match_words : Text → List Text
match_words value = keep_nonempty (split_on (λ c. not (is_plain c)) (lower value))

abbrev pub ends : Text → Text → Bool
ends term ending = starts_with (reverse term) (reverse ending)

abbrev pub but_last : ℕ → Text → Text
but_last n term = take (length term - n) term

-- `_singularize` and `_pluralize`
unfoldable pub singularize : Text → Text
singularize term =
    if ltb 3 (length term) && ends term (codes "ies")
    then but_last 3 term ++ codes "y"
    else if ltb 3 (length term) && ends term (codes "ses")
    then but_last 2 term
    else if ltb 2 (length term) && ends term (codes "s")
    then but_last 1 term
    else term

abbrev pub ends_in_vowel_y : Text → Bool
ends_in_vowel_y term =
    any (ends term) (codes "ay" ∷ codes "ey" ∷ codes "iy" ∷ codes "oy" ∷ codes "uy" ∷ [])

unfoldable pub pluralize : Text → Text
pluralize term =
    if ends term (codes "y") && (ltb 1 (length term) && not (ends_in_vowel_y term))
    then but_last 1 term ++ codes "ies"
    else if ends term (codes "s")
    then term ++ codes "es"
    else term ++ codes "s"

-- The words with the last of them replaced.
abbrev pub with_last : (Text → Text) → List Text → List Text
with_last change [] = []
with_last change (word ∷ []) = change word ∷ []
with_last change (word ∷ next ∷ words) = word ∷ with_last change (next ∷ words)

-- `_table_aliases`
unfoldable pub aliases_for : Text → List Text
unfolding distinct singularize pluralize
aliases_for table =
    let tokens = match_words table in
    let phrases =
      if ltb 1 (length tokens)
      then join (codes " ") (with_last singularize tokens)
        ∷ join (codes " ") (with_last (λ t. pluralize (singularize t)) tokens)
        ∷ []
      else [] in
    distinct (
      filter nonempty (
        join (codes " ") tokens
        ∷ (tokens
            ++ (map singularize tokens
                ++ (map (λ t. pluralize (singularize t)) tokens ++ phrases)))))

abbrev pub padded : Text → Text
padded text = codes " " ++ (text ++ codes " ")

abbrev pub query_text : Text → Text
query_text query = padded (join (codes " ") (match_words query))

-- `_query_mentions_table_form` with `plural=False`
unfoldable pub mentions_singular : Text → Text → Bool
unfolding aliases_for
mentions_singular query table =
    any (λ alias. alias == singularize alias && has_part (query_text query) (padded alias))
      (aliases_for table)

unfoldable pub alias_scores : Text → List Text → ℕ
alias_scores query [] = 0
alias_scores query (alias ∷ aliases) =
    let rest = alias_scores query aliases in
    if has_part (query_text query) (padded alias)
    then (if any (λ c. eqb c b' ') alias then 700 else 100) + length alias + rest
    else rest

unfoldable pub table_score : Text → Text → ℕ
unfolding aliases_for alias_scores
table_score query table =
    let normalized = join (codes " ") (match_words table) in
    (if nonempty normalized && has_part (query_text query) (padded normalized)
      then 500 + length normalized
      else 0)
    + alias_scores query (aliases_for table)

-- The first of the tables with the greatest score, where some score is positive.
unfoldable pub best_table : Text → List Text → ℕ → Option Text → Option Text
best_table query [] score best = best
best_table query (table ∷ tables) score best =
    let mine = table_score query table in
    if ltb score mine
    then best_table query tables mine (some table)
    else best_table query tables score best

-- `_choose_explicit_table`
unfoldable pub choose_explicit_table : Text → List Text → Option Text
unfolding best_table table_score
choose_explicit_table query tables = best_table query tables 0 none

-- `_deterministic_limit`
abbrev pub clamp : ℕ → ℕ
clamp n = max 1 (min n 50)

abbrev pub limit_of : Option ℕ → Bool → ℕ → ℕ
limit_of (some n) is_singular top_k = clamp n
limit_of none is_singular top_k = if is_singular then 1 else clamp top_k

unfoldable pub deterministic_limit : Text → ℕ → Text → ℕ
unfolding count_in mentions_singular
deterministic_limit query top_k table =
    limit_of (count_in query) (nonempty table && mentions_singular query table) top_k

-- ===== src/Generation/Preflight.antt =====
-- `detect_destructive_query_intent` and `detect_basic_ambiguity_reason` of
-- nl2sql_service/generation/sql_generator.py: the questions that are turned away before any planning.
pub mod Destructive
use nl2sqlcopy.Prelude.{
  ℕ, Bool, not, ◌&&◌, ◌||◌, Option, none, some, List, [], ◌∷◌, ◌++◌, filter, eqb, leb, all,
  if◌then◌else◌,
}
use nl2sqlcopy.Text.{Text, codes, text_eq, lower, split, split_on, keep_nonempty, join}
use nl2sqlcopy.Agent.Mentions.{mentions, parse_csv_terms}
use nl2sqlcopy.Agent.Names.{member, add_all, sorted}
use nl2sqlcopy.Agent.Planner.{some_in}

-- The settings of both checks.
pub record PreflightSettings : Type 0 where
  pub destructive_query_keywords : Text
  pub ambiguity_query_stopwords : Text
  pub ambiguity_generic_terms : Text
  pub ambiguity_modifier_terms : Text

-- The first keyword that a text mentions, in the order of the list.
unfoldable pub mentioned_keyword : Text → List Text → Option Text
mentioned_keyword text [] = none
mentioned_keyword text (keyword ∷ keywords) =
    let rest = mentioned_keyword text keywords in
    if mentions keyword text then some keyword else rest

-- `detect_destructive_query_intent`. The source walks a set: which of several keywords it names is
-- left to Python.
unfoldable pub detect_destructive_query_intent : Text → PreflightSettings → Option Text
unfolding mentioned_keyword parse_csv_terms
detect_destructive_query_intent query settings =
    mentioned_keyword (join (codes " ") (split (lower query)))
      (parse_csv_terms settings.destructive_query_keywords)

-- The characters of `[a-z0-9_]`.
unfoldable pub is_term_char : ℕ → Bool
is_term_char c = (leb b'a' c && leb c b'z') || (leb b'0' c && leb c b'9') || eqb c b'_'

-- `token.isdigit()`, of a token that is not empty
abbrev all_digits : Text → Bool
all_digits = all (λ c. leb b'0' c && leb c b'9')

-- The words of a question but for the stopwords and the numbers.
unfoldable pub query_terms : Text → PreflightSettings → List Text
unfolding is_term_char parse_csv_terms
query_terms query settings =
    filter
      (λ token.
        not (member token (parse_csv_terms settings.ambiguity_query_stopwords))
        && not (all_digits token))
      (keep_nonempty (split_on (λ c. not (is_term_char c)) (lower query)))

abbrev generic_in : PreflightSettings → List Text → List Text
generic_in settings =
    filter (λ token. member token (parse_csv_terms settings.ambiguity_generic_terms))

abbrev specific_in : PreflightSettings → List Text → List Text
specific_in settings = filter (λ token.
    not (member token (parse_csv_terms settings.ambiguity_generic_terms))
    && not (member token (parse_csv_terms settings.ambiguity_modifier_terms)))

abbrev no_entity : Text
no_entity = codes "The request does not identify which business entity to query."

abbrev generic_only : List Text → Text
generic_only terms =
    codes "The request uses generic terms like "
    ++ (join (codes ", ") (sorted (add_all [] terms)) ++ codes " without naming the target entity.")

-- The reason that the words of a question give.
unfoldable pub ambiguity_of : PreflightSettings → List Text → Option Text
unfolding parse_csv_terms sorted add_all
ambiguity_of settings tokens =
    if not (some_in tokens)
    then some no_entity
    else if some_in (generic_in settings tokens) && not (some_in (specific_in settings tokens))
    then some (generic_only (generic_in settings tokens))
    else none

unfoldable pub detect_basic_ambiguity_reason : Text → PreflightSettings → Option Text
unfolding query_terms ambiguity_of
detect_basic_ambiguity_reason query settings = ambiguity_of settings (query_terms query settings)

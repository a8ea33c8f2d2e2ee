-- ===== src/Tests/Filtering.antt =====
-- The clauses of templates by the configured rules, and the theorem at one.
use nl2sqlcopy.Prelude.{◌≡◌, refl, true, none, some, List, [], ◌∷◌, ◌++◌}
use nl2sqlcopy.Text.{Text, codes, drop_while, is_space, lower_char, split_on, keep_nonempty, join}
use nl2sqlcopy.Agent.Names.{member, has_part}
use nl2sqlcopy.Agent.Mentions.{mentions, is_word}
use nl2sqlcopy.Generation.Deterministic.{last_named}
use nl2sqlcopy.Generation.Wording.{quote_identifier}
use nl2sqlcopy.Generation.Filters.{
  Rule, take_while, is_local, is_domain, domain_length, email_from, first_number,
  query_mentions_column, first_containing, find_column_by_fragments, doubled, column_clause,
  rule_clause, build_deterministic_filter_clause,
}
use nl2sqlcopy.Generation.Filters.Literals.{read_literal}
use nl2sqlcopy.Generation.Filters.Conditions.{
  IsCondition, FromRules, build_deterministic_filter_clause-IsCondition,
}

abbrev owned : Rule
owned = record {
  query_terms = codes "owned" ∷ [];
  column_terms = codes "owner" ∷ [];
  literal_type = [];
  fallback = [];
  operator = [];
  value = some (codes "O'Hara");
}

abbrev email_lookup : Rule
email_lookup = record {
  query_terms = codes "email" ∷ [];
  column_terms = codes "email" ∷ codes "email_id" ∷ [];
  literal_type = codes "email";
  fallback = codes "not_null";
  operator = [];
  value = none;
}

abbrev number_lookup : Rule
number_lookup = record {
  query_terms = codes "phone" ∷ codes "code" ∷ [];
  column_terms = codes "phone" ∷ codes "code" ∷ [];
  literal_type = codes "integer";
  fallback = codes "not_null";
  operator = [];
  value = none;
}

abbrev rules : List Rule
rules = owned ∷ email_lookup ∷ number_lookup ∷ []

abbrev columns : List Text
columns = codes "id" ∷ codes "owner_name" ∷ codes "email_id" ∷ codes "post_code" ∷ []

clauses :
    (build_deterministic_filter_clause rules (codes "items owned by me") columns
      ≡ some (codes "owner_name = 'O''Hara'"))
    × (build_deterministic_filter_clause rules
          (codes "email id a.b@Mail.example.org, please")
          columns
        ≡ some (codes "email_id = 'a.b@Mail.example.org'"))
    × (build_deterministic_filter_clause rules (codes "with an email id") columns
        ≡ some (codes "email_id IS NOT NULL"))
    × (build_deterministic_filter_clause rules (codes "post code 8001") columns
        ≡ some (codes "post_code = 8001"))
    × (build_deterministic_filter_clause rules (codes "all items") columns ≡ none)
unfolding drop_while is_space lower_char split_on keep_nonempty join has_part mentions is_word
    last_named quote_identifier take_while is_local is_domain domain_length email_from first_number
    query_mentions_column first_containing find_column_by_fragments doubled column_clause
    rule_clause build_deterministic_filter_clause
clauses = (refl, refl, refl, refl, refl)

-- A value that ends in a backslash leaves its literal open.
open_literal : read_literal (doubled (92 ∷ []) ++ codes "'") ≡ none
unfolding doubled read_literal
open_literal = refl

build_deterministic_filter_clause-IsCondition_example :
    (column : Text) × (member column columns ≡ true)
    × IsCondition
        (FromRules (codes "items owned by me") rules)
        column
        (codes "owner_name = 'O''Hara'")
build_deterministic_filter_clause-IsCondition_example =
    build_deterministic_filter_clause-IsCondition rules (codes "items owned by me") columns
      (codes "owner_name = 'O''Hara'") refl clauses.0

-- ===== src/Generation/Review.antt =====
-- `review_sql` and `_apply_review_gate` of nl2sql_service/generation/sql_generator.py: a second look at
-- generated SQL by the model.
pub mod Gate
use nl2sqlcopy.Prelude.{
  ℕ, ◌≡◌, refl, Bool, true, false, not, ◌&&◌, ◌||◌, Option, none, some, List, [], ◌∷◌, ◌++◌, map,
  filter, eqb, leb, length, ◌≤◌, arith, if◌then◌else◌, Bool-cases, inl, inr, ◌==◌,
}
use nl2sqlcopy.Dict.{Dict}
use nl2sqlcopy.Text.{Text, codes, text_eq, nonempty, lower, strip, split_on, join, or_else}
use nl2sqlcopy.Agent.Actions.{SqlWarning, other}
use nl2sqlcopy.Agent.Columns.{after_colon, split_lines}
use nl2sqlcopy.Agent.Names.{starts_with, has_part}
use nl2sqlcopy.Agent.Planner.{some_in}
use nl2sqlcopy.Agent.Loop.Answers.{Success}
use nl2sqlcopy.Generation.Tokens.{upper}

abbrev pub Columns : Type 0
Columns = Dict Text (List Text)

pub record Fields : Type 0 where
  pub verdict : Text
  pub violations_raw : Text
  pub reason : Text

abbrev no_fields : Fields
no_fields = record { verdict = []; violations_raw = []; reason = [] }

-- One line of a reply: a later field overwrites an earlier one.
unfoldable pub read_field : Fields → Text → Fields
unfolding after_colon
read_field fields line =
    let label = upper line in
    let content = strip (after_colon line) in
    if starts_with label (codes "VERDICT:")
    then record {
      verdict = content;
      violations_raw = fields.violations_raw;
      reason = fields.reason;
    }
    else if starts_with label (codes "VIOLATIONS:")
    then record { verdict = fields.verdict; violations_raw = content; reason = fields.reason }
    else if starts_with label (codes "REASON:")
    then record {
      verdict = fields.verdict;
      violations_raw = fields.violations_raw;
      reason = content;
    }
    else fields

unfoldable pub read_fields : Fields → List Text → Fields
unfolding read_field
read_fields fields [] = fields
read_fields fields (line ∷ lines) = read_fields (read_field fields (strip line)) lines

unfoldable pub fields_of : Text → Fields
unfolding read_fields
fields_of text = read_fields no_fields (split_lines text)

-- All three fields are there.
abbrev pub is_complete : Fields → Bool
is_complete fields =
    nonempty fields.verdict && nonempty fields.violations_raw && nonempty fields.reason

abbrev pub says_fail : Fields → Bool
says_fail fields = has_part (upper fields.verdict) (codes "FAIL")

abbrev is_violation : Text → Bool
is_violation item = nonempty item && not (lower item == codes "none")

unfoldable pub violations_of : Text → List Text
violations_of raw = filter is_violation (map strip (split_on (λ c. eqb c b',') raw))

-- What a reply says: whether SQL passes, and the violated rules.
unfoldable pub review_reply : Text → Bool × List Text
unfolding fields_of violations_of
review_reply text =
    let fields = fields_of text in
    if not (is_complete fields)
    then (true, [])
    else if says_fail fields
    then (false, violations_of fields.violations_raw)
    else (true, [])

-- What the gate calls; `none` where a call raises. The text of a reply is empty where it has none.
pub record Reviewers : Type 0 where
  pub rewrite_search_query : Text → Option Text
  pub retrieve_groups : Text → Text → Option (List Text)
  pub load_columns_for_tables : List Text → Option Columns
  pub generate : Option Text → Text → List Text → Columns → Option Text

abbrev pub review_warning : List Text → SqlWarning
review_warning violations = record {
  code = other "REVIEW_FAILED";
  message =
      codes "Review gate flagged issues with rules: "
      ++ (or_else (join (codes ", ") violations) (codes "unknown")
          ++ codes ". SQL may still be correct — verify manually.");
}

-- `result.model_copy(update={"warnings": [*result.warnings, warning]})`
abbrev pub with_warning : Success → SqlWarning → Success
with_warning result warning = record {
  sql = result.sql;
  warnings = result.warnings ++ warning ∷ [];
  tables_used = result.tables_used;
  matched_groups = result.matched_groups;
  attempt_count = result.attempt_count;
  react_trace = result.react_trace;
}

abbrev pub gate_on : Success → Bool × List Text → Success
gate_on result (true, violations) = result
gate_on result (false, violations) = with_warning result (review_warning violations)

module _ (reviewers : Reviewers) where
  unfoldable pub columns_or_empty : List Text → Columns
  columns_or_empty tables = elim (reviewers.load_columns_for_tables tables) [
    | none ↦ []
    | some columns ↦ columns
  ]

  -- The tables and columns that the review is told: those of a fresh retrieval, and the columns of the
  -- tables in use where it, or the loading of its columns, raises.
  abbrev loaded : Success → List Text → Option Columns → List Text × Columns
  loaded result tables (some columns) = (tables, columns)
  loaded result tables none = (tables, columns_or_empty result.tables_used)

  abbrev retrieved : Success → Option (List Text) → List Text × Columns
  retrieved result none = (result.tables_used, columns_or_empty result.tables_used)
  retrieved result (some tables) = loaded result tables (reviewers.load_columns_for_tables tables)

  abbrev rewritten : Success → Text → Option Text → List Text × Columns
  rewritten result query none = (result.tables_used, columns_or_empty result.tables_used)
  rewritten result query (some search_query) =
      retrieved result (reviewers.retrieve_groups query search_query)

  unfoldable pub review_context : Success → Text → List Text × Columns
  unfolding columns_or_empty
  review_context result query = rewritten result query (reviewers.rewrite_search_query query)

  -- The reply of the model to the review's prompt.
  abbrev pub review_answer : Success → Text → Option Text
  review_answer result query =
      let context = review_context result query in
      reviewers.generate result.sql query context.0 context.1

  abbrev pub gate_reply : Success → Option Text → Option Success
  gate_reply result none = none
  gate_reply result (some text) = some (gate_on result (review_reply text))

  -- `_apply_review_gate`: `none` where the model raises.
  unfoldable pub apply_review_gate : Bool → Success → Text → Option Success
  unfolding review_context review_reply
  apply_review_gate governance_enabled result query =
      if not governance_enabled then some result else gate_reply result (review_answer result query)

-- ===== src/Generation/Review/Gate.antt =====
-- What the review gate of nl2sql_service/generation/sql_generator.py does to a result.
use nl2sqlcopy.Prelude.{
  ◌≡◌, refl, Bool, true, false, not, ◌&&◌, some, List, [], ◌∷◌, ◌++◌, length, ◌≤◌, arith,
  Bool-cases, inl, inr, sym,
}
use mathlib.Core.List.{append-nil}
use nl2sqlcopy.Text.{Text}
use nl2sqlcopy.Agent.Actions.{SqlWarning}
use nl2sqlcopy.Agent.Planner.{some_in}
use nl2sqlcopy.Agent.Loop.Answers.{Success}
use nl2sqlcopy.Generation.Review.{
  fields_of, is_complete, says_fail, review_reply, Reviewers, review_warning, with_warning, gate_on,
  review_answer, apply_review_gate,
}

-- A reply that fails SQL: its fields are complete, and its verdict has the word FAIL.
abbrev pub fails : Text → Bool
fails text = is_complete (fields_of text) && says_fail (fields_of text)

-- A result as it was, but for at most one warning, which is there exactly where the test holds.
abbrev pub WarnedWhere : Bool → Success → Success → Type 0
WarnedWhere test result reviewed =
    (reviewed.sql ≡ result.sql)
    × (reviewed.tables_used ≡ result.tables_used)
    × (reviewed.matched_groups ≡ result.matched_groups)
    × (reviewed.attempt_count ≡ result.attempt_count)
    × ((added : List SqlWarning) × (reviewed.warnings ≡ result.warnings ++ added)
        × (length added ≤ 1)
        × (some_in added ≡ test))

WarnedWhere-same : (result : Success) → WarnedWhere false result result
WarnedWhere-same result =
    (refl, refl, refl, refl, ([], sym (append-nil result.warnings), omega arith, refl))

WarnedWhere-warned :
    (result : Success) (warning : SqlWarning)
    → WarnedWhere true result (with_warning result warning)
WarnedWhere-warned result warning =
    (refl, refl, refl, refl, (warning ∷ [], refl, omega arith, refl))

review_reply-passes : (text : Text) → (review_reply text).0 ≡ not (fails text)
unfolding review_reply
review_reply-passes text = elim (Bool-cases (is_complete (fields_of text))) [
  | inr missing ↦ rw missing refl
  | inl complete ↦ elim (Bool-cases (says_fail (fields_of text))) [
    | inl failing ↦ rw (complete, failing) refl
    | inr fine ↦ rw (complete, fine) refl
  ]
]

gate_on-WarnedWhere :
    (result : Success) (verdict : Bool × List Text) (test : Bool)
    → verdict.0 ≡ not test
    → WarnedWhere test result (gate_on result verdict)
gate_on-WarnedWhere result (true, violations) false h = WarnedWhere-same result
gate_on-WarnedWhere result (true, violations) true h = cc h
gate_on-WarnedWhere result (false, violations) false h = cc h
gate_on-WarnedWhere result (false, violations) true h =
    WarnedWhere-warned result (review_warning violations)

pub apply_review_gate-warns :
    (reviewers : Reviewers) (governance_enabled : Bool) (result : Success) (query text : Text)
    → review_answer reviewers result query ≡ some text
    → (reviewed : Success) × (apply_review_gate reviewers governance_enabled result query
        ≡ some reviewed)
      × WarnedWhere (governance_enabled && fails text) result reviewed
unfolding apply_review_gate
apply_review_gate-warns reviewers false result query text answered =
    (result, refl, WarnedWhere-same result)
apply_review_gate-warns reviewers true result query text answered = (
  gate_on result (review_reply text),
  rw answered refl,
  gate_on-WarnedWhere result (review_reply text) (fails text) (review_reply-passes text),
)

-- ===== src/Agent/Clarify.antt =====
-- `_parse_clarification_response` and `build_clarification` of
-- nl2sql_service/agent/react_executor.py: the question that a run without SQL ends with.
use nl2sqlcopy.Prelude.{
  ℕ, ◌≡◌, refl, Bool, ◌&&◌, Option, none, some, List, [], ◌∷◌, ◌++◌, eqb, leb, length, take,
  if◌then◌else◌,
}
use nl2sqlcopy.Floats.{Floats}
use nl2sqlcopy.Text.{
  Text, codes, nonempty, or_else, strip, join, lower_char, split_on, drop_while, is_space,
}
use nl2sqlcopy.Agent.Actions.{ReActAction}
use nl2sqlcopy.Agent.State.{Step}
use nl2sqlcopy.Agent.Columns.{split_lines, is_line_end}
use nl2sqlcopy.Agent.Services.{Services}

-- `ReactTrace`
pub record Trace : Type 0 where
  pub steps : List Step
  pub total_iterations : ℕ
  pub final_action : ReActAction

-- `GenerateSqlClarification`
pub record Clarification : Type 0 where
  pub question : Text
  pub suggestions : List Text
  pub original_query : Text
  pub failure_reason : Text
  pub react_trace : Trace

-- What stands behind a label, in any case.
unfoldable pub behind_label : Text → Text → Option Text
behind_label [] s = some s
behind_label (d ∷ label) [] = none
behind_label (d ∷ label) (c ∷ s) =
    let rest = behind_label label s in if eqb (lower_char c) d then rest else none

-- `\s*:\s*(.+)`
abbrev value_of : Text → Option Text
value_of s = elim (drop_while is_space s) [
  | [] ↦ none
  | c ∷ rest ↦ if eqb c b':' && nonempty rest then some (strip rest) else none
]

abbrev is_digit : ℕ → Bool
is_digit c = leb b'0' c && leb c b'9'

abbrev numbered : Text → Option Text
numbered [] = none
numbered (c ∷ s) = if is_digit c then value_of (drop_while is_digit s) else none

-- `QUESTION\s*:\s*(.+)` and `SUGGESTION_\d+\s*:\s*(.+)`
unfoldable pub question_of : Text → Option Text
unfolding behind_label
question_of line = elim (behind_label (codes "question") line) [
  | none ↦ none
  | some rest ↦ value_of rest
]

unfoldable pub suggestion_of : Text → Option Text
unfolding behind_label
suggestion_of line = elim (behind_label (codes "suggestion_") line) [
  | none ↦ none
  | some rest ↦ numbered rest
]

-- What one line adds to the question and the suggestions.
unfoldable pub read_line : Text → Text × List Text → Text × List Text
unfolding question_of suggestion_of
read_line line (question, suggestions) = elim (question_of (strip line)) [
  | some asked ↦ (asked, suggestions)
  | none ↦ elim (suggestion_of (strip line)) [
    | some suggestion ↦
        (question, if nonempty suggestion then suggestions ++ suggestion ∷ [] else suggestions)
    | none ↦ (question, suggestions)
  ]
]

unfoldable pub read_lines : List Text → Text × List Text → Text × List Text
unfolding read_line
read_lines [] parsed = parsed
read_lines (line ∷ lines) parsed = read_lines lines (read_line line parsed)

-- `_parse_clarification_response`
unfoldable pub parse_clarification_response : Text → Text × List Text
unfolding read_lines
parse_clarification_response text = read_lines (split_lines text) ([], [])

module _ (f : Floats) where
  abbrev fallback_question : Text → Text
  fallback_question query =
      codes "I couldn't generate valid SQL for '"
      ++ (query ++ codes "'. Could you rephrase or add more detail?")

  -- The question and the suggestions: the model's, where it writes both, and else the fallback's.
  unfoldable pub question_and_suggestions : Services f → Text → Text → List Text → Text × List Text
  unfolding parse_clarification_response
  question_and_suggestions sv query failure_reason tables =
      let fallback : Text × List Text =
        (fallback_question query, sv.build_schema_derived_suggestions tables) in
      let rendered = or_else (join (codes ", ") tables) (codes "(unknown)") in
      elim (sv.clarify query failure_reason rendered) [
        | none ↦ fallback
        | some text ↦
            (let (question, suggestions) = parse_clarification_response text in
              if nonempty question && leb 2 (length suggestions)
              then (question, take 3 suggestions)
              else fallback)
      ]

  -- `build_clarification`
  unfoldable pub build_clarification : Services f → Text → Text → Trace → List Text → Clarification
  unfolding question_and_suggestions
  build_clarification sv query failure_reason trace tables =
      let (question, suggestions) = question_and_suggestions sv query failure_reason tables in
      record {
        question = question;
        suggestions = take 3 suggestions;
        original_query = query;
        failure_reason = failure_reason;
        react_trace = trace;
      }

reads_reply :
    parse_clarification_response
      (codes "Question : Which day?\n\nsuggestion_1: orders of today\nSUGGESTION_2:\nnote")
    ≡ (codes "Which day?", codes "orders of today" ∷ [])
unfolding parse_clarification_response drop_while is_space split_on is_line_end lower_char
reads_reply = refl

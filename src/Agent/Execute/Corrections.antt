-- ===== src/Agent/Execute/Corrections.antt =====
-- The branch RETRIEVE_PAST_CORRECTIONS of `execute_action`.
use nl2sqlcopy.Prelude.{true, List, [], ◌∷◌, ◌++◌, map, length, take, if◌then◌else◌}
use nl2sqlcopy.Floats.{Floats}
use nl2sqlcopy.Text.{Text, codes, nonempty, or_else, strip, join, decimal}
use nl2sqlcopy.Agent.Names.{merge_ordered_strings, merge_context_block}
use nl2sqlcopy.Agent.State.{State, Correction, normalized_names}
use nl2sqlcopy.Agent.Planner.{some_in, list_or}
use nl2sqlcopy.Agent.Reasoning.{text_or}
use nl2sqlcopy.Agent.Services.{Services}

-- The loop over the corrections for the tables in scope.
unfoldable pub tables_with : List Text → List Correction → List Text
tables_with tables [] = tables
tables_with tables (c ∷ corrections) =
    tables_with
      (merge_ordered_strings tables
        (normalized_names (list_or c.tables_affected c.tables_involved)))
      corrections

-- What the loop adds to the learned instructions.
unfoldable pub lessons : Text → List Correction → List Text
lessons query = map (λ c. strip (
    codes "Correction for '"
    ++ (or_else (text_or c.source_query) query ++ (codes "': " ++ c.content))))

-- The line of a correction in the context.
unfoldable pub correction_line : Correction → Text
correction_line c =
    let tables = join (codes ", ") c.tables_affected in
    let failed_sql = strip (text_or c.failed_sql) in
    strip (codes "- " ++ c.content)
    ++ ((if nonempty tables then codes " (tables: " ++ (tables ++ codes ")") else [])
        ++ (if nonempty failed_sql
            then codes " | prior failed SQL: " ++ take 200 failed_sql
            else []))

module _ (f : Floats) where
  -- `str(state.get("search_query") or query)`
  abbrev pub search_query_or : Text → State f → Text
  search_query_or query s = or_else s.search_query query

  unfoldable pub past_corrections : Services f → Text → Text → State f → State f × Text
  unfolding tables_with lessons correction_line
  past_corrections sv input query s =
      let correction_query = or_else input (search_query_or query s) in
      let corrections = sv.retrieve_similar_corrections correction_query in
      let block =
        codes "PAST CORRECTIONS:\n" ++ join (codes "\n") (map correction_line corrections) in
      (
        record s {
          past_corrections_checked = true;
          past_corrections = corrections;
          tables_in_scope = tables_with s.tables_in_scope corrections;
          learned_instructions =
              merge_ordered_strings []
                (s.learned_instructions ++ lessons correction_query corrections);
          context = if some_in corrections then merge_context_block s.context block else s.context;
        },
        (if some_in corrections
            then codes "Retrieved "
              ++ (decimal (length corrections) ++ codes " past correction(s).")
            else codes "No similar past corrections found."),
      )

-- ===== src/Agent/Planner.antt =====
-- The decisions of nl2sql_service/agent/react_planner.py and react_executor.py that need no model:
-- which actions are open, which one the state itself calls for, and how a run recovers from a
-- reply that it cannot read.
pub mod Laws
use nl2sqlcopy.Prelude.{
  ℕ, zero, suc, Bool, true, false, not, ◌&&◌, ◌||◌, Option, none, some, List, [], ◌∷◌, ◌++◌, map,
  Eq, ◌==◌, eqb, ltb, leb, any, all, length, filter, if◌then◌else◌,
}
use nl2sqlcopy.Dict
use nl2sqlcopy.Dict.{Dict}
use nl2sqlcopy.Floats.{Floats}
use nl2sqlcopy.Text.{
  Text, codes, text_eq, text_beq, nonempty, or_else, lower, strip, join, is_space,
}
use nl2sqlcopy.Agent.Actions.{
  ReActAction, retrieve_past_corrections, retrieve_schema_for_tables, retrieve_join_paths,
  retrieve_sample_queries, request_clarification, retrieve_more_context, fetch_schema, generate_sql,
  validate_and_return, ask_clarification, give_up, action_eq, same_action, value,
}
use nl2sqlcopy.Agent.Names.{normalize_table_name, parse_csv_items, member, squeeze, sorted}
use nl2sqlcopy.Agent.State.{State, Settings, normalized_names}

-- `if items`
abbrev pub some_in {ℓ} : {A : Type ℓ} → List A → Bool
some_in [] = false
some_in (x ∷ xs) = true

-- `a or b` on lists
abbrev pub list_or {ℓ} : {A : Type ℓ} → List A → List A → List A
list_or [] b = b
list_or (x ∷ xs) b = x ∷ xs

abbrev pub keys : Dict Text (List Text) → List Text
keys = map (λ entry. entry.0)

-- Whether an action asks for the schema of tables.
abbrev pub is_schema_retrieval : ReActAction → Bool
is_schema_retrieval retrieve_more_context = true
is_schema_retrieval retrieve_schema_for_tables = true
is_schema_retrieval fetch_schema = true
is_schema_retrieval _ = false

abbrev pub offers : List ReActAction → ReActAction → Bool
offers actions action = any (λ a. a == action) actions

-- `if action not in deduped: deduped.append(action)`
unfoldable pub dedup_onto : List ReActAction → List ReActAction → List ReActAction
dedup_onto deduped [] = deduped
dedup_onto deduped (a ∷ actions) =
    dedup_onto (if offers deduped a then deduped else deduped ++ a ∷ []) actions

abbrev pub when : Bool → ReActAction → List ReActAction
when true a = a ∷ []
when false a = []

-- `\b(?:ACTION|NEXT\s+ACTION)\b\s*[:=\-]` in any case. Where NEXT ACTION matches, so does its
-- second word alone; `after_word` says that the character before belongs to a word.
abbrev is_word : ℕ → Bool
is_word c =
    (leb b'a' c && leb c b'z')
    || (leb b'A' c && leb c b'Z')
    || (leb b'0' c && leb c b'9')
    || eqb c b'_'

abbrev after_spaces : Text → Bool
after_spaces [] = false
after_spaces (c ∷ s) = (eqb c b':' || eqb c b'=' || eqb c b'-') || (is_space c && after_spaces s)

abbrev marker_here : Text → Text → Bool
marker_here [] s = after_spaces s
marker_here (d ∷ word) [] = false
marker_here (d ∷ word) (c ∷ s) = eqb c d && marker_here word s

unfoldable pub has_action_marker : Bool → Text → Bool
has_action_marker after_word [] = false
has_action_marker after_word (c ∷ s) =
    (not after_word && marker_here (codes "action") (lower (c ∷ s)))
    || has_action_marker (is_word c) s

-- `_action_target`, over the two fields of the state that it reads
unfoldable pub target_of : ReActAction → Text → List Text → Text → Text
target_of retrieve_join_paths input tables query =
    join (codes ",") (sorted (map normalize_table_name (filter nonempty tables)))
target_of retrieve_sample_queries input tables query = lower (squeeze (or_else input query))
target_of retrieve_past_corrections input tables query = lower (squeeze (or_else input query))
target_of action input tables query =
    if is_schema_retrieval action
    then join (codes ",") (list_or (parse_csv_items input) (map normalize_table_name tables))
    else value action

abbrev pub is_corrections_only : List ReActAction → Bool
is_corrections_only (retrieve_past_corrections ∷ []) = true
is_corrections_only _ = false

module _ (f : Floats) where
  open f use {Float, le, lt}

  unfoldable pub action_target : ReActAction → Text → State f → Text
  action_target action input s = target_of action input s.tables_in_scope s.search_query

  -- `uncovered_tables` of `_build_available_actions`
  unfoldable pub uncovered_tables : State f → List Text → List Text
  uncovered_tables s tables =
      filter
        (λ t.
          not
            (member (normalize_table_name t) (map normalize_table_name (keys s.retrieved_schema))))
        tables

  abbrev pub ambiguity_high : Settings f → State f → Bool
  ambiguity_high settings s =
      lt s.context_confidence_score settings.react_confidence_threshold
      && (not (some_in s.sample_queries)
          && (ltb 1 (length s.focus_tables)
              || (not (some_in s.matched_groups) || some_in s.last_validation_errors)))

  unfoldable pub open_actions : Settings f → State f → List ReActAction
  open_actions settings s =
      let tables = list_or s.focus_tables s.tables_in_scope in
      when (not (some_in tables) || some_in (uncovered_tables s tables)) retrieve_schema_for_tables
      ++ (when (ltb 1 (length s.focus_tables) && not (some_in s.join_paths)) retrieve_join_paths
          ++ (when (ambiguity_high settings s) retrieve_sample_queries
              ++ (when (some_in tables) generate_sql ++ request_clarification ∷ give_up ∷ [])))

  -- `_build_available_actions`
  unfoldable pub available_actions : State f → ℕ → Settings f → List ReActAction
  unfolding open_actions dedup_onto
  available_actions s iteration settings =
      if eqb iteration 1 && not s.past_corrections_checked
      then retrieve_past_corrections ∷ []
      else if le settings.react_confidence_threshold s.context_confidence_score
          && some_in s.tables_in_scope
      then generate_sql ∷ request_clarification ∷ give_up ∷ []
      else dedup_onto [] (open_actions settings s)

  -- `tables` and `uncovered` of `_select_state_driven_action`
  abbrev pub wanted_tables : State f → List Text
  wanted_tables s = list_or (normalized_names s.focus_tables) (normalized_names s.tables_in_scope)

  abbrev pub uncovered_names : State f → List Text
  uncovered_names s =
      filter (λ t. not (member t (normalized_names (keys s.retrieved_schema)))) (wanted_tables s)

  abbrev pub needs_schema : State f → Bool
  needs_schema s = not (some_in (wanted_tables s)) || some_in (uncovered_names s)

  abbrev pub needs_joins : State f → Bool
  needs_joins s = ltb 1 (length (normalized_names s.focus_tables)) && not (some_in s.join_paths)

  -- `_select_state_driven_action`
  unfoldable pub state_driven_action :
      State f → List ReActAction → Text → Option (ReActAction × Text)
  state_driven_action s available search_query =
      let targets = list_or (uncovered_names s) (wanted_tables s) in
      let input = if some_in targets then join (codes ", ") targets else search_query in
      if is_corrections_only available
      then some (retrieve_past_corrections, search_query)
      else if offers available retrieve_schema_for_tables && needs_schema s
      then some (
        retrieve_schema_for_tables,
        or_else input (codes "Retrieve targeted schema for the current question."),
      )
      else if offers available retrieve_join_paths && needs_joins s
      then some (retrieve_join_paths, join (codes ", ") (wanted_tables s))
      else none

  abbrev has_sql : Option Text → Bool
  has_sql none = false
  has_sql (some sql) = nonempty sql

  -- `choose_recovery_action_for_parse_failure`
  unfoldable pub recovery_action : Text → State f → Option (ReActAction × Text)
  recovery_action answer s =
      if nonempty (strip answer) && has_action_marker false answer
      then none
      else if has_sql s.current_sql
      then (if some_in s.last_validation_errors
          then some (
            generate_sql,
            codes "Planner output was unparseable; regenerate SQL to fix validation errors.",
          )
          else some (
            validate_and_return,
            codes "Planner output was unparseable; validate the current SQL.",
          ))
      else if not (some_in s.tables_in_scope)
      then some (
        retrieve_schema_for_tables,
        codes "Planner output was unparseable; retrieve more schema context.",
      )
      else some (
        generate_sql,
        codes "Planner output was unparseable; generate SQL from the retrieved context.",
      )

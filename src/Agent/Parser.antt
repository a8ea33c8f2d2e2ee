-- ===== src/Agent/Parser.antt =====
-- nl2sql_service/agent/react_parser.py: which action a word of a reply names. The search for the
-- word in the reply's lines is left out.
use nl2sqlcopy.Prelude.{
  ◌≡◌, refl, Bool, ◌&&◌, ◌||◌, not, Option, none, some, List, [], ◌∷◌, map, ◌==◌, eqb, leb, filter,
  any, if◌then◌else◌, ℕ, ◌-◌,
}
use nl2sqlcopy.Dict
use nl2sqlcopy.Dict.{Dict}
use nl2sqlcopy.Text.{
  Text, codes, text_eq, nonempty, strip, strip_of, replace, drop_while, is_space, lower, lower_char,
}
use nl2sqlcopy.Agent.Actions.{
  ReActAction, retrieve_past_corrections, retrieve_schema_for_tables, retrieve_join_paths,
  retrieve_sample_queries, request_clarification, retrieve_more_context, fetch_schema, generate_sql,
  validate_and_return, ask_clarification, give_up, value,
}
use nl2sqlcopy.Agent.Names.{has_part}

-- `for action in ReActAction`
abbrev pub all_actions : List ReActAction
all_actions =
    retrieve_past_corrections ∷ retrieve_schema_for_tables ∷ retrieve_join_paths
    ∷ retrieve_sample_queries ∷ request_clarification ∷ retrieve_more_context ∷ fetch_schema
    ∷ generate_sql ∷ validate_and_return ∷ ask_clarification ∷ give_up ∷ []

abbrev pub aliases : Dict Text ReActAction
aliases =
    (codes "RETRIEVE_PAST", retrieve_past_corrections)
    ∷ (codes "LOAD_PAST_CORRECTIONS", retrieve_past_corrections)
    ∷ (codes "RETRIEVE_SCHEMA", retrieve_schema_for_tables)
    ∷ (codes "RETRIEVE_CONTEXT", retrieve_more_context)
    ∷ (codes "RETRIEVE_MORE", retrieve_more_context)
    ∷ (codes "FETCH_COLUMNS", retrieve_schema_for_tables)
    ∷ (codes "GET_SCHEMA", retrieve_schema_for_tables)
    ∷ (codes "FETCH_SCHEMA", retrieve_schema_for_tables)
    ∷ (codes "JOIN_PATHS", retrieve_join_paths)
    ∷ (codes "RETRIEVE_JOINS", retrieve_join_paths)
    ∷ (codes "SAMPLE_QUERIES", retrieve_sample_queries)
    ∷ (codes "RETRIEVE_EXAMPLES", retrieve_sample_queries)
    ∷ (codes "GENERATE", generate_sql)
    ∷ (codes "WRITE_SQL", generate_sql)
    ∷ (codes "VALIDATE", validate_and_return)
    ∷ (codes "RETURN_SQL", validate_and_return)
    ∷ (codes "ASK_CLARIFICATION", request_clarification)
    ∷ (codes "REQUEST_CLARIFICATION", request_clarification)
    ∷ (codes "CLARIFY", request_clarification)
    ∷ (codes "GIVEUP", give_up)
    ∷ []

-- The characters of `[A-Za-z0-9_]`, and those that are stripped.
unfoldable pub is_token : ℕ → Bool
is_token c =
    (leb b'A' c && leb c b'Z')
    || (leb b'a' c && leb c b'z')
    || (leb b'0' c && leb c b'9')
    || eqb c b'_'

unfoldable pub is_mark : ℕ → Bool
is_mark c = any (λ d. eqb d c) (codes "`*\"'[](){}.,;:")

unfoldable pub upper_char : ℕ → ℕ
upper_char c = if leb b'a' c && leb c b'z' then c - 32 else c

-- `_normalize_token`
unfoldable pub normalize_token : Text → Text
unfolding is_token is_mark upper_char
normalize_token raw =
    map upper_char
      (filter is_token (replace b' ' b'_' (replace b'-' b'_' (strip_of is_mark (strip raw)))))

-- `exact.get(normalized)`
unfoldable pub exact_action : List ReActAction → Text → Option ReActAction
exact_action [] normalized = none
exact_action (action ∷ actions) normalized =
    let rest = exact_action actions normalized in
    if value action == normalized then some action else rest

-- The first action whose name is part of the token.
unfoldable pub part_action : List ReActAction → Text → Option ReActAction
part_action [] normalized = none
part_action (action ∷ actions) normalized =
    let rest = part_action actions normalized in
    if has_part normalized (value action) then some action else rest

unfoldable pub part_alias : Dict Text ReActAction → Text → Option ReActAction
part_alias [] normalized = none
part_alias ((alias, action) ∷ more) normalized =
    let rest = part_alias more normalized in if has_part normalized alias then some action else rest

-- The first of two that is there.
abbrev first_of : Option ReActAction → Option ReActAction → Option ReActAction
first_of (some action) other = some action
first_of none other = other

-- `_resolve_action`
unfoldable pub resolve_action : Text → Option ReActAction
unfolding normalize_token exact_action part_action part_alias
resolve_action raw =
    let normalized = normalize_token raw in
    if not (nonempty normalized)
    then none
    else first_of (exact_action all_actions normalized) (
        first_of (Dict.get aliases normalized)
          (first_of (part_action all_actions normalized) (part_alias aliases normalized)))

-- A name as a sentence writes it: small letters, and blanks between the words.
abbrev pub spoken : Text → Text
spoken s = replace b'_' b' ' (lower s)

-- Every action is understood by the name that the planner is given for it, and also where the reply
-- writes that name in small letters with blanks.
pub resolve_action-value :
    (action : ReActAction)
    → (resolve_action (value action) ≡ some action)
      × (resolve_action (spoken (value action)) ≡ some action)
unfolding resolve_action value drop_while is_space lower_char
resolve_action-value retrieve_past_corrections = (refl, refl)
resolve_action-value retrieve_schema_for_tables = (refl, refl)
resolve_action-value retrieve_join_paths = (refl, refl)
resolve_action-value retrieve_sample_queries = (refl, refl)
resolve_action-value request_clarification = (refl, refl)
resolve_action-value retrieve_more_context = (refl, refl)
resolve_action-value fetch_schema = (refl, refl)
resolve_action-value generate_sql = (refl, refl)
resolve_action-value validate_and_return = (refl, refl)
resolve_action-value ask_clarification = (refl, refl)
resolve_action-value give_up = (refl, refl)

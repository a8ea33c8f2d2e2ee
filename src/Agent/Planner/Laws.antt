-- ===== src/Agent/Planner/Laws.antt =====
-- What the planner's decisions promise: a way out is always open, and no action is chosen that is
-- not on offer.
use nl2sqlcopy.Prelude.{
  ℕ, ◌≡◌, refl, ◌⊎◌, inl, inr, Bool, true, false, not, ◌&&◌, ◌||◌, some, List, [], ◌∷◌, ◌++◌, arith,
  ◌≤◌, eqb, Bool-cases, Some, filter, length,
}
use nl2sqlcopy.Floats.{Floats}
use nl2sqlcopy.Text.{Text}
use nl2sqlcopy.Agent.Actions.{
  ReActAction, retrieve_past_corrections, retrieve_schema_for_tables, retrieve_join_paths,
  retrieve_sample_queries, request_clarification, generate_sql, give_up, action_eq,
}
use nl2sqlcopy.Agent.Names.{member}
use nl2sqlcopy.Agent.State.{State, Settings, normalized_names}
use nl2sqlcopy.Agent.Planner.{
  some_in, list_or, offers, when, dedup_onto, open_actions, available_actions, state_driven_action,
  is_corrections_only, keys, needs_schema, needs_joins,
}

-- Whether an action stands twice in a list.
abbrev pub repeats : List ReActAction → Bool
repeats [] = false
repeats (a ∷ actions) = offers actions a || repeats actions

deduped_lem :
    (schema joins samples tables : Bool)
    → let actions = dedup_onto [] (
        when schema retrieve_schema_for_tables
        ++ (when joins retrieve_join_paths
            ++ (when samples retrieve_sample_queries
                ++ (when tables generate_sql ++ request_clarification ∷ give_up ∷ [])))) in
      (offers actions give_up ≡ true)
      × (offers actions request_clarification ≡ true)
      × (offers actions generate_sql ≡ tables)
      × (repeats actions ≡ false)
unfolding dedup_onto
deduped_lem schema joins samples tables = ground arith

known : (focus scope : List Text) → some_in scope ≡ true → some_in (list_or focus scope) ≡ true
known [] scope h = h
known (t ∷ focus) scope h = refl

corrections_offered :
    (available : List ReActAction)
    → is_corrections_only available ≡ true
    → offers available retrieve_past_corrections ≡ true
corrections_offered available h = ground arith

corrections_only-lem :
    (available : List ReActAction)
    → is_corrections_only available ≡ true
    → offers available give_up ≡ true
    → true ≡ false
corrections_only-lem available h k = ground arith

none_there {ℓ} : {A : Type ℓ} (xs : List A) → some_in xs ≡ false → xs ≡ []
none_there [] h = refl
none_there (x ∷ xs) h = cc h

one_fails :
    (test : Text → Bool) (xs : List Text)
    → some_in (filter (λ x. not (test x)) xs) ≡ true
    → Some (λ x. test x ≡ false) xs
one_fails test [] h = absurd (cc h)
one_fails test (x ∷ xs) h = elim (Bool-cases (test x)) [
  | inl good ↦ inr (one_fails test xs (rw good at h))
  | inr bad ↦ inl bad
]

module _ (f : Floats) where
  open f use {le}

  pub available_actions-offers :
      (s : State f) (iteration : ℕ) (settings : Settings f)
      → let actions = available_actions f s iteration settings in
        ((iteration ≡ 1)
          × (s.past_corrections_checked ≡ false)
          × (actions ≡ retrieve_past_corrections ∷ []))
        ⊎ ((offers actions give_up ≡ true)
            × (offers actions request_clarification ≡ true)
            × (offers actions generate_sql ≡ some_in (list_or s.focus_tables s.tables_in_scope))
            × (repeats actions ≡ false))
  unfolding available_actions open_actions
  available_actions-offers s iteration settings =
      elim (Bool-cases (eqb iteration 1 && not s.past_corrections_checked)) [
        | inl first ↦ inl (ground arith, ground arith, rw first)
        | inr later ↦
            elim (Bool-cases (
              le settings.react_confidence_threshold s.context_confidence_score
              && some_in s.tables_in_scope)) [
                | inl confident ↦
                    let tables = known s.focus_tables s.tables_in_scope (ground arith) in
                    inr (rw (later, confident, tables) (refl, refl, refl, refl))
                | inr unsure ↦ inr (rw (later, unsure) (deduped_lem _ _ _ _))
              ]
      ]

  -- No table is wanted, in focus or else in scope, or some wanted table has no schema yet.
  abbrev pub LacksSchema : State f → Type 0
  LacksSchema s =
      let wanted = list_or (normalized_names s.focus_tables) (normalized_names s.tables_in_scope) in
      (wanted ≡ [])
      ⊎ Some (λ t. member t (normalized_names (keys s.retrieved_schema)) ≡ false) wanted

  -- Two tables are in focus and no join path is known.
  abbrev pub LacksJoins : State f → Type 0
  LacksJoins s = (2 ≤ length (normalized_names s.focus_tables)) × (s.join_paths ≡ [])

  lacks_schema : (s : State f) → needs_schema f s ≡ true → LacksSchema s
  lacks_schema s h =
      let wanted = list_or (normalized_names s.focus_tables) (normalized_names s.tables_in_scope) in
      elim (Bool-cases (some_in wanted)) [
        | inr nothing ↦ inl (none_there wanted nothing)
        | inl something ↦ inr (
            one_fails (λ t. member t (normalized_names (keys s.retrieved_schema))) wanted
              (rw something at h))
      ]

  lacks_joins : (s : State f) → needs_joins f s ≡ true → LacksJoins s
  lacks_joins s h = (ground arith, none_there s.join_paths (ground arith))

  -- The branches that choose an action.
  state_driven_action-cases :
      (s : State f) (available : List ReActAction) (search_query input : Text)
      (action : ReActAction)
      → state_driven_action f s available search_query ≡ some (action, input)
      → (offers available action ≡ true)
        × (((action ≡ retrieve_past_corrections) × (is_corrections_only available ≡ true))
            ⊎ (((action ≡ retrieve_schema_for_tables) × (needs_schema f s ≡ true))
                ⊎ ((action ≡ retrieve_join_paths) × (needs_joins f s ≡ true))))
  unfolding state_driven_action
  state_driven_action-cases s available search_query input action h =
      elim (Bool-cases (is_corrections_only available)) [
        | inl only ↦
            let chosen : action ≡ retrieve_past_corrections = cc (rw only at h) in
            (rw chosen (corrections_offered available only), inl (chosen, only))
        | inr more ↦
            elim (Bool-cases (offers available retrieve_schema_for_tables && needs_schema f s)) [
              | inl schema ↦
                  let chosen : action ≡ retrieve_schema_for_tables = cc (rw (more, schema) at h) in
                  (rw chosen (ground arith), inr (inl (chosen, ground arith)))
              | inr covered ↦
                  elim (Bool-cases (offers available retrieve_join_paths && needs_joins f s)) [
                    | inl joins ↦
                        let chosen : action ≡ retrieve_join_paths =
                          cc (rw (more, covered, joins) at h) in
                        (rw chosen (ground arith), inr (inr (chosen, ground arith)))
                    | inr none_needed ↦ cc (rw (more, covered, none_needed) at h)
                  ]
            ]
      ]

  -- The corrections alone are on offer at the first iteration only.
  corrections_first :
      (s : State f) (iteration : ℕ) (settings : Settings f)
      → is_corrections_only (available_actions f s iteration settings) ≡ true
      → (iteration ≡ 1) × (s.past_corrections_checked ≡ false)
  corrections_first s iteration settings h = elim (available_actions-offers s iteration settings) [
    | inl (first, unchecked, only) ↦ (first, unchecked)
    | inr (gives_up, clarifies, generates, once) ↦
        cc (corrections_only-lem (available_actions f s iteration settings) h gives_up)
  ]

  -- An action that the state itself calls for, of what the planner offers, is on offer, and is one of
  -- three: the retrieval of past corrections, at the first iteration while they are unchecked; that of
  -- the schema, while no table is wanted or a wanted table has none; that of join paths, while there
  -- are none and two tables are in focus.
  pub state_driven_action-offered :
      (s : State f) (iteration : ℕ) (settings : Settings f) (search_query input : Text)
      (action : ReActAction)
      → state_driven_action f s (available_actions f s iteration settings) search_query
        ≡ some (action, input)
      → (offers (available_actions f s iteration settings) action ≡ true)
        × (((action ≡ retrieve_past_corrections)
              × (iteration ≡ 1)
              × (s.past_corrections_checked ≡ false))
            ⊎ ((action ≡ retrieve_schema_for_tables) × LacksSchema s)
            ⊎ ((action ≡ retrieve_join_paths) × LacksJoins s))
  state_driven_action-offered s iteration settings search_query input action h =
      let (offered, why) =
        state_driven_action-cases s (available_actions f s iteration settings) search_query input
          action h in
      (
        offered,
        elim why [
          | inl (chosen, only) ↦
              let (first, unchecked) = corrections_first s iteration settings only in
              inl (chosen, first, unchecked)
          | inr (inl (chosen, needed)) ↦ inr (inl (chosen, lacks_schema s needed))
          | inr (inr (chosen, needed)) ↦ inr (inr (chosen, lacks_joins s needed))
        ],
      )

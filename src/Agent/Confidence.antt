-- ===== src/Agent/Confidence.antt =====
-- `compute_context_confidence_score` of nl2sql_service/agent/react_executor.py: the weighted score
-- of the context, clamped to [0, 1]. The rounded copies of its parts for traces are left out.
use nl2sqlcopy.Prelude.{
  ℕ, ◌-◌, ◌≡◌, true, ◌||◌, List, [], ◌∷◌, ltb, eqb, max, filter, length, Bool-cases, inl, inr,
  if◌then◌else◌,
}
use nl2sqlcopy.Floats.{Floats, fmax, fmin, ratio}
use nl2sqlcopy.Text.{Text, text_eq}
use nl2sqlcopy.Agent.Names.{member}
use nl2sqlcopy.Agent.State.{State, Settings, normalized_names}
use nl2sqlcopy.Agent.Planner.{keys, list_or, some_in}

-- A set of texts: each of them once.
unfoldable pub distinct : List Text → List Text
distinct [] = []
distinct (x ∷ xs) = let rest = distinct xs in if member x rest then rest else x ∷ rest

module _ (f : Floats) where
  open f use {
    Float, zero, one, of_ℕ, add, mul, sub, le, lt, le_refl, le_of_lt, lt-not_le, zero-le-one,
  }

  unfoldable pub confidence_tables : State f → List Text
  unfolding distinct
  confidence_tables s =
      distinct (list_or (normalized_names s.focus_tables) (normalized_names s.tables_in_scope))

  unfoldable pub table_coverage_ratio : State f → Float
  table_coverage_ratio s =
      let tables = confidence_tables s in
      let covered = filter (λ t. member t (normalized_names (keys s.retrieved_schema))) tables in
      if some_in tables then ratio f (length covered) (length tables) else zero

  unfoldable pub join_path_score : State f → Float
  join_path_score s =
      let tables = confidence_tables s in
      if ltb 1 (length tables)
      then fmin f one (ratio f (length s.join_paths) (max 1 (length tables - 1)))
      else if some_in tables
      then one
      else zero

  -- `max(1, int(state.get("top_k") or settings.top_k or 1))`
  unfoldable pub matched_group_score : Settings f → State f → Float
  matched_group_score settings s =
      let top_k = if eqb s.top_k 0 then settings.top_k else s.top_k in
      if some_in s.matched_groups
      then fmin f one (ratio f (length s.matched_groups) (max 1 top_k))
      else zero

  unfoldable pub prior_example_score : State f → Float
  prior_example_score s =
      if some_in s.sample_queries || some_in s.past_corrections then one else zero

  unfoldable pub raw_score : Settings f → State f → Float
  unfolding confidence_tables table_coverage_ratio join_path_score matched_group_score
      prior_example_score
  raw_score settings s =
      add
        (add
          (add (mul (table_coverage_ratio s) settings.react_confidence_tables_weight)
            (mul (join_path_score s) settings.react_confidence_join_paths_weight))
          (mul (matched_group_score settings s) settings.react_confidence_group_weight))
        (mul (prior_example_score s) settings.react_confidence_example_weight)

  unfoldable pub confidence_score : Settings f → State f → ℕ → Float
  unfolding raw_score fmax fmin
  confidence_score settings s iteration_count =
      let penalty = mul (of_ℕ (iteration_count - 1)) settings.react_confidence_iteration_penalty in
      fmax f zero (fmin f one (sub (raw_score settings s) penalty))

  clamp_bounds :
      (x : Float)
      → (le zero (fmax f zero (fmin f one x)) ≡ true) × (le (fmax f zero (fmin f one x)) one ≡ true)
  unfolding fmax fmin
  clamp_bounds x = elim (Bool-cases (lt x one)) [
    | inl below ↦ elim (Bool-cases (lt zero x)) [
      | inl above ↦ rw (below, above) (le_of_lt zero x above, le_of_lt x one below)
      | inr not_above ↦ rw (below, not_above) (le_refl zero, zero-le-one)
    ]
    | inr not_below ↦ elim (Bool-cases (lt zero one)) [
      | inl above ↦ rw (not_below, above) (zero-le-one, le_refl one)
      | inr not_above ↦ rw (not_below, not_above) (le_refl zero, zero-le-one)
    ]
  ]

  -- The score lies between 0 and 1, whatever the weights, the state and the iteration.
  pub confidence_score_bounds :
      (settings : Settings f) (s : State f) (n : ℕ)
      → (le zero (confidence_score settings s n) ≡ true)
        × (le (confidence_score settings s n) one ≡ true)
  unfolding confidence_score
  confidence_score_bounds settings s n = clamp_bounds _

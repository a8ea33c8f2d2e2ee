-- ===== src/Generation/Deterministic/Template.antt =====
-- The theorem on `build_deterministic_sql`.
use nl2sqlcopy.Prelude.{ℕ, ◌≤◌, ◌≡◌, true, List, [], ◌∷◌, length}
use nl2sqlcopy.Dict.{Dict}
use nl2sqlcopy.Text.{Text, text_eq}
use nl2sqlcopy.Agent.Names.{member}
use nl2sqlcopy.Agent.Planner.{some_in, keys}
use nl2sqlcopy.Generation.Deterministic.Laws.{inside}
use nl2sqlcopy.Generation.Deterministic.{render, columns_for}

-- SQL of the template: on one table whose columns are given, from 1 to 8 of which it selects, with a
-- limit from 1 to 50.
pub record Templated (allowed_columns : Dict Text (List Text)) (sql : Text) (used : List Text)
    : Type 0 where
  pub table : Text
  pub selected : List Text
  pub clause : Text
  pub limit : ℕ
  pub one_table : used ≡ table ∷ []
  pub is_given : member table (keys allowed_columns) ≡ true
  pub is_rendered : sql ≡ render table selected clause limit
  pub are_columns : inside (columns_for allowed_columns table) selected ≡ true
  pub some_selected : some_in selected ≡ true
  pub at_most : length selected ≤ 8
  pub limited : (1 ≤ limit) × (limit ≤ 50)

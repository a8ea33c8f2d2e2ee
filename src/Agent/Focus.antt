-- ===== src/Agent/Focus.antt =====
-- `_generation_tables_in_scope`, `_generation_allowed_columns` and `_focused_tables_for_generation`
-- of nl2sql_service/agent/react_executor.py: the tables that SQL may be generated from. The hits of
-- the vector store are an argument.
pub mod Laws
use nl2sqlcopy.Prelude.{
  ℕ, ◌+◌, ◌*◌, max, Bool, true, false, not, ◌&&◌, ◌||◌, Option, none, some, List, [], ◌∷◌, ◌++◌,
  map, Eq, ◌==◌, eqb, ltb, leb, take, length, filter, if◌then◌else◌,
}
use nl2sqlcopy.Dict
use nl2sqlcopy.Dict.{Dict}
use nl2sqlcopy.Floats.{Floats, fmax}
use nl2sqlcopy.Text.{Text, text_eq, text_beq, nonempty}
use nl2sqlcopy.Agent.Names.{normalize_table_name, member, add_all}
use nl2sqlcopy.Agent.State.{State, normalized_names}
use nl2sqlcopy.Agent.Planner.{some_in, list_or}

module _ (f : Floats) where
  open f use {Float, lt}

  unfoldable pub generation_tables : State f → List Text
  generation_tables s =
      list_or (normalized_names s.generation_tables_in_scope) (normalized_names s.tables_in_scope)

  -- The entries of a dict whose normalized key is one of the tables, under that key.
  unfoldable pub columns_of :
      List Text → Dict Text (List Text) → Dict Text (List Text) → Dict Text (List Text)
  columns_of tables kept [] = kept
  columns_of tables kept ((table, columns) ∷ rest) =
      let key = normalize_table_name table in
      columns_of tables (if member key tables then Dict.put kept key columns else kept) rest

  unfoldable pub generation_allowed_columns : State f → Dict Text (List Text)
  unfolding generation_tables columns_of
  generation_allowed_columns s =
      let tables = generation_tables s in
      if some_in tables then columns_of tables [] s.allowed_columns else s.allowed_columns

  -- A column hit of the vector store.
  pub record Hit : Type 0 where
    pub table_name : Text
    pub similarity : Float

  -- A table with its score, the index of its first hit and its place in scope.
  pub record Scored : Type 0 where
    pub table : Text
    pub score : Float
    pub first_hit : ℕ
    pub original : ℕ

  -- `original_order[table]`
  unfoldable pub place : Text → List Text → ℕ → ℕ
  place table [] index = index
  place table (t ∷ tables) index =
      let rest = place table tables (index + 1) in if t == table then index else rest

  -- `table_scores` and `first_hit_order` after a hit at `index` of a table in scope.
  unfoldable pub score_hit : List Text → Hit → ℕ → List Scored → List Scored
  unfolding place
  score_hit tables hit index [] =
      record {
        table = normalize_table_name hit.table_name;
        score = hit.similarity;
        first_hit = index;
        original = place (normalize_table_name hit.table_name) tables 0;
      }
      ∷ []
  score_hit tables hit index (s ∷ scores) =
      let rest = score_hit tables hit index scores in
      if s.table == normalize_table_name hit.table_name
      then record s { score = fmax f hit.similarity s.score } ∷ scores
      else s ∷ rest

  -- The loop over the hits, with `column_hits_used`.
  unfoldable pub score_hits : List Text → List Hit → ℕ → ℕ → List Scored → List Scored × ℕ
  unfolding score_hit
  score_hits tables [] index used scores = (scores, used)
  score_hits tables (hit ∷ hits) index used scores =
      if member (normalize_table_name hit.table_name) tables
      then score_hits tables hits (index + 1) (used + 1) (score_hit tables hit index scores)
      else score_hits tables hits (index + 1) used scores

  -- The order of the sort's keys: the score downwards, the first hit, the place in scope.
  unfoldable pub comes_before : Scored → Scored → Bool
  comes_before a b =
      lt b.score a.score
      || (not (lt a.score b.score)
          && (ltb a.first_hit b.first_hit
              || (eqb a.first_hit b.first_hit && ltb a.original b.original)))

  -- `sorted`: an element moves in front of the elements that it comes before.
  unfoldable pub insert_scored : Scored → List Scored → List Scored
  insert_scored x [] = x ∷ []
  insert_scored x (y ∷ ys) =
      let rest = insert_scored x ys in if comes_before y x then y ∷ rest else x ∷ y ∷ ys

  unfoldable pub sort_scored : List Scored → List Scored
  unfolding insert_scored comes_before
  sort_scored [] = []
  sort_scored (x ∷ xs) = insert_scored x (sort_scored xs)

  abbrev pub tables_of : List Scored → List Text
  tables_of = map (λ s. s.table)

  -- `_focused_tables_for_generation`
  unfoldable pub focused_tables : List Text → (ℕ → List Hit) → ℕ → List Text × ℕ
  unfolding score_hits sort_scored
  focused_tables tables_in_scope search_columns max_tables =
      let tables = add_all [] (map normalize_table_name tables_in_scope) in
      if not (some_in tables) || leb (length tables) max_tables
      then (tables, 0)
      else (let (scores, used) =
            score_hits tables (search_columns (max (max_tables * 8) (length tables * 4))) 0 0 [] in
          if some_in scores
          then (take max_tables (tables_of (sort_scored scores)), used)
          else (take max_tables tables, 0))

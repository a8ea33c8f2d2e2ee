-- ===== src/Agent/Focus/Laws.antt =====
-- What the choice of tables for a generation promises.
use nl2sqlcopy.Prelude.{
  ℕ, suc, zero, ◌+◌, ◌*◌, ◌≤◌, ◌≡◌, refl, max, true, not, ◌||◌, List, [], ◌∷◌, map, arith, ◌==◌,
  ==-refl, leb, leb→le, take, length, length-take-le, All, Bool-cases, inl, inr,
}
use nl2sqlcopy.Floats.{Floats}
use nl2sqlcopy.Text.{Text, text_eq}
use nl2sqlcopy.Agent.Names.{normalize_table_name, member, add_all}
use nl2sqlcopy.Agent.Planner.{some_in}
use nl2sqlcopy.Agent.Focus.{
  Hit, Scored, score_hit, score_hits, comes_before, insert_scored, sort_scored, tables_of,
  focused_tables,
}

All-take : (P : Text → Type 0) (n : ℕ) (xs : List Text) → All P xs → All P (take n xs)
All-take P zero xs h = tt
All-take P (suc n) [] h = tt
All-take P (suc n) (x ∷ xs) h = (h.0, All-take P n xs h.1)

-- A list is within every list that holds its elements.
All-member :
    (xs ys : List Text)
    → ((t : Text) → member t xs ≡ true → member t ys ≡ true)
    → All (λ t. member t ys ≡ true) xs
All-member [] ys h = tt
All-member (x ∷ xs) ys h =
    (h x (rw (==-refl x) refl), All-member xs ys (λ t there. h t (ground arith)))

module _ (f : Floats) (tables : List Text) where
  abbrev Within : List (Scored f) → Type 0
  Within scores = All (λ t. member t tables ≡ true) (tables_of f scores)

  score_hit-Within :
      (hit : Hit f) (index : ℕ) (scores : List (Scored f))
      → member (normalize_table_name hit.table_name) tables ≡ true
      → Within scores
      → Within (score_hit f tables hit index scores)
  unfolding score_hit
  score_hit-Within hit index [] known h = (known, tt)
  score_hit-Within hit index (s ∷ scores) known h =
      elim (Bool-cases (s.table == normalize_table_name hit.table_name)) [
        | inl same ↦ rw same h
        | inr other ↦ rw other (h.0, score_hit-Within hit index scores known h.1)
      ]

  score_hits-Within :
      (hits : List (Hit f)) (index used : ℕ) (scores : List (Scored f))
      → Within scores
      → Within (score_hits f tables hits index used scores).0
  unfolding score_hits
  score_hits-Within [] index used scores h = h
  score_hits-Within (hit ∷ hits) index used scores h =
      elim (Bool-cases (member (normalize_table_name hit.table_name) tables)) [
        | inl known ↦ rw known (
            score_hits-Within hits (index + 1) (used + 1) (score_hit f tables hit index scores)
              (score_hit-Within hit index scores known h))
        | inr unknown ↦ rw unknown (score_hits-Within hits (index + 1) used scores h)
      ]

  insert_scored-Within :
      (x : Scored f) (ys : List (Scored f))
      → member x.table tables ≡ true
      → Within ys
      → Within (insert_scored f x ys)
  unfolding insert_scored
  insert_scored-Within x [] known h = (known, tt)
  insert_scored-Within x (y ∷ ys) known h = elim (Bool-cases (comes_before f y x)) [
    | inl before ↦ rw before (h.0, insert_scored-Within x ys known h.1)
    | inr after ↦ rw after (known, h)
  ]

  sort_scored-Within : (xs : List (Scored f)) → Within xs → Within (sort_scored f xs)
  unfolding sort_scored
  sort_scored-Within [] h = tt
  sort_scored-Within (x ∷ xs) h =
      insert_scored-Within x (sort_scored f xs) h.0 (sort_scored-Within xs h.1)

module _ (f : Floats) where
  -- Whatever the vector store finds, the tables that a generation is focused on are no more than
  -- `max_tables`, and each of them is one of the normalized tables in scope.
  pub focused_tables-scope :
      (tables_in_scope : List Text) (search_columns : ℕ → List (Hit f)) (max_tables : ℕ)
      → let focused = (focused_tables f tables_in_scope search_columns max_tables).0 in
        let tables = add_all [] (map normalize_table_name tables_in_scope) in
        (length focused ≤ max_tables) × All (λ t. member t tables ≡ true) focused
  unfolding focused_tables
  focused_tables-scope tables_in_scope search_columns max_tables =
      let tables = add_all [] (map normalize_table_name tables_in_scope) in
      let all_tables = All-member tables tables (λ t there. there) in
      let hits = search_columns (max (max_tables * 8) (length tables * 4)) in
      let scores = (score_hits f tables hits 0 0 []).0 in
      let sorted = tables_of f (sort_scored f scores) in
      elim (Bool-cases (not (some_in tables) || leb (length tables) max_tables)) [
        | inl few ↦ rw few (few_tables tables max_tables few, all_tables)
        | inr many ↦ elim (Bool-cases (some_in scores)) [
          | inl hit ↦
              rw (many, hit)
                (
                  length-take-le max_tables sorted,
                  All-take _ max_tables sorted (
                      sort_scored-Within f tables scores
                        (score_hits-Within f tables hits 0 0 [] tt)),
                )
          | inr missed ↦
              rw (many, missed)
                (length-take-le max_tables tables, All-take _ max_tables tables all_tables)
        ]
      ]
    where
      few_tables :
          (tables : List Text) (n : ℕ)
          → (not (some_in tables) || leb (length tables) n) ≡ true
          → length tables ≤ n
      few_tables [] n h = omega arith
      few_tables (t ∷ tables) n h = leb→le (length (t ∷ tables)) n h

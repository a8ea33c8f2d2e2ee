-- ===== src/Agent/Execute/Validated.antt =====
-- What it takes for VALIDATE_AND_RETURN to report nothing that blocks.
use nl2sqlcopy.Prelude.{
  ◌≡◌, refl, arith, Bool, true, false, ◌||◌, Option, none, some, List, [], ◌∷◌, ◌++◌, Bool-cases,
  inl, inr,
}
use nl2sqlcopy.Dict.{Dict}
use nl2sqlcopy.Floats.{Floats}
use nl2sqlcopy.Text.{Text, nonempty}
use nl2sqlcopy.Agent.Actions.{SqlWarning, blocking_warnings}
use nl2sqlcopy.Agent.State.{State}
use nl2sqlcopy.Agent.Planner.{some_in}
use nl2sqlcopy.Agent.Focus.{generation_tables, generation_allowed_columns}
use nl2sqlcopy.Agent.Reasoning.{text_or}
use nl2sqlcopy.Agent.Services.{Services}
use nl2sqlcopy.Agent.Execute.Sql.{info_warnings, validate_sql, judge, scope_warnings}

-- Whether some warning blocks.
abbrev pub blocks : List SqlWarning → Bool
blocks warnings = some_in (blocking_warnings warnings)

pub blocks-append : (a b : List SqlWarning) → blocks (a ++ b) ≡ (blocks a || blocks b)
unfolding blocking_warnings
blocks-append [] b = refl
blocks-append (w ∷ a) b = ground (arith, blocks-append a b)

blocks-blocking : (a : List SqlWarning) → blocks (blocking_warnings a) ≡ blocks a
unfolding blocking_warnings
blocks-blocking [] = refl
blocks-blocking (w ∷ a) = ground (arith, blocks-blocking a)

blocks_uninformative :
    (a : List SqlWarning) → info_warnings a ≡ [] → some_in a ≡ true → blocks a ≡ true
unfolding blocking_warnings info_warnings
blocks_uninformative [] h k = cc k
blocks_uninformative (w ∷ a) h k = ground arith

module _ (f : Floats) where
  -- SQL that every check passes: no warning on its safety, and none that blocks on its tables, on
  -- its columns and from the database, in some scope of tables and columns.
  pub record Validated (sv : Services f) (current : Option Text) (used : List Text) : Type 0 where
    pub sql : Text
    pub tables : List Text
    pub columns : Dict Text (List Text)
    pub is_current : current ≡ some sql
    pub is_there : nonempty sql ≡ true
    pub is_safe : some_in (sv.validate_sql_safety sql) ≡ false
    pub tables_pass : blocks (sv.validate_tables_used sql tables).1 ≡ false
    pub columns_pass : blocks (sv.validate_columns_used sql columns) ≡ false
    pub explained : blocks (sv.run_explain sql) ≡ false
    pub is_used : used ≡ (sv.validate_tables_used sql tables).0

  judge-passes :
      (warnings : List SqlWarning) (s : State f)
      → blocks (judge f warnings s).2 ≡ false
      → blocks warnings ≡ false
  unfolding judge
  judge-passes warnings s h = elim (Bool-cases (blocks warnings)) [
    | inl bad ↦ cc (rw bad at h, blocks-blocking warnings)
    | inr good ↦ good
  ]

  judge-keeps :
      (warnings : List SqlWarning) (s : State f)
      → ((judge f warnings s).0.current_sql ≡ s.current_sql)
        × ((judge f warnings s).0.tables_used ≡ s.tables_used)
  unfolding judge
  judge-keeps warnings s = elim (Bool-cases (blocks warnings)) [
    | inl bad ↦ rw bad (refl, refl)
    | inr good ↦ rw good (refl, refl)
  ]

  scope-passes :
      (sv : Services f) (sql : Text) (s : State f)
      → blocks (scope_warnings f sv sql s) ≡ false
      → (blocks (sv.validate_tables_used sql (generation_tables f s)).1 ≡ false)
        × (blocks (sv.validate_columns_used sql (generation_allowed_columns f s)) ≡ false)
        × (blocks (sv.run_explain sql) ≡ false)
  unfolding scope_warnings
  scope-passes sv sql s h =
      let tables = (sv.validate_tables_used sql (generation_tables f s)).1 in
      let columns = sv.validate_columns_used sql (generation_allowed_columns f s) in
      let static = blocks-append tables columns in
      elim (Bool-cases (blocks (tables ++ columns))) [
        | inl bad ↦ cc (rw bad at h, bad)
        | inr good ↦
            (let all = blocks-append (tables ++ columns) (sv.run_explain sql) in
              let h' = rw good at h in
              (ground (arith, static), ground (arith, static), ground (arith, all)))
      ]

  there_is :
      (current : Option Text) → nonempty (text_or current) ≡ true → current ≡ some (text_or current)
  there_is none h = cc h
  there_is (some sql) h = refl

  -- Where warnings on safety always block, a validation without a blocking warning is a pass.
  pub validate_sql-Validated :
      (sv : Services f) (s : State f)
      → ((sql : Text) → info_warnings (sv.validate_sql_safety sql) ≡ [])
      → blocks (validate_sql f sv s).2 ≡ false
      → Validated sv (validate_sql f sv s).0.current_sql (validate_sql f sv s).0.tables_used
  unfolding validate_sql blocking_warnings
  validate_sql-Validated sv s serious h =
      let sql = text_or s.current_sql in
      let used = (sv.validate_tables_used sql (generation_tables f s)).0 in
      let after = record s { tables_used = used } in
      elim (Bool-cases (nonempty sql)) [
        | inr empty ↦ cc (rw empty at h)
        | inl there ↦ elim (Bool-cases (some_in (sv.validate_sql_safety sql))) [
          | inl unsafe ↦ cc (
            judge-passes (sv.validate_sql_safety sql) s (rw (there, unsafe) at h),
            blocks_uninformative (sv.validate_sql_safety sql) (serious sql) unsafe,
          )
          | inr safe ↦
              (let kept = judge-keeps (scope_warnings f sv sql s) after in
                let passed =
                  scope-passes sv sql s
                    (judge-passes (scope_warnings f sv sql s) after (rw (there, safe) at h)) in
                rw (there, safe)
                  record {
                    sql = sql;
                    tables = generation_tables f s;
                    columns = generation_allowed_columns f s;
                    is_current = cc (kept.0, there_is s.current_sql there);
                    is_there = there;
                    is_safe = safe;
                    tables_pass = passed.0;
                    columns_pass = passed.1;
                    explained = passed.2;
                    is_used = kept.1;
                  })
        ]
      ]

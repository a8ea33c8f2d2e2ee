-- ===== src/Generation/Service/Origin/Checked.antt =====
-- What the templates of nl2sql_service/generation/sql_generator.py that are returned have passed.
use nl2sqlcopy.Prelude.{
  ℕ, ◌≡◌, ◌∙◌, sym, ap, refl, Bool, true, false, Option, none, some, List, [], ◌∷◌, ◌++◌, Eq,
  Bool-cases, inl, inr, ◌⊎◌,
}
use nl2sqlcopy.Text.{Text}
use nl2sqlcopy.Floats.{Floats}
use nl2sqlcopy.Agent.Actions.{SqlWarning, WarningCode, is_blocking}
use nl2sqlcopy.Agent.Execute.Sql.{info_warnings, is_unavailable}
use nl2sqlcopy.Agent.Loop.Answers.{Success}
use nl2sqlcopy.Agent.Planner.{some_in}
use nl2sqlcopy.Generation.Review.{Columns}
use nl2sqlcopy.Generation.Safety.{Sqlparse, validate_sql_safety, validate_sql_safety-serious}
use nl2sqlcopy.Generation.Service.{Backends, GenerationSettings, Retrieved}
use nl2sqlcopy.Generation.Service.Template.{
  has_blocking_warnings, scope_of, scope_checks, judged_template, checked_template,
  guarded_template, caught, obvious_in, obvious_for, obvious_result, deterministic_in,
  deterministic_for, try_deterministic_generation, template_success,
}
use nl2sqlcopy.Generation.Tables.{validate_tables_used}
use nl2sqlcopy.Generation.ColumnScope.{validate_columns_used}
use nl2sqlcopy.Generation.Service.Origin.{IsChecked}

blocking-append :
    (xs ys : List SqlWarning)
    → has_blocking_warnings (xs ++ ys) ≡ false
    → (has_blocking_warnings xs ≡ false) × (has_blocking_warnings ys ≡ false)
unfolding has_blocking_warnings
blocking-append [] ys h = (refl, h)
blocking-append (x ∷ xs) ys h = elim (Bool-cases (is_blocking x.code)) [
  | inl blocks ↦ cc (rw blocks at h)
  | inr fine ↦ rw fine (blocking-append xs ys (rw fine at h))
]

blocks_or_informs : (code : WarningCode) → (is_blocking code ≡ true) ⊎ (is_unavailable code ≡ true)
blocks_or_informs WarningCode.mysql_explain_unavailable = inr refl
blocks_or_informs WarningCode.request_timeout = inl refl
blocks_or_informs _ = inl refl

-- Warnings that neither block nor inform are none.
no_warnings :
    (ws : List SqlWarning) → has_blocking_warnings ws ≡ false → info_warnings ws ≡ [] → ws ≡ []
unfolding has_blocking_warnings info_warnings
no_warnings [] h i = refl
no_warnings (w ∷ ws) h i = elim (blocks_or_informs w.code) [
  | inl blocks ↦ cc (rw blocks at h)
  | inr informs ↦ cc (rw informs at i)
]

no_element {ℓ} : {A : Type ℓ} (xs : List A) → some_in xs ≡ false → xs ≡ []
no_element [] h = refl
no_element (x ∷ xs) h = cc h

scope_of-some :
    (tables : Option (List Text × List SqlWarning)) (columns : Option (List SqlWarning))
    (validated : List Text) (more : List SqlWarning)
    → scope_of tables columns ≡ some (validated, more)
    → (table_warnings : List SqlWarning) × (column_warnings : List SqlWarning) × (tables
        ≡ some (validated, table_warnings))
      × (columns ≡ some column_warnings)
      × (table_warnings ++ column_warnings ≡ more)
scope_of-some none columns validated more h = cc h
scope_of-some (some tables) none validated more h = cc h
scope_of-some (some (names, warnings)) (some others) validated more h =
    (warnings, others, cc h, refl, cc h)

caught-some :
    (o : Option (Option Success)) (result : Success)
    → caught o ≡ some result
    → o ≡ some (some result)
caught-some none result h = cc h
caught-some (some found) result h = cc h

module _ (f : Floats) {D : Type 0} ⦃e : Eq D⦄ (md5 : Text → D) (sqlparse : Sqlparse)
    (backends : Backends f D) (settings : GenerationSettings f) (query : Text)
    (top_k : Option ℕ) where
  abbrev Checked : Success → Type 0
  Checked = IsChecked f md5 sqlparse backends settings query top_k

  judged_template-Checked :
      (sql : Text) (tables_used : List Text) (warnings : List SqlWarning) (columns : Columns)
      (scope : Option (List Text × List SqlWarning)) (result : Success)
      → scope_checks f sqlparse backends sql tables_used columns ≡ scope
      → judged_template f sqlparse backends sql tables_used warnings scope ≡ some (some result)
      → (has_blocking_warnings warnings ≡ false)
        × (validate_sql_safety sqlparse sql ≡ [] → Checked result)
  unfolding scope_checks
  judged_template-Checked sql tables_used warnings columns none result checks h = cc h
  judged_template-Checked sql tables_used warnings columns (some (validated, more)) result checks
        h =
      elim (Bool-cases (has_blocking_warnings (warnings ++ more))) [
        | inl blocks ↦ cc (rw blocks at h)
        | inr fine ↦
            let (before, after) = blocking-append warnings more fine in
            let (table_warnings, column_warnings, tables, others, joined) =
              scope_of-some (validate_tables_used sqlparse sql tables_used)
                (validate_columns_used sqlparse sql columns) validated more checks in
            elim (Bool-cases (has_blocking_warnings (backends.run_explain sql))) [
              | inl objects ↦ cc (rw (fine, objects) at h)
              | inr plain ↦
                  let same : template_success sql tables_used validated (backends.run_explain sql)
                      ≡ result =
                    cc (rw (fine, plain) at h) in
                  (
                    before,
                    λ safe. (
                      sql,
                      tables_used,
                      columns,
                      table_warnings,
                      column_warnings,
                      sym (ap (λ (r : Success). r.sql) same),
                      safe,
                      tables ∙ ap (λ (r : Success). some (r.tables_used, table_warnings)) same,
                      others,
                      ap has_blocking_warnings joined ∙ after,
                      plain,
                    ),
                  )
            ]
      ]

  checked_template-Checked :
      (columns : Columns) (built : Option (Text × List Text)) (result : Success)
      → checked_template f sqlparse backends columns built ≡ some (some result)
      → Checked result
  checked_template-Checked columns none result h = cc h
  checked_template-Checked columns (some (sql, tables_used)) result h =
      let (fine, checked) =
        judged_template-Checked sql tables_used (validate_sql_safety sqlparse sql) columns _ result
          refl h in
      checked (no_warnings _ fine (validate_sql_safety-serious sqlparse sql))

  guarded_template-Checked :
      (columns : Columns) (built : Option (Text × List Text)) (result : Success)
      → guarded_template f sqlparse backends columns built ≡ some (some result)
      → Checked result
  guarded_template-Checked columns none result h = cc h
  guarded_template-Checked columns (some (sql, tables_used)) result h =
      elim (Bool-cases (some_in (validate_sql_safety sqlparse sql))) [
        | inl unsafe ↦ cc (rw unsafe at h)
        | inr safe ↦
            (judged_template-Checked sql tables_used [] columns _ result refl (rw safe at h)).1
              (no_element _ safe)
      ]

  obvious_in-Checked :
      (k : ℕ) (columns : Option Columns) (result : Success)
      → obvious_in f sqlparse backends query k columns ≡ some result
      → Checked result
  obvious_in-Checked k none result h = cc h
  obvious_in-Checked k (some columns) result h =
      checked_template-Checked columns _ result (caught-some _ result h)

  obvious_for-Checked :
      (k : ℕ) (tables : List Text) (result : Success)
      → obvious_for f sqlparse backends query k tables ≡ some result
      → Checked result
  obvious_for-Checked k [] result h = cc h
  obvious_for-Checked k (table ∷ []) result h = obvious_in-Checked k _ result h
  obvious_for-Checked k (table ∷ next ∷ tables) result h = cc h

  pub obvious_result-Checked :
      (k : ℕ) (retrieved : Option Retrieved) (result : Success)
      → obvious_result f sqlparse backends query k retrieved ≡ some result
      → Checked result
  unfolding obvious_result
  obvious_result-Checked k none result h = cc h
  obvious_result-Checked k (some retrieved) result h =
      obvious_for-Checked k retrieved.tables_in_scope result h

  deterministic_in-Checked :
      (k : ℕ) (columns : Option Columns) (result : Success)
      → deterministic_in f sqlparse backends query k columns ≡ some (some result)
      → Checked result
  deterministic_in-Checked k none result h = cc h
  deterministic_in-Checked k (some columns) result h = guarded_template-Checked columns _ result h

  deterministic_for-Checked :
      (k : ℕ) (retrieved : Option Retrieved) (result : Success)
      → deterministic_for f sqlparse backends query k retrieved ≡ some (some result)
      → Checked result
  deterministic_for-Checked k none result h = cc h
  deterministic_for-Checked k (some retrieved) result h =
      elim (Bool-cases (some_in retrieved.tables_in_scope)) [
        | inl there ↦ deterministic_in-Checked k _ result (rw there at h)
        | inr nothing ↦ cc (rw nothing at h)
      ]

  pub try_deterministic_generation-Checked :
      (k : ℕ) (candidate : Bool) (retrieved : Option Retrieved) (result : Success)
      → try_deterministic_generation f sqlparse backends query k candidate retrieved
        ≡ some (some result)
      → Checked result
  unfolding try_deterministic_generation
  try_deterministic_generation-Checked k false retrieved result h = cc h
  try_deterministic_generation-Checked k true retrieved result h =
      deterministic_for-Checked k _ result h

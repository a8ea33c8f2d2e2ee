-- ===== src/Agent/Execute/Kept.antt =====
-- What an action leaves alone in the planner's state.
use nl2sqlcopy.Prelude.{ℕ, ◌+◌, ◌≤◌, ◌≡◌, refl, arith, true, List, [], Bool-cases, inl, inr}
use nl2sqlcopy.Floats.{Floats}
use nl2sqlcopy.Text.{Text, nonempty}
use nl2sqlcopy.Agent.Actions.{
  ReActAction, SqlWarning, blocking_warnings, retrieve_past_corrections, retrieve_schema_for_tables,
  retrieve_join_paths, retrieve_sample_queries, request_clarification, retrieve_more_context,
  fetch_schema, generate_sql, validate_and_return, ask_clarification, give_up,
}
use nl2sqlcopy.Agent.State.{State, Settings}
use nl2sqlcopy.Agent.Planner.{some_in}
use nl2sqlcopy.Agent.Reasoning.{text_or}
use nl2sqlcopy.Agent.Services.{Services}
use nl2sqlcopy.Agent.Execute.{
  Arrival, before_groups, before_columns, last, execute_action, parallel_retrieval,
}
use nl2sqlcopy.Agent.Execute.Corrections.{past_corrections}
use nl2sqlcopy.Agent.Execute.Schema.{schema_for_tables}
use nl2sqlcopy.Agent.Execute.Joins.{join_paths_between, sample_queries_for}
use nl2sqlcopy.Agent.Execute.Sql.{
  generate_sql_for, generation_prompt, scope_warnings, store_sql, validate_sql, judge,
}
use nl2sqlcopy.Agent.Focus.{generation_tables}

-- The texts of SQL that an action may add.
abbrev pub cost : ReActAction → ℕ
cost generate_sql = 1
cost _ = 0

module _ (f : Floats) where
  -- The deadline stays, corrections that are checked stay checked, and at most `n` texts of SQL are
  -- added.
  pub record Keeps (n : ℕ) (s s' : State f) : Type 0 where
    pub deadline : s'.deadline_monotonic ≡ s.deadline_monotonic
    pub checked : s.past_corrections_checked ≡ true → s'.past_corrections_checked ≡ true
    pub count : s'.sql_generation_count ≤ s.sql_generation_count + n

  pub Keeps-refl : (n : ℕ) (s : State f) → Keeps n s s
  Keeps-refl n s = record { deadline = refl; checked = λ h. h; count = omega arith }

  pub Keeps-trans :
      (m n : ℕ) (s s' s'' : State f) → Keeps m s s' → Keeps n s' s'' → Keeps (m + n) s s''
  Keeps-trans m n s s' s'' h k = record {
    deadline = cc (h.deadline, k.deadline);
    checked = λ e. k.checked (h.checked e);
    count = omega (arith, h.count, k.count);
  }

  judge-Keeps : (warnings : List SqlWarning) (s : State f) → Keeps 0 s (judge f warnings s).0
  unfolding judge
  judge-Keeps warnings s = elim (Bool-cases (some_in (blocking_warnings warnings))) [
    | inl bad ↦ rw bad record { deadline = refl; checked = λ h. h; count = omega arith }
    | inr good ↦ rw good record { deadline = refl; checked = λ h. h; count = omega arith }
  ]

  validate_sql-Keeps : (sv : Services f) (s : State f) → Keeps 0 s (validate_sql f sv s).0
  unfolding validate_sql
  validate_sql-Keeps sv s =
      let sql = text_or s.current_sql in
      elim (Bool-cases (nonempty sql)) [
        | inr empty ↦ rw empty (Keeps-refl 0 s)
        | inl there ↦ elim (Bool-cases (some_in (sv.validate_sql_safety sql))) [
          | inl unsafe ↦ rw (there, unsafe) (judge-Keeps _ s)
          | inr safe ↦
              rw (there, safe)
                (let used = (sv.validate_tables_used sql (generation_tables f s)).0 in
                  let k =
                    judge-Keeps (scope_warnings f sv sql s) (record s { tables_used = used }) in
                  record { deadline = k.deadline; checked = k.checked; count = k.count })
        ]
      ]

  generate_sql_for-Keeps :
      (sv : Services f) (input query : Text) (s : State f)
      → Keeps 1 s (generate_sql_for f sv input query s).0
  unfolding generate_sql_for store_sql
  generate_sql_for-Keeps sv input query s =
      elim (Bool-cases (some_in (sv.call_ollama (generation_prompt f input query s)).1)) [
        | inl failed ↦ rw failed (Keeps-refl 1 s)
        | inr fine ↦ rw fine record { deadline = refl; checked = λ h. h; count = omega arith }
      ]

  schema-Keeps :
      (sv : Services f) (settings : Settings f) (input query : Text) (s : State f)
      → Keeps 0 s (schema_for_tables f sv settings input query s).0
  unfolding schema_for_tables
  schema-Keeps sv settings input query s = record {
    deadline = refl;
    checked = λ h. h;
    count = omega arith;
  }

  pub execute_action-Keeps :
      (sv : Services f) (settings : Settings f) (action : ReActAction) (input query : Text)
      (s : State f)
      → Keeps (cost action) s (execute_action f sv settings action input query s).0
  unfolding execute_action past_corrections join_paths_between sample_queries_for
  execute_action-Keeps sv settings retrieve_past_corrections input query s = record {
    deadline = refl;
    checked = λ h. refl;
    count = omega arith;
  }
  execute_action-Keeps sv settings retrieve_schema_for_tables input query s =
      schema-Keeps sv settings input query s
  execute_action-Keeps sv settings retrieve_more_context input query s =
      schema-Keeps sv settings input query s
  execute_action-Keeps sv settings fetch_schema input query s =
      schema-Keeps sv settings input query s
  execute_action-Keeps sv settings retrieve_join_paths input query s = record {
    deadline = refl;
    checked = λ h. h;
    count = omega arith;
  }
  execute_action-Keeps sv settings retrieve_sample_queries input query s = record {
    deadline = refl;
    checked = λ h. h;
    count = omega arith;
  }
  execute_action-Keeps sv settings generate_sql input query s =
      generate_sql_for-Keeps sv input query s
  execute_action-Keeps sv settings validate_and_return input query s = validate_sql-Keeps sv s
  execute_action-Keeps sv settings request_clarification input query s = Keeps-refl 0 s
  execute_action-Keeps sv settings ask_clarification input query s = Keeps-refl 0 s
  execute_action-Keeps sv settings give_up input query s = Keeps-refl 0 s

  pub parallel_retrieval-Keeps :
      (sv : Services f) (settings : Settings f) (arrival : Arrival) (input query : Text)
      (s : State f)
      → Keeps 0 s (parallel_retrieval f sv settings arrival input query s).0
        × ((parallel_retrieval f sv settings arrival input query s).0.past_corrections_checked
            ≡ true)
        × ((parallel_retrieval f sv settings arrival input query s).2 ≡ [])
  unfolding parallel_retrieval past_corrections schema_for_tables
  parallel_retrieval-Keeps sv settings before_groups input query s =
      (record { deadline = refl; checked = λ h. refl; count = omega arith }, refl, refl)
  parallel_retrieval-Keeps sv settings before_columns input query s =
      (record { deadline = refl; checked = λ h. refl; count = omega arith }, refl, refl)
  parallel_retrieval-Keeps sv settings last input query s =
      (record { deadline = refl; checked = λ h. refl; count = omega arith }, refl, refl)

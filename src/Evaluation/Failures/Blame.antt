-- ===== src/Evaluation/Failures/Blame.antt =====
-- When the classification blames the retrieval.
use nl2sqlcopy.Prelude.{
  ◌≡◌, refl, inl, inr, Bool, true, false, ◌&&◌, ◌||◌, Option, none, some, arith, ◌==◌, Bool-cases,
  if◌then◌else◌,
}
use nl2sqlcopy.Text.{codes, text_eq, nonempty}
use nl2sqlcopy.Agent.Names.{member}
use nl2sqlcopy.Evaluation.Failures.{
  FailureType, planning_failure, sql_generation_failure, execution_failure,
  answer_generation_failure, is_retrieval_family, Run, Case, TraceSummary, http_failure,
  is_http_error, provider_failure_detected, rejected_failure, sql_failure, late_failure,
  actual_status, any_in, execution_warning_codes, validation_warning_codes,
  answer_warning_only_codes, clarification_actions, select_failure_type, sql_stages,
  execution_stages, answer_stages, stage_failure_detected,
}

http_blame : (run : Run) → is_retrieval_family (http_failure run) ≡ false
unfolding http_failure
http_blame run = ground arith

late_blame :
    (case : Case) (run : Run) (answer_missing : Bool)
    → is_retrieval_family (late_failure case run answer_missing) ≡ false
unfolding late_failure
late_blame case run answer_missing = ground arith

rejected_blame :
    (run : Run) (failure : FailureType)
    → rejected_failure run ≡ some failure
    → is_retrieval_family failure ≡ false
unfolding rejected_failure
rejected_blame run failure h =
    elim (Bool-cases (stage_failure_detected run.trace_events sql_stages)) [
      | inl sql ↦
          let e : failure ≡ sql_generation_failure = cc (rw (sql, rejected_failure) at h) in
          rw e refl
      | inr not_sql ↦ elim (Bool-cases (stage_failure_detected run.trace_events execution_stages)) [
        | inl execution ↦
            let e : failure ≡ execution_failure =
              cc (rw (not_sql, execution, rejected_failure) at h) in
            rw e refl
        | inr not_execution ↦
            elim (Bool-cases (stage_failure_detected run.trace_events answer_stages)) [
              | inl answer ↦
                  let e : failure ≡ answer_generation_failure =
                    cc (rw (not_sql, not_execution, answer, rejected_failure) at h) in
                  rw e refl
              | inr not_answer ↦ cc (rw (not_sql, not_execution, not_answer, rejected_failure) at h)
            ]
      ]
    ]

-- A branch that does not blame the retrieval was not taken.
skip :
    (c : Bool) (x y : FailureType)
    → is_retrieval_family x ≡ false
    → is_retrieval_family (if c then x else y) ≡ true
    → (c ≡ false) × (is_retrieval_family y ≡ true)
skip true x y hx h = absurd (cc h)
skip false x y hx h = (refl, h)

late_choice :
    (blames : Bool) (x y : FailureType)
    → is_retrieval_family y ≡ false
    → is_retrieval_family (if blames then x else y) ≡ true
    → blames ≡ true
late_choice true x y hy h = refl
late_choice false x y hy h = absurd (cc h)

rejected_choice :
    (run : Run) (r : Option FailureType) (late : FailureType)
    → rejected_failure run ≡ r
    → is_retrieval_family (elim r [ some failure ↦ failure | none ↦ late ]) ≡ true
    → is_retrieval_family late ≡ true
rejected_choice run none late e h = h
rejected_choice run (some failure) late e h = absurd (cc (rejected_blame run failure e, h))

clarification_blame :
    (b : Bool)
    → is_retrieval_family (if b then planning_failure else sql_generation_failure) ≡ false
clarification_blame true = refl
clarification_blame false = refl

choice :
    (c : Bool) (x y : FailureType) (P : Type 0)
    → (is_retrieval_family x ≡ true → P)
    → (is_retrieval_family y ≡ true → P)
    → is_retrieval_family (if c then x else y) ≡ true
    → P
choice true x y P hx hy h = hx h
choice false x y P hx hy h = hy h

-- The retrieval is blamed only for a run that was answered, without an HTTP error or a failed
-- provider, and whose answer lacks a keyword or violates the expected form of the SQL.
pub retrieval_blamed :
    (case : Case) (run : Run) (reasons : Bool) (summary : TraceSummary)
    (sql_violations keyword_missing answer_missing : Bool)
    → is_retrieval_family
        (select_failure_type case run reasons summary sql_violations keyword_missing answer_missing)
      ≡ true
    → (nonempty run.request_error ≡ false)
      × (is_http_error run.http_status_code ≡ false)
      × (provider_failure_detected run ≡ false)
      × ((keyword_missing || sql_violations) ≡ true)
unfolding select_failure_type
retrieval_blamed case run reasons summary sql_violations keyword_missing answer_missing h =
    let late =
      if keyword_missing || sql_violations
      then sql_failure case summary sql_violations
      else late_failure case run answer_missing in
    let (sent, h1) = skip (nonempty run.request_error) _ _ refl h in
    let (reached, h2) = skip (is_http_error run.http_status_code) _ _ (http_blame run) h1 in
    let (provided, h3) = skip (provider_failure_detected run) _ _ refl h2 in
    let (fresh, h4) = skip (summary.cache_hit && reasons) _ _ refl h3 in
    let (executed, h5) = skip (any_in execution_warning_codes run.warning_codes) _ _ refl h4 in
    let (valid, h6) = skip (any_in validation_warning_codes run.warning_codes) _ _ refl h5 in
    let (answered, h7) = skip (any_in answer_warning_only_codes run.warning_codes) _ _ refl h6 in
    let (clear, h8) =
      skip (actual_status run == codes "clarification_needed" && case.expected_status == codes "ok")
        _ _ (clarification_blame (member summary.react_final_action clarification_actions)) h7 in
    let late_blamed =
      choice (actual_status run == codes "rejected" && case.expected_status == codes "ok") _ late
        (is_retrieval_family late ≡ true) (rejected_choice run (rejected_failure run) late refl)
        (λ q. q) h8 in
    let missing =
      late_choice (keyword_missing || sql_violations) (sql_failure case summary sql_violations)
        (late_failure case run answer_missing) (late_blame case run answer_missing) late_blamed in
    (sent, reached, provided, missing)

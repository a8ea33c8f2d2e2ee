-- ===== src/Evaluation/Failures.antt =====
-- The classification of a failed run in nl2sql_service/evaluation/analyzer.py, with the types of
-- nl2sql_service/evaluation/models.py that it reads. Warning codes and stages are texts; a text that
-- may be None is empty where it is None.
pub mod Blame
use nl2sqlcopy.Prelude.{
  ℕ, ◌≡◌, refl, ◌⊎◌, inl, inr, Bool, true, false, not, ◌&&◌, ◌||◌, Option, none, some, List, [],
  ◌∷◌, map, any, leb, Eq, ◌==◌, if◌then◌else◌,
}
use nl2sqlcopy.Text.{Text, codes, text_eq, text_beq, nonempty, lower, strip, or_else}
use nl2sqlcopy.Agent.Names.{member}
use nl2sqlcopy.Agent.Planner.{some_in}

pub data FailureType : Type 0 where
  retrieval_failure chunking_failure reranking_failure schema_retrieval_failure : FailureType
  planning_failure sql_generation_failure sql_validation_failure execution_failure : FailureType
  answer_generation_failure cache_failure provider_failure : FailureType

abbrev pub is_retrieval_family : FailureType → Bool
is_retrieval_family retrieval_failure = true
is_retrieval_family chunking_failure = true
is_retrieval_family reranking_failure = true
is_retrieval_family schema_retrieval_failure = true
is_retrieval_family _ = false

abbrev pub sql_stages : List Text
sql_stages = codes "sql_generation" ∷ codes "review_gate" ∷ []

abbrev pub execution_stages : List Text
execution_stages = codes "execution" ∷ []

abbrev pub answer_stages : List Text
answer_stages = codes "answer_generation" ∷ []

abbrev pub clarification_actions : List Text
clarification_actions =
    codes "ASK_CLARIFICATION" ∷ codes "REQUEST_CLARIFICATION" ∷ codes "GIVE_UP" ∷ []

abbrev pub provider_warning_codes : List Text
provider_warning_codes =
    codes "REQUEST_TIMEOUT"
    ∷ codes "OLLAMA_TIMEOUT"
    ∷ codes "OLLAMA_UPSTREAM"
    ∷ codes "OLLAMA_MALFORMED"
    ∷ codes "ANSWER_TIMEOUT"
    ∷ codes "ANSWER_UPSTREAM"
    ∷ codes "ANSWER_MALFORMED"
    ∷ []

abbrev pub validation_warning_codes : List Text
validation_warning_codes =
    codes "SQL_EMPTY"
    ∷ codes "SQL_MULTI_STATEMENT"
    ∷ codes "SQL_DESTRUCTIVE"
    ∷ codes "SQL_NOT_SELECT"
    ∷ codes "TABLE_OUT_OF_SCOPE"
    ∷ codes "COLUMN_OUT_OF_SCOPE"
    ∷ codes "MYSQL_EXPLAIN_ERROR"
    ∷ codes "MYSQL_EXPLAIN_UNAVAILABLE"
    ∷ codes "REVIEW_FAILED"
    ∷ []

abbrev pub execution_warning_codes : List Text
execution_warning_codes = codes "MYSQL_QUERY_ERROR" ∷ []

abbrev pub answer_warning_only_codes : List Text
answer_warning_only_codes = codes "ANSWER_HALLUCINATION" ∷ []

pub record TraceEvent : Type 0 where
  pub stage : Text
  pub status : Text
  pub provider : Text
  pub model : Text
  pub error_source : Text

-- The fields of a run, its case and its trace summary that the classification reads.
pub record Run : Type 0 where
  pub request_error : Text
  pub http_status_code : Option ℕ
  pub response_body_status : Text
  pub response_status : Text
  pub trace_events : List TraceEvent
  pub warning_codes : List Text

pub record Case : Type 0 where
  pub expected_status : Text
  pub expected_tables : List Text
  pub likely_failure_types : List FailureType

pub record TraceSummary : Type 0 where
  pub cache_hit : Bool
  pub react_final_action : Text
  pub retrieved_tables : List Text
  pub selected_tables : List Text
  pub retrieval_events : ℕ

unfoldable pub failed_status : Text → Bool
failed_status status =
    member (lower status) (codes "failed" ∷ codes "warning" ∷ codes "needs_context" ∷ [])

-- `_stage_failure_detected`
unfoldable pub stage_failure_detected : List TraceEvent → List Text → Bool
unfolding failed_status
stage_failure_detected events stage_names =
    any (λ e. member e.stage stage_names && failed_status e.status) events

abbrev pub is_provider_error : TraceEvent → Bool
is_provider_error e =
    not (nonempty e.provider || nonempty e.model)
    && (member (lower e.error_source) (
          codes "provider"
          ∷ codes "generation_transport"
          ∷ codes "embedding"
          ∷ codes "service_timeout"
          ∷ [])
        && member (lower e.status) (codes "failed" ∷ codes "warning" ∷ []))

abbrev pub any_in : List Text → List Text → Bool
any_in names warning_codes = any (λ c. member c names) warning_codes

-- `_provider_failure_detected`
unfoldable pub provider_failure_detected : Run → Bool
provider_failure_detected run =
    any_in provider_warning_codes run.warning_codes || any is_provider_error run.trace_events

-- `_hint_failure_type`
unfoldable pub hint_failure_type : List FailureType → FailureType → FailureType
hint_failure_type [] default = default
hint_failure_type (hint ∷ hints) default = hint

abbrev pub has_chunking : List FailureType → Bool
has_chunking [] = false
has_chunking (chunking_failure ∷ hints) = true
has_chunking (hint ∷ hints) = has_chunking hints

unfoldable pub actual_status : Run → Text
actual_status run = strip (or_else run.response_body_status run.response_status)

-- A run that did not get through to an answer: an HTTP error of 400 or more.
unfoldable pub http_failure : Run → FailureType
unfolding stage_failure_detected
http_failure run =
    if stage_failure_detected run.trace_events execution_stages
    then execution_failure
    else if stage_failure_detected run.trace_events answer_stages
    then answer_generation_failure
    else if stage_failure_detected run.trace_events sql_stages
    then sql_generation_failure
    else provider_failure

abbrev pub is_http_error : Option ℕ → Bool
is_http_error none = false
is_http_error (some code) = leb 400 code

-- The stage that a rejected run failed in, where one did.
unfoldable pub rejected_failure : Run → Option FailureType
unfolding stage_failure_detected
rejected_failure run =
    if stage_failure_detected run.trace_events sql_stages
    then some sql_generation_failure
    else if stage_failure_detected run.trace_events execution_stages
    then some execution_failure
    else if stage_failure_detected run.trace_events answer_stages
    then some answer_generation_failure
    else none

-- `expected_tables.isdisjoint(tables)`
abbrev pub is_disjoint : List Text → List Text → Bool
is_disjoint expected tables = not (any (λ t. member t tables) expected)

-- The hint, where the tables that were expected were not retrieved.
unfoldable pub unretrieved_failure : FailureType → Bool → ℕ → FailureType
unretrieved_failure chunking_failure selected events = chunking_failure
unretrieved_failure reranking_failure true events = reranking_failure
unretrieved_failure _ selected events =
    if leb events 0 then retrieval_failure else schema_retrieval_failure

-- The branch of missing keywords and violations of the SQL's expected form.
unfoldable pub sql_failure : Case → TraceSummary → Bool → FailureType
unfolding hint_failure_type unretrieved_failure
sql_failure case summary sql_violations =
    let retrieved = map lower summary.retrieved_tables in
    let selected = map lower summary.selected_tables in
    let expected = map lower case.expected_tables in
    let reranked = hint_failure_type case.likely_failure_types reranking_failure in
    if some_in expected && is_disjoint expected retrieved
    then unretrieved_failure (hint_failure_type case.likely_failure_types schema_retrieval_failure)
        (not (is_disjoint expected selected)) summary.retrieval_events
    else if some_in expected
        && (not (is_disjoint expected retrieved) && is_disjoint expected selected)
    then (if is_retrieval_family reranked then reranked else reranking_failure)
    else if has_chunking case.likely_failure_types
    then chunking_failure
    else if sql_violations
    then sql_generation_failure
    else retrieval_failure

-- What is left to tell a run by: its answer, its status, the stage of the answer.
unfoldable pub late_failure : Case → Run → Bool → FailureType
unfolding stage_failure_detected actual_status
late_failure case run answer_missing =
    if answer_missing
    then answer_generation_failure
    else if not (actual_status run == case.expected_status)
    then (if case.expected_status == codes "ok" then planning_failure else sql_validation_failure)
    else if stage_failure_detected run.trace_events answer_stages
    then answer_generation_failure
    else sql_generation_failure

-- `_select_failure_type`; the lists `reasons`, `sql_violations`, `keyword_missing` and
-- `answer_missing` are read by their truth alone.
unfoldable pub select_failure_type :
    Case → Run → Bool → TraceSummary → Bool → Bool → Bool → FailureType
unfolding provider_failure_detected actual_status http_failure rejected_failure sql_failure
    late_failure
select_failure_type case run reasons summary sql_violations keyword_missing answer_missing =
    let actual = actual_status run in
    let expects_ok = case.expected_status == codes "ok" in
    let late =
      if keyword_missing || sql_violations
      then sql_failure case summary sql_violations
      else late_failure case run answer_missing in
    if nonempty run.request_error
    then provider_failure
    else if is_http_error run.http_status_code
    then http_failure run
    else if provider_failure_detected run
    then provider_failure
    else if summary.cache_hit && reasons
    then cache_failure
    else if any_in execution_warning_codes run.warning_codes
    then execution_failure
    else if any_in validation_warning_codes run.warning_codes
    then sql_validation_failure
    else if any_in answer_warning_only_codes run.warning_codes
    then answer_generation_failure
    else if actual == codes "clarification_needed" && expects_ok
    then (if member summary.react_final_action clarification_actions
        then planning_failure
        else sql_generation_failure)
    else if actual == codes "rejected" && expects_ok
    then elim (rejected_failure run) [ some failure ↦ failure | none ↦ late ]
    else late

-- ===== src/Generation/Service/Flow.antt =====
-- `generate_sql` of nl2sql_service/generation/sql_generator.py, from the checks of the question to the
-- stored response.
use nl2sqlcopy.Prelude.{
  ℕ, Bool, false, Option, none, some, List, [], ◌∷◌, ◌++◌, max, Eq, if◌then◌else◌,
}
use nl2sqlcopy.Text.{Text, codes, decimal}
use nl2sqlcopy.Floats.{Floats}
use nl2sqlcopy.Agent.Actions.{other, give_up, request_clarification, request_timeout, ReActAction}
use nl2sqlcopy.Agent.Clarify.{Clarification, Trace}
use nl2sqlcopy.Agent.Loop.Answers.{Response, Success, Rejected, success, rejected, clarification}
use nl2sqlcopy.Core.Cache.Store.{Answer}
use nl2sqlcopy.Core.Cache.Sql
use nl2sqlcopy.Core.Cache.Sql.{SqlCache}
use nl2sqlcopy.Core.Cache.Vectors.{Vector}
use nl2sqlcopy.Generation.Candidate.{is_deterministic_generation_candidate, ColumnSearchHit}
use nl2sqlcopy.Generation.Preflight.{detect_destructive_query_intent, detect_basic_ambiguity_reason}
use nl2sqlcopy.Generation.Review.{apply_review_gate}
use nl2sqlcopy.Generation.Safety.{Sqlparse}
use nl2sqlcopy.Generation.Suggestions.{build_schema_derived_suggestions}
use nl2sqlcopy.Generation.Service.{
  Backends, GenerationSettings, Outcome, Place, Retrieved, RunEnd, Stores, effective_top_k,
  returned,
}
use nl2sqlcopy.Generation.Service.Cached.{
  Payload, dumped, fresh, memory_exact, response_from_dict, with_cache_metadata,
}
use nl2sqlcopy.Generation.Service.Lookup.{
  load_query_embedding, semantic_lookup, db_lookup, looked_up_epoch, persist, store_semantic,
  store_response,
}
use nl2sqlcopy.Generation.Service.Template.{
  retrieve_at, retrieved_or, obvious_result, try_deterministic_generation,
}

-- `ReactTrace` of a question that is turned away.
abbrev no_steps : ReActAction → Trace
no_steps action = record { steps = []; total_iterations = 0; final_action = action }

abbrev pub destructive_rejection : Text → Rejected
destructive_rejection keyword = record {
  warnings =
      record {
        code = other "SQL_DESTRUCTIVE";
        message =
            codes "The request asks for a destructive operation ("
            ++ (keyword ++ codes "), but only read-only SQL is allowed.");
      }
      ∷ [];
  attempt_count = 0;
  react_trace = some (no_steps give_up);
}

abbrev unclear_question : Text → Text → List Text → Clarification
unclear_question query reason tables = record {
  question =
      codes "Which table or business entity do you want to query for '" ++ (query ++ codes "'?");
  suggestions = build_schema_derived_suggestions tables;
  original_query = query;
  failure_reason = reason;
  react_trace = no_steps request_clarification;
}

abbrev out_of_time : ℕ → Rejected
out_of_time seconds = record {
  warnings =
      record {
        code = request_timeout;
        message =
            codes "SQL generation exceeded the service time budget of "
            ++ (decimal seconds ++ codes "s.");
      }
      ∷ [];
  attempt_count = 0;
  react_trace = none;
}

abbrev pub tables_or_none : Option Retrieved → List Text
tables_or_none none = []
tables_or_none (some retrieved) = retrieved.tables_in_scope

abbrev groups_or_none : Option Retrieved → List Text
groups_or_none none = []
groups_or_none (some retrieved) = retrieved.matched_groups

-- `_generate_sql_response_from_dict` where nothing catches what it raises.
abbrev pub answered : Option Payload → Outcome
answered none = Outcome.raised
answered (some payload) = returned payload

module _ (f : Floats) {D : Type 0} ⦃e : Eq D⦄ (md5 : Text → D) (sqlparse : Sqlparse)
    (backends : Backends f D) (settings : GenerationSettings f) where
  -- A response of the agent is stored if it is a success; the embedding is loaded if there is none.
  abbrev pub store_late : Text → ℕ → Response → Option (Vector f) → Stores f D → Stores f D
  store_late query top_k response none stores =
      let (vector, cache) =
        load_query_embedding f md5 backends settings Place.late query stores.embed_cache in
      let kept = record stores { embed_cache = cache } in
      persist f md5 backends settings query top_k (dumped response) vector
        (looked_up_epoch f md5 backends settings)
        (store_semantic f md5 backends settings query top_k (dumped response) vector kept)
  store_late query top_k response (some vector) stores =
      persist f md5 backends settings query top_k (dumped response) (some vector)
        (looked_up_epoch f md5 backends settings)
        (store_semantic f md5 backends settings query top_k (dumped response) (some vector) stores)

  abbrev pub store_reviewed :
      Text → ℕ → Option (Vector f) → Stores f D → Option Success → Outcome × Stores f D
  store_reviewed query top_k vector stores none = (Outcome.raised, stores)
  store_reviewed query top_k vector stores (some result) =
      store_response f md5 backends settings query top_k (success result)
        (store_late query top_k (success result) vector) stores

  -- What the agent's response comes to.
  unfoldable pub settle_run :
      Text → ℕ → Option (Vector f) → Stores f D → RunEnd → Outcome × Stores f D
  settle_run query top_k vector stores RunEnd.raised = (Outcome.raised, stores)
  settle_run query top_k vector stores RunEnd.timed_out =
      (returned (fresh (rejected (out_of_time settings.sql_generation_timeout))), stores)
  settle_run query top_k vector stores (RunEnd.responded (success result)) =
      store_reviewed query top_k vector stores
        (apply_review_gate backends.reviewers settings.governance_enabled result query)
  settle_run query top_k vector stores (RunEnd.responded (rejected r)) =
      (returned (fresh (rejected r)), stores)
  settle_run query top_k vector stores (RunEnd.responded (clarification c)) =
      (returned (fresh (clarification c)), stores)

  -- The template's result is stored, and the agent runs where there is none.
  unfoldable pub settle_template :
      Text
      → Option ℕ
      → Option (Vector f)
      → Stores f D
      → Option (Option Success)
      → Outcome × Stores f D
  settle_template query top_k vector stores none = (Outcome.raised, stores)
  settle_template query top_k vector stores (some (some result)) =
      let k = effective_top_k f settings top_k in
      store_response f md5 backends settings query k (success result)
        (λ kept.
          persist f md5 backends settings query k (dumped (success result)) vector
            (looked_up_epoch f md5 backends settings)
            (store_semantic f md5 backends settings query k (dumped (success result)) vector kept))
        stores
  settle_template query top_k vector stores (some none) =
      settle_run query (effective_top_k f settings top_k) vector stores
        (backends.react_run query top_k)

  -- The answer of a cache, or else what follows.
  unfoldable pub hit_or :
      Option Payload × Stores f D → (Stores f D → Outcome × Stores f D) → Outcome × Stores f D
  hit_or (some payload, stores) rest = (returned payload, stores)
  hit_or (none, stores) rest = rest stores

  -- The lookups behind the embedding, and the template for a candidate.
  unfoldable pub look_further :
      Text
      → Option ℕ
      → Option (Vector f)
      → Option Retrieved
      → Bool
      → Stores f D
      → Outcome × Stores f D
  unfolding hit_or settle_template
  look_further query top_k vector retrieved candidate stores =
      let k = effective_top_k f settings top_k in
      hit_or (semantic_lookup f md5 backends settings k vector stores) (λ searched.
        hit_or (db_lookup f md5 backends settings query k vector searched) (λ looked_up.
          settle_template query top_k vector looked_up
            (try_deterministic_generation f sqlparse backends query k candidate retrieved)))

  -- The search for columns raises, or tells whether the question is a candidate for a template.
  abbrev pub candidate_for : Text → Option Retrieved → Option (List ColumnSearchHit) → Option Bool
  candidate_for query retrieved none = none
  candidate_for query retrieved (some hits) = some (
      is_deterministic_generation_candidate query settings.top_k (tables_or_none retrieved)
        (groups_or_none retrieved) hits)

  abbrev pub after_candidate :
      Text
      → Option ℕ
      → Option (Vector f)
      → Option Retrieved
      → Stores f D
      → Option Bool
      → Outcome × Stores f D
  after_candidate query top_k vector retrieved stores none = (Outcome.raised, stores)
  after_candidate query top_k vector retrieved stores (some candidate) =
      look_further query top_k vector retrieved candidate stores

  -- The candidate check, where the question has an embedding: the retrieval is tried again if the first
  -- one failed.
  unfoldable pub check_candidate :
      Text → Option ℕ → Option Retrieved → Stores f D → Option (Vector f) → Outcome × Stores f D
  unfolding look_further
  check_candidate query top_k retrieved stores none =
      look_further query top_k none retrieved false stores
  check_candidate query top_k retrieved stores (some vector) =
      let again =
        retrieved_or f sqlparse backends Place.context query (effective_top_k f settings top_k)
          retrieved in
      after_candidate query top_k (some vector) again stores
        (candidate_for query again (backends.search_columns vector (max 1 settings.top_k)))

  -- The obvious template is stored, and there is more to do where there is none.
  unfoldable pub settle_obvious :
      Text → Option ℕ → Option Retrieved → Stores f D → Option Success → Outcome × Stores f D
  unfolding check_candidate
  settle_obvious query top_k retrieved stores (some result) =
      let k = effective_top_k f settings top_k in
      store_response f md5 backends settings query k (success result)
        (persist f md5 backends settings query k (dumped (success result)) none none) stores
  settle_obvious query top_k retrieved stores none =
      let (vector, cache) =
        load_query_embedding f md5 backends settings Place.early query stores.embed_cache in
      check_candidate query top_k retrieved (record stores { embed_cache = cache }) vector

  unfoldable pub look_for_template : Text → Option ℕ → Stores f D → Outcome × Stores f D
  unfolding settle_obvious
  look_for_template query top_k stores =
      let k = effective_top_k f settings top_k in
      let retrieved = retrieve_at f sqlparse backends Place.obvious query k in
      settle_obvious query top_k retrieved stores
        (obvious_result f sqlparse backends query k retrieved)

  abbrev pub memory_hit :
      Text
      → Option ℕ
      → Stores f D
      → Option (Answer Payload) × SqlCache D Payload
      → Outcome × Stores f D
  memory_hit query top_k stores (none, cache) =
      look_for_template query top_k (record stores { sql_cache = cache })
  memory_hit query top_k stores (some payload, cache) = (
    answered (response_from_dict (with_cache_metadata payload memory_exact)),
    record stores { sql_cache = cache },
  )

  unfoldable pub look_up : Text → Option ℕ → Stores f D → Outcome × Stores f D
  unfolding look_for_template
  look_up query top_k stores =
      if settings.sql_cache_enabled
      then memory_hit query top_k stores (
          Sql.get md5 settings.sql_cache_ttl stores.sql_cache query
            (effective_top_k f settings top_k) (backends.lookup_time Place.early))
      else look_for_template query top_k stores

  abbrev pub unclear_or : Text → Option ℕ → Stores f D → Option Text → Outcome × Stores f D
  unclear_or query top_k stores none = look_up query top_k stores
  unclear_or query top_k stores (some reason) = (
    returned (
        fresh (
          clarification (
            unclear_question query reason (
              tables_or_none (
                retrieve_at f sqlparse backends Place.ambiguity query
                  (effective_top_k f settings top_k)))))),
    stores,
  )

  abbrev pub destructive_or : Text → Option ℕ → Stores f D → Option Text → Outcome × Stores f D
  destructive_or query top_k stores (some keyword) =
      (returned (fresh (rejected (destructive_rejection keyword))), stores)
  destructive_or query top_k stores none =
      unclear_or query top_k stores (detect_basic_ambiguity_reason query settings.preflight)

  unfoldable pub generate_sql : Text → Option ℕ → Stores f D → Outcome × Stores f D
  unfolding look_up
  generate_sql query top_k stores =
      destructive_or query top_k stores (detect_destructive_query_intent query settings.preflight)

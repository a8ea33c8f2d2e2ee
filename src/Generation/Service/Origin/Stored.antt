-- ===== src/Generation/Service/Origin/Stored.antt =====
-- The results that `generate_sql` of nl2sql_service/generation/sql_generator.py stores, and what the
-- agent's responses come to.
use nl2sqlcopy.Prelude.{
  ℕ, ◌≡◌, ◌∙◌, sym, ap, refl, Bool, true, false, Option, none, some, Eq, Bool-cases, Option-cases,
  inl, inr, ◌⊎◌, string_eq,
}
use nl2sqlcopy.Text.{Text}
use nl2sqlcopy.Floats.{Floats}
use nl2sqlcopy.Agent.Loop.Answers.{Response, Success, success, rejected, clarification}
use nl2sqlcopy.Core.Cache.Store.{Answer}
use nl2sqlcopy.Core.Cache.Sql.{SqlCache}
use nl2sqlcopy.Core.Cache.Semantic.{SemanticCache}
use nl2sqlcopy.Core.Cache.Vectors.{Vector}
use nl2sqlcopy.Generation.Review.{Reviewers, apply_review_gate, review_answer}
use nl2sqlcopy.Generation.Review.Gate.{apply_review_gate-warns}
use nl2sqlcopy.Generation.Safety.{Sqlparse}
use nl2sqlcopy.Generation.Service.{
  Backends, GenerationSettings, Outcome, Place, RunEnd, Stores, effective_top_k,
}
use nl2sqlcopy.Generation.Service.Cached.{Payload, dumped}
use nl2sqlcopy.Generation.Service.Lookup.{
  persist, persist_at, store_semantic, store_response, and_then, set_sql, store_where,
  with_semantic,
}
use nl2sqlcopy.Generation.Service.Flow.{store_late, store_reviewed, settle_run, settle_template}
use nl2sqlcopy.Generation.Service.Origin.{IsChecked, IsOfAgent, Sound}

-- The review gate keeps SQL and tables.
apply_review_gate-keeps :
    (reviewers : Reviewers) (governance_enabled : Bool) (result reviewed : Success) (query : Text)
    → apply_review_gate reviewers governance_enabled result query ≡ some reviewed
    → (reviewed.sql ≡ result.sql) × (reviewed.tables_used ≡ result.tables_used)
unfolding apply_review_gate
apply_review_gate-keeps reviewers false result reviewed query h = (cc h, cc h)
apply_review_gate-keeps reviewers true result reviewed query h =
    elim (Option-cases (review_answer reviewers result query)) [
      | inl silent ↦ cc (rw silent at h)
      | inr (text, answer) ↦
          let (found, finds, warned) =
            apply_review_gate-warns reviewers true result query text answer in
          let same : found ≡ reviewed = cc (finds, h) in
          (
            ap (λ (r : Success). r.sql) (sym same) ∙ warned.0,
            ap (λ (r : Success). r.tables_used) (sym same) ∙ warned.1,
          )
    ]

module _ (f : Floats) {D : Type 0} ⦃e : Eq D⦄ (md5 : Text → D) (sqlparse : Sqlparse)
    (backends : Backends f D) (settings : GenerationSettings f) (query : Text) (top_k : Option ℕ)
    (from : Stores f D) where
  abbrev Fine : Outcome × Stores f D → Type 0
  Fine = Sound f md5 sqlparse backends settings query top_k from

  abbrev k : ℕ
  k = effective_top_k f settings top_k

  persist_at-keeps :
      (payload : Answer Payload) (vector : Option (Vector f)) (stores : Stores f D)
      (epoch : Option ℕ)
      → (persist_at f md5 backends settings query k payload vector stores epoch).sql_cache
        ≡ stores.sql_cache
  persist_at-keeps payload vector stores none = refl
  persist_at-keeps payload vector stores (some epoch) =
      elim (Bool-cases (
        backends.upsert_query_cache_entry record {
          query_text = query;
          top_k = k;
          response_json = payload;
          query_embedding = vector;
          cache_epoch = epoch;
        })) [ inl written ↦ rw written refl | inr failed ↦ rw failed refl ]

  pub persist-keeps :
      (payload : Answer Payload) (vector : Option (Vector f)) (epoch : Option ℕ)
      (stores : Stores f D)
      → (persist f md5 backends settings query k payload vector epoch stores).sql_cache
        ≡ stores.sql_cache
  unfolding persist
  persist-keeps payload vector epoch stores = persist_at-keeps payload vector stores _

  with_semantic-keeps :
      (stores : Stores f D) (cache : Option (SemanticCache f D Payload))
      → (with_semantic f md5 backends settings stores cache).sql_cache ≡ stores.sql_cache
  with_semantic-keeps stores none = refl
  with_semantic-keeps stores (some cache) = refl

  store_semantic-keeps :
      (payload : Answer Payload) (vector : Option (Vector f)) (stores : Stores f D)
      → (store_semantic f md5 backends settings query k payload vector stores).sql_cache
        ≡ stores.sql_cache
  unfolding store_semantic
  store_semantic-keeps payload vector stores = with_semantic-keeps stores _

  abbrev IsKnown : Success → Type 0
  IsKnown result =
      IsChecked f md5 sqlparse backends settings query top_k result
      ⊎ IsOfAgent f md5 sqlparse backends settings query top_k result

  and_then-Fine :
      (result : Success) (more : Stores f D → Stores f D) (stores : Stores f D)
      (cache : Option (SqlCache D Payload))
      → set_sql f md5 backends settings stores.sql_cache query k
          (dumped (success result))
          Place.late
        ≡ cache
      → IsKnown result
      → ((kept : Stores f D) → (more kept).sql_cache ≡ kept.sql_cache)
      → Fine (and_then f md5 backends settings (success result) more stores cache)
  and_then-Fine result more stores none written origin keeps = tt
  and_then-Fine result more stores (some cache) written origin keeps = inr (
    origin,
    λ enabled.
        (stores.sql_cache, written ∙ ap (λ (c : SqlCache D Payload). some c) (sym (keeps _))),
  )

  store_where-Fine :
      (enabled : Bool) (result : Success) (more : Stores f D → Stores f D) (stores : Stores f D)
      → settings.sql_cache_enabled ≡ enabled
      → IsKnown result
      → ((kept : Stores f D) → (more kept).sql_cache ≡ kept.sql_cache)
      → Fine (store_where f md5 backends settings enabled query k (success result) more stores)
  store_where-Fine false result more stores is origin keeps =
      inr (origin, λ enabled. cc (is, enabled))
  store_where-Fine true result more stores is origin keeps =
      and_then-Fine result more stores _ refl origin keeps

  -- A result of a known origin that is stored, by steps that leave the cache of the process alone.
  pub store_response-Fine :
      (result : Success) (more : Stores f D → Stores f D) (stores : Stores f D)
      → IsKnown result
      → ((kept : Stores f D) → (more kept).sql_cache ≡ kept.sql_cache)
      → Fine (store_response f md5 backends settings query k (success result) more stores)
  unfolding store_response
  store_response-Fine result more stores origin keeps =
      store_where-Fine settings.sql_cache_enabled result more stores refl origin keeps

  store_late-keeps :
      (response : Response) (vector : Option (Vector f)) (stores : Stores f D)
      → (store_late f md5 sqlparse backends settings query k response vector stores).sql_cache
        ≡ stores.sql_cache
  store_late-keeps response none stores = persist-keeps _ _ _ _ ∙ store_semantic-keeps _ _ _
  store_late-keeps response (some vector) stores =
      persist-keeps _ _ _ _ ∙ store_semantic-keeps _ _ _

  store_reviewed-Fine :
      (vector : Option (Vector f)) (stores : Stores f D) (found : Success)
      (reviewed : Option Success)
      → backends.react_run query top_k ≡ RunEnd.responded (success found)
      → apply_review_gate backends.reviewers settings.governance_enabled found query ≡ reviewed
      → Fine (store_reviewed f md5 sqlparse backends settings query k vector stores reviewed)
  store_reviewed-Fine vector stores found none ran gate = tt
  store_reviewed-Fine vector stores found (some result) ran gate =
      let (same_sql, same_tables) = apply_review_gate-keeps _ _ found result query gate in
      store_response-Fine result _ stores (inr (found, ran, same_sql, same_tables))
        (store_late-keeps (success result) vector)

  settle_run-Fine :
      (vector : Option (Vector f)) (stores : Stores f D) (end : RunEnd)
      → backends.react_run query top_k ≡ end
      → Fine (settle_run f md5 sqlparse backends settings query k vector stores end)
  unfolding settle_run
  settle_run-Fine vector stores RunEnd.raised ran = tt
  settle_run-Fine vector stores RunEnd.timed_out ran = tt
  settle_run-Fine vector stores (RunEnd.responded (success found)) ran =
      store_reviewed-Fine vector stores found _ ran refl
  settle_run-Fine vector stores (RunEnd.responded (rejected r)) ran = tt
  settle_run-Fine vector stores (RunEnd.responded (clarification c)) ran = tt

  pub settle_template-Fine :
      (vector : Option (Vector f)) (stores : Stores f D) (result : Option (Option Success))
      → ((found : Success)
          → result ≡ some (some found)
          → IsChecked f md5 sqlparse backends settings query top_k found)
      → Fine (settle_template f md5 sqlparse backends settings query top_k vector stores result)
  unfolding settle_template
  settle_template-Fine vector stores none checked = tt
  settle_template-Fine vector stores (some none) checked = settle_run-Fine vector stores _ refl
  settle_template-Fine vector stores (some (some found)) checked =
      store_response-Fine found _ stores (inl (checked found refl))
        (λ kept. persist-keeps _ _ _ _ ∙ store_semantic-keeps _ _ _)

-- ===== src/Generation/Service/Lookup.antt =====
-- The lookups of `generate_sql` in the caches, `_load_query_embedding`, and what it stores, of
-- nl2sql_service/generation/sql_generator.py.
use nl2sqlcopy.Prelude.{ℕ, Bool, true, false, Option, none, some, List, [], ◌∷◌, Eq, if◌then◌else◌}
use nl2sqlcopy.Text.{Text}
use nl2sqlcopy.Floats.{Floats}
use nl2sqlcopy.Agent.Loop.Answers.{Response}
use nl2sqlcopy.Core.Cache.Store.{Answer}
use nl2sqlcopy.Core.Cache.Embed
use nl2sqlcopy.Core.Cache.Embed.{EmbedCache}
use nl2sqlcopy.Core.Cache.Sql
use nl2sqlcopy.Core.Cache.Sql.{SqlCache}
use nl2sqlcopy.Core.Cache.Semantic
use nl2sqlcopy.Core.Cache.Semantic.{SemanticCache}
use nl2sqlcopy.Core.Cache.Vectors.{Vector}
use nl2sqlcopy.Generation.Service.{
  Backends, GenerationSettings, Outcome, Persisted, Place, Stores, returned,
}
use nl2sqlcopy.Generation.Service.Cached.{
  CacheSource, Payload, db_exact, db_semantic, dumped, fresh, memory_semantic, response_from_dict,
  with_cache_metadata,
}

module _ (f : Floats) {D : Type 0} ⦃e : Eq D⦄ (md5 : Text → D) (backends : Backends f D)
    (settings : GenerationSettings f) where
  -- The vectors of one text, of which the first is stored: `none` where there is none and where a step
  -- raises, which the callers take alike.
  abbrev kept_vector :
      EmbedCache D (Vector f)
      → Text
      → Place
      → Option (List (Vector f))
      → Option (Vector f) × EmbedCache D (Vector f)
  kept_vector cache query place none = (none, cache)
  kept_vector cache query place (some []) = (none, cache)
  kept_vector cache query place (some (vector ∷ vectors)) =
      elim (Embed.set md5 settings.embed_cache_ttl cache query vector (backends.write_time place)) [
        | none ↦ (none, cache)
        | some cache' ↦ (some vector, cache')
      ]

  abbrev vector_or :
      Text
      → Place
      → Option (Vector f) × EmbedCache D (Vector f)
      → Option (Vector f) × EmbedCache D (Vector f)
  vector_or query place (some vector, cache) = (some vector, cache)
  vector_or query place (none, cache) =
      kept_vector cache query place (backends.embed_texts place query)

  -- `_load_query_embedding`
  unfoldable pub load_query_embedding :
      Place → Text → EmbedCache D (Vector f) → Option (Vector f) × EmbedCache D (Vector f)
  load_query_embedding place query cache =
      vector_or query place
        (Embed.get md5 settings.embed_cache_ttl cache query (backends.lookup_time place))

  abbrev pub set_sql :
      SqlCache D Payload → Text → ℕ → Answer Payload → Place → Option (SqlCache D Payload)
  set_sql cache query top_k payload place =
      Sql.set md5 settings.sql_cache_ttl cache query top_k payload (backends.write_time place)

  abbrev pub set_semantic :
      SemanticCache f D Payload
      → Text
      → ℕ
      → Answer Payload
      → Option (Vector f)
      → Place
      → Option (SemanticCache f D Payload)
  set_semantic cache query top_k payload none place = some cache
  set_semantic cache query top_k payload (some vector) place =
      Semantic.set f md5 cache query top_k payload (some vector) (backends.write_time place)

  abbrev pub warm_semantic :
      Text → ℕ → Answer Payload → Option (Vector f) → Stores f D → Bool × Stores f D
  warm_semantic query top_k payload vector stores =
      elim (set_semantic stores.semantic_sql_cache query top_k payload vector Place.early) [
        | none ↦ (false, stores)
        | some cache ↦ (true, record stores { semantic_sql_cache = cache })
      ]

  -- An answer of the database put into both caches of the process; whether no write raised.
  unfoldable pub warm :
      Text → ℕ → Answer Payload → Option (Vector f) → Stores f D → Bool × Stores f D
  warm query top_k payload vector stores =
      elim (set_sql stores.sql_cache query top_k payload Place.early) [
        | none ↦ (false, stores)
        | some cache ↦
            warm_semantic query top_k payload vector (record stores { sql_cache = cache })
      ]

  -- The answer of the database that is returned, where nothing raises on the way.
  abbrev pub warmed : Bool → Answer Payload → CacheSource → Option Payload
  warmed false payload kind = none
  warmed true payload kind = response_from_dict (with_cache_metadata payload kind)

  abbrev pub warm_hit :
      Text
      → ℕ
      → Option (Vector f)
      → Answer Payload
      → CacheSource
      → Stores f D
      → Option Payload × Stores f D
  warm_hit query top_k vector payload kind stores =
      let (fine, stores') = warm query top_k payload vector stores in
      (warmed fine payload kind, stores')

  abbrev pub db_semantic_hit :
      Text
      → ℕ
      → Vector f
      → Stores f D
      → Option (Option (Answer Payload))
      → Option Payload × Stores f D
  db_semantic_hit query top_k vector stores (some (some payload)) =
      warm_hit query top_k (some vector) payload db_semantic stores
  db_semantic_hit query top_k vector stores _ = (none, stores)

  abbrev pub db_semantic_lookup :
      Text → ℕ → Option (Vector f) → ℕ → Stores f D → Option Payload × Stores f D
  db_semantic_lookup query top_k none epoch stores = (none, stores)
  db_semantic_lookup query top_k (some vector) epoch stores =
      db_semantic_hit query top_k vector stores
        (backends.get_query_cache_semantic vector top_k epoch)

  abbrev pub db_exact_hit :
      Text
      → ℕ
      → Option (Vector f)
      → ℕ
      → Stores f D
      → Option (Option (Answer Payload))
      → Option Payload × Stores f D
  db_exact_hit query top_k vector epoch stores none = (none, stores)
  db_exact_hit query top_k vector epoch stores (some none) =
      db_semantic_lookup query top_k vector epoch stores
  db_exact_hit query top_k vector epoch stores (some (some payload)) =
      warm_hit query top_k vector payload db_exact stores

  abbrev pub db_at_epoch :
      Text → ℕ → Option (Vector f) → Stores f D → Option ℕ → Option Payload × Stores f D
  db_at_epoch query top_k vector stores none = (none, stores)
  db_at_epoch query top_k vector stores (some epoch) =
      db_exact_hit query top_k vector epoch stores
        (backends.get_query_cache_exact query top_k epoch)

  -- The caches of the database: an exception counts as a miss, and keeps what was written before it.
  unfoldable pub db_lookup : Text → ℕ → Option (Vector f) → Stores f D → Option Payload × Stores f D
  unfolding warm
  db_lookup query top_k vector stores =
      if settings.sql_cache_enabled
      then db_at_epoch query top_k vector stores (backends.get_query_cache_epoch Place.early)
      else (none, stores)

  -- `cache_epoch`, as the lookup in the database leaves it.
  abbrev pub looked_up_epoch : Option ℕ
  looked_up_epoch =
      if settings.sql_cache_enabled then backends.get_query_cache_epoch Place.early else none

  abbrev pub semantic_hit :
      Stores f D → Option (Answer Payload) × SemanticCache f D Payload → Option Payload × Stores f D
  semantic_hit stores (none, cache) = (none, record stores { semantic_sql_cache = cache })
  semantic_hit stores (some payload, cache) = (
    response_from_dict (with_cache_metadata payload memory_semantic),
    record stores { semantic_sql_cache = cache },
  )

  -- The semantic cache of the process: an exception counts as a miss.
  unfoldable pub semantic_lookup : ℕ → Option (Vector f) → Stores f D → Option Payload × Stores f D
  semantic_lookup top_k none stores = (none, stores)
  semantic_lookup top_k (some vector) stores =
      if settings.sql_cache_enabled
      then semantic_hit stores (
          Semantic.get_semantic f settings.sql_cache_ttl settings.sql_cache_semantic_threshold
            stores.semantic_sql_cache vector top_k (some settings.sql_cache_semantic_threshold)
            backends.semantic_time)
      else (none, stores)

  -- `cache_epoch or await db.get_query_cache_epoch(pool)`
  abbrev pub epoch_or : Option ℕ → Option ℕ
  epoch_or none = backends.get_query_cache_epoch Place.late
  epoch_or (some ℕ.zero) = backends.get_query_cache_epoch Place.late
  epoch_or (some (ℕ.suc n)) = some (ℕ.suc n)

  abbrev pub persist_at :
      Text → ℕ → Answer Payload → Option (Vector f) → Stores f D → Option ℕ → Stores f D
  persist_at query top_k payload vector stores none = stores
  persist_at query top_k payload vector stores (some epoch) =
      let row : Persisted f = record {
        query_text = query;
        top_k = top_k;
        response_json = payload;
        query_embedding = vector;
        cache_epoch = epoch;
      } in
      if backends.upsert_query_cache_entry row
      then record stores { persisted = row ∷ stores.persisted }
      else stores

  -- The write to the database: an exception is only logged.
  unfoldable pub persist :
      Text → ℕ → Answer Payload → Option (Vector f) → Option ℕ → Stores f D → Stores f D
  persist query top_k payload vector epoch stores =
      persist_at query top_k payload vector stores (epoch_or epoch)

  abbrev pub with_semantic : Stores f D → Option (SemanticCache f D Payload) → Stores f D
  with_semantic stores none = stores
  with_semantic stores (some cache) = record stores { semantic_sql_cache = cache }

  -- The write to the semantic cache: an exception is dropped.
  unfoldable pub store_semantic :
      Text → ℕ → Answer Payload → Option (Vector f) → Stores f D → Stores f D
  store_semantic query top_k payload vector stores =
      with_semantic stores
        (set_semantic stores.semantic_sql_cache query top_k payload vector Place.late)

  -- What follows the write to the cache of the process.
  abbrev pub and_then :
      Response
      → (Stores f D → Stores f D)
      → Stores f D
      → Option (SqlCache D Payload)
      → Outcome × Stores f D
  and_then response more stores none = (Outcome.raised, stores)
  and_then response more stores (some cache) =
      (returned (fresh response), more (record stores { sql_cache = cache }))

  abbrev pub store_where :
      Bool → Text → ℕ → Response → (Stores f D → Stores f D) → Stores f D → Outcome × Stores f D
  store_where false query top_k response more stores = (returned (fresh response), stores)
  store_where true query top_k response more stores =
      and_then response more stores
        (set_sql stores.sql_cache query top_k (dumped response) Place.late)

  -- A response stored in the cache of the process, and by `more` in the others; the write raises.
  unfoldable pub store_response :
      Text → ℕ → Response → (Stores f D → Stores f D) → Stores f D → Outcome × Stores f D
  store_response = store_where settings.sql_cache_enabled

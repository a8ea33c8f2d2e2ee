-- ===== src/Generation/Service/Origin.antt =====
-- Where the SQL of `generate_sql` of nl2sql_service/generation/sql_generator.py comes from, and where it
-- is kept.
pub mod Checked
pub mod Stored
pub mod Hits
pub mod Walk
pub mod Again
use nl2sqlcopy.Prelude.{
  ℕ, ◌≡◌, ◌⊎◌, inl, inr, refl, Bool, true, false, Option, some, List, [], ◌++◌, Eq,
}
use nl2sqlcopy.Text.{Text}
use nl2sqlcopy.Floats.{Floats}
use nl2sqlcopy.Agent.Actions.{SqlWarning}
use nl2sqlcopy.Agent.Loop.Answers.{Response, Success, success, rejected, clarification}
use nl2sqlcopy.Core.Cache.Sql
use nl2sqlcopy.Core.Cache.Sql.{SqlCache}
use nl2sqlcopy.Generation.Review.{Columns}
use nl2sqlcopy.Generation.Safety.{Sqlparse, validate_sql_safety}
use nl2sqlcopy.Generation.Tables.{validate_tables_used}
use nl2sqlcopy.Generation.ColumnScope.{validate_columns_used}
use nl2sqlcopy.Generation.Service.{
  Backends, GenerationSettings, Outcome, Place, RunEnd, Stores, effective_top_k, returned,
}
use nl2sqlcopy.Core.Cache.Store.{Answer}
use nl2sqlcopy.Core.Cache.Semantic
use nl2sqlcopy.Core.Cache.Vectors.{Vector}
use nl2sqlcopy.Generation.Service.Lookup.{load_query_embedding}
use nl2sqlcopy.Generation.Service.Cached.{
  CacheSource, Payload, dumped, db_exact, db_semantic, memory_exact, memory_semantic, uncached,
}
use nl2sqlcopy.Generation.Service.Template.{has_blocking_warnings}

module _ (f : Floats) {D : Type 0} ⦃e : Eq D⦄ (md5 : Text → D) (sqlparse : Sqlparse)
    (backends : Backends f D) (settings : GenerationSettings f) (query : Text)
    (top_k : Option ℕ) where
  -- A result whose SQL passed every check: no warning on its safety, and none that blocks on its tables,
  -- on its columns or of EXPLAIN; its tables are those that the check of tables found.
  abbrev pub IsChecked : Success → Type 0
  IsChecked result =
      (sql : Text) × (tables_used : List Text) × (columns : Columns) × (table_warnings : List
        SqlWarning)
      × (column_warnings : List SqlWarning) × (result.sql ≡ some sql)
      × (validate_sql_safety sqlparse sql ≡ [])
      × (validate_tables_used sqlparse sql tables_used ≡ some (result.tables_used, table_warnings))
      × (validate_columns_used sqlparse sql columns ≡ some column_warnings)
      × (has_blocking_warnings (table_warnings ++ column_warnings) ≡ false)
      × (has_blocking_warnings (backends.run_explain sql) ≡ false)

  -- A result with the SQL and the tables of one that the agent responded with.
  abbrev pub IsOfAgent : Success → Type 0
  IsOfAgent result =
      (found : Success) × (backends.react_run query top_k ≡ RunEnd.responded (success found))
      × (result.sql ≡ found.sql)
      × (result.tables_used ≡ found.tables_used)

  -- The last write to the cache of the process is that of a result, where the cache is enabled.
  abbrev pub IsKept : Success → Stores f D → Type 0
  IsKept result stores =
      settings.sql_cache_enabled ≡ true
      → (before : SqlCache D Payload) × (Sql.set md5 settings.sql_cache_ttl before query
            (effective_top_k f settings top_k) (dumped (success result))
            (backends.write_time Place.late)
          ≡ some stores.sql_cache)

  -- The vector of the question, from the cache of embeddings or the model.
  abbrev pub embedded : Stores f D → Option (Vector f)
  embedded from =
      (load_query_embedding f md5 backends settings Place.early query from.embed_cache).0

  -- What a cache answers the question with: the exact lookup of the process or of the database at its
  -- present epoch, or the semantic lookup of either by the question's vector.
  abbrev pub IsHeld : Stores f D → CacheSource → Answer Payload → Type 0
  IsHeld from uncached answer = true ≡ false
  IsHeld from memory_exact answer =
      (Sql.get md5 settings.sql_cache_ttl from.sql_cache query (effective_top_k f settings top_k)
        (backends.lookup_time Place.early)).0
      ≡ some answer
  IsHeld from memory_semantic answer =
      (vector : Vector f) × (embedded from ≡ some vector)
      × ((Semantic.get_semantic f settings.sql_cache_ttl settings.sql_cache_semantic_threshold
            from.semantic_sql_cache vector (effective_top_k f settings top_k)
            (some settings.sql_cache_semantic_threshold) backends.semantic_time).0
          ≡ some answer)
  IsHeld from db_exact answer =
      (epoch : ℕ) × (backends.get_query_cache_epoch Place.early ≡ some epoch)
      × (backends.get_query_cache_exact query (effective_top_k f settings top_k) epoch
          ≡ some (some answer))
  IsHeld from db_semantic answer =
      (vector : Vector f) × (epoch : ℕ) × (embedded from ≡ some vector)
      × (backends.get_query_cache_epoch Place.early ≡ some epoch)
      × (backends.get_query_cache_semantic vector (effective_top_k f settings top_k) epoch
          ≡ some (some answer))

  -- A response that is the answer of the cache that it names.
  abbrev pub FromCache : Stores f D → Response → Bool → CacheSource → Type 0
  FromCache from response hit source =
      (hit ≡ true)
      × (settings.sql_cache_enabled ≡ true)
      × ((answer : Answer Payload) × IsHeld from source answer × (answer.body.response ≡ response))

  -- What holds of a response, with whether a cache was hit and which one.
  abbrev pub SoundResponse : Stores f D → Response → Bool → CacheSource → Stores f D → Type 0
  SoundResponse from (success result) hit source stores =
      FromCache from (success result) hit source
      ⊎ ((IsChecked result ⊎ IsOfAgent result) × IsKept result stores)
  SoundResponse from (rejected r) hit source stores = Unit
  SoundResponse from (clarification c) hit source stores = Unit

  abbrev pub Sound : Stores f D → Outcome × Stores f D → Type 0
  Sound from (Outcome.raised, stores) = Unit
  Sound from (returned payload, stores) =
      SoundResponse from payload.response payload.cache_hit payload.cache_source stores

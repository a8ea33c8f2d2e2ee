-- ===== src/Core/Cache/Ask.antt =====
-- `AskCache` of nl2sql_service/core/cache.py, the same code as `SemanticSqlCache` over other
-- settings, and the functions over the four caches of the process.
use nl2sqlcopy.Text.{Text}
use nl2sqlcopy.Prelude.{ℕ, Option, Eq}
use nl2sqlcopy.Core.Cache.Store.{Answer}
use nl2sqlcopy.Core.Cache.Embed
use nl2sqlcopy.Core.Cache.Embed.{EmbedCache}
use nl2sqlcopy.Core.Cache.Sql
use nl2sqlcopy.Core.Cache.Sql.{SqlCache}
use nl2sqlcopy.Floats.{Floats}
use nl2sqlcopy.Core.Cache.Vectors.{Vector}
use nl2sqlcopy.Core.Cache.Semantic
use nl2sqlcopy.Core.Cache.Semantic.{SemanticCache}

module _ (f : Floats) where
  open f use {Float}

  pub record Settings : Type 0 where
    pub embed_cache_ttl : ℕ
    pub sql_cache_ttl : ℕ
    pub ask_cache_ttl : ℕ
    pub sql_cache_semantic_threshold : Float
    pub ask_cache_semantic_threshold : Float

  module _ {D B : Type 0} ⦃e : Eq D⦄ where
    unfoldable pub get_exact :
        (Text → D)
        → Settings
        → SemanticCache f D B
        → Text
        → ℕ
        → ℕ
        → Option (Answer B) × SemanticCache f D B
    get_exact md5 settings = Semantic.get_exact f md5 settings.ask_cache_ttl

    unfoldable pub get_semantic :
        Settings
        → SemanticCache f D B
        → Vector f
        → ℕ
        → Option Float
        → (D → ℕ)
        → Option (Answer B) × SemanticCache f D B
    get_semantic settings =
        Semantic.get_semantic f settings.ask_cache_ttl settings.ask_cache_semantic_threshold

    unfoldable pub set :
        (Text → D)
        → SemanticCache f D B
        → Text
        → ℕ
        → Answer B
        → Option (Vector f)
        → ℕ
        → Option (SemanticCache f D B)
    set md5 = Semantic.set f md5

  -- The module's four global caches.
  pub record Caches (D B : Type 0) : Type 0 where
    pub embed_cache : EmbedCache D (Vector f)
    pub sql_cache : SqlCache D B
    pub semantic_sql_cache : SemanticCache f D B
    pub ask_cache : SemanticCache f D B

  pub record CacheStats : Type 0 where
    pub embed_cache_size : ℕ
    pub sql_cache_size : ℕ
    pub semantic_sql_cache_size : ℕ
    pub ask_cache_size : ℕ
    pub embed_cache_ttl_seconds : ℕ
    pub sql_cache_ttl_seconds : ℕ
    pub ask_cache_ttl_seconds : ℕ

  pub record Cleared : Type 0 where
    pub embed_cleared : ℕ
    pub sql_cleared : ℕ
    pub semantic_sql_cleared : ℕ
    pub ask_cleared : ℕ

  module _ {D B : Type 0} where
    unfoldable pub cache_stats : Settings → Caches D B → CacheStats
    cache_stats settings c = record {
      embed_cache_size = Embed.size c.embed_cache;
      sql_cache_size = Sql.size c.sql_cache;
      semantic_sql_cache_size = Semantic.size f c.semantic_sql_cache;
      ask_cache_size = Semantic.size f c.ask_cache;
      embed_cache_ttl_seconds = settings.embed_cache_ttl;
      sql_cache_ttl_seconds = settings.sql_cache_ttl;
      ask_cache_ttl_seconds = settings.ask_cache_ttl;
    }

    unfoldable pub clear_memory_caches : Caches D B → Cleared × Caches D B
    clear_memory_caches c =
        let (sql_cleared, sql_cache) = Sql.invalidate_all c.sql_cache in
        let (semantic_cleared, semantic_cache) = Semantic.invalidate_all f c.semantic_sql_cache in
        let (ask_cleared, ask_cache) = Semantic.invalidate_all f c.ask_cache in
        (
          record {
            embed_cleared = Embed.size c.embed_cache;
            sql_cleared = sql_cleared;
            semantic_sql_cleared = semantic_cleared;
            ask_cleared = ask_cleared;
          },
          record {
            embed_cache = Embed.clear c.embed_cache;
            sql_cache = sql_cache;
            semantic_sql_cache = semantic_cache;
            ask_cache = ask_cache;
          },
        )

-- ===== src/Generation/Service.antt =====
-- `generate_sql` of nl2sql_service/generation/sql_generator.py: its types. The trace events that it
-- emits are left out.
pub mod Cached
pub mod Template
pub mod Lookup
pub mod Flow
pub mod Origin
use nl2sqlcopy.Prelude.{ℕ, zero, suc, Bool, Option, none, some, List, Eq, [], ◌∷◌}
use nl2sqlcopy.Text.{Text}
use nl2sqlcopy.Floats.{Floats}
use nl2sqlcopy.Agent.Actions.{SqlWarning}
use nl2sqlcopy.Agent.Loop.Answers.{Response}
use nl2sqlcopy.Core.Cache.Store.{Answer}
use nl2sqlcopy.Core.Cache.Sql.{SqlCache}
use nl2sqlcopy.Core.Cache.Embed.{EmbedCache}
use nl2sqlcopy.Core.Cache.Semantic.{SemanticCache}
use nl2sqlcopy.Core.Cache.Vectors.{Vector}
use nl2sqlcopy.Generation.Candidate.{ColumnSearchHit}
use nl2sqlcopy.Generation.Filters.{Rule}
use nl2sqlcopy.Generation.Preflight.{PreflightSettings}
use nl2sqlcopy.Generation.Review.{Columns, Reviewers}
use nl2sqlcopy.Generation.Service.Cached.{Payload}

-- What a retrieval of groups tells.
pub record Retrieved : Type 0 where
  pub tables_in_scope : List Text
  pub matched_groups : List Text

-- The places of `generate_sql` that call the same service at different times.
pub data Place : Type 0 where
  ambiguity obvious context deterministic early late : Place

-- How the run of the agent ends, within its time limit.
pub data RunEnd : Type 0 where
  responded : Response → RunEnd
  timed_out raised : RunEnd

-- `generate_sql` returns, or raises.
pub data Outcome : Type 0 where
  returned : Payload → Outcome
  raised : Outcome

module _ (f : Floats) where
  open f use {Float}

  pub record GenerationSettings : Type 0 where
    pub top_k : ℕ
    pub preflight : PreflightSettings
    pub sql_cache_enabled : Bool
    pub sql_cache_ttl : ℕ
    pub embed_cache_ttl : ℕ
    pub sql_cache_semantic_threshold : Float
    pub sql_generation_timeout : ℕ
    pub governance_enabled : Bool

  -- A row of the query cache in the database, but for its endpoint.
  pub record Persisted : Type 0 where
    pub query_text : Text
    pub top_k : ℕ
    pub response_json : Answer Payload
    pub query_embedding : Option (Vector f)
    pub cache_epoch : ℕ

  -- What `generate_sql` calls, and the decoded rules of its settings and of the default ones; `none` is
  -- a call that raises. The clocks read a time at each place, and
  -- that of the semantic lookup one at each key.
  pub record Backends (D : Type 0) : Type 0 where
    pub rewrite_search_query : Place → Text → Option Text
    pub retrieve_groups : Place → Text → ℕ → Text → Option Retrieved
    pub load_columns_for_tables : Place → List Text → Option Columns
    pub filter_rules : List Rule
    pub default_filter_rules : List Rule
    pub run_explain : Text → List SqlWarning
    pub embed_texts : Place → Text → Option (List (Vector f))
    pub search_columns : Vector f → ℕ → Option (List ColumnSearchHit)
    pub get_query_cache_epoch : Place → Option ℕ
    pub get_query_cache_exact : Text → ℕ → ℕ → Option (Option (Answer Payload))
    pub get_query_cache_semantic : Vector f → ℕ → ℕ → Option (Option (Answer Payload))
    pub upsert_query_cache_entry : Persisted → Bool
    pub react_run : Text → Option ℕ → RunEnd
    pub reviewers : Reviewers
    pub lookup_time : Place → ℕ
    pub write_time : Place → ℕ
    pub semantic_time : D → ℕ

  -- The caches of the process, and what was written to that of the database, the latest first.
  pub record Stores (D : Type 0) : Type 0 where
    pub embed_cache : EmbedCache D (Vector f)
    pub sql_cache : SqlCache D Payload
    pub semantic_sql_cache : SemanticCache f D Payload
    pub persisted : List Persisted

  -- `top_k or settings.top_k`
  unfoldable pub effective_top_k : GenerationSettings → Option ℕ → ℕ
  effective_top_k settings none = settings.top_k
  effective_top_k settings (some zero) = settings.top_k
  effective_top_k settings (some (suc n)) = suc n

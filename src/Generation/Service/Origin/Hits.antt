-- ===== src/Generation/Service/Origin/Hits.antt =====
-- The answers that `generate_sql` of nl2sql_service/generation/sql_generator.py finds in the caches.
use nl2sqlcopy.Prelude.{
  ℕ, ◌≡◌, refl, Bool, true, false, Option, none, some, Eq, if◌then◌else◌, Bool-cases, inl, inr,
  ◌==◌, string_eq,
}
use Prim.Native.String.{String}
use nl2sqlcopy.Text.{Text}
use nl2sqlcopy.Floats.{Floats}
use nl2sqlcopy.Core.Cache.Store.{Answer}
use nl2sqlcopy.Core.Cache.Semantic.{SemanticCache}
use nl2sqlcopy.Core.Cache.Vectors.{Vector}
use mathlib.Core.Path.{subst}
use nl2sqlcopy.Generation.Safety.{Sqlparse}
use nl2sqlcopy.Generation.Service.{Backends, GenerationSettings, Place, Stores, effective_top_k}
use nl2sqlcopy.Generation.Service.Origin.{IsHeld, FromCache, embedded}
use nl2sqlcopy.Generation.Service.Cached.{
  CacheSource, Payload, memory_semantic, db_exact, db_semantic, is_hit, read_as, status_of,
  response_from_dict, with_cache_metadata,
}
use nl2sqlcopy.Generation.Service.Lookup.{
  semantic_lookup, db_lookup, db_at_epoch, db_exact_hit, db_semantic_hit, db_semantic_lookup,
  semantic_hit, warmed,
}

read_as-same :
    (status : Option String) (payload found : Payload)
    → read_as status payload ≡ some found
    → payload ≡ found
read_as-same none payload found h = cc h
read_as-same (some status) payload found h =
    elim (Bool-cases (status == status_of payload.response)) [
      | inl is_one ↦ cc (rw is_one at h)
      | inr other ↦ cc (rw other at h)
    ]

response_from_dict-hit :
    (payload : Answer Payload) (kind : CacheSource) (found : Payload)
    → response_from_dict (with_cache_metadata payload kind) ≡ some found
    → record { response = payload.body.response; cache_hit = is_hit kind; cache_source = kind }
      ≡ found
unfolding response_from_dict with_cache_metadata
response_from_dict-hit payload kind found h = read_as-same payload.status _ found h

module _ (f : Floats) {D : Type 0} ⦃e : Eq D⦄ (md5 : Text → D) (sqlparse : Sqlparse)
    (backends : Backends f D) (settings : GenerationSettings f) (query : Text) (top_k : Option ℕ)
    (from : Stores f D) where
  abbrev k : ℕ
  k = effective_top_k f settings top_k

  abbrev Held : CacheSource → Answer Payload → Type 0
  Held = IsHeld f md5 sqlparse backends settings query top_k from

  -- A payload that is found is the answer of a cache, and says so.
  abbrev pub IsHit : Option Payload × Stores f D → Type 0
  IsHit (none, stores) = Unit
  IsHit (some payload, stores) =
      FromCache f md5 sqlparse backends settings query top_k from payload.response payload.cache_hit
        payload.cache_source

  pub read-IsHit :
      (payload : Answer Payload) (kind : CacheSource) (stores : Stores f D) (o : Option Payload)
      → settings.sql_cache_enabled ≡ true
      → is_hit kind ≡ true
      → Held kind payload
      → response_from_dict (with_cache_metadata payload kind) ≡ o
      → IsHit (o, stores)
  read-IsHit payload kind stores none enabled hit held h = tt
  read-IsHit payload kind stores (some found) enabled hit held h =
      subst (λ (p : Payload). IsHit (some p, stores)) (response_from_dict-hit payload kind found h)
        (hit, enabled, (payload, held, refl))

  if-IsHit :
      (test : Bool) (found : Option Payload × Stores f D) (stores : Stores f D)
      → (test ≡ true → IsHit found)
      → IsHit (if test then found else (none, stores))
  if-IsHit true found stores hit = hit refl
  if-IsHit false found stores hit = tt

  semantic_hit-IsHit :
      (vector : Vector f) (stores : Stores f D)
      (found : Option (Answer Payload) × SemanticCache f D Payload)
      → settings.sql_cache_enabled ≡ true
      → ((payload : Answer Payload) → found.0 ≡ some payload → Held memory_semantic payload)
      → IsHit (semantic_hit f md5 backends settings stores found)
  semantic_hit-IsHit vector stores (none, cache) enabled held = tt
  semantic_hit-IsHit vector stores (some payload, cache) enabled held =
      read-IsHit payload memory_semantic _ _ enabled refl (held payload refl) refl

  pub semantic_lookup-IsHit :
      (vector : Option (Vector f)) (stores : Stores f D)
      → embedded f md5 sqlparse backends settings query top_k from ≡ vector
      → from.semantic_sql_cache ≡ stores.semantic_sql_cache
      → IsHit (semantic_lookup f md5 backends settings k vector stores)
  unfolding semantic_lookup
  semantic_lookup-IsHit none stores is same = tt
  semantic_lookup-IsHit (some vector) stores is same =
      if-IsHit settings.sql_cache_enabled _ stores (λ enabled.
        semantic_hit-IsHit vector stores _ enabled (λ payload found. (vector, is, rw same found)))

  warmed-IsHit :
      (fine : Bool) (payload : Answer Payload) (kind : CacheSource) (stores : Stores f D)
      → settings.sql_cache_enabled ≡ true
      → is_hit kind ≡ true
      → Held kind payload
      → IsHit (warmed f md5 backends settings fine payload kind, stores)
  warmed-IsHit false payload kind stores enabled hit held = tt
  warmed-IsHit true payload kind stores enabled hit held =
      read-IsHit payload kind stores _ enabled hit held refl

  db_semantic_hit-IsHit :
      (vector : Vector f) (stores : Stores f D) (found : Option (Option (Answer Payload)))
      → settings.sql_cache_enabled ≡ true
      → ((payload : Answer Payload) → found ≡ some (some payload) → Held db_semantic payload)
      → IsHit (db_semantic_hit f md5 backends settings query k vector stores found)
  db_semantic_hit-IsHit vector stores none enabled held = tt
  db_semantic_hit-IsHit vector stores (some none) enabled held = tt
  db_semantic_hit-IsHit vector stores (some (some payload)) enabled held =
      warmed-IsHit _ payload db_semantic _ enabled refl (held payload refl)

  db_semantic_lookup-IsHit :
      (vector : Option (Vector f)) (epoch : ℕ) (stores : Stores f D)
      → settings.sql_cache_enabled ≡ true
      → embedded f md5 sqlparse backends settings query top_k from ≡ vector
      → backends.get_query_cache_epoch Place.early ≡ some epoch
      → IsHit (db_semantic_lookup f md5 backends settings query k vector epoch stores)
  db_semantic_lookup-IsHit none epoch stores enabled is now = tt
  db_semantic_lookup-IsHit (some vector) epoch stores enabled is now =
      db_semantic_hit-IsHit vector stores _ enabled
        (λ payload found. (vector, epoch, is, now, found))

  db_exact_hit-IsHit :
      (vector : Option (Vector f)) (epoch : ℕ) (stores : Stores f D)
      (found : Option (Option (Answer Payload)))
      → settings.sql_cache_enabled ≡ true
      → embedded f md5 sqlparse backends settings query top_k from ≡ vector
      → backends.get_query_cache_epoch Place.early ≡ some epoch
      → backends.get_query_cache_exact query k epoch ≡ found
      → IsHit (db_exact_hit f md5 backends settings query k vector epoch stores found)
  db_exact_hit-IsHit vector epoch stores none enabled is now there = tt
  db_exact_hit-IsHit vector epoch stores (some none) enabled is now there =
      db_semantic_lookup-IsHit vector epoch stores enabled is now
  db_exact_hit-IsHit vector epoch stores (some (some payload)) enabled is now there =
      warmed-IsHit _ payload db_exact _ enabled refl (epoch, now, there)

  db_at_epoch-IsHit :
      (vector : Option (Vector f)) (stores : Stores f D) (epoch : Option ℕ)
      → settings.sql_cache_enabled ≡ true
      → embedded f md5 sqlparse backends settings query top_k from ≡ vector
      → backends.get_query_cache_epoch Place.early ≡ epoch
      → IsHit (db_at_epoch f md5 backends settings query k vector stores epoch)
  db_at_epoch-IsHit vector stores none enabled is now = tt
  db_at_epoch-IsHit vector stores (some epoch) enabled is now =
      db_exact_hit-IsHit vector epoch stores _ enabled is now refl

  pub db_lookup-IsHit :
      (vector : Option (Vector f)) (stores : Stores f D)
      → embedded f md5 sqlparse backends settings query top_k from ≡ vector
      → IsHit (db_lookup f md5 backends settings query k vector stores)
  unfolding db_lookup
  db_lookup-IsHit vector stores is =
      if-IsHit settings.sql_cache_enabled _ stores
        (λ enabled. db_at_epoch-IsHit vector stores _ enabled is refl)

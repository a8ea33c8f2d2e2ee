-- ===== src/Generation/Service/Origin/Walk.antt =====
-- `generate_sql` of nl2sql_service/generation/sql_generator.py, one step after another: every response is
-- sound.
use nl2sqlcopy.Prelude.{
  ℕ, ◌≡◌, refl, Bool, true, false, Option, none, some, Eq, if◌then◌else◌, inl, string_eq,
}
use nl2sqlcopy.Text.{Text}
use nl2sqlcopy.Floats.{Floats}
use nl2sqlcopy.Agent.Loop.Answers.{Response, Success, success, rejected, clarification}
use nl2sqlcopy.Core.Cache.Store.{Answer}
use nl2sqlcopy.Core.Cache.Sql.{SqlCache}
use nl2sqlcopy.Core.Cache.Vectors.{Vector}
use nl2sqlcopy.Generation.Safety.{Sqlparse}
use nl2sqlcopy.Generation.Service.{
  Backends, GenerationSettings, Outcome, Retrieved, Stores, effective_top_k,
}
use nl2sqlcopy.Generation.Service.Cached.{CacheSource, Payload, memory_exact}
use nl2sqlcopy.Generation.Service.Template.{obvious_result}
use nl2sqlcopy.Generation.Service.Flow.{
  answered, hit_or, look_further, after_candidate, check_candidate, settle_obvious,
  look_for_template, memory_hit, look_up, unclear_or, destructive_or, generate_sql,
}
use nl2sqlcopy.Generation.Service.Origin.{SoundResponse, Sound, IsHeld, FromCache, embedded}
use nl2sqlcopy.Generation.Service.Origin.Stored.{
  persist-keeps, store_response-Fine, settle_template-Fine,
}
use nl2sqlcopy.Generation.Service.Origin.Hits.{
  IsHit, read-IsHit, semantic_lookup-IsHit, db_lookup-IsHit,
}
use nl2sqlcopy.Generation.Service.Origin.Checked.{
  obvious_result-Checked, try_deterministic_generation-Checked,
}

module _ (f : Floats) {D : Type 0} ⦃e : Eq D⦄ (md5 : Text → D) (sqlparse : Sqlparse)
    (backends : Backends f D) (settings : GenerationSettings f) (query : Text) (top_k : Option ℕ)
    (from : Stores f D) where
  abbrev Fine : Outcome × Stores f D → Type 0
  Fine = Sound f md5 sqlparse backends settings query top_k from

  abbrev k : ℕ
  k = effective_top_k f settings top_k

  abbrev vector_of : Option (Vector f)
  vector_of = embedded f md5 sqlparse backends settings query top_k from

  abbrev IsFound : Option Payload × Stores f D → Type 0
  IsFound = IsHit f md5 sqlparse backends settings query top_k from

  -- A hit is fine.
  hit-Fine :
      (response : Response) (hit : Bool) (source : CacheSource) (stores : Stores f D)
      → FromCache f md5 sqlparse backends settings query top_k from response hit source
      → SoundResponse f md5 sqlparse backends settings query top_k from response hit source stores
  hit-Fine (success s) hit source stores h = inl h
  hit-Fine (rejected r) hit source stores h = tt
  hit-Fine (clarification c) hit source stores h = tt

  hit_or-Fine :
      (found : Option Payload × Stores f D) (rest : Stores f D → Outcome × Stores f D)
      → IsFound found
      → ((stores : Stores f D) → Fine (rest stores))
      → Fine (hit_or f md5 sqlparse backends settings found rest)
  unfolding hit_or
  hit_or-Fine (none, stores) rest hit fine = fine stores
  hit_or-Fine (some payload, stores) rest hit fine =
      hit-Fine payload.response payload.cache_hit payload.cache_source stores hit

  look_further-Fine :
      (vector : Option (Vector f)) (retrieved : Option Retrieved) (candidate : Bool)
      (stores : Stores f D)
      → vector_of ≡ vector
      → from.semantic_sql_cache ≡ stores.semantic_sql_cache
      → Fine (
          look_further f md5 sqlparse backends settings query top_k vector retrieved candidate
            stores)
  unfolding look_further
  look_further-Fine vector retrieved candidate stores is same =
      hit_or-Fine _ _
        (semantic_lookup-IsHit f md5 sqlparse backends settings query top_k from vector stores is
          same)
        (λ searched.
          hit_or-Fine _ _
            (db_lookup-IsHit f md5 sqlparse backends settings query top_k from vector searched is)
            (λ looked_up.
              settle_template-Fine f md5 sqlparse backends settings query top_k from vector
                looked_up _
                (λ found.
                  try_deterministic_generation-Checked f md5 sqlparse backends settings query top_k
                    k candidate retrieved found)))

  after_candidate-Fine :
      (vector : Option (Vector f)) (retrieved : Option Retrieved) (stores : Stores f D)
      (candidate : Option Bool)
      → vector_of ≡ vector
      → from.semantic_sql_cache ≡ stores.semantic_sql_cache
      → Fine (
          after_candidate f md5 sqlparse backends settings query top_k vector retrieved stores
            candidate)
  after_candidate-Fine vector retrieved stores none is same = tt
  after_candidate-Fine vector retrieved stores (some candidate) is same =
      look_further-Fine vector retrieved candidate stores is same

  check_candidate-Fine :
      (retrieved : Option Retrieved) (stores : Stores f D) (vector : Option (Vector f))
      → vector_of ≡ vector
      → from.semantic_sql_cache ≡ stores.semantic_sql_cache
      → Fine (check_candidate f md5 sqlparse backends settings query top_k retrieved stores vector)
  unfolding check_candidate
  check_candidate-Fine retrieved stores none is same =
      look_further-Fine none retrieved false stores is same
  check_candidate-Fine retrieved stores (some vector) is same =
      after_candidate-Fine (some vector) _ stores _ is same

  settle_obvious-Fine :
      (retrieved : Option Retrieved) (cache : SqlCache D Payload) (result : Option Success)
      → obvious_result f sqlparse backends query k retrieved ≡ result
      → Fine (
          settle_obvious f md5 sqlparse backends settings query top_k retrieved
            (record from { sql_cache = cache })
            result)
  unfolding settle_obvious
  settle_obvious-Fine retrieved cache (some result) built =
      store_response-Fine f md5 sqlparse backends settings query top_k from result _
        (record from { sql_cache = cache })
        (inl (
          obvious_result-Checked f md5 sqlparse backends settings query top_k k retrieved result
            built))
        (persist-keeps f md5 sqlparse backends settings query top_k from _ _ _)
  settle_obvious-Fine retrieved cache none built = check_candidate-Fine retrieved _ _ refl refl

  look_for_template-Fine :
      (cache : SqlCache D Payload)
      → Fine (
          look_for_template f md5 sqlparse backends settings query top_k
            (record from { sql_cache = cache }))
  unfolding look_for_template
  look_for_template-Fine cache = settle_obvious-Fine _ cache _ refl

  answered-Fine :
      (o : Option Payload) (stores : Stores f D) → IsFound (o, stores) → Fine (answered o, stores)
  answered-Fine none stores hit = tt
  answered-Fine (some payload) stores hit =
      hit-Fine payload.response payload.cache_hit payload.cache_source stores hit

  memory_hit-Fine :
      (found : Option (Answer Payload) × SqlCache D Payload)
      → settings.sql_cache_enabled ≡ true
      → ((payload : Answer Payload)
          → found.0 ≡ some payload
          → IsHeld f md5 sqlparse backends settings query top_k from memory_exact payload)
      → Fine (memory_hit f md5 sqlparse backends settings query top_k from found)
  memory_hit-Fine (none, cache) enabled held = look_for_template-Fine cache
  memory_hit-Fine (some payload, cache) enabled held = answered-Fine _ _ (
      read-IsHit f md5 sqlparse backends settings query top_k from payload memory_exact _ _ enabled
        refl (held payload refl) refl)

  if-Fine :
      (test : Bool) (here there : Outcome × Stores f D)
      → (test ≡ true → Fine here)
      → Fine there
      → Fine (if test then here else there)
  if-Fine true here there fine other = fine refl
  if-Fine false here there fine other = other

  look_up-Fine : Fine (look_up f md5 sqlparse backends settings query top_k from)
  unfolding look_up
  look_up-Fine =
      if-Fine settings.sql_cache_enabled _ _
        (λ enabled. memory_hit-Fine _ enabled (λ payload found. found))
        (look_for_template-Fine from.sql_cache)

  unclear_or-Fine :
      (reason : Option Text)
      → Fine (unclear_or f md5 sqlparse backends settings query top_k from reason)
  unclear_or-Fine none = look_up-Fine
  unclear_or-Fine (some reason) = tt

  destructive_or-Fine :
      (keyword : Option Text)
      → Fine (destructive_or f md5 sqlparse backends settings query top_k from keyword)
  destructive_or-Fine (some keyword) = tt
  destructive_or-Fine none = unclear_or-Fine _

  -- Whatever SQL is returned is the answer of the cache that the response names; or else it passed
  -- every check of a template, or it is that of a success of the agent, and where the cache of the
  -- process is enabled the response is what was last written to it, under the question.
  pub generate_sql-Sound : Fine (generate_sql f md5 sqlparse backends settings query top_k from)
  unfolding generate_sql
  generate_sql-Sound = destructive_or-Fine _

-- ===== src/Generation/Service/Origin/Again.antt =====
-- The origin of the SQL that `generate_sql` of nl2sql_service/generation/sql_generator.py returns, and the
-- same question asked again.
use nl2sqlcopy.Prelude.{
  ℕ, ◌-◌, ◌≡◌, ◌∙◌, ap, refl, Bool, true, false, Option, none, some, Eq, ltb, if◌then◌else◌, inl,
  inr, ◌⊎◌,
}
use mathlib.Core.Path.{subst}
use nl2sqlcopy.Text.{Text}
use nl2sqlcopy.Floats.{Floats}
use nl2sqlcopy.Agent.Loop.Answers.{Response, Success, success}
use nl2sqlcopy.Core.CacheKeys.{canonicalize_query_text}
use nl2sqlcopy.Core.Cache.Methods.{sql-get-set}
use nl2sqlcopy.Core.Cache.Sql
use nl2sqlcopy.Core.Cache.Sql.{SqlCache, is_ok}
use nl2sqlcopy.Core.Cache.Store.{Answer}
use nl2sqlcopy.Generation.Preflight.{detect_destructive_query_intent, detect_basic_ambiguity_reason}
use nl2sqlcopy.Generation.Safety.{Sqlparse}
use nl2sqlcopy.Generation.Service.{
  Backends, GenerationSettings, Outcome, Place, Stores, effective_top_k, returned,
}
use nl2sqlcopy.Generation.Service.Cached.{
  Payload, dumped, memory_exact, response_from_dict, response_from_dict-dumped, with_cache_metadata,
}
use nl2sqlcopy.Generation.Service.Flow.{
  answered, memory_hit, look_up, unclear_or, destructive_or, generate_sql,
}
use nl2sqlcopy.Generation.Service.Origin.{
  IsChecked, IsOfAgent, IsKept, FromCache, SoundResponse, Sound,
}
use nl2sqlcopy.Generation.Service.Origin.Walk.{generate_sql-Sound}

module _ (f : Floats) {D : Type 0} ⦃e : Eq D⦄ (md5 : Text → D) (sqlparse : Sqlparse)
    (backends : Backends f D) (settings : GenerationSettings f) (query : Text) (top_k : Option ℕ)
    (stores stores' : Stores f D) (payload : Payload) (result : Success) where
  pub generate_sql-origin :
      generate_sql f md5 sqlparse backends settings query top_k stores ≡ (returned payload, stores')
      → payload.response ≡ success result
      → FromCache f md5 sqlparse backends settings query top_k stores
          (success result)
          payload.cache_hit
          payload.cache_source
        ⊎ ((IsChecked f md5 sqlparse backends settings query top_k result
              ⊎ IsOfAgent f md5 sqlparse backends settings query top_k result)
            × IsKept f md5 sqlparse backends settings query top_k result stores')
  generate_sql-origin ran succeeds =
      subst
        (λ (r : Response).
          SoundResponse f md5 sqlparse backends settings query top_k stores r payload.cache_hit
            payload.cache_source stores')
        succeeds
        (subst (Sound f md5 sqlparse backends settings query top_k stores) ran
          (generate_sql-Sound f md5 sqlparse backends settings query top_k stores))

  kept :
      generate_sql f md5 sqlparse backends settings query top_k stores ≡ (returned payload, stores')
      → payload.response ≡ success result
      → payload.cache_hit ≡ false
      → IsKept f md5 sqlparse backends settings query top_k result stores'
  kept ran succeeds missed = elim (generate_sql-origin ran succeeds) [
    | inl (hit, enabled, found) ↦ cc (hit, missed)
    | inr (origin, keeps) ↦ keeps
  ]

module _ (f : Floats) {D : Type 0} ⦃e : Eq D⦄ (md5 : Text → D) (sqlparse : Sqlparse)
    (backends : Backends f D) (settings : GenerationSettings f) (query : Text) (top_k : Option ℕ)
    (stores : Stores f D) where
  abbrev Answers : Payload → Outcome × Stores f D → Type 0
  Answers payload ended = ended.0 ≡ returned payload

  memory_hit-found :
      (found : Option (Answer Payload) × SqlCache D Payload) (result : Success)
      → found.0 ≡ some (dumped (success result))
      → Answers
          (record { response = success result; cache_hit = true; cache_source = memory_exact })
          (memory_hit f md5 sqlparse backends settings query top_k stores found)
  memory_hit-found (none, cache) result h = cc h
  memory_hit-found (some payload, cache) result h =
      let same : payload ≡ dumped (success result) = cc h in
      ap
        (λ (a : Answer Payload). answered (response_from_dict (with_cache_metadata a memory_exact)))
        same
      ∙ ap answered (response_from_dict-dumped (success result) memory_exact)

  if-Answers :
      (test : Bool) (here there : Outcome × Stores f D) (payload : Payload)
      → test ≡ true
      → Answers payload here
      → Answers payload (if test then here else there)
  if-Answers true here there payload is h = h
  if-Answers false here there payload is h = cc is

  unclear_or-none :
      (reason : Option Text) (payload : Payload)
      → reason ≡ none
      → Answers payload (look_up f md5 sqlparse backends settings query top_k stores)
      → Answers payload (unclear_or f md5 sqlparse backends settings query top_k stores reason)
  unclear_or-none none payload is h = h
  unclear_or-none (some reason) payload is h = cc is

  destructive_or-none :
      (keyword : Option Text) (payload : Payload)
      → keyword ≡ none
      → detect_basic_ambiguity_reason query settings.preflight ≡ none
      → Answers payload (look_up f md5 sqlparse backends settings query top_k stores)
      → Answers payload (destructive_or f md5 sqlparse backends settings query top_k stores keyword)
  destructive_or-none none payload is clear h = unclear_or-none _ payload clear h
  destructive_or-none (some keyword) payload is clear h = cc is

  -- A question that passes the preflight is answered by what the cache of the process has for it.
  generate_sql-found :
      (result : Success)
      → settings.sql_cache_enabled ≡ true
      → detect_destructive_query_intent query settings.preflight ≡ none
      → detect_basic_ambiguity_reason query settings.preflight ≡ none
      → (Sql.get md5 settings.sql_cache_ttl stores.sql_cache query
          (effective_top_k f settings top_k)
          (backends.lookup_time Place.early)).0
        ≡ some (dumped (success result))
      → Answers
          (record { response = success result; cache_hit = true; cache_source = memory_exact })
          (generate_sql f md5 sqlparse backends settings query top_k stores)
  unfolding generate_sql look_up
  generate_sql-found result enabled harmless clear found =
      destructive_or-none _ _ harmless clear
        (if-Answers settings.sql_cache_enabled _ _ _ enabled (memory_hit-found _ result found))

-- A success that is no answer of a cache is what the same question is answered with again, and says
-- that it comes from the cache of the process: where that cache is enabled, for every question of the
-- same canonical form that passes the preflight, with the same `top_k`, while the answer is no older
-- than the time to live, and whatever the models and the databases would answer then.
pub generate_sql-again :
    (f : Floats) {D : Type 0} ⦃e : Eq D⦄ (md5 : Text → D) (sqlparse : Sqlparse)
    (backends backends' : Backends f D) (settings : GenerationSettings f) (query query' : Text)
    (top_k : Option ℕ) (stores stores' : Stores f D) (payload : Payload) (result : Success)
    → generate_sql f md5 sqlparse backends settings query top_k stores ≡ (returned payload, stores')
    → payload.response ≡ success result
    → payload.cache_hit ≡ false
    → settings.sql_cache_enabled ≡ true
    → canonicalize_query_text query' ≡ canonicalize_query_text query
    → detect_destructive_query_intent query' settings.preflight ≡ none
    → detect_basic_ambiguity_reason query' settings.preflight ≡ none
    → ltb settings.sql_cache_ttl
        (backends'.lookup_time Place.early - backends.write_time Place.late)
      ≡ false
    → (generate_sql f md5 sqlparse backends' settings query' top_k stores').0
      ≡ returned record { response = success result; cache_hit = true; cache_source = memory_exact }
unfolding is_ok dumped
generate_sql-again f md5 sqlparse backends backends' settings query query' top_k stores stores'
      payload result ran succeeds missed enabled same harmless clear young =
    let (before, written) =
      kept f md5 sqlparse backends settings query top_k stores stores' payload result ran succeeds
        missed enabled in
    let found =
      sql-get-set md5 settings.sql_cache_ttl before stores'.sql_cache query query'
        (effective_top_k f settings top_k) (dumped (success result))
        (backends.write_time Place.late) (backends'.lookup_time Place.early) refl written same in
    generate_sql-found f md5 sqlparse backends' settings query' top_k stores' result enabled
      harmless clear (found ∙ ap (λ b. if b then none else some (dumped (success result))) young)

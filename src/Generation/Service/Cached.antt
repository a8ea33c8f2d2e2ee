-- ===== src/Generation/Service/Cached.antt =====
-- A response as the caches of nl2sql_service/generation/sql_generator.py hold it: `model_dump`,
-- `_with_cache_metadata` and `_generate_sql_response_from_dict`.
use Prim.Native.String.{String}
use nl2sqlcopy.Prelude.{
  ◌≡◌, refl, Bool, true, false, Option, none, some, ◌==◌, string_eq, if◌then◌else◌,
}
use nl2sqlcopy.Agent.Loop.Answers.{Response}
use nl2sqlcopy.Core.Cache.Store.{Answer}

pub data CacheSource : Type 0 where
  uncached memory_exact memory_semantic db_exact db_semantic : CacheSource

-- A response with its `cache_hit` and its `cache_source`.
pub record Payload : Type 0 where
  pub response : Response
  pub cache_hit : Bool
  pub cache_source : CacheSource

abbrev pub fresh : Response → Payload
fresh response = record { response = response; cache_hit = false; cache_source = uncached }

abbrev pub status_of : Response → String
status_of (Response.success s) = "ok"
status_of (Response.rejected r) = "rejected"
status_of (Response.clarification c) = "clarification_needed"

-- `response.model_dump(mode="json")` with the metadata of a fresh answer
unfoldable pub dumped : Response → Answer Payload
dumped response = record { status = some (status_of response); top_k = none; body = fresh response }

abbrev pub is_hit : CacheSource → Bool
is_hit uncached = false
is_hit source = true

-- `_with_cache_metadata`
unfoldable pub with_cache_metadata : Answer Payload → CacheSource → Answer Payload
with_cache_metadata payload source = record {
  status = payload.status;
  top_k = payload.top_k;
  body = record {
    response = payload.body.response;
    cache_hit = is_hit source;
    cache_source = source;
  };
}

-- The fields, read as those of the class that the status names; `none` raises.
abbrev pub read_as : Option String → Payload → Option Payload
read_as none payload = none
read_as (some status) payload = if status == status_of payload.response then some payload else none

unfoldable pub response_from_dict : Answer Payload → Option Payload
response_from_dict payload = read_as payload.status payload.body

-- What is dumped and read back from a cache is the response, with the source of the hit.
pub response_from_dict-dumped :
    (response : Response) (source : CacheSource)
    → response_from_dict (with_cache_metadata (dumped response) source)
      ≡ some (record { response = response; cache_hit = is_hit source; cache_source = source })
unfolding response_from_dict with_cache_metadata dumped
response_from_dict-dumped (Response.success s) source = refl
response_from_dict-dumped (Response.rejected r) source = refl
response_from_dict-dumped (Response.clarification c) source = refl

-- ===== src/Llm/Fallback.antt =====
-- `FallbackLLMProvider` of nl2sql_service/llm/factory.py: the providers of a role, tried in order.
-- A provider is what it answers to this call; what the calls leave behind are the usage counts, the
-- trace events and the observations of the provider counter.
pub mod Laws
use nl2sqlcopy.Prelude.{
  ℕ, ◌+◌, Bool, true, false, not, ◌&&◌, ◌⊎◌, inl, inr, Option, none, some, List, [], ◌∷◌, ◌++◌, ltb,
  any, if◌then◌else◌,
}
use nl2sqlcopy.Floats.{Floats}
use nl2sqlcopy.Text.{Text, codes, nonempty, or_else}
use nl2sqlcopy.Llm.Response.{LlmResponse}
use nl2sqlcopy.Llm.Usage.{Metrics, record_llm_response, is_given}

-- `a or b`, for a text that may be None
abbrev pub given_or : Option Text → Text → Text
given_or none b = b
given_or (some a) b = or_else a b

module _ (f : Floats) where
  open f use {Float}

  pub record GenerateInput : Type 0 where
    pub prompt : Text
    pub max_tokens : ℕ
    pub temperature : Float
    pub enable_thinking : Bool
    pub timeout : Option Float
    pub response_format : Option Text

  -- `generate` returns, as every provider of nl2sql_service/llm/providers turns its exceptions into
  -- responses; `embeddings` raises an error of type `E`, or returns vectors; `health` is a status and
  -- a body.
  pub record Provider (E B : Type 0) : Type 0 where
    pub provider_name : Text
    pub model_name : Text
    pub generate : GenerateInput → LlmResponse f
    pub embeddings : List Text → E ⊎ List (List Float)
    pub health : Bool × B

  -- `emit_current_trace_event`: the provider, the model and the retry count of each event, and
  -- whether a completed request brought text.
  pub data TraceEvent : Type 0 where
    llm_request_started : Text → Text → ℕ → TraceEvent
    llm_request_completed : Text → Text → ℕ → Bool → TraceEvent
    fallback_provider_used : Text → Text → ℕ → TraceEvent

  -- `observe_provider(role, provider, model, outcome)`
  pub record Observation : Type 0 where
    pub role : Text
    pub provider : Text
    pub model : Text
    pub outcome : Text

  pub record Effects : Type 0 where
    pub metrics : Metrics f
    pub observed : List Observation
    pub events : List TraceEvent

  -- The response where no provider answered.
  abbrev pub no_text : Text × Text → LlmResponse f
  no_text names = record {
    text = [];
    model_name = names.0;
    provider = names.1;
    latency_ms = 0;
    tokens_used = none;
    prompt_tokens = none;
    completion_tokens = none;
    estimated_cost_usd = none;
    retries = 0;
    error_type = some (codes "upstream");
    error_message = some (codes "No provider returned text");
  }

  module _ {E B : Type 0} where
    -- One turn of the loop, up to the test of the text.
    unfoldable pub attempt :
        Text → GenerateInput → Provider E B → ℕ → Effects → LlmResponse f × Effects
    attempt role input p index effects =
        let response = p.generate input in
        let provider = or_else response.provider p.provider_name in
        let model = or_else response.model_name p.model_name in
        let answered = nonempty response.text in
        (
          response,
          record {
            metrics = record_llm_response f role response effects.metrics;
            observed =
                effects.observed
                ++ record {
                  role = role;
                  provider = provider;
                  model = model;
                  outcome =
                      if answered then codes "ok" else given_or response.error_type (codes "empty");
                }
                  ∷ [];
            events =
                effects.events
                ++ llm_request_started p.provider_name p.model_name index
                  ∷ llm_request_completed provider model (response.retries + index) answered
                  ∷ (if answered && ltb 0 index
                      then fallback_provider_used provider model index ∷ []
                      else []);
          },
        )

    -- The loop: `last` is `last_response`.
    unfoldable pub tries :
        Text
        → GenerateInput
        → List (Provider E B)
        → ℕ
        → Option (LlmResponse f)
        → Effects
        → Option (LlmResponse f) × Effects
    unfolding attempt
    tries role input [] index last effects = (last, effects)
    tries role input (p ∷ providers) index last effects =
        let (response, after) = attempt role input p index effects in
        let rest = tries role input providers (index + 1) (some response) after in
        if nonempty response.text then (some response, after) else rest

    -- `model_name`, `provider_name`: `none` is the IndexError.
    unfoldable pub first_names : List (Provider E B) → Option (Text × Text)
    first_names [] = none
    first_names (p ∷ providers) = some (p.model_name, p.provider_name)

    -- `generate`: `none` is the IndexError of a provider without providers.
    unfoldable pub generate :
        Text → List (Provider E B) → GenerateInput → Effects → Option (LlmResponse f) × Effects
    unfolding tries first_names
    generate role providers input effects =
        let (answer, after) = tries role input providers 0 none effects in
        (
          elim answer [
            | some response ↦ some response
            | none ↦ elim (first_names providers) [
              | none ↦ none
              | some names ↦ some (no_text names)
            ]
          ],
          after,
        )

    -- The loop of `embeddings`: `last` is `last_error`.
    unfoldable pub embeddings_from :
        List Text → List (Provider E B) → Option E → E ⊎ List (List Float)
    embeddings_from input [] none = inr []
    embeddings_from input [] (some error) = inl error
    embeddings_from input (p ∷ providers) last = elim (p.embeddings input) [
      | inr vectors ↦ inr vectors
      | inl error ↦ embeddings_from input providers (some error)
    ]

    unfoldable pub embeddings : List (Provider E B) → List Text → E ⊎ List (List Float)
    unfolding embeddings_from
    embeddings providers input = embeddings_from input providers none

    abbrev pub checks_of : List (Provider E B) → List (Bool × B)
    checks_of [] = []
    checks_of (p ∷ providers) = p.health ∷ checks_of providers

    -- `health`: whether the status is "ok", and the checks.
    unfoldable pub health : List (Provider E B) → Bool × List (Bool × B)
    health providers = let checks = checks_of providers in (any (λ check. check.0) checks, checks)

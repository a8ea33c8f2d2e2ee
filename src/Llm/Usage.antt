-- ===== src/Llm/Usage.antt =====
-- nl2sql_service/llm/metrics.py: usage counts by role, provider and model. The log line of
-- `record_llm_response` is left out.

pub mod Totals
use nl2sqlcopy.Prelude.{
  ℕ, ◌+◌, ◌≡◌, ◌↔◌, Bool, true, false, not, ◌&&◌, Option, none, some, List, [], ◌∷◌, arith, Eq,
  ◌==◌, eqb, if◌then◌else◌,
}
use nl2sqlcopy.Dict
use nl2sqlcopy.Dict.{Dict}
use nl2sqlcopy.Floats.{Floats, ratio}
use nl2sqlcopy.Text.{Text, codes, text_eq, text_beq, nonempty, or_else, lower}
use nl2sqlcopy.Llm.Response.{LlmResponse}

-- `(role, provider, model)`
pub record Key : Type 0 where
  pub role : Text
  pub provider : Text
  pub model : Text

abbrev pub key_beq : Key → Key → Bool
key_beq a b = a.role == b.role && (a.provider == b.provider && a.model == b.model)

pub key_beq_iff : (a b : Key) → (key_beq a b ≡ true) ↔ (a ≡ b)
key_beq_iff a b = ground (
  arith,
  text_eq.beq_iff a.role b.role,
  text_eq.beq_iff a.provider b.provider,
  text_eq.beq_iff a.model b.model,
)

instance abbrev pub key_eq : Eq Key
key_eq = record { beq = key_beq; beq_iff = key_beq_iff }

-- `n or 0`
abbrev pub or_zero : Option ℕ → ℕ
or_zero none = 0
or_zero (some n) = n

-- `if text`, for a text that may be None
abbrev pub is_given : Option Text → Bool
is_given none = false
is_given (some s) = nonempty s

module _ (f : Floats) where
  open f use {Float, zero, of_ℕ, add, mul, div}

  pub record UsageMetric : Type 0 where
    pub requests : ℕ
    pub failures : ℕ
    pub prompt_tokens : ℕ
    pub completion_tokens : ℕ
    pub total_tokens : ℕ
    pub total_latency_ms : ℕ
    pub estimated_cost_usd : Float
    pub retries : ℕ

  abbrev pub no_usage : UsageMetric
  no_usage = record {
    requests = 0;
    failures = 0;
    prompt_tokens = 0;
    completion_tokens = 0;
    total_tokens = 0;
    total_latency_ms = 0;
    estimated_cost_usd = zero;
    retries = 0;
  }

  abbrev pub Metrics : Type 0
  Metrics = Dict Key UsageMetric

  -- `_metrics[key]` of a `defaultdict`
  unfoldable pub metric_of : Metrics → Key → UsageMetric
  metric_of metrics key = elim (Dict.get metrics key) [ none ↦ no_usage | some m ↦ m ]

  abbrev pub response_key : Text → LlmResponse f → Key
  response_key role response = record {
    role = role;
    provider = or_else response.provider (codes "unknown");
    model = or_else response.model_name (codes "unknown");
  }

  unfoldable pub counted : UsageMetric → LlmResponse f → UsageMetric
  counted m response = record {
    requests = m.requests + 1;
    failures = if is_given response.error_type then m.failures + 1 else m.failures;
    prompt_tokens = m.prompt_tokens + or_zero response.prompt_tokens;
    completion_tokens = m.completion_tokens + or_zero response.completion_tokens;
    total_tokens = m.total_tokens + or_zero response.tokens_used;
    total_latency_ms = m.total_latency_ms + response.latency_ms;
    estimated_cost_usd =
        add m.estimated_cost_usd
          (elim response.estimated_cost_usd [ none ↦ zero | some cost ↦ cost ]);
    retries = m.retries + response.retries;
  }

  unfoldable pub record_llm_response : Text → LlmResponse f → Metrics → Metrics
  unfolding metric_of counted
  record_llm_response role response metrics =
      let key = response_key role response in
      Dict.put metrics key (counted (metric_of metrics key) response)

  pub record Row : Type 0 where
    pub key : Key
    pub metric : UsageMetric
    pub avg_latency_ms : Float

  -- `snapshot`: the average is a quotient of floating point numbers, or the number 0.
  unfoldable pub snapshot : Metrics → List Row
  snapshot [] = []
  snapshot ((key, metric) ∷ metrics) =
      record {
        key = key;
        metric = metric;
        avg_latency_ms =
            if not (eqb metric.requests 0)
            then ratio f metric.total_latency_ms metric.requests
            else zero;
      }
      ∷ snapshot metrics

  unfoldable pub reset : Metrics → Metrics
  reset metrics = []

  -- The prices in dollars for a million tokens, in and out.
  pub record Price : Type 0 where
    pub provider : Text
    pub model : Text
    pub input_price : Float
    pub output_price : Float

  abbrev price : Text → Text → ℕ → ℕ → Price
  price provider model input output = record {
    provider = provider;
    model = model;
    input_price = ratio f input 100;
    output_price = ratio f output 100;
  }

  unfoldable pub pricing : List Price
  pricing =
      price (codes "openai") (codes "gpt-4.1-mini") 40 160
      ∷ price (codes "openai") (codes "gpt-4.1-nano") 10 40
      ∷ price (codes "openai") (codes "gpt-4o-mini") 15 60
      ∷ price (codes "anthropic") (codes "claude-3-5-haiku-latest") 80 400
      ∷ price (codes "groq") (codes "llama-3.3-70b-versatile") 59 79
      ∷ []

  -- `pricing.get((provider_key, model_key), (0.0, 0.0))`
  unfoldable pub price_of : List Price → Text → Text → Float × Float
  price_of [] provider model = (zero, zero)
  price_of (p ∷ prices) provider model =
      let rest = price_of prices provider model in
      if p.provider == provider && p.model == model then (p.input_price, p.output_price) else rest

  unfoldable pub estimate_cost_usd : Text → Text → Option ℕ → Option ℕ → Option Float
  unfolding price_of pricing
  estimate_cost_usd provider model none none = none
  estimate_cost_usd provider model prompt_tokens completion_tokens =
      let (input_price, output_price) = price_of pricing (lower provider) (lower model) in
      some (
        div
          (add (mul (of_ℕ (or_zero prompt_tokens)) input_price)
            (mul (of_ℕ (or_zero completion_tokens)) output_price))
          (of_ℕ 1000000))

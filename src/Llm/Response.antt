-- ===== src/Llm/Response.antt =====
-- `LLMResponse` of nl2sql_service/llm/interfaces.py. The fields `thought` and `raw`, which these
-- parts of the program pass along, are left out; texts that may be None are options.
use nl2sqlcopy.Prelude.{ℕ, Option}
use nl2sqlcopy.Floats.{Floats}
use nl2sqlcopy.Text.{Text}

module _ (f : Floats) where
  open f use {Float}

  pub record LlmResponse : Type 0 where
    pub text : Text
    pub model_name : Text
    pub provider : Text
    pub latency_ms : ℕ
    pub tokens_used : Option ℕ
    pub prompt_tokens : Option ℕ
    pub completion_tokens : Option ℕ
    pub estimated_cost_usd : Option Float
    pub retries : ℕ
    pub error_type : Option Text
    pub error_message : Option Text

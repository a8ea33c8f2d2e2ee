-- ===== src/Tests/Providing.antt =====
-- Providers and their counts over concrete answers, and the theorems at them.
use nl2sqlcopy.Prelude.{
  ℕ, ◌+◌, ◌≤◌, ◌≡◌, refl, ◌⊎◌, inl, inr, true, false, none, some, List, [], ◌∷◌, any, length, map,
  filter,
}
use nl2sqlcopy.Dict
use nl2sqlcopy.Text.{Text, codes, text_eq, nonempty, drop_while, is_space, lower_char}
use nl2sqlcopy.Llm.Response.{LlmResponse}
use nl2sqlcopy.Llm.Usage.{Key, or_zero, metric_of}
use nl2sqlcopy.Llm.Usage.Totals.{Calls, record_all, tally, one_each, failed, record_all-totals}
use nl2sqlcopy.Llm.Fallback.{Provider, GenerateInput, Effects, generate, embeddings}
use nl2sqlcopy.Llm.Fallback.Laws.{
  answers, tried, last_answer, calls_of, returned, embeds, generate-tried, embeddings-returned,
}
use nl2sqlcopy.Llm.Registry.{
  resolve_alias, normalize_provider_name, provider_defaults, provider_compat, provider_requires_key,
}
use nl2sqlcopy.Llm.Config.{
  ProviderConfig, RoleSettings, Settings, role_provider, role_model, role_api_key, role_base_url,
  role_fallback_provider, main_config, fallback_config, resolve_role_configs,
}
use nl2sqlcopy.Llm.Factory.{
  Sources, resolve_secret, Client, openai_compatible_provider, validate_provider_config,
  choose_client, create, create_all, create_for_role,
}
use nl2sqlcopy.Llm.Factory.Clients.{provider_of}
use nl2sqlcopy.Llm.Factory.Laws.{
  first_set, preferences, fallback_preferences, create_for_role-providers, create-validated,
}
use nl2sqlcopy.Tests.Numbers.{whole}

program : Unit {0}
unfolding Dict.get drop_while is_space lower_char resolve_alias normalize_provider_name
    provider_defaults provider_compat provider_requires_key role_provider role_model role_api_key
    role_base_url role_fallback_provider main_config fallback_config resolve_role_configs
    resolve_secret validate_provider_config choose_client create create_all create_for_role
program = tt

abbrev silent : LlmResponse whole
silent = record {
  text = [];
  model_name = codes "small";
  provider = codes "ollama";
  latency_ms = 20;
  tokens_used = none;
  prompt_tokens = none;
  completion_tokens = none;
  estimated_cost_usd = none;
  retries = 2;
  error_type = some (codes "timeout");
  error_message = none;
}

abbrev spoken : LlmResponse whole
spoken = record silent { text = codes "SELECT 1"; tokens_used = some 9; error_type = none }

abbrev first_provider : Provider whole ℕ ℕ
first_provider = record {
  provider_name = codes "ollama";
  model_name = codes "small";
  generate = λ input. silent;
  embeddings = λ input. inl 1;
  health = (false, 0);
}

abbrev second_provider : Provider whole ℕ ℕ
second_provider = record first_provider {
  generate = λ input. spoken;
  embeddings = λ input. inr ((2 ∷ []) ∷ []);
}

abbrev question : GenerateInput whole
question = record {
  prompt = codes "how many orders";
  max_tokens = 512;
  temperature = 1;
  enable_thinking = false;
  timeout = none;
  response_format = none;
}

abbrev no_effects : Effects whole
no_effects = record { metrics = []; observed = []; events = [] }

abbrev role : Text
role = codes "sql"

generate-tried_example :
    let r = generate whole role (first_provider ∷ second_provider ∷ []) question no_effects in
    let called = tried whole question (first_provider ∷ second_provider ∷ []) in
    (response : LlmResponse whole) × (r.0 ≡ some response)
    × (last_answer whole question none called ≡ some response)
    × (nonempty response.text
        ≡ any (answers whole question) (first_provider ∷ second_provider ∷ []))
    × (r.1.metrics ≡ record_all whole no_effects.metrics (calls_of whole role question called))
    × (length r.1.observed ≡ length no_effects.observed + length called)
generate-tried_example =
    generate-tried whole role first_provider (second_provider ∷ []) question no_effects

embeddings-returned_example :
    returned (embeddings whole (first_provider ∷ second_provider ∷ []) (role ∷ []))
    ≡ any (embeds whole (role ∷ [])) (first_provider ∷ second_provider ∷ [])
embeddings-returned_example =
    embeddings-returned whole first_provider (second_provider ∷ []) (role ∷ [])

abbrev key : Key
key = record { role = role; provider = codes "ollama"; model = codes "small" }

abbrev calls : Calls whole
calls = (role, silent) ∷ (role, spoken) ∷ []

record_all-totals_example :
    let m = metric_of whole (record_all whole [] calls) key in
    (m.requests ≡ tally whole key (one_each whole) calls)
    × (m.failures ≡ tally whole key (failed whole) calls)
    × (m.failures ≤ m.requests)
    × (m.prompt_tokens ≡ tally whole key (λ r. or_zero r.prompt_tokens) calls)
    × (m.completion_tokens ≡ tally whole key (λ r. or_zero r.completion_tokens) calls)
    × (m.total_tokens ≡ tally whole key (λ r. or_zero r.tokens_used) calls)
    × (m.total_latency_ms ≡ tally whole key (λ r. r.latency_ms) calls)
    × (m.retries ≡ tally whole key (λ r. r.retries) calls)
record_all-totals_example = record_all-totals whole calls key

-- A role on another provider than the rest, with a fallback provider for all roles.
abbrev own : RoleSettings whole
own = record {
  model_provider = codes "groq";
  model = codes "large";
  model_api_key = codes "secret";
  model_base_url = [];
  timeout = 1;
  max_tokens = 0;
  temperature = 1;
  fallback_provider = [];
  fallback_model = [];
  fallback_api_key = [];
  fallback_base_url = [];
}

abbrev settings : Settings whole
settings = record {
  llm_provider = codes "ollama";
  llm_model = codes "small";
  llm_api_key = [];
  llm_base_url = codes "http://localhost:11434";
  llm_timeout = 61;
  llm_max_tokens = 4096;
  llm_temperature = 1;
  llm_max_retries = 2;
  llm_retry_base_delay = 1;
  llm_fallback_provider = codes "openai";
  llm_fallback_model = [];
  llm_fallback_api_key = codes "other";
  llm_fallback_base_url = [];
  effective_query_rewrite_model = codes "small";
  of_role = λ r. own;
}

abbrev sources : Sources
sources = record { file = λ path. none; variable = λ name. [] }

abbrev clients : List (Client whole)
clients =
    openai_compatible_provider (record (main_config whole settings role [] 1) {
      provider = codes "groq";
      api_key = codes "secret";
    })
    ∷ openai_compatible_provider (record (fallback_config whole settings role [] 1) {
      provider = codes "openai";
      api_key = codes "other";
    })
    ∷ []

clients_run : create_for_role whole sources settings role [] 1 ≡ some clients
unfolding program
clients_run = refl

create_for_role-providers_example :
    map (provider_of whole) clients
    ≡ normalize_provider_name (first_set (preferences whole settings role))
      ∷ map normalize_provider_name
          (filter nonempty (first_set (fallback_preferences whole settings role) ∷ []))
create_for_role-providers_example =
    create_for_role-providers whole sources settings role [] 1 clients clients_run

abbrev given : ProviderConfig whole
given = main_config whole settings role [] 1

abbrev used : ProviderConfig whole
used = record given { provider = codes "groq"; api_key = codes "secret" }

client_run : create whole sources given ≡ some (openai_compatible_provider used)
unfolding program
client_run = refl

create-validated_example :
    (used.provider ≡ normalize_provider_name given.provider)
    × (used.model ≡ given.model)
    × (resolve_secret sources given.api_key ≡ some used.api_key)
    × (nonempty used.provider ≡ true)
    × (nonempty used.model ≡ true)
    × ((provider_requires_key used.provider ≡ false) ⊎ (nonempty used.api_key ≡ true))
create-validated_example =
    create-validated whole sources given (openai_compatible_provider used) used client_run refl

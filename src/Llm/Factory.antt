-- ===== src/Llm/Factory.antt =====
-- `LLMFactory.create` and `create_for_role` of nl2sql_service/llm/factory.py. The environment and
-- the files that secrets are read from are arguments; a secret that is None is empty.

pub mod Clients
pub mod Laws
use nl2sqlcopy.Prelude.{
  ℕ, suc, zero, Bool, true, false, not, ◌&&◌, ◌||◌, Option, none, some, List, [], ◌∷◌, ◌++◌, map,
  any, Eq, ◌==◌, if◌then◌else◌,
}
use nl2sqlcopy.Floats.{Floats}
use nl2sqlcopy.Text.{Text, codes, text_eq, text_beq, nonempty, strip}
use nl2sqlcopy.Agent.Names.{starts_with}
use nl2sqlcopy.Llm.Registry.{normalize_provider_name, provider_compat, provider_requires_key}
use nl2sqlcopy.Llm.Config.{ProviderConfig, Settings, resolve_role_configs}

-- `value.removeprefix(prefix)` of a value with the prefix
abbrev pub drop_prefix : Text → Text → Text
drop_prefix [] value = value
drop_prefix (c ∷ prefix) [] = []
drop_prefix (c ∷ prefix) (d ∷ value) = drop_prefix prefix value

-- What `resolve_secret` reads: the contents of a file, `none` where it cannot be opened, and a
-- variable of the environment, empty where it is not set.
pub record Sources : Type 0 where
  pub file : Text → Option Text
  pub variable : Text → Text

-- `none` is the OSError of `open`.
unfoldable pub resolve_secret : Sources → Text → Option Text
resolve_secret sources secret =
    let value = strip secret in
    if not (nonempty value)
    then some []
    else if starts_with value (codes "file:")
    then elim (sources.file (drop_prefix (codes "file:") value)) [
      | none ↦ none
      | some contents ↦ some (strip contents)
    ]
    else if starts_with value (codes "env:")
    then some (strip (sources.variable (drop_prefix (codes "env:") value)))
    else some value

module _ (f : Floats) where
  -- The clients, each with its configuration.
  pub data Client : Type 0 where
    ollama_provider openai_compatible_provider anthropic_provider : ProviderConfig f → Client
    gemini_provider voyage_provider : ProviderConfig f → Client
    unsupported_model_client : Text → Text → Client

  -- `validate_provider_config`: the error, empty where there is none.
  unfoldable pub validate_provider_config : ProviderConfig f → Text
  validate_provider_config config =
      if not (nonempty config.provider)
      then codes "provider is required"
      else if not (nonempty config.model)
      then codes "model is required"
      else if provider_requires_key config.provider && not (nonempty config.api_key)
      then config.provider ++ codes " requires an API key"
      else []

  abbrev pub is_voyage : Text → Bool
  is_voyage provider = provider == codes "voyage" || provider == codes "voyageai"

  unfoldable pub choose_client : Text → Text → ProviderConfig f → Client
  choose_client provider compat config =
      if compat == codes "ollama"
      then ollama_provider config
      else if compat == codes "openai" && not (is_voyage provider)
      then openai_compatible_provider config
      else if provider == codes "anthropic"
      then anthropic_provider config
      else if provider == codes "gemini"
      then gemini_provider config
      else if is_voyage provider
      then voyage_provider config
      else unsupported_model_client provider config.model

  -- `LLMFactory.create`
  unfoldable pub create : Sources → ProviderConfig f → Option Client
  unfolding choose_client validate_provider_config
  create sources given =
      let provider = normalize_provider_name given.provider in
      let compat = provider_compat provider in
      elim (resolve_secret sources given.api_key) [
        | none ↦ none
        | some api_key ↦
            let config : ProviderConfig f = record given {
              provider = provider;
              api_key = api_key;
            } in
            some (
              if nonempty (validate_provider_config config)
              then unsupported_model_client provider config.model
              else choose_client provider compat config)
      ]

  -- `[LLMFactory.create(config) for config in configs]`
  unfoldable pub create_all : Sources → List (ProviderConfig f) → Option (List Client)
  unfolding create
  create_all sources [] = some []
  create_all sources (config ∷ configs) = elim (create sources config) [
    | none ↦ none
    | some client ↦ elim (create_all sources configs) [
      | none ↦ none
      | some clients ↦ some (client ∷ clients)
    ]
  ]

  -- `create_for_role`: the clients of its `FallbackLLMProvider`.
  unfoldable pub create_for_role :
      Sources → Settings f → Text → Text → f.Float → Option (List Client)
  unfolding create_all
  create_for_role sources settings role model default_timeout =
      create_all sources (resolve_role_configs f settings role model default_timeout)

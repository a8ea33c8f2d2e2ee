-- ===== src/Llm/Config.antt =====
-- `ProviderConfig` of nl2sql_service/llm/interfaces.py, and the settings from which
-- `resolve_role_configs` of nl2sql_service/llm/factory.py makes the configurations of a role.
-- Texts that may be None are empty where they are None: the code tests them by their truth.
use nl2sqlcopy.Prelude.{ℕ, Bool, not, ◌&&◌, List, [], ◌∷◌, ◌==◌, eqb, if◌then◌else◌}
use nl2sqlcopy.Floats.{Floats}
use nl2sqlcopy.Text.{Text, codes, text_eq, nonempty, or_else}
use nl2sqlcopy.Llm.Registry.{normalize_provider_name}

module _ (f : Floats) where
  open f use {Float, zero, eq}

  -- The extra headers, which this part only copies, are left out.
  pub record ProviderConfig : Type 0 where
    pub provider : Text
    pub model : Text
    pub api_key : Text
    pub base_url : Text
    pub timeout : Float
    pub max_retries : ℕ
    pub retry_base_delay : Float
    pub temperature : Float
    pub max_tokens : ℕ
    pub role : Text

  -- The settings of one role: `{role}_model_provider` and so on.
  pub record RoleSettings : Type 0 where
    pub model_provider : Text
    pub model : Text
    pub model_api_key : Text
    pub model_base_url : Text
    pub timeout : Float
    pub max_tokens : ℕ
    pub temperature : Float
    pub fallback_provider : Text
    pub fallback_model : Text
    pub fallback_api_key : Text
    pub fallback_base_url : Text

  pub record Settings : Type 0 where
    pub llm_provider : Text
    pub llm_model : Text
    pub llm_api_key : Text
    pub llm_base_url : Text
    pub llm_timeout : Float
    pub llm_max_tokens : ℕ
    pub llm_temperature : Float
    pub llm_max_retries : ℕ
    pub llm_retry_base_delay : Float
    pub llm_fallback_provider : Text
    pub llm_fallback_model : Text
    pub llm_fallback_api_key : Text
    pub llm_fallback_base_url : Text
    pub effective_query_rewrite_model : Text
    pub of_role : Text → RoleSettings

  -- `a or b` on numbers
  abbrev float_or : Float → Float → Float
  float_or a b = if eq a zero then b else a

  abbrev nat_or : ℕ → ℕ → ℕ
  nat_or a b = if eqb a 0 then b else a

  -- `role == "answer" and not settings.answer_... and not settings.answer_model`
  abbrev pub answer_without : Settings → Text → Text → Bool
  answer_without settings role own =
      role == codes "answer"
      && (not (nonempty own) && not (nonempty (settings.of_role (codes "answer")).model))

  unfoldable pub role_provider : Settings → Text → Text
  role_provider settings role =
      let own = settings.of_role role in
      let provider = or_else own.model_provider settings.llm_provider in
      if answer_without settings role (settings.of_role (codes "answer")).model_provider
      then or_else (settings.of_role (codes "reasoning")).model_provider provider
      else provider

  -- `model or getattr(settings, f"{role}_model", None) or settings.llm_model`
  unfoldable pub role_model : Settings → Text → Text → Text
  role_model settings role model =
      if role == codes "query_rewrite"
      then or_else model settings.effective_query_rewrite_model
      else or_else model (or_else (settings.of_role role).model settings.llm_model)

  unfoldable pub role_api_key : Settings → Text → Text
  role_api_key settings role =
      let api_key = or_else (settings.of_role role).model_api_key settings.llm_api_key in
      if answer_without settings role (settings.of_role (codes "answer")).model_api_key
      then or_else (settings.of_role (codes "reasoning")).model_api_key api_key
      else api_key

  unfoldable pub role_base_url : Settings → Text → Text
  unfolding role_provider
  role_base_url settings role =
      let own = (settings.of_role role).model_base_url in
      let base_url =
        if normalize_provider_name (role_provider settings role)
          == normalize_provider_name settings.llm_provider
        then or_else own settings.llm_base_url
        else own in
      if answer_without settings role (settings.of_role (codes "answer")).model_base_url
      then or_else (settings.of_role (codes "reasoning")).model_base_url base_url
      else base_url

  unfoldable pub role_fallback_provider : Settings → Text → Text
  role_fallback_provider settings role =
      or_else (settings.of_role role).fallback_provider settings.llm_fallback_provider

  -- The first configuration of a role.
  unfoldable pub main_config : Settings → Text → Text → Float → ProviderConfig
  unfolding role_provider role_model role_api_key role_base_url
  main_config settings role model default_timeout =
      let own = settings.of_role role in
      record {
        provider = role_provider settings role;
        model = role_model settings role model;
        api_key = role_api_key settings role;
        base_url = role_base_url settings role;
        timeout = float_or default_timeout (float_or own.timeout settings.llm_timeout);
        max_retries = settings.llm_max_retries;
        retry_base_delay = settings.llm_retry_base_delay;
        temperature = float_or own.temperature settings.llm_temperature;
        max_tokens = nat_or own.max_tokens settings.llm_max_tokens;
        role = role;
      }

  -- The second one, where a fallback provider is set.
  unfoldable pub fallback_config : Settings → Text → Text → Float → ProviderConfig
  unfolding main_config role_fallback_provider
  fallback_config settings role model default_timeout =
      let own = settings.of_role role in
      record (main_config settings role model default_timeout) {
        provider = role_fallback_provider settings role;
        model =
            or_else own.fallback_model
              (or_else settings.llm_fallback_model (role_model settings role model));
        api_key =
            or_else own.fallback_api_key
              (or_else settings.llm_fallback_api_key settings.llm_api_key);
        base_url =
            or_else own.fallback_base_url
              (or_else settings.llm_fallback_base_url settings.llm_base_url);
      }

  -- `resolve_role_configs`: `default_timeout` 0 is None, `model` [] is None.
  unfoldable pub resolve_role_configs : Settings → Text → Text → Float → List ProviderConfig
  unfolding main_config fallback_config
  resolve_role_configs settings role model default_timeout =
      main_config settings role model default_timeout
      ∷ (if nonempty (role_fallback_provider settings role)
          then fallback_config settings role model default_timeout ∷ []
          else [])

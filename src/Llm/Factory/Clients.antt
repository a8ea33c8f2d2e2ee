-- ===== src/Llm/Factory/Clients.antt =====
-- The clients that `LLMFactory.create` of nl2sql_service/llm/factory.py makes, whatever their kind.
use mathlib.Core.Path.{subst}
use nl2sqlcopy.Prelude.{
  ◌≡◌, refl, ap, inl, inr, Bool, true, false, Option, some, none, List, [], ◌∷◌, ◌++◌, map,
  Option-cases, if◌then◌else◌,
}
use nl2sqlcopy.Floats.{Floats}
use nl2sqlcopy.Text.{Text, text_eq, nonempty}
use nl2sqlcopy.Llm.Registry.{normalize_provider_name, provider_compat}
use nl2sqlcopy.Llm.Config.{ProviderConfig}
use nl2sqlcopy.Llm.Factory.{
  Sources, resolve_secret, Client, ollama_provider, openai_compatible_provider, anthropic_provider,
  gemini_provider, voyage_provider, unsupported_model_client, validate_provider_config,
  choose_client, create, create_all,
}

nonempty-append : (s t : Text) → nonempty s ≡ true → nonempty (s ++ t) ≡ true
nonempty-append [] t h = cc
nonempty-append (c ∷ s) t h = refl

module _ (f : Floats) where
  -- The provider's name of a client.
  abbrev pub provider_of : Client f → Text
  provider_of (ollama_provider config) = config.provider
  provider_of (openai_compatible_provider config) = config.provider
  provider_of (anthropic_provider config) = config.provider
  provider_of (gemini_provider config) = config.provider
  provider_of (voyage_provider config) = config.provider
  provider_of (unsupported_model_client provider model) = provider

  -- The configuration of a client that is supported.
  abbrev pub config_of : Client f → Option (ProviderConfig f)
  config_of (ollama_provider config) = some config
  config_of (openai_compatible_provider config) = some config
  config_of (anthropic_provider config) = some config
  config_of (gemini_provider config) = some config
  config_of (voyage_provider config) = some config
  config_of (unsupported_model_client provider model) = none

  if_either :
      (P : Client f → Type 0) (test : Bool) (a b : Client f) → P a → P b → P (if test then a else b)
  if_either P true a b x y = x
  if_either P false a b x y = y

  -- What holds of the client of each kind holds of the one that is chosen.
  pub choose_client-all :
      (P : Client f → Type 0) (provider compat : Text) (config : ProviderConfig f)
      → P (ollama_provider config)
      → P (openai_compatible_provider config)
      → P (anthropic_provider config)
      → P (gemini_provider config)
      → P (voyage_provider config)
      → P (unsupported_model_client provider config.model)
      → P (choose_client f provider compat config)
  unfolding choose_client
  choose_client-all P provider compat config o a n g v u =
      if_either P _ _ _ o
        (if_either P _ _ _ a (if_either P _ _ _ n (if_either P _ _ _ g (if_either P _ _ _ v u))))

  create-provider :
      (sources : Sources) (given : ProviderConfig f) (client : Client f)
      → create f sources given ≡ some client
      → provider_of client ≡ normalize_provider_name given.provider
  unfolding create
  create-provider sources given client h =
      elim (Option-cases (resolve_secret sources given.api_key)) [
        | inl unread ↦ cc (rw (unread, create) at h)
        | inr (key, read) ↦
            let provider = normalize_provider_name given.provider in
            let config : ProviderConfig f = record given { provider = provider; api_key = key } in
            let P : Client f → Type 0 = λ c. provider_of c ≡ provider in
            let made : (if nonempty (validate_provider_config f config)
                  then unsupported_model_client provider config.model
                  else choose_client f provider (provider_compat provider) config)
                ≡ client =
              cc (rw (read, create) at h) in
            subst P made (
              if_either P (nonempty (validate_provider_config f config)) _ _ refl (
                choose_client-all P provider (provider_compat provider) config refl refl refl refl
                  refl refl))
      ]

  pub create_all-providers :
      (sources : Sources) (configs : List (ProviderConfig f)) (clients : List (Client f))
      → create_all f sources configs ≡ some clients
      → map provider_of clients ≡ map (λ c. normalize_provider_name c.provider) configs
  unfolding create_all
  create_all-providers sources [] clients h = let e : clients ≡ [] = cc in rw e refl
  create_all-providers sources (config ∷ configs) clients h =
      elim (Option-cases (create f sources config)) [
        | inl failed ↦ cc (rw (failed, create_all) at h)
        | inr (client, made) ↦ elim (Option-cases (create_all f sources configs)) [
          | inl failed ↦ cc (rw (made, failed, create_all) at h)
          | inr (rest, others) ↦
              let e : clients ≡ client ∷ rest = cc (rw (made, others, create_all) at h) in
              rw (e, create-provider sources config client made)
                (ap (λ (names : List Text). normalize_provider_name config.provider ∷ names)
                  (create_all-providers sources configs rest others))
        ]
      ]

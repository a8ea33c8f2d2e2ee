-- ===== src/Llm/Factory/Laws.antt =====
-- What the clients of a role are made of.
use nl2sqlcopy.Prelude.{
  ◌≡◌, refl, ◌∙◌, ap, ◌⊎◌, inl, inr, Bool, true, false, not, ◌&&◌, some, List, [], ◌∷◌, ◌++◌, ◌==◌,
  ==→≡, map, filter, Bool-cases, Option-cases, if◌then◌else◌,
}
use nl2sqlcopy.Floats.{Floats}
use nl2sqlcopy.Text.{Text, codes, text_eq, nonempty, or_else}
use nl2sqlcopy.Llm.Registry.{normalize_provider_name, provider_compat, provider_requires_key}
use nl2sqlcopy.Llm.Config.{
  ProviderConfig, Settings, role_provider, role_fallback_provider, main_config, fallback_config,
  resolve_role_configs,
}
use nl2sqlcopy.Llm.Factory.{
  Sources, resolve_secret, Client, unsupported_model_client, validate_provider_config,
  choose_client, create, create_for_role,
}
use nl2sqlcopy.Llm.Factory.Clients.{choose_client-all, create_all-providers, provider_of, config_of}

nonempty-append : (s t : Text) → nonempty s ≡ true → nonempty (s ++ t) ≡ true
nonempty-append [] t h = cc
nonempty-append (c ∷ s) t h = refl

-- The first text of a list that is set.
abbrev pub first_set : List Text → Text
first_set [] = []
first_set ([] ∷ texts) = first_set texts
first_set ((c ∷ s) ∷ texts) = c ∷ s

last_or : (a b : Text) → or_else a b ≡ first_set (a ∷ b ∷ [])
last_or [] [] = refl
last_or [] (c ∷ s) = refl
last_or (c ∷ s) b = refl

first_or : (a b : Text) → or_else a b ≡ first_set (a ∷ [] ∷ b ∷ [])
first_or [] [] = refl
first_or [] (c ∷ s) = refl
first_or (c ∷ s) b = refl

-- The choice for answers: the reasoning's where neither a provider nor a model is their own.
preferred_answer :
    (own model reasoning shared : Text)
    → (if not (nonempty own) && not (nonempty model)
        then or_else reasoning (or_else own shared)
        else or_else own shared)
      ≡ first_set (own ∷ (if not (nonempty model) then reasoning else []) ∷ shared ∷ [])
preferred_answer (c ∷ s) model reasoning shared = refl
preferred_answer [] [] reasoning shared = last_or reasoning shared
preferred_answer [] (c ∷ s) reasoning [] = refl
preferred_answer [] (c ∷ s) reasoning (d ∷ t) = refl

module _ (f : Floats) where
  abbrev pub is_supported : Client f → Bool
  is_supported (unsupported_model_client provider model) = false
  is_supported _ = true

  -- The providers that a role may have, the preferred ones first: its own; for answers without a
  -- provider and a model of their own, that of the reasoning; that of all roles.
  abbrev pub preferences : Settings f → Text → List Text
  preferences settings role =
      let reasoning = (settings.of_role (codes "reasoning")).model_provider in
      let has_model = nonempty (settings.of_role role).model in
      (settings.of_role role).model_provider
      ∷ (if role == codes "answer" && not has_model then reasoning else [])
      ∷ settings.llm_provider
      ∷ []

  abbrev pub fallback_preferences : Settings f → Text → List Text
  fallback_preferences settings role =
      (settings.of_role role).fallback_provider ∷ settings.llm_fallback_provider ∷ []

  preferred :
      (settings : Settings f) (role : Text)
      → role_provider f settings role ≡ first_set (preferences settings role)
  unfolding role_provider
  preferred settings role = elim (Bool-cases (role == codes "answer")) [
    | inl answers ↦
        let same : role ≡ codes "answer" = ==→≡ role (codes "answer") answers in
        rw same (
          preferred_answer (settings.of_role (codes "answer")).model_provider
            (settings.of_role (codes "answer")).model
            (settings.of_role (codes "reasoning")).model_provider settings.llm_provider)
    | inr other ↦ rw other (first_or (settings.of_role role).model_provider settings.llm_provider)
  ]

  -- Where its secrets can be read, a role has one client for the first provider that is set of its
  -- preferences, and after it one for the first fallback provider that is set, for it or for all
  -- roles, exactly where one is.
  pub create_for_role-providers :
      (sources : Sources) (settings : Settings f) (role model : Text) (default_timeout : f.Float)
      (clients : List (Client f))
      → create_for_role f sources settings role model default_timeout ≡ some clients
      → map (provider_of f) clients
        ≡ normalize_provider_name (first_set (preferences settings role))
          ∷ map normalize_provider_name
              (filter nonempty (first_set (fallback_preferences settings role) ∷ []))
  unfolding create_for_role resolve_role_configs main_config fallback_config role_fallback_provider
  create_for_role-providers sources settings role model default_timeout clients h =
      let configs = resolve_role_configs f settings role model default_timeout in
      let main = preferred settings role in
      let own = (settings.of_role role).fallback_provider in
      let spare : or_else own settings.llm_fallback_provider
          ≡ first_set (fallback_preferences settings role) =
        last_or own settings.llm_fallback_provider in
      create_all-providers f sources configs clients h
      ∙ elim (Bool-cases (nonempty (first_set (fallback_preferences settings role)))) [
        | inl set ↦ rw (main, spare, set) refl
        | inr unset ↦ rw (main, spare, unset) refl
      ]

  valid_lem :
      (config : ProviderConfig f)
      → nonempty (validate_provider_config f config) ≡ false
      → (nonempty config.provider ≡ true)
        × (nonempty config.model ≡ true)
        × ((provider_requires_key config.provider ≡ false) ⊎ (nonempty config.api_key ≡ true))
  unfolding validate_provider_config
  valid_lem config h = elim (Bool-cases (nonempty config.provider)) [
    | inr empty ↦ cc (rw empty at h)
    | inl named ↦ elim (Bool-cases (nonempty config.model)) [
      | inr empty ↦ cc (rw (named, empty) at h)
      | inl model ↦ (
        named,
        model,
        elim (Bool-cases (provider_requires_key config.provider)) [
          | inr optional ↦ inl optional
          | inl required ↦ elim (Bool-cases (nonempty config.api_key)) [
            | inl key ↦ inr key
            | inr missing ↦ cc (
              rw (named, model, required, missing) at h,
              nonempty-append config.provider (codes " requires an API key") named,
            )
          ]
        ],
      )
    ]
  ]

  chosen_config :
      (given : ProviderConfig f) (provider compat : Text) (used : ProviderConfig f)
      → config_of f (choose_client f provider compat given) ≡ some used
      → used ≡ given
  chosen_config given provider compat used =
      choose_client-all f (λ c. config_of f c ≡ some used → used ≡ given) provider compat given
        (λ h. cc h) (λ h. cc h) (λ h. cc h) (λ h. cc h) (λ h. cc h) (λ h. cc h)

  -- A client that `create` makes, other than the unsupported one, is configured with the normalized
  -- name of its provider, the model that is given and the secret that is read; the name and the model
  -- are not empty, and the secret is not where the registry requires a key.
  pub create-validated :
      (sources : Sources) (given : ProviderConfig f) (client : Client f) (used : ProviderConfig f)
      → create f sources given ≡ some client
      → config_of f client ≡ some used
      → (used.provider ≡ normalize_provider_name given.provider)
        × (used.model ≡ given.model)
        × (resolve_secret sources given.api_key ≡ some used.api_key)
        × (nonempty used.provider ≡ true)
        × (nonempty used.model ≡ true)
        × ((provider_requires_key used.provider ≡ false) ⊎ (nonempty used.api_key ≡ true))
  unfolding create
  create-validated sources given client used h supported =
      elim (Option-cases (resolve_secret sources given.api_key)) [
        | inl unread ↦ cc (rw (unread, create) at h)
        | inr (key, read) ↦
            let provider = normalize_provider_name given.provider in
            let config : ProviderConfig f = record given { provider = provider; api_key = key } in
            elim (Bool-cases (nonempty (validate_provider_config f config))) [
              | inl invalid ↦
                  let e : client ≡ unsupported_model_client provider config.model =
                    cc (rw (read, invalid, create) at h) in
                  cc (rw e at supported)
              | inr valid ↦
                  let e : choose_client f provider (provider_compat provider) config ≡ client =
                    cc (rw (read, valid, create) at h) in
                  let same : used ≡ config =
                    chosen_config config provider (provider_compat provider) used
                      (ap (config_of f) e ∙ supported) in
                  let (named, model, secret) = valid_lem config valid in
                  rw same (refl, refl, read, named, model, secret)
            ]
      ]

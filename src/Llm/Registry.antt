-- ===== src/Llm/Registry.antt =====
-- nl2sql_service/core/provider_registry.py: the providers that the service knows.
use nl2sqlcopy.Prelude.{Bool, true, false, Option, none, some, [], ◌∷◌}
use nl2sqlcopy.Dict
use nl2sqlcopy.Dict.{Dict}
use nl2sqlcopy.Text.{Text, codes, text_eq, or_else, lower, strip, replace}

-- An entry of `PROVIDER_DEFAULTS`; its `base_url` and `probe_model` are always None.
pub record Defaults : Type 0 where
  pub requires_key : Bool
  pub compat : Text

abbrev entry : Bool → Text → Defaults
entry requires_key compat = record { requires_key = requires_key; compat = compat }

abbrev pub provider_table : Dict Text Defaults
provider_table =
    (codes "ollama", entry false (codes "ollama"))
    ∷ (codes "openai", entry true (codes "openai"))
    ∷ (codes "anthropic", entry true (codes "anthropic"))
    ∷ (codes "gemini", entry true (codes "gemini"))
    ∷ (codes "groq", entry true (codes "openai"))
    ∷ (codes "openrouter", entry true (codes "openai"))
    ∷ (codes "togetherai", entry true (codes "openai"))
    ∷ (codes "voyageai", entry true (codes "openai"))
    ∷ []

abbrev pub provider_aliases : Dict Text Text
provider_aliases =
    (codes "claude", codes "anthropic")
    ∷ (codes "google", codes "gemini")
    ∷ (codes "together", codes "togetherai")
    ∷ (codes "voyage", codes "voyageai")
    ∷ []

-- `_PROVIDER_ALIASES.get(cleaned, cleaned)`
unfoldable pub resolve_alias : Text → Text
resolve_alias cleaned = elim (Dict.get provider_aliases cleaned) [
  | none ↦ cleaned
  | some name ↦ name
]

-- `normalize_provider_name`, with `default` "ollama"
unfoldable pub normalize_provider_name : Text → Text
unfolding resolve_alias
normalize_provider_name provider =
    resolve_alias (replace b'-' b'_' (lower (strip (or_else provider (codes "ollama")))))

unfoldable pub provider_defaults : Text → Option Defaults
provider_defaults provider = Dict.get provider_table (normalize_provider_name provider)

unfoldable pub provider_compat : Text → Text
unfolding provider_defaults
provider_compat provider = elim (provider_defaults provider) [
  | none ↦ normalize_provider_name provider
  | some defaults ↦ or_else defaults.compat (normalize_provider_name provider)
]

unfoldable pub provider_requires_key : Text → Bool
unfolding provider_defaults
provider_requires_key provider = elim (provider_defaults provider) [
  | none ↦ false
  | some defaults ↦ defaults.requires_key
]

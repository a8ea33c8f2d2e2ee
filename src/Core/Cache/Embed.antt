-- ===== src/Core/Cache/Embed.antt =====
-- `EmbedCache` of nl2sql_service/core/cache.py: embedding vectors by the digest of the text.
use nl2sqlcopy.Dict.{Dict}
use nl2sqlcopy.Text.{Text}
use nl2sqlcopy.Prelude.{ℕ, Option, none, some, [], Eq, length}
use nl2sqlcopy.Core.Cache.Store.{Entry, read, write}

pub record EmbedCache (D Vector : Type 0) : Type 0 where
  pub store : Dict D (Entry Vector)
  pub max_size : ℕ

unfoldable pub init : {D Vector : Type 0} → EmbedCache D Vector
init = record { store = []; max_size = 500 }

module _ {D Vector : Type 0} ⦃e : Eq D⦄ (md5 : Text → D) (embed_cache_ttl : ℕ) where
  unfoldable pub get : EmbedCache D Vector → Text → ℕ → Option Vector × EmbedCache D Vector
  get c text now =
      let (found, store) = read embed_cache_ttl now c.store (md5 text) in
      (found, record c { store = store })

  -- `none` is the ValueError of `min`.
  unfoldable pub set : EmbedCache D Vector → Text → Vector → ℕ → Option (EmbedCache D Vector)
  set c text vector now = elim (write c.max_size now c.store (md5 text) vector) [
    | none ↦ none
    | some store ↦ some (record c { store = store })
  ]

module _ {D Vector : Type 0} where
  unfoldable pub size : EmbedCache D Vector → ℕ
  size c = length c.store

  unfoldable pub clear : EmbedCache D Vector → EmbedCache D Vector
  clear c = record c { store = [] }

-- ===== src/Core/Cache/Sql.antt =====
-- `SqlCache` of nl2sql_service/core/cache.py: successful answers by canonical question and `top_k`.
use nl2sqlcopy.Dict.{Dict}
use nl2sqlcopy.Text.{Text}
use nl2sqlcopy.Prelude.{
  ℕ, Bool, false, Option, none, some, [], Eq, ◌==◌, string_eq, length, if◌then◌else◌,
}
use nl2sqlcopy.Core.Cache.Store.{Entry, Answer, key_text, read, write}

-- `result.get("status") == "ok"`
unfoldable pub is_ok : {B : Type 0} → Answer B → Bool
is_ok result = elim result.status [ none ↦ false | some status ↦ status == "ok" ]

pub record SqlCache (D B : Type 0) : Type 0 where
  pub store : Dict D (Entry (Answer B))
  pub max_size : ℕ

unfoldable pub init : {D B : Type 0} → SqlCache D B
init = record { store = []; max_size = 200 }

-- `_key`
unfoldable pub key : {D : Type 0} → (Text → D) → Text → ℕ → D
key md5 query top_k = md5 (key_text query top_k)

module _ {D B : Type 0} ⦃e : Eq D⦄ (md5 : Text → D) (sql_cache_ttl : ℕ) where
  unfoldable pub get : SqlCache D B → Text → ℕ → ℕ → Option (Answer B) × SqlCache D B
  unfolding key
  get c query top_k now =
      let (found, store) = read sql_cache_ttl now c.store (key md5 query top_k) in
      (found, record c { store = store })

  unfoldable pub set : SqlCache D B → Text → ℕ → Answer B → ℕ → Option (SqlCache D B)
  unfolding key
  set c query top_k result now =
      if is_ok result
      then elim (write c.max_size now c.store (key md5 query top_k) result) [
        | none ↦ none
        | some store ↦ some (record c { store = store })
      ]
      else some c

module _ {D B : Type 0} where
  unfoldable pub invalidate_all : SqlCache D B → ℕ × SqlCache D B
  invalidate_all c = (length c.store, record c { store = [] })

  unfoldable pub size : SqlCache D B → ℕ
  size c = length c.store

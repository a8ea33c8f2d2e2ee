-- ===== src/Core/Cache/Store.antt =====
-- The steps that the methods of the four classes are written with.
use Prim.Native.String.{String}
use nl2sqlcopy.Dict.{Dict, get, put, remove}
use nl2sqlcopy.Text.{Text, codes, decimal}
use nl2sqlcopy.Core.CacheKeys.{canonicalize_query_text}
use nl2sqlcopy.Prelude.{
  ℕ, ◌-◌, Option, none, some, [], ◌∷◌, ◌++◌, Eq, ltb, leb, length, if◌then◌else◌,
}

pub record Entry (P : Type 0) : Type 0 where
  pub payload : P
  pub stamp : ℕ

-- A response as the caches see it: its `status`, the `_top_k` that a cache adds, and the rest.
pub record Answer (B : Type 0) : Type 0 where
  pub status : Option String
  pub top_k : Option ℕ
  pub body : B

-- `f"{canonical}:{top_k}"`
unfoldable pub key_text : Text → ℕ → Text
key_text query top_k = canonicalize_query_text query ++ (codes ":" ++ decimal top_k)

module _ {D P : Type 0} ⦃e : Eq D⦄ where
  -- `min(self._store, key=...)`: the first of the keys with the least stamp
  unfoldable pub oldest_from : D → ℕ → Dict D (Entry P) → D
  oldest_from k stamp [] = k
  oldest_from k stamp ((j, entry) ∷ store) =
      oldest_from (if ltb entry.stamp stamp then j else k)
        (if ltb entry.stamp stamp then entry.stamp else stamp) store

  unfoldable pub oldest_key : Dict D (Entry P) → Option D
  unfolding oldest_from
  oldest_key [] = none
  oldest_key ((k, entry) ∷ store) = some (oldest_from k entry.stamp store)

  -- `if not entry`, and the test of the age: an expired entry is deleted
  unfoldable pub read : ℕ → ℕ → Dict D (Entry P) → D → Option P × Dict D (Entry P)
  read ttl now store key = elim (get store key) [
    | none ↦ (none, store)
    | some entry ↦
        if ltb ttl (now - entry.stamp)
        then (none, remove store key)
        else (some entry.payload, store)
  ]

  -- Room for one more; `none` is the ValueError of `min` on an empty store.
  unfoldable pub make_room : ℕ → Dict D (Entry P) → Option (Dict D (Entry P))
  make_room max_size store =
      if leb max_size (length store)
      then elim (oldest_key store) [ none ↦ none | some k ↦ some (remove store k) ]
      else some store

  unfoldable pub write : ℕ → ℕ → Dict D (Entry P) → D → P → Option (Dict D (Entry P))
  write max_size now store key payload = elim (make_room max_size store) [
    | none ↦ none
    | some room ↦ some (put room key (record { payload = payload; stamp = now }))
  ]

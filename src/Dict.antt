-- ===== src/Dict.antt =====
-- Python's `dict`: an association list in order of insertion, over keys with a Boolean equality.
-- Overwriting a key keeps its place; a deleted key loses it.
pub mod Laws
use nl2sqlcopy.Prelude.{
  Bool, true, false, Option, none, some, List, [], ◌∷◌, Eq, ◌==◌, ◌||◌, if◌then◌else◌,
}

abbrev pub Dict {ℓ} : Type ℓ → Type ℓ → Type ℓ
Dict K V = List (K × V)

module _ {ℓ} {K V : Type ℓ} ⦃e : Eq K⦄ where
  -- `d.get(k)`
  unfoldable pub get : Dict K V → K → Option V
  get [] k = none
  get ((j, v) ∷ d) k = if j == k then some v else get d k

  -- `d[k] = v`
  unfoldable pub put : Dict K V → K → V → Dict K V
  put [] k v = (k, v) ∷ []
  put ((j, w) ∷ d) k v = if j == k then (j, v) ∷ d else (j, w) ∷ put d k v

  -- `d.pop(k, None)`, and `del d[k]` of a key that is there
  unfoldable pub remove : Dict K V → K → Dict K V
  remove [] k = []
  remove ((j, w) ∷ d) k = let rest = remove d k in if j == k then rest else (j, w) ∷ rest

  -- `k in d`
  unfoldable pub contains : Dict K V → K → Bool
  contains [] k = false
  contains ((j, v) ∷ d) k = j == k || contains d k

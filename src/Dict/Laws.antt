-- ===== src/Dict/Laws.antt =====
-- Reading after writing, and the size of a dict; a dict that only these operations built never
-- holds a key twice.
use nl2sqlcopy.Prelude.{
  suc, ◌+◌, ◌≤◌, ◌≡◌, refl, true, false, none, some, [], ◌∷◌, arith, Eq, ◌==◌, length,
  if◌then◌else◌,
}
use nl2sqlcopy.Dict.{Dict, get, put, remove, contains}

module _ {ℓ} {K V : Type ℓ} ⦃e : Eq K⦄ where
  pub get-put :
      (d : Dict K V) (k j : K) (v : V) → get (put d k v) j ≡ (if k == j then some v else get d j)
  unfolding get put
  get-put [] k j v = refl
  get-put ((i, w) ∷ d) k j v =
      ground (arith, e.beq_iff i k, e.beq_iff k j, e.beq_iff i j, get-put d k j v)

  pub get-remove :
      (d : Dict K V) (k j : K) → get (remove d k) j ≡ (if k == j then none else get d j)
  unfolding get remove
  get-remove [] k j = ground arith
  get-remove ((i, w) ∷ d) k j =
      ground (arith, e.beq_iff i k, e.beq_iff k j, e.beq_iff i j, get-remove d k j)

  pub contains-get :
      (d : Dict K V) (k : K) → contains d k ≡ (elim (get d k) [ none ↦ false | some v ↦ true ])
  unfolding get contains
  contains-get [] k = refl
  contains-get ((i, w) ∷ d) k = ground (arith, contains-get d k)

  pub length-put :
      (d : Dict K V) (k : K) (v : V)
      → length (put d k v) ≡ (if contains d k then length d else suc (length d))
  unfolding put contains
  length-put [] k v = refl
  length-put ((i, w) ∷ d) k v = ground (arith, length-put d k v)

  pub length-remove-le : (d : Dict K V) (k : K) → length (remove d k) ≤ length d
  unfolding remove
  length-remove-le [] k = omega arith
  length-remove-le ((i, w) ∷ d) k = ground (arith, length-remove-le d k)

  pub length-remove :
      (d : Dict K V) (k : K) → contains d k ≡ true → length (remove d k) + 1 ≤ length d
  unfolding remove contains
  length-remove [] k h = absurd (ground arith)
  length-remove ((i, w) ∷ d) k h = ground (arith, length-remove d k, length-remove-le d k)

-- ===== src/Core/Cache/Vectors.antt =====
-- `_cosine` of nl2sql_service/core/cache.py.
use nl2sqlcopy.Floats.{Floats}
use nl2sqlcopy.Prelude.{not, ◌||◌, List, ◌∷◌, eqb, length, if◌then◌else◌}

module _ (f : Floats) where
  open f use {Float, zero, neg_one, add, mul, div, sqrt, eq}

  abbrev pub Vector : Type 0
  Vector = List Float

  -- `sum(x * y for x, y in zip(a, b))`, from the left
  unfoldable pub dot_onto : Float → Vector → Vector → Float
  dot_onto acc (x ∷ a) (y ∷ b) = dot_onto (add acc (mul x y)) a b
  dot_onto acc _ _ = acc

  unfoldable pub cosine : Vector → Vector → Float
  unfolding dot_onto
  cosine a b =
      let dot = dot_onto zero a b in
      let mag_a = sqrt (dot_onto zero a a) in
      let mag_b = sqrt (dot_onto zero b b) in
      if not (eqb (length a) (length b))
      then neg_one
      else if eq mag_a zero || eq mag_b zero
      then zero
      else div dot (mul mag_a mag_b)

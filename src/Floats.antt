-- ===== src/Floats.antt =====
-- Floating point numbers: the operations that the program uses, and the order of the numbers other
-- than NaN. The numbers themselves are not modelled.
use nl2sqlcopy.Prelude.{ℕ, ◌≡◌, Bool, true, not, if◌then◌else◌}

pub record Floats : Type 1 where
  pub Float : Type 0
  pub zero : Float
  pub one : Float
  pub neg_one : Float
  pub of_ℕ : ℕ → Float
  pub sub : Float → Float → Float
  pub add : Float → Float → Float
  pub mul : Float → Float → Float
  pub div : Float → Float → Float
  pub sqrt : Float → Float
  pub eq : Float → Float → Bool
  pub lt : Float → Float → Bool
  pub le : Float → Float → Bool
  pub le_refl : (a : Float) → le a a ≡ true
  pub le_trans : (a b c : Float) → le a b ≡ true → le b c ≡ true → le a c ≡ true
  pub le_of_lt : (a b : Float) → lt a b ≡ true → le a b ≡ true
  pub zero-le-one : le zero one ≡ true
  pub lt-not_le : (a b : Float) → lt a b ≡ not (le b a)

module _ (f : Floats) where
  open f use {Float, lt, div, of_ℕ}

  -- Python's `max(a, b)` and `min(a, b)`: the first of two that are equal
  unfoldable pub fmax : Float → Float → Float
  fmax a b = if lt a b then b else a

  unfoldable pub fmin : Float → Float → Float
  fmin a b = if lt b a then b else a

  -- `m / n` of two lengths
  unfoldable pub ratio : ℕ → ℕ → Float
  ratio m n = div (of_ℕ m) (of_ℕ n)

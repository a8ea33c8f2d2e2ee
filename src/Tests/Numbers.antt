-- ===== src/Tests/Numbers.antt =====
-- Whole numbers from -1 upwards in the place of the floating point numbers: n stands for n - 1.
use nl2sqlcopy.Prelude.{ℕ, ◌+◌, ◌-◌, ◌*◌, ◌/◌, ◌≡◌, refl, true, not, arith, ltb, leb, eqb}
use nl2sqlcopy.Floats.{Floats}

pub leb_refl : (a : ℕ) → leb a a ≡ true
leb_refl a = ground arith

pub leb_trans : (a b c : ℕ) → leb a b ≡ true → leb b c ≡ true → leb a c ≡ true
leb_trans a b c h k = ground arith

pub leb_of_ltb : (a b : ℕ) → ltb a b ≡ true → leb a b ≡ true
leb_of_ltb a b h = ground arith

pub less_or_not : (a b : ℕ) → ltb a b ≡ not (leb b a)
less_or_not a b = ground arith

abbrev pub whole : Floats
whole = record {
  Float = ℕ;
  zero = 1;
  one = 2;
  neg_one = 0;
  of_ℕ = λ n. n + 1;
  sub = λ a b. (a + 1) - b;
  add = λ a b. (a + b) - 1;
  mul = λ a b. (a - 1) * (b - 1) + 1;
  div = λ a b. (a - 1) / (b - 1) + 1;
  sqrt = λ a. a;
  eq = eqb;
  lt = ltb;
  le = leb;
  le_refl = leb_refl;
  le_trans = leb_trans;
  le_of_lt = leb_of_ltb;
  zero-le-one = refl;
  lt-not_le = less_or_not;
}

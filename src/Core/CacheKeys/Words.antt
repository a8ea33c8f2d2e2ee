-- ===== src/Core/CacheKeys/Words.antt =====
-- The words that the canonical form is made of.
use nl2sqlcopy.Text.{
  Text, text_eq, nonempty, lower_char, is_space, split_on, onto_first, keep_nonempty,
}
use nl2sqlcopy.Prelude.{
  ℕ, ◌≡◌, refl, Bool, true, false, List, [], ◌∷◌, any, all, All, arith, ◌==◌, if◌then◌else◌,
  Bool-cases, inl, inr, ap,
}
use nl2sqlcopy.Core.CacheKeys.{
  is_alnum, latest_words, dropped_words, blank_runs, canonical_token, canonical_tokens,
}

-- A word of letters and digits.
abbrev pub IsWord : Text → Type 0
IsWord w = (nonempty w ≡ true) × (all is_alnum w ≡ true)

abbrev pub IsCanonical : Text → Type 0
IsCanonical w = (nonempty w ≡ true) × (all is_alnum w ≡ true) × (canonical_token w ≡ w)

pub alnum_not_space : (c : ℕ) → is_alnum c ≡ true → is_space c ≡ false
unfolding is_alnum is_space
alnum_not_space c h = ground arith

pub alnum-lower : (c : ℕ) → is_alnum c ≡ true → lower_char c ≡ c
unfolding is_alnum lower_char
alnum-lower c h = ground arith

onto_first-words :
    (c : ℕ) (words : List Text)
    → is_alnum c ≡ true
    → All (λ w. all is_alnum w ≡ true) words
    → All (λ w. all is_alnum w ≡ true) (onto_first c words)
onto_first-words c [] h hs = (rw h, tt)
onto_first-words c (w ∷ words) h (hw, hs) = (rw h hw, hs)

-- What the substitution leaves is letters, digits and blanks, so the words are words.
pub alnum_words :
    (inside : Bool) (s : Text)
    → All (λ w. all is_alnum w ≡ true) (split_on is_space (blank_runs inside s))
unfolding blank_runs split_on is_space
alnum_words inside [] = (refl, tt)
alnum_words inside (c ∷ s) = elim (Bool-cases (is_alnum c)) [
  | inl a ↦
      rw (a, alnum_not_space c a)
        (onto_first-words c (split_on is_space (blank_runs false s)) a (alnum_words false s))
  | inr n ↦ rw n (blanks inside (alnum_words true s))
]
  where
    blanks :
        (b : Bool)
        → All (λ w. all is_alnum w ≡ true) (split_on is_space (blank_runs true s))
        → All
            (λ w. all is_alnum w ≡ true)
            (split_on is_space (if b then blank_runs true s else b' ' ∷ blank_runs true s))
    blanks true h = h
    blanks false h = (refl, h)

canonical_token-IsCanonical :
    (w : Text)
    → all is_alnum w ≡ true
    → nonempty (canonical_token w) ≡ true
    → IsCanonical (canonical_token w)
unfolding canonical_token is_alnum
canonical_token-IsCanonical w h n =
    let newer = any (λ v. v == w) latest_words in
    let dropped = any (λ v. v == w) dropped_words in
    elim (Bool-cases newer) [
      | inl p ↦ rw p (refl, refl, refl)
      | inr p ↦ elim (Bool-cases dropped) [
        | inl q ↦ let e : canonical_token w ≡ [] = rw p (rw q) in cc (n, ap nonempty e)
        | inr q ↦ let e : canonical_token w ≡ w = rw p (rw q) in rw e (rw e at n, h, e)
      ]
    ]

pub canonical_tokens-IsCanonical :
    (words : List Text)
    → All (λ w. all is_alnum w ≡ true) words
    → All IsCanonical (canonical_tokens (keep_nonempty words))
unfolding canonical_tokens keep_nonempty
canonical_tokens-IsCanonical [] h = tt
canonical_tokens-IsCanonical ([] ∷ words) (h, hs) = canonical_tokens-IsCanonical words hs
canonical_tokens-IsCanonical ((c ∷ w) ∷ words) (h, hs) =
    elim (Bool-cases (nonempty (canonical_token (c ∷ w)))) [
      | inl n ↦
          rw n (canonical_token-IsCanonical (c ∷ w) h n, canonical_tokens-IsCanonical words hs)
      | inr n ↦ rw n (canonical_tokens-IsCanonical words hs)
    ]

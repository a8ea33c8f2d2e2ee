-- ===== src/Generation/Filters/Literals.antt =====
-- The literals of the clauses of nl2sql_service/generation/sql_generator.py, as MySQL reads them in its
-- default mode: a quote is written as two, a single one ends the literal, and a backslash takes the
-- character behind it into the literal.
use nl2sqlcopy.Prelude.{
  ℕ, ◌≡◌, ◌∙◌, ap, refl, Bool, true, false, not, Option, none, some, [], ◌∷◌, ◌++◌, all, take,
  Bool-cases, inl, inr, arith, eqb, ◌&&◌, if◌then◌else◌,
}
use nl2sqlcopy.Text.{Text, codes}
use nl2sqlcopy.Generation.Filters.{is_single_quote, is_local, is_domain, take_while, doubled}

abbrev push : ℕ → Option (Text × Text) → Option (Text × Text)
push c none = none
push c (some (value, rest)) = some (c ∷ value, rest)

abbrev is_backslash : ℕ → Bool
is_backslash c = eqb c 92

-- A character that needs no escape.
abbrev pub is_plain : ℕ → Bool
is_plain c = not (is_single_quote c) && not (is_backslash c)

-- A text without a backslash.
abbrev pub unescaped : Text → Bool
unescaped = all (λ c. not (is_backslash c))

-- The value of a literal behind its first quote, and what follows the literal; a backslash and the
-- character behind it stand for that character.
unfoldable pub read_literal : Text → Option (Text × Text)
read_literal [] = none
read_literal (c ∷ []) = if is_single_quote c then some ([], []) else none
read_literal (c ∷ d ∷ s) =
    let after_one = read_literal (d ∷ s) in
    let after_two = read_literal s in
    if is_backslash c
    then push d after_two
    else if not (is_single_quote c)
    then push c after_one
    else if is_single_quote d
    then push c after_two
    else some ([], d ∷ s)

read_literal-plain_step :
    (c : ℕ) (s : Text) → is_plain c ≡ true → read_literal (c ∷ s) ≡ push c (read_literal s)
unfolding read_literal
read_literal-plain_step c [] h = ground arith
read_literal-plain_step c (d ∷ s) h = ground arith

quote_is_no_backslash : (c : ℕ) → is_single_quote c ≡ true → is_backslash c ≡ false
quote_is_no_backslash c h = ground arith

-- A value without a backslash, its quotes doubled, is read back, and nothing is left.
pub read_literal-doubled :
    (value : Text)
    → unescaped value ≡ true
    → read_literal (doubled value ++ codes "'") ≡ some (value, [])
unfolding doubled read_literal
read_literal-doubled [] h = refl
read_literal-doubled (c ∷ s) h = elim (Bool-cases (is_backslash c)) [
  | inl escape ↦ cc (rw escape at h)
  | inr no_escape ↦
      let rest = read_literal-doubled s (rw no_escape at h) in
      elim (Bool-cases (is_single_quote c)) [
        | inl quote ↦ rw (quote, no_escape, quote) (ap (push c) rest)
        | inr other ↦ rw other (read_literal-plain_step c _ (ground arith) ∙ ap (push c) rest)
      ]
]

-- A text of plain characters is read as itself.
pub read_literal-plain :
    (value : Text)
    → all is_plain value ≡ true
    → read_literal (value ++ codes "'") ≡ some (value, [])
unfolding read_literal
read_literal-plain [] h = refl
read_literal-plain (c ∷ s) h = elim (Bool-cases (is_plain c)) [
  | inr special ↦ cc (rw special at h)
  | inl plain ↦
      read_literal-plain_step c _ plain ∙ ap (push c) (read_literal-plain s (rw plain at h))
]

pub local_plain : (c : ℕ) → is_local c ≡ true → is_plain c ≡ true
unfolding is_local
local_plain c h = ground arith

pub domain_plain : (c : ℕ) → is_domain c ≡ true → is_plain c ≡ true
unfolding is_domain
domain_plain c h = ground arith

pub all-take_while :
    (test other : ℕ → Bool) (s : Text)
    → ((c : ℕ) → test c ≡ true → other c ≡ true)
    → all other (take_while test s) ≡ true
unfolding take_while
all-take_while test other [] implies = refl
all-take_while test other (c ∷ s) implies = elim (Bool-cases (test c)) [
  | inl meets ↦ rw (meets, implies c meets) (all-take_while test other s implies)
  | inr fails ↦ rw fails refl
]

pub all-take : (test : ℕ → Bool) (n : ℕ) (s : Text) → all test s ≡ true → all test (take n s) ≡ true
all-take test ℕ.zero s h = refl
all-take test (ℕ.suc n) [] h = refl
all-take test (ℕ.suc n) (c ∷ s) h = elim (Bool-cases (test c)) [
  | inl meets ↦ rw meets (all-take test n s (rw meets at h))
  | inr fails ↦ cc (rw fails at h)
]

pub all-append :
    (test : ℕ → Bool) (s t : Text)
    → all test s ≡ true
    → all test t ≡ true
    → all test (s ++ t) ≡ true
all-append test [] t h k = k
all-append test (c ∷ s) t h k = elim (Bool-cases (test c)) [
  | inl meets ↦ rw meets (all-append test s t (rw meets at h) k)
  | inr fails ↦ cc (rw fails at h)
]

-- ===== src/Generation/Deterministic/Laws.antt =====
-- What a template is filled with.
use nl2sqlcopy.Prelude.{
  ℕ, suc, ◌≡◌, refl, ◌∙◌, arith, Bool, true, ◌&&◌, Option, none, some, List, [], ◌∷◌, ◌++◌, ◌==◌,
  ==-refl, all, take, length, leb, Bool-cases, inl, inr, if◌then◌else◌,
}
use nl2sqlcopy.Text.{Text, text_eq, lower}
use nl2sqlcopy.Agent.Names.{member}
use nl2sqlcopy.Generation.Deterministic.{
  last_named, named_columns, preferred_of, dated_onto, is_dated, add_column, add_columns,
}

-- Whether all of some columns are among others.
abbrev pub inside : List Text → List Text → Bool
inside columns chosen = all (λ c. member c columns) chosen

inside-append :
    (columns a b : List Text) → inside columns (a ++ b) ≡ (inside columns a && inside columns b)
inside-append columns [] b = refl
inside-append columns (x ∷ a) b = ground (arith, inside-append columns a b)

pub inside-take :
    (n : ℕ) (columns a : List Text) → inside columns a ≡ true → inside columns (take n a) ≡ true
inside-take ℕ.zero columns a h = refl
inside-take (suc n) columns [] h = refl
inside-take (suc n) columns (x ∷ a) h = ground (arith, h, inside-take n columns a)

inside-later :
    (x : Text) (columns a : List Text) → inside columns a ≡ true → inside (x ∷ columns) a ≡ true
inside-later x columns [] h = refl
inside-later x columns (y ∷ a) h = ground (arith, h, inside-later x columns a)

pub inside_refl : (columns : List Text) → inside columns columns ≡ true
inside_refl [] = refl
inside_refl (x ∷ columns) =
    ground (arith, ==-refl x, inside-later x columns columns (inside_refl columns))

pub inside-add_columns :
    (test : Text → Bool) (columns chosen more : List Text)
    → inside columns chosen ≡ true
    → inside columns more ≡ true
    → inside columns (add_columns test chosen more) ≡ true
unfolding add_columns
inside-add_columns test columns chosen [] h k = h
inside-add_columns test columns chosen (x ∷ more) h k =
    inside-add_columns test columns (if test x then add_column chosen x else chosen) more
      (ground (arith, h, k, inside-append columns chosen (x ∷ []))) (ground (arith, k))

inside-last_named :
    (columns : List Text) (wanted : Text) (more : List Text) (found : Option Text)
    → inside columns (named_columns found) ≡ true
    → inside columns more ≡ true
    → inside columns (named_columns (last_named wanted more found)) ≡ true
unfolding last_named
inside-last_named columns wanted [] found h k = h
inside-last_named columns wanted (x ∷ more) found h k = elim (Bool-cases (lower x == wanted)) [
  | inl same ↦
      rw same
        (inside-last_named columns wanted more (some x) (ground (arith, k)) (ground (arith, k)))
  | inr other ↦ rw other (inside-last_named columns wanted more found h (ground (arith, k)))
]

pub inside-preferred_of :
    (columns names : List Text) → inside columns (preferred_of columns names) ≡ true
unfolding preferred_of
inside-preferred_of columns [] = refl
inside-preferred_of columns (wanted ∷ names) =
    let here = named_columns (last_named wanted columns none) in
    let a = inside-last_named columns wanted columns none refl (inside_refl columns) in
    let b = inside-preferred_of columns names in
    inside-append columns here (preferred_of columns names) ∙ rw (a, b) refl

pub inside-dated_onto :
    (columns ordered more : List Text)
    → inside columns ordered ≡ true
    → inside columns more ≡ true
    → inside columns (dated_onto ordered more) ≡ true
unfolding dated_onto
inside-dated_onto columns ordered [] h k = h
inside-dated_onto columns ordered (x ∷ more) h k =
    let ordered' = if is_dated x then ordered ++ x ∷ [] else ordered in
    let h' : inside columns ordered' ≡ true =
      ground (arith, h, k, inside-append columns ordered (x ∷ [])) in
    let skipped = inside-dated_onto columns ordered more h (ground (arith, k)) in
    let rest = inside-dated_onto columns ordered' more h' (ground (arith, k)) in
    elim (Bool-cases (member x ordered)) [
      | inl old ↦ rw old skipped
      | inr new ↦ elim (Bool-cases (leb 4 (length ordered'))) [
        | inl full ↦ rw (new, full) h'
        | inr room ↦ rw (new, room) rest
      ]
    ]

-- ===== src/Generation/Filters/Parts.antt =====
-- The columns, addresses and numbers that `_build_deterministic_filter_clause` of
-- nl2sql_service/generation/sql_generator.py puts into a clause.
use nl2sqlcopy.Prelude.{
  ℕ, ◌≡◌, ◌∙◌, ap, sym, refl, ◌⊎◌, Bool, true, false, ◌&&◌, Option, none, some, List, [], ◌∷◌, ◌++◌,
  all, any, take, eqb, Bool-cases, or_right, inl, inr, if◌then◌else◌, ◌==◌, ==-refl,
}
use nl2sqlcopy.Text.{Text, text_eq, nonempty, lower, keep_nonempty, drop_while}
use nl2sqlcopy.Agent.Names.{member, has_part}
use nl2sqlcopy.Agent.Mentions.{boundary, is_word}
use nl2sqlcopy.Agent.Planner.{some_in}
use nl2sqlcopy.Generation.Deterministic.{last_named}
use nl2sqlcopy.Generation.Wording.{is_digit}
use nl2sqlcopy.Generation.Filters.{
  is_local, is_domain, take_while, joined_at, behind_local, found_or, email_from, first_number,
  first_named, first_containing, find_column_by_fragments,
}
use nl2sqlcopy.Generation.Filters.Literals.{
  is_plain, local_plain, domain_plain, all-take_while, all-take, all-append,
}

-- A text that a test lets through, on one of its branches.
pub if_cases :
    (test : Bool) (a b : Option Text) (s : Text)
    → (if test then a else b) ≡ some s
    → (a ≡ some s) ⊎ (b ≡ some s)
if_cases true a b s h = inl h
if_cases false a b s h = inr h

pub if_some :
    (test : Bool) (a : Option Text) (s : Text) → (if test then a else none) ≡ some s → a ≡ some s
if_some true a s h = h
if_some false a s h = cc h

pub unless_some :
    (test : Bool) (a : Option Text) (s : Text) → (if test then none else a) ≡ some s → a ≡ some s
unless_some true a s h = cc h
unless_some false a s h = h

pub found_or-some :
    (a b : Option Text) (s : Text) → found_or a b ≡ some s → (a ≡ some s) ⊎ (b ≡ some s)
found_or-some none b s h = inr h
found_or-some (some x) b s h = inl h

joined_at-plain :
    (local domain email : Text) (n : Option ℕ)
    → all is_plain local ≡ true
    → all is_plain domain ≡ true
    → joined_at local domain n ≡ some email
    → all is_plain email ≡ true
joined_at-plain local domain email none h k e = cc e
joined_at-plain local domain email (some n) h k e =
    let same : local ++ b'@' ∷ take n domain ≡ email = cc e in
    ap (all is_plain) (sym same) ∙ all-append is_plain local _ h (all-take is_plain n domain k)

behind_local-plain :
    (local s email : Text)
    → all is_plain local ≡ true
    → behind_local local s ≡ some email
    → all is_plain email ≡ true
behind_local-plain local [] email h e = cc e
behind_local-plain local (c ∷ s) email h e = elim (Bool-cases (some_in local && eqb c b'@')) [
  | inr other ↦ cc (rw other at e)
  | inl at_sign ↦
      joined_at-plain local _ email _ h (all-take_while is_domain is_plain s domain_plain)
        (rw at_sign at e)
]

pub email_from-plain :
    (before : Bool) (s email : Text) → email_from before s ≡ some email → all is_plain email ≡ true
unfolding email_from
email_from-plain before [] email e = cc e
email_from-plain before (c ∷ s) email e = elim (Bool-cases (boundary before (is_word c))) [
  | inr inside ↦ email_from-plain (is_word c) s email (rw inside at e)
  | inl begins ↦ elim (found_or-some _ _ email (rw begins at e)) [
    | inl here ↦
        behind_local-plain (take_while is_local (c ∷ s)) (drop_while is_local (c ∷ s)) email
          (all-take_while is_local is_plain (c ∷ s) local_plain) here
    | inr later ↦ email_from-plain (is_word c) s email later
  ]
]

pub first_number-digits :
    (words : List Text) (number : Text)
    → first_number (keep_nonempty words) ≡ some number
    → (nonempty number ≡ true) × (all is_digit number ≡ true)
unfolding first_number keep_nonempty
first_number-digits [] number h = cc h
first_number-digits ([] ∷ words) number h = first_number-digits words number h
first_number-digits ((c ∷ w) ∷ words) number h = elim (Bool-cases (all is_digit (c ∷ w))) [
  | inr other ↦ first_number-digits words number (rw other at h)
  | inl digits ↦
      let same : c ∷ w ≡ number = cc (rw digits at h) in
      (ap nonempty (sym same), ap (all is_digit) (sym same) ∙ digits)
]

member_here : (column : Text) (columns : List Text) → member column (column ∷ columns) ≡ true
member_here column columns = rw (==-refl column) refl

last_named-member :
    (wanted : Text) (columns : List Text) (before : Option Text) (column : Text)
    → last_named wanted columns before ≡ some column
    → (before ≡ some column) ⊎ (member column columns ≡ true)
unfolding last_named
last_named-member wanted [] before column h = inl h
last_named-member wanted (c ∷ columns) before column h =
    elim (last_named-member wanted columns _ column h) [
      | inr later ↦ inr (or_right _ _ later)
      | inl found ↦ elim (Bool-cases (lower c == wanted)) [
        | inl named ↦
            let same : c ≡ column = cc (rw named at found) in
            inr (rw same (member_here column columns))
        | inr other ↦ inl (rw other at found)
      ]
    ]

first_named-member :
    (columns fragments : List Text) (column : Text)
    → first_named columns fragments ≡ some column
    → member column columns ≡ true
first_named-member columns [] column h = cc h
first_named-member columns (fragment ∷ fragments) column h = elim (found_or-some _ _ column h) [
  | inr later ↦ first_named-member columns fragments column later
  | inl found ↦ elim (last_named-member fragment columns none column found) [
    | inl nothing ↦ cc nothing
    | inr is_in ↦ is_in
  ]
]

first_containing-member :
    (columns fragments : List Text) (column : Text)
    → first_containing columns fragments ≡ some column
    → member column columns ≡ true
unfolding first_containing
first_containing-member [] fragments column h = cc h
first_containing-member (c ∷ columns) fragments column h =
    elim (Bool-cases (any (has_part (lower c)) fragments)) [
      | inl contains ↦
          let same : c ≡ column = cc (rw contains at h) in rw same (member_here column columns)
      | inr other ↦
          or_right (c == column) _
            (first_containing-member columns fragments column (rw other at h))
    ]

pub find_column-member :
    (columns fragments : List Text) (column : Text)
    → find_column_by_fragments columns fragments ≡ some column
    → member column columns ≡ true
unfolding find_column_by_fragments
find_column-member columns fragments column h = elim (found_or-some _ _ column h) [
  | inl named ↦ first_named-member columns fragments column named
  | inr containing ↦ first_containing-member columns fragments column containing
]

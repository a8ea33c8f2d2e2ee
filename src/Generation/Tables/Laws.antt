-- ===== src/Generation/Tables/Laws.antt =====
-- What a validation of tables says about the tables that SQL reads from.
use nl2sqlcopy.Prelude.{
  ◌≡◌, refl, sym, ap, ◌∙◌, arith, Bool, true, false, not, ◌&&◌, ◌||◌, Option, none, some, List, [],
  ◌∷◌, ◌++◌, map, ◌==◌, ==-refl, all, Bool-cases, inl, inr, if◌then◌else◌,
}
use nl2sqlcopy.Dict
use nl2sqlcopy.Dict.{Dict}
use nl2sqlcopy.Dict.Laws.{get-put}
use nl2sqlcopy.Text.{Text, text_eq, nonempty, lower}
use nl2sqlcopy.Agent.Names.{member}
use nl2sqlcopy.Agent.Names.Merging.{no_repeats, no_repeats-append_one}
use nl2sqlcopy.Agent.Planner.{some_in}
use nl2sqlcopy.Generation.Tokens.{plain_table_name}
use nl2sqlcopy.Generation.Tables.{allowed_lookup, place, sort_table, sort_tables}

abbrev is_given : Option Text → Bool
is_given none = false
is_given (some name) = true

-- Whether a table that was found is in scope, or a common table, or no name at all.
abbrev pub is_known : Dict Text Text → List Text → Text → Bool
is_known lookup ctes table =
    let name = plain_table_name table in
    not (nonempty name) || (is_given (Dict.get lookup (lower name)) || member (lower name) ctes)

pub some-append_one : (xs : List Text) (x : Text) → some_in (xs ++ x ∷ []) ≡ true
some-append_one [] x = refl
some-append_one (y ∷ xs) x = refl

pub some-member : (x : Text) (xs : List Text) → member x xs ≡ true → some_in xs ≡ true
some-member x [] h = h
some-member x (y ∷ xs) h = refl

pub both_known : (b k r : Bool) → ((b || not k) || not r) ≡ (b || not (k && r))
both_known b k r = ground arith

place-unknown :
    (allowed : Option Text) (name : Text) (ctes used unknown : List Text)
    → some_in (place allowed name ctes (used, unknown)).1
      ≡ (some_in unknown || not (is_given allowed || member (lower name) ctes))
place-unknown (some allowed) name ctes used unknown = ground arith
place-unknown none name ctes used unknown =
    ground (arith, some-append_one unknown name, some-member name unknown)

sort_table-unknown :
    (lookup : Dict Text Text) (ctes : List Text) (table : Text) (sorted : List Text × List Text)
    → some_in (sort_table lookup ctes table sorted).1
      ≡ (some_in sorted.1 || not (is_known lookup ctes table))
unfolding sort_table
sort_table-unknown lookup ctes table (used, unknown) =
    let name = plain_table_name table in
    elim (Bool-cases (nonempty name)) [
      | inr blank ↦ rw blank (ground arith)
      | inl there ↦ rw there (place-unknown (Dict.get lookup (lower name)) name ctes used unknown)
    ]

pub sort_tables-unknown :
    (lookup : Dict Text Text) (ctes tables : List Text) (sorted : List Text × List Text)
    → some_in (sort_tables lookup ctes tables sorted).1
      ≡ (some_in sorted.1 || not (all (is_known lookup ctes) tables))
unfolding sort_tables
sort_tables-unknown lookup ctes [] sorted = ground arith
sort_tables-unknown lookup ctes (table ∷ tables) sorted =
    let step = sort_table-unknown lookup ctes table sorted in
    let rest = sort_tables-unknown lookup ctes tables (sort_table lookup ctes table sorted) in
    rest
    ∙ (ap (λ b. b || not (all (is_known lookup ctes) tables)) step
        ∙ both_known (some_in sorted.1) (is_known lookup ctes table)
            (all (is_known lookup ctes) tables))

-- Every name that is allowed is one of the names.
unfoldable pub InScope : List Text → Dict Text Text → Type 0
InScope names lookup =
    (key value : Text) → Dict.get lookup key ≡ some value → member value names ≡ true

put-InScope :
    (names : List Text) (lookup : Dict Text Text) (name : Text)
    → member name names ≡ true
    → InScope names lookup
    → InScope names (Dict.put lookup (lower name) name)
unfolding InScope
put-InScope names lookup name there scope key value h =
    let found = get-put lookup (lower name) key name in
    elim (Bool-cases (lower name == key)) [
      | inl same ↦
          (let equal : name ≡ value = cc (rw same at (sym found ∙ h)) in rw (sym equal) there)
      | inr other ↦ scope key value (rw other at (sym found ∙ h))
    ]

pub allowed_lookup-InScope :
    (names tables : List Text) (lookup : Dict Text Text)
    → all (λ t. member (plain_table_name t) names) tables ≡ true
    → InScope names lookup
    → InScope names (allowed_lookup lookup tables)
unfolding allowed_lookup
allowed_lookup-InScope names [] lookup h scope = scope
allowed_lookup-InScope names (table ∷ tables) lookup h scope =
    let name = plain_table_name table in
    let here : member name names ≡ true = ground (arith, h) in
    let there : all (λ t. member (plain_table_name t) names) tables ≡ true = ground (arith, h) in
    elim (Bool-cases (nonempty name)) [
      | inl full ↦ rw full (
          allowed_lookup-InScope names tables (Dict.put lookup (lower name) name) there
            (put-InScope names lookup name here scope))
      | inr blank ↦ rw blank (allowed_lookup-InScope names tables lookup there scope)
    ]

all_there-later :
    (names : List Text) (x : Text) (tables : List Text)
    → all (λ t. member (plain_table_name t) names) tables ≡ true
    → all (λ t. member (plain_table_name t) (x ∷ names)) tables ≡ true
all_there-later names x [] h = refl
all_there-later names x (table ∷ tables) h = ground (arith, h, all_there-later names x tables)

pub all_there :
    (tables : List Text)
    → all (λ t. member (plain_table_name t) (map plain_table_name tables)) tables ≡ true
all_there [] = refl
all_there (table ∷ tables) = ground (
  arith,
  ==-refl (plain_table_name table),
  all_there-later (map plain_table_name tables) (plain_table_name table) tables (all_there tables),
)

-- Names of a list, each of them once.
abbrev pub chosen_from : List Text → List Text → Bool
chosen_from names used = all (λ u. member u names) used && no_repeats used

all-append_one :
    (names used : List Text) (x : Text)
    → all (λ u. member u names) used ≡ true
    → member x names ≡ true
    → all (λ u. member u names) (used ++ x ∷ []) ≡ true
all-append_one names [] x h k = ground arith
all-append_one names (u ∷ used) x h k = ground (arith, h, all-append_one names used x)

pub add-chosen :
    (names used : List Text) (x : Text)
    → chosen_from names used ≡ true
    → member x names ≡ true
    → chosen_from names (if member x used then used else used ++ x ∷ []) ≡ true
add-chosen names used x h k = elim (Bool-cases (member x used)) [
  | inl old ↦ rw old h
  | inr new ↦
      (let a = all-append_one names used x (ground (arith, h)) k in
        let b = no_repeats-append_one x used (ground (arith, h)) new in rw (new, a) b)
]

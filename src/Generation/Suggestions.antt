-- ===== src/Generation/Suggestions.antt =====
-- `_build_schema_derived_suggestions` of generation/sql_generator.py, with its limit of three.
use nl2sqlcopy.Prelude.{
  ℕ, ◌-◌, ◌≡◌, refl, Bool, true, not, ◌&&◌, List, [], ◌∷◌, ◌++◌, any, leb, length, take,
  if◌then◌else◌,
}
use mathlib.Core.List.{reverse}
use nl2sqlcopy.Text.{Text, codes, text_eq, strip, replace}
use nl2sqlcopy.Agent.Names.{member, starts_with, add_new}
use nl2sqlcopy.Agent.Names.Merging.{no_repeats}
use nl2sqlcopy.Generation.Tokens.{plain_table_name}

-- `_table_label`
unfoldable pub table_label : Text → Text
table_label table = strip (replace b'_' b' ' (plain_table_name table))

abbrev ends_in : Text → Text → Bool
ends_in label ending = starts_with (reverse label) (reverse ending)

-- `_singularize_label` and `_pluralize_label`
unfoldable pub singularize_label : Text → Text
singularize_label label =
    if ends_in label (codes "ies")
    then take (length label - 3) label ++ codes "y"
    else if ends_in label (codes "s") && not (ends_in label (codes "ss"))
    then take (length label - 1) label
    else label

abbrev vowel_endings : List Text
vowel_endings = codes "ay" ∷ codes "ey" ∷ codes "iy" ∷ codes "oy" ∷ codes "uy" ∷ []

unfoldable pub pluralize_label : Text → Text
pluralize_label label =
    if ends_in label (codes "y") && not (any (ends_in label) vowel_endings)
    then take (length label - 1) label ++ codes "ies"
    else if ends_in label (codes "s")
    then label
    else label ++ codes "s"

-- The labels of the tables, each of them once.
unfoldable pub labels_of : List Text → List Text → List Text
labels_of labels [] = labels
labels_of labels (table ∷ tables) = labels_of (add_new labels (table_label table)) tables

unfoldable pub suggestions_for : List Text → List Text
suggestions_for [] = []
suggestions_for (label ∷ labels) =
    (codes "Show recent " ++ pluralize_label label)
    ∷ (codes "List " ++ pluralize_label label)
    ∷ (codes "Find " ++ (singularize_label label ++ codes " by a specific column value"))
    ∷ suggestions_for labels

abbrev fallback_suggestions : List Text
fallback_suggestions =
    codes "List records from a specific table"
    ∷ codes "Show recent rows from one table"
    ∷ codes "Find a row by a specific column value"
    ∷ []

-- Both loops: a suggestion that is new is added, until there are as many as the limit.
unfoldable pub collect : ℕ → List Text → List Text → List Text
collect limit suggestions [] = suggestions
collect limit suggestions (suggestion ∷ more) =
    let suggestions =
      if member suggestion suggestions then suggestions else suggestions ++ suggestion ∷ [] in
    let rest = collect limit suggestions more in
    if leb limit (length suggestions) then suggestions else rest

unfoldable pub build_schema_derived_suggestions : List Text → List Text
unfolding labels_of suggestions_for collect
build_schema_derived_suggestions tables =
    let first = collect 3 [] (suggestions_for (labels_of [] tables)) in
    let rest = collect 3 first fallback_suggestions in if leb 3 (length first) then first else rest

three_of :
    (labels : List Text)
    → let first = collect 3 [] (suggestions_for labels) in
      let all = if leb 3 (length first) then first else collect 3 first fallback_suggestions in
      (length all ≡ 3) × (no_repeats all ≡ true)
unfolding collect suggestions_for
three_of [] = (refl, refl)
three_of (label ∷ labels) = (refl, refl)

-- Whatever the tables in scope, even none, there are three suggestions, and no two are the same.
pub build_schema_derived_suggestions-three :
    (tables : List Text)
    → (length (build_schema_derived_suggestions tables) ≡ 3)
      × (no_repeats (build_schema_derived_suggestions tables) ≡ true)
unfolding build_schema_derived_suggestions
build_schema_derived_suggestions-three tables = three_of (labels_of [] tables)

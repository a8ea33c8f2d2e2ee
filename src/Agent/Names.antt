-- ===== src/Agent/Names.antt =====
-- The helpers of nl2sql_service/agent/react_executor.py on table names, lists without repetition
-- and blocks of context.
pub mod Merging
use nl2sqlcopy.Prelude.{
  ℕ, Bool, true, false, not, ◌&&◌, ◌||◌, List, [], ◌∷◌, ◌++◌, map, ◌==◌, eqb, ltb, any, filter,
  none, some, if◌then◌else◌,
}
use nl2sqlcopy.Dict
use nl2sqlcopy.Dict.{Dict}
use nl2sqlcopy.Text.{Text, codes, text_eq, nonempty, lower, strip, strip_of, split, split_on, join}

-- The characters of "`\"[]".
abbrev is_quote : ℕ → Bool
is_quote c = eqb c b'`' || eqb c b'"' || eqb c b'[' || eqb c b']'

-- `_normalize_table_name`
unfoldable pub normalize_table_name : Text → Text
normalize_table_name s = lower (strip_of is_quote (strip s))

abbrev pub member : Text → List Text → Bool
member item items = any (λ i. i == item) items

-- `if item and item not in items: items.append(item)`
abbrev pub add_new : List Text → Text → List Text
add_new items item = if nonempty item && not (member item items) then items ++ item ∷ [] else items

unfoldable pub add_all : List Text → List Text → List Text
add_all items [] = items
add_all items (item ∷ more) = add_all (add_new items item) more

-- `_parse_csv_items`
unfoldable pub parse_csv_items : Text → List Text
unfolding add_all normalize_table_name
parse_csv_items s = add_all [] (map normalize_table_name (split_on (λ c. eqb c b',') s))

-- `_merge_ordered_strings`
unfoldable pub merge_ordered_strings : List Text → List Text → List Text
unfolding add_all
merge_ordered_strings existing incoming = add_all [] (map strip (existing ++ incoming))

-- The loop of `_merge_allowed_columns` over the incoming tables.
unfoldable pub merge_columns_onto :
    Dict Text (List Text) → Dict Text (List Text) → Dict Text (List Text)
unfolding merge_ordered_strings
merge_columns_onto merged [] = merged
merge_columns_onto merged ((table, columns) ∷ incoming) =
    let key = normalize_table_name table in
    let old : List Text = elim (Dict.get merged key) [ none ↦ [] | some cols ↦ cols ] in
    let new = filter nonempty (map strip columns) in
    merge_columns_onto
      (if nonempty key then Dict.put merged key (merge_ordered_strings old new) else merged)
      incoming

-- `_merge_allowed_columns`: the copy of `existing` is `existing`.
unfoldable pub merge_allowed_columns :
    Dict Text (List Text) → Dict Text (List Text) → Dict Text (List Text)
unfolding merge_columns_onto
merge_allowed_columns existing incoming = merge_columns_onto existing incoming

abbrev pub starts_with : Text → Text → Bool
starts_with s [] = true
starts_with [] (d ∷ t) = false
starts_with (c ∷ s) (d ∷ t) = eqb c d && starts_with s t

-- `part in whole`
unfoldable pub has_part : Text → Text → Bool
has_part [] part = starts_with [] part
has_part (c ∷ s) part = starts_with (c ∷ s) part || has_part s part

-- `_merge_context_block`
unfoldable pub merge_context_block : Text → Text → Text
unfolding has_part
merge_context_block current new_block =
    let new = strip new_block in
    let old = strip current in
    if not (nonempty new)
    then current
    else if not (nonempty old)
    then new
    else if has_part old new
    then old
    else old ++ (codes "\n\n" ++ new)

-- `" ".join(text.split())`
abbrev pub squeeze : Text → Text
squeeze s = join (codes " ") (split s)

unfoldable pub combine_search_queries : Text → Text → Text
unfolding has_part
combine_search_queries refined_query base_search_query =
    let refined = squeeze refined_query in
    let base = squeeze base_search_query in
    let refined_lower = lower refined in
    let base_lower = lower base in
    if not (nonempty refined)
    then base
    else if not (nonempty base)
    then refined
    else if refined_lower == base_lower || has_part base_lower refined_lower
    then base
    else if has_part refined_lower base_lower
    then refined
    else refined ++ (codes "\n" ++ base)

-- The order of texts, and `sorted`.
abbrev pub text_leb : Text → Text → Bool
text_leb [] t = true
text_leb (c ∷ s) [] = false
text_leb (c ∷ s) (d ∷ t) = ltb c d || (eqb c d && text_leb s t)

unfoldable pub insert_sorted : Text → List Text → List Text
insert_sorted x [] = x ∷ []
insert_sorted x (y ∷ ys) = if text_leb x y then x ∷ y ∷ ys else y ∷ insert_sorted x ys

unfoldable pub sorted : List Text → List Text
unfolding insert_sorted
sorted [] = []
sorted (x ∷ xs) = insert_sorted x (sorted xs)

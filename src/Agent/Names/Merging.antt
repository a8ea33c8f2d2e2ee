-- ===== src/Agent/Names/Merging.antt =====
-- What the merged lists of names hold: each name that came in, once.
use nl2sqlcopy.Prelude.{
  ◌≡◌, refl, Bool, true, false, not, ◌&&◌, ◌||◌, List, [], ◌∷◌, ◌++◌, map, arith, ◌==◌, ==-refl,
  ==→≡, eqb, Bool-cases, inl, inr,
}
use nl2sqlcopy.Text.{Text, text_eq, nonempty, strip, split_on}
use nl2sqlcopy.Agent.Names.{
  normalize_table_name, member, add_new, add_all, parse_csv_items, merge_ordered_strings,
}

-- Whether no text stands twice in a list.
abbrev pub no_repeats : List Text → Bool
no_repeats [] = true
no_repeats (x ∷ xs) = not (member x xs) && no_repeats xs

pub member-append_one :
    (t x : Text) (xs : List Text) → member t (xs ++ x ∷ []) ≡ (member t xs || x == t)
member-append_one t x [] = ground arith
member-append_one t x (y ∷ xs) = ground (arith, member-append_one t x xs)

pub no_repeats-append_one :
    (x : Text) (xs : List Text)
    → no_repeats xs ≡ true
    → member x xs ≡ false
    → no_repeats (xs ++ x ∷ []) ≡ true
no_repeats-append_one x [] h new = refl
no_repeats-append_one x (y ∷ xs) h new = ground (
  arith,
  member-append_one y x xs,
  no_repeats-append_one x xs,
  text_eq.beq_iff x y,
  text_eq.beq_iff y x,
)

no_repeats-add_new :
    (items : List Text) (item : Text)
    → no_repeats items ≡ true
    → no_repeats (add_new items item) ≡ true
no_repeats-add_new items item h = elim (Bool-cases (nonempty item && not (member item items))) [
  | inl new ↦ rw new (no_repeats-append_one item items h (ground arith))
  | inr old ↦ rw old h
]

no_repeats-add_all :
    (more items : List Text) → no_repeats items ≡ true → no_repeats (add_all items more) ≡ true
unfolding add_all
no_repeats-add_all [] items h = h
no_repeats-add_all (item ∷ more) items h =
    no_repeats-add_all more (add_new items item) (no_repeats-add_new items item h)

member-add_new :
    (t : Text) (items : List Text) (item : Text)
    → member t (add_new items item) ≡ (member t items || (nonempty t && item == t))
member-add_new t items item = elim (Bool-cases (item == t)) [
  | inl same ↦ rw (==→≡ item t same) (ground (arith, member-append_one t t items, ==-refl t))
  | inr other ↦ ground (arith, other, member-append_one t item items)
]

member-add_all :
    (t : Text) (more items : List Text)
    → member t (add_all items more) ≡ (member t items || (nonempty t && member t more))
unfolding add_all
member-add_all t [] items = ground arith
member-add_all t (item ∷ more) items =
    ground (arith, member-add_all t more (add_new items item), member-add_new t items item)

-- The merged list holds no text twice, and exactly the texts that are not empty once stripped, of
-- both lists.
pub merge_ordered_strings-members :
    (existing incoming : List Text) (t : Text)
    → (no_repeats (merge_ordered_strings existing incoming) ≡ true)
      × (member t (merge_ordered_strings existing incoming)
          ≡ (nonempty t && member t (map strip (existing ++ incoming))))
unfolding merge_ordered_strings
merge_ordered_strings-members existing incoming t = (
  no_repeats-add_all (map strip (existing ++ incoming)) [] refl,
  member-add_all t (map strip (existing ++ incoming)) [],
)

-- The items of a list with commas: none twice, and exactly the normalized names between commas that
-- are not empty.
pub parse_csv_items-members :
    (s t : Text)
    → (no_repeats (parse_csv_items s) ≡ true)
      × (member t (parse_csv_items s)
          ≡ (nonempty t && member t (map normalize_table_name (split_on (λ c. eqb c b',') s))))
unfolding parse_csv_items
parse_csv_items-members s t =
    let names = map normalize_table_name (split_on (λ c. eqb c b',') s) in
    (no_repeats-add_all names [] refl, member-add_all t names [])

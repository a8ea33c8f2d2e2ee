-- ===== src/Agent/Mentions.antt =====
-- `_table_name_variants`, `_infer_focus_tables` and `_should_check_past_corrections` of
-- nl2sql_service/agent/react_executor.py: what a question mentions.
use mathlib.Core.List.{reverse}
use nl2sqlcopy.Prelude.{
  ℕ, ◌≡◌, refl, ◌-◌, Bool, true, false, not, ◌&&◌, ◌||◌, List, [], ◌∷◌, ◌++◌, map, eqb, leb, any,
  filter, take, length, if◌then◌else◌,
}
use nl2sqlcopy.Floats.{Floats}
use nl2sqlcopy.Text.{
  Text, codes, nonempty, lower, strip, split_on, replace, keep_nonempty, drop_while, is_space,
  lower_char,
}
use nl2sqlcopy.Agent.Names.{normalize_table_name, member, squeeze, starts_with}
use nl2sqlcopy.Agent.State.{Settings}

-- `\w`, and whether the next character is one
unfoldable pub is_word : ℕ → Bool
is_word c =
    (leb b'a' c && leb c b'z')
    || (leb b'A' c && leb c b'Z')
    || (leb b'0' c && leb c b'9')
    || eqb c b'_'

abbrev pub word_next : Text → Bool
word_next [] = false
word_next (c ∷ s) = is_word c

-- `\b`: a word begins or ends between two characters.
abbrev pub boundary : Bool → Bool → Bool
boundary before after = if before then not after else after

-- `word\b` at the head of a text, after a character that is one of a word or not.
unfoldable pub word_here : Bool → Text → Text → Bool
word_here before [] s = boundary before (word_next s)
word_here before (d ∷ word) [] = false
word_here before (d ∷ word) (c ∷ s) = eqb c d && word_here (is_word c) word s

-- `re.search(rf"\b{re.escape(word)}\b", text)`
unfoldable pub mentions_from : Bool → Text → Text → Bool
unfolding word_here is_word
mentions_from before word [] = boundary before false && word_here before word []
mentions_from before word (c ∷ s) =
    (boundary before (is_word c) && word_here before word (c ∷ s))
    || mentions_from (is_word c) word s

unfoldable pub mentions : Text → Text → Bool
unfolding mentions_from
mentions word = mentions_from false word

-- `value.endswith(ending)`
abbrev ends_with : Text → Text → Bool
ends_with value ending = starts_with (reverse value) (reverse ending)

-- The other number of a noun.
unfoldable pub other_number : Text → Text
other_number value =
    if ends_with value (codes "ies")
    then take (length value - 3) value ++ codes "y"
    else if ends_with value (codes "s")
    then take (length value - 1) value
    else value ++ codes "s"

-- `_table_name_variants`
unfoldable pub table_name_variants : Text → List Text
unfolding other_number
table_name_variants table =
    let normalized = normalize_table_name table in
    let spaced = replace b'_' b' ' normalized in
    if nonempty normalized
    then filter nonempty
        (map strip (normalized ∷ spaced ∷ other_number normalized ∷ other_number spaced ∷ []))
    else []

-- The loop of `_infer_focus_tables`.
unfoldable pub mentioned_tables : Text → List Text → List Text → List Text
unfolding table_name_variants mentions
mentioned_tables query matched [] = matched
mentioned_tables query matched (table ∷ tables) =
    let normalized = normalize_table_name table in
    mentioned_tables query
      (if any (λ variant. mentions variant query) (table_name_variants normalized)
          && not (member normalized matched)
        then matched ++ normalized ∷ []
        else matched)
      tables

-- `_infer_focus_tables`, with its limit of two tables
unfoldable pub infer_focus_tables : Text → List Text → List Text
unfolding mentioned_tables
infer_focus_tables query candidates = take 2 (mentioned_tables (lower query) [] candidates)

-- `_parse_csv_terms`
unfoldable pub parse_csv_terms : Text → List Text
parse_csv_terms value =
    map (λ item. lower (strip item))
      (filter (λ item. nonempty (strip item)) (split_on (λ c. eqb c b',') value))

module _ (f : Floats) where
  unfoldable pub should_check_past_corrections : Text → Settings f → Bool
  unfolding parse_csv_terms
  should_check_past_corrections query settings =
      let normalized = squeeze (lower query) in
      let tokens = keep_nonempty (split_on (λ c. not (is_word c)) normalized) in
      leb settings.react_past_corrections_min_tokens (length tokens)
      || any (λ term. mentions term normalized)
          (parse_csv_terms settings.react_past_corrections_connector_terms)

mentions_words :
    (mentions (codes "order") (codes "my order, please") ≡ true)
    × (mentions (codes "order") (codes "my orders") ≡ false)
unfolding mentions
mentions_words = (refl, refl)

infers_tables :
    infer_focus_tables
      (codes "Orders per product category")
      (codes "order" ∷ codes "product_categories" ∷ codes "product_category" ∷ codes "sales" ∷ [])
    ≡ codes "order" ∷ codes "product_categories" ∷ []
unfolding infer_focus_tables normalize_table_name drop_while is_space lower_char
infers_tables = refl

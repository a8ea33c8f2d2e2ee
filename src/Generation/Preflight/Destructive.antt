-- ===== src/Generation/Preflight/Destructive.antt =====
-- Which questions `detect_destructive_query_intent` of nl2sql_service/generation/sql_generator.py finds.
use mathlib.Core.List.{append-nil}
use nl2sqlcopy.Prelude.{
  or_right, ℕ, ◌≡◌, refl, Bool, true, false, eqb, ◌&&◌, some, List, [], ◌∷◌, ◌++◌, all, ◌==◌,
  Bool-cases, inl, inr, arith,
}
use nl2sqlcopy.Text.{Text, codes, text_eq, text_beq_iff, nonempty, lower, split, join}
use nl2sqlcopy.Agent.Mentions.{
  mentions, mentions_from, word_here, is_word, boundary, word_next, parse_csv_terms,
}
use nl2sqlcopy.Agent.Names.{member}
use nl2sqlcopy.Generation.Preflight.{
  PreflightSettings, mentioned_keyword, detect_destructive_query_intent,
}

eqb_refl : (c : ℕ) → eqb c c ≡ true
eqb_refl c = ground arith

all-cons :
    (c : ℕ) (word : Text)
    → all is_word (c ∷ word) ≡ true
    → (is_word c ≡ true) × (all is_word word ≡ true)
all-cons c word h = elim (Bool-cases (is_word c)) [
  | inl is_first ↦ (is_first, rw is_first at h)
  | inr other ↦ cc (rw other at h)
]

-- A word stands before what begins no word.
word_here-whole :
    (word after : Text)
    → all is_word word ≡ true
    → word_next after ≡ false
    → word_here true word (word ++ after) ≡ true
unfolding word_here
word_here-whole [] after h free = rw free refl
word_here-whole (c ∷ word) after h free =
    let (is_first, others) = all-cons c word h in
    rw (eqb_refl c, is_first) (word_here-whole word after others free)

mentions_from-head :
    (word after : Text)
    → nonempty word ≡ true
    → all is_word word ≡ true
    → word_next after ≡ false
    → mentions_from false word (word ++ after) ≡ true
unfolding mentions_from
mentions_from-head [] after there h free = cc there
mentions_from-head (c ∷ word) after there h free =
    let (is_first, others) = all-cons c word h in
    rw (eqb_refl c, is_first, word_here-whole word after others free) refl

mentions_from-later :
    (before : Bool) (word first rest : Text)
    → mentions_from false word rest ≡ true
    → mentions_from before word (first ++ b' ' ∷ rest) ≡ true
unfolding mentions_from is_word
mentions_from-later before word [] rest h =
    or_right (boundary before false && word_here before word (b' ' ∷ rest)) _ h
mentions_from-later before word (c ∷ first) rest h =
    or_right (boundary before (is_word c) && word_here before word (c ∷ first ++ b' ' ∷ rest)) _
      (mentions_from-later (is_word c) word first rest h)

mentions-join :
    (word : Text) (words : List Text)
    → nonempty word ≡ true
    → all is_word word ≡ true
    → member word words ≡ true
    → mentions word (join (codes " ") words) ≡ true
unfolding mentions join
mentions-join word [] there h is_in = cc is_in
mentions-join word (first ∷ []) there h is_in = elim (Bool-cases (first == word)) [
  | inr other ↦ cc (rw other at is_in)
  | inl same ↦
      rw ((text_beq_iff first word).0 same)
        (rw (append-nil word) at (mentions_from-head word [] there h refl))
]
mentions-join word (first ∷ next ∷ words) there h is_in = elim (Bool-cases (first == word)) [
  | inr other ↦
      mentions_from-later false word first (join (codes " ") (next ∷ words))
        (mentions-join word (next ∷ words) there h (rw other at is_in))
  | inl same ↦
      rw ((text_beq_iff first word).0 same)
        (mentions_from-head word (b' ' ∷ join (codes " ") (next ∷ words)) there h refl)
]

mentioned_keyword-some :
    (text keyword : Text) (keywords : List Text)
    → mentions keyword text ≡ true
    → member keyword keywords ≡ true
    → (found : Text) × (mentioned_keyword text keywords ≡ some found)
      × (member found keywords ≡ true)
unfolding mentioned_keyword
mentioned_keyword-some text keyword [] mentioned is_term = cc is_term
mentioned_keyword-some text keyword (k ∷ keywords) mentioned is_term =
    elim (Bool-cases (mentions k text)) [
      | inl here ↦ (k, rw here refl, rw ((text_beq_iff k k).1 refl) refl)
      | inr other ↦ elim (Bool-cases (k == keyword)) [
        | inl same ↦ cc (mentioned, other, (text_beq_iff k keyword).0 same)
        | inr different ↦
            let (found, finds, is_one) =
              mentioned_keyword-some text keyword keywords mentioned (rw different at is_term) in
            (found, rw other finds, or_right (k == found) _ is_one)
      ]
    ]

-- A question that has one of the destructive keywords for a word, whatever the case of its letters and
-- its spacing, is found destructive, by some keyword: the keyword is made of letters, digits and
-- underscores, and stands between blanks.
pub detect_destructive_query_intent-finds :
    (query keyword : Text) (settings : PreflightSettings)
    → nonempty keyword ≡ true
    → all is_word keyword ≡ true
    → member keyword (parse_csv_terms settings.destructive_query_keywords) ≡ true
    → member keyword (split (lower query)) ≡ true
    → (found : Text) × (detect_destructive_query_intent query settings ≡ some found)
      × (member found (parse_csv_terms settings.destructive_query_keywords) ≡ true)
unfolding detect_destructive_query_intent
detect_destructive_query_intent-finds query keyword settings there h is_term is_in =
    mentioned_keyword-some (join (codes " ") (split (lower query))) keyword
      (parse_csv_terms settings.destructive_query_keywords)
      (mentions-join keyword (split (lower query)) there h is_in) is_term

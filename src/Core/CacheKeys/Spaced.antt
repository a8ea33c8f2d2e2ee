-- ===== src/Core/CacheKeys/Spaced.antt =====
-- Words one blank apart, and what the steps of the canonical form do to such a text.
use mathlib.Core.List.{
  reverse, reverse-cons, reverse-append, reverse-reverse, append_assoc, append-nil,
}
use mathlib.Core.Path.{subst}
use nl2sqlcopy.Text.{
  Text, codes, text_eq, nonempty, lower, lower_char, is_space, strip, split, split_on,
  keep_nonempty, join, drop_while,
}
use nl2sqlcopy.Prelude.{
  ℕ, ◌≡◌, refl, Bool, true, false, ◌&&◌, List, [], ◌∷◌, ◌++◌, all, All, arith, ap, ◌∙◌,
}
use nl2sqlcopy.Core.CacheKeys.{is_alnum, blank_runs}
use nl2sqlcopy.Core.CacheKeys.Words.{IsWord, alnum_not_space, alnum-lower}

-- Words one blank apart.
abbrev pub spaced : List Text → Text
spaced = join (codes " ")

all-append : (test : ℕ → Bool) (s t : Text) → all test (s ++ t) ≡ (all test s && all test t)
all-append test [] t = refl
all-append test (c ∷ s) t = ground (arith, all-append test s t)

all-reverse : (test : ℕ → Bool) (s : Text) → all test (reverse s) ≡ all test s
all-reverse test [] = refl
all-reverse test (c ∷ s) =
    rw (reverse-cons, all-append, all-reverse test s) (and_comm (all test s) (test c))
  where
    and_comm : (a b : Bool) → (a && (b && true)) ≡ (b && a)
    and_comm a b = ground arith

-- A text that starts with a word has no blank to strip in front, nor one that ends with a word
-- behind.
keeps_front : (w s : Text) → IsWord w → drop_while is_space (w ++ s) ≡ w ++ s
unfolding drop_while
keeps_front [] s (n, a) = cc
keeps_front (c ∷ w) s (n, a) = rw (alnum_not_space c (ground arith))

nonempty-reverse : (w : Text) → nonempty w ≡ true → nonempty (reverse w) ≡ true
nonempty-reverse [] h = h
nonempty-reverse (c ∷ w) h = rw reverse-cons (some_more (reverse w) c)
  where
    some_more : (s : Text) (c : ℕ) → nonempty (s ++ c ∷ []) ≡ true
    some_more [] c = refl
    some_more (d ∷ s) c = refl

reverse-IsWord : (w : Text) → IsWord w → IsWord (reverse w)
reverse-IsWord w (n, a) = (nonempty-reverse w n, all-reverse is_alnum w ∙ a)

-- The last word of a nonempty list of words.
spaced_ends :
    (w : Text) (words : List Text)
    → IsWord w
    → All IsWord words
    → (front : Text) × (last : Text) × (spaced (w ∷ words) ≡ front ++ last) × IsWord last
unfolding join
spaced_ends w [] hw hs = ([], w, refl, hw)
spaced_ends w (v ∷ words) hw (hv, hs) =
    let (front, last, e, hl) = spaced_ends v words hv hs in
    (w ++ (codes " " ++ front), last, rw (e, append_assoc), hl)

front_kept :
    (w : Text) (words : List Text)
    → IsWord w
    → drop_while is_space (spaced (w ∷ words)) ≡ spaced (w ∷ words)
unfolding join
front_kept w [] hw = subst (λ s. drop_while is_space s ≡ s) (append-nil w) (keeps_front w [] hw)
front_kept w (v ∷ words) hw = keeps_front w (codes " " ++ spaced (v ∷ words)) hw

strip_kept :
    (s front last : Text)
    → drop_while is_space s ≡ s
    → s ≡ front ++ last
    → IsWord last
    → strip s ≡ s
strip_kept s front last kept e hl =
    let back : drop_while is_space (reverse s) ≡ reverse s =
      rw (e, reverse-append)
        (keeps_front (reverse last) (reverse front) (reverse-IsWord last hl)) in
    rw (kept, back) (reverse-reverse s)

pub strip-spaced : (words : List Text) → All IsWord words → strip (spaced words) ≡ spaced words
unfolding join drop_while
strip-spaced [] h = refl
strip-spaced (w ∷ words) (hw, hs) =
    let (front, last, e, hl) = spaced_ends w words hw hs in
    strip_kept (spaced (w ∷ words)) front last (front_kept w words hw) e hl

lower-word : (w s : Text) → all is_alnum w ≡ true → lower (w ++ s) ≡ w ++ lower s
lower-word [] s h = refl
lower-word (c ∷ w) s h = ground (arith, alnum-lower c, lower-word w s)

pub lower-spaced : (words : List Text) → All IsWord words → lower (spaced words) ≡ spaced words
unfolding join lower_char
lower-spaced [] h = refl
lower-spaced (w ∷ []) (hw, hs) = subst (λ s. lower s ≡ s) (append-nil w) (lower-word w [] hw.1)
lower-spaced (w ∷ v ∷ words) (hw, hs) = rw (lower-word w _ hw.1, lower-spaced (v ∷ words) hs)

blank_runs-word :
    (inside : Bool) (w s : Text) → IsWord w → blank_runs inside (w ++ s) ≡ w ++ blank_runs false s
unfolding blank_runs
blank_runs-word inside [] s (n, a) = cc
blank_runs-word inside (c ∷ []) s (n, a) = ground arith
blank_runs-word inside (c ∷ d ∷ w) s (n, a) = ground (arith, blank_runs-word false (d ∷ w) s)

pub blank_runs-spaced :
    (inside : Bool) (words : List Text)
    → All IsWord words
    → blank_runs inside (spaced words) ≡ spaced words
unfolding join blank_runs is_alnum
blank_runs-spaced inside [] h = refl
blank_runs-spaced inside (w ∷ []) (hw, hs) =
    subst (λ s. blank_runs inside s ≡ s) (append-nil w) (blank_runs-word inside w [] hw)
blank_runs-spaced inside (w ∷ v ∷ words) (hw, hs) =
    rw (blank_runs-word inside w _ hw, blank_runs-spaced true (v ∷ words) hs)

split_on-word :
    (w s : Text)
    → all is_alnum w ≡ true
    → split_on is_space (w ++ b' ' ∷ s) ≡ w ∷ split_on is_space s
unfolding split_on is_space
split_on-word [] s h = refl
split_on-word (c ∷ w) s h =
    let rest : all is_alnum w ≡ true = ground arith in
    rw (alnum_not_space c (ground arith), split_on-word w s rest)

split_on_last : (w : Text) → all is_alnum w ≡ true → split_on is_space w ≡ w ∷ []
unfolding split_on
split_on_last [] h = refl
split_on_last (c ∷ w) h =
    let rest : all is_alnum w ≡ true = ground arith in
    rw (alnum_not_space c (ground arith), split_on_last w rest)

split_on-spaced :
    (w : Text) (words : List Text)
    → IsWord w
    → All IsWord words
    → split_on is_space (spaced (w ∷ words)) ≡ w ∷ words
unfolding join
split_on-spaced w [] hw hs = split_on_last w hw.1
split_on-spaced w (v ∷ words) hw (hv, hs) =
    split_on-word w (spaced (v ∷ words)) hw.1 ∙ ap (◌∷◌ w) (split_on-spaced v words hv hs)

keep_words : (words : List Text) → All IsWord words → keep_nonempty words ≡ words
unfolding keep_nonempty
keep_words [] h = refl
keep_words (w ∷ words) (hw, hs) = rw (hw.0, keep_words words hs)

pub split-spaced : (words : List Text) → All IsWord words → split (spaced words) ≡ words
unfolding join split_on keep_nonempty
split-spaced [] h = refl
split-spaced (w ∷ words) (hw, hs) =
    ap keep_nonempty (split_on-spaced w words hw hs) ∙ keep_words (w ∷ words) (hw, hs)

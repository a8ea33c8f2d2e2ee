-- ===== src/Core/CacheKeys/Laws.antt =====
-- The canonical form is stable: it is made of canonical words, one blank apart.
use nl2sqlcopy.Text.{Text, text_eq, lower, is_space, strip, split, split_on}
use nl2sqlcopy.Prelude.{◌≡◌, refl, false, List, [], ◌∷◌, All}
use nl2sqlcopy.Core.CacheKeys.{blank_runs, canonical_tokens, canonicalize_query_text}
use nl2sqlcopy.Core.CacheKeys.Words.{IsWord, IsCanonical, alnum_words, canonical_tokens-IsCanonical}
use nl2sqlcopy.Core.CacheKeys.Spaced.{
  spaced, strip-spaced, lower-spaced, blank_runs-spaced, split-spaced,
}

IsCanonical-IsWord : (words : List Text) → All IsCanonical words → All IsWord words
IsCanonical-IsWord [] h = tt
IsCanonical-IsWord (w ∷ words) ((n, a, c), hs) = ((n, a), IsCanonical-IsWord words hs)

canonical_tokens_fixed :
    (words : List Text) → All IsCanonical words → canonical_tokens words ≡ words
unfolding canonical_tokens
canonical_tokens_fixed [] h = refl
canonical_tokens_fixed (w ∷ words) ((n, a, c), hs) = rw (c, n, canonical_tokens_fixed words hs)

canonicalize-spaced :
    (words : List Text)
    → All IsCanonical words
    → canonicalize_query_text (spaced words) ≡ spaced words
unfolding canonicalize_query_text
canonicalize-spaced words h =
    let hw = IsCanonical-IsWord words h in
    rw (
      strip-spaced words hw,
      lower-spaced words hw,
      blank_runs-spaced false words hw,
      split-spaced words hw,
      canonical_tokens_fixed words h,
    )

-- The canonical form of a question is its own canonical form, whatever the question.
pub canonicalize_idem :
    (query : Text)
    → canonicalize_query_text (canonicalize_query_text query) ≡ canonicalize_query_text query
unfolding canonicalize_query_text
canonicalize_idem query =
    canonicalize-spaced (canonical_tokens (split (blank_runs false (lower (strip query))))) (
      canonical_tokens-IsCanonical (split_on is_space (blank_runs false (lower (strip query))))
        (alnum_words false (lower (strip query))))

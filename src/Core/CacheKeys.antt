-- ===== src/Core/CacheKeys.antt =====
-- nl2sql_service/core/cache_keys.py: the canonical form of a question, by which caches are keyed.
pub mod Words
pub mod Spaced
pub mod Laws
use nl2sqlcopy.Text.{Text, codes, text_eq, text_beq, nonempty, lower, strip, split, join}
use nl2sqlcopy.Prelude.{
  ℕ, ◌≡◌, refl, Bool, true, false, not, ◌&&◌, ◌||◌, List, [], ◌∷◌, leb, any, Eq, ◌==◌,
  if◌then◌else◌,
}

-- `[a-z0-9]`
unfoldable pub is_alnum : ℕ → Bool
is_alnum c = (leb b'a' c && leb c b'z') || (leb b'0' c && leb c b'9')

-- `_NON_ALNUM_RE.sub(" ", text)`: a blank for each maximal run of other characters. `inside` says
-- that the character before belongs to such a run.
unfoldable pub blank_runs : Bool → Text → Text
blank_runs inside [] = []
blank_runs inside (c ∷ s) =
    let rest = blank_runs (not (is_alnum c)) s in
    if is_alnum c then c ∷ rest else if inside then rest else b' ' ∷ rest

abbrev pub latest_words : List Text
latest_words = codes "newest" ∷ codes "recent" ∷ codes "recently" ∷ []

abbrev pub dropped_words : List Text
dropped_words =
    codes "show"
    ∷ codes "list"
    ∷ codes "give"
    ∷ codes "tell"
    ∷ codes "me"
    ∷ codes "what"
    ∷ codes "which"
    ∷ codes "is"
    ∷ codes "are"
    ∷ codes "the"
    ∷ codes "a"
    ∷ codes "an"
    ∷ codes "please"
    ∷ []

-- `_TOKEN_CANONICAL_MAP.get(token, token)`
unfoldable pub canonical_token : Text → Text
canonical_token token =
    if any (λ w. w == token) latest_words
    then codes "latest"
    else if any (λ w. w == token) dropped_words
    then []
    else token

-- The loop over `text.split()`.
unfoldable pub canonical_tokens : List Text → List Text
canonical_tokens [] = []
canonical_tokens (token ∷ words) =
    let rest = canonical_tokens words in
    if nonempty (canonical_token token) then canonical_token token ∷ rest else rest

unfoldable pub canonicalize_query_text : Text → Text
canonicalize_query_text query =
    join (codes " ") (canonical_tokens (split (blank_runs false (lower (strip query)))))

-- ===== src/Core/Cache/Search.antt =====
-- The semantic lookup against its description: the best of the fresh entries that fit.
use mathlib.Core.Path.{subst}
use nl2sqlcopy.Dict.{Dict}
use nl2sqlcopy.Prelude.{
  ℕ, ◌-◌, leb, eqb, if◌then◌else◌, ◌≡◌, refl, sym, ap, ◌∙◌, ◌⊎◌, inl, inr, Bool, true, not, ◌&&◌,
  ◌||◌, Option, none, some, [], ◌∷◌, arith, Eq, Some, All, Bool-cases,
}
use nl2sqlcopy.Core.Cache.Store.{Entry, Answer}
use nl2sqlcopy.Floats.{Floats}
use nl2sqlcopy.Core.Cache.Vectors.{Vector, cosine}
use nl2sqlcopy.Core.Cache.Semantic.{
  Cached, SemanticCache, Verdict, stale, skipped, scored, Scan, verdict, other_top_k, weigh,
  scan_entries, get_semantic,
}

-- A store as the loop walks it.
abbrev pub Items : Floats → Type 0 → Type 0 → Type 0
Items f D B = Dict D (Entry (Cached f B))

-- An answer that is stored for `top_k`, or for none.
abbrev pub fits : Option ℕ → ℕ → Bool
fits none top_k = true
fits (some stored) top_k = eqb stored top_k

module _ (f : Floats) where
  open f use {Float, le, le_trans}

  abbrev pub similarity : Vector f → Option (Vector f) → Option Float
  similarity query_embedding none = none
  similarity query_embedding (some vector) = some (cosine f query_embedding vector)

  -- The score of an entry: the similarity of the two vectors, where it has one, is no older than
  -- the time to live and fits `top_k`.
  abbrev pub score_of : {B : Type 0} → ℕ → Vector f → ℕ → ℕ → Entry (Cached f B) → Option Float
  score_of ttl query_embedding top_k now entry =
      if leb (now - entry.stamp) ttl && fits entry.payload.answer.top_k top_k
      then similarity query_embedding entry.payload.embedding
      else none

  score_in : Verdict f → Option Float
  score_in (scored s) = some s
  score_in _ = none

  -- The loop finds the score of each entry.
  score_in-verdict :
      {B : Type 0} (ttl : ℕ) (query_embedding : Vector f) (top_k now : ℕ)
      (entry : Entry (Cached f B))
      → score_in (verdict f ttl query_embedding top_k now entry)
        ≡ score_of ttl query_embedding top_k now entry
  unfolding verdict other_top_k score_in
  score_in-verdict ttl query_embedding top_k now entry = ground arith

  -- A score that meets the threshold is no more than `best`.
  abbrev pub at_most : Float → Float → Option Float → Bool
  at_most bound best (some s) = not (le bound s) || le s best
  at_most bound best none = true

  at_most-le :
      (bound b b' : Float) (v : Option Float)
      → le b b' ≡ true
      → at_most bound b v ≡ true
      → at_most bound b' v ≡ true
  at_most-le bound b b' none up h = refl
  at_most-le bound b b' (some s) up h = ground (arith, le_trans s b b')

module _ (f : Floats) {D B : Type 0} where
  open f use {Float, lt, le, le_refl, le_of_lt, lt-not_le}

  weigh-rises :
      (bound : Float) (scan : Scan f D B) (k : D) (a : Answer B) (v : Verdict f)
      → (le scan.best_score (weigh f bound scan k a v).best_score ≡ true)
        × (at_most f bound (weigh f bound scan k a v).best_score (score_in f v) ≡ true)
  unfolding weigh score_in
  weigh-rises bound scan k a stale = (le_refl scan.best_score, refl)
  weigh-rises bound scan k a skipped = (le_refl scan.best_score, refl)
  weigh-rises bound scan k a (scored t) = elim (Bool-cases (le bound t && lt scan.best_score t)) [
    | inl better ↦ rw better (le_of_lt scan.best_score t (ground arith), ground (arith, le_refl t))
    | inr not_better ↦
        rw not_better (le_refl scan.best_score, ground (arith, lt-not_le scan.best_score t))
  ]

  -- A step keeps the result, or takes the answer at hand.
  weigh-result :
      (bound : Float) (scan : Scan f D B) (k : D) (a : Answer B) (v : Verdict f)
      → (((weigh f bound scan k a v).best_score ≡ scan.best_score)
          × ((weigh f bound scan k a v).best_result ≡ scan.best_result))
        ⊎ ((score_in f v ≡ some (weigh f bound scan k a v).best_score)
            × (le bound (weigh f bound scan k a v).best_score ≡ true)
            × ((weigh f bound scan k a v).best_result ≡ some a))
  unfolding weigh score_in
  weigh-result bound scan k a stale = inl (refl, refl)
  weigh-result bound scan k a skipped = inl (refl, refl)
  weigh-result bound scan k a (scored t) = elim (Bool-cases (le bound t && lt scan.best_score t)) [
    | inl better ↦ rw better (inr (refl, ground arith, refl))
    | inr not_better ↦ rw not_better (inl (refl, refl))
  ]

module _ (f : Floats) {D B : Type 0} ⦃e : Eq D⦄ (ttl : ℕ) (query_embedding : Vector f) (top_k : ℕ)
    (clock : D → ℕ) where
  open f use {Float, neg_one, le, le_refl, le_trans}

  -- No item of the list that meets the threshold scores more than `best`.
  abbrev pub NoneAbove : Float → Float → Items f D B → Type 0
  NoneAbove bound best =
      All (λ x. at_most f bound best (score_of f ttl query_embedding top_k (clock x.0) x.1) ≡ true)

  -- An item of the list that meets the threshold, scores `best` and holds the answer `r`.
  abbrev pub Holds : Float → Float → Option (Answer B) → Items f D B → Type 0
  Holds bound best r = Some (λ x.
      (score_of f ttl query_embedding top_k (clock x.0) x.1 ≡ some best)
      × (le bound best ≡ true)
      × (r ≡ some x.1.payload.answer))

  abbrev scan_from : Float → Scan f D B → Items f D B → Scan f D B
  scan_from bound = scan_entries f ttl query_embedding top_k bound clock

  -- The score only rises, over every score that was met.
  scan-rises :
      (bound : Float) (scan : Scan f D B) (items : Items f D B)
      → (le scan.best_score (scan_from bound scan items).best_score ≡ true)
        × NoneAbove bound (scan_from bound scan items).best_score items
  unfolding scan_entries
  scan-rises bound scan [] = (le_refl scan.best_score, tt)
  scan-rises bound scan ((k, entry) ∷ items) =
      let v = verdict f ttl query_embedding top_k (clock k) entry in
      let a = entry.payload.answer in
      let next = weigh f bound scan k a v in
      let last = (scan_from bound next items).best_score in
      let (up, all) = scan-rises bound next items in
      let (first, met) = weigh-rises f bound scan k a v in
      (
        le_trans scan.best_score next.best_score last first up,
        (
          at_most-le f bound next.best_score last _ up
              (rw (score_in-verdict f ttl query_embedding top_k (clock k) entry) at met),
          all,
        ),
      )

  -- The result is the one at the start, or the answer of an item that scores the final score.
  scan-result :
      (bound : Float) (scan : Scan f D B) (items : Items f D B)
      → (((scan_from bound scan items).best_score ≡ scan.best_score)
          × ((scan_from bound scan items).best_result ≡ scan.best_result))
        ⊎ Holds bound
            (scan_from bound scan items).best_score
            (scan_from bound scan items).best_result
            items
  unfolding scan_entries
  scan-result bound scan [] = inl (refl, refl)
  scan-result bound scan ((k, entry) ∷ items) =
      let v = verdict f ttl query_embedding top_k (clock k) entry in
      let next = weigh f bound scan k entry.payload.answer v in
      elim (scan-result bound next items) [
        | inr held ↦ inr (inr held)
        | inl (score, result) ↦ elim (weigh-result f bound scan k entry.payload.answer v) [
          | inl (score', result') ↦ inl (score ∙ score', result ∙ result')
          | inr (met, above, answer) ↦ inr (
              inl (
                sym (score_in-verdict f ttl query_embedding top_k (clock k) entry)
                    ∙ met
                    ∙ ap (λ (x : Float). some x) (sym score),
                rw score above,
                result ∙ answer,
              ))
        ]
      ]

  -- The semantic lookup finds exactly the best answer. Either it returns nothing, and no entry
  -- that is fresh, embedded, of the same `top_k` and at or over the threshold scores more than -1;
  -- or it returns the answer of such an entry, and no other such entry scores more.
  pub get_semantic-best :
      (default : Float) (c : SemanticCache f D B) (threshold : Option Float)
      → let r = (get_semantic f ttl default c query_embedding top_k threshold clock).0 in
        let bound : Float = elim threshold [ none ↦ default | some t ↦ t ] in
        ((r ≡ none) × NoneAbove bound neg_one c.store)
        ⊎ ((best : Float) × Holds bound best r c.store × NoneAbove bound best c.store)
  unfolding get_semantic
  get_semantic-best default c threshold =
      let bound : Float = elim threshold [ none ↦ default | some t ↦ t ] in
      let start : Scan f D B = record {
        best_score = neg_one;
        best_result = none;
        stale_keys = [];
      } in
      let last = scan_from bound start c.store in
      let none_above = (scan-rises bound start c.store).1 in
      elim (scan-result bound start c.store) [
        | inl (score, result) ↦
            inl (result, subst (λ b. NoneAbove bound b c.store) score none_above)
        | inr held ↦ inr (last.best_score, held, none_above)
      ]

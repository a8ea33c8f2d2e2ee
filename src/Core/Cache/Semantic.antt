-- ===== src/Core/Cache/Semantic.antt =====
-- `SemanticSqlCache` of nl2sql_service/core/cache.py: exact lookup by key, and lookup of the best
-- cached answer by the similarity of the question's embedding. The time to live and the threshold
-- of the settings are arguments.
use nl2sqlcopy.Dict.{Dict, remove}
use nl2sqlcopy.Text.{Text}
use nl2sqlcopy.Prelude.{
  ℕ, ◌-◌, Bool, false, not, ◌&&◌, Option, none, some, List, [], ◌∷◌, ◌++◌, Eq, ltb, eqb, length,
  if◌then◌else◌,
}
use nl2sqlcopy.Core.Cache.Store.{Entry, Answer, key_text, read, write}
use nl2sqlcopy.Core.Cache.Sql.{is_ok}
use nl2sqlcopy.Floats.{Floats}
use nl2sqlcopy.Core.Cache.Vectors.{Vector, cosine}

module _ (f : Floats) where
  open f use {Float, neg_one, lt, le}

  pub record Cached (B : Type 0) : Type 0 where
    pub answer : Answer B
    pub embedding : Option (Vector f)

  pub record SemanticCache (D B : Type 0) : Type 0 where
    pub store : Dict D (Entry (Cached B))
    pub max_size : ℕ

  unfoldable pub init : {D B : Type 0} → SemanticCache D B
  init = record { store = []; max_size = 200 }

  -- What the loop of `get_semantic` finds at one entry, before it compares the score.
  pub data Verdict : Type 0 where
    stale skipped : Verdict
    scored : Float → Verdict

  pub record Scan (D B : Type 0) : Type 0 where
    pub best_score : Float
    pub best_result : Option (Answer B)
    pub stale_keys : List D

  -- `stored_top_k is not None and stored_top_k != top_k`
  unfoldable pub other_top_k : Option ℕ → ℕ → Bool
  other_top_k none top_k = false
  other_top_k (some stored) top_k = not (eqb stored top_k)

  -- `_key`
  unfoldable pub key : {D : Type 0} → (Text → D) → Text → ℕ → D
  key md5 query top_k = md5 (key_text query top_k)

  -- `now` is the reading of the clock when the loop comes to the entry.
  unfoldable pub verdict : {B : Type 0} → ℕ → Vector f → ℕ → ℕ → Entry (Cached B) → Verdict
  unfolding other_top_k
  verdict ttl query_embedding top_k now entry =
      if ltb ttl (now - entry.stamp) then stale else elim entry.payload.embedding [
        | none ↦ skipped
        | some vec ↦
            if other_top_k entry.payload.answer.top_k top_k
            then skipped
            else scored (cosine f query_embedding vec)
      ]

  module _ {D B : Type 0} where
    unfoldable pub weigh : Float → Scan D B → D → Answer B → Verdict → Scan D B
    weigh threshold scan k answer stale = record scan { stale_keys = scan.stale_keys ++ k ∷ [] }
    weigh threshold scan k answer skipped = scan
    weigh threshold scan k answer (scored score) =
        if le threshold score && lt scan.best_score score
        then record scan { best_score = score; best_result = some answer }
        else scan

    unfoldable pub scan_entries :
        ℕ → Vector f → ℕ → Float → (D → ℕ) → Scan D B → Dict D (Entry (Cached B)) → Scan D B
    unfolding verdict weigh
    scan_entries ttl query_embedding top_k threshold clock scan [] = scan
    scan_entries ttl query_embedding top_k threshold clock scan ((k, entry) ∷ store) =
        let found = verdict ttl query_embedding top_k (clock k) entry in
        scan_entries ttl query_embedding top_k threshold clock
          (weigh threshold scan k entry.payload.answer found) store

  module _ {D B : Type 0} ⦃e : Eq D⦄ where
    -- `for k in stale_keys: self._store.pop(k, None)`
    unfoldable pub drop_keys : Dict D (Entry (Cached B)) → List D → Dict D (Entry (Cached B))
    drop_keys store [] = store
    drop_keys store (k ∷ ks) = drop_keys (remove store k) ks

    -- The clock is read once for each entry: `clock k` is the reading at the entry of the key `k`.
    unfoldable pub get_semantic :
        ℕ
        → Float
        → SemanticCache D B
        → Vector f
        → ℕ
        → Option Float
        → (D → ℕ)
        → Option (Answer B) × SemanticCache D B
    unfolding scan_entries drop_keys
    get_semantic ttl default c query_embedding top_k threshold clock =
        let bound : Float = elim threshold [ none ↦ default | some t ↦ t ] in
        let start : Scan D B = record {
          best_score = neg_one;
          best_result = none;
          stale_keys = [];
        } in
        let scan = scan_entries ttl query_embedding top_k bound clock start c.store in
        (scan.best_result, record c { store = drop_keys c.store scan.stale_keys })

    unfoldable pub get_exact :
        (Text → D) → ℕ → SemanticCache D B → Text → ℕ → ℕ → Option (Answer B) × SemanticCache D B
    unfolding key
    get_exact md5 ttl c query top_k now =
        let (found, store) = read ttl now c.store (key md5 query top_k) in
        (elim found [ none ↦ none | some cached ↦ some cached.answer ], record c { store = store })

    unfoldable pub set :
        (Text → D)
        → SemanticCache D B
        → Text
        → ℕ
        → Answer B
        → Option (Vector f)
        → ℕ
        → Option (SemanticCache D B)
    unfolding key
    set md5 c query top_k result embedding now =
        let payload : Cached B = record {
          answer = record result { top_k = some top_k };
          embedding = embedding;
        } in
        if is_ok result
        then elim (write c.max_size now c.store (key md5 query top_k) payload) [
          | none ↦ none
          | some store ↦ some (record c { store = store })
        ]
        else some c

  module _ {D B : Type 0} where
    unfoldable pub invalidate_all : SemanticCache D B → ℕ × SemanticCache D B
    invalidate_all c = (length c.store, record c { store = [] })

    unfoldable pub size : SemanticCache D B → ℕ
    size c = length c.store

-- ===== src/Core/Cache/Purge.antt =====
-- What the semantic lookup leaves in the store.
use nl2sqlcopy.Dict.{get, remove}
use nl2sqlcopy.Dict.Laws.{get-remove}
use nl2sqlcopy.Prelude.{
  ℕ, ◌≡◌, refl, ap, ◌∙◌, Bool, true, false, ◌&&◌, ◌||◌, Option, none, some, List, [], ◌∷◌, ◌++◌,
  arith, Eq, ◌==◌, any, if◌then◌else◌,
}
use nl2sqlcopy.Core.Cache.Store.{Answer}
use nl2sqlcopy.Floats.{Floats}
use nl2sqlcopy.Core.Cache.Vectors.{Vector}
use nl2sqlcopy.Core.Cache.Search.{Items}
use nl2sqlcopy.Core.Cache.Semantic.{
  SemanticCache, Verdict, stale, skipped, scored, Scan, verdict, weigh, scan_entries, drop_keys,
  get_semantic,
}

abbrev is_stale : {f : Floats} → Verdict f → Bool
is_stale stale = true
is_stale _ = false

abbrev member : {D : Type 0} ⦃e : Eq D⦄ → List D → D → Bool
member ks j = any (λ k. k == j) ks

member-append :
    {D : Type 0} ⦃e : Eq D⦄ (ks : List D) (k j : D)
    → member (ks ++ k ∷ []) j ≡ (member ks j || k == j)
member-append [] k j = ground arith
member-append (i ∷ ks) k j = ground (arith, member-append ks k j)

module _ (f : Floats) {D B : Type 0} ⦃e : Eq D⦄ where
  open f use {Float}

  get-drop_keys :
      (store : Items f D B) (ks : List D) (j : D)
      → get (drop_keys f store ks) j ≡ (if member ks j then none else get store j)
  unfolding drop_keys
  get-drop_keys store [] j = refl
  get-drop_keys store (k ∷ ks) j =
      ground (arith, get-drop_keys (remove store k) ks j, get-remove store k j)

  stale-weigh :
      (bound : Float) (scan : Scan f D B) (k : D) (a : Answer B) (v : Verdict f) (j : D)
      → member (weigh f bound scan k a v).stale_keys j
        ≡ (member scan.stale_keys j || (k == j && is_stale v))
  unfolding weigh
  stale-weigh bound scan k a stale j = member-append scan.stale_keys k j ∙ ground arith
  stale-weigh bound scan k a skipped j = ground arith
  stale-weigh bound scan k a (scored s) j = ground arith

module _ (f : Floats) {D B : Type 0} ⦃e : Eq D⦄ (ttl : ℕ) (query_embedding : Vector f) (top_k : ℕ)
    (clock : D → ℕ) where
  open f use {Float, neg_one}

  abbrev scan_from : Float → Scan f D B → Items f D B → Scan f D B
  scan_from bound = scan_entries f ttl query_embedding top_k bound clock

  -- Whether the key stands at an entry that the loop found stale.
  abbrev pub stale_at : Items f D B → D → Bool
  stale_at [] j = false
  stale_at ((k, entry) ∷ items) j =
      (k == j && is_stale (verdict f ttl query_embedding top_k (clock k) entry)) || stale_at items j

  scan-stale :
      (bound : Float) (scan : Scan f D B) (items : Items f D B) (j : D)
      → member (scan_from bound scan items).stale_keys j
        ≡ (member scan.stale_keys j || stale_at items j)
  unfolding scan_entries
  scan-stale bound scan [] j = ground arith
  scan-stale bound scan ((k, entry) ∷ items) j =
      let v = verdict f ttl query_embedding top_k (clock k) entry in
      let a = entry.payload.answer in
      ground (
        arith,
        scan-stale bound (weigh f bound scan k a v) items j,
        stale-weigh f bound scan k a v j,
      )

  -- The lookup drops the keys of the stale entries, and keeps every other entry as it is.
  pub get_semantic-purges :
      (default : Float) (c : SemanticCache f D B) (threshold : Option Float) (j : D)
      → get (get_semantic f ttl default c query_embedding top_k threshold clock).1.store j
        ≡ (if stale_at c.store j then none else get c.store j)
  unfolding get_semantic
  get_semantic-purges default c threshold j =
      let bound : Float = elim threshold [ none ↦ default | some t ↦ t ] in
      let start : Scan f D B = record {
        best_score = neg_one;
        best_result = none;
        stale_keys = [];
      } in
      get-drop_keys f c.store (scan_from bound start c.store).stale_keys j
      ∙ ap (λ b. if b then none else get c.store j) (scan-stale bound start c.store j)

-- ===== src/Core/Cache/Methods.antt =====
-- The methods of the caches, as their callers see them.
use nl2sqlcopy.Dict.{Dict, get, remove, contains}
use nl2sqlcopy.Dict.Laws.{get-put, get-remove, length-put, length-remove, contains-get}
use nl2sqlcopy.Text.{Text, codes, decimal}
use nl2sqlcopy.Core.CacheKeys.{canonicalize_query_text}
use nl2sqlcopy.Core.Cache.Store.{Entry, Answer, key_text, oldest_key, read, make_room, write}
use nl2sqlcopy.Core.Cache.Embed
use nl2sqlcopy.Core.Cache.Embed.{EmbedCache}
use nl2sqlcopy.Core.Cache.Sql
use nl2sqlcopy.Core.Cache.Sql.{SqlCache, is_ok}
use nl2sqlcopy.Floats.{Floats}
use nl2sqlcopy.Core.Cache.Vectors.{Vector}
use nl2sqlcopy.Core.Cache.Semantic
use nl2sqlcopy.Core.Cache.Semantic.{SemanticCache, Cached}
use nl2sqlcopy.Core.Cache.Laws.{oldest_key-contains, write-bounded, write-room, read-write}
use nl2sqlcopy.Prelude.{
  ℕ, ◌-◌, ◌≤◌, ◌<◌, ◌≡◌, ◌≢◌, refl, ap, ◌∙◌, ◌++◌, ◌⊎◌, inl, inr, true, false, Option, none, some,
  arith, Eq, ltb, length, Bool-cases, Option-cases, if◌then◌else◌,
}

module _ {D Vector : Type 0} ⦃e : Eq D⦄ (md5 : Text → D) (ttl : ℕ) where
  -- A vector that was stored at `t` is read back at `now` while it is no older than the time to
  -- live, and is gone after.
  embed-get-set :
      (c c' : EmbedCache D Vector) (text : Text) (vector : Vector) (t now : ℕ)
      → Embed.set md5 ttl c text vector t ≡ some c'
      → (Embed.get md5 ttl c' text now).0 ≡ (if ltb ttl (now - t) then none else some vector)
  unfolding Embed.get Embed.set
  embed-get-set c c' text vector t now h =
      elim (Option-cases (write c.max_size t c.store (md5 text) vector)) [
        | inl full ↦ cc (rw (full, Embed.set) at h)
        | inr (store, written) ↦
            let same : c' ≡ record c { store = store } = ground (arith, written) in
            rw (same, read-write ttl c.max_size t now c.store store (md5 text) vector written)
              (ground arith)
      ]

module _ {D B : Type 0} ⦃e : Eq D⦄ (md5 : Text → D) (ttl : ℕ) where
  -- A successful answer that was stored for a question at `t` is read back at `now` for every question
  -- of the same canonical form and the same `top_k`, while it is no older than the time to live.
  pub sql-get-set :
      (c c' : SqlCache D B) (query query' : Text) (top_k : ℕ) (result : Answer B) (t now : ℕ)
      → is_ok result ≡ true
      → Sql.set md5 ttl c query top_k result t ≡ some c'
      → canonicalize_query_text query' ≡ canonicalize_query_text query
      → (Sql.get md5 ttl c' query' top_k now).0 ≡ (if ltb ttl (now - t) then none else some result)
  unfolding Sql.get Sql.set Sql.key key_text
  sql-get-set c c' query query' top_k result t now good h same =
      let same_key : md5 (key_text query' top_k) ≡ md5 (key_text query top_k) =
        ap (λ canonical. md5 (canonical ++ (codes ":" ++ decimal top_k))) same in
      elim (Option-cases (write c.max_size t c.store (Sql.key md5 query top_k) result)) [
        | inl full ↦ cc (rw (good, full, Sql.set) at h)
        | inr (store, written) ↦
            let kept : c' ≡ record c { store = store } = ground (arith, written, good) in
            let found =
              read-write ttl c.max_size t now c.store store (Sql.key md5 query top_k) result
                written in
            let read_it = ap (read ttl now store) same_key ∙ found in
            rw kept (ground (arith, read_it))
      ]

module _ (f : Floats) {D B : Type 0} ⦃e : Eq D⦄ (md5 : Text → D) where
  set-write :
      (c c' : SemanticCache f D B) (query : Text) (top_k : ℕ) (result : Answer B)
      (embedding : Option (Vector f)) (t : ℕ)
      → is_ok result ≡ true
      → Semantic.set f md5 c query top_k result embedding t ≡ some c'
      → write c.max_size t c.store
          (Semantic.key f md5 query top_k)
          (record { answer = record result { top_k = some top_k }; embedding = embedding })
        ≡ some c'.store
  unfolding Semantic.set
  set-write c c' query top_k result embedding t good h = ground (arith, good)

  -- A successful answer that was stored for a question at `t` is found at `now` for every question
  -- of the same canonical form and the same `top_k`, while it is no older than the time to live.
  pub get_exact-set :
      (ttl : ℕ) (c c' : SemanticCache f D B) (query query' : Text) (top_k : ℕ) (result : Answer B)
      (embedding : Option (Vector f)) (t now : ℕ)
      → is_ok result ≡ true
      → Semantic.set f md5 c query top_k result embedding t ≡ some c'
      → canonicalize_query_text query' ≡ canonicalize_query_text query
      → (Semantic.get_exact f md5 ttl c' query' top_k now).0
        ≡ (if ltb ttl (now - t) then none else some (record result { top_k = some top_k }))
  unfolding Semantic.get_exact Semantic.key key_text
  get_exact-set ttl c c' query query' top_k result embedding t now good h same =
      let same_key : md5 (key_text query' top_k) ≡ md5 (key_text query top_k) =
        ap (λ canonical. md5 (canonical ++ (codes ":" ++ decimal top_k))) same in
      let payload : Cached f B = record {
        answer = record result { top_k = some top_k };
        embedding = embedding;
      } in
      let written = set-write c c' query top_k result embedding t good h in
      let found =
        read-write ttl c.max_size t now c.store c'.store (Semantic.key f md5 query top_k) payload
          written in
      let read_it = ap (read ttl now c'.store) same_key ∙ found in ground (arith, read_it)

  -- With a positive bound that the size keeps, `set` never fails and the size keeps it, whatever the
  -- answer; an answer that is not a success leaves the cache as it is.
  pub set-bounded :
      (c : SemanticCache f D B) (query : Text) (top_k : ℕ) (result : Answer B)
      (embedding : Option (Vector f)) (t : ℕ)
      → 0 < c.max_size
      → length c.store ≤ c.max_size
      → (c' : SemanticCache f D B) × (Semantic.set f md5 c query top_k result embedding t ≡ some c')
        × (length c'.store ≤ c'.max_size)
        × ((is_ok result ≡ true) ⊎ (c' ≡ c))
  unfolding Semantic.set
  set-bounded c query top_k result embedding t pos fits =
      let payload : Cached f B = record {
        answer = record result { top_k = some top_k };
        embedding = embedding;
      } in
      let k = Semantic.key f md5 query top_k in
      let (store, written, bounded) = write-bounded c.max_size t c.store k payload pos fits in
      elim (Bool-cases (is_ok result)) [
        | inl good ↦ (record c { store = store }, rw good (rw written), bounded, inl good)
        | inr bad ↦ (c, rw bad, fits, inr refl)
      ]

-- A write over a key that is already stored evicts the oldest entry all the same when the store is
-- full, although it needs no room: an entry of another key is lost, and the store shrinks.
pub overwrite_evicts :
    {D P : Type 0} ⦃e : Eq D⦄ (max_size now : ℕ) (store after : Dict D (Entry P)) (key k : D)
    (payload : P)
    → max_size ≤ length store
    → contains store key ≡ true
    → oldest_key store ≡ some k
    → key ≢ k
    → write max_size now store key payload ≡ some after
    → (contains after k ≡ false) × (length after < length store)
unfolding make_room
overwrite_evicts ⦃e⦄ max_size now store after key k payload full known oldest ne h =
    let (room, made, same) = write-room max_size now store key payload h in
    let evicted : room ≡ remove store k = ground (arith, made, oldest) in
    let entry : Entry _ = record { payload = payload; stamp = now } in
    let lost : get after k ≡ none = ground (
      arith,
      same,
      evicted,
      get-put room key k entry,
      get-remove store k k,
      e.beq_iff key k,
      e.beq_iff k k,
    ) in
    let still : contains room key ≡ true = ground (
      arith,
      evicted,
      known,
      contains-get room key,
      contains-get store key,
      get-remove store k key,
      e.beq_iff k key,
    ) in
    (
      contains-get after k ∙ ground (arith, lost),
      ground (
        arith,
        same,
        still,
        evicted,
        length-put room key entry,
        length-remove store k (oldest_key-contains store k oldest),
      ),
    )

-- ===== src/Core/Cache/Laws.antt =====
-- What the steps of a store promise: room is made by evicting an oldest entry, the size stays
-- bounded, and an entry is read back until it is older than the time to live.
use nl2sqlcopy.Dict.{Dict, get, put, remove, contains}
use nl2sqlcopy.Dict.Laws.{get-put, get-remove, length-put, length-remove}
use nl2sqlcopy.Core.Cache.Store.{Entry, oldest_from, oldest_key, read, make_room, write}
use nl2sqlcopy.Prelude.{
  ℕ, ◌-◌, ◌≤◌, ◌<◌, ◌≡◌, ◌≢◌, refl, ◌∙◌, ◌⊎◌, inl, inr, true, none, some, [], ◌∷◌, arith, Eq, ltb,
  leb, length, Some, All, Bool-cases, Option-cases, if◌then◌else◌,
}

at_tail : {P Q R : Type 0} → P ⊎ Q → P ⊎ (R ⊎ Q)
at_tail (inl p) = inl p
at_tail (inr q) = inr (inr q)

module _ {D P : Type 0} ⦃e : Eq D⦄ where
  oldest_from-contains :
      (k : D) (stamp : ℕ) (store : Dict D (Entry P))
      → (oldest_from k stamp store ≡ k) ⊎ (contains store (oldest_from k stamp store) ≡ true)
  unfolding oldest_from contains
  oldest_from-contains k stamp [] = inl refl
  oldest_from-contains k stamp ((j, entry) ∷ store) =
      let k' = if ltb entry.stamp stamp then j else k in
      let stamp' = if ltb entry.stamp stamp then entry.stamp else stamp in
      ground (
        arith,
        oldest_from-contains k' stamp' store,
        e.beq_iff j j,
        e.beq_iff j (oldest_from k' stamp' store),
      )

  -- The candidate, or an entry of the store, has the least stamp of all.
  oldest_from-least :
      (k : D) (stamp : ℕ) (store : Dict D (Entry P)) (r : D)
      → oldest_from k stamp store ≡ r
      → (least : ℕ) × (least ≤ stamp)
        × All (λ x. least ≤ x.1.stamp) store
        × (((k ≡ r) × (stamp ≡ least)) ⊎ Some (λ x. (x.0 ≡ r) × (x.1.stamp ≡ least)) store)
  unfolding oldest_from
  oldest_from-least k stamp [] r h = (stamp, omega arith, tt, inl (h, refl))
  oldest_from-least k stamp ((j, entry) ∷ store) r h = elim (Bool-cases (ltb entry.stamp stamp)) [
    | inl lt ↦
        let (least, le, all, at) = oldest_from-least j entry.stamp store r (rw lt at h) in
        (least, ground arith, (le, all), inr at)
    | inr ge ↦
        let (least, le, all, at) = oldest_from-least k stamp store r (rw ge at h) in
        (least, le, (ground arith, all), at_tail at)
  ]

  -- The evicted key is that of an entry with the least stamp in the store.
  pub oldest_key-least :
      (store : Dict D (Entry P)) (k : D)
      → oldest_key store ≡ some k
      → (least : ℕ) × Some (λ x. (x.0 ≡ k) × (x.1.stamp ≡ least)) store
        × All (λ x. least ≤ x.1.stamp) store
  unfolding oldest_key
  oldest_key-least [] k h = cc
  oldest_key-least ((j, entry) ∷ store) k h =
      let (least, le, all, at) = oldest_from-least j entry.stamp store k (cc) in
      (least, at, (le, all))

  pub oldest_key-contains :
      (store : Dict D (Entry P)) (k : D) → oldest_key store ≡ some k → contains store k ≡ true
  unfolding oldest_key contains
  oldest_key-contains [] k h = cc
  oldest_key-contains ((j, entry) ∷ store) k h =
      ground (arith, oldest_from-contains j entry.stamp store, e.beq_iff j k)

  empty_store : (store : Dict D (Entry P)) → oldest_key store ≡ none → ¬ (0 < length store)
  unfolding oldest_key
  empty_store [] h lt = elim lt [ ]
  empty_store (x ∷ store) h lt = cc

  make_room-bounded :
      (max_size : ℕ) (store : Dict D (Entry P))
      → 0 < max_size
      → length store ≤ max_size
      → (room : Dict D (Entry P)) × (make_room max_size store ≡ some room)
        × (length room < max_size)
  unfolding make_room
  make_room-bounded max_size store pos fits = elim (Bool-cases (leb max_size (length store))) [
    | inr free ↦ (store, rw free, ground arith)
    | inl full ↦ elim (Option-cases (oldest_key store)) [
      | inl nothing ↦ absurd (empty_store store nothing (ground arith))
      | inr (k, oldest) ↦ (
        remove store k,
        rw full (rw oldest),
        omega (arith, length-remove store k (oldest_key-contains store k oldest)),
      )
    ]
  ]

  -- A write never fails, and never leaves more entries than the bound.
  pub write-bounded :
      (max_size now : ℕ) (store : Dict D (Entry P)) (key : D) (payload : P)
      → 0 < max_size
      → length store ≤ max_size
      → (after : Dict D (Entry P)) × (write max_size now store key payload ≡ some after)
        × (length after ≤ max_size)
  unfolding write
  write-bounded max_size now store key payload pos fits =
      let (room, made, less) = make_room-bounded max_size store pos fits in
      let entry : Entry P = record { payload = payload; stamp = now } in
      (put room key entry, rw (made, write), ground (arith, length-put room key entry))

  pub write-room :
      (max_size now : ℕ) (store : Dict D (Entry P)) (key : D) (payload : P)
      {after : Dict D (Entry P)}
      → write max_size now store key payload ≡ some after
      → (room : Dict D (Entry P)) × (make_room max_size store ≡ some room)
        × (after ≡ put room key (record { payload = payload; stamp = now }))
  unfolding write
  write-room max_size now store key payload h = elim (Option-cases (make_room max_size store)) [
    | inl full ↦ cc (rw (full, write) at h)
    | inr (room, made) ↦ (room, made, cc (rw (made, write) at h))
  ]

  -- What is written is read back while it is fresh, and deleted when it is read too late.
  pub read-write :
      (ttl max_size t now : ℕ) (store after : Dict D (Entry P)) (key : D) (payload : P)
      → write max_size t store key payload ≡ some after
      → read ttl now after key
        ≡ (if ltb ttl (now - t) then (none, remove after key) else (some payload, after))
  unfolding read
  read-write ttl max_size t now store after key payload h =
      let (room, made, same) = write-room max_size t store key payload h in
      ground (
        arith,
        same,
        get-put room key key (record { payload = payload; stamp = t }),
        e.beq_iff key key,
      )

  -- A key that is neither written nor evicted keeps its entry.
  pub get-write_other :
      (max_size now : ℕ) (store after : Dict D (Entry P)) (key j : D) (payload : P)
      → write max_size now store key payload ≡ some after
      → key ≢ j
      → oldest_key store ≢ some j
      → get after j ≡ get store j
  unfolding make_room
  get-write_other max_size now store after key j payload h ne kept =
      let (room, made, same) = write-room max_size now store key payload h in
      let entry : Entry P = record { payload = payload; stamp = now } in
      let from_room : get after j ≡ get room j =
        ground (arith, same, get-put room key j entry, e.beq_iff key j) in
      from_room ∙ elim (Option-cases (oldest_key store)) [
        | inl nothing ↦ ground (arith, made)
        | inr (k, oldest) ↦ ground (arith, made, oldest, get-remove store k j, e.beq_iff k j)
      ]

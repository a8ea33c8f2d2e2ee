-- ===== src/Core/RateLimiter/Bucket.antt =====
-- One call of `consume`: what it does to the bucket of its client, and to the others.
use Prim.Native.String.{String}
use nl2sqlcopy.Dict.{Dict, get, put}
use nl2sqlcopy.Dict.Laws.{get-put, contains-get}
use nl2sqlcopy.Prelude.{
  ℕ, ◌+◌, ◌-◌, ◌*◌, ◌≤◌, ◌≡◌, ◌≢◌, ap, ◌∙◌, ◌&&◌, arith, ◌==◌, string_eq, ltb, leb, min, true,
  false, Bool-cases, Option-cases, ==-refl, ◌⊎◌, inl, inr, if◌then◌else◌,
}
use nl2sqlcopy.Core.RateLimiter.{
  RateLimiter, value_or, defaulted, full, balance, refill, take_token, consume,
}

-- The last refill of a client, `t` for one that the limiter has not met.
abbrev pub last_at : RateLimiter → String → ℕ → ℕ
last_at s ip t = value_or s.last_refill ip t

abbrev pub IsWithin : RateLimiter → String → Type 0
IsWithin s ip = balance s ip ≤ full s

value_or-put :
    (d : Dict String ℕ) (k j : String) (v x : ℕ)
    → value_or (put d k v) j x ≡ (if k == j then v else value_or d j x)
unfolding value_or
value_or-put d k j v x = ground (arith, get-put d k j v)

value_or-defaulted :
    (d : Dict String ℕ) (k j : String) (v x : ℕ)
    → value_or (defaulted d k v) j x ≡ (if k == j then value_or d j v else value_or d j x)
unfolding value_or defaulted
value_or-defaulted d k j v x =
    ground (arith, get-put d k j v, contains-get d k, string_eq.beq_iff k j)

split_elapsed :
    (last now t r : ℕ) → last ≤ now → now ≤ t → (t - now) * r + (now - last) * r ≡ (t - last) * r
split_elapsed last now t r h k =
    let whole : (t - now) + (now - last) ≡ t - last = omega arith in
    omega (arith, ap (λ (x : ℕ). x * r) whole)

later_start : (a b t r : ℕ) → a ≤ b → (t - b) * r ≤ (t - a) * r
later_start a b t r h = let p : t - b ≤ t - a = omega arith in grind arith

-- The refill in numbers: `a` is the last refill as `consume` reads it, `a'` as the window counts it.
refill_numbers :
    (cap b a a' now created t t' r : ℕ)
    → (a ≡ a') ⊎ ((a ≡ created) × (a' ≡ t))
    → t ≤ now
    → now ≤ created
    → created ≤ t'
    → (if ltb 0 ((now - a) * r) then min cap (b + (now - a) * r) else b)
        + (t' - (if ltb 0 ((now - a) * r) then now else a)) * r
      ≤ b + (t' - a') * r
refill_numbers cap b a a' now created t t' r (inl e) h1 h2 h3 = elim (Bool-cases (leb a now)) [
  | inl le ↦ ground (arith, e, split_elapsed a now t' r)
  | inr gt ↦ let z : now - a ≡ 0 = ground arith in ground (arith, e, z, ap (λ (x : ℕ). x * r) z)
]
refill_numbers cap b a a' now created t t' r (inr (e, e')) h1 h2 h3 =
    let z : now - a ≡ 0 = omega arith in
    ground (arith, e, e', z, ap (λ (x : ℕ). x * r) z, later_start t created t' r)

positive_product : (n r : ℕ) → n ≤ n * ℕ.suc r
positive_product n r = omega arith

-- The refill that is still owed after a call at `now` is none from before a window that starts at `t`.
owed_numbers :
    (a now t t' r : ℕ)
    → t ≤ now
    → (t' - (if ltb 0 ((now - a) * r) then now else a)) * r ≤ (t' - t) * r
owed_numbers a now t t' ℕ.zero h = omega arith
owed_numbers a now t t' (ℕ.suc r) h = elim (Bool-cases (leb now a)) [
  | inl idle ↦
      let still : ltb 0 ((now - a) * ℕ.suc r) ≡ false =
        let z : now - a ≡ 0 = ground arith in ground (arith, ap (λ (x : ℕ). x * ℕ.suc r) z) in
      rw still (later_start t a t' (ℕ.suc r) (ground arith))
  | inr later ↦
      let some_time : ltb 0 ((now - a) * ℕ.suc r) ≡ true =
        ground (arith, positive_product (now - a) r) in
      rw some_time (later_start t now t' (ℕ.suc r) h)
]

module _ (s : RateLimiter) (ip : String) (now created : ℕ) where
  abbrev amount : ℕ
  amount = (now - last_at s ip created) * s.refill_rate

  pub balance-refill :
      (j : String)
      → balance (refill s ip now created) j
        ≡ (if ip == j && ltb 0 amount then min (full s) (balance s j + amount) else balance s j)
  unfolding refill
  balance-refill j = ground (
    arith,
    string_eq.beq_iff ip j,
    value_or-put s.tokens ip j (min (full s) (balance s ip + amount)) (full s),
  )

  pub last_at-refill :
      (j : String) (t : ℕ)
      → last_at (refill s ip now created) j t
        ≡ (if ip == j then (if ltb 0 amount then now else last_at s j created) else last_at s j t)
  unfolding refill
  last_at-refill j t = ground (
    arith,
    value_or-defaulted s.last_refill ip j created t,
    value_or-put (defaulted s.last_refill ip created) ip j now t,
  )

  pub config-refill :
      ((refill s ip now created).capacity ≡ s.capacity)
      × ((refill s ip now created).refill_rate ≡ s.refill_rate)
      × ((refill s ip now created).scale ≡ s.scale)
  unfolding refill
  config-refill = ground arith

  balance-take :
      (r : RateLimiter) (j : String)
      → balance (take_token r ip).0 j
        ≡ (if ip == j && leb r.scale (balance r j) then balance r j - r.scale else balance r j)
  unfolding take_token
  balance-take r j = ground (
    arith,
    string_eq.beq_iff ip j,
    value_or-put r.tokens ip j (balance r ip - r.scale) (full r),
    value_or-defaulted r.tokens ip j (full r) (full r),
  )

  pub last_at-take :
      (r : RateLimiter) (j : String) (t : ℕ) → last_at (take_token r ip).0 j t ≡ last_at r j t
  unfolding take_token
  last_at-take r j t = ground arith

  pub config-take :
      (r : RateLimiter)
      → ((take_token r ip).0.capacity ≡ r.capacity)
        × ((take_token r ip).0.refill_rate ≡ r.refill_rate)
        × ((take_token r ip).0.scale ≡ r.scale)
  unfolding take_token
  config-take r = ground arith

  admits-take : (r : RateLimiter) → (take_token r ip).1 ≡ leb r.scale (balance r ip)
  unfolding take_token
  admits-take r = ground arith

  paid :
      (r : RateLimiter) (c : ℕ)
      → r.scale ≡ c
      → balance (take_token r ip).0 ip + (if (take_token r ip).1 then c else 0) ≡ balance r ip
  paid r c h = ground (arith, balance-take r ip, admits-take r, string_eq.beq_iff ip ip)

  balance-refill_self :
      balance (refill s ip now created) ip
      ≡ (if ltb 0 amount then min (full s) (balance s ip + amount) else balance s ip)
  balance-refill_self = simp (balance-refill, ==-refl)

  last_at-refill_self :
      (t : ℕ)
      → last_at (refill s ip now created) ip t
        ≡ (if ltb 0 amount then now else last_at s ip created)
  last_at-refill_self t = simp (last_at-refill, ==-refl)

  refill_potential :
      (t t' : ℕ)
      → t ≤ now
      → now ≤ created
      → created ≤ t'
      → balance (refill s ip now created) ip
          + (t' - last_at (refill s ip now created) ip t) * s.refill_rate
        ≤ balance s ip + (t' - last_at s ip t) * s.refill_rate
  unfolding value_or
  refill_potential t t' h1 h2 h3 =
      rw (balance-refill_self, last_at-refill_self)
        (refill_numbers (full s) (balance s ip) (last_at s ip created) (last_at s ip t) now created
          t t' s.refill_rate known_or_new h1 h2 h3)
    where
      known_or_new :
          (last_at s ip created ≡ last_at s ip t)
          ⊎ ((last_at s ip created ≡ created) × (last_at s ip t ≡ t))
      known_or_new = elim (Option-cases (get s.last_refill ip)) [
        | inl new ↦ inr (rw (new, value_or), rw (new, value_or))
        | inr (v, old) ↦ inl (rw (old, value_or))
      ]

  -- Where the two readings lie in order, the tokens of the client and the refill that it is still
  -- owed at `t'` never grow by a call, and an admission costs `scale`.
  pub consume_potential :
      (t t' : ℕ)
      → t ≤ now
      → now ≤ created
      → created ≤ t'
      → balance (consume s ip now created).0 ip
          + (if (consume s ip now created).1 then s.scale else 0)
          + (t' - last_at (consume s ip now created).0 ip t) * s.refill_rate
        ≤ balance s ip + (t' - last_at s ip t) * s.refill_rate
  unfolding consume
  consume_potential t t' h1 h2 h3 =
      let r = refill s ip now created in
      rw last_at-take
        (omega (arith, paid r s.scale config-refill.2, refill_potential t t' h1 h2 h3))

  -- From a bucket within the capacity, a call in a window that starts at `t` leaves no more than the
  -- capacity and the refill of the window, and an admission costs `scale`.
  pub consume_window :
      (t t' : ℕ)
      → t ≤ now
      → IsWithin s ip
      → balance (consume s ip now created).0 ip
          + (if (consume s ip now created).1 then s.scale else 0)
          + (t' - last_at (consume s ip now created).0 ip created) * s.refill_rate
        ≤ full s + (t' - t) * s.refill_rate
  unfolding consume
  consume_window t t' h within =
      let r = refill s ip now created in
      let capped : balance r ip ≤ full s = ground (arith, balance-refill_self) in
      let owed : (t' - last_at r ip created) * s.refill_rate ≤ (t' - t) * s.refill_rate =
        rw (last_at-refill_self created)
          (owed_numbers (last_at s ip created) now t t' s.refill_rate h) in
      rw last_at-take (omega (arith, paid r s.scale config-refill.2, capped, owed))

  -- Exactly when a call is admitted: the refilled bucket, capped, holds a whole token.
  pub consume_admits :
      (consume s ip now created).1
      ≡ leb s.scale (if ltb 0 amount then min (full s) (balance s ip + amount) else balance s ip)
  unfolding consume
  consume_admits =
      let r = refill s ip now created in admits-take r ∙ cc (config-refill.2, balance-refill_self)

  -- No bucket holds more than the capacity.
  pub consume-IsWithin : (j : String) → IsWithin s j → IsWithin (consume s ip now created).0 j
  unfolding consume
  consume-IsWithin j h =
      let r = refill s ip now created in
      ground (arith, balance-take r j, balance-refill j, config-take r, config-refill)

  -- A call for one client leaves the bucket and the refill time of every other as they are.
  pub consume_other :
      (j : String)
      → ip ≢ j
      → (balance (consume s ip now created).0 j ≡ balance s j)
        × ((t : ℕ) → last_at (consume s ip now created).0 j t ≡ last_at s j t)
  unfolding consume
  consume_other j ne =
      let r = refill s ip now created in
      (
        ground (arith, balance-take r j, balance-refill j, string_eq.beq_iff ip j),
        λ t. ground (arith, last_at-take r j t, last_at-refill j t, string_eq.beq_iff ip j),
      )

  pub config-consume :
      ((consume s ip now created).0.capacity ≡ s.capacity)
      × ((consume s ip now created).0.refill_rate ≡ s.refill_rate)
      × ((consume s ip now created).0.scale ≡ s.scale)
  unfolding consume
  config-consume = ground (arith, config-take (refill s ip now created), config-refill)

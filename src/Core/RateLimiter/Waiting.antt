-- ===== src/Core/RateLimiter/Waiting.antt =====
-- Clients that wait are served.
use Prim.Native.String.{String}
use nl2sqlcopy.Dict.{get}
use nl2sqlcopy.Prelude.{
  ℕ, ◌+◌, ◌-◌, ◌*◌, ◌≤◌, ◌<◌, ◌≡◌, refl, true, none, some, arith, string_eq, ltb, leb, min,
  if◌then◌else◌,
}
use nl2sqlcopy.Core.RateLimiter.{RateLimiter, value_or, full, balance, consume}
use nl2sqlcopy.Core.RateLimiter.Bucket.{last_at, consume_admits}

whole_token : (capacity scale : ℕ) → 0 < capacity → scale ≤ capacity * scale
whole_token capacity scale h = grind arith

enough :
    (cap b amount scale : ℕ)
    → scale ≤ cap
    → scale ≤ amount
    → leb scale (if ltb 0 amount then min cap (b + amount) else b) ≡ true
enough cap b amount scale h k = ground arith

untouched :
    (cap now created rate scale : ℕ)
    → now ≤ created
    → scale ≤ cap
    → leb scale
        (if ltb 0 ((now - created) * rate) then min cap (cap + (now - created) * rate) else cap)
      ≡ true
untouched cap now created rate scale order h = ground arith

-- With a positive capacity, a client is admitted once the time since its last refill is worth a
-- whole token, whatever it did before and whatever the others do.
pub consume_after_wait :
    (s : RateLimiter) (ip : String) (now created last : ℕ)
    → get s.last_refill ip ≡ some last
    → 0 < s.capacity
    → s.scale ≤ (now - last) * s.refill_rate
    → (consume s ip now created).1 ≡ true
unfolding value_or
consume_after_wait s ip now created last known positive waited =
    let at_last : last_at s ip created ≡ last = rw (known, value_or) refl in
    rw (consume_admits s ip now created) (
      enough (full s) (balance s ip) ((now - last_at s ip created) * s.refill_rate) s.scale
        (whole_token s.capacity s.scale positive) (rw at_last waited))

-- A client that the limiter does not know has a full bucket: with a positive capacity it is admitted.
consume_new_client :
    (s : RateLimiter) (ip : String) (now created : ℕ)
    → get s.last_refill ip ≡ none
    → get s.tokens ip ≡ none
    → now ≤ created
    → 0 < s.capacity
    → (consume s ip now created).1 ≡ true
unfolding value_or
consume_new_client s ip now created no_refill no_tokens order positive =
    let at_last : last_at s ip created ≡ created = rw (no_refill, value_or) refl in
    let held : balance s ip ≡ full s = rw (no_tokens, value_or) refl in
    rw (consume_admits s ip now created, at_last, held)
      (untouched (full s) now created s.refill_rate s.scale order
        (whole_token s.capacity s.scale positive))

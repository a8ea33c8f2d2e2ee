-- ===== src/Core/RateLimiter/Window.antt =====
-- What the limiter of nl2sql_service/core/rate_limiter.py admits in any window of time, whatever has
-- happened before it.
use Prim.Native.String.{String}
use mathlib.Core.Path.{subst, subst₂}
use nl2sqlcopy.Prelude.{
  ℕ, ◌+◌, ◌-◌, ◌*◌, ◌≤◌, ◌≡◌, ◌∙◌, refl, List, [], ◌∷◌, arith, ◌==◌, string_eq, Bool-cases, ==→≡,
  inl, inr, if◌then◌else◌,
}
use nl2sqlcopy.Core.RateLimiter.{RateLimiter, balance, full, consume}
use nl2sqlcopy.Core.RateLimiter.Bucket.{
  IsWithin, last_at, config-consume, consume-IsWithin, consume_window,
}
use nl2sqlcopy.Core.RateLimiter.Traffic.{
  Call, InOrder, InOrder-earlier, admitted, admitted-le_potential, charge, rescale, run,
}

-- No call changes the settings.
pub config-run :
    (s : RateLimiter) (calls : List Call)
    → ((run s calls).capacity ≡ s.capacity)
      × ((run s calls).refill_rate ≡ s.refill_rate)
      × ((run s calls).scale ≡ s.scale)
unfolding run
config-run s [] = (refl, refl, refl)
config-run s (c ∷ calls) =
    let (capacity, rate, scale) = config-consume s c.ip c.now c.created in
    let (capacity', rate', scale') = config-run (consume s c.ip c.now c.created).0 calls in
    (capacity' ∙ capacity, rate' ∙ rate, scale' ∙ scale)

-- A bound in other names of the settings.
pub resize :
    (n d : ℕ) {c c' r r' z z' : ℕ}
    → (c ≡ c') × (r ≡ r') × (z ≡ z')
    → n * z ≤ c * z + d * r
    → n * z' ≤ c' * z' + d * r'
resize n d {c} {r' = r'} {z' = z'} (capacity, rate, scale) h =
    subst (λ x. n * z' ≤ x * z' + d * r') capacity
      (subst₂ (λ x y. n * x ≤ c * x + d * y) scale rate h)

-- From any state in which the bucket of a client is within the capacity: the calls of the client
-- that are admitted between `t` and `t'` cost no more than the capacity and the refill of that time.
pub admitted-le_window :
    (s : RateLimiter) (ip : String) (t : ℕ) (calls : List Call) (t' : ℕ)
    → IsWithin s ip
    → InOrder t calls t'
    → admitted s calls ip * s.scale ≤ full s + (t' - t) * s.refill_rate
unfolding admitted
admitted-le_window s ip t [] t' within h = omega arith
admitted-le_window s ip t (c ∷ calls) t' within (h1, h2, h3) =
    let s' = (consume s c.ip c.now c.created).0 in
    let config = config-consume s c.ip c.now c.created in
    elim (Bool-cases (c.ip == ip)) [
      | inl same ↦
          let mine : c.ip ≡ ip = ==→≡ c.ip ip same in
          let admits = (consume s c.ip c.now c.created).1 in
          let within' : IsWithin s c.ip = rw mine within in
          let first : balance s' ip
                + (if admits then s.scale else 0)
                + (t' - last_at s' ip c.created) * s.refill_rate
              ≤ full s + (t' - t) * s.refill_rate =
            subst
              (λ j.
                balance s' j
                  + (if admits then s.scale else 0)
                  + (t' - last_at s' j c.created) * s.refill_rate
                ≤ full s + (t' - t) * s.refill_rate)
              mine (consume_window s c.ip c.now c.created t t' h1 within') in
          let rest : admitted s' calls ip * s.scale
              ≤ balance s' ip + (t' - last_at s' ip c.created) * s.refill_rate =
            rescale (admitted s' calls ip) (balance s' ip) (t' - last_at s' ip c.created) config.2
              config.1 (admitted-le_potential s' ip c.created calls t' h3) in
          rw same (omega (arith, charge admits (admitted s' calls ip) s.scale, first, rest))
      | inr other ↦
          let later : InOrder t calls t' = InOrder-earlier t c.created calls t' (omega arith) h3 in
          let rest : admitted s' calls ip * s.scale ≤ full s + (t' - t) * s.refill_rate =
            resize (admitted s' calls ip) (t' - t) config (
              admitted-le_window s' ip t calls t'
                (consume-IsWithin s c.ip c.now c.created ip within) later) in
          rw other (omega (arith, rest))
    ]

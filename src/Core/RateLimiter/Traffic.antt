-- ===== src/Core/RateLimiter/Traffic.antt =====
-- A sequence of calls of `consume`, by any clients, over a stretch of time.
use Prim.Native.String.{String}
use nl2sqlcopy.Prelude.{
  ℕ, ◌+◌, ◌-◌, ◌*◌, ◌≤◌, ◌≡◌, Bool, ◌&&◌, List, [], ◌∷◌, arith, ◌==◌, string_eq, Bool-cases, ==→≡,
  inl, inr, if◌then◌else◌,
}
use mathlib.Core.Path.{subst₂}
use nl2sqlcopy.Core.RateLimiter.{RateLimiter, balance, consume}
use nl2sqlcopy.Core.RateLimiter.Bucket.{
  last_at, IsWithin, consume_potential, consume_other, config-consume, consume-IsWithin,
}

pub record Call : Type 0 where
  pub ip : String
  pub now : ℕ
  pub created : ℕ

unfoldable pub run : RateLimiter → List Call → RateLimiter
run s [] = s
run s (c ∷ calls) = run (consume s c.ip c.now c.created).0 calls

-- How many calls of the client were admitted.
unfoldable pub admitted : RateLimiter → List Call → String → ℕ
admitted s [] ip = 0
admitted s (c ∷ calls) ip =
    (if c.ip == ip && (consume s c.ip c.now c.created).1 then 1 else 0)
    + admitted (consume s c.ip c.now c.created).0 calls ip

-- The readings of a monotone clock between `t` and `t'`, under the limiter's lock.
abbrev pub InOrder : ℕ → List Call → ℕ → Type 0
InOrder t [] t' = t ≤ t'
InOrder t (c ∷ calls) t' = (t ≤ c.now) × (c.now ≤ c.created) × InOrder c.created calls t'

InOrder-le : (t : ℕ) (calls : List Call) (t' : ℕ) → InOrder t calls t' → t ≤ t'
InOrder-le t [] t' h = h
InOrder-le t (c ∷ calls) t' h = omega (arith, InOrder-le c.created calls t' h.2)

-- A window may be counted from an earlier start.
pub InOrder-earlier :
    (t u : ℕ) (calls : List Call) (t' : ℕ) → t ≤ u → InOrder u calls t' → InOrder t calls t'
InOrder-earlier t u [] t' le h = omega arith
InOrder-earlier t u (c ∷ calls) t' le h = (omega arith, h.1, h.2)

-- `consume_potential`, for a call of any client.
call_potential :
    (s : RateLimiter) (j ip : String) (now created t t' : ℕ)
    → t ≤ now
    → now ≤ created
    → created ≤ t'
    → balance (consume s j now created).0 ip
        + (if j == ip && (consume s j now created).1 then s.scale else 0)
        + (t' - last_at (consume s j now created).0 ip t) * s.refill_rate
      ≤ balance s ip + (t' - last_at s ip t) * s.refill_rate
call_potential s j ip now created t t' h1 h2 h3 = elim (Bool-cases (j == ip)) [
  | inl same ↦ rw (same, ==→≡ j ip same) (consume_potential s ip now created t t' h1 h2 h3)
  | inr other ↦
      let (b, l) = consume_other s j now created ip (λ e. cc ((string_eq.beq_iff j ip).1 e)) in
      rw (other, b, l t) (omega arith)
]

pub charge : (b : Bool) (n c : ℕ) → ((if b then 1 else 0) + n) * c ≡ (if b then c else 0) + n * c
charge b n c = ground arith

pub rescale :
    (n b d : ℕ) {c c' r r' : ℕ} → c ≡ c' → r ≡ r' → n * c ≤ b + d * r → n * c' ≤ b + d * r'
rescale n b d e e' h = subst₂ (λ x y. n * x ≤ b + d * y) e e' h

pub admitted-le_potential :
    (s : RateLimiter) (ip : String) (t : ℕ) (calls : List Call) (t' : ℕ)
    → InOrder t calls t'
    → admitted s calls ip * s.scale ≤ balance s ip + (t' - last_at s ip t) * s.refill_rate
unfolding admitted
admitted-le_potential s ip t [] t' h = omega arith
admitted-le_potential s ip t (c ∷ calls) t' (h1, h2, h3) =
    let s' = (consume s c.ip c.now c.created).0 in
    let admits = c.ip == ip && (consume s c.ip c.now c.created).1 in
    let later : InOrder t calls t' = InOrder-earlier t c.created calls t' (omega arith) h3 in
    let config = config-consume s c.ip c.now c.created in
    let ih : admitted s' calls ip * s.scale
        ≤ balance s' ip + (t' - last_at s' ip t) * s.refill_rate =
      rescale (admitted s' calls ip) (balance s' ip) (t' - last_at s' ip t) config.2 config.1
        (admitted-le_potential s' ip t calls t' later) in
    omega (
      arith,
      charge admits (admitted s' calls ip) s.scale,
      call_potential s c.ip ip c.now c.created t t' h1 h2 (InOrder-le c.created calls t' h3),
      ih,
    )

-- In every state that any calls lead to from one where no bucket holds more than the capacity, no
-- bucket does.
pub run-IsWithin :
    (s : RateLimiter) (calls : List Call)
    → ((j : String) → IsWithin s j)
    → (j : String) → IsWithin (run s calls) j
unfolding run
run-IsWithin s [] h = h
run-IsWithin s (c ∷ calls) h =
    run-IsWithin (consume s c.ip c.now c.created).0 calls
      (λ j. consume-IsWithin s c.ip c.now c.created j (h j))

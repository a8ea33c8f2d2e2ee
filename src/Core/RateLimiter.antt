-- ===== src/Core/RateLimiter.antt =====
-- nl2sql_service/core/rate_limiter.py: the token bucket and the middleware in front of the routes.
-- Tokens are whole multiples of 1 / `scale` of a token, and `refill_rate` counts them per tick of
-- the clock, so the source's sums are exact here. A clock reading is an argument: `now` is the
-- reading at the head of `consume`, `created` the later one by which `defaultdict` fills
-- `last_refill` for a client that it does not know.
pub mod Bucket
pub mod Traffic
pub mod Window
pub mod Middleware
pub mod Waiting
use text.Mathlib.Text.{starts_with}
use Prim.Native.String.{String}
use nl2sqlcopy.Dict.{Dict, get, put, contains}
use nl2sqlcopy.Prelude.{
  ℕ, ◌+◌, ◌-◌, ◌*◌, min, Bool, true, false, ◌&&◌, ◌||◌, Option, none, some, List, [], Eq, ◌==◌,
  string_eq, ltb, leb, any, if◌then◌else◌,
}

pub record RateLimiter : Type 0 where
  pub capacity : ℕ
  pub refill_rate : ℕ
  pub scale : ℕ
  pub tokens : Dict String ℕ
  pub last_refill : Dict String ℕ

unfoldable pub init : ℕ → ℕ → ℕ → RateLimiter
init capacity refill_rate scale = record {
  capacity = capacity;
  refill_rate = refill_rate;
  scale = scale;
  tokens = [];
  last_refill = [];
}

-- What a read of a `defaultdict` returns, and what it leaves behind.
unfoldable pub value_or : Dict String ℕ → String → ℕ → ℕ
value_or d k default = elim (get d k) [ none ↦ default | some v ↦ v ]

unfoldable pub defaulted : Dict String ℕ → String → ℕ → Dict String ℕ
defaulted d k default = if contains d k then d else put d k default

abbrev pub full : RateLimiter → ℕ
full s = s.capacity * s.scale

-- `self.tokens[client_ip]`
abbrev pub balance : RateLimiter → String → ℕ
balance s ip = value_or s.tokens ip (full s)

-- The refill, with the read of `last_refill` that comes before it.
unfoldable pub refill : RateLimiter → String → ℕ → ℕ → RateLimiter
refill s ip now created =
    let last = value_or s.last_refill ip created in
    let known = defaulted s.last_refill ip created in
    let amount = (now - last) * s.refill_rate in
    if ltb 0 amount
    then record s {
      tokens = put s.tokens ip (min (full s) (balance s ip + amount));
      last_refill = put known ip now;
    }
    else record s { last_refill = known }

-- `if self.tokens[client_ip] >= 1.0`, where 1.0 is `scale` units
unfoldable pub take_token : RateLimiter → String → RateLimiter × Bool
take_token s ip =
    if leb s.scale (balance s ip)
    then (record s { tokens = put s.tokens ip (balance s ip - s.scale) }, true)
    else (record s { tokens = defaulted s.tokens ip (full s) }, false)

unfoldable pub consume : RateLimiter → String → ℕ → ℕ → RateLimiter × Bool
consume s ip now created = take_token (refill s ip now created) ip

pub data Response : Type 0 where
  forwarded too_many_requests : Response

unfoldable pub is_forwarded : Response → Bool
is_forwarded forwarded = true
is_forwarded too_many_requests = false

pub record Request : Type 0 where
  pub path : String
  pub client : Option String
  pub hostname : String

-- `request.client.host if request.client else "unknown"`
unfoldable pub client_ip : Request → String
client_ip r = elim r.client [ none ↦ "unknown" | some host ↦ host ]

-- `dispatch`, with the limiter as the state: `forwarded` stands for `await call_next(request)`.
unfoldable pub dispatch : RateLimiter → List String → Request → ℕ → ℕ → RateLimiter × Response
unfolding client_ip
dispatch s paths_to_limit r now created =
    if any (λ p. starts_with r.path p) paths_to_limit
    then (if r.hostname == "testserver" || client_ip r == "testclient"
        then (s, forwarded)
        else (let (s', admitted) = consume s (client_ip r) now created in
            if admitted then (s', forwarded) else (s', too_many_requests)))
    else (s, forwarded)

-- ===== src/Core/RateLimiter/Middleware.antt =====
-- The middleware over a stream of requests: what it forwards is what the limiter admits.
use Prim.Native.String.{String}
use text.Mathlib.Text.{starts_with}
use nl2sqlcopy.Prelude.{
  ℕ, ◌+◌, ◌-◌, ◌*◌, ◌≤◌, ◌≡◌, refl, Bool, ◌&&◌, ◌||◌, not, List, [], ◌∷◌, arith, ◌==◌, string_eq,
  Bool-cases, inl, inr, if◌then◌else◌, any,
}
use nl2sqlcopy.Core.RateLimiter.{
  RateLimiter, init, value_or, consume, Request, client_ip, forwarded, too_many_requests,
  is_forwarded, dispatch,
}
use nl2sqlcopy.Core.RateLimiter.Traffic.{
  Call, run, run-IsWithin, admitted, InOrder, InOrder-earlier,
}
use nl2sqlcopy.Core.RateLimiter.Window.{config-run, resize, admitted-le_window}
use nl2sqlcopy.Dict.{get}

pub record Arrival : Type 0 where
  pub request : Request
  pub now : ℕ
  pub created : ℕ

-- A request that the limiter counts: a limited path, and no test client.
unfoldable pub is_counted : List String → Request → Bool
is_counted paths r =
    any (λ p. starts_with r.path p) paths
    && not (r.hostname == "testserver" || client_ip r == "testclient")

-- `dispatch` answers 429 exactly when a counted request is refused by the limiter, and leaves the
-- limiter alone for every other request.
dispatch-consume :
    (s : RateLimiter) (paths : List String) (r : Request) (now created : ℕ)
    → dispatch s paths r now created ≡ (
        if is_counted paths r
        then (
          (consume s (client_ip r) now created).0,
          if (consume s (client_ip r) now created).1 then forwarded else too_many_requests,
        )
        else (s, forwarded))
unfolding dispatch is_counted
dispatch-consume s paths r now created = ground arith

module _ (paths : List String) where
  -- The counted requests of a client that are forwarded.
  unfoldable pub forwards : RateLimiter → List Arrival → String → ℕ
  forwards s [] ip = 0
  forwards s (a ∷ arrivals) ip =
      (if is_counted paths a.request
          && client_ip a.request == ip
          && is_forwarded (dispatch s paths a.request a.now a.created).1
        then 1
        else 0)
      + forwards (dispatch s paths a.request a.now a.created).0 arrivals ip

  calls_of : List Arrival → List Call
  calls_of [] = []
  calls_of (a ∷ arrivals) =
      if is_counted paths a.request
      then record { ip = client_ip a.request; now = a.now; created = a.created } ∷ calls_of arrivals
      else calls_of arrivals

  forwards-admitted :
      (s : RateLimiter) (arrivals : List Arrival) (ip : String)
      → forwards s arrivals ip ≡ admitted s (calls_of arrivals) ip
  unfolding forwards calls_of admitted is_forwarded
  forwards-admitted s [] ip = refl
  forwards-admitted s (a ∷ arrivals) ip =
      let s' = (consume s (client_ip a.request) a.now a.created).0 in
      ground (
        arith,
        dispatch-consume s paths a.request a.now a.created,
        forwards-admitted s arrivals ip,
        forwards-admitted s' arrivals ip,
      )

  -- The readings of a monotone clock at the arrivals.
  abbrev pub ArriveInOrder : ℕ → List Arrival → ℕ → Type 0
  ArriveInOrder t [] t' = t ≤ t'
  ArriveInOrder t (a ∷ arrivals) t' =
      (t ≤ a.now) × (a.now ≤ a.created) × ArriveInOrder a.created arrivals t'

  calls_of-InOrder :
      (t : ℕ) (arrivals : List Arrival) (t' : ℕ)
      → ArriveInOrder t arrivals t'
      → InOrder t (calls_of arrivals) t'
  unfolding calls_of
  calls_of-InOrder t [] t' h = h
  calls_of-InOrder t (a ∷ arrivals) t' (h1, h2, h3) =
      let ih = calls_of-InOrder a.created arrivals t' h3 in
      elim (Bool-cases (is_counted paths a.request)) [
        | inl counted ↦ rw counted (h1, h2, ih)
        | inr free ↦ rw free (InOrder-earlier t a.created (calls_of arrivals) t' (omega arith) ih)
      ]

  -- The limiter after some requests.
  unfoldable pub after : RateLimiter → List Arrival → RateLimiter
  after s [] = s
  after s (a ∷ arrivals) = after (dispatch s paths a.request a.now a.created).0 arrivals

  after-run :
      (s : RateLimiter) (arrivals : List Arrival) → after s arrivals ≡ run s (calls_of arrivals)
  unfolding after calls_of run
  after-run s [] = refl
  after-run s (a ∷ arrivals) =
      let passed = dispatch-consume s paths a.request a.now a.created in
      elim (Bool-cases (is_counted paths a.request)) [
        | inl counted ↦
            rw (passed, counted)
              (after-run (consume s (client_ip a.request) a.now a.created).0 arrivals)
        | inr free ↦ rw (passed, free) (after-run s arrivals)
      ]

  -- Whatever the clients sent to a fresh limiter before, at whatever times, and whatever they send
  -- then: between any `t` and `t'`, on a monotone clock, the middleware forwards no more counted
  -- requests of one client than the burst capacity and the refill of that time allow.
  pub forwards_bound :
      (capacity refill_rate scale : ℕ) (ip : String) (earlier : List Arrival) (t : ℕ)
      (arrivals : List Arrival) (t' : ℕ)
      → ArriveInOrder t arrivals t'
      → forwards (after (init capacity refill_rate scale) earlier) arrivals ip * scale
        ≤ capacity * scale + (t' - t) * refill_rate
  unfolding init value_or get
  forwards_bound capacity refill_rate scale ip earlier t arrivals t' h =
      let start = init capacity refill_rate scale in
      let calls = calls_of earlier in
      let within = run-IsWithin start calls (λ j. omega arith) ip in
      let n = admitted (run start calls) (calls_of arrivals) ip in
      rw (after-run, forwards-admitted)
        (resize n (t' - t) (config-run start calls) (
          admitted-le_window (run start calls) ip t (calls_of arrivals) t' within
            (calls_of-InOrder t arrivals t' h)))

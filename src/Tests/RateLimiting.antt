-- ===== src/Tests/RateLimiting.antt =====
-- The rate limiter over two requests of one client, and the theorems at them.
use Prim.Native.String.{String}
use nl2sqlcopy.Prelude.{
  true, ◌+◌, ◌-◌, ◌*◌, ◌≤◌, ◌≡◌, ◌≢◌, refl, some, List, [], ◌∷◌, arith, if◌then◌else◌, string_eq,
}
use nl2sqlcopy.Dict.{get, put, contains}
use nl2sqlcopy.Core.RateLimiter.{
  RateLimiter, init, value_or, defaulted, balance, refill, take_token, consume, Request, client_ip,
  is_forwarded, dispatch,
}
use nl2sqlcopy.Core.RateLimiter.Bucket.{last_at, IsWithin, consume_potential}
use nl2sqlcopy.Core.RateLimiter.Waiting.{consume_after_wait}
use nl2sqlcopy.Core.RateLimiter.Traffic.{run, run-IsWithin}
use nl2sqlcopy.Core.RateLimiter.Middleware.{
  Arrival, ArriveInOrder, is_counted, forwards, after, forwards_bound,
}

program : Unit {0}
unfolding get put contains init value_or defaulted refill take_token consume client_ip is_forwarded
    dispatch run is_counted forwards
program = tt

abbrev limiter : RateLimiter
limiter = init 1 1 2

abbrev ask : Request
ask = record { path = "/ask"; client = some "10.0.0.1"; hostname = "api" }

abbrev paths : List String
paths = "/ask" ∷ []

abbrev arrivals : List Arrival
arrivals =
    record { request = ask; now = 0; created = 0 }
    ∷ record { request = ask; now = 1; created = 1 }
    ∷ record { request = ask; now = 3; created = 3 }
    ∷ []

forwards_two : forwards paths limiter arrivals "10.0.0.1" ≡ 2
unfolding program
forwards_two = refl

arrivals_in_order : ArriveInOrder paths 0 arrivals 3
arrivals_in_order =
    (omega arith, omega arith, (omega arith, omega arith, (omega arith, omega arith, omega arith)))

abbrev before : List Arrival
before = record { request = ask; now = 0; created = 0 } ∷ []

forwards_bound_example :
    forwards paths (after paths (init 1 1 2) before) arrivals "10.0.0.1" * 2 ≤ 1 * 2 + (3 - 0) * 1
forwards_bound_example = forwards_bound paths 1 1 2 "10.0.0.1" before 0 arrivals 3 arrivals_in_order

limiter-IsWithin : (j : String) → IsWithin limiter j
unfolding program
limiter-IsWithin j = omega arith

run-IsWithin_example :
    IsWithin (run limiter (record { ip = "10.0.0.1"; now = 0; created = 0 } ∷ [])) "10.0.0.1"
run-IsWithin_example =
    run-IsWithin limiter (record { ip = "10.0.0.1"; now = 0; created = 0 } ∷ []) limiter-IsWithin
      "10.0.0.1"

consume_potential_example :
    balance (consume limiter "10.0.0.1" 1 1).0 "10.0.0.1"
      + (if (consume limiter "10.0.0.1" 1 1).1 then limiter.scale else 0)
      + (5 - last_at (consume limiter "10.0.0.1" 1 1).0 "10.0.0.1" 0) * limiter.refill_rate
    ≤ balance limiter "10.0.0.1" + (5 - last_at limiter "10.0.0.1" 0) * limiter.refill_rate
consume_potential_example =
    consume_potential limiter "10.0.0.1" 1 1 0 5 (omega arith) (omega arith) (omega arith)

abbrev host : String
host = "10.0.0.1"

abbrev other_host : String
other_host = "10.0.0.2"

hosts_differ : host ≢ other_host
hosts_differ e = cc ((string_eq.beq_iff host other_host).1 e)

abbrev emptied : RateLimiter
emptied = record {
  capacity = 1;
  refill_rate = 1;
  scale = 2;
  tokens = (host, 0) ∷ [];
  last_refill = (host, 4) ∷ [];
}

last_run : get emptied.last_refill host ≡ some 4
unfolding program
last_run = refl

consume_after_wait_example : (consume emptied host 6 6).1 ≡ true
consume_after_wait_example =
    consume_after_wait emptied host 6 6 4 last_run (omega arith) (omega arith)

-- ===== src/Middleware/RateLimit.antt =====
-- The token buckets of `RateLimit` of internal/middleware/middleware.go.
-- The floating-point product `int(elapsed.Minutes() * float64(requestsPerMinute))` is a parameter,
-- a function of the elapsed nanoseconds and the limit. The clock of Go is monotonic, so an elapsed
-- time is not negative, and the count of tokens stays a natural number.
pub mod Limits
pub mod Starvation
use oximetric.Base.{
  ℕ, ◌+◌, ◌-◌, Str, Bool, true, false, List, [], ◌∷◌, Option, none, some, ltb, nat_beq,
  if◌then◌else◌, is_empty, lookup, insert, str_eq,
}
use oximetric.Model.{Time}

pub record Bucket : Type 0 where
  pub tokens : ℕ
  pub last : Time

abbrev pub Buckets : Type 0
Buckets = List (Str × Bucket)

-- A request as the limiter sees it, with the three readings of the clock that its turn makes.
pub record Arrival : Type 0 where
  pub x_token : Str
  pub remote_addr : Str
  pub created_at : Time
  pub measured_at : Time
  pub stored_at : Time

unfoldable pub bucket_key : Arrival → Str
bucket_key a = if is_empty a.x_token then a.remote_addr else a.x_token

module _ (refill : ℕ → ℕ → ℕ) (requests_per_minute : ℕ) where
  -- The bucket of the request, made full if it is not there.
  pub found_bucket : Arrival → Option Bucket → Bucket
  found_bucket a none = record { tokens = requests_per_minute; last = a.created_at }
  found_bucket a (some b) = b

  -- The tokens after the refill, capped.
  pub refilled : Arrival → Bucket → ℕ
  refilled a b =
      let n = b.tokens + refill (a.measured_at - b.last) requests_per_minute in
      if ltb requests_per_minute n then requests_per_minute else n

  -- One turn under the mutex: whether the request goes on, and the bucket that is left.
  pub take_token : Arrival → Bucket → Bool × Bucket
  take_token a b =
      let n = refilled a b in
      if nat_beq n 0
      then (false, record { tokens = n; last = a.stored_at })
      else (true, record { tokens = n - 1; last = a.stored_at })

  unfoldable pub rate_limit : Arrival → Buckets → Bool × Buckets
  unfolding found_bucket refilled take_token
  rate_limit a buckets =
      let (passed, b) = take_token a (found_bucket a (lookup (bucket_key a) buckets)) in
      (passed, insert (bucket_key a) b buckets)

  -- The answers to a sequence of requests, in order.
  unfoldable pub answers : List Arrival → Buckets → List Bool
  answers [] buckets = []
  answers (a ∷ rest) buckets = (rate_limit a buckets).0 ∷ answers rest (rate_limit a buckets).1

-- ===== src/Examples/RateLimit.antt =====
-- A limit of 60 requests per minute, with an exact refill.
use Prim.Native.Nat.{◌/◌, min}
use oximetric.Base.{
  ℕ, ◌-◌, ◌*◌, ◌+◌, ◌≤◌, Str, lit, true, false, List, [], ◌∷◌, some, none, ◌≡◌, ◌≢◌, refl, All,
  arith, lookup, str_eq, str_beq,
}
use oximetric.Middleware.RateLimit.{Bucket, Buckets, Arrival, bucket_key, answers}
use oximetric.Middleware.RateLimit.Limits.{minute, passes, rate_limit_bounded}
use oximetric.Middleware.RateLimit.Starvation.{rate_limit_starves, rate_limit_evaded}

abbrev refill : ℕ → ℕ → ℕ
refill elapsed limit = elapsed * limit / minute

refill_earned : (e : ℕ) → min (refill e 60) 60 * minute ≤ e * 60
refill_earned e = omega arith

abbrev arrival : Str → ℕ → Arrival
arrival key at = record {
  x_token = key;
  remote_addr = lit "10.0.0.1:5";
  created_at = at;
  measured_at = at;
  stored_at = at;
}

abbrev empty_bucket : Bucket
empty_bucket = record { tokens = 0; last = 1 }

abbrev one_client : Buckets
one_client = (lit "a", empty_bucket) ∷ []

-- The client asks twice, 1 ns apart.
abbrev hasty : List Arrival
hasty = arrival (lit "a") 2 ∷ arrival (lit "a") 3 ∷ []

found : lookup (lit "a") one_client ≡ some empty_bucket
unfolding lookup lit str_beq
found = refl

other : bucket_key (arrival (lit "b") 2) ≢ lit "a"
unfolding bucket_key lit
other e = ground arith

hasty-SameKey : All (λ a. bucket_key a ≡ lit "a") hasty
unfolding bucket_key lit
hasty-SameKey = (refl, (refl, tt))

rate_limit_bounded_example :
    passes (answers refill 60 hasty one_client) * minute ≤ 0 * minute + (4 - 1) * 60
rate_limit_bounded_example =
    rate_limit_bounded refill 60 refill_earned (lit "a") hasty one_client empty_bucket 4 found
      hasty-SameKey (omega arith, omega arith, (omega arith, omega arith, omega arith))

rate_limit_starves_example : All (λ r. r ≡ false) (answers refill 60 hasty one_client)
rate_limit_starves_example =
    rate_limit_starves refill 60 (lit "a") hasty one_client empty_bucket found refl hasty-SameKey
      (refl, (refl, tt))

fresh_b : lookup (bucket_key (arrival (lit "b") 2)) one_client ≡ none
unfolding bucket_key lookup lit str_beq
fresh_b = refl

fresh_c : lookup (bucket_key (arrival (lit "c") 2)) one_client ≡ none
unfolding bucket_key lookup lit str_beq
fresh_c = refl

distinct : bucket_key (arrival (lit "b") 2) ≢ bucket_key (arrival (lit "c") 2)
unfolding bucket_key lit
distinct e = ground arith

rate_limit_evaded_example :
    All
      (λ r. r ≡ true)
      (answers refill 60 (arrival (lit "b") 2 ∷ arrival (lit "c") 2 ∷ []) one_client)
rate_limit_evaded_example =
    rate_limit_evaded refill 60 (arrival (lit "b") 2 ∷ arrival (lit "c") 2 ∷ []) one_client
      (omega arith) (fresh_b, (distinct, tt), (fresh_c, tt, tt))

-- ===== src/Middleware/RateLimit/Starvation.antt =====
-- Two ways in which the buckets do not do what a limit per minute means to do.
use oximetric.Base.{
  ℕ, ◌-◌, ◌<◌, Str, true, false, List, [], ◌∷◌, none, some, lookup, str_eq, ◌≡◌, ◌≢◌, refl, ◌∙◌,
  arith, All,
}
use oximetric.Model.{Time}
use oximetric.Middleware.RateLimit.{
  Bucket, Buckets, Arrival, bucket_key, found_bucket, refilled, take_token, rate_limit, answers,
}
use oximetric.Middleware.RateLimit.Limits.{SameKey, turns, answers-eq-turns, rate_limit_isolated}

module _ (refill : ℕ → ℕ → ℕ) (limit : ℕ) where
  -- Every request comes before a whole token has grown since the request before it.
  abbrev pub TooSoon : Time → List Arrival → Type 0
  TooSoon last [] = Unit {0}
  TooSoon last (a ∷ rest) = (refill (a.measured_at - last) limit ≡ 0) × TooSoon a.stored_at rest

  take_token_starved :
      (a : Arrival) (b : Bucket)
      → b.tokens ≡ 0
      → refill (a.measured_at - b.last) limit ≡ 0
      → take_token refill limit a b ≡ (false, record { tokens = 0; last = a.stored_at })
  unfolding take_token refilled
  take_token_starved a b e h = ground arith

  turns_starved :
      (arrivals : List Arrival) (b : Bucket)
      → b.tokens ≡ 0
      → TooSoon b.last arrivals
      → All (λ r. r ≡ false) (turns refill limit arrivals b)
  unfolding turns
  turns_starved [] b e h = tt
  turns_starved (a ∷ rest) b e (h, hs) =
      rw (take_token_starved a b e h)
        (refl, turns_starved rest (record { tokens = 0; last = a.stored_at }) refl hs)

  -- A client whose bucket is empty, and that keeps asking before a whole token has grown since its
  -- last request, is refused every time, for however long: a refused request resets the time from
  -- which the refill is counted.
  pub rate_limit_starves :
      (key : Str) (arrivals : List Arrival) (buckets : Buckets) (b : Bucket)
      → lookup key buckets ≡ some b
      → b.tokens ≡ 0
      → SameKey key arrivals
      → TooSoon b.last arrivals
      → All (λ r. r ≡ false) (answers refill limit arrivals buckets)
  rate_limit_starves key arrivals buckets b e empty same h =
      rw (answers-eq-turns refill limit key arrivals buckets b same e)
        (turns_starved arrivals b empty h)

  -- Every request counts under a key that has no bucket yet, and no two under the same.
  abbrev pub FreshKeys : List Arrival → Buckets → Type 0
  FreshKeys [] buckets = Unit {0}
  FreshKeys (a ∷ rest) buckets =
      (lookup (bucket_key a) buckets ≡ none)
      × All (λ later. bucket_key a ≢ bucket_key later) rest
      × FreshKeys rest buckets

  FreshKeys-step :
      (a : Arrival) (arrivals : List Arrival) (buckets : Buckets)
      → All (λ later. bucket_key a ≢ bucket_key later) arrivals
      → FreshKeys arrivals buckets
      → FreshKeys arrivals (rate_limit refill limit a buckets).1
  FreshKeys-step a [] buckets h k = tt
  FreshKeys-step a (later ∷ rest) buckets (h, hs) (k, ks, kss) = (
    rate_limit_isolated refill limit a buckets (bucket_key later) h ∙ k,
    ks,
    FreshKeys-step a rest buckets hs kss,
  )

  rate_limit_fresh :
      (a : Arrival) (buckets : Buckets)
      → 0 < limit
      → lookup (bucket_key a) buckets ≡ none
      → (rate_limit refill limit a buckets).0 ≡ true
  unfolding rate_limit take_token refilled found_bucket
  rate_limit_fresh a buckets h e = rw (e, found_bucket) (ground arith)

  -- The client chooses the key of its bucket, for the limiter reads the X-Token header before it
  -- looks at the address, whether or not the route checks that token: requests that each bring a
  -- new key are all let through, however many and however fast.
  pub rate_limit_evaded :
      (arrivals : List Arrival) (buckets : Buckets)
      → 0 < limit
      → FreshKeys arrivals buckets
      → All (λ r. r ≡ true) (answers refill limit arrivals buckets)
  unfolding answers
  rate_limit_evaded [] buckets h k = tt
  rate_limit_evaded (a ∷ rest) buckets h (k, ks, kss) = (
    rate_limit_fresh a buckets h k,
    rate_limit_evaded rest (rate_limit refill limit a buckets).1 h
        (FreshKeys-step a rest buckets ks kss),
  )

-- ===== src/Middleware/RateLimit/Limits.antt =====
-- What the buckets guarantee: clients do not disturb one another, and a client gets no more than
-- its limit and what time has earned it.
use Prim.Native.Nat.{min}
use native.Mathlib.Nat.{mul-le-mul_right}
use oximetric.Base.{
  ℕ, suc, ◌+◌, ◌-◌, ◌*◌, ◌≤◌, Str, Bool, true, false, List, [], ◌∷◌, some, lookup, str_eq, eq_iff,
  eq_refl, lookup-insert, ◌≡◌, ◌≢◌, refl, ap, ◌∙◌, arith, All,
}
use oximetric.Model.{Time}
use oximetric.Middleware.RateLimit.{
  Bucket, Buckets, Arrival, bucket_key, found_bucket, refilled, take_token, rate_limit, answers,
}

-- The nanoseconds of a minute.
abbrev pub minute : ℕ
minute = 60000000000

-- How many requests were let through.
abbrev pub passes : List Bool → ℕ
passes [] = 0
passes (true ∷ bs) = suc (passes bs)
passes (false ∷ bs) = passes bs

-- All requests of a sequence count under one key.
abbrev pub SameKey : Str → List Arrival → Type 0
SameKey key = All (λ a. bucket_key a ≡ key)

-- The clock does not run backwards from a bucket's last turn to a later time.
abbrev pub InOrder : Time → List Arrival → Time → Type 0
InOrder last [] end = last ≤ end
InOrder last (a ∷ rest) end =
    (last ≤ a.measured_at) × (a.measured_at ≤ a.stored_at) × InOrder a.stored_at rest end

passes-cons : (b : Bool) (bs : List Bool) → passes (b ∷ bs) ≡ passes (b ∷ []) + passes bs
passes-cons true bs = omega arith
passes-cons false bs = omega arith

InOrder-le :
    (last : Time) (arrivals : List Arrival) (end : Time) → InOrder last arrivals end → last ≤ end
InOrder-le last [] end h = h
InOrder-le last (a ∷ rest) end (h, k, hs) = omega (arith, InOrder-le a.stored_at rest end hs)

-- The accounts of one turn and of the later turns, added up.
add_up :
    (m r p t tokens gain spent later total rest : ℕ)
    → p + t ≤ tokens + gain
    → gain * m ≤ spent * r
    → rest * m ≤ t * m + later * r
    → spent + later ≤ total
    → (p + rest) * m ≤ tokens * m + total * r
add_up m r p t tokens gain spent later total rest h k l e =
    omega (arith, mul-le-mul_right m h, mul-le-mul_right r e)

module _ (refill : ℕ → ℕ → ℕ) (limit : ℕ) where
  -- A request leaves the buckets of the other clients as they are.
  pub rate_limit_isolated :
      (a : Arrival) (buckets : Buckets) (key : Str)
      → bucket_key a ≢ key
      → lookup key (rate_limit refill limit a buckets).1 ≡ lookup key buckets
  unfolding rate_limit
  rate_limit_isolated a buckets key h =
      lookup-insert (bucket_key a) key _ buckets ∙ ground (arith, eq_iff (bucket_key a) key)

  -- The turns of one bucket.
  unfoldable pub turns : List Arrival → Bucket → List Bool
  turns [] b = []
  turns (a ∷ rest) b = (take_token refill limit a b).0 ∷ turns rest (take_token refill limit a b).1

  -- The answers under one key are the turns of its bucket.
  pub answers-eq-turns :
      (key : Str) (arrivals : List Arrival) (buckets : Buckets) (b : Bucket)
      → SameKey key arrivals
      → lookup key buckets ≡ some b
      → answers refill limit arrivals buckets ≡ turns arrivals b
  unfolding answers turns rate_limit found_bucket
  answers-eq-turns key [] buckets b h e = refl
  answers-eq-turns key (a ∷ rest) buckets b (h, hs) e =
      rw (h, e)
        (ap (λ t. (take_token refill limit a b).0 ∷ t)
          (answers-eq-turns key rest _ _ hs (lookup-insert key key _ buckets ∙ rw (eq_refl key))))

  -- A turn takes at most what the bucket had and what the elapsed time gave, up to the limit.
  take_token_cost :
      (a : Arrival) (b : Bucket)
      → passes ((take_token refill limit a b).0 ∷ []) + (take_token refill limit a b).1.tokens
        ≤ b.tokens + min (refill (a.measured_at - b.last) limit) limit
  unfolding take_token refilled
  take_token_cost a b = ground arith

  last-take_token : (a : Arrival) (b : Bucket) → (take_token refill limit a b).1.last ≡ a.stored_at
  unfolding take_token
  last-take_token a b = ground arith

  module _ (earned : (e : ℕ) → min (refill e limit) limit * minute ≤ e * limit) where
    turns_bounded :
        (arrivals : List Arrival) (b : Bucket) (end : Time)
        → InOrder b.last arrivals end
        → passes (turns arrivals b) * minute ≤ b.tokens * minute + (end - b.last) * limit
    unfolding turns
    turns_bounded [] b end h = omega arith
    turns_bounded (a ∷ rest) b end (h, k, hs) =
        let e = last-take_token a b in
        let b' = (take_token refill limit a b).1 in
        let gain = min (refill (a.measured_at - b.last) limit) limit in
        rw (passes-cons (take_token refill limit a b).0) (
          add_up minute limit (passes ((take_token refill limit a b).0 ∷ [])) b'.tokens b.tokens
            gain (a.measured_at - b.last) (end - b'.last) (end - b.last) (passes (turns rest b'))
            (take_token_cost a b) (earned (a.measured_at - b.last))
            (turns_bounded rest b' end (rw e hs))
            (omega (arith, e, InOrder-le a.stored_at rest end hs)))

    -- In any stretch of time, the requests that are let through under one key number at most the
    -- tokens that its bucket held and the limit's share of the elapsed time. The requests' readings
    -- of the clock are in order; the refill, capped at the limit, is at most the exact product.
    pub rate_limit_bounded :
        (key : Str) (arrivals : List Arrival) (buckets : Buckets) (b : Bucket) (end : Time)
        → lookup key buckets ≡ some b
        → SameKey key arrivals
        → InOrder b.last arrivals end
        → passes (answers refill limit arrivals buckets) * minute
          ≤ b.tokens * minute + (end - b.last) * limit
    rate_limit_bounded key arrivals buckets b end e same order =
        rw (answers-eq-turns key arrivals buckets b same e) (turns_bounded arrivals b end order)

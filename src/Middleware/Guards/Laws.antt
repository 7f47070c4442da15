-- ===== src/Middleware/Guards/Laws.antt =====
-- The chain `JWTAuth`, `RequireRole` before a console route, and `TokenAuth` before a tracking route.
use oximetric.Base.{
  ℕ, ◌+◌, ◌≤◌, ℤ, Str, lit, true, ◌++◌, Option, some, ◌≡◌, refl, ◌⊎◌, inl, inr, Bool-cases,
  Option-cases, has_prefix, trim_prefix, leb, leb→le, le→leb,
}
use oximetric.Base.Strings.Laws.{has_prefix-append, trim_prefix-append}
use oximetric.Model.{Time}
use oximetric.Auth.{
  Claims, Crypto, SigningMethod, generate_jwt, jwt_lifetime, validate_jwt, jwt_key,
}
use oximetric.Http.{Response, Step, Handler, unauthorized, forbidden}
use oximetric.Middleware.Guards.{rank, has_min_role, jwt_auth, require_role}

abbrev pub second : ℕ
second = 1000000000

-- The claims name the same user. The times may differ: a NumericDate keeps whole seconds.
abbrev pub SameUser : Claims → Claims → Type 0
SameUser a b = (a.user_id ≡ b.user_id) × (a.username ≡ b.username) × (a.role ≡ b.role)

-- What golang-jwt documents of a token that it signed with HS256: until it expires, parsing it with
-- the key gives its claims.
abbrev pub ParsesSigned : Crypto → Type 0
ParsesSigned crypto =
    (key token : Str) (claims : Claims) (now : Time) (key_of : SigningMethod → Option Str)
    → crypto.jwt_sign key claims ≡ some token
    → key_of SigningMethod.hmac ≡ some key
    → now + second ≤ claims.expires_at
    → (parsed : Claims) × SameUser parsed claims
      × (crypto.jwt_parse now token key_of ≡ some (parsed, true))

module _ {S : Type 0} (crypto : Crypto) (secret : Str) (min_role : Str) where
  -- A route of the console behind its guards.
  abbrev pub guarded : Time → Str → (Option Claims → Handler S) → Handler S
  guarded now authorization next =
      jwt_auth crypto secret now authorization
        (λ claims. require_role min_role claims (next claims))

  -- With a library that parses what it signed, the token that a login hands out opens every route
  -- whose least role the user has, for four hours less a second; the route learns the user that the
  -- token was made for.
  pub guarded-generate_jwt :
      (at now : Time) (id : ℤ) (username role token : Str) (next : Option Claims → Handler S)
      (s : S)
      → ParsesSigned crypto
      → generate_jwt crypto secret at id username role ≡ some token
      → now + second ≤ at + jwt_lifetime
      → rank min_role ≤ rank role
      → (claims : Claims) × ((claims.user_id ≡ id)
          × (claims.username ≡ username)
          × (claims.role ≡ role))
        × (guarded now (lit "Bearer " ++ token) next s ≡ next (some claims) s)
  unfolding generate_jwt jwt_auth validate_jwt jwt_key require_role has_min_role
  guarded-generate_jwt at now id username role token next s parses signed fresh allowed =
      let (claims, (i, u, r), parsed) =
        parses secret token
          (record {
            user_id = id;
            username = username;
            role = role;
            expires_at = at + jwt_lifetime;
            issued_at = at;
          })
          now (jwt_key crypto secret) signed refl fresh in
      let validated : validate_jwt crypto secret now token ≡ some claims =
        rw (validate_jwt, parsed) refl in
      let allowed_claims : leb (rank min_role) (rank claims.role) ≡ true =
        rw r (le→leb (rank min_role) (rank role) allowed) in
      (
        claims,
        (i, u, r),
        rw
            (
              has_prefix-append (lit "Bearer ") token,
              trim_prefix-append (lit "Bearer ") token,
              validated,
              allowed_claims,
            )
            refl,
      )

  -- What a route answers is an error of the guards that leaves the store alone, or it is what the
  -- route itself answers to a user whose token is valid now and whose role has the rank asked for.
  pub guarded_decides :
      (now : Time) (authorization : Str) (next : Option Claims → Handler S) (s : S)
      → ((claims : Claims) × (validate_jwt crypto secret now
              (trim_prefix authorization (lit "Bearer "))
            ≡ some claims)
          × (rank min_role ≤ rank claims.role)
          × (guarded now authorization next s ≡ next (some claims) s))
        ⊎ ((r : Response) × (guarded now authorization next s ≡ (s, Step.reply r))
            × ((r.status ≡ 401) ⊎ (r.status ≡ 403)))
  unfolding jwt_auth require_role has_min_role
  guarded_decides now authorization next s =
      elim (Bool-cases (has_prefix authorization (lit "Bearer "))) [
        | inr e ↦
            inr (unauthorized (lit "missing or invalid Authorization header"), rw e refl, inl refl)
        | inl e ↦
            elim (Option-cases
              (validate_jwt crypto secret now (trim_prefix authorization (lit "Bearer ")))) [
                | inl n ↦
                    inr (unauthorized (lit "invalid or expired token"), rw (e, n) refl, inl refl)
                | inr (claims, v) ↦ elim (Bool-cases (leb (rank min_role) (rank claims.role))) [
                  | inl r ↦ inl (claims, v, leb→le _ _ r, rw (e, v, r) refl)
                  | inr r ↦
                      inr (forbidden (lit "insufficient permissions"), rw (e, v, r) refl, inr refl)
                ]
              ]
      ]

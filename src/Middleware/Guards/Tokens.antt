-- ===== src/Middleware/Guards/Tokens.antt =====
-- What `TokenAuth` lets through to a tracking route.
use oximetric.Base.{
  ℤ, Str, lit, true, List, [], ◌∷◌, ◌≡◌, refl, ◌⊎◌, inl, inr, Bool-cases, is_empty,
}
use oximetric.Model.{ProjectToken}
use oximetric.Storage.Store.{Store, StoreError, Result, ok, err}
use oximetric.Http.{Response, Step, Handler, unauthorized, forbidden}
use oximetric.Middleware.Origin.{match_origin}
use oximetric.Middleware.Guards.{with_headers, echo_origin, with_origin, token_auth}

Result-cases {ℓ} :
    {A : Type ℓ} (r : Result A) → ((a : A) × (r ≡ ok a)) ⊎ ((e : StoreError) × (r ≡ err e))
Result-cases (ok a) = inl (a, refl)
Result-cases (err e) = inr (e, refl)

is_empty-eq {ℓ} : {A : Type ℓ} (xs : List A) → is_empty xs ≡ true → xs ≡ []
is_empty-eq [] h = refl
is_empty-eq (x ∷ xs) h = cc

module _ (store : Store) (x_token origin : Str) (next : ℤ → Handler store.S) (s : store.S) where
  -- The answer of the guard, and the lookup of the token.
  abbrev answer : store.S × Step (Unit {0})
  answer = token_auth store.get_project_token_by_token x_token origin next s

  abbrev looked_up : store.S × Result ProjectToken
  looked_up = store.get_project_token_by_token x_token s

  -- A request that is let through brings a token that the store has and that is active; if the
  -- token names origins, the request comes from one of them, which the answer echoes.
  pub data IsDecided : Type 0 where
    anywhere :
        (pt : ProjectToken)
        → looked_up.1 ≡ ok pt
        → pt.active ≡ true
        → pt.allowed_origins ≡ []
        → answer ≡ next pt.project_id looked_up.0
        → IsDecided
    from_origin :
        (pt : ProjectToken)
        → looked_up.1 ≡ ok pt
        → pt.active ≡ true
        → match_origin pt.allowed_origins origin ≡ true
        → answer ≡ with_headers (echo_origin origin) (next pt.project_id) looked_up.0
        → IsDecided
    without_token :
        answer ≡ (s, Step.reply (unauthorized (lit "missing X-Token header"))) → IsDecided
    refused :
        (r : Response)
        → answer ≡ (looked_up.0, Step.reply r)
        → (r.status ≡ 401) ⊎ (r.status ≡ 403)
        → IsDecided

  -- Whatever the store and the route: `TokenAuth` calls the route, with the project of the token,
  -- only for a token that is active and whose origins are none or include the request's; otherwise
  -- it answers 401 or 403, and no more than the token's lookup has happened.
  pub token_auth-IsDecided : IsDecided
  unfolding token_auth with_origin
  token_auth-IsDecided = elim (Bool-cases (is_empty x_token)) [
    | inl e ↦ IsDecided.without_token (rw e refl)
    | inr e ↦ elim (Result-cases looked_up.1) [
      | inr (error, l) ↦
          IsDecided.refused (unauthorized (lit "invalid token")) (rw (e, l) refl) (inl refl)
      | inl (pt, l) ↦ elim (Bool-cases pt.active) [
        | inr a ↦
            IsDecided.refused (unauthorized (lit "token is disabled")) (rw (e, l, a) refl)
              (inl refl)
        | inl a ↦ elim (Bool-cases (is_empty pt.allowed_origins)) [
          | inl o ↦ IsDecided.anywhere pt l a (is_empty-eq _ o) (rw (e, l, a, o) refl)
          | inr o ↦ elim (Bool-cases (match_origin pt.allowed_origins origin)) [
            | inl m ↦ IsDecided.from_origin pt l a m (rw (e, l, a, o, m) refl)
            | inr m ↦
                IsDecided.refused (forbidden (lit "origin not allowed for this token"))
                  (rw (e, l, a, o, m) refl) (inr refl)
          ]
        ]
      ]
    ]
  ]

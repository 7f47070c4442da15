-- ===== src/Server/Access.antt =====
-- Who may use the routes behind `JWTAuth` of internal/server/server.go.
use oximetric.Base.{
  ℕ, Str, lit, Bool, false, List, ap, ◌∙◌, Option, none, some, ◌≡◌, refl, ◌⊎◌, inl, inr, Bool-cases,
  Option-cases, arith, leb, str_beq, has_prefix, trim_prefix, if◌then◌else◌,
}
use oximetric.Auth.{Claims, validate_jwt}
use oximetric.Http.{Response, Step, Handler}
use oximetric.Middleware.Guards.{rank, has_min_role, jwt_auth, require_role}
use oximetric.Middleware.Logging.{LogLine}
use oximetric.Server.Logged.{Replies, secured, serve-Replies}
use oximetric.Server.Routes.{Routed, Endpoint, Request, Parts}
use oximetric.Server.{State, jwt_mux, mux}

-- The claims of the request's bearer token, if it has one that is valid now.
abbrev pub claims_of : Parts → Request → Option Claims
claims_of parts r =
    if has_prefix r.authorization (lit "Bearer ")
    then validate_jwt parts.crypto parts.jwt_secret r.jwt_now
        (trim_prefix r.authorization (lit "Bearer "))
    else none

-- The access matrix: 1 stands for a viewer, 2 for a manager, 3 for an administrator, and 0 for
-- every signed-in user.
unfoldable pub least_rank : Routed → ℕ
least_rank (Routed.create_project _) = 2
least_rank (Routed.update_project _ _) = 2
least_rank (Routed.delete_project _) = 3
least_rank (Routed.list_tokens _) = 2
least_rank (Routed.create_token _ _ _) = 2
least_rank (Routed.update_token _ _ _) = 2
least_rank (Routed.disable_token _ _ _) = 2
least_rank (Routed.enable_token _ _) = 2
least_rank (Routed.delete_token _) = 3
least_rank Routed.list_users = 2
least_rank (Routed.create_user _ _) = 3
least_rank (Routed.update_user _ _) = 3
least_rank (Routed.delete_user _) = 3
least_rank _ = 0

unfoldable pub is_allowed : Option Claims → Routed → Bool
is_allowed none route = false
is_allowed (some c) route = leb (least_rank route) (rank c.role)

-- The answer of a guard that turns a request away, from a state that stays.
abbrev pub TurnedAway : {S : Type 0} → S → S × Step (Unit {0}) → Type 0
TurnedAway s answer =
    (r : Response) × (answer ≡ (s, Step.reply r)) × ((r.status ≡ 401) ⊎ (r.status ≡ 403))

rank_manager : rank (lit "manager") ≡ 2
unfolding rank str_beq lit
rank_manager = refl

rank_admin : rank (lit "admin") ≡ 3
unfolding rank str_beq lit
rank_admin = refl

module _ (parts : Parts) where
  require_role-TurnedAway :
      (role : Str) (n : ℕ) (c : Claims) (next : Handler (State parts)) (s : State parts)
      → rank role ≡ n
      → leb n (rank c.role) ≡ false
      → TurnedAway s (require_role role (some c) next s)
  unfolding require_role has_min_role
  require_role-TurnedAway role n c next s e h = rw (e, h) (_, refl, inr refl)

  pub jwt_mux-TurnedAway :
      (route : Routed) (c : Claims) (s : State parts)
      → is_allowed (some c) route ≡ false
      → TurnedAway s (jwt_mux parts route (some c) s)
  unfolding jwt_mux is_allowed least_rank
  jwt_mux-TurnedAway (Routed.create_project _) c s h =
      require_role-TurnedAway _ _ c _ s rank_manager h
  jwt_mux-TurnedAway (Routed.update_project _ _) c s h =
      require_role-TurnedAway _ _ c _ s rank_manager h
  jwt_mux-TurnedAway (Routed.delete_project _) c s h =
      require_role-TurnedAway _ _ c _ s rank_admin h
  jwt_mux-TurnedAway (Routed.list_tokens _) c s h = require_role-TurnedAway _ _ c _ s rank_manager h
  jwt_mux-TurnedAway (Routed.create_token _ _ _) c s h =
      require_role-TurnedAway _ _ c _ s rank_manager h
  jwt_mux-TurnedAway (Routed.update_token _ _ _) c s h =
      require_role-TurnedAway _ _ c _ s rank_manager h
  jwt_mux-TurnedAway (Routed.disable_token _ _ _) c s h =
      require_role-TurnedAway _ _ c _ s rank_manager h
  jwt_mux-TurnedAway (Routed.enable_token _ _) c s h =
      require_role-TurnedAway _ _ c _ s rank_manager h
  jwt_mux-TurnedAway (Routed.delete_token _) c s h = require_role-TurnedAway _ _ c _ s rank_admin h
  jwt_mux-TurnedAway Routed.list_users c s h = require_role-TurnedAway _ _ c _ s rank_manager h
  jwt_mux-TurnedAway (Routed.create_user _ _) c s h = require_role-TurnedAway _ _ c _ s rank_admin h
  jwt_mux-TurnedAway (Routed.update_user _ _) c s h = require_role-TurnedAway _ _ c _ s rank_admin h
  jwt_mux-TurnedAway (Routed.delete_user _) c s h = require_role-TurnedAway _ _ c _ s rank_admin h
  jwt_mux-TurnedAway _ c s h = ground arith

  jwt_auth-TurnedAway :
      (r : Request) (route : Routed) (s : State parts)
      → is_allowed (claims_of parts r) route ≡ false
      → TurnedAway s
          (jwt_auth parts.crypto parts.jwt_secret r.jwt_now r.authorization (jwt_mux parts route) s)
  unfolding jwt_auth
  jwt_auth-TurnedAway r route s h = elim (Bool-cases (has_prefix r.authorization (lit "Bearer "))) [
    | inr e ↦ rw e (_, refl, inl refl)
    | inl e ↦
        elim (Option-cases (
          validate_jwt parts.crypto parts.jwt_secret r.jwt_now
            (trim_prefix r.authorization (lit "Bearer ")))) [
              | inl n ↦ rw (e, n) (_, refl, inl refl)
              | inr (c, v) ↦ rw (e, v) (jwt_mux-TurnedAway route c s (rw (e, v) at h))
            ]
  ]

  -- A request to a route of the console is turned away with 401 or 403, and changes neither the
  -- store nor the limiters, unless its bearer token is valid and the role in it has the rank that the
  -- access matrix asks of the route; one line is logged, with the status of the answer.
  pub serve-TurnedAway :
      (r : Request) (route : Routed) (s : State parts) (log : List LogLine)
      → r.endpoint ≡ Endpoint.jwt route
      → is_allowed (claims_of parts r) route ≡ false
      → (x : Response) × Replies parts r s log s x × ((x.status ≡ 401) ⊎ (x.status ≡ 403))
  unfolding mux
  serve-TurnedAway r route s log e h =
      let (x, answer, status) = jwt_auth-TurnedAway r route s h in
      (
        secured parts r s log x,
        serve-Replies parts r s log s x (ap (λ k. mux parts r k s) e ∙ answer),
        status,
      )

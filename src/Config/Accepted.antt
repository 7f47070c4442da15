-- ===== src/Config/Accepted.antt =====
-- Which environments `Load` accepts, and what the server then runs with.
use oximetric.Base.{
  ◌≤◌, Str, lit, true, false, [], ◌∷◌, ◌++◌, none, ◌≡◌, ◌≢◌, ◌↔◌, ◌⊎◌, inl, inr, refl, sym, ◌∙◌,
  arith, length, ltb, is_empty, Bool-cases, eq_iff, str_eq, ◌==◌,
}
use oximetric.Config.{Config, Loaded, from_env, is_number, validate, load}

-- What `validate` asks of a configuration.
pub record IsValid (c : Config) : Type 0 where
  pub admin_username : c.admin_username ≢ []
  pub admin_password : c.admin_password ≢ []
  pub jwt_secret : 32 ≤ length c.jwt_secret
  pub db_driver : (c.db_driver ≡ lit "sqlite") ⊎ (c.db_driver ≡ lit "postgres")

validate-IsValid : (c : Config) → validate c ≡ none → IsValid c
unfolding validate
validate-IsValid c h = record {
  admin_username = λ e. ground arith;
  admin_password = λ e. ground arith;
  jwt_secret = ground arith;
  db_driver = elim (Bool-cases (c.db_driver == lit "sqlite")) [
    | inl e ↦ inl ((eq_iff c.db_driver (lit "sqlite")).0 e)
    | inr e ↦ inr ((eq_iff c.db_driver (lit "postgres")).0 (ground arith))
  ];
}

is_empty_ne : (s : Str) → s ≢ [] → is_empty s ≡ false
is_empty_ne [] h = absurd (h refl)
is_empty_ne (c ∷ s) h = refl

not_short : (s : Str) → 32 ≤ length s → (is_empty s ≡ false) × (ltb (length s) 32 ≡ false)
not_short [] h = absurd (omega arith)
not_short (c ∷ s) h = (refl, ground arith)

IsValid-validate : (c : Config) → IsValid c → validate c ≡ none
unfolding validate
IsValid-validate c v =
    let (filled, long) = not_short c.jwt_secret v.jwt_secret in
    rw
      (
        is_empty_ne c.admin_username v.admin_username,
        is_empty_ne c.admin_password v.admin_password,
        filled,
        long,
      )
      (elim v.db_driver [
        | inl e ↦ ground (arith, (eq_iff c.db_driver (lit "sqlite")).1 e)
        | inr e ↦ ground (arith, (eq_iff c.db_driver (lit "postgres")).1 e)
      ])

-- The port is left out, or it is a number.
abbrev pub PortOk : Str → Type 0
PortOk port = (port ≡ []) ⊎ (is_number port ≡ true)

is_empty-eq_nil : (s : Str) → is_empty s ≡ true → s ≡ []
is_empty-eq_nil [] h = refl
is_empty-eq_nil (c ∷ s) h = cc

module _ (to_lower : Str → Str) (getenv : Str → Str) where
  -- A port that passes, and what is left of `Load`; or the error.
  load-cases :
      (PortOk (getenv (lit "OXIMETRIC_PORT"))
        × (load to_lower getenv
            ≡ Loaded.config (from_env to_lower getenv) (validate (from_env to_lower getenv))))
      ⊎ (((m : Str) × (load to_lower getenv ≡ Loaded.no_config m))
          × (PortOk (getenv (lit "OXIMETRIC_PORT")) → ⊥))
  unfolding load
  load-cases = elim (Bool-cases (is_empty (getenv (lit "OXIMETRIC_PORT")))) [
    | inl e ↦ inl (inl (is_empty-eq_nil _ e), rw e refl)
    | inr e ↦ elim (Bool-cases (is_number (getenv (lit "OXIMETRIC_PORT")))) [
      | inl n ↦ inl (inr n, rw (e, n) refl)
      | inr n ↦ inr (
        (lit "invalid OXIMETRIC_PORT: " ++ getenv (lit "OXIMETRIC_PORT"), rw (e, n) refl),
        λ p. elim p [ inl q ↦ cc (rw q at e) | inr q ↦ cc ],
      )
    ]
  ]

  -- `Load` succeeds exactly when the port is left out or a number, the administrator's name and
  -- password are set, the secret has at least 32 bytes, and the driver, sqlite if it is left out and
  -- in lower case, is sqlite or postgres; the configuration is then the one read from the
  -- environment. Nothing is asked of the length of the password or of the range of the port.
  pub load_iff :
      (c : Config)
      → (load to_lower getenv ≡ Loaded.config c none) ↔ (
          (c ≡ from_env to_lower getenv)
          × PortOk (getenv (lit "OXIMETRIC_PORT"))
          × IsValid (from_env to_lower getenv))
  load_iff c = elim load-cases [
    | inl (p, e) ↦ (
      λ h. let h' = sym e ∙ h in (cc h', p, validate-IsValid (from_env to_lower getenv) (cc h')),
      λ (q, _, v). e ∙ (rw (IsValid-validate (from_env to_lower getenv) v, q) refl),
    )
    | inr ((m, e), never) ↦ (λ h. cc (sym e ∙ h), λ (q, p, v). absurd (never p))
  ]

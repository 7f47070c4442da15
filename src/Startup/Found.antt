-- ===== src/Startup/Found.antt =====
-- The row that a login finds, after a user is created or updated.
use oximetric.Base.{
  Str, Bool, true, false, List, [], ◌∷◌, ◌++◌, ◌==◌, int_eq, str_eq, eq_iff, ◌≡◌, ◌⊎◌, ap, ◌∙◌,
  refl, inl, inr, Bool-cases, arith, update_where,
}
use oximetric.Model.{ConsoleUser}
use oximetric.Storage.Store.{ok, err, no_rows}
use oximetric.Storage.Schema.{first_row}
use oximetric.Storage.Sqlite.Users.{has_username, has_email, row_of_login, set_user}

-- The user found under a login satisfies a predicate.
abbrev pub Finds : (ConsoleUser → Type 0) → Str → List ConsoleUser → Type 0
Finds P login us = (u : ConsoleUser) × (row_of_login login us ≡ ok u) × P u

module _ (q : ConsoleUser → Bool) where
  -- A new row is found if none was.
  first_row-concat :
      (us : List ConsoleUser) (u : ConsoleUser)
      → first_row q us ≡ err no_rows
      → q u ≡ true
      → first_row q (us ++ u ∷ []) ≡ ok u
  first_row-concat [] u h k = rw k refl
  first_row-concat (v ∷ us) u h k = elim (Bool-cases (q v)) [
    | inl e ↦ cc (rw e at h)
    | inr e ↦ rw e (first_row-concat us u (rw e at h) k)
  ]

  -- A row that is found passes the test.
  first_row-passes : (us : List ConsoleUser) (u : ConsoleUser) → first_row q us ≡ ok u → q u ≡ true
  first_row-passes [] u h = cc
  first_row-passes (v ∷ us) u h = elim (Bool-cases (q v)) [
    | inl e ↦ let p : v ≡ u = cc (rw e at h) in rw (← p) e
    | inr e ↦ first_row-passes us u (rw e at h)
  ]

  -- A test that no row passes fails on the row that another test finds.
  first_row-fails :
      (r : ConsoleUser → Bool) (us : List ConsoleUser) (u : ConsoleUser)
      → first_row q us ≡ err no_rows
      → first_row r us ≡ ok u
      → q u ≡ false
  first_row-fails r [] u h k = cc
  first_row-fails r (v ∷ us) u h k = elim (Bool-cases (q v)) [
    | inl e ↦ cc (rw e at h)
    | inr e ↦ elim (Bool-cases (r v)) [
      | inl f ↦ let p : v ≡ u = cc (rw f at k) in rw (← p) e
      | inr f ↦ first_row-fails r us u (rw e at h) (rw f at k)
    ]
  ]

  module _ (user : ConsoleUser) (same : (row : ConsoleUser) → q (set_user user row) ≡ q user) where
    -- The row that is found and updated is found again, or one before it that the update has made
    -- like it.
    first_row-updated :
        (us : List ConsoleUser) (found : ConsoleUser)
        → first_row q us ≡ ok found
        → found.id ≡ user.id
        → q user ≡ true
        → (row : ConsoleUser) × (first_row q
              (update_where (λ r. r.id == user.id) (set_user user) us)
            ≡ ok (set_user user row))
    first_row-updated [] found h i k = cc
    first_row-updated (v ∷ us) found h i k = elim (Bool-cases (v.id == user.id)) [
      | inl e ↦ (v, rw (e, same v, k) refl)
      | inr other ↦ elim (Bool-cases (q v)) [
        | inl e ↦ absurd (ground (arith, eq_iff v.id user.id))
        | inr e ↦
            let (row, p) = first_row-updated us found (rw e at h) i k in (row, rw (other, e) p)
      ]
    ]

    first_row-not_updated :
        (us : List ConsoleUser)
        → first_row q us ≡ err no_rows
        → q user ≡ false
        → first_row q (update_where (λ r. r.id == user.id) (set_user user) us) ≡ err no_rows
    first_row-not_updated [] h k = refl
    first_row-not_updated (v ∷ us) h k = elim (Bool-cases (q v)) [
      | inl e ↦ cc (rw e at h)
      | inr e ↦ elim (Bool-cases (v.id == user.id)) [
        | inl f ↦ rw (f, same v, k) (first_row-not_updated us (rw e at h) k)
        | inr f ↦ rw (f, e) (first_row-not_updated us (rw e at h) k)
      ]
    ]

first_row-cases :
    (q : ConsoleUser → Bool) (us : List ConsoleUser)
    → ((u : ConsoleUser) × (first_row q us ≡ ok u)) ⊎ (first_row q us ≡ err no_rows)
first_row-cases q [] = inr refl
first_row-cases q (v ∷ us) = elim (Bool-cases (q v)) [
  | inl e ↦ inl (v, rw e refl)
  | inr e ↦ rw e (first_row-cases q us)
]

module _ (login : Str) (us : List ConsoleUser) where
  -- A user who is created under the name is found.
  pub Finds-created :
      (P : ConsoleUser → Type 0) (u : ConsoleUser)
      → row_of_login login us ≡ err no_rows
      → has_username login u ≡ true
      → P u
      → Finds P login (us ++ u ∷ [])
  unfolding row_of_login
  Finds-created P u h k p = elim (first_row-cases (has_username login) us) [
    | inl (v, e) ↦ cc (rw (row_of_login, e) at h)
    | inr e ↦ (u, rw (row_of_login, first_row-concat (has_username login) us u e k) refl, p)
  ]

  -- So is the user who is found and then updated, or one whom the update has made like that user.
  pub Finds-updated :
      (P : ConsoleUser → Type 0) (user found : ConsoleUser)
      → row_of_login login us ≡ ok found
      → found.id ≡ user.id
      → found.username ≡ user.username
      → found.email ≡ user.email
      → ((row : ConsoleUser) → P (set_user user row))
      → Finds P login (update_where (λ r. r.id == user.id) (set_user user) us)
  unfolding row_of_login
  Finds-updated P user found h i n m p = elim (first_row-cases (has_username login) us) [
    | inl (v, e) ↦
        let q : v ≡ found = cc (rw (row_of_login, e) at h) in
        let k : has_username login user ≡ true =
          rw (← n, ← q) (first_row-passes (has_username login) us v e) in
        let (row, f) =
          first_row-updated (has_username login) user (λ r. refl) us v e (ap (λ u. u.id) q ∙ i) k in
        (set_user user row, rw (row_of_login, f) refl, p row)
    | inr e ↦
        let at_email : first_row (has_email login) us ≡ ok found = rw (row_of_login, e) at h in
        let no : has_username login user ≡ false =
          rw (← n) (first_row-fails (has_username login) (has_email login) us found e at_email) in
        let k : has_email login user ≡ true =
          rw (← m) (first_row-passes (has_email login) us found at_email) in
        let (row, f) = first_row-updated (has_email login) user (λ r. refl) us found at_email i k in
        (
          set_user user row,
          rw (row_of_login, first_row-not_updated (has_username login) user (λ r. refl) us e no, f)
              refl,
          p row,
        )
  ]

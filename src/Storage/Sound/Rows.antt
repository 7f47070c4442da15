-- ===== src/Storage/Sound/Rows.antt =====
-- How the search for a row fares under the changes that the statements make.
use oximetric.Base.{
  ◌≡◌, refl, Bool, true, false, List, [], ◌∷◌, ◌++◌, Option, none, some, ℤ, arith, keep,
  update_where, ◌==◌, int_eq, str_eq,
}
use oximetric.Storage.Schema.{exists_row, has_app_user?}
use oximetric.Model.{AppUser}

module _ {ℓ} {A : Type ℓ} (p : A → Bool) where
  pub exists_row-append : (xs ys : List A) → exists_row p xs ≡ true → exists_row p (xs ++ ys) ≡ true
  exists_row-append [] ys h = cc
  exists_row-append (x ∷ xs) ys h = ground (arith, exists_row-append xs ys)

  -- Rows that pass the test and are all kept.
  pub exists_row-keep :
      (q : A → Bool) (xs : List A)
      → ((x : A) → p x ≡ true → q x ≡ true)
      → exists_row p xs ≡ true
      → exists_row p (keep q xs) ≡ true
  exists_row-keep q [] k h = cc
  exists_row-keep q (x ∷ xs) k h = ground (arith, k x, exists_row-keep q xs k)

  -- A row that is not among those dropped is among those kept.
  pub exists_row-kept :
      (q r : A → Bool) (xs : List A)
      → ((x : A) → q x ≡ false → r x ≡ true)
      → exists_row p xs ≡ true
      → exists_row p (keep r xs) ≡ false
      → exists_row p (keep q xs) ≡ true
  exists_row-kept q r [] f h k = cc
  exists_row-kept q r (x ∷ xs) f h k = ground (arith, f x, exists_row-kept q r xs f)

  -- The rewriting of rows leaves what the test looks at.
  pub exists_row-update_where :
      (q : A → Bool) (g : A → A) (xs : List A)
      → ((x : A) → p (g x) ≡ p x)
      → exists_row p (update_where q g xs) ≡ exists_row p xs
  exists_row-update_where q g [] k = refl
  exists_row-update_where q g (x ∷ xs) k = ground (arith, k x, exists_row-update_where q g xs k)

pub has_app_user?-append :
    (us vs : List AppUser) (id : Option ℤ)
    → has_app_user? us id ≡ true
    → has_app_user? (us ++ vs) id ≡ true
has_app_user?-append us vs none h = refl
has_app_user?-append us vs (some id) h = exists_row-append (λ u. u.id == id) us vs h

-- An update of no row changes no row.
pub update_where_none {ℓ} :
    {A : Type ℓ} (p : A → Bool) (g : A → A) (xs : List A)
    → exists_row p xs ≡ false
    → update_where p g xs ≡ xs
update_where_none p g [] h = refl
update_where_none p g (x ∷ xs) h = ground (arith, update_where_none p g xs)

-- ===== src/Storage/Keyed/Rows.antt =====
-- How the changes that the statements make to a table leave its rows apart.
use oximetric.Base.{
  ◌≡◌, refl, ◌∙◌, ◌≤◌, ◌||◌, ◌&&◌, not, Bool, true, false, List, [], ◌∷◌, ◌++◌, ℕ, suc, ℤ, pos,
  negsuc, pos_part, arith, keep, update_where, ◌==◌, int_eq, int_beq, str_eq, Str, Option, none,
  some, eq_iff, Bool-cases, inl, inr,
}
use oximetric.Model.{ConsoleUser}
use oximetric.Storage.Schema.{exists_row, max_id, fresh_id}
use oximetric.Storage.Sqlite.Users.{same_email, clashes, set_user}
use oximetric.Storage.Sound.Rows.{update_where_none}
use oximetric.Storage.Keyed.{Pairwise, same_user}

module _ {ℓ} {A : Type ℓ} (p : A → Bool) where
  exists_row-concat_false :
      (xs : List A) (y : A)
      → exists_row p xs ≡ false
      → p y ≡ false
      → exists_row p (xs ++ y ∷ []) ≡ false
  exists_row-concat_false [] y h k = ground arith
  exists_row-concat_false (x ∷ xs) y h k = ground (arith, exists_row-concat_false xs y)

  exists_row-keep-false :
      (q : A → Bool) (xs : List A) → exists_row p xs ≡ false → exists_row p (keep q xs) ≡ false
  exists_row-keep-false q [] h = refl
  exists_row-keep-false q (x ∷ xs) h = ground (arith, exists_row-keep-false q xs)

  -- Neither of two tests is passed.
  pub exists_row-or :
      (q : A → Bool) (xs : List A)
      → exists_row p xs ≡ false
      → exists_row q xs ≡ false
      → exists_row (λ x. p x || q x) xs ≡ false
  exists_row-or q [] h k = refl
  exists_row-or q (x ∷ xs) h k = ground (arith, exists_row-or q xs)

  -- Rows are rewritten, and the test sees what it saw.
  exists_row-same :
      (q : A → Bool) (g : A → A) (xs : List A)
      → ((x : A) → p (g x) ≡ p x)
      → exists_row p (update_where q g xs) ≡ exists_row p xs
  exists_row-same q g [] k = refl
  exists_row-same q g (x ∷ xs) k = ground (arith, k x, exists_row-same q g xs k)

exists_row-ext {ℓ} :
    {A : Type ℓ} (p q : A → Bool) (xs : List A)
    → ((x : A) → p x ≡ q x)
    → exists_row p xs ≡ exists_row q xs
exists_row-ext p q [] k = refl
exists_row-ext p q (x ∷ xs) k = ground (arith, k x, exists_row-ext p q xs k)

module _ {ℓ} {A : Type ℓ} (clash : A → A → Bool) where
  pub Pairwise-concat :
      (xs : List A) (y : A)
      → Pairwise clash xs
      → exists_row (λ x. clash x y) xs ≡ false
      → Pairwise clash (xs ++ y ∷ [])
  Pairwise-concat [] y h k = (refl, tt)
  Pairwise-concat (x ∷ xs) y (h, hs) k = (
    exists_row-concat_false (clash x) xs y h (ground arith),
    Pairwise-concat xs y hs (ground arith),
  )

  pub Pairwise-keep : (q : A → Bool) (xs : List A) → Pairwise clash xs → Pairwise clash (keep q xs)
  Pairwise-keep q [] h = tt
  Pairwise-keep q (x ∷ xs) (h, hs) = elim (Bool-cases (q x)) [
    | inl e ↦ rw e (exists_row-keep-false (clash x) q xs h, Pairwise-keep q xs hs)
    | inr e ↦ rw e (Pairwise-keep q xs hs)
  ]

  -- An update that leaves the keys.
  pub Pairwise-update_where :
      (q : A → Bool) (g : A → A) (xs : List A)
      → ((x y : A) → clash (g x) y ≡ clash x y)
      → ((x y : A) → clash x (g y) ≡ clash x y)
      → Pairwise clash xs
      → Pairwise clash (update_where q g xs)
  Pairwise-update_where q g [] l r h = tt
  Pairwise-update_where q g (x ∷ xs) l r (h, hs) = elim (Bool-cases (q x)) [
    | inl e ↦ rw e (
      exists_row-same (clash (g x)) q g xs (r (g x))
          ∙ (exists_row-ext (clash (g x)) (clash x) xs (l x) ∙ h),
      Pairwise-update_where q g xs l r hs,
    )
    | inr e ↦ rw e (exists_row-same (clash x) q g xs (r x) ∙ h, Pairwise-update_where q g xs l r hs)
  ]

below : (z : ℤ) (n : ℕ) → pos_part z ≤ n → (z == pos (suc n)) ≡ false
unfolding int_beq
below (pos k) n h = ground arith
below (negsuc k) n h = refl

module _ {ℓ} {A : Type ℓ} (key : A → ℤ) where
  above :
      (xs : List A) (n : ℕ) → max_id key xs ≤ n → exists_row (λ x. key x == pos (suc n)) xs ≡ false
  above [] n h = refl
  above (x ∷ xs) n h = ground (arith, below (key x) n, above xs n)

  -- The id that a new row gets is no row's.
  pub fresh_id-above : (xs : List A) → exists_row (λ x. key x == fresh_id key xs) xs ≡ false
  fresh_id-above xs = above xs (max_id key xs) (omega arith)

same_email_sym : (a b : Option Str) → same_email a b ≡ same_email b a
same_email_sym none none = refl
same_email_sym none (some b) = refl
same_email_sym (some a) none = refl
same_email_sym (some a) (some b) = ground (arith, eq_iff a b, eq_iff b a)

-- The user whose columns an UPDATE sets.
module _ (user : ConsoleUser) where
  is_set : ConsoleUser → Bool
  is_set r = r.id == user.id

  others_clash : ConsoleUser → Bool
  unfolding is_set
  others_clash r = not (is_set r) && clashes user r

  -- No row behind one that is set has its id.
  set_once :
      (x : ConsoleUser) (xs : List ConsoleUser)
      → is_set x ≡ true
      → exists_row (same_user x) xs ≡ false
      → exists_row is_set xs ≡ false
  unfolding is_set
  set_once x [] e h = refl
  set_once x (y ∷ ys) e h =
      ground (arith, eq_iff x.id user.id, eq_iff y.id user.id, eq_iff x.id y.id, set_once x ys e)

  -- The row that is set has the keys of no row behind it.
  set_first :
      (x : ConsoleUser) (xs : List ConsoleUser)
      → is_set x ≡ true
      → exists_row is_set xs ≡ false
      → exists_row others_clash xs ≡ false
      → exists_row (same_user (set_user user x)) xs ≡ false
  unfolding others_clash is_set
  set_first x [] e h k = refl
  set_first x (y ∷ ys) e h k = ground (
    arith,
    eq_iff x.id user.id,
    eq_iff y.id user.id,
    eq_iff x.id y.id,
    eq_iff y.username user.username,
    eq_iff user.username y.username,
    same_email_sym user.email y.email,
    set_first x ys e,
  )

  -- A row in front that is not set has the keys of no row that is.
  set_behind :
      (x : ConsoleUser) (xs : List ConsoleUser)
      → is_set x ≡ false
      → others_clash x ≡ false
      → exists_row (same_user x) xs ≡ false
      → exists_row (same_user x) (update_where is_set (set_user user) xs) ≡ false
  unfolding others_clash is_set
  set_behind x [] e c h = refl
  set_behind x (y ∷ ys) e c h = ground (arith, set_behind x ys e c)

  pub Pairwise-set_user :
      (xs : List ConsoleUser)
      → Pairwise same_user xs
      → exists_row (λ r. not (r.id == user.id) && clashes user r) xs ≡ false
      → Pairwise same_user (update_where (λ r. r.id == user.id) (set_user user) xs)
  unfolding is_set others_clash
  Pairwise-set_user [] h k = tt
  Pairwise-set_user (x ∷ xs) (h, hs) k = elim (Bool-cases (is_set x)) [
    | inl e ↦
        let once = set_once x xs e h in
        rw (e, update_where_none is_set (set_user user) xs once)
          (set_first x xs e once (ground arith), hs)
    | inr e ↦ rw e (set_behind x xs e (ground arith) h, Pairwise-set_user xs hs (ground arith))
  ]

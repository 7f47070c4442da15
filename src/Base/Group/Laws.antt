-- ===== src/Base/Group/Laws.antt =====
-- The groups share out the rows, and pages follow one another.
use Prim.Native.Nat.{ℕ, zero, suc, ◌+◌, ◌≤◌}
use mathlib.Core.Path.{◌≡◌, ◌∙◌, refl, sym, ap}
use mathlib.Core.Logic.{inl, inr}
use mathlib.Core.Bool.{false}
use mathlib.Core.List.{List, [], ◌∷◌, ◌++◌}
use mathlib.Core.List.{Permᴰ}
use native.Mathlib.Nat.{zero-add, suc-add}
use native.Mathlib.Omega.{arith}
use oximetric.Base.Tests.{if◌then◌else◌, Eq, ◌==◌, eq_iff, eq_refl, Bool-cases}
use oximetric.Base.Lists.{length, take, drop, keep, All, All-imp}
use oximetric.Base.Group.{add_one, group_count, page}

-- The rows of all groups together.
abbrev pub total {ℓ} : {K : Type ℓ} → List (K × ℕ) → ℕ
total [] = 0
total ((k, n) ∷ groups) = n + total groups

pub total-perm {ℓ} : {K : Type ℓ} {g h : List (K × ℕ)} → Permᴰ g h → total g ≡ total h
total-perm Permᴰ.nil = refl
total-perm (Permᴰ.cons e p) = rw e (omega (arith, total-perm p))
total-perm (Permᴰ.swap e f) = rw (e, f) (omega arith)
total-perm (Permᴰ.trans p q) = total-perm p ∙ total-perm q

pub All-perm {ℓ κ} :
    {A : Type ℓ} (P : A → Type κ) {xs ys : List A} → Permᴰ xs ys → All P ys → All P xs
All-perm P Permᴰ.nil h = tt
All-perm P (Permᴰ.cons e p) (h, hs) = (rw e h, All-perm P p hs)
All-perm P (Permᴰ.swap e f) (h, (k, hs)) = (rw e k, (rw f h, hs))
All-perm P (Permᴰ.trans p q) h = All-perm P p (All-perm P q h)

pub All-take {ℓ κ} :
    {A : Type ℓ} (P : A → Type κ) (n : ℕ) (xs : List A) → All P xs → All P (take n xs)
All-take P zero xs h = tt
All-take P (suc n) [] h = tt
All-take P (suc n) (x ∷ xs) (h, hs) = (h, All-take P n xs hs)

pub All-drop {ℓ κ} :
    {A : Type ℓ} (P : A → Type κ) (n : ℕ) (xs : List A) → All P xs → All P (drop n xs)
All-drop P zero xs h = h
All-drop P (suc n) [] h = tt
All-drop P (suc n) (x ∷ xs) (h, hs) = All-drop P n xs hs

module _ {ℓ} {K : Type ℓ} ⦃e : Eq K⦄ where
  total-add_one : (k : K) (g : List (K × ℕ)) → total (add_one k g) ≡ suc (total g)
  unfolding add_one
  total-add_one k [] = refl
  total-add_one k ((j, n) ∷ g) = ground (arith, total-add_one k g)

  -- The counts of the groups add up to the number of rows.
  pub total-group_count {κ} :
      {A : Type κ} (key : A → K) (xs : List A) → total (group_count key xs) ≡ length xs
  unfolding group_count
  total-group_count key [] = refl
  total-group_count key (x ∷ xs) =
      total-add_one (key x) (group_count key xs) ∙ ap suc (total-group_count key xs)

  -- What a list of groups says of one key.
  unfoldable pub count_of : K → List (K × ℕ) → ℕ
  count_of k [] = 0
  count_of k ((j, n) ∷ g) = if j == k then n else count_of k g

  count_of-add_one :
      (k i : K) (g : List (K × ℕ))
      → count_of i (add_one k g) ≡ (if k == i then suc (count_of i g) else count_of i g)
  unfolding add_one count_of
  count_of-add_one k i [] = ground (arith, eq_iff k i)
  count_of-add_one k i ((j, n) ∷ g) =
      ground (arith, eq_iff k i, eq_iff j k, eq_iff j i, count_of-add_one k i g)

  -- The count of a key is the number of its rows.
  pub count_of-group_count {κ} :
      {A : Type κ} (key : A → K) (i : K) (xs : List A)
      → count_of i (group_count key xs) ≡ length (keep (λ x. key x == i) xs)
  unfolding group_count count_of
  count_of-group_count key i [] = refl
  count_of-group_count key i (x ∷ xs) =
      count_of-add_one (key x) i (group_count key xs)
      ∙ ground (arith, count_of-group_count key i xs)

module _ {ℓ} {K : Type ℓ} ⦃e : Eq K⦄ where
  -- No group has the key.
  abbrev Without : K → List (K × ℕ) → Type 0
  Without k = All (λ g. (k == g.0) ≡ false)

  abbrev DistinctKeys : List (K × ℕ) → Type 0
  DistinctKeys [] = Unit {0}
  DistinctKeys ((k, n) ∷ g) = Without k g × DistinctKeys g

  Without-add_one :
      (j k : K) (g : List (K × ℕ)) → (j == k) ≡ false → Without j g → Without j (add_one k g)
  unfolding add_one
  Without-add_one j k [] h w = (h, tt)
  Without-add_one j k ((i, n) ∷ g) h (w, ws) = elim (Bool-cases (i == k)) [
    | inl same ↦ rw same (w, ws)
    | inr other ↦ rw other (w, Without-add_one j k g h ws)
  ]

  DistinctKeys-add_one : (k : K) (g : List (K × ℕ)) → DistinctKeys g → DistinctKeys (add_one k g)
  unfolding add_one
  DistinctKeys-add_one k [] d = (tt, tt)
  DistinctKeys-add_one k ((j, n) ∷ g) (w, d) = elim (Bool-cases (j == k)) [
    | inl same ↦ rw same (w, d)
    | inr other ↦ rw other (Without-add_one j k g other w, DistinctKeys-add_one k g d)
  ]

  DistinctKeys-group_count {κ} :
      {A : Type κ} (key : A → K) (xs : List A) → DistinctKeys (group_count key xs)
  unfolding group_count
  DistinctKeys-group_count key [] = tt
  DistinctKeys-group_count key (x ∷ xs) =
      DistinctKeys-add_one (key x) (group_count key xs) (DistinctKeys-group_count key xs)

  length-add_one : (k : K) (g : List (K × ℕ)) → length (add_one k g) ≤ suc (length g)
  unfolding add_one
  length-add_one k [] = omega arith
  length-add_one k ((j, n) ∷ g) = ground (arith, length-add_one k g)

  -- There are no more groups than rows.
  pub length-group_count {κ} :
      {A : Type κ} (key : A → K) (xs : List A) → length (group_count key xs) ≤ length xs
  unfolding group_count
  length-group_count key [] = omega arith
  length-group_count key (x ∷ xs) =
      omega (arith, length-add_one (key x) (group_count key xs), length-group_count key xs)

  counts_behind :
      (j : K) (n : ℕ) (g h : List (K × ℕ))
      → Without j h
      → All (λ i. i.1 ≡ count_of i.0 g) h
      → All (λ i. i.1 ≡ count_of i.0 ((j, n) ∷ g)) h
  unfolding count_of
  counts_behind j n g [] w c = tt
  counts_behind j n g (i ∷ h) (w, ws) (c, cs) = (rw w c, counts_behind j n g h ws cs)

  counts_of_distinct : (g : List (K × ℕ)) → DistinctKeys g → All (λ i. i.1 ≡ count_of i.0 g) g
  unfolding count_of
  counts_of_distinct [] d = tt
  counts_of_distinct ((j, n) ∷ g) (w, d) =
      (rw (eq_refl j) refl, counts_behind j n g g w (counts_of_distinct g d))

  -- Every group has the number of the rows of its key.
  pub group_count-counts {κ} :
      {A : Type κ} (key : A → K) (xs : List A)
      → All (λ g. g.1 ≡ length (keep (λ x. key x == g.0) xs)) (group_count key xs)
  group_count-counts key xs =
      All-imp (λ g. g.1 ≡ count_of g.0 (group_count key xs))
        (λ g. g.1 ≡ length (keep (λ x. key x == g.0) xs)) (group_count key xs)
        (λ g h. h ∙ count_of-group_count key g.0 xs)
        (counts_of_distinct (group_count key xs) (DistinctKeys-group_count key xs))

drop_nil {ℓ} : {A : Type ℓ} (n : ℕ) → drop {A = A} n [] ≡ []
drop_nil zero = refl
drop_nil (suc n) = refl

take_nil {ℓ} : {A : Type ℓ} (n : ℕ) → take {A = A} n [] ≡ []
take_nil zero = refl
take_nil (suc n) = refl

take-add {ℓ} :
    {A : Type ℓ} (m n : ℕ) (xs : List A) → take m xs ++ take n (drop m xs) ≡ take (m + n) xs
take-add zero n xs = rw (zero-add n) refl
take-add {A = A} (suc m) n [] = take_nil {A = A} n ∙ sym (take_nil {A = A} (suc m + n))
take-add (suc m) n (x ∷ xs) = rw (suc-add m n) (ap (λ t. x ∷ t) (take-add m n xs))

drop-drop {ℓ} : {A : Type ℓ} (m o : ℕ) (xs : List A) → drop m (drop o xs) ≡ drop (o + m) xs
drop-drop m zero xs = rw (zero-add m) refl
drop-drop {A = A} m (suc o) [] = drop_nil {A = A} m ∙ sym (drop_nil {A = A} (suc o + m))
drop-drop m (suc o) (x ∷ xs) = rw (suc-add o m) (drop-drop m o xs)

-- Two pages, one behind the other, are one page.
pub page-append {ℓ} :
    {A : Type ℓ} (m n offset : ℕ) (xs : List A)
    → page m offset xs ++ page n (offset + m) xs ≡ page (m + n) offset xs
unfolding page
page-append m n offset xs = rw (← drop-drop m offset xs) (take-add m n (drop offset xs))

-- ===== src/Base/Group.antt =====
-- `SELECT key, COUNT(*) … GROUP BY key` and `LIMIT n OFFSET m` over the list of the rows.
pub mod Laws
use Prim.Native.Nat.{ℕ, suc}
use mathlib.Core.Bool.{◌&&◌}
use mathlib.Core.List.{List, [], ◌∷◌}
use oximetric.Base.Tests.{if◌then◌else◌, Eq, ◌==◌}
use oximetric.Base.Lists.{take, drop}

module _ {ℓ} {K : Type ℓ} ⦃e : Eq K⦄ where
  -- One row more in the group of its key.
  unfoldable pub add_one : K → List (K × ℕ) → List (K × ℕ)
  add_one k [] = (k, 1) ∷ []
  add_one k ((j, n) ∷ groups) = if j == k then (j, suc n) ∷ groups else (j, n) ∷ add_one k groups

  unfoldable pub group_count {κ} : {A : Type κ} → (A → K) → List A → List (K × ℕ)
  unfolding add_one
  group_count key [] = []
  group_count key (x ∷ xs) = add_one (key x) (group_count key xs)

unfoldable pub page {ℓ} : {A : Type ℓ} → ℕ → ℕ → List A → List A
page limit offset xs = take limit (drop offset xs)

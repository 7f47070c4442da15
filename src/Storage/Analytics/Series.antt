-- ===== src/Storage/Analytics/Series.antt =====
-- The points of a time series: every row is in one, and their periods ascend.
use oximetric.Base.{Str, true, List, [], ◌∷◌, ◌≡◌, int_eq, str_eq}
use oximetric.Storage.Analytics.{text_leb}

-- Each period stands before the next.
abbrev pub Ascends {ℓ} : {A : Type ℓ} → List (Str × A) → Type 0
Ascends [] = Unit {0}
Ascends (p ∷ []) = Unit {0}
Ascends (p ∷ q ∷ qs) = (text_leb p.0 q.0 ≡ true) × Ascends (q ∷ qs)

-- ===== src/Storage/Origins/RoundTrip.antt =====
-- Reading back the origins that were stored (encodeOrigins and decodeOrigins).
use oximetric.Base.{
  Str, List, [], ◌∷◌, ◌≡◌, ◌≢◌, refl, ap, ◌∙◌, inl, inr, false, arith, All, Bool-cases, is_empty,
  join, trim_space,
}
use oximetric.Base.Strings.Laws.{Lacks, split-join}
use oximetric.Base.Trim.Laws.{trim_space_idem}
use oximetric.Storage.Origins.{cleaned, encode_origins, decode_origins}

cleaned_idem : (os : List Str) → cleaned (cleaned os) ≡ cleaned os
unfolding cleaned
cleaned_idem [] = refl
cleaned_idem (o ∷ os) = ground (arith, cleaned_idem os, trim_space_idem o)

-- An entry that is one line once it is trimmed.
abbrev pub OneLine : Str → Type 0
OneLine o = Lacks b'\n' (trim_space o)

Lacks-cleaned : (os : List Str) → All OneLine os → All (Lacks b'\n') (cleaned os)
unfolding cleaned
Lacks-cleaned [] h = tt
Lacks-cleaned (o ∷ os) (h, hs) = elim (Bool-cases (is_empty (trim_space o))) [
  | inl e ↦ rw e (Lacks-cleaned os hs)
  | inr e ↦ rw e (h, Lacks-cleaned os hs)
]

-- No kept entry is empty.
cleaned-NonEmpty : (os : List Str) → All (λ o. o ≢ []) (cleaned os)
unfolding cleaned
cleaned-NonEmpty [] = tt
cleaned-NonEmpty (o ∷ os) = elim (Bool-cases (is_empty (trim_space o))) [
  | inl e ↦ rw e (cleaned-NonEmpty os)
  | inr e ↦ rw e ((λ p. ground arith), cleaned-NonEmpty os)
]

join-ne-nil : (p : Str) (ps : List Str) → p ≢ [] → is_empty (join (p ∷ ps) b'\n') ≡ false
unfolding join
join-ne-nil [] ps h = absurd (h refl)
join-ne-nil (c ∷ p) [] h = refl
join-ne-nil (c ∷ p) (q ∷ ps) h = refl

decode-join :
    (ps : List Str)
    → All (Lacks b'\n') ps
    → All (λ o. o ≢ []) ps
    → decode_origins (join ps b'\n') ≡ cleaned ps
unfolding decode_origins
decode-join [] h k = unfold join cleaned in refl
decode-join (p ∷ ps) h (k, ks) = rw (join-ne-nil p ps k) (ap cleaned (split-join b'\n' p ps h))

encode_origins-eq-join : (os : List Str) → encode_origins os ≡ join (cleaned os) b'\n'
unfolding encode_origins join cleaned
encode_origins-eq-join [] = refl
encode_origins-eq-join (o ∷ os) = refl

-- For entries without an inner line break, what is read back from the column is the stored list
-- with its entries trimmed and its blank entries dropped, in the same order.
pub decode_origins-encode_origins :
    (os : List Str) → All OneLine os → decode_origins (encode_origins os) ≡ cleaned os
decode_origins-encode_origins os h =
    ap decode_origins (encode_origins-eq-join os)
    ∙ decode-join (cleaned os) (Lacks-cleaned os h) (cleaned-NonEmpty os)
    ∙ cleaned_idem os

-- ===== src/Auth/Drawn.antt =====
-- Tokens and the bytes that they are drawn from.
use oximetric.Base.{
  ℕ, zero, suc, ◌+◌, ◌-◌, ◌*◌, ◌/◌, ◌%◌, ◌<◌, ◌≤◌, Str, List, [], ◌∷◌, some, length, All, ◌≡◌, refl,
  sym, ap, ◌∙◌, arith, ltb, leb, take, length-take, Bool-cases, inl, inr, if◌then◌else◌,
}
use oximetric.Auth.{hex_digit, hex_encode, generate_token}

-- The value of a digit.
hex_value : ℕ → ℕ
hex_value c = if ltb c 58 then c - 48 else c - 87

hex_decode : Str → List ℕ
unfolding hex_value
hex_decode (c ∷ d ∷ rest) = (hex_value c * 16 + hex_value d) ∷ hex_decode rest
hex_decode _ = []

hex_value-hex_digit : (n : ℕ) → n < 16 → hex_value (hex_digit n) ≡ n
unfolding hex_value hex_digit
hex_value-hex_digit n h = ground arith

hex_decode-hex_encode : (bs : List ℕ) → All (λ b. b < 256) bs → hex_decode (hex_encode bs) ≡ bs
unfolding hex_decode hex_encode
hex_decode-hex_encode [] h = refl
hex_decode-hex_encode (b ∷ bs) (h, hs) =
    rw
      (
        hex_value-hex_digit (b / 16) (omega arith),
        hex_value-hex_digit (b % 16) (omega arith),
        hex_decode-hex_encode bs hs,
      )
      (ap (λ n. n ∷ bs) (omega arith))

length-hex_encode : (bs : List ℕ) → length (hex_encode bs) ≡ 2 * length bs
unfolding hex_encode
length-hex_encode [] = refl
length-hex_encode (b ∷ bs) = omega (arith, length-hex_encode bs)

All-take_bytes : (P : ℕ → Type 0) (k : ℕ) (bs : List ℕ) → All P bs → All P (take k bs)
All-take_bytes P zero bs h = tt
All-take_bytes P (suc k) [] h = tt
All-take_bytes P (suc k) (b ∷ bs) (h, hs) = (h, All-take_bytes P k bs hs)

-- A token is made of the first 32 bytes of a source that has them.
token_of :
    (source : List ℕ) (token : Str)
    → generate_token (some source) ≡ some token
    → (hex_encode (take 32 source) ≡ token) × (length (take 32 source) ≡ 32)
unfolding generate_token
token_of source token h = elim (Bool-cases (leb 32 (length source))) [
  | inl e ↦
      let long : 32 ≤ length source = ground arith in
      (cc (rw (generate_token, e) at h), omega (arith, length-take 32 source, long))
  | inr e ↦ cc (rw (generate_token, e) at h)
]

-- A token has 64 characters, and equal tokens are drawn as the same 32 bytes, so that tokens that are
-- drawn differently differ.
pub generate_token_differs :
    (xs ys : List ℕ) (token : Str)
    → All (λ b. b < 256) xs
    → All (λ b. b < 256) ys
    → generate_token (some xs) ≡ some token
    → generate_token (some ys) ≡ some token
    → (take 32 xs ≡ take 32 ys) × (length token ≡ 64)
generate_token_differs xs ys token h k e f =
    let (p, n) = token_of xs token e in
    let (q, m) = token_of ys token f in
    (
      sym (hex_decode-hex_encode (take 32 xs) (All-take_bytes _ 32 xs h))
          ∙ (ap hex_decode (p ∙ sym q)
              ∙ hex_decode-hex_encode (take 32 ys) (All-take_bytes _ 32 ys k)),
      sym (ap length p) ∙ (length-hex_encode (take 32 xs) ∙ ap (λ k. 2 * k) n),
    )

-- ===== src/Auth.antt =====
-- internal/auth/auth.go over the libraries that it wraps: bcrypt, totp, jwt and crypto/rand are the
-- parameters of the record `Crypto`.
pub mod Drawn
use oximetric.Base.{
  leb, length, take, if◌then◌else◌, ℕ, ◌+◌, ◌/◌, ◌%◌, ℤ, Str, lit, Bool, List, [], ◌∷◌, Option,
  none, some, ltb, if◌then◌else◌,
}
use oximetric.Model.{Time}

pub record Claims : Type 0 where
  pub user_id : ℤ
  pub username : Str
  pub role : Str
  pub expires_at : Time
  pub issued_at : Time

-- The signing method that a token's header names.
pub data SigningMethod : Type 0 where
  hmac other : SigningMethod

pub record Crypto : Type 0 where
  -- bcrypt.GenerateFromPassword at the default cost, with the salt that it draws
  pub bcrypt_generate : ℕ → Str → Option Str
  -- bcrypt.CompareHashAndPassword returns nil
  pub bcrypt_compare : Str → Str → Bool
  -- totp.Validate at a time
  pub totp_validate : Time → Str → Str → Bool
  -- totp.Generate for an issuer and an account, with the randomness that it draws
  pub totp_generate : ℕ → Str → Str → Option (Str × Str)
  -- token.SignedString with HS256
  pub jwt_sign : Str → Claims → Option Str
  -- jwt.ParseWithClaims: the key function is asked for the key of the header's method; the result
  -- is the claims with the token's `Valid`
  pub jwt_parse : Time → Str → (SigningMethod → Option Str) → Option (Claims × Bool)

-- hex.EncodeToString
unfoldable pub hex_digit : ℕ → ℕ
hex_digit n = if ltb n 10 then 48 + n else 87 + n

unfoldable pub hex_encode : List ℕ → Str
unfolding hex_digit
hex_encode [] = []
hex_encode (b ∷ bs) = hex_digit (b / 16) ∷ hex_digit (b % 16) ∷ hex_encode bs

-- `GenerateToken`: rand.Read fills 32 bytes from the random source, or gives an error when the source
-- does, or has fewer.
unfoldable pub generate_token : Option (List ℕ) → Option Str
unfolding hex_encode
generate_token none = none
generate_token (some source) =
    if leb 32 (length source) then some (hex_encode (take 32 source)) else none

-- Four hours.
abbrev pub jwt_lifetime : ℕ
jwt_lifetime = 14400000000000

module _ (crypto : Crypto) where
  open crypto use {
    bcrypt_generate, bcrypt_compare, totp_validate, totp_generate, jwt_sign, jwt_parse,
  }

  unfoldable pub generate_jwt : Str → Time → ℤ → Str → Str → Option Str
  generate_jwt secret now user_id username role = jwt_sign secret (record {
    user_id = user_id;
    username = username;
    role = role;
    expires_at = now + jwt_lifetime;
    issued_at = now;
  })

  -- The key function: the secret, and no key for a method that is not HMAC.
  unfoldable pub jwt_key : Str → SigningMethod → Option Str
  jwt_key secret SigningMethod.hmac = some secret
  jwt_key secret SigningMethod.other = none

  unfoldable pub validate_jwt : Str → Time → Str → Option Claims
  unfolding jwt_key
  validate_jwt secret now token_str = elim (jwt_parse now token_str (jwt_key secret)) [
    | none ↦ none
    | some (claims, valid) ↦ if valid then some claims else none
  ]

  unfoldable pub hash_password : ℕ → Str → Option Str
  hash_password salt password = bcrypt_generate salt password

  unfoldable pub check_password : Str → Str → Bool
  check_password hash password = bcrypt_compare hash password

  unfoldable pub generate_totp_secret : ℕ → Str → Option (Str × Str)
  generate_totp_secret seed username = totp_generate seed (lit "Oximetric") username

  unfoldable pub validate_totp_code : Time → Str → Str → Bool
  validate_totp_code now secret code = totp_validate now code secret

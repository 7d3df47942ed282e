-- ===== src/Service/Token.antt =====
-- internal/service/token.go: signed session tokens. Times are nanoseconds since 1970; HMAC-SHA256
-- and the JSON form of the claims are parameters.
pub mod Verify
pub mod Secret
pub mod Sample
mod Tests
use cloud_native_entry_task.Prelude.{
  ltb, is_empty, ℕ, ◌≡◌, Bool, ◌||◌, Option, none, some, List, [], ◌∷◌, ◌++◌, Bytes, AreBytes,
  length, codes, bytes_eq, ◌==◌, if◌then◌else◌,
}
use cloud_native_entry_task.Prelude.Int.{ℤ, pos, ◌+ℤ◌, leb_ℤ, floor_div}
use cloud_native_entry_task.GoLib.Base64.{raw_url, encode, decode}
use cloud_native_entry_task.GoLib.Strings.{split, itoa}
use cloud_native_entry_task.GoLib.Errors.{Error, external, unauthorized, Result, ok, err}

-- `time.Time.Unix`
abbrev pub unix : ℤ → ℤ
unix t = floor_div t 1_000_000_000

pub record TokenManager : Type 0 where
  pub secret : Bytes
  pub ttl : ℤ

pub record TokenClaims : Type 0 where
  pub user_id : ℕ
  pub exp : ℤ
  pub nonce : Bytes

-- "token secret is required" and "token secret must be at least 32 bytes"
abbrev pub no_secret : Error
no_secret = external 4

abbrev pub short_secret : Error
short_secret = external 5

-- The bytes that a secret stands for: those that it spells in hexadecimal, else its own.
abbrev pub decoded : (Bytes → Option Bytes) → Bytes → Bytes
decoded decode_hex secret = elim (decode_hex secret) [ none ↦ secret | some bytes ↦ bytes ]

-- `NewTokenManager`; `hex.DecodeString` is a parameter, where `none` is an error.
unfoldable pub new_token_manager : (Bytes → Option Bytes) → Bytes → ℤ → Result TokenManager
new_token_manager decode_hex secret ttl =
    if is_empty secret
    then err no_secret
    else if ltb (length (decoded decode_hex secret)) 32
    then err short_secret
    else ok (record { secret = decoded decode_hex secret; ttl = ttl })

-- crypto/hmac with SHA-256 (key, message), and encoding/json at `tokenClaims`.
pub record TokenCodec : Type 0 where
  pub hmac : Bytes → Bytes → Bytes
  pub marshal_claims : TokenClaims → Bytes
  pub unmarshal_claims : Bytes → Option TokenClaims

-- A MAC and a JSON text are bytes, and the claims come back from their JSON text.
pub record TokenCodecLaws (c : TokenCodec) : Type 0 where
  pub hmac-AreBytes : (key message : Bytes) → AreBytes (c.hmac key message)
  pub marshal-AreBytes : (claims : TokenClaims) → AreBytes (c.marshal_claims claims)
  pub unmarshal-marshal :
      (claims : TokenClaims) → c.unmarshal_claims (c.marshal_claims claims) ≡ some claims

module _ (c : TokenCodec) where
  pub sign : TokenManager → Bytes → Bytes
  sign m payload =
      encode raw_url (c.hmac m.secret (payload ++ (codes ":v1:" ++ itoa (length payload))))

  -- The nonce is what `rand.Read` gave.
  pub issue : TokenManager → ℕ → ℤ → Bytes → Bytes × ℤ
  unfolding sign
  issue m user_id now nonce =
      let exp = unix (now +ℤ m.ttl) in
      let claims : TokenClaims = record {
        user_id = user_id;
        exp = exp;
        nonce = encode raw_url nonce;
      } in
      let payload_part = encode raw_url (c.marshal_claims claims) in
      (payload_part ++ b'.' ∷ sign m payload_part, exp)

  check_claims : ℤ → TokenClaims → Result ℕ
  check_claims now claims =
      if (claims.user_id == 0) || leb_ℤ claims.exp (unix now)
      then err unauthorized
      else ok claims.user_id

  decode_payload : ℤ → Option Bytes → Result ℕ
  unfolding check_claims
  decode_payload now none = err unauthorized
  decode_payload now (some payload) = elim (c.unmarshal_claims payload) [
    | none ↦ err unauthorized
    | some claims ↦ check_claims now claims
  ]

  verify_parts : TokenManager → ℤ → List Bytes → Result ℕ
  verify_parts m now (payload ∷ sig ∷ []) =
      if bytes_eq (sign m payload) sig
      then decode_payload now (decode raw_url payload)
      else err unauthorized
  verify_parts m now _ = err unauthorized

  pub verify : TokenManager → Bytes → ℤ → Result ℕ
  unfolding verify_parts
  verify m token now = verify_parts m now (split b'.' token)

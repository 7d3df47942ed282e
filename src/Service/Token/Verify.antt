-- ===== src/Service/Token/Verify.antt =====
-- What verification accepts.
use cloud_native_entry_task.Prelude.{
  ℕ, inl, inr, Option, ◌≡◌, ◌≢◌, refl, false, some, none, List, [], ◌∷◌, ◌++◌, Bytes, AreBytes,
  arith, bytes_eq_sound, bytes_eq_refl, if◌then◌else◌, Option-cases,
}
use cloud_native_entry_task.Prelude.Int.{ℤ, ◌+ℤ◌, leb_ℤ}
use cloud_native_entry_task.GoLib.Base64.{raw_url, encode, decode}
use cloud_native_entry_task.GoLib.Base64.RoundTrip.{IsPlain, encode-IsPlain, decode-encode}
use cloud_native_entry_task.GoLib.Strings.{split}
use cloud_native_entry_task.GoLib.Strings.Splitting.{Lacks, split-append, split-two}
use cloud_native_entry_task.GoLib.Errors.{unauthorized, ok, err}
use cloud_native_entry_task.Service.Token.{
  TokenManager, TokenClaims, TokenCodec, TokenCodecLaws, unix, sign, issue, check_claims,
  decode_payload, verify_parts, verify,
}

IsPlain-Lacks : (s : Bytes) → IsPlain s → Lacks b'.' s
IsPlain-Lacks [] h = tt
IsPlain-Lacks (c ∷ s) h = (h.0.1, IsPlain-Lacks s h.1)

module _ (c : TokenCodec) where
  sign-Lacks :
      (m : TokenManager) (payload : Bytes) → TokenCodecLaws c → Lacks b'.' (sign c m payload)
  unfolding sign
  sign-Lacks m payload laws =
      IsPlain-Lacks _ (encode-IsPlain raw_url _ (laws.hmac-AreBytes m.secret _))

  verify_signed :
      (m : TokenManager) (payload : Bytes) (now : ℤ)
      → TokenCodecLaws c
      → AreBytes payload
      → verify c m (encode raw_url payload ++ b'.' ∷ sign c m (encode raw_url payload)) now
        ≡ decode_payload c now (some payload)
  verify_signed m payload now laws h =
      unfold verify in
      rw (
        split-append b'.' (encode raw_url payload) (sign c m (encode raw_url payload))
            (IsPlain-Lacks _ (encode-IsPlain raw_url payload h))
            (sign-Lacks m (encode raw_url payload) laws),
        verify_parts,
        bytes_eq_refl (sign c m (encode raw_url payload)),
        decode-encode raw_url payload h,
      )

  -- A token that was issued to a user, whose id is not zero, is accepted as that user's until the
  -- second in which it expires, and is unauthorized from then on, if the codec meets its laws.
  pub verify-issue :
      (m : TokenManager) (user_id : ℕ) (issued now : ℤ) (nonce : Bytes)
      → TokenCodecLaws c
      → user_id ≢ 0
      → verify c m (issue c m user_id issued nonce).0 now
        ≡ (if leb_ℤ (unix (issued +ℤ m.ttl)) (unix now) then err unauthorized else ok user_id)
  unfolding issue
  verify-issue m user_id issued now nonce laws h =
      let claims : TokenClaims = record {
        user_id = user_id;
        exp = unix (issued +ℤ m.ttl);
        nonce = encode raw_url nonce;
      } in
      rw (verify_signed m (c.marshal_claims claims) now laws (laws.marshal-AreBytes claims)) (
        unfold decode_payload in
        rw (laws.unmarshal-marshal claims, decode_payload) (unfold check_claims in ground arith))

  -- The same, by the expiry that `issue` tells.
  pub verify-issue_told :
      (m : TokenManager) (user_id : ℕ) (issued now : ℤ) (nonce : Bytes)
      → TokenCodecLaws c
      → user_id ≢ 0
      → verify c m (issue c m user_id issued nonce).0 now ≡ (
          if leb_ℤ (issue c m user_id issued nonce).1 (unix now)
          then err unauthorized
          else ok user_id)
  unfolding issue
  verify-issue_told m user_id issued now nonce laws h =
      verify-issue m user_id issued now nonce laws h

  check_claims_sound :
      (now : ℤ) (claims : TokenClaims) (user_id : ℕ)
      → check_claims c now claims ≡ ok user_id
      → (claims.user_id ≡ user_id) × (user_id ≢ 0) × (leb_ℤ claims.exp (unix now) ≡ false)
  unfolding check_claims
  check_claims_sound now claims user_id h = ground arith

  decode_payload_sound :
      (now : ℤ) (payload : Option Bytes) (user_id : ℕ)
      → decode_payload c now payload ≡ ok user_id
      → (json : Bytes) × (claims : TokenClaims) × (payload ≡ some json)
        × (c.unmarshal_claims json ≡ some claims)
        × (check_claims c now claims ≡ ok user_id)
  unfolding decode_payload
  decode_payload_sound now none user_id h = absurd (cc)
  decode_payload_sound now (some json) user_id h = elim (Option-cases (c.unmarshal_claims json)) [
    | inl e ↦ cc (rw (e, decode_payload) at h)
    | inr (claims, e) ↦ (json, claims, refl, e, (rw (e, decode_payload) at h))
  ]

  verify_parts_sound :
      (m : TokenManager) (now : ℤ) (parts : List Bytes) (user_id : ℕ)
      → verify_parts c m now parts ≡ ok user_id
      → (payload : Bytes) × (parts ≡ payload ∷ sign c m payload ∷ [])
        × (decode_payload c now (decode raw_url payload) ≡ ok user_id)
  unfolding verify_parts
  verify_parts_sound m now (payload ∷ sig ∷ []) user_id h =
      (payload, ground (arith, bytes_eq_sound (sign c m payload) sig), ground arith)
  verify_parts_sound m now _ user_id h = absurd (cc)

  -- An accepted token holds claims signed with the secret, of that user, and not expired.
  pub verify_sound :
      (m : TokenManager) (token : Bytes) (now : ℤ) (user_id : ℕ)
      → verify c m token now ≡ ok user_id
      → (payload : Bytes) × (json : Bytes) × (claims : TokenClaims) × (token
          ≡ payload ++ b'.' ∷ sign c m payload)
        × (decode raw_url payload ≡ some json)
        × (c.unmarshal_claims json ≡ some claims)
        × ((claims.user_id ≡ user_id) × (user_id ≢ 0) × (leb_ℤ claims.exp (unix now) ≡ false))
  unfolding verify
  verify_sound m token now user_id h =
      let (payload, parts, decoded) = verify_parts_sound m now (split b'.' token) user_id h in
      let (json, claims, is_json, is_claims, checked) =
        decode_payload_sound now (decode raw_url payload) user_id decoded in
      (
        payload,
        json,
        claims,
        split-two b'.' token payload (sign c m payload) parts,
        is_json,
        is_claims,
        check_claims_sound now claims user_id checked,
      )

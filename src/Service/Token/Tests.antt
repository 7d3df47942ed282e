-- ===== src/Service/Token/Tests.antt =====
-- Runs of the token manager, as in internal/service/token_test.go.
use cloud_native_entry_task.Prelude.{
  replicate, Option, none, ℕ, ◌≡◌, ◌≢◌, refl, false, some, [], ◌∷◌, ◌++◌, Bytes, codes, arith,
}
use cloud_native_entry_task.Prelude.Int.{pos, ◌+ℤ◌, leb_ℤ}
use cloud_native_entry_task.GoLib.Base64.{raw_url, decode}
use cloud_native_entry_task.GoLib.Strings.{split}
use cloud_native_entry_task.GoLib.Errors.{unauthorized, ok, err}
use cloud_native_entry_task.Service.Token.{TokenManager, TokenClaims, unix, sign, issue, verify}
use cloud_native_entry_task.Service.Token.Verify.{verify-issue, verify_sound}
use cloud_native_entry_task.Service.Token.Sample.{sample, sample-TokenCodecLaws}

abbrev manager : TokenManager
manager = record { secret = codes "0123456789abcdef"; ttl = pos 60_000_000_000 }

abbrev token : Bytes
token = (issue sample manager 7 (pos 5_000_000_000) (1 ∷ 2 ∷ [])).0

accepted_while_live : verify sample manager token (pos 64_999_999_999) ≡ ok 7
unfolding ◌+ℤ◌
accepted_while_live =
    verify-issue sample manager 7 (pos 5_000_000_000) (pos 64_999_999_999) (1 ∷ 2 ∷ [])
      sample-TokenCodecLaws (omega arith)

verify-issue_example : verify sample manager token (pos 65_000_000_000) ≡ err unauthorized
unfolding ◌+ℤ◌
verify-issue_example =
    verify-issue sample manager 7 (pos 5_000_000_000) (pos 65_000_000_000) (1 ∷ 2 ∷ [])
      sample-TokenCodecLaws (omega arith)

no_dot : verify sample manager (codes "abc") (pos 0) ≡ err unauthorized
unfolding verify split
no_dot = refl

verify_sound_example :
    (payload : Bytes) × (json : Bytes) × (claims : TokenClaims) × (token
      ≡ payload ++ b'.' ∷ sign sample manager payload)
    × (decode raw_url payload ≡ some json)
    × (sample.unmarshal_claims json ≡ some claims)
    × ((claims.user_id ≡ 7)
        × (◌≢◌ {A = ℕ} 7 0)
        × (leb_ℤ claims.exp (unix (pos 64_999_999_999)) ≡ false))
verify_sound_example = verify_sound sample manager token (pos 64_999_999_999) 7 accepted_while_live

abbrev not_hex : Bytes → Option Bytes
not_hex v = none

abbrev long_secret : Bytes
long_secret = replicate 32 48

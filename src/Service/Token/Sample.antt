-- ===== src/Service/Token/Sample.antt =====
-- A concrete codec that meets the laws of `TokenCodec`: a checksum for the MAC, and claims written
-- as unary numbers.
use cloud_native_entry_task.Prelude.{
  ℕ, zero, suc, ◌+◌, ◌*◌, ◌%◌, ◌≡◌, refl, ap, ◌∙◌, Option, none, some, List, [], ◌∷◌, ◌++◌, Bytes,
  AreBytes, arith, codes,
}
use cloud_native_entry_task.Prelude.Int.{ℤ, pos, negsuc}
use cloud_native_entry_task.GoLib.Errors.{err, unauthorized}
use cloud_native_entry_task.GoLib.Strings.{split}
use cloud_native_entry_task.Service.Token.{
  TokenManager, verify, TokenClaims, TokenCodec, TokenCodecLaws,
}

checksum : Bytes → ℕ
checksum [] = 0
checksum (b ∷ bs) = b + 3 * checksum bs

ones : ℕ → Bytes → Bytes
ones zero rest = rest
ones (suc n) rest = 1 ∷ ones n rest

write_all : List ℕ → Bytes
write_all [] = []
write_all (n ∷ ns) = ones n (0 ∷ write_all ns)

read_all : ℕ → Bytes → List ℕ
read_all seen [] = []
read_all seen (zero ∷ s) = seen ∷ read_all 0 s
read_all seen (suc _ ∷ s) = read_all (seen + 1) s

read_all-ones : (n seen : ℕ) (s : Bytes) → read_all seen (ones n s) ≡ read_all (seen + n) s
unfolding read_all ones
read_all-ones zero seen s = ap (λ (k : ℕ). read_all k s) (omega arith)
read_all-ones (suc n) seen s =
    read_all-ones n (seen + 1) s ∙ ap (λ (k : ℕ). read_all k s) (omega arith)

read_all-write_all : (ns : List ℕ) → read_all 0 (write_all ns) ≡ ns
unfolding read_all write_all
read_all-write_all [] = refl
read_all-write_all (n ∷ ns) =
    read_all-ones n 0 (0 ∷ write_all ns) ∙ ground (arith, read_all-write_all ns)

ones-AreBytes : (n : ℕ) (s : Bytes) → AreBytes s → AreBytes (ones n s)
unfolding ones
ones-AreBytes zero s h = h
ones-AreBytes (suc n) s h = (omega arith, ones-AreBytes n s h)

write_all-AreBytes : (ns : List ℕ) → AreBytes (write_all ns)
unfolding write_all
write_all-AreBytes [] = tt
write_all-AreBytes (n ∷ ns) = ones-AreBytes n _ (omega arith, write_all-AreBytes ns)

to_numbers : TokenClaims → List ℕ
to_numbers claims = elim claims.exp [
  | pos n ↦ claims.user_id ∷ 0 ∷ n ∷ claims.nonce
  | negsuc n ↦ claims.user_id ∷ 1 ∷ n ∷ claims.nonce
]

of_numbers : List ℕ → Option TokenClaims
of_numbers (user_id ∷ zero ∷ n ∷ nonce) =
    some (record { user_id = user_id; exp = pos n; nonce = nonce })
of_numbers (user_id ∷ suc _ ∷ n ∷ nonce) =
    some (record { user_id = user_id; exp = negsuc n; nonce = nonce })
of_numbers _ = none

of_numbers-to_numbers : (claims : TokenClaims) → of_numbers (to_numbers claims) ≡ some claims
unfolding of_numbers to_numbers
of_numbers-to_numbers claims = ground arith

abbrev pub sample : TokenCodec
unfolding checksum write_all read_all to_numbers of_numbers ones
sample = record {
  hmac = λ key message. (checksum (key ++ message) % 256) ∷ [];
  marshal_claims = λ claims. write_all (to_numbers claims);
  unmarshal_claims = λ json. of_numbers (read_all 0 json);
}

pub sample-TokenCodecLaws : TokenCodecLaws sample
unfolding checksum write_all read_all to_numbers of_numbers ones
sample-TokenCodecLaws = record {
  hmac-AreBytes = λ key message. omega arith;
  marshal-AreBytes = λ claims. write_all-AreBytes (to_numbers claims);
  unmarshal-marshal =
      λ claims. rw (read_all-write_all (to_numbers claims)) (of_numbers-to_numbers claims);
}

-- A token without a dot is refused.
pub undotted_refused :
    (m : TokenManager) (now : ℤ) → verify sample m (codes "a") now ≡ err unauthorized
unfolding verify split
undotted_refused m now = refl

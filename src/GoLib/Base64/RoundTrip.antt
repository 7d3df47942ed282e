-- ===== src/GoLib/Base64/RoundTrip.antt =====
-- Decoding what was encoded gives back the bytes, and no encoding holds a dot.
use cloud_native_entry_task.Prelude.{
  ℕ, ◌+◌, ◌*◌, ◌/◌, ◌%◌, ◌<◌, ◌≡◌, refl, ◌≢◌, false, some, [], ◌∷◌, Bytes, AreBytes, All, arith,
  ◌==◌, is_empty,
}
use cloud_native_entry_task.GoLib.Base64.{
  Encoding, std, raw_url, encode_char, decode_char, encode, decode_groups, strip_newlines, decode,
  decode_2, decode_3, decode_4, padding,
}

-- The character of a six-bit value decodes to it, and is no padding, line break or dot.
record IsDigit (e : Encoding) (i c : ℕ) : Type 0 where
  value : decode_char e c ≡ some i
  no_pad : (c == b'=') ≡ false
  above : 42 < c
  no_dot : c ≢ b'.'

encode_char-IsDigit : (e : Encoding) (i : ℕ) → i < 64 → IsDigit e i (encode_char e i)
unfolding encode_char decode_char
encode_char-IsDigit std i h = ground arith
encode_char-IsDigit raw_url i h = ground arith

module _ (e : Encoding) where
  digit : (i : ℕ) → i < 64 → IsDigit e i (encode_char e i)
  digit = encode_char-IsDigit e

  decode_2-encode_char :
      (i j : ℕ)
      → i < 64
      → j < 64
      → decode_2 e (encode_char e i) (encode_char e j) ≡ some ((i * 4 + j / 16) ∷ [])
  unfolding decode_2
  decode_2-encode_char i j hi hj = rw ((digit i hi).value, (digit j hj).value)

  decode_3-encode_char :
      (i j k : ℕ)
      → i < 64
      → j < 64
      → k < 64
      → decode_3 e (encode_char e i) (encode_char e j) (encode_char e k)
        ≡ some ((i * 4 + j / 16) ∷ (j % 16 * 16 + k / 4) ∷ [])
  unfolding decode_3
  decode_3-encode_char i j k hi hj hk =
      rw ((digit i hi).value, (digit j hj).value, (digit k hk).value)

  decode_4-encode_char :
      (i j k l : ℕ)
      → i < 64
      → j < 64
      → k < 64
      → l < 64
      → decode_4 e (encode_char e i) (encode_char e j) (encode_char e k) (encode_char e l)
        ≡ some ((i * 4 + j / 16) ∷ (j % 16 * 16 + k / 4) ∷ (k % 4 * 64 + l) ∷ [])
  unfolding decode_4
  decode_4-encode_char i j k l hi hj hk hl =
      rw ((digit i hi).value, (digit j hj).value, (digit k hk).value, (digit l hl).value)

module _ (e : Encoding) where
  decode_1_byte :
      (a : ℕ)
      → a < 256
      → decode_2 e (encode_char e (a / 4)) (encode_char e (a % 4 * 16)) ≡ some (a ∷ [])
  decode_1_byte a ha =
      rw (decode_2-encode_char e (a / 4) (a % 4 * 16) (omega arith) (omega arith)) (ground arith)

  decode_2_bytes :
      (a b : ℕ)
      → a < 256
      → b < 256
      → decode_3 e
          (encode_char e (a / 4))
          (encode_char e (a % 4 * 16 + b / 16))
          (encode_char e (b % 16 * 4))
        ≡ some (a ∷ b ∷ [])
  decode_2_bytes a b ha hb =
      rw
        (decode_3-encode_char e (a / 4) (a % 4 * 16 + b / 16) (b % 16 * 4) (omega arith)
          (omega arith) (omega arith))
        (ground arith)

  decode_3_bytes :
      (a b c : ℕ)
      → a < 256
      → b < 256
      → c < 256
      → decode_4 e
          (encode_char e (a / 4))
          (encode_char e (a % 4 * 16 + b / 16))
          (encode_char e (b % 16 * 4 + c / 64))
          (encode_char e (c % 64))
        ≡ some (a ∷ b ∷ c ∷ [])
  decode_3_bytes a b c ha hb hc =
      rw
        (decode_4-encode_char e (a / 4) (a % 4 * 16 + b / 16) (b % 16 * 4 + c / 64) (c % 64)
          (omega arith) (omega arith) (omega arith) (omega arith))
        (ground arith)

-- Decoding an encoding gives back the bytes.
decode_groups-encode :
    (e : Encoding) (bs : Bytes) → AreBytes bs → decode_groups e (encode e bs) ≡ some bs
unfolding decode_groups encode is_empty
decode_groups-encode e [] h = refl
decode_groups-encode std (a ∷ []) h = decode_1_byte std a h.0
decode_groups-encode raw_url (a ∷ []) h = decode_1_byte raw_url a h.0
decode_groups-encode std (a ∷ b ∷ []) h =
    rw (encode_char-IsDigit std (b % 16 * 4) (omega arith)).no_pad
      (decode_2_bytes std a b h.0 h.1.0)
decode_groups-encode raw_url (a ∷ b ∷ []) h = decode_2_bytes raw_url a b h.0 h.1.0
decode_groups-encode e (a ∷ b ∷ c ∷ bs) h = ground (
  arith,
  (encode_char-IsDigit e (b % 16 * 4 + c / 64) (omega arith)).no_pad,
  (encode_char-IsDigit e (c % 64) (omega arith)).no_pad,
  decode_3_bytes e a b c h.0 h.1.0 h.1.1.0,
  decode_groups-encode e bs h.1.1.1,
)

-- The characters of an encoding are no line breaks and no dots.
abbrev pub IsPlain : Bytes → Type 0
IsPlain s = All (λ c. (42 < c) × (c ≢ b'.')) s

IsPlain-padding : (e : Encoding) (p : Bytes) → IsPlain p → IsPlain (padding e p)
IsPlain-padding std p h = h
IsPlain-padding raw_url p h = tt

module _ (e : Encoding) where
  plain_digit : (i : ℕ) → i < 64 → (42 < encode_char e i) × (encode_char e i ≢ b'.')
  plain_digit i h = let d = encode_char-IsDigit e i h in (d.above, d.no_dot)

  pub encode-IsPlain : (bs : Bytes) → AreBytes bs → IsPlain (encode e bs)
  unfolding encode
  encode-IsPlain [] h = tt
  encode-IsPlain (a ∷ []) h = (
    plain_digit (a / 4) (omega arith),
    (plain_digit (a % 4 * 16) (omega arith), IsPlain-padding e (b'=' ∷ b'=' ∷ []) (ground arith)),
  )
  encode-IsPlain (a ∷ b ∷ []) h = (
    plain_digit (a / 4) (omega arith),
    (
      plain_digit (a % 4 * 16 + b / 16) (omega arith),
      (plain_digit (b % 16 * 4) (omega arith), IsPlain-padding e (b'=' ∷ []) (ground arith)),
    ),
  )
  encode-IsPlain (a ∷ b ∷ c ∷ bs) h = (
    plain_digit (a / 4) (omega arith),
    (
      plain_digit (a % 4 * 16 + b / 16) (omega arith),
      (
        plain_digit (b % 16 * 4 + c / 64) (omega arith),
        (plain_digit (c % 64) (omega arith), encode-IsPlain bs h.1.1.1),
      ),
    ),
  )

strip_newlines_of_IsPlain : (s : Bytes) → IsPlain s → strip_newlines s ≡ s
unfolding strip_newlines
strip_newlines_of_IsPlain [] h = refl
strip_newlines_of_IsPlain (c ∷ s) h = ground (arith, strip_newlines_of_IsPlain s h.1)

pub decode-encode : (e : Encoding) (bs : Bytes) → AreBytes bs → decode e (encode e bs) ≡ some bs
unfolding decode
decode-encode e bs h =
    rw (strip_newlines_of_IsPlain (encode e bs) (encode-IsPlain e bs h))
      (decode_groups-encode e bs h)

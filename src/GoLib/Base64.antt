-- ===== src/GoLib/Base64.antt =====
-- encoding/base64: `StdEncoding` (padded) and `RawURLEncoding`, with the decoder that skips line
-- breaks and does not look at the unused bits of the last character.
pub mod RoundTrip
use cloud_native_entry_task.Prelude.{
  ℕ, ◌+◌, ◌-◌, ◌*◌, ◌/◌, ◌%◌, Bool, true, false, ◌&&◌, ◌||◌, Option, none, some, List, [], ◌∷◌,
  ◌++◌, Bytes, ltb, leb, ◌==◌, if◌then◌else◌, is_empty,
}

pub data Encoding : Type 0 where
  std raw_url : Encoding

abbrev pub is_padded : Encoding → Bool
is_padded std = true
is_padded raw_url = false

abbrev char_62 : Encoding → ℕ
char_62 std = b'+'
char_62 raw_url = b'-'

abbrev char_63 : Encoding → ℕ
char_63 std = b'/'
char_63 raw_url = b'_'

encode_char : Encoding → ℕ → ℕ
encode_char e i =
    if ltb i 26
    then i + 65
    else if ltb i 52
    then i + 71
    else if ltb i 62
    then i - 4
    else if i == 62
    then char_62 e
    else char_63 e

decode_char : Encoding → ℕ → Option ℕ
decode_char e c =
    if leb 65 c && leb c 90
    then some (c - 65)
    else if leb 97 c && leb c 122
    then some (c - 71)
    else if leb 48 c && leb c 57
    then some (c + 4)
    else if c == char_62 e
    then some 62
    else if c == char_63 e
    then some 63
    else none

abbrev pub padding : Encoding → Bytes → Bytes
padding std p = p
padding raw_url p = []

unfoldable pub encode : Encoding → Bytes → Bytes
unfolding encode_char
encode e [] = []
encode e (a ∷ []) =
    encode_char e (a / 4) ∷ encode_char e (a % 4 * 16) ∷ padding e (b'=' ∷ b'=' ∷ [])
encode e (a ∷ b ∷ []) =
    encode_char e (a / 4)
    ∷ encode_char e (a % 4 * 16 + b / 16)
    ∷ encode_char e (b % 16 * 4)
    ∷ padding e (b'=' ∷ [])
encode e (a ∷ b ∷ c ∷ r) =
    encode_char e (a / 4)
    ∷ encode_char e (a % 4 * 16 + b / 16)
    ∷ encode_char e (b % 16 * 4 + c / 64)
    ∷ encode_char e (c % 64)
    ∷ encode e r

infixl 5 ◌>>=◌
abbrev ◌>>=◌ : {A B : Type 0} → Option A → (A → Option B) → Option B
none >>= f = none
some a >>= f = f a

abbrev is_pad : Encoding → ℕ → Bool
is_pad e c = is_padded e && (c == b'=')

decode_2 : Encoding → ℕ → ℕ → Option Bytes
decode_2 e w x = do i ← decode_char e w; j ← decode_char e x; some ((i * 4 + j / 16) ∷ [])

decode_3 : Encoding → ℕ → ℕ → ℕ → Option Bytes
decode_3 e w x y = do
  i ← decode_char e w
  j ← decode_char e x
  k ← decode_char e y
  some ((i * 4 + j / 16) ∷ (j % 16 * 16 + k / 4) ∷ [])

decode_4 : Encoding → ℕ → ℕ → ℕ → ℕ → Option Bytes
decode_4 e w x y z = do
  i ← decode_char e w
  j ← decode_char e x
  k ← decode_char e y
  l ← decode_char e z
  some ((i * 4 + j / 16) ∷ (j % 16 * 16 + k / 4) ∷ (k % 4 * 64 + l) ∷ [])

abbrev append_rest : Option Bytes → Bytes → Option Bytes
append_rest rest q = do r ← rest; some (q ++ r)

-- The groups of four characters, line breaks removed.
decode_groups : Encoding → Bytes → Option Bytes
decode_groups e [] = some []
decode_groups e (w ∷ []) = none
decode_groups e (w ∷ x ∷ []) = if is_padded e then none else decode_2 e w x
decode_groups e (w ∷ x ∷ y ∷ []) = if is_padded e then none else decode_3 e w x y
decode_groups e (w ∷ x ∷ y ∷ z ∷ r) =
    let rest = decode_groups e r in
    if is_pad e y
    then (if is_pad e z && is_empty r then decode_2 e w x else none)
    else if is_pad e z
    then (if is_empty r then decode_3 e w x y else none)
    else decode_4 e w x y z >>= append_rest rest

strip_newlines : Bytes → Bytes
strip_newlines [] = []
strip_newlines (c ∷ s) = if (c == 10) || (c == 13) then strip_newlines s else c ∷ strip_newlines s

unfoldable pub decode : Encoding → Bytes → Option Bytes
unfolding decode_groups decode_2 decode_3 decode_4 decode_char strip_newlines is_empty
decode e s = decode_groups e (strip_newlines s)

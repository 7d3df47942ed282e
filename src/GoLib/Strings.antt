-- ===== src/GoLib/Strings.antt =====
-- `strings`, `unicode/utf8`, `path/filepath` and `strconv`, over the bytes of a Go string.
pub mod Splitting
pub mod Decimal
pub mod Trimming
pub mod Trimmed
pub mod Ascii
use mathlib.Core.List.{reverse}
use cloud_native_entry_task.Prelude.{
  ℕ, zero, suc, ◌+◌, ◌-◌, ◌/◌, ◌%◌, Bool, true, false, ◌&&◌, ◌||◌, Option, none, some, List, [],
  ◌∷◌, ◌++◌, Bytes, ltb, leb, ◌==◌, if◌then◌else◌, bytes_eq,
}
use cloud_native_entry_task.Prelude.Int.{ℤ, pos, negsuc}

-- `unicode.IsSpace`, by the length of the code point in UTF-8.
is_space_1 : ℕ → Bool
is_space_1 a = (leb 9 a && leb a 13) || (a == 32)

is_space_2 : ℕ → ℕ → Bool
is_space_2 a b = (a == 0xC2) && ((b == 0x85) || (b == 0xA0))

is_space_3 : ℕ → ℕ → ℕ → Bool
is_space_3 a b c =
    ((a == 0xE1) && (b == 0x9A) && (c == 0x80))
    || ((a == 0xE2)
        && (b == 0x80)
        && ((leb 0x80 c && leb c 0x8A) || (c == 0xA8) || (c == 0xA9) || (c == 0xAF)))
    || ((a == 0xE2) && (b == 0x81) && (c == 0x9F))
    || ((a == 0xE3) && (b == 0x80) && (c == 0x80))

-- Drops spaces from the front, for tests on one, two and three bytes.
trim_with : (ℕ → ℕ → Bool) → (ℕ → ℕ → ℕ → Bool) → Bytes → Bytes
trim_with two three [] = []
trim_with two three (a ∷ []) = if is_space_1 a then [] else a ∷ []
trim_with two three (a ∷ b ∷ []) = elim (is_space_1 a) [
  | true ↦ trim_with two three (b ∷ [])
  | false ↦ if two a b then [] else a ∷ b ∷ []
]
trim_with two three (a ∷ b ∷ c ∷ s) = elim (is_space_1 a) [
  | true ↦ trim_with two three (b ∷ c ∷ s)
  | false ↦ elim (two a b) [
    | true ↦ trim_with two three (c ∷ s)
    | false ↦ elim (three a b c) [ true ↦ trim_with two three s | false ↦ a ∷ b ∷ c ∷ s ]
  ]
]

-- `strings.TrimSpace`; the end is trimmed from the reversed string.
unfoldable pub trim_space : Bytes → Bytes
unfolding trim_with is_space_1 is_space_2 is_space_3
trim_space s = reverse (
    trim_with (λ b a. is_space_2 a b) (λ c b a. is_space_3 a b c)
      (reverse (trim_with is_space_2 is_space_3 s)))

-- `strings.Split` at one byte: never empty.
add_to_first : ℕ → List Bytes → List Bytes
add_to_first c [] = (c ∷ []) ∷ []
add_to_first c (p ∷ ps) = (c ∷ p) ∷ ps

unfoldable pub split : ℕ → Bytes → List Bytes
unfolding add_to_first
split sep [] = [] ∷ []
split sep (c ∷ s) = let rest = split sep s in if c == sep then [] ∷ rest else add_to_first c rest

-- `strings.Split(s, sep)[0]`
unfoldable pub first_part : ℕ → Bytes → Bytes
first_part sep [] = []
first_part sep (c ∷ s) = if c == sep then [] else c ∷ first_part sep s

-- `strings.TrimRight` with one byte as the cut set.
unfoldable pub drop_while_eq : ℕ → Bytes → Bytes
drop_while_eq cut [] = []
drop_while_eq cut (c ∷ s) = if c == cut then drop_while_eq cut s else c ∷ s

unfoldable pub trim_right : Bytes → ℕ → Bytes
unfolding drop_while_eq
trim_right s cut = reverse (drop_while_eq cut (reverse s))

unfoldable pub contains : Bytes → ℕ → Bool
contains [] b = false
contains (c ∷ s) b = (c == b) || contains s b

-- `strings.ToLower`: the ASCII letters, and U+0130 and U+212A, whose lower case is ASCII. What else
-- is not ASCII stays so, and is left as it is: the source only compares the result with ASCII texts.
lower_byte : ℕ → ℕ
lower_byte c = if leb b'A' c && leb c b'Z' then c + 32 else c

unfoldable pub to_lower : Bytes → Bytes
unfolding lower_byte
to_lower [] = []
to_lower (a ∷ []) = lower_byte a ∷ []
to_lower (a ∷ b ∷ []) =
    if (a == 0xC4) && (b == 0xB0) then b'i' ∷ [] else lower_byte a ∷ lower_byte b ∷ []
to_lower (a ∷ b ∷ c ∷ s) = elim ((a == 0xC4) && (b == 0xB0)) [
  | true ↦ b'i' ∷ to_lower (c ∷ s)
  | false ↦ elim ((a == 0xE2) && (b == 0x84) && (c == 0xAA)) [
    | true ↦ b'k' ∷ to_lower s
    | false ↦ lower_byte a ∷ to_lower (b ∷ c ∷ s)
  ]
]

-- `filepath.Ext`: from the last dot of the last element, read backwards.
ext_from : Bytes → Bytes → Bytes
ext_from seen [] = []
ext_from seen (c ∷ r) =
    if c == b'/' then [] else if c == b'.' then c ∷ seen else ext_from (c ∷ seen) r

unfoldable pub ext : Bytes → Bytes
unfolding ext_from
ext name = ext_from [] (reverse name)

-- `utf8.ValidString`: the ranges that the bytes after a leading byte must lie in.
abbrev Ranges : Type 0
Ranges = List (ℕ × ℕ)

continuation : ℕ × ℕ
continuation = (0x80, 0xBF)

ranges_after : ℕ → Option Ranges
unfolding continuation
ranges_after c =
    if ltb c 0x80
    then some []
    else if ltb c 0xC2
    then none
    else if ltb c 0xE0
    then some (continuation ∷ [])
    else if c == 0xE0
    then some ((0xA0, 0xBF) ∷ continuation ∷ [])
    else if c == 0xED
    then some ((0x80, 0x9F) ∷ continuation ∷ [])
    else if ltb c 0xF0
    then some (continuation ∷ continuation ∷ [])
    else if c == 0xF0
    then some ((0x90, 0xBF) ∷ continuation ∷ continuation ∷ [])
    else if ltb c 0xF4
    then some (continuation ∷ continuation ∷ continuation ∷ [])
    else if c == 0xF4
    then some ((0x80, 0x8F) ∷ continuation ∷ continuation ∷ [])
    else none

valid_from : Ranges → Bytes → Bool
unfolding ranges_after
valid_from [] [] = true
valid_from (range ∷ more) [] = false
valid_from [] (c ∷ s) = elim (ranges_after c) [ none ↦ false | some ranges ↦ valid_from ranges s ]
valid_from ((lo, hi) ∷ more) (c ∷ s) = leb lo c && leb c hi && valid_from more s

unfoldable pub valid_string : Bytes → Bool
unfolding valid_from
valid_string s = valid_from [] s

-- `strconv.Itoa`: a number has at most as many digits as it counts, and at least one.
itoa_fuel : ℕ → ℕ → Bytes → Bytes
itoa_fuel zero n out = (48 + n % 10) ∷ out
itoa_fuel (suc fuel) n out = elim (ltb n 10) [
  | true ↦ (48 + n) ∷ out
  | false ↦ itoa_fuel fuel (n / 10) ((48 + n % 10) ∷ out)
]

unfoldable pub itoa : ℕ → Bytes
unfolding itoa_fuel
itoa n = itoa_fuel n n []

unfoldable pub itoa_ℤ : ℤ → Bytes
unfolding itoa
itoa_ℤ (pos n) = itoa n
itoa_ℤ (negsuc n) = b'-' ∷ itoa (suc n)

-- Membership in a set of texts, as a map with empty values.
unfoldable pub member : Bytes → List Bytes → Bool
unfolding bytes_eq
member x [] = false
member x (y ∷ ys) = bytes_eq x y || member x ys

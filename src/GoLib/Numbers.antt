-- ===== src/GoLib/Numbers.antt =====
-- `strconv.ParseUint`, `ParseInt` and `Atoi` in base ten; `none` stands for an error.
use cloud_native_entry_task.Prelude.{
  ℕ, zero, suc, ◌+◌, ◌-◌, ◌*◌, ◌^◌, Bool, ◌&&◌, Option, none, some, [], ◌∷◌, Bytes, ltb, leb, ◌==◌,
  if◌then◌else◌, is_empty,
}
use cloud_native_entry_task.Prelude.Int.{ℤ, pos, negsuc}

abbrev pub is_digit : ℕ → Bool
is_digit c = leb 48 c && leb c 57

-- The number that some digits spell after what was read before.
unfoldable pub parse_digits : ℕ → Bytes → Option ℕ
parse_digits n [] = some n
parse_digits n (c ∷ s) =
    let rest = parse_digits (n * 10 + (c - 48)) s in if is_digit c then rest else none

abbrev below : ℕ → Option ℕ → Option ℕ
below limit none = none
below limit (some n) = if ltb n limit then some n else none

-- `ParseUint(s, 10, bits)`
unfoldable pub parse_uint : ℕ → Bytes → Option ℕ
unfolding parse_digits
parse_uint bits s = if is_empty s then none else below (2 ^ bits) (parse_digits 0 s)

abbrev positive : Option ℕ → Option ℤ
positive none = none
positive (some n) = some (pos n)

abbrev negative : Option ℕ → Option ℤ
negative none = none
negative (some zero) = some (pos 0)
negative (some (suc n)) = some (negsuc n)

abbrev magnitude : ℕ → Bytes → Option ℕ
magnitude limit s = if is_empty s then none else below limit (parse_digits 0 s)

-- `ParseInt(s, 10, 64)`, and `Atoi`
unfoldable pub parse_int64 : Bytes → Option ℤ
unfolding parse_digits
parse_int64 [] = none
parse_int64 (c ∷ s) =
    if c == b'-'
    then negative (magnitude (2 ^ 63 + 1) s)
    else if c == b'+'
    then positive (magnitude (2 ^ 63) s)
    else positive (magnitude (2 ^ 63) (c ∷ s))

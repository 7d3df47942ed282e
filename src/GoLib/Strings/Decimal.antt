-- ===== src/GoLib/Strings/Decimal.antt =====
-- A number that was printed is read back, and its digits are nothing else.
use cloud_native_entry_task.Prelude.{
  ℕ, zero, suc, ◌+◌, ◌*◌, ◌/◌, ◌%◌, ◌^◌, ◌≤◌, ◌<◌, ◌≡◌, refl, ◌∙◌, true, false, inl, inr, some, [],
  ◌∷◌, Bytes, All, arith, length, ltb, ◌==◌, Bool-cases, is_empty,
}
use cloud_native_entry_task.Prelude.Int.{pos}
use cloud_native_entry_task.GoLib.Strings.{itoa, itoa_fuel}
use cloud_native_entry_task.GoLib.Numbers.{is_digit, parse_digits, parse_uint, parse_int64}

parse_digits-itoa_fuel :
    (fuel n : ℕ) (out : Bytes)
    → n ≤ fuel
    → parse_digits 0 (itoa_fuel fuel n out) ≡ parse_digits n out
unfolding itoa_fuel parse_digits
parse_digits-itoa_fuel zero n out h = ground arith
parse_digits-itoa_fuel (suc fuel) n out h = elim (Bool-cases (ltb n 10)) [
  | inl small ↦ rw (small, itoa_fuel) (ground arith)
  | inr large ↦
      rw (large, itoa_fuel)
        (parse_digits-itoa_fuel fuel (n / 10) ((48 + n % 10) ∷ out) (ground arith) ∙ ground arith)
]

pub parse_digits-itoa : (n : ℕ) → parse_digits 0 (itoa n) ≡ some n
unfolding itoa
parse_digits-itoa n = parse_digits-itoa_fuel n n [] (omega arith) ∙ (unfold parse_digits in refl)

abbrev pub Digits : Bytes → Type 0
Digits s = All (λ c. is_digit c ≡ true) s

itoa_fuel-Digits :
    (fuel n : ℕ) (out : Bytes) → n ≤ fuel → Digits out → Digits (itoa_fuel fuel n out)
unfolding itoa_fuel
itoa_fuel-Digits zero n out h d = (ground arith, d)
itoa_fuel-Digits (suc fuel) n out h d = elim (Bool-cases (ltb n 10)) [
  | inl small ↦ rw (small, itoa_fuel) (ground arith, d)
  | inr large ↦
      rw (large, itoa_fuel)
        (itoa_fuel-Digits fuel (n / 10) ((48 + n % 10) ∷ out) (ground arith) (ground arith, d))
]

pub itoa-Digits : (n : ℕ) → Digits (itoa n)
unfolding itoa
itoa-Digits n = itoa_fuel-Digits n n [] (omega arith) tt

itoa_fuel_cons :
    (fuel n : ℕ) (out : Bytes)
    → n ≤ fuel
    → (c : ℕ) × (s : Bytes) × (itoa_fuel fuel n out ≡ c ∷ s) × (is_digit c ≡ true)
unfolding itoa_fuel
itoa_fuel_cons zero n out h = (48 + n % 10, out, refl, ground arith)
itoa_fuel_cons (suc fuel) n out h = elim (Bool-cases (ltb n 10)) [
  | inl small ↦ rw (small, itoa_fuel) (48 + n, out, refl, ground arith)
  | inr large ↦
      rw (large, itoa_fuel) (itoa_fuel_cons fuel (n / 10) ((48 + n % 10) ∷ out) (ground arith))
]

-- A printed number starts with a digit.
pub itoa_cons : (n : ℕ) → (c : ℕ) × (s : Bytes) × (itoa n ≡ c ∷ s) × (is_digit c ≡ true)
unfolding itoa
itoa_cons n = itoa_fuel_cons n n [] (omega arith)

parse_uint_lem :
    (bits n c : ℕ) (s : Bytes)
    → n < 2 ^ bits
    → parse_digits 0 (c ∷ s) ≡ some n
    → parse_uint bits (c ∷ s) ≡ some n
parse_uint_lem bits n c s h e = unfold parse_uint is_empty in rw (e, parse_uint) (ground (arith, h))

pub parse_uint-itoa : (bits n : ℕ) → n < 2 ^ bits → parse_uint bits (itoa n) ≡ some n
parse_uint-itoa bits n h =
    let (c, s, e, _) = itoa_cons n in
    rw e (parse_uint_lem bits n c s h (rw e at (parse_digits-itoa n)))

parse_int64_lem :
    (n c : ℕ) (s : Bytes)
    → n < 2 ^ 63
    → is_digit c ≡ true
    → parse_digits 0 (c ∷ s) ≡ some n
    → parse_int64 (c ∷ s) ≡ some (pos n)
parse_int64_lem n c s h d e =
    let no_minus : (c == b'-') ≡ false = ground arith in
    let no_plus : (c == b'+') ≡ false = ground arith in
    let small : ltb n (2 ^ 63) ≡ true = ground arith in
    unfold parse_int64 is_empty in rw (no_minus, no_plus, e, parse_int64, small) refl

pub parse_int64-itoa : (n : ℕ) → n < 2 ^ 63 → parse_int64 (itoa n) ≡ some (pos n)
parse_int64-itoa n h =
    let (c, s, e, d) = itoa_cons n in
    rw e (parse_int64_lem n c s h d (rw e at (parse_digits-itoa n)))

abbrev pow_10 : ℕ → ℕ
pow_10 zero = 1
pow_10 (suc k) = 10 * pow_10 k

length-itoa_fuel :
    (k fuel n : ℕ) (out : Bytes)
    → n < pow_10 (suc k)
    → length (itoa_fuel fuel n out) ≤ suc k + length out
unfolding itoa_fuel
length-itoa_fuel k zero n out h = omega arith
length-itoa_fuel zero (suc fuel) n out h = ground arith
length-itoa_fuel (suc k) (suc fuel) n out h = elim (Bool-cases (ltb n 10)) [
  | inl small ↦ rw (small, itoa_fuel) (omega arith)
  | inr large ↦
      rw (large, itoa_fuel)
        (omega (arith, length-itoa_fuel k fuel (n / 10) ((48 + n % 10) ∷ out) (omega arith)))
]

-- A number of 64 bits has at most twenty digits.
pub length-itoa : (n : ℕ) → n < 2 ^ 64 → length (itoa n) ≤ 20
unfolding itoa
length-itoa n h = omega (arith, length-itoa_fuel 19 n n [] (omega arith))

pub itoa-is_empty : (n : ℕ) → is_empty (itoa n) ≡ false
itoa-is_empty n = let (c, s, e, d) = itoa_cons n in unfold is_empty in rw e refl

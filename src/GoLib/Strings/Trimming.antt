-- ===== src/GoLib/Strings/Trimming.antt =====
-- What `strings.TrimSpace` leaves.
use mathlib.Core.List.{reverse, reverse-append}
use cloud_native_entry_task.Prelude.{
  ℕ, ◌≡◌, refl, ap, ◌∙◌, Bool, true, false, inl, inr, [], ◌∷◌, ◌++◌, Bytes, arith, ◌==◌, ◌||◌,
  Bool-cases, ==_iff, is_empty,
}
use cloud_native_entry_task.GoLib.Strings.{
  contains, trim_with, trim_space, is_space_1, is_space_2, is_space_3,
}

contains-append : (xs ys : Bytes) (b : ℕ) → contains (xs ++ ys) b ≡ (contains xs b || contains ys b)
unfolding contains
contains-append [] ys b = refl
contains-append (x ∷ xs) ys b = ground (arith, contains-append xs ys b)

-- A byte that is no part of any space stays.
module _ (b : ℕ) (two : ℕ → ℕ → Bool) (three : ℕ → ℕ → ℕ → Bool) (no_1 : is_space_1 b ≡ false)
    (no_2 : (a c : ℕ) → two a c ≡ true → ((a == b) ≡ false) × ((c == b) ≡ false))
    (no_3 : (a c d : ℕ)
      → three a c d ≡ true
      → ((a == b) ≡ false) × ((c == b) ≡ false) × ((d == b) ≡ false)) where
  space_ne : (a : ℕ) → is_space_1 a ≡ true → (a == b) ≡ false
  space_ne a h = elim (Bool-cases (a == b)) [
    | inl same ↦ absurd (cc (h, no_1, ap is_space_1 ((==_iff a b).0 same)))
    | inr other ↦ other
  ]

  contains-trim_with : (s : Bytes) → contains s b ≡ true → contains (trim_with two three s) b ≡ true
  unfolding contains trim_with
  contains-trim_with [] h = h
  contains-trim_with (a ∷ []) h = ground (arith, space_ne a)
  contains-trim_with (a ∷ c ∷ []) h = elim (Bool-cases (is_space_1 a)) [
    | inl yes_1 ↦ rw (yes_1, trim_with) (contains-trim_with (c ∷ []) (rw (space_ne a yes_1) at h))
    | inr not_1 ↦ rw (not_1, trim_with) (ground (arith, no_2 a c))
  ]
  contains-trim_with (a ∷ c ∷ d ∷ s) h = elim (Bool-cases (is_space_1 a)) [
    | inl yes_1 ↦
        rw (yes_1, trim_with) (contains-trim_with (c ∷ d ∷ s) (rw (space_ne a yes_1) at h))
    | inr not_1 ↦ elim (Bool-cases (two a c)) [
      | inl yes_2 ↦
          rw (not_1, trim_with, yes_2)
            (contains-trim_with (d ∷ s) (rw ((no_2 a c yes_2).0, (no_2 a c yes_2).1) at h))
      | inr not_2 ↦ elim (Bool-cases (three a c d)) [
        | inl yes_3 ↦
            rw (not_1, trim_with, not_2, yes_3)
              (contains-trim_with s
                (rw ((no_3 a c d yes_3).0, (no_3 a c d yes_3).1, (no_3 a c d yes_3).2) at h))
        | inr not_3 ↦ rw (not_1, trim_with, not_2, not_3) h
      ]
    ]
  ]

contains-reverse : (s : Bytes) (b : ℕ) → contains (reverse s) b ≡ contains s b
contains-reverse [] b = refl
contains-reverse (x ∷ s) b =
    ap (λ t. contains t b) (reverse-append (x ∷ []) s)
    ∙ contains-append (reverse s) (x ∷ []) b
    ∙ rw (contains-reverse s b) (unfold contains in ground arith)

-- A text with a dot in it is not blank.
contains_dot-trim_space : (s : Bytes) → contains s b'.' ≡ true → contains (trim_space s) b'.' ≡ true
unfolding trim_space is_space_1 is_space_2 is_space_3
contains_dot-trim_space s h =
    contains-reverse _ b'.'
    ∙ contains-trim_with b'.' (λ b a. is_space_2 a b) (λ c b a. is_space_3 a b c) refl
        (λ a c e. ground arith) (λ a c d e. ground arith) _
        (contains-reverse _ b'.'
          ∙ contains-trim_with b'.' is_space_2 is_space_3 refl (λ a c e. ground arith)
              (λ a c d e. ground arith) s h)

contains-is_empty : (s : Bytes) (b : ℕ) → contains s b ≡ true → is_empty s ≡ false
unfolding contains is_empty
contains-is_empty [] b h = absurd (cc)
contains-is_empty (c ∷ s) b h = refl

pub dotted_not_blank : (a b : Bytes) → is_empty (trim_space (a ++ b'.' ∷ b)) ≡ false
dotted_not_blank a b = contains-is_empty (trim_space (a ++ b'.' ∷ b)) b'.' (
    contains_dot-trim_space (a ++ b'.' ∷ b)
      (contains-append a (b'.' ∷ b) b'.' ∙ (unfold contains in ground arith)))

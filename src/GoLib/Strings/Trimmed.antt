-- ===== src/GoLib/Strings/Trimmed.antt =====
-- `strings.TrimSpace` leaves nothing to trim.
use mathlib.Core.List.{reverse, reverse-append, reverse-reverse}
use cloud_native_entry_task.Prelude.{
  ℕ, suc, ◌≤◌, ◌≡◌, refl, sym, ap, ◌∙◌, Bool, inl, inr, [], ◌∷◌, ◌++◌, Bytes, arith, length,
  Bool-cases,
}
use cloud_native_entry_task.GoLib.Strings.{
  trim_with, trim_space, is_space_1, is_space_2, is_space_3,
}

module _ (two : ℕ → ℕ → Bool) (three : ℕ → ℕ → ℕ → Bool) where
  trim_with-length : (s : Bytes) → length (trim_with two three s) ≤ length s
  unfolding trim_with
  trim_with-length [] = omega arith
  trim_with-length (a ∷ []) = ground arith
  trim_with-length (a ∷ b ∷ []) = ground (arith, trim_with-length (b ∷ []))
  trim_with-length (a ∷ b ∷ c ∷ s) =
      ground (arith, trim_with-length (b ∷ c ∷ s), trim_with-length (c ∷ s), trim_with-length s)

  -- What is trimmed once has nothing more to trim.
  trim_with-trim_with :
      (s : Bytes) → trim_with two three (trim_with two three s) ≡ trim_with two three s
  unfolding trim_with
  trim_with-trim_with [] = refl
  trim_with-trim_with (a ∷ []) = ground arith
  trim_with-trim_with (a ∷ b ∷ []) = ground (arith, trim_with-trim_with (b ∷ []))
  trim_with-trim_with (a ∷ b ∷ c ∷ s) =
      ground
        (arith, trim_with-trim_with (b ∷ c ∷ s), trim_with-trim_with (c ∷ s), trim_with-trim_with s)

  add_front : (a : ℕ) (s t : Bytes) → (d : Bytes) × (s ≡ d ++ t) → (d : Bytes) × (a ∷ s ≡ d ++ t)
  add_front a s t (d, e) = (a ∷ d, ap (◌∷◌ a) e)

  -- What is trimmed is the end of the string.
  trim_with-suffix : (s : Bytes) → (d : Bytes) × (s ≡ d ++ trim_with two three s)
  unfolding trim_with
  trim_with-suffix [] = ([], refl)
  trim_with-suffix (a ∷ []) = elim (Bool-cases (is_space_1 a)) [
    | inl space ↦ rw space (a ∷ [], refl)
    | inr kept ↦ rw kept ([], refl)
  ]
  trim_with-suffix (a ∷ b ∷ []) = elim (Bool-cases (is_space_1 a)) [
    | inl space ↦ rw (space, trim_with) (add_front a _ _ (trim_with-suffix (b ∷ [])))
    | inr not_1 ↦ elim (Bool-cases (two a b)) [
      | inl space ↦ rw (not_1, trim_with, space) (a ∷ b ∷ [], refl)
      | inr not_2 ↦ rw (not_1, trim_with, not_2) ([], refl)
    ]
  ]
  trim_with-suffix (a ∷ b ∷ c ∷ s) = elim (Bool-cases (is_space_1 a)) [
    | inl space ↦ rw (space, trim_with) (add_front a _ _ (trim_with-suffix (b ∷ c ∷ s)))
    | inr not_1 ↦ elim (Bool-cases (two a b)) [
      | inl space ↦
          rw (not_1, trim_with, space)
            (add_front a _ _ (add_front b _ _ (trim_with-suffix (c ∷ s))))
      | inr not_2 ↦ elim (Bool-cases (three a b c)) [
        | inl space ↦
            rw (not_1, trim_with, not_2, space)
              (add_front a _ _ (add_front b _ _ (add_front c _ _ (trim_with-suffix s))))
        | inr not_3 ↦ rw (not_1, trim_with, not_2, not_3) ([], refl)
      ]
    ]
  ]

  not_shorter :
      (s t u : Bytes)
      → length s ≤ length t
      → trim_with two three s ≡ u
      → suc (length t) ≤ length u
      → ⊥
  not_shorter s t u h e k = omega (arith, trim_with-length s, ap (λ x. length x) e)

  -- The front of a string that has nothing to trim there has nothing either.
  trim_with-front :
      (s t : Bytes) → trim_with two three (s ++ t) ≡ s ++ t → trim_with two three s ≡ s
  unfolding trim_with
  trim_with-front [] t e = refl
  trim_with-front (a ∷ []) [] e = e
  trim_with-front (a ∷ []) (b ∷ []) e = ground (arith, not_shorter (b ∷ []) (b ∷ []) (a ∷ b ∷ []))
  trim_with-front (a ∷ []) (b ∷ c ∷ t) e =
      ground (arith, not_shorter (b ∷ c ∷ t) (b ∷ c ∷ t) (a ∷ b ∷ c ∷ t))
  trim_with-front (a ∷ b ∷ []) [] e = e
  trim_with-front (a ∷ b ∷ []) (c ∷ t) e = ground (
    arith,
    not_shorter (b ∷ c ∷ t) (b ∷ c ∷ t) (a ∷ b ∷ c ∷ t),
    not_shorter (c ∷ t) (b ∷ c ∷ t) (a ∷ b ∷ c ∷ t),
  )
  trim_with-front (a ∷ b ∷ c ∷ s) t e = ground (
    arith,
    not_shorter (b ∷ c ∷ (s ++ t)) (b ∷ c ∷ (s ++ t)) (a ∷ b ∷ c ∷ (s ++ t)),
    not_shorter (c ∷ (s ++ t)) (b ∷ c ∷ (s ++ t)) (a ∷ b ∷ c ∷ (s ++ t)),
    not_shorter (s ++ t) (b ∷ c ∷ (s ++ t)) (a ∷ b ∷ c ∷ (s ++ t)),
  )

-- The string between its ends' spaces, for the tests at the front and at the end.
module _ (two two' : ℕ → ℕ → Bool) (three three' : ℕ → ℕ → ℕ → Bool) where
  trim_ends : Bytes → Bytes
  trim_ends s = reverse (trim_with two' three' (reverse (trim_with two three s)))

  front_stays : (s : Bytes) → trim_with two three (trim_ends s) ≡ trim_ends s
  unfolding trim_ends
  front_stays s =
      let front = trim_with two three s in
      let (d, e) = trim_with-suffix two' three' (reverse front) in
      let whole : front ≡ trim_ends s ++ reverse d =
        sym (reverse-reverse front)
        ∙ ap reverse e
        ∙ reverse-append d (trim_with two' three' (reverse front)) in
      trim_with-front two three (trim_ends s) (reverse d)
        (ap (trim_with two three) (sym whole) ∙ trim_with-trim_with two three s ∙ whole)

  trim_ends-trim_ends : (s : Bytes) → trim_ends (trim_ends s) ≡ trim_ends s
  unfolding trim_ends
  trim_ends-trim_ends s =
      ap (λ t. reverse (trim_with two' three' (reverse t))) (front_stays s)
      ∙ ap (λ t. reverse (trim_with two' three' t)) (reverse-reverse _)
      ∙ ap reverse (trim_with-trim_with two' three' (reverse (trim_with two three s)))

-- Trimming twice is trimming once.
pub trim_space-trim_space : (s : Bytes) → trim_space (trim_space s) ≡ trim_space s
unfolding trim_space trim_ends
trim_space-trim_space =
    trim_ends-trim_ends is_space_2 (λ b a. is_space_2 a b) is_space_3 (λ c b a. is_space_3 a b c)

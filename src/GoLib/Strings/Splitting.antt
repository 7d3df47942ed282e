-- ===== src/GoLib/Strings/Splitting.antt =====
-- `strings.Split` at one byte, against concatenation.
use cloud_native_entry_task.Prelude.{
  ℕ, ◌≡◌, refl, ◌≢◌, List, [], ◌∷◌, ◌++◌, Bytes, All, arith, ◌==◌, if◌then◌else◌, ap, sym, ◌∙◌,
}
use cloud_native_entry_task.GoLib.Strings.{add_to_first, split}

abbrev pub Lacks : ℕ → Bytes → Type 0
Lacks sep s = All (λ c. c ≢ sep) s

split_of_Lacks : (sep : ℕ) (s : Bytes) → Lacks sep s → split sep s ≡ s ∷ []
unfolding split
split_of_Lacks sep [] h = refl
split_of_Lacks sep (c ∷ s) h = ground (arith, split_of_Lacks sep s h.1)

-- Two parts that lack the separator come back as they were joined.
pub split-append :
    (sep : ℕ) (a b : Bytes) → Lacks sep a → Lacks sep b → split sep (a ++ sep ∷ b) ≡ a ∷ b ∷ []
unfolding split
split-append sep [] b ha hb = ground (arith, split_of_Lacks sep b hb)
split-append sep (c ∷ a) b ha hb = ground (arith, split-append sep a b ha.1 hb)

-- Parts joined again.
pub join : ℕ → List Bytes → Bytes
join sep [] = []
join sep (p ∷ []) = p
join sep (p ∷ q ∷ ps) = p ++ sep ∷ join sep (q ∷ ps)

join-add_to_first : (sep c : ℕ) (ps : List Bytes) → join sep (add_to_first c ps) ≡ c ∷ join sep ps
unfolding join add_to_first
join-add_to_first sep c [] = refl
join-add_to_first sep c (p ∷ []) = refl
join-add_to_first sep c (p ∷ q ∷ ps) = refl

split-ne-nil : (sep : ℕ) (s : Bytes) → split sep s ≢ []
unfolding split
split-ne-nil sep [] h = cc
split-ne-nil sep (c ∷ s) h = ground arith

join-nil-cons : (sep : ℕ) (ps : List Bytes) → ps ≢ [] → join sep ([] ∷ ps) ≡ sep ∷ join sep ps
unfolding join
join-nil-cons sep [] h = absurd (h refl)
join-nil-cons sep (p ∷ ps) h = refl

split-cons :
    (sep c : ℕ) (s : Bytes)
    → split sep (c ∷ s) ≡ (if c == sep then [] ∷ split sep s else add_to_first c (split sep s))
unfolding split
split-cons sep c s = refl

-- Joining the parts of a split gives back the string.
join-split : (sep : ℕ) (s : Bytes) → join sep (split sep s) ≡ s
join-split sep [] = unfold split join in refl
join-split sep (c ∷ s) = rw (split-cons sep c s) (
    ground (
      arith,
      join-nil-cons sep (split sep s) (split-ne-nil sep s),
      join-add_to_first sep c (split sep s),
      join-split sep s,
    ))

-- A string that splits into two is the two with one separator between them.
pub split-two : (sep : ℕ) (s a b : Bytes) → split sep s ≡ a ∷ b ∷ [] → s ≡ a ++ sep ∷ b
unfolding join
split-two sep s a b h = sym (join-split sep s) ∙ ap (join sep) h

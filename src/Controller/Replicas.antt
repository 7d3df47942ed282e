-- ===== src/Controller/Replicas.antt =====
-- cloud_native_entry_task/controllers/internal/controller/spec.go: the numbers of a parsed spec.
use cloud_native_entry_task.Prelude.{
  ℕ, suc, ◌+◌, ◌%◌, ◌^◌, ◌≤◌, ◌<◌, ◌≡◌, refl, subst, sym, ap, ◌∙◌, Bool, true, Option, none, some,
  [], ◌∷◌, arith,
}
use cloud_native_entry_task.Prelude.Int.{ℤ, pos, negsuc}
use cloud_native_entry_task.GoLib.Errors.{Error, Result, ok, err}
use cloud_native_entry_task.Controller.Client.{Unstructured, ObjectReader}
use cloud_native_entry_task.Controller.Spec.{
  EntrySpec, ◌>>=◌, int32, required_number, is_port, is_positive, bad_port, bad_replicas,
  parse_spec,
}

-- A number of a parsed spec, as it was asked for and as it was taken.
bound_ok :
    {A B : Type 0} (r : Result A) (f : A → Result B) (b : B)
    → (r >>= f) ≡ ok b
    → (a : A) × (r ≡ ok a) × (f a ≡ ok b)
unfolding ◌>>=◌
bound_ok (ok a) f b e = (a, refl, e)
bound_ok (err x) f b e = absurd (cc)

required_number_ok :
    (e : Error) (within : ℤ → Bool) (r : Result (Option ℤ)) (n : ℤ)
    → required_number e within r ≡ ok n
    → (r ≡ ok (some n)) × (within n ≡ true)
unfolding required_number
required_number_ok e within (ok (some k)) n h = ground arith
required_number_ok e within (ok none) n h = absurd (cc)
required_number_ok e within (err x) n h = absurd (cc)

int32_port : (n : ℤ) → is_port n ≡ true → int32 n ≡ n
unfolding int32
int32_port (pos n) h = let e : n % 2 ^ 32 ≡ n = grind arith in rw e (ground arith)
int32_port (negsuc n) h = absurd (ground arith)

-- A number is the low 32 bits of another one, in two's complement.
abbrev pub IsLowBits : ℕ → ℤ → Type 0
IsLowBits asked (pos n) = (n ≡ asked % 2 ^ 32) × (n < 2 ^ 31)
IsLowBits asked (negsuc n) = (asked % 2 ^ 32 + suc n ≡ 2 ^ 32) × (n < 2 ^ 31)

int32-IsLowBits : (n : ℕ) → IsLowBits n (int32 (pos n))
unfolding int32
int32-IsLowBits n = ground arith

positive_pos : (n : ℤ) → is_positive n ≡ true → (m : ℕ) × (n ≡ pos m) × (1 ≤ m)
positive_pos (pos m) h = (m, refl, ground arith)
positive_pos (negsuc m) h = absurd (ground arith)

same_spec : {Q : Type 0} (built spec : EntrySpec Q) → ok built ≡ ok spec → built ≡ spec
same_spec built spec e = cc

module _ {O Q : Type 0} (reader : ObjectReader O Q) where
  -- The port of a spec that was parsed is the one asked for, between 1 and 65535. Its number of
  -- replicas is the low 32 bits, in two's complement, of a positive number that was asked for.
  pub parse_spec_bounds :
      (cr : Unstructured O) (spec : EntrySpec Q)
      → parse_spec reader cr ≡ ok spec
      → (reader.nested_int64 cr.object ("spec" ∷ "config" ∷ "serviceExportPort" ∷ [])
          ≡ ok (some spec.config.service_export_port))
        × (is_port spec.config.service_export_port ≡ true)
        × ((asked : ℕ) × (reader.nested_int64 cr.object ("spec" ∷ "service" ∷ "replicas" ∷ [])
              ≡ ok (some (pos asked)))
            × (1 ≤ asked)
            × IsLowBits asked spec.service.replicas)
  unfolding parse_spec
  parse_spec_bounds cr spec h =
      let (target_db, _, h1) = bound_ok _ _ spec h in
      let (target_redis, _, h2) = bound_ok _ _ spec h1 in
      let (port, got_port, h3) = bound_ok _ _ spec h2 in
      let (image, _, h4) = bound_ok _ _ spec h3 in
      let (replicas, got_replicas, h5) = bound_ok _ _ spec h4 in
      let (resources, _, h6) = bound_ok _ _ spec h5 in
      let (asked_port, in_range) = required_number_ok bad_port is_port _ port got_port in
      let (asked_replicas, positive) =
        required_number_ok bad_replicas is_positive _ replicas got_replicas in
      let (asked, is_asked, least) = positive_pos replicas positive in
      let same = same_spec _ spec h6 in
      let kept_port : port ≡ spec.config.service_export_port =
        sym (int32_port port in_range) ∙ ap (λ s. s.config.service_export_port) same in
      (
        asked_port ∙ ap (λ n. ok (some n)) kept_port,
        sym (ap is_port kept_port) ∙ in_range,
        (
          asked,
          asked_replicas ∙ ap (λ n. ok (some n)) is_asked,
          least,
          subst (λ s. IsLowBits asked s.service.replicas) same
              (subst (λ n. IsLowBits asked (int32 n)) (sym is_asked) (int32-IsLowBits asked)),
        ),
      )
